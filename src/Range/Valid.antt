-- ===== src/Range/Valid.antt =====
-- A string that has to be a range (addressrange.go): `newValidRange`.
use go_red.Range.{AddressRange}
use go_red.Range.Parse.{new_range}
use go_red.Result.{Result, ok, err, panic}
use go_red.Text.{Text}

panic_at_error : Result AddressRange → Result AddressRange
panic_at_error (ok r) = ok r
panic_at_error (err e) = panic
panic_at_error panic = panic

-- `newValidRange`
pub new_valid_range : Text → Result AddressRange
unfolding panic_at_error
new_valid_range s = panic_at_error (new_range s)
