-- ===== src/Transfer/Destination.antt =====
-- The destination of `Move` and `Transfer`, given as a printed line number.
use go_red.Base.{◌≡◌, ◌<◌, ◌≤◌, ℕ, true, pos, length, int_limit}
use go_red.Address.Bounds.{calculate-new_absolute_address}
use go_red.Address.Parse.Printed.{new_address-itoa, is_digit-not_space, starts_digit-nonempty}
use go_red.Exec.{done, ◌>>=◌}
use go_red.Regex.{Engine}
use go_red.State.{World}
use go_red.Text.Numbers.{itoa-starts_digit}
use go_red.Text.Trim.{trim_space-every, every_imp, not_space, itoa-every}
use go_red.Text.{itoa, is_digit}
use go_red.Transfer.{destination}

-- The number of a line of the buffer, or 0, that fits an `int` is the destination that it was printed from.
pub destination-itoa :
    (re : Engine) (n : ℕ) (w : World)
    → n < int_limit
    → n ≤ length w.buffer
    → destination re true (itoa (pos n)) w ≡ done n w
unfolding destination
destination-itoa re n w i l =
    let digits = every_imp is_digit not_space (itoa (pos n)) is_digit-not_space (itoa-every n) in
    rw
      (
        trim_space-every (itoa (pos n)) digits,
        starts_digit-nonempty (itoa (pos n)) (itoa-starts_digit n),
      )
      (rw (new_address-itoa n i, ◌>>=◌)
        (rw (calculate-new_absolute_address re w.buffer w.marks w.line_nbr n i l)))
