-- ===== src/Address/Print.antt =====
-- Addresses and their parts as strings (address.go): `String`, `addressPartsAsString`, `analyzeParseError`.
pub mod Parsed
use go_red.Base.{
  ℕ, ◌+◌, ◌-◌, Bool, true, false, ◌||◌, List, [], ◌∷◌, ◌++◌, ◌==◌, if◌then◌else◌, pos, length, take,
}
use go_red.Address.{
  Ident, dec, dot, dollar, inc, mark, not_specified, regex_backward, regex_forward, signed_nbr,
  AddressPart, Address, is_not_specified,
}
use go_red.Result.{Result, ok, panic, ◌>>=◌}
use go_red.Text.{Text, codes, itoa, is_empty}

-- `String` of a part, by its kind; the last case is the switch's default.
pub part_text : Ident → Text → Text
part_text mark info = 39 ∷ info
part_text regex_backward info = b'?' ∷ (info ++ b'?' ∷ [])
part_text regex_forward info = b'/' ∷ (info ++ b'/' ∷ [])
part_text inc info = b'+' ∷ []
part_text dec info = b'-' ∷ []
part_text dollar info = b'$' ∷ []
part_text dot info = b'.' ∷ []
part_text signed_nbr info = info
part_text not_specified info = codes "not recognised: 'XXX'"

pub part_string : AddressPart → Text
unfolding part_text
part_string p = part_text p.addr_ident p.info

-- Each part with a comma behind it.
parts_string : List AddressPart → Text
unfolding part_string
parts_string [] = []
parts_string (p ∷ ps) = part_string p ++ b',' ∷ parts_string ps

without_last : Text → Text
without_last s = take (length s - 1) s

pub address_parts_as_string : Address → Text
unfolding parts_string without_last
address_parts_as_string a =
    let s = parts_string a.internal in if is_empty s then s else without_last s

-- `String` of an address, which panics where `isNotSpecified` does.
pub address_string : Address → Result Text
unfolding parts_string without_last
address_string a = is_not_specified a >>= λ b. ok (
    if b
    then codes "(not specified)"
    else b'(' ∷ (without_last (parts_string a.internal) ++ b')' ∷ []))

-- Where an error is, and what it is, by the first byte of the characters that were skipped.
pub record ParseError : Type 0 where
  pub location : Text
  pub description : Text

error_location : ℕ → ℕ → Text
error_location start end =
    if start + 1 == end then itoa (pos start) else itoa (pos start) ++ b'-' ∷ itoa (pos end)

error_description : ℕ → Text
error_description c =
    if c == 39
    then codes "incorrect mark"
    else if c == b'/' || c == b'?'
    then codes "non-terminated regex"
    else codes "unrecognised"

pub analyze_parse_error : ℕ → ℕ → Text → Result ParseError
unfolding error_location error_description
analyze_parse_error start end [] = panic
analyze_parse_error start end (c ∷ cs) =
    ok (record { location = error_location start end; description = error_description c })
