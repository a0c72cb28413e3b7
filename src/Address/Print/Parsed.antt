-- ===== src/Address/Print/Parsed.antt =====
-- What a part of an address prints is read back as that part.
use mathlib.Core.List.{append_assoc}
use go_red.Base.{◌≡◌, true, false, some, [], ◌∷◌, ◌++◌}
use go_red.Address.Parse.Parts.{
  match_at-mark, match_at-forward, match_at-backward, match_at-inc, match_at-dec, match_at-dot,
  match_at-dollar,
}
use go_red.Address.Parse.Printed.{match_at-digits}
use go_red.Address.Parse.{token, is_lower, match_at}
use go_red.Address.Print.{part_text, part_string}
use go_red.Address.{
  Ident, dec, dot, dollar, inc, mark, not_specified, regex_backward, regex_forward, signed_nbr,
  AddressPart,
}
use go_red.Text.Numbers.{starts_digit}
use go_red.Text.Trim.{every}
use go_red.Text.{Text, contains_byte, is_digit}

-- The parts that an address can be written with; a number has no sign here.
abbrev pub IsWritten : Ident → Text → Type 0
IsWritten mark (c ∷ []) = is_lower c ≡ true
IsWritten regex_backward info = contains_byte info b'?' ≡ false
IsWritten regex_forward info = contains_byte info b'/' ≡ false
IsWritten signed_nbr info = (starts_digit info ≡ true) × (every is_digit info ≡ true)
IsWritten inc [] = Unit {0}
IsWritten dec [] = Unit {0}
IsWritten dollar [] = Unit {0}
IsWritten dot [] = Unit {0}
IsWritten _ _ = ⊥

match_at-part_text :
    (ident : Ident) (info rest : Text)
    → IsWritten ident info
    → starts_digit rest ≡ false
    → match_at (part_text ident info ++ rest) ≡ some (token ident info rest)
unfolding part_text
match_at-part_text mark (c ∷ []) rest h k = match_at-mark c rest h
match_at-part_text mark [] rest h k = absurd h
match_at-part_text mark (c ∷ d ∷ info) rest h k = absurd h
match_at-part_text regex_backward info rest h k = rw append_assoc (match_at-backward info rest h)
match_at-part_text regex_forward info rest h k = rw append_assoc (match_at-forward info rest h)
match_at-part_text signed_nbr info rest h k = match_at-digits info rest h.0 h.1 k
match_at-part_text inc [] rest h k = match_at-inc rest k
match_at-part_text inc (c ∷ info) rest h k = absurd h
match_at-part_text dec [] rest h k = match_at-dec rest k
match_at-part_text dec (c ∷ info) rest h k = absurd h
match_at-part_text dollar [] rest h k = match_at-dollar rest
match_at-part_text dollar (c ∷ info) rest h k = absurd h
match_at-part_text dot [] rest h k = match_at-dot rest
match_at-part_text dot (c ∷ info) rest h k = absurd h
match_at-part_text not_specified info rest h k = absurd h

-- A part as it is printed, with no digit behind it, is the part that is read at the head of the string: a mark with
-- a lower-case letter, an expression without its delimiter, a number without a sign, or `+`, `-`, `.` and `$`.
pub match_at-part_string :
    (p : AddressPart) (rest : Text)
    → IsWritten p.addr_ident p.info
    → starts_digit rest ≡ false
    → match_at (part_string p ++ rest) ≡ some (record { part = p; rest = rest })
unfolding part_string
match_at-part_string p rest h k = match_at-part_text p.addr_ident p.info rest h k
