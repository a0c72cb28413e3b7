-- ===== src/Range/Parse.antt =====
-- `newRange` (addressrange.go): the two addresses of a range, read off a string.
use go_red.Base.{
  ℕ, ◌+◌, ◌<◌, ◌≡◌, refl, arith, Bool, true, false, ◌||◌, Option, none, some, [], ◌∷◌, ◌++◌, ◌==◌,
  if◌then◌else◌, length, Bool-cases, inl, inr, length-append,
}
use go_red.Address.Parse.{new_address}
use go_red.Address.{Address}
use go_red.Range.{AddressRange, Separator, no_separator, comma, semicolon}
use go_red.Result.{
  Result, ok, err, ◌>>=◌, map_err, unrecognised_range, could_not_parse_address_1,
  could_not_parse_address_2,
}
use go_red.Text.{Text, is_empty, equal, trim_space}

-- `,` and `;`
abbrev pub is_separator : ℕ → Bool
is_separator c = c == b',' || c == b';'

abbrev pub separator_of : ℕ → Separator
separator_of c = if c == b',' then comma else semicolon

-- The capture groups of `addressRangeRE`.
pub record Groups : Type 0 where
  pub address_1 : Text
  pub separator : Separator
  pub address_2 : Text

abbrev pub groups : Text → Separator → Text → Groups
groups a s b = record { address_1 = a; separator = s; address_2 = b }

-- `[^,;]*$`
unfoldable pub no_separators : Text → Bool
no_separators [] = true
no_separators (c ∷ cs) = if is_separator c then false else no_separators cs

behind_separator : ℕ → Text → Option Groups
unfolding no_separators
behind_separator c cs = if no_separators cs then some (groups [] (separator_of c) cs) else none

in_front : ℕ → Option Groups → Option Groups
in_front c none = none
in_front c (some g) = some (groups (c ∷ g.address_1) g.separator g.address_2)

-- `addressRangeRE`: `^([^,;]*)([,;]?)([^,;]*)$`
pub match_range : Text → Option Groups
unfolding behind_separator in_front
match_range [] = some (groups [] no_separator [])
match_range (c ∷ cs) =
    let rest = match_range cs in if is_separator c then behind_separator c cs else in_front c rest

abbrev pub range_of : Separator → Address → Address → AddressRange
range_of s a b = record { start = a; end = b; separator = s }

from_groups : Option Groups → Result AddressRange
from_groups none = err unrecognised_range
from_groups (some g) = do
  start ← map_err could_not_parse_address_1 (new_address g.address_1)
  end ← map_err could_not_parse_address_2 (new_address g.address_2)
  ok (range_of g.separator start end)

-- The case for `.` alone has no body in the switch, so the expression handles it.
unfoldable pub new_range : Text → Result AddressRange
unfolding match_range from_groups
new_range s =
    if is_empty (trim_space s)
    then (do a ← new_address s; ok (range_of comma a a))
    else if equal s (b'$' ∷ [])
    then (do a ← new_address s; ok (range_of comma a a))
    else if equal s (b',' ∷ [])
    then (do a ← new_address (b'1' ∷ []); b ← new_address (b'$' ∷ []); ok (range_of comma a b))
    else if equal s (b';' ∷ [])
    then (do a ← new_address (b'.' ∷ []); b ← new_address (b'$' ∷ []); ok (range_of comma a b))
    else from_groups (match_range s)

match_range-separated :
    (a b : Text) (c : ℕ)
    → no_separators a ≡ true
    → no_separators b ≡ true
    → is_separator c ≡ true
    → match_range (a ++ c ∷ b) ≡ some (groups a (separator_of c) b)
unfolding match_range no_separators in_front behind_separator
match_range-separated [] b c h k s = rw (s, k)
match_range-separated (x ∷ a) b c h k s = elim (Bool-cases (is_separator x)) [
  | inl e ↦ ground (arith, e)
  | inr e ↦
      let tail : no_separators a ≡ true = ground arith in
      rw (e, match_range-separated a b c tail k s)
]

not_single : (s : Text) (d : ℕ) → 1 < length s → equal s (d ∷ []) ≡ false
unfolding equal
not_single [] d h = absurd (omega arith)
not_single (x ∷ []) d h = absurd (omega arith)
not_single (x ∷ y ∷ ys) d h = ground arith

-- Two addresses that parse, the strings of which hold no `,` or `;` and are not both empty, are the
-- addresses of the range written with `,` or `;` between them, which is not blank; the separator is
-- kept.
pub new_range-separated :
    (a b : Text) (c : ℕ) (start end : Address)
    → no_separators a ≡ true
    → no_separators b ≡ true
    → is_separator c ≡ true
    → 0 < length a + length b
    → is_empty (trim_space (a ++ c ∷ b)) ≡ false
    → new_address a ≡ ok start
    → new_address b ≡ ok end
    → new_range (a ++ c ∷ b) ≡ ok (range_of (separator_of c) start end)
unfolding new_range from_groups
new_range-separated a b c start end h k s l t p q =
    let long : 1 < length (a ++ c ∷ b) = omega (arith, length-append a (c ∷ b)) in
    rw
      (
        t,
        not_single (a ++ c ∷ b) b'$' long,
        not_single (a ++ c ∷ b) b',' long,
        not_single (a ++ c ∷ b) b';' long,
      )
      (rw (match_range-separated a b c h k s, from_groups) (rw (p, ◌>>=◌) (rw (q, ◌>>=◌) refl)))
