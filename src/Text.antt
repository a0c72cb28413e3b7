-- ===== src/Text.antt =====
-- Strings as lists of bytes, and the functions of Go's `strings` and `strconv` that the program
-- calls. White space is that of ASCII.
pub mod Equal
pub mod Numbers
pub mod Trim
use Prim.Native.Char.{code}
use Prim.Native.String.{String}
use mathlib.Core.List.{reverse}
use go_red.Base.{
  ℕ, suc, zero, ◌+◌, ◌-◌, ◌*◌, ◌/◌, ◌%◌, ◌≡◌, ◌↔◌, arith, Bool, true, false, ◌&&◌, ◌||◌, Option,
  none, some, List, [], ◌∷◌, ◌++◌, leb, ltb, ◌==◌, if◌then◌else◌, ℤ, pos, negsuc, int_limit,
}

abbrev pub Text : Type 0
Text = List ℕ

-- The bytes of an ASCII literal.
abbrev pub codes : String → Text
codes String.[] = []
codes (String.◌∷◌ c s) = code c ∷ codes s

-- `len(s) == 0`
unfoldable pub is_empty : Text → Bool
is_empty [] = true
is_empty (c ∷ cs) = false

-- `s == t` on strings.
unfoldable pub equal : Text → Text → Bool
equal [] [] = true
equal (x ∷ xs) (y ∷ ys) = x == y && equal xs ys
equal _ _ = false

pub equal_iff : (a b : Text) → (equal a b ≡ true) ↔ (a ≡ b)
unfolding equal
equal_iff (x ∷ a) (y ∷ b) = ground (arith, equal_iff a b)
equal_iff _ _ = ground arith

-- Tab, newline, vertical tab, form feed, carriage return and space.
abbrev pub is_space : ℕ → Bool
is_space c = c == 32 || (leb 9 c && leb c 13)

trim_left : Text → Text
trim_left [] = []
trim_left (c ∷ cs) = if is_space c then trim_left cs else c ∷ cs

-- `strings.TrimSpace`
unfoldable pub trim_space : Text → Text
unfolding trim_left
trim_space s = reverse (trim_left (reverse (trim_left s)))

-- `strings.HasPrefix`
unfoldable pub has_prefix : Text → Text → Bool
has_prefix s [] = true
has_prefix [] (p ∷ ps) = false
has_prefix (c ∷ cs) (p ∷ ps) = c == p && has_prefix cs ps

-- `strings.Contains(s, c)` for one byte.
unfoldable pub contains_byte : Text → ℕ → Bool
contains_byte [] c = false
contains_byte (x ∷ xs) c = x == c || contains_byte xs c

abbrev pub is_digit : ℕ → Bool
is_digit c = leb b'0' c && leb c b'9'

-- The digits of a number in front of `acc`; the fuel exceeds the number.
pub print_digits : ℕ → ℕ → Text → Text
print_digits zero n acc = acc
print_digits (suc f) n acc =
    let rest = print_digits f (n / 10) ((b'0' + n % 10) ∷ acc) in
    if ltb n 10 then (b'0' + n) ∷ acc else rest

abbrev pub print_nat : ℕ → Text
print_nat n = print_digits (suc n) n []

-- `strconv.Itoa`
unfoldable pub itoa : ℤ → Text
unfolding print_digits
itoa (pos n) = print_nat n
itoa (negsuc n) = b'-' ∷ print_nat (suc n)

pub parse_digits : ℕ → Text → Option ℕ
parse_digits acc [] = some acc
parse_digits acc (c ∷ cs) = if is_digit c then parse_digits (acc * 10 + (c - b'0')) cs else none

-- The value behind the sign, which needs a digit and has to fit an `int`.
pub with_sign : Bool → Option ℕ → Option ℤ
with_sign minus none = none
with_sign false (some n) = if ltb n int_limit then some (pos n) else none
with_sign true (some zero) = some (pos 0)
with_sign true (some (suc n)) = if ltb n int_limit then some (negsuc n) else none

pub parse_unsigned : Bool → Text → Option ℤ
unfolding with_sign parse_digits
parse_unsigned minus [] = none
parse_unsigned minus (c ∷ cs) = with_sign minus (parse_digits 0 (c ∷ cs))

-- `strconv.Atoi`; `none` for its error.
unfoldable pub atoi : Text → Option ℤ
unfolding parse_unsigned
atoi [] = none
atoi (c ∷ cs) =
    if c == b'-'
    then parse_unsigned true cs
    else if c == b'+'
    then parse_unsigned false cs
    else parse_unsigned false (c ∷ cs)
