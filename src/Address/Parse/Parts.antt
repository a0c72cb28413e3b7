-- ===== src/Address/Parse/Parts.antt =====
-- What is read at the head of a string that begins with a mark, an expression or a sign.
use go_red.Base.{ℕ, ◌≡◌, refl, arith, true, false, some, [], ◌∷◌, ◌++◌, ◌==◌}
use go_red.Address.Parse.{token, is_lower, mark_at, push_char, regex_at, sign_at, match_at}
use go_red.Address.{Ident, dec, dot, dollar, inc, mark, regex_backward, regex_forward}
use go_red.Text.Numbers.{starts_digit}
use go_red.Text.{Text, contains_byte}

pub match_at-mark :
    (c : ℕ) (rest : Text)
    → is_lower c ≡ true
    → match_at (39 ∷ c ∷ rest) ≡ some (token mark (c ∷ []) rest)
unfolding match_at mark_at
match_at-mark c rest h = rw h

regex_at-append :
    (ident : Ident) (d : ℕ) (info rest : Text)
    → contains_byte info d ≡ false
    → regex_at ident d (info ++ d ∷ rest) ≡ some (token ident info rest)
unfolding regex_at contains_byte push_char
regex_at-append ident d [] rest h = ground arith
regex_at-append ident d (c ∷ info) rest h =
    let other : (c == d) ≡ false = ground arith in
    rw (other, regex_at-append ident d info rest (ground arith), push_char)

pub match_at-forward :
    (info rest : Text)
    → contains_byte info b'/' ≡ false
    → match_at (b'/' ∷ (info ++ b'/' ∷ rest)) ≡ some (token regex_forward info rest)
unfolding match_at
match_at-forward info rest h = regex_at-append regex_forward b'/' info rest h

pub match_at-backward :
    (info rest : Text)
    → contains_byte info b'?' ≡ false
    → match_at (b'?' ∷ (info ++ b'?' ∷ rest)) ≡ some (token regex_backward info rest)
unfolding match_at
match_at-backward info rest h = regex_at-append regex_backward b'?' info rest h

pub match_at-inc :
    (rest : Text) → starts_digit rest ≡ false → match_at (b'+' ∷ rest) ≡ some (token inc [] rest)
unfolding match_at sign_at
match_at-inc [] h = refl
match_at-inc (c ∷ rest) h = rw h

pub match_at-dec :
    (rest : Text) → starts_digit rest ≡ false → match_at (b'-' ∷ rest) ≡ some (token dec [] rest)
unfolding match_at sign_at
match_at-dec [] h = refl
match_at-dec (c ∷ rest) h = rw h

pub match_at-dot : (rest : Text) → match_at (b'.' ∷ rest) ≡ some (token dot [] rest)
unfolding match_at
match_at-dot rest = refl

pub match_at-dollar : (rest : Text) → match_at (b'$' ∷ rest) ≡ some (token dollar [] rest)
unfolding match_at
match_at-dollar rest = refl
