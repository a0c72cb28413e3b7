-- ===== src/Address/Parse/Fuel.antt =====
-- Every part that `newAddress` reads is shorter than the string, so the loop ends and its fuel
-- never runs out.
use go_red.Base.{
  ℕ, zero, suc, Bool, true, false, ◌<◌, ◌≤◌, ◌≡◌, refl, arith, Option, none, some, [], ◌∷◌, length,
  Option-cases, inl, inr, ◌==◌, if◌then◌else◌, Bool-cases,
}
use go_red.Address.{Ident, regex_forward, regex_backward, inc, dec}
use go_red.Address.Parse.{
  Token, regex_at, digits_at, sign_at, mark_at, match_at, find_part, parse_parts, push_char,
}
use go_red.Text.{Text, is_digit}

abbrev pub Shorter : Option Token → ℕ → Type 0
Shorter none n = Unit {0}
Shorter (some t) n = length t.rest < n

push_char-Shorter : (c n : ℕ) (o : Option Token) → Shorter o n → Shorter (push_char c o) (suc n)
unfolding push_char
push_char-Shorter c n none h = tt
push_char-Shorter c n (some t) h = omega arith

regex_at-Shorter :
    (ident : Ident) (delimiter : ℕ) (s : Text)
    → Shorter (regex_at ident delimiter s) (suc (length s))
unfolding regex_at
regex_at-Shorter ident delimiter [] = tt
regex_at-Shorter ident delimiter (c ∷ cs) = elim (Bool-cases (c == delimiter)) [
  | inl e ↦ rw e (omega arith)
  | inr e ↦ rw e (push_char-Shorter c _ _ (regex_at-Shorter ident delimiter cs))
]

digits_at-le : (s : Text) → length (digits_at s).rest ≤ length s
unfolding digits_at
digits_at-le [] = omega arith
digits_at-le (c ∷ cs) = ground (arith, digits_at-le cs)

sign_at-le : (ident : Ident) (c : ℕ) (s : Text) → length (sign_at ident c s).rest ≤ length s
unfolding sign_at
sign_at-le ident c [] = omega arith
sign_at-le ident c (d ∷ ds) = ground (arith, digits_at-le (d ∷ ds))

digits_at-lt :
    (c : ℕ) (cs : Text) → is_digit c ≡ true → length (digits_at (c ∷ cs)).rest < suc (length cs)
unfolding digits_at
digits_at-lt c cs h = rw h (omega (arith, digits_at-le cs))

mark_at-Shorter : (s : Text) → Shorter (mark_at s) (suc (length s))
unfolding mark_at
mark_at-Shorter [] = tt
mark_at-Shorter (c ∷ cs) = ground arith

-- One test of a chain of them.
Shorter-if :
    (b : Bool) (x y : Option Token) (n : ℕ)
    → (b ≡ true → Shorter x n)
    → Shorter y n
    → Shorter (if b then x else y) n
Shorter-if true x y n h k = h refl
Shorter-if false x y n h k = k

below_suc : (a b : ℕ) → a ≤ b → a < suc b
below_suc a b h = omega arith

pub match_at-Shorter : (s : Text) → Shorter (match_at s) (length s)
unfolding match_at
match_at-Shorter [] = tt
match_at-Shorter (c ∷ cs) = ground (
  arith,
  mark_at-Shorter cs,
  regex_at-Shorter regex_forward b'/' cs,
  regex_at-Shorter regex_backward b'?' cs,
  digits_at-lt c cs,
  sign_at-le inc c cs,
  sign_at-le dec c cs,
)

-- The match that is found leaves less than the string.
find_part-Shorter : (s : Text) → Shorter (find_part s).match (length s)
unfolding find_part
find_part-Shorter [] = tt
find_part-Shorter (c ∷ cs) = elim (Option-cases (match_at (c ∷ cs))) [
  | inl e ↦ rw (e, find_part) (weaken (find_part cs).match (find_part-Shorter cs))
  | inr (t, e) ↦ rw (e, find_part) (rw e at (match_at-Shorter (c ∷ cs)))
]
  where
    weaken : (o : Option Token) → Shorter o (length cs) → Shorter o (suc (length cs))
    weaken none h = tt
    weaken (some t) h = omega arith

-- With fuel above the length of the string the result does not depend on it: the loop has ended.
pub parse_parts_fuel :
    (f g : ℕ) (s : Text) → length s < f → length s < g → parse_parts f s ≡ parse_parts g s
unfolding parse_parts
parse_parts_fuel zero g s h k = absurd (omega arith)
parse_parts_fuel (suc f) zero s h k = absurd (omega arith)
parse_parts_fuel (suc f) (suc g) s h k = elim (Option-cases (find_part s).match) [
  | inl e ↦ rw (e, parse_parts)
  | inr (t, e) ↦
      let less : length t.rest < length s = rw e at (find_part-Shorter s) in
      rw (e, parse_parts, parse_parts_fuel f g t.rest (omega arith) (omega arith))
]
