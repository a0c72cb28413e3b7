-- ===== src/Text/Trim.antt =====
-- Strings of which every byte passes a test, and `TrimSpace` on them.
use mathlib.Core.List.{reverse, reverse-append, reverse-cons, reverse-reverse}
use go_red.Base.{
  ℕ, suc, zero, ◌+◌, ◌/◌, ◌%◌, ◌≡◌, refl, arith, Bool, true, false, not, ◌&&◌, [], ◌∷◌, ◌++◌, pos,
  Bool-cases, inl, inr,
}
use go_red.Text.{Text, trim_left, trim_space, is_space, is_empty, is_digit, itoa, print_digits}

unfoldable pub every : (ℕ → Bool) → Text → Bool
every test [] = true
every test (c ∷ cs) = test c && every test cs

pub every-append :
    (test : ℕ → Bool) (s t : Text)
    → every test s ≡ true
    → every test t ≡ true
    → every test (s ++ t) ≡ true
unfolding every
every-append test [] t h k = k
every-append test (c ∷ s) t h k = ground (arith, every-append test s t)

every-reverse : (test : ℕ → Bool) (s : Text) → every test s ≡ true → every test (reverse s) ≡ true
unfolding every
every-reverse test [] h = refl
every-reverse test (c ∷ s) h =
    rw (reverse-cons c s)
      (every-append test (reverse s) (c ∷ []) (every-reverse test s (ground arith)) (ground arith))

-- What holds of every byte that passes one test and what follows from it.
pub every_imp :
    (p q : ℕ → Bool) (s : Text)
    → ((c : ℕ) → p c ≡ true → q c ≡ true)
    → every p s ≡ true
    → every q s ≡ true
unfolding every
every_imp p q [] f h = refl
every_imp p q (c ∷ s) f h =
    let head : q c ≡ true = f c (ground arith) in rw (head, every_imp p q s f (ground arith))

abbrev pub not_space : ℕ → Bool
not_space c = not (is_space c)

trim_left-every : (s : Text) → every not_space s ≡ true → trim_left s ≡ s
unfolding trim_left every
trim_left-every [] h = refl
trim_left-every (c ∷ s) h = ground arith

-- A string without white space is not trimmed.
pub trim_space-every : (s : Text) → every not_space s ≡ true → trim_space s ≡ s
unfolding trim_space
trim_space-every s h =
    rw (trim_left-every s h, trim_left-every (reverse s) (every-reverse not_space s h))
      (reverse-reverse s)

trim_left-concat :
    (s : Text) (c : ℕ) → not_space c ≡ true → (t : Text) × (trim_left (s ++ c ∷ []) ≡ t ++ c ∷ [])
unfolding trim_left
trim_left-concat [] c h = ([], ground arith)
trim_left-concat (x ∷ s) c h = elim (Bool-cases (is_space x)) [
  | inl e ↦ rw e (trim_left-concat s c h)
  | inr e ↦ (x ∷ s, rw e)
]

is_empty-reverse_concat : (t : Text) (c : ℕ) → is_empty (reverse (t ++ c ∷ [])) ≡ false
unfolding is_empty
is_empty-reverse_concat t c = rw (reverse-append t (c ∷ []))

-- A string that begins with another byte than white space is not blank.
pub trim_space-nonblank :
    (c : ℕ) (s : Text) → not_space c ≡ true → is_empty (trim_space (c ∷ s)) ≡ false
unfolding trim_space trim_left
trim_space-nonblank c s h =
    let (t, e) = trim_left-concat (reverse s) c h in
    let black : is_space c ≡ false = ground arith in
    rw (black, reverse-cons c s, e) (is_empty-reverse_concat t c)

print_digits-every :
    (f n : ℕ) (acc : Text)
    → every is_digit acc ≡ true
    → every is_digit (print_digits f n acc) ≡ true
unfolding print_digits every
print_digits-every zero n acc h = h
print_digits-every (suc f) n acc h =
    ground (arith, print_digits-every f (n / 10) ((b'0' + n % 10) ∷ acc))

pub itoa-every : (n : ℕ) → every is_digit (itoa (pos n)) ≡ true
unfolding itoa every
itoa-every n = print_digits-every (suc n) n [] refl
