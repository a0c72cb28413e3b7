-- ===== src/Address/Search/Backward/Scan.antt =====
-- What the scans of the backward search find in the lines turned round.
use mathlib.Core.List.{reverse, reverse-cons}
use go_red.Base.{
  ℕ, zero, suc, ◌-◌, ◌<◌, ◌≤◌, ◌≡◌, refl, ◌∙◌, sym, ap, inl, inr, arith, Bool, false, Option, none,
  some, List, [], ◌∷◌, length, length-append, get_elem?, get_elem?-append_left,
  get_elem?-append_right, Nat-cases, Bool-cases,
}
use go_red.Address.Search.Forward.{FirstHit, FirstHit-cons}
use go_red.Address.Search.{scan_up, scan_up_for, matches_at}
use go_red.Buffer.{Line}
use go_red.Result.{ok}

pub length-reverse : (xs : List Line) → length (reverse xs) ≡ length xs
length-reverse [] = refl
length-reverse (x ∷ xs) =
    rw (reverse-cons x xs) (omega (arith, length-append (reverse xs) (x ∷ []), length-reverse xs))

pub get_elem?-reverse :
    (xs : List Line) (i : ℕ)
    → i < length xs
    → get_elem? (reverse xs) i ≡ get_elem? xs (length xs - 1 - i)
get_elem?-reverse [] i h = absurd (omega arith)
get_elem?-reverse (x ∷ xs) i h = elim (Nat-cases i (length xs)) [
  | inl l ↦
      let e : suc (length xs - 1 - i) ≡ length (x ∷ xs) - 1 - i = omega arith in
      ap (λ t. get_elem? t i) (reverse-cons x xs)
      ∙ get_elem?-append_left (reverse xs) (x ∷ []) i (omega (arith, length-reverse xs))
      ∙ get_elem?-reverse xs i l
      ∙ ap (get_elem? (x ∷ xs)) e
  | inr l ↦
      let first : i - length (reverse xs) ≡ 0 = omega (arith, length-reverse xs) in
      let last : length (x ∷ xs) - 1 - i ≡ 0 = omega arith in
      ap (λ t. get_elem? t i) (reverse-cons x xs)
      ∙ get_elem?-append_right (reverse xs) (x ∷ []) i (omega (arith, length-reverse xs))
      ∙ ap (get_elem? (x ∷ [])) first
      ∙ sym (ap (get_elem? (x ∷ xs)) last)
]

module _ (test : Line → Bool) where
  pub scan_up-FirstHit :
      (current n : ℕ) (xs : List Line)
      → scan_up test current xs ≡ some n
      → (k : ℕ) × (n ≡ current - 1 - k) × (k < length xs) × FirstHit test xs k
  unfolding scan_up
  scan_up-FirstHit current n [] h = cc
  scan_up-FirstHit current n (x ∷ xs) h = elim (Bool-cases (test x)) [
    | inl found ↦
        (0, ground arith, omega arith, record { hit = found; missed = λ i l. absurd (omega arith) })
    | inr miss ↦
        let (k, e, l, f) = scan_up-FirstHit (current - 1) n xs (rw miss at h) in
        (suc k, omega arith, omega arith, FirstHit-cons test x xs k miss f)
  ]

  pub scan_up-none :
      (current : ℕ) (xs : List Line)
      → scan_up test current xs ≡ none
      → (i : ℕ) → matches_at test xs i ≡ false
  unfolding scan_up
  scan_up-none current [] h i = refl
  scan_up-none current (x ∷ xs) h zero = ground arith
  scan_up-none current (x ∷ xs) h (suc i) = scan_up-none (current - 1) xs (ground arith) i

  pub scan_up_for-FirstHit :
      (rounds current n : ℕ) (xs : List Line)
      → scan_up_for test rounds current xs ≡ ok (some n)
      → (k : ℕ) × (n ≡ current - k) × (k < rounds) × FirstHit test xs k
  unfolding scan_up_for
  scan_up_for-FirstHit zero current n xs h = cc
  scan_up_for-FirstHit (suc r) current n [] h = cc
  scan_up_for-FirstHit (suc r) current n (x ∷ xs) h = elim (Bool-cases (test x)) [
    | inl found ↦
        (0, ground arith, omega arith, record { hit = found; missed = λ i l. absurd (omega arith) })
    | inr miss ↦
        let (k, e, l, f) = scan_up_for-FirstHit r (current - 1) n xs (rw miss at h) in
        (suc k, omega arith, omega arith, FirstHit-cons test x xs k miss f)
  ]

  pub scan_up_for-none :
      (rounds current : ℕ) (xs : List Line)
      → scan_up_for test rounds current xs ≡ ok none
      → (i : ℕ) → i < rounds
      → matches_at test xs i ≡ false
  unfolding scan_up_for
  scan_up_for-none zero current xs h i l = absurd (omega arith)
  scan_up_for-none (suc r) current [] h i l = cc
  scan_up_for-none (suc r) current (x ∷ xs) h zero l = ground arith
  scan_up_for-none (suc r) current (x ∷ xs) h (suc i) l =
      scan_up_for-none r (current - 1) xs (ground arith) i (omega arith)

  pub scan_up_for_total :
      (rounds current : ℕ) (xs : List Line)
      → rounds ≤ length xs
      → (o : Option ℕ) × (scan_up_for test rounds current xs ≡ ok o)
  unfolding scan_up_for
  scan_up_for_total zero current xs h = (none, refl)
  scan_up_for_total (suc r) current [] h = absurd (omega arith)
  scan_up_for_total (suc r) current (x ∷ xs) h = elim (Bool-cases (test x)) [
    | inl found ↦ (some current, rw found)
    | inr miss ↦ rw miss (scan_up_for_total r (current - 1) xs (omega arith))
  ]
