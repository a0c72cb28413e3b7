-- ===== src/Address/Search/Backward.antt =====
-- What `matchLineBackward` finds.
mod Scan
use mathlib.Core.List.{reverse, reverse-cons}
use go_red.Base.{
  ℕ, zero, suc, ◌-◌, ◌<◌, ◌≤◌, ◌≡◌, ◌≢◌, refl, ◌∙◌, sym, ap, ◌⊎◌, inl, inr, arith, Bool, true,
  false, Option, none, some, List, [], ◌∷◌, pos, length, length-append, length-take, take,
  get_elem?, get_elem?-append_left, get_elem?-append_right, get_elem?-take, Nat-cases, Bool-cases,
  Option-cases,
}
use go_red.Address.Search.Backward.Scan.{
  length-reverse, get_elem?-reverse, scan_up-FirstHit, scan_up-none, scan_up_for-FirstHit,
  scan_up_for-none, scan_up_for_total,
}
use go_red.Address.Search.Forward.{FirstHit, FirstHit-cons}
use go_red.Address.Search.{
  scan_up, scan_up_for, backward_from, matches_at, or_no_match, line_matches, match_line_backward,
}
use go_red.Buffer.Find.{find_line-eq_some}
use go_red.Buffer.{Line}
use go_red.Regex.{Engine}
use go_red.Result.{Result, ok, err, no_matching_line}
use go_red.Text.{Text}

-- Line `n`, counted from 1, is the nearest line above line `start` that passes the test, where the search
-- goes on from the last line and ends below line `start`.
pub data PrevHit (test : Line → Bool) (start : ℕ) (buffer : List Line) (n : ℕ) : Type 0 where
  above :
      0 < n
      → n < start
      → matches_at test buffer (n - 1) ≡ true
      → ((i : ℕ) → n ≤ i → i < start - 1 → matches_at test buffer i ≡ false)
      → PrevHit test start buffer n
  wrapped :
      start < n
      → n ≤ length buffer
      → matches_at test buffer (n - 1) ≡ true
      → ((i : ℕ) → i < start - 1 → matches_at test buffer i ≡ false)
      → ((i : ℕ) → n ≤ i → matches_at test buffer i ≡ false)
      → PrevHit test start buffer n

module _ (test : Line → Bool) (start : ℕ) (buffer : List Line) where
  matches_at-outside : (i : ℕ) (xs : List Line) → length xs ≤ i → matches_at test xs i ≡ false
  matches_at-outside i [] h = refl
  matches_at-outside zero (x ∷ xs) h = absurd (omega arith)
  matches_at-outside (suc i) (x ∷ xs) h = matches_at-outside i xs (omega arith)

  matches_at-cong :
      (xs ys : List Line) (i j : ℕ)
      → get_elem? xs i ≡ get_elem? ys j
      → matches_at test xs i ≡ matches_at test ys j
  matches_at-cong xs ys i j e =
      ap (λ (o : Option Line). elim o [ none ↦ false | some l ↦ test l ]) e

  -- The lines above `start`, from the nearest on.
  matches_at-up :
      (j : ℕ)
      → j < start - 1
      → start ≤ length buffer
      → matches_at test (reverse (take (start - 1) buffer)) j
        ≡ matches_at test buffer (start - 2 - j)
  matches_at-up j h l =
      let size = length-take (start - 1) buffer in
      let e : length (take (start - 1) buffer) - 1 - j ≡ start - 2 - j = omega (arith, size) in
      matches_at-cong (reverse (take (start - 1) buffer)) buffer j (start - 2 - j) (
        get_elem?-reverse (take (start - 1) buffer) j (omega (arith, size))
        ∙ ap (get_elem? (take (start - 1) buffer)) e
        ∙ get_elem?-take (start - 1) buffer (start - 2 - j) (omega arith))

  matches_at-back :
      (j : ℕ)
      → j < length buffer
      → matches_at test (reverse buffer) j ≡ matches_at test buffer (length buffer - 1 - j)
  matches_at-back j h =
      matches_at-cong (reverse buffer) buffer j (length buffer - 1 - j)
        (get_elem?-reverse buffer j h)

  -- The line with index `i` is at index `start - 2 - i` of those above `start`.
  miss_up :
      (i : ℕ)
      → i < start - 1
      → start ≤ length buffer
      → matches_at test (reverse (take (start - 1) buffer)) (start - 2 - i) ≡ false
      → matches_at test buffer i ≡ false
  miss_up i h l e =
      let back : start - 2 - (start - 2 - i) ≡ i = omega arith in
      rw back at (sym (matches_at-up (start - 2 - i) (omega arith) l) ∙ e)

  miss_back :
      (i : ℕ)
      → i < length buffer
      → matches_at test (reverse buffer) (length buffer - 1 - i) ≡ false
      → matches_at test buffer i ≡ false
  miss_back i h e =
      let back : length buffer - 1 - (length buffer - 1 - i) ≡ i = omega arith in
      rw back at (sym (matches_at-back (length buffer - 1 - i) (omega arith)) ∙ e)

  above-PrevHit :
      (n k : ℕ)
      → start ≤ length buffer
      → n ≡ start - 1 - k
      → k < start - 1
      → FirstHit test (reverse (take (start - 1) buffer)) k
      → PrevHit test start buffer n
  above-PrevHit n k l e m f =
      let at_n : start - 2 - k ≡ n - 1 = omega arith in
      above (omega arith) (omega arith) (rw at_n at (sym (matches_at-up k m l) ∙ f.hit))
        λ i a b. miss_up i b l (f.missed (start - 2 - i) (omega arith))

  wrapped-PrevHit :
      (n k : ℕ)
      → start ≤ length buffer
      → n ≡ length buffer - k
      → k < length buffer - start
      → ((i : ℕ) → i < start - 1 → matches_at test buffer i ≡ false)
      → FirstHit test (reverse buffer) k
      → PrevHit test start buffer n
  wrapped-PrevHit n k l e m up f =
      let at_n : length buffer - 1 - k ≡ n - 1 = omega arith in
      wrapped (omega arith) (omega arith)
        (rw at_n at (sym (matches_at-back k (omega arith)) ∙ f.hit)) up
        λ i a. elim (Nat-cases i (length buffer)) [
          | inl b ↦ miss_back i b (f.missed (length buffer - 1 - i) (omega arith))
          | inr b ↦ matches_at-outside i buffer b
        ]

  -- All that the search can give at a line of the buffer.
  abbrev pub BackwardResult : Result ℕ → Type 0
  BackwardResult r =
      ((n : ℕ) × (r ≡ ok n) × PrevHit test start buffer n)
      ⊎ ((r ≡ err no_matching_line) × ((i : ℕ) → i ≢ start - 1 → matches_at test buffer i ≡ false))

  backward_wrapped :
      (o : Option ℕ)
      → start ≤ length buffer
      → scan_up_for test (length buffer - start) (length buffer) (reverse buffer) ≡ ok o
      → ((i : ℕ) → i < start - 1 → matches_at test buffer i ≡ false)
      → BackwardResult (or_no_match o)
  unfolding or_no_match
  backward_wrapped none l e up = inr (
    refl,
    λ i other. elim (Nat-cases i (start - 1)) [
      | inl a ↦ up i a
      | inr a ↦ elim (Nat-cases i (length buffer)) [
        | inr b ↦ matches_at-outside i buffer b
        | inl b ↦ miss_back i b (
            scan_up_for-none test (length buffer - start) (length buffer) (reverse buffer) e
              (length buffer - 1 - i) (omega arith))
      ]
    ],
  )
  backward_wrapped (some n) l e up =
      let (k, at_n, m, f) =
        scan_up_for-FirstHit test (length buffer - start) (length buffer) n (reverse buffer) e in
      inl (n, refl, wrapped-PrevHit n k l at_n m up f)

  backward_from_lem : start ≤ length buffer → BackwardResult (backward_from test start buffer)
  unfolding backward_from
  backward_from_lem l =
      let size = length-take (start - 1) buffer in
      let all = length-reverse (take (start - 1) buffer) in
      elim (Option-cases (scan_up test start (reverse (take (start - 1) buffer)))) [
        | inl e ↦
            let (o, e') =
              scan_up_for_total test (length buffer - start) (length buffer) (reverse buffer)
                (omega (arith, length-reverse buffer)) in
            rw (e, e', backward_from)
              (backward_wrapped o l e'
                (λ i a. miss_up i a l (scan_up-none test start _ e (start - 2 - i))))
        | inr (n, e) ↦
            let (k, at_n, m, f) = scan_up-FirstHit test start n _ e in
            rw (e, backward_from)
              (inl (n, refl, above-PrevHit n k l at_n (omega (arith, size, all)) f))
      ]

-- From a line of the buffer, and with an expression that compiles, the backward search gives the nearest line
-- above it that matches, going round by the last line, or the error, and then no line but the line that it starts from
-- matches: unlike the forward search it never looks at that line.
pub match_line_backward_lem :
    (re : Engine) (start : ℕ) (pattern : Text) (buffer : List Line)
    → re.compiles pattern ≡ true
    → 0 < start
    → start ≤ length buffer
    → BackwardResult
        (line_matches re pattern)
        start
        buffer
        (match_line_backward re (pos start) pattern buffer)
unfolding match_line_backward
match_line_backward_lem re start pattern buffer c h l =
    rw (c, find_line-eq_some start buffer h l)
      (backward_from_lem (line_matches re pattern) start buffer l)
