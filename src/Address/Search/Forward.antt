-- ===== src/Address/Search/Forward.antt =====
-- What `matchLineForward` finds.
use go_red.Base.{
  ℕ, zero, suc, ◌+◌, ◌-◌, ◌<◌, ◌≤◌, ◌≡◌, refl, ◌∙◌, sym, ap, ◌⊎◌, inl, inr, arith, Bool, true,
  false, Option, none, some, List, [], ◌∷◌, pos, length, drop, Nat-cases, Bool-cases, Option-cases,
}
use go_red.Buffer.{Line}
use go_red.Buffer.Find.{find_line-eq_some, find_line_outside}
use go_red.Regex.{Engine}
use go_red.Text.{Text}
use go_red.Result.{Result, ok, err, panic, no_matching_line}
use go_red.Address.Search.{
  scan_down, scan_down_for, forward_from, matches_at, or_no_match, line_matches, match_line_forward,
}

module _ (test : Line → Bool) where
  -- The first line of the list that passes the test has index `k`.
  pub record FirstHit (xs : List Line) (k : ℕ) : Type 0 where
    pub hit : matches_at test xs k ≡ true
    pub missed : (i : ℕ) → i < k → matches_at test xs i ≡ false

  pub missed-cons :
      (x : Line) (xs : List Line) (k : ℕ)
      → test x ≡ false
      → ((i : ℕ) → i < k → matches_at test xs i ≡ false)
      → (i : ℕ) → i < suc k
      → matches_at test (x ∷ xs) i ≡ false
  missed-cons x xs k miss h zero l = miss
  missed-cons x xs k miss h (suc i) l = h i (omega arith)

  pub FirstHit-cons :
      (x : Line) (xs : List Line) (k : ℕ)
      → test x ≡ false
      → FirstHit xs k
      → FirstHit (x ∷ xs) (suc k)
  FirstHit-cons x xs k miss f = record { hit = f.hit; missed = missed-cons x xs k miss f.missed }

  scan_down-FirstHit :
      (current n : ℕ) (xs : List Line)
      → scan_down test current xs ≡ some n
      → (k : ℕ) × (n ≡ current + 1 + k) × FirstHit xs k
  unfolding scan_down
  scan_down-FirstHit current n [] h = cc
  scan_down-FirstHit current n (x ∷ xs) h = elim (Bool-cases (test x)) [
    | inl found ↦ (0, ground arith, record { hit = found; missed = λ i l. absurd (omega arith) })
    | inr miss ↦
        let (k, e, f) = scan_down-FirstHit (current + 1) n xs (rw miss at h) in
        (suc k, omega arith, FirstHit-cons x xs k miss f)
  ]

  scan_down-none :
      (current : ℕ) (xs : List Line)
      → scan_down test current xs ≡ none
      → (i : ℕ) → matches_at test xs i ≡ false
  unfolding scan_down
  scan_down-none current [] h i = refl
  scan_down-none current (x ∷ xs) h zero = ground arith
  scan_down-none current (x ∷ xs) h (suc i) = scan_down-none (current + 1) xs (ground arith) i

  -- The counted loop, within the list, either finds the first hit or misses all of its lines.
  scan_down_for-FirstHit :
      (rounds current n : ℕ) (xs : List Line)
      → scan_down_for test rounds current xs ≡ ok (some n)
      → (k : ℕ) × (n ≡ current + 1 + k) × (k < rounds) × FirstHit xs k
  unfolding scan_down_for
  scan_down_for-FirstHit zero current n xs h = cc
  scan_down_for-FirstHit (suc r) current n [] h = cc
  scan_down_for-FirstHit (suc r) current n (x ∷ xs) h = elim (Bool-cases (test x)) [
    | inl found ↦
        (0, ground arith, omega arith, record { hit = found; missed = λ i l. absurd (omega arith) })
    | inr miss ↦
        let (k, e, l, f) = scan_down_for-FirstHit r (current + 1) n xs (rw miss at h) in
        (suc k, omega arith, omega arith, FirstHit-cons x xs k miss f)
  ]

  scan_down_for-none :
      (rounds current : ℕ) (xs : List Line)
      → scan_down_for test rounds current xs ≡ ok none
      → (i : ℕ) → i < rounds
      → matches_at test xs i ≡ false
  unfolding scan_down_for
  scan_down_for-none zero current xs h i l = absurd (omega arith)
  scan_down_for-none (suc r) current [] h i l = cc
  scan_down_for-none (suc r) current (x ∷ xs) h zero l = ground arith
  scan_down_for-none (suc r) current (x ∷ xs) h (suc i) l =
      scan_down_for-none r (current + 1) xs (ground arith) i (omega arith)

  -- It does not run off the list.
  scan_down_for_total :
      (rounds current : ℕ) (xs : List Line)
      → rounds ≤ length xs
      → (o : Option ℕ) × (scan_down_for test rounds current xs ≡ ok o)
  unfolding scan_down_for
  scan_down_for_total zero current xs h = (none, refl)
  scan_down_for_total (suc r) current [] h = absurd (omega arith)
  scan_down_for_total (suc r) current (x ∷ xs) h = elim (Bool-cases (test x)) [
    | inl found ↦ (some (current + 1), rw found)
    | inr miss ↦ rw miss (scan_down_for_total r (current + 1) xs (omega arith))
  ]

  matches_at-drop :
      (s i : ℕ) (xs : List Line) → matches_at test (drop s xs) i ≡ matches_at test xs (s + i)
  matches_at-drop zero i xs = let e : i ≡ 0 + i = omega arith in ap (matches_at test xs) e
  matches_at-drop (suc s) i [] = refl
  matches_at-drop (suc s) i (x ∷ xs) =
      let e : suc (s + i) ≡ suc s + i = omega arith in
      matches_at-drop s i xs ∙ ap (matches_at test (x ∷ xs)) e

  matches_at-lt : (xs : List Line) (i : ℕ) → matches_at test xs i ≡ true → i < length xs
  matches_at-lt [] i h = cc
  matches_at-lt (x ∷ xs) zero h = omega arith
  matches_at-lt (x ∷ xs) (suc i) h = omega (arith, matches_at-lt xs i h)

-- Line `n`, counted from 1, is the next line after `start` that passes the test, where the
-- search goes round by line 1 and ends with line `start` itself.
pub data NextHit (test : Line → Bool) (start : ℕ) (buffer : List Line) (n : ℕ) : Type 0 where
  below :
      start < n
      → n ≤ length buffer
      → matches_at test buffer (n - 1) ≡ true
      → ((i : ℕ) → start ≤ i → i < n - 1 → matches_at test buffer i ≡ false)
      → NextHit test start buffer n
  wrapped :
      0 < n
      → n ≤ start
      → matches_at test buffer (n - 1) ≡ true
      → ((i : ℕ) → start ≤ i → matches_at test buffer i ≡ false)
      → ((i : ℕ) → i < n - 1 → matches_at test buffer i ≡ false)
      → NextHit test start buffer n

module _ (test : Line → Bool) (start : ℕ) (buffer : List Line) where
  -- The line with index `start + j` is at index `j` behind the first `start` lines.
  miss_behind :
      ((j : ℕ) → matches_at test (drop start buffer) j ≡ false)
      → (i : ℕ) → start ≤ i
      → matches_at test buffer i ≡ false
  miss_behind h i l =
      let e : start + (i - start) ≡ i = omega arith in
      rw e at (sym (matches_at-drop test start (i - start) buffer) ∙ h (i - start))

  below-NextHit :
      (n k : ℕ)
      → n ≡ start + 1 + k
      → FirstHit test (drop start buffer) k
      → NextHit test start buffer n
  below-NextHit n k e f =
      let at_n : start + k ≡ n - 1 = omega arith in
      let hit = rw at_n at (sym (matches_at-drop test start k buffer) ∙ f.hit) in
      below (omega arith) (omega (arith, matches_at-lt test buffer (n - 1) hit)) hit λ i l m.
        let at_i : start + (i - start) ≡ i = omega arith in
        rw at_i at
          (sym (matches_at-drop test start (i - start) buffer) ∙ f.missed (i - start) (omega arith))

  wrapped-NextHit :
      (n k : ℕ)
      → n ≡ 0 + 1 + k
      → k < start
      → ((i : ℕ) → start ≤ i → matches_at test buffer i ≡ false)
      → FirstHit test buffer k
      → NextHit test start buffer n
  wrapped-NextHit n k e l behind f =
      let at_k : k ≡ n - 1 = omega arith in
      wrapped (omega arith) (omega arith) (rw at_k at f.hit) behind
        (λ i m. f.missed i (omega arith))

  -- All that the search can give at a line of the buffer.
  abbrev pub ForwardResult : Result ℕ → Type 0
  ForwardResult r =
      ((n : ℕ) × (r ≡ ok n) × NextHit test start buffer n)
      ⊎ ((r ≡ err no_matching_line) × ((i : ℕ) → matches_at test buffer i ≡ false))

  forward_wrapped :
      (o : Option ℕ)
      → scan_down_for test start 0 buffer ≡ ok o
      → ((i : ℕ) → start ≤ i → matches_at test buffer i ≡ false)
      → ForwardResult (or_no_match o)
  unfolding or_no_match
  forward_wrapped none e behind = inr (
    refl,
    λ i. elim (Nat-cases i start) [
      | inl l ↦ scan_down_for-none test start 0 buffer e i l
      | inr l ↦ behind i l
    ],
  )
  forward_wrapped (some n) e behind =
      let (k, at_n, l, f) = scan_down_for-FirstHit test start 0 n buffer e in
      inl (n, refl, wrapped-NextHit n k at_n l behind f)

  forward_from_lem : start ≤ length buffer → ForwardResult (forward_from test start buffer)
  unfolding forward_from
  forward_from_lem h = elim (Option-cases (scan_down test start (drop start buffer))) [
    | inl e ↦
        let (o, e') = scan_down_for_total test start 0 buffer h in
        rw (e, e', forward_from)
          (forward_wrapped o e' (miss_behind (scan_down-none test start _ e)))
    | inr (n, e) ↦
        let (k, at_n, f) = scan_down-FirstHit test start n _ e in
        rw (e, forward_from) (inl (n, refl, below-NextHit n k at_n f))
  ]

-- From a line of the buffer, and with an expression that compiles, the forward search gives the
-- next line that matches, going round by line 1 and ending with the current line, or the error,
-- and then no line of the buffer matches.
pub match_line_forward_lem :
    (re : Engine) (start : ℕ) (pattern : Text) (buffer : List Line)
    → re.compiles pattern ≡ true
    → 0 < start
    → start ≤ length buffer
    → ForwardResult
        (line_matches re pattern)
        start
        buffer
        (match_line_forward re (pos start) pattern buffer)
unfolding match_line_forward
match_line_forward_lem re start pattern buffer c h l =
    rw (c, find_line-eq_some start buffer h l)
      (forward_from_lem (line_matches re pattern) start buffer l)

-- From line 0, and from a line number more than one behind the last line, the forward search panics.
pub match_line_forward_outside :
    (re : Engine) (start : ℕ) (pattern : Text) (buffer : List Line)
    → (start ≡ 0) ⊎ (length buffer + 1 < start)
    → match_line_forward re (pos start) pattern buffer ≡ panic
unfolding match_line_forward
match_line_forward_outside re start pattern buffer h =
    rw (find_line_outside start buffer h) (ground arith)
