-- ===== src/Mark/Update.antt =====
-- Marks keep to their lines when lines are deleted or moved, and the table of marks changes accordingly.
use mathlib.Core.Path.{subst}
use go_red.Base.{
  ℕ, ◌+◌, ◌-◌, ◌<◌, ◌≤◌, ◌≡◌, ◌∙◌, ap, ◌⊎◌, inl, inr, arith, Option, some, List, ◌++◌, pos, length,
  take, drop, get_elem?, length-take, get_elem?-append_left, get_elem?-append_right, get_elem?-take,
  get_elem?-drop, Nat-cases,
}
use go_red.Buffer.{Line}
use go_red.Edit.Delete.{length-segment}
use go_red.Lines.Append.{spliced}
use go_red.Lines.Cut.{segment, without}
use go_red.Mark.{delete_shift, move_shift}
use go_red.Transfer.{adjusted}
use go_red.Transfer.Moving.{length-without}

-- The line with number `n`, counted from 1.
abbrev pub line_at : List Line → ℕ → Option Line
line_at buffer n = get_elem? buffer (n - 1)

module _ (start end : ℕ) (buffer : List Line) where
  at_below :
      (n : ℕ)
      → 0 < n
      → n < start
      → n ≤ length buffer
      → line_at (without start end buffer) n ≡ line_at buffer n
  at_below n p l h =
      get_elem?-append_left (take (start - 1) buffer) (drop end buffer) (n - 1)
        (omega (arith, length-take (start - 1) buffer))
      ∙ get_elem?-take (start - 1) buffer (n - 1) (omega arith)

  at_above :
      (n : ℕ)
      → 0 < start
      → start ≤ end
      → end < n
      → n ≤ length buffer
      → line_at (without start end buffer) (n - (end + 1 - start)) ≡ line_at buffer n
  at_above n p q l h =
      let size = length-take (start - 1) buffer in
      let e : end + (n - (end + 1 - start) - 1 - length (take (start - 1) buffer)) ≡ n - 1 =
        omega (arith, size) in
      get_elem?-append_right (take (start - 1) buffer) (drop end buffer) (n - (end + 1 - start) - 1)
        (omega (arith, size))
      ∙ get_elem?-drop end buffer _
      ∙ ap (get_elem? buffer) e

  -- When lines from line 1 on are deleted, a mark on a line of the buffer that the deletion keeps refers
  -- to the line that it referred to before.
  pub delete_shift_lem :
      (n : ℕ) {m : ℕ}
      → 0 < start
      → start ≤ end
      → 0 < n
      → n ≤ length buffer
      → delete_shift start end n ≡ some m
      → line_at (without start end buffer) m ≡ line_at buffer n
  unfolding delete_shift
  delete_shift_lem n {m} p q h l e = elim (Nat-cases end n) [
    | inl a ↦
        let at_m : n - (end + 1 - start) ≡ m = ground arith in
        subst (λ k. line_at (without start end buffer) k ≡ line_at buffer n) at_m
          (at_above n p q a l)
    | inr b ↦
        let at_m : n ≡ m = ground arith in
        let low : n < start = ground arith in
        subst (λ k. line_at (without start end buffer) k ≡ line_at buffer n) at_m
          (at_below n h low l)
  ]

module _ (k : ℕ) (new rest : List Line) (h : k ≤ length rest) where
  spliced_below : (n : ℕ) → 0 < n → n ≤ k → line_at (spliced k new rest) n ≡ line_at rest n
  spliced_below n p l =
      get_elem?-append_left (take k rest) (new ++ drop k rest) (n - 1)
        (omega (arith, length-take k rest))
      ∙ get_elem?-take k rest (n - 1) (omega arith)

  spliced_above :
      (n : ℕ) → k + length new < n → line_at (spliced k new rest) n ≡ line_at rest (n - length new)
  spliced_above n l =
      let size = length-take k rest in
      let e : k + (n - 1 - length (take k rest) - length new) ≡ n - length new - 1 =
        omega (arith, size) in
      get_elem?-append_right (take k rest) (new ++ drop k rest) (n - 1) (omega (arith, size))
      ∙ get_elem?-append_right new (drop k rest) _ (omega (arith, size))
      ∙ get_elem?-drop k rest _
      ∙ ap (get_elem? rest) e

module _ (start end dest : ℕ) (buffer : List Line) where
  abbrev pub moved_buffer : List Line
  moved_buffer =
      spliced (adjusted start end dest) (segment start end buffer) (without start end buffer)

  module _ (p : 0 < start) (q : start ≤ end) (r : end ≤ length buffer) (d : dest ≤ length buffer)
      (o : (dest < start) ⊎ (end ≤ dest)) where
    size : length (segment start end buffer) ≡ end + 1 - start
    size = length-segment start end buffer p q r

    fits : adjusted start end dest ≤ length (without start end buffer)
    fits = ground (arith, length-without start end buffer p q r)

    stays_below :
        (n : ℕ)
        → 0 < n
        → n < start
        → n ≤ adjusted start end dest
        → line_at moved_buffer n ≡ line_at buffer n
    stays_below n a b c =
        spliced_below _ (segment start end buffer) _ fits n a c
        ∙ at_below start end buffer n a b (omega arith)

    goes_up :
        (n : ℕ)
        → 0 < n
        → n < start
        → adjusted start end dest < n
        → line_at moved_buffer (n + (end + 1 - start)) ≡ line_at buffer n
    goes_up n a b c =
        let e : n + (end + 1 - start) - length (segment start end buffer) ≡ n =
          omega (arith, size) in
        spliced_above _ (segment start end buffer) _ fits (n + (end + 1 - start))
          (omega (arith, size))
        ∙ rw e (at_below start end buffer n a b (omega arith))

    goes_down :
        (n : ℕ)
        → end < n
        → n ≤ length buffer
        → n - (end + 1 - start) ≤ adjusted start end dest
        → line_at moved_buffer (n - (end + 1 - start)) ≡ line_at buffer n
    goes_down n a b c =
        spliced_below _ (segment start end buffer) _ fits (n - (end + 1 - start)) (omega arith) c
        ∙ at_above start end buffer n p q a b

    stays_above :
        (n : ℕ)
        → end < n
        → n ≤ length buffer
        → adjusted start end dest + (end + 1 - start) < n
        → line_at moved_buffer n ≡ line_at buffer n
    stays_above n a b c =
        spliced_above _ (segment start end buffer) _ fits n (omega (arith, size))
        ∙ rw size (at_above start end buffer n p q a b)

    same_line :
        (n m k : ℕ)
        → k ≡ m
        → line_at moved_buffer k ≡ line_at buffer n
        → line_at moved_buffer m ≡ line_at buffer n
    same_line n m k e f = subst (λ j. line_at moved_buffer j ≡ line_at buffer n) e f

    moved_up :
        (n m : ℕ)
        → dest < start
        → 0 < n
        → n ≤ length buffer
        → move_shift start end (pos dest) n ≡ some m
        → line_at moved_buffer m ≡ line_at buffer n
    unfolding move_shift
    moved_up n m b h l e = elim (Nat-cases dest n) [
      | inr low ↦ same_line n m n (ground arith) (stays_below n h (omega arith) (ground arith))
      | inl high ↦ elim (Nat-cases end n) [
        | inl over ↦ same_line n m n (ground arith) (stays_above n over l (ground arith))
        | inr under ↦
            let before : n < start = ground arith in
            same_line n m (n + (end + 1 - start)) (ground arith) (goes_up n h before (ground arith))
      ]
    ]

    moved_down :
        (n m : ℕ)
        → end ≤ dest
        → 0 < n
        → n ≤ length buffer
        → move_shift start end (pos dest) n ≡ some m
        → line_at moved_buffer m ≡ line_at buffer n
    unfolding move_shift
    moved_down n m b h l e = elim (Nat-cases dest n) [
      | inl high ↦ same_line n m n (ground arith) (stays_above n (omega arith) l (ground arith))
      | inr low ↦ elim (Nat-cases end n) [
        | inl over ↦
            same_line n m (n - (end + 1 - start)) (ground arith) (goes_down n over l (ground arith))
        | inr under ↦
            let before : n < start = ground arith in
            same_line n m n (ground arith) (stays_below n h before (ground arith))
      ]
    ]

    -- When lines of the buffer are moved behind a line that is not among them, or is their last, a mark on
    -- a line of the buffer that the move keeps refers to the line that it referred to before.
    pub move_shift_lem :
        (n : ℕ) {m : ℕ}
        → 0 < n
        → n ≤ length buffer
        → move_shift start end (pos dest) n ≡ some m
        → line_at moved_buffer m ≡ line_at buffer n
    move_shift_lem n {m} h l e = elim o [
      | inl b ↦ moved_up n m b h l e
      | inr b ↦ moved_down n m b h l e
    ]
