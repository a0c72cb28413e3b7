-- ===== src/Lines/Keeps.antt =====
-- The helpers on the buffer keep the invariant.
use go_red.Base.{
  ℕ, zero, suc, ◌+◌, ◌-◌, ◌≤◌, ◌<◌, ◌≡◌, refl, arith, Option, none, some, List, [], ◌∷◌, length,
  drop, length-drop, erase_idx, inl, inr, Nat-cases, ◌==◌,
}
use go_red.Buffer.Find.{find_line_outside}
use go_red.Buffer.{Line, find_line}
use go_red.Exec.Keeps.{Holds, Keeps, Holds-bind, Holds-if}
use go_red.Exec.{◌>>=◌, ◌>>◌}
use go_red.Invariant.{Rest, Inv}
use go_red.Lines.Append.{at_world, move_to_line_lem, move_to_line_end, move_to_line_outside}
use go_red.Lines.{
  moved, move_to_line, Cutting, cutting, iterate, copy_fn, delete_fn, finish_cut, from_element,
  iterate_lines, copy_lines, delete_lines, inserted, append_lines,
}
use go_red.State.{World}

moved-Inv :
    (k n : ℕ) (w : World) (o : Option (Option ℕ))
    → n ≤ length w.buffer + 1
    → Rest k w
    → Holds (Inv k) (moved n o w)
unfolding moved
moved-Inv k n w none h r = tt
moved-Inv k n w (some el) h r = (h, r)

-- Whatever the current line was, `moveToLine` gives one, or panics.
pub move_to_line-Inv : (k n : ℕ) (w : World) → Rest k w → Holds (Inv k) (move_to_line n w)
unfolding move_to_line
move_to_line-Inv k n w r = elim (Nat-cases (length w.buffer + 1) n) [
  | inl l ↦ rw (find_line_outside n w.buffer (inr l), moved) tt
  | inr l ↦ moved-Inv k n w (find_line n w.buffer) l r
]

pub move_to_line-Keeps : (k n : ℕ) → Keeps (Inv k) (move_to_line n)
move_to_line-Keeps k n w i = move_to_line-Inv k n w i.1

-- A step of the loop takes at most one line out of the buffer.
abbrev Takes : (ℕ → Line → Cutting → Cutting) → Type 0
Takes fn = (nbr : ℕ) (x : Line) (s : Cutting) → length s.kept ≤ length (fn nbr x s).kept + 1

iterate-length :
    (fn : ℕ → Line → Cutting → Cutting) (rounds nbr : ℕ) (els : List Line) (s : Cutting)
    {c : Cutting}
    → Takes fn
    → iterate fn rounds nbr els s ≡ some c
    → (rounds ≤ length els) × (length s.kept ≤ length c.kept + rounds)
unfolding iterate
iterate-length fn zero nbr els s h e = (omega arith, ground arith)
iterate-length fn (suc r) nbr [] s h e = cc
iterate-length fn (suc r) nbr (x ∷ els) s h e =
    let ih = iterate-length fn r (nbr + 1) els (fn nbr x s) h e in
    (omega (arith, ih.0), omega (arith, ih.1, h nbr x s))

finish_cut-Inv :
    (k start : ℕ) (el : Option ℕ) (o : Option Cutting) (w : World)
    → ((c : Cutting) → o ≡ some c → start ≤ length c.kept + 1)
    → Rest k w
    → Holds (Inv k) (finish_cut o (at_world start el w))
unfolding finish_cut
finish_cut-Inv k start el none w h r = tt
finish_cut-Inv k start el (some c) w h r = (h c refl, r)

module _ (k start end : ℕ) (fn : ℕ → Line → Cutting → Cutting) (takes : Takes fn) (w : World)
    (r : Rest k w) where
  iterate_lines-inside :
      0 < start → start ≤ length w.buffer → Holds (Inv k) (iterate_lines start end fn w)
  unfolding iterate_lines from_element
  iterate_lines-inside p q =
      rw (move_to_line_lem start w p q, ◌>>=◌, ◌>>◌)
        (finish_cut-Inv k start (some (start - 1))
          (iterate fn (end + 1 - start) start (drop (start - 1) w.buffer) (cutting w.buffer [])) w
          (λ c e.
            let b =
              iterate-length fn (end + 1 - start) start (drop (start - 1) w.buffer)
                (cutting w.buffer []) takes e in
            omega (arith, b.0, b.1, length-drop (start - 1) w.buffer))
          r)

  iterate_lines-end : start ≡ length w.buffer + 1 → Holds (Inv k) (iterate_lines start end fn w)
  unfolding iterate_lines from_element
  iterate_lines-end q =
      rw (move_to_line_end start w q, ◌>>=◌, ◌>>◌)
        (finish_cut-Inv k start none (iterate fn (end + 1 - start) start [] (cutting w.buffer [])) w
          (λ c e.
            let b = iterate-length fn (end + 1 - start) start [] (cutting w.buffer []) takes e in
            omega (arith, b.0, b.1))
          r)

  iterate_lines-Inv : Holds (Inv k) (iterate_lines start end fn w)
  unfolding iterate_lines
  iterate_lines-Inv = elim (Nat-cases 0 start) [
    | inr z ↦ rw (move_to_line_outside start w (inl (omega arith)), ◌>>=◌, ◌>>◌) tt
    | inl p ↦ elim (Nat-cases (length w.buffer) start) [
      | inr q ↦ iterate_lines-inside p q
      | inl l ↦ elim (Nat-cases (length w.buffer + 1) start) [
        | inl m ↦ rw (move_to_line_outside start w (inr m), ◌>>=◌, ◌>>◌) tt
        | inr m ↦ iterate_lines-end (omega arith)
      ]
    ]
  ]

length-erase_idx : (xs : List Line) (i : ℕ) → length xs ≤ length (erase_idx xs i) + 1
length-erase_idx [] i = omega arith
length-erase_idx (x ∷ xs) zero = omega arith
length-erase_idx (x ∷ xs) (suc i) = omega (arith, length-erase_idx xs i)

pub copy_lines-Keeps : (k start end : ℕ) → Keeps (Inv k) (copy_lines start end)
unfolding copy_lines
copy_lines-Keeps k start end w i =
    iterate_lines-Inv k start end copy_fn (λ nbr x s. omega arith) w i.1

pub delete_lines-Keeps : (k start end : ℕ) → Keeps (Inv k) (delete_lines start end)
unfolding delete_lines
delete_lines-Keeps k start end w i =
    iterate_lines-Inv k start end (delete_fn start) (λ nbr x s. length-erase_idx s.kept (start - 1))
      w i.1

inserted-Inv :
    (k n : ℕ) (o : Option (List Line)) (w : World) → Rest k w → Holds (Inv k) (inserted n o w)
unfolding inserted
inserted-Inv k n none w r = tt
inserted-Inv k n (some buffer) w r =
    move_to_line-Inv k n (record w { state = record w.state { buffer = buffer } }) r

pub append_lines-Keeps : (k n : ℕ) (new : List Line) → Keeps (Inv k) (append_lines n new)
unfolding append_lines
append_lines-Keeps k n new w i = Holds-if (Inv k) (length new == 0) _ _ w i (
    Holds-if (Inv k) (n == length w.buffer) _ _ w (move_to_line-Inv k _ _ i.1) (
      Holds-if (Inv k) (n == 0) _ _ w (move_to_line-Inv k _ _ i.1) (
        Holds-bind (Inv k) (move_to_line n) _ w (move_to_line-Keeps k n w i)
          (λ u v j. inserted-Inv k _ _ v j.1))))
