-- ===== src/Lines.antt =====
-- The helpers of cmd.go on the buffer: `moveToLine`, `iterateLines`, `copyLines`, `deleteLines`,
-- `appendLines`.
pub mod Append
pub mod Cut
pub mod Keeps
use go_red.Base.{
  ℕ, zero, suc, ◌+◌, ◌-◌, ◌==◌, Option, none, some, List, [], ◌∷◌, ◌++◌, if◌then◌else◌, length,
  drop, erase_idx, insert_idx,
}
use go_red.Buffer.{Line, find_line}
use go_red.Exec.{Run, done, panicked, Exec, ◌>>=◌, ◌>>◌, pure, abort, gets, modify}
use go_red.State.{State, World}

abbrev pub at_line : ℕ → Option ℕ → State → State
at_line n el s = record s { dotline = el; line_nbr = n }

moved : ℕ → Option (Option ℕ) → Exec (Unit {0})
moved n none = abort
moved n (some el) = modify (at_line n el)

unfoldable pub move_to_line : ℕ → Exec (Unit {0})
unfolding moved
move_to_line n w = moved n (find_line n w.buffer) w

-- The lines from an element on; none from the nil pointer.
unfoldable pub from_element : Option ℕ → List Line → List Line
from_element none buffer = []
from_element (some i) buffer = drop i buffer

-- The loop of `iterateLines` with `rounds` left, over the elements from `el` on. Calling `Next` on
-- the nil pointer panics. What `fn` changes is `S`.
pub iterate {ℓ} : {S : Type ℓ} → (ℕ → Line → S → S) → ℕ → ℕ → List Line → S → Option S
iterate fn zero nbr els s = some s
iterate fn (suc rounds) nbr [] s = none
iterate fn (suc rounds) nbr (x ∷ els) s = iterate fn rounds (nbr + 1) els (fn nbr x s)

-- Buffer, and the list that is built.
pub record Cutting : Type 0 where
  pub kept : List Line
  pub cut : List Line

abbrev pub cutting : List Line → List Line → Cutting
cutting k c = record { kept = k; cut = c }

-- `copyFunc`
abbrev pub copy_fn : ℕ → Line → Cutting → Cutting
copy_fn nbr x s = cutting s.kept (s.cut ++ x ∷ [])

-- `deleteFunc`: the elements before this one, from line `start` on, are gone from the buffer, so it
-- stands where line `start` was.
abbrev pub delete_fn : ℕ → ℕ → Line → Cutting → Cutting
delete_fn start nbr x s = cutting (erase_idx s.kept (start - 1)) (s.cut ++ x ∷ [])

finish_cut : Option Cutting → Exec (List Line)
finish_cut none = abort
finish_cut (some c) = do modify (λ s. record s { buffer = c.kept }); pure c.cut

-- `iterateLines`, with a function that builds a list and may take lines out of the buffer.
iterate_lines : ℕ → ℕ → (ℕ → Line → Cutting → Cutting) → Exec (List Line)
unfolding iterate finish_cut from_element move_to_line
iterate_lines start end fn = do
  move_to_line start
  buffer ← gets (λ w. w.buffer)
  dot ← gets (λ w. w.dotline)
  finish_cut (iterate fn (end + 1 - start) start (from_element dot buffer) (cutting buffer []))

unfoldable pub copy_lines : ℕ → ℕ → Exec (List Line)
unfolding iterate_lines
copy_lines start end = iterate_lines start end copy_fn

unfoldable pub delete_lines : ℕ → ℕ → Exec (List Line)
unfolding iterate_lines
delete_lines start end = iterate_lines start end (delete_fn start)

-- The loop over the new lines: `InsertAfter` a mark that moves on; it panics at the nil pointer.
pub insert_after : Option ℕ → List Line → List Line → Option (List Line)
insert_after at [] buffer = some buffer
insert_after none (x ∷ new) buffer = none
insert_after (some i) (x ∷ new) buffer =
    insert_after (some (i + 1)) new (insert_idx buffer (i + 1) x)

inserted : ℕ → Option (List Line) → Exec (Unit {0})
unfolding move_to_line
inserted n none = abort
inserted n (some buffer) = do modify (λ s. record s { buffer = buffer }); move_to_line n

unfoldable pub append_lines : ℕ → List Line → Exec (Unit {0})
unfolding inserted insert_after move_to_line
append_lines n new = do
  buffer ← gets (λ w. w.buffer)
  if length new == 0
      then pure tt
      else if n == length buffer
      then (do
        modify (λ s. record s { buffer = buffer ++ new })
        move_to_line (length (buffer ++ new)))
      else if n == 0
      then (do modify (λ s. record s { buffer = new ++ buffer }); move_to_line (length new))
      else (do
        move_to_line n
        dot ← gets (λ w. w.dotline)
        inserted (n + length new) (insert_after dot new buffer))
