-- ===== src/Mark/Follow.antt =====
-- After a deletion or a move, each mark is gone with its line or is at it.
use go_red.Base.{
  ℕ, ◌<◌, ◌≤◌, ◌≡◌, refl, ◌∙◌, ap, ◌⊎◌, arith, Bool, true, Option, none, some, List, pos, negsuc,
  length,
}
use go_red.Buffer.{Line}
use go_red.Command.Ident
use go_red.Command.{Command}
use go_red.Edit.Delete.{deleted_world, delete-deleted_world}
use go_red.Edit.{delete}
use go_red.Exec.{done}
use go_red.Lines.Cut.{without}
use go_red.Mark.Table.{Distinct, shifted, find_mark-shift_marks}
use go_red.Mark.Update.{line_at, moved_buffer, delete_shift_lem, move_shift_lem}
use go_red.Mark.{Marks, find_mark, shift_marks, update_marks, delete_shift, move_shift}
use go_red.Range.{line_range}
use go_red.Regex.{Engine}
use go_red.State.{World, add_undo}
use go_red.Text.{Text}
use go_red.Transfer.Moving.{moved_world, moved_world-fields, move-moved_world}
use go_red.Transfer.{destination, move}

-- The mark of a name that was on line `n` of the old buffer is gone, and that line was among those from `start` to
-- `end`, or it is on the same line in the new buffer.
abbrev pub Followed : ℕ → ℕ → ℕ → List Line → List Line → Option ℕ → Type 0
Followed start end n old new none = (start ≤ n) × (n ≤ end)
Followed start end n old new (some m) = line_at new m ≡ line_at old n

module _ (start end n : ℕ) where
  delete_shift-none : delete_shift start end n ≡ none → (start ≤ n) × (n ≤ end)
  unfolding delete_shift
  delete_shift-none h = (ground arith, ground arith)

  move_shift-none : (dest : ℕ) → move_shift start end (pos dest) n ≡ none → (start ≤ n) × (n ≤ end)
  unfolding move_shift
  move_shift-none dest h = (ground arith, ground arith)

pub update_marks-delete :
    (start end : ℕ) (marks : Marks)
    → start ≤ end
    → update_marks Ident.delete start end (negsuc 0) marks
      ≡ shift_marks (delete_shift start end) marks
unfolding update_marks
update_marks-delete start end marks h = ground arith

update_marks-move :
    (start end dest : ℕ) (marks : Marks)
    → start ≤ end
    → update_marks Ident.move start end (pos dest) marks
      ≡ shift_marks (move_shift start end (pos dest)) marks
unfolding update_marks
update_marks-move start end dest marks h = ground arith

pub deleted_world-fields :
    (cmd : Command) (start end : ℕ) (add : Bool) (w : World)
    → ((deleted_world cmd start end add w).buffer ≡ without start end w.buffer)
      × ((deleted_world cmd start end add w).marks
          ≡ update_marks Ident.delete start end (negsuc 0) w.marks)
unfolding add_undo
deleted_world-fields cmd start end add w = (ground arith, ground arith)

module _ (name : Text) (start end n : ℕ) (w : World) (t : Distinct w.marks)
    (e : find_mark name w.marks ≡ some n) (p : 0 < n) (l : n ≤ length w.buffer) (a : 0 < start)
    (b : start ≤ end) (c : end ≤ length w.buffer) where
  shifted_mark : (shift : ℕ → Option ℕ) → find_mark name (shift_marks shift w.marks) ≡ shift n
  shifted_mark shift = find_mark-shift_marks name shift w.marks t ∙ ap (shifted shift) e

  gone_or_kept :
      (o : Option ℕ)
      → delete_shift start end n ≡ o
      → Followed start end n w.buffer (without start end w.buffer) o
  gone_or_kept none h = delete_shift-none start end n h
  gone_or_kept (some m) h = delete_shift_lem start end w.buffer n a b p l h

  -- Deleting lines of the buffer succeeds. In a table of marks without a name twice, a mark on a line of the buffer
  -- is gone after it, if its line was deleted, or names the line that it named before.
  pub delete-Followed :
      (cmd : Command) (add : Bool)
      → cmd.resolved ≡ some (line_range start end)
      → (v : World) × (delete cmd add w ≡ done tt v)
        × Followed start end n w.buffer v.buffer (find_mark name v.marks)
  delete-Followed cmd add r =
      let v = deleted_world cmd start end add w in
      let (buffer, marks) = deleted_world-fields cmd start end add w in
      let at : find_mark name v.marks ≡ delete_shift start end n =
        ap (find_mark name) (marks ∙ update_marks-delete start end w.marks b)
        ∙ shifted_mark (delete_shift start end) in
      (
        v,
        delete-deleted_world cmd start end add w r a b c,
        rw (buffer, at) (gone_or_kept (delete_shift start end n) refl),
      )

  -- Moving lines of the buffer behind a line that is not among them, or is their last, succeeds. In a table of marks
  -- without a name twice, a mark on a line of the buffer is gone after it, if its line was moved, or
  -- names the line that it named before.
  pub move-Followed :
      (re : Engine) (cmd : Command) (dest : ℕ)
      → cmd.resolved ≡ some (line_range start end)
      → destination re true cmd.rest_of_cmd w ≡ done dest w
      → dest ≤ length w.buffer
      → (dest < start) ⊎ (end ≤ dest)
      → (v : World) × (move re cmd w ≡ done tt v)
        × Followed start end n w.buffer v.buffer (find_mark name v.marks)
  move-Followed re cmd dest r g d o =
      let v = moved_world cmd start end dest w in
      let (buffer, line, marks) = moved_world-fields cmd start end dest w in
      let at : find_mark name v.marks ≡ move_shift start end (pos dest) n =
        ap (find_mark name) (marks ∙ update_marks-move start end dest w.marks b)
        ∙ shifted_mark (move_shift start end (pos dest)) in
      (
        v,
        move-moved_world re cmd start end dest w r g a b c d o,
        rw (buffer, at) (gone_or_kept_by_move dest d o (move_shift start end (pos dest) n) refl),
      )
    where
      gone_or_kept_by_move :
          (dest : ℕ)
          → dest ≤ length w.buffer
          → (dest < start) ⊎ (end ≤ dest)
          → (o : Option ℕ) → move_shift start end (pos dest) n ≡ o
          → Followed start end n w.buffer (moved_buffer start end dest w.buffer) o
      gone_or_kept_by_move dest d x none h = move_shift-none start end n dest h
      gone_or_kept_by_move dest d x (some m) h =
          move_shift_lem start end dest w.buffer a b c d x n p l h
