-- ===== src/Edit/Delete.antt =====
-- `Delete` takes the addressed lines out, into the cut buffer.
use go_red.Base.{
  ℕ, ◌+◌, ◌-◌, ◌<◌, ◌≤◌, ◌≡◌, ◌∙◌, ap, arith, Bool, true, false, none, some, List, ltb, ◌==◌,
  if◌then◌else◌, negsuc, length, length-take, length-drop, Bool-cases, inl, inr, drop,
}
use go_red.Buffer.{Line}
use go_red.Command.Ident.{CommandId}
use go_red.Command.{Command}
use go_red.Edit.{settle, undo_delete, after_delete, delete}
use go_red.Exec.{done, ◌>>=◌, ◌>>◌, with_range-some}
use go_red.Lines.Append.{move_to_line_lem}
use go_red.Lines.Cut.{segment, without, cut_world, delete_lines_lem}
use go_red.Lines.{at_line}
use go_red.Mark.{update_marks}
use go_red.Range.{line_range}
use go_red.State.{State, World, add_undo}

-- The current line at the end: the line after the deleted ones, or the last line, or none.
abbrev pub settled : ℕ → ℕ → State → State
settled start buffer_len s =
    if buffer_len == 0
    then record s { dotline = none; line_nbr = 0 }
    else (let n = if ltb buffer_len start then buffer_len else start in at_line n (some (n - 1)) s)

abbrev with_state : State → World → World
with_state s w = record w { state = s }

settle_lem :
    (start n : ℕ) (s : State) (w : World)
    → 0 < start
    → length s.buffer ≡ n
    → settle start n (with_state s w) ≡ done tt (with_state (settled start n s) w)
unfolding settle
settle_lem start n s w p e = elim (Bool-cases (n == 0)) [
  | inl z ↦ rw z
  | inr z ↦ rw z (elim (Bool-cases (ltb n start)) [
    | inl l ↦ rw l (move_to_line_lem n (with_state s w) (ground arith) (omega arith))
    | inr l ↦ rw l (move_to_line_lem start (with_state s w) p (ground arith))
  ])
]

pub length-segment :
    (start end : ℕ) (buffer : List Line)
    → 0 < start
    → start ≤ end
    → end ≤ length buffer
    → length (segment start end buffer) ≡ end + 1 - start
length-segment start end buffer p q r =
    omega (
      arith,
      length-take (end + 1 - start) (drop (start - 1) buffer),
      length-drop (start - 1) buffer,
    )

-- The state after the deletion, with the lines taken out: what the cut buffer, the marks and the
-- undo list have become.
abbrev pub cut_state : Command → ℕ → ℕ → Bool → World → State
cut_state cmd start end add w =
    let temp = segment start end w.buffer in
    let s = record (cut_world start end w).state {
      cut_buffer = temp;
      changed_since_last_write = true;
      marks = update_marks CommandId.delete start end (negsuc 0) w.marks;
    } in
    if add then undo_delete cmd start (length (without start end w.buffer)) temp s else s

abbrev pub deleted_world : Command → ℕ → ℕ → Bool → World → World
deleted_world cmd start end add w =
    with_state (settled start (length (without start end w.buffer)) (cut_state cmd start end add w))
      w

pub undo_delete-buffer :
    (cmd : Command) (start n : ℕ) (add : Bool) (temp : List Line) (s : State)
    → (if add then undo_delete cmd start n temp s else s).buffer ≡ s.buffer
unfolding add_undo
undo_delete-buffer cmd start n add temp s = ground arith

after_delete_lem :
    (cmd : Command) (start end : ℕ) (add : Bool) (w : World)
    → 0 < start
    → after_delete cmd start end add (segment start end w.buffer) (cut_world start end w)
      ≡ done tt (deleted_world cmd start end add w)
unfolding after_delete
after_delete_lem cmd start end add w p =
    settle_lem start _ (cut_state cmd start end add w) w p
      (ap length (undo_delete-buffer cmd start _ add _ _))

-- Deleting lines of the buffer takes them out and keeps the others in their order; they become the
-- cut buffer, the marks are updated, the line behind them becomes the current one (or the last
-- line, or 0 for an empty buffer), and an undo that holds them is stored if it is asked for and
-- none is being processed.
pub delete-deleted_world :
    (cmd : Command) (start end : ℕ) (add : Bool) (w : World)
    → cmd.resolved ≡ some (line_range start end)
    → 0 < start
    → start ≤ end
    → end ≤ length w.buffer
    → delete cmd add w ≡ done tt (deleted_world cmd start end add w)
unfolding delete
delete-deleted_world cmd start end add w r p q l =
    let not_zero : (start == 0) ≡ false = ground arith in
    let some_cut : (length (segment start end w.buffer) == 0) ≡ false =
      ground (arith, length-segment start end w.buffer) in
    with_range-some cmd.resolved _ w r
    ∙ rw not_zero (
        rw (delete_lines_lem start end w p q l, ◌>>=◌, ◌>>◌)
          (rw some_cut (after_delete_lem cmd start end add w p)))
