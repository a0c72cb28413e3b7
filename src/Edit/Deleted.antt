-- ===== src/Edit/Deleted.antt =====
-- What `Delete` leaves, behind a description of it that does not look at the code.
use go_red.Base.{
  ◌∙◌, ℕ, ◌+◌, ◌-◌, ◌<◌, ◌≤◌, ◌≡◌, arith, Bool, true, not, ◌&&◌, some, ◌∷◌, ◌++◌, ltb,
  if◌then◌else◌, pos, negsuc, length, take, drop,
}
use go_red.Command.Ident.{CommandId}
use go_red.Command.{Command}
use go_red.Edit.Delete.{deleted_world, delete-deleted_world}
use go_red.Edit.{delete}
use go_red.Exec.{done}
use go_red.Lines.Cut.{without}
use go_red.Mark.Follow.{deleted_world-fields, update_marks-delete}
use go_red.Mark.Table.{marks_without, shift_marks-delete_shift}
use go_red.Range.{line_range}
use go_red.State.{World, Undo, lines, undo_command, add_undo}
use go_red.Transfer.Moving.{length-without}

-- The undo of a deletion: the lines go before the line that followed them, or, where they were the last, are appended at
-- an address that is two lines up from the current one.
abbrev pub undo_of : Command → ℕ → ℕ → World → Undo
undo_of cmd start end w =
    let old = take (end + 1 - start) (drop (start - 1) w.buffer) in
    if ltb end (length w.buffer)
    then undo_command (pos start) (pos start) CommandId.insert (lines old) cmd
    else undo_command (negsuc 1) (negsuc 1) CommandId.append (lines old) cmd

module _ (cmd : Command) (start end : ℕ) (add : Bool) (w : World) (p : 0 < start) (q : start ≤ end)
    (l : end ≤ length w.buffer) where
  size : length (without start end w.buffer) ≡ length w.buffer - (end + 1 - start)
  size = length-without start end w.buffer p q l

  pub deleted-buffer :
      (deleted_world cmd start end add w).buffer ≡ take (start - 1) w.buffer ++ drop end w.buffer
  unfolding add_undo
  deleted-buffer = ground arith

  pub deleted-cut_buffer :
      (deleted_world cmd start end add w).cut_buffer
      ≡ take (end + 1 - start) (drop (start - 1) w.buffer)
  unfolding add_undo
  deleted-cut_buffer = ground arith

  deleted-line_nbr :
      (deleted_world cmd start end add w).line_nbr
      ≡ (if ltb end (length w.buffer) then start else start - 1)
  unfolding add_undo
  deleted-line_nbr = ground (arith, size)

  deleted-undo_list :
      (deleted_world cmd start end add w).undo
      ≡ (if add && not w.processing_undo then undo_of cmd start end w ∷ w.undo else w.undo)
  unfolding add_undo
  deleted-undo_list = ground (arith, size)

  deleted-marks : (deleted_world cmd start end add w).marks ≡ marks_without start end w.marks
  deleted-marks =
      (deleted_world-fields cmd start end add w).1
      ∙ update_marks-delete start end w.marks q
      ∙ shift_marks-delete_shift start end w.marks q

  -- Deleting lines of the buffer takes them out and keeps the others in their order; they become the cut buffer. The line
  -- behind them becomes the current one, or the one before them where they were the last. The buffer counts as
  -- changed; the marks on the lines are dropped, and those behind move up by as many lines. An undo that puts them back before the line that followed them, or appends them where they were the last,
  -- is stored if it is asked for and none is being processed.
  pub delete_lem :
      cmd.resolved ≡ some (line_range start end)
      → (v : World) × (delete cmd add w ≡ done tt v)
        × (v.buffer ≡ take (start - 1) w.buffer ++ drop end w.buffer)
        × (v.cut_buffer ≡ take (end + 1 - start) (drop (start - 1) w.buffer))
        × (v.line_nbr ≡ (if ltb end (length w.buffer) then start else start - 1))
        × (v.changed_since_last_write ≡ true)
        × (v.marks ≡ marks_without start end w.marks)
        × (v.undo
            ≡ (if add && not w.processing_undo then undo_of cmd start end w ∷ w.undo else w.undo))
  unfolding add_undo
  delete_lem r = (
    deleted_world cmd start end add w,
    delete-deleted_world cmd start end add w r p q l,
    deleted-buffer,
    deleted-cut_buffer,
    deleted-line_nbr,
    ground arith,
    deleted-marks,
    deleted-undo_list,
  )
