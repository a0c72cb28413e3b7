-- ===== src/Edit/Change.antt =====
-- `Change` replaces the addressed lines.
use go_red.Base.{
  take-append, drop-append, ℕ, ◌+◌, ◌-◌, ◌<◌, ◌≤◌, ◌≡◌, refl, ◌∙◌, ap, arith, true, false, some,
  List, ◌++◌, ltb, ◌==◌, if◌then◌else◌, pos, length, length-append, length-take, Bool-cases, inl,
  inr, take, drop,
}
use go_red.Buffer.{Line}
use go_red.Command.Ident.{CommandId}
use go_red.Command.{Command, new_resolved, create_new_resolved_command_lem}
use go_red.Edit.Delete.{deleted_world, delete-deleted_world, settled, cut_state}
use go_red.Edit.{put_new, change, add_undo_lines}
use go_red.Exec.{done, ◌>>=◌, ◌>>◌, with_range-some}
use go_red.Input.{given_or_read}
use go_red.Lines.Append.{append_lines_lem, appended, spliced}
use go_red.Lines.Cut.{segment, without}
use go_red.Lines.{append_lines}
use go_red.Range.{line_range}
use go_red.State.{set_changed, State, World, UndoText, lines, add_undo}

-- The world with `new` in the place of the lines that began at `start`, whose text `u` holds in its
-- cut buffer; the undo changes the new lines back.
abbrev pub put_world : Command → ℕ → List Line → World → World
put_world cmd start new u =
    let v = appended (start - 1) new u in
    record v {
      state =
          add_undo (pos start) (pos (start + length new - 1)) CommandId.change (lines u.cut_buffer)
            cmd (record v.state { changed_since_last_write = true });
    }

abbrev changed : World → World
changed w = record w { state = set_changed w.state }

module _ (cmd : Command) (new : List Line) (u : World) where
  append_then_undo :
      (at start a b : ℕ)
      → at ≡ start - 1
      → a ≡ start
      → b ≡ start + length new - 1
      → at ≤ length u.buffer
      → 0 < length new
      → (append_lines at new >> add_undo_lines a b CommandId.change (lines u.cut_buffer) cmd)
          (changed u)
        ≡ done tt (put_world cmd start new u)
  unfolding add_undo_lines
  append_then_undo at start a b o p q h l =
      rw (append_lines_lem at new (changed u) h l, ◌>>=◌, ◌>>◌) (rw (o, p, q))

  put_new_lem :
      (start : ℕ)
      → 0 < start
      → start ≤ length u.buffer + 1
      → 0 < length new
      → put_new cmd start new u ≡ done tt (put_world cmd start new u)
  unfolding put_new
  put_new_lem start p h l = elim (Bool-cases (ltb (length u.buffer) start)) [
    | inl e ↦
        rw (e, if◌then◌else◌)
          (append_then_undo (length u.buffer) start (length u.buffer + 1)
            (length u.buffer + length new) (ground arith) (ground arith) (ground arith)
            (omega arith) l)
    | inr e ↦
        rw (e, if◌then◌else◌)
          (append_then_undo (start - 1) start start (start + length new - 1) refl refl refl
            (omega arith) l)
  ]

pub settled-buffer : (start n : ℕ) (s : State) → (settled start n s).buffer ≡ s.buffer
settled-buffer start n s = ground arith

pub settled-cut_buffer : (start n : ℕ) (s : State) → (settled start n s).cut_buffer ≡ s.cut_buffer
settled-cut_buffer start n s = ground arith

pub add_undo-fields :
    (a b : ℕ) (id : CommandId) (t : UndoText) (cmd : Command) (s : State)
    → ((add_undo (pos a) (pos b) id t cmd s).buffer ≡ s.buffer)
      × ((add_undo (pos a) (pos b) id t cmd s).line_nbr ≡ s.line_nbr)
      × ((add_undo (pos a) (pos b) id t cmd s).cut_buffer ≡ s.cut_buffer)
unfolding add_undo
add_undo-fields a b id t cmd s = (ground arith, ground arith, ground arith)

-- Lines put where others have been taken out.
pub spliced-without :
    (start end : ℕ) (new buffer : List Line)
    → start - 1 ≤ length buffer
    → spliced (start - 1) new (without start end buffer)
      ≡ take (start - 1) buffer ++ (new ++ drop end buffer)
spliced-without start end new buffer r =
    let size : start - 1 ≡ length (take (start - 1) buffer) =
      omega (arith, length-take (start - 1) buffer) in
    rw (
      take-append (start - 1) _ (drop end buffer) size,
      drop-append (start - 1) _ (drop end buffer) size,
    )

length-without :
    (start end : ℕ) (buffer : List Line)
    → start - 1 ≤ length buffer
    → start ≤ length (without start end buffer) + 1
length-without start end buffer h = omega (
  arith,
  length-take (start - 1) buffer,
  length-append (take (start - 1) buffer) (drop end buffer),
)

module _ (cmd : Command) (start end : ℕ) (new : List Line) (w : World) where
  -- The state when `Delete` is done, which stores no undo here.
  abbrev pub without_old : World
  without_old =
      deleted_world (new_resolved (line_range start end) CommandId.delete cmd.rest_of_cmd) start end
        false w

  pub change-put_world :
      cmd.resolved ≡ some (line_range start end)
      → 0 < start
      → start ≤ end
      → end ≤ length w.buffer
      → 0 < length new
      → change cmd (some new) w ≡ done tt (put_world cmd start new without_old)
  unfolding change given_or_read
  change-put_world r p q l n =
      let not_zero : (start == 0) ≡ false = ground arith in
      let some_new : (length new == 0) ≡ false = ground arith in
      with_range-some cmd.resolved _ w r
      ∙ rw not_zero (
          rw some_new (
            rw (create_new_resolved_command_lem cmd CommandId.delete cmd.rest_of_cmd r, ◌>>=◌, ◌>>◌)
              (rw
                (
                  delete-deleted_world
                      (new_resolved (line_range start end) CommandId.delete cmd.rest_of_cmd) start
                      end false w refl p q l,
                  ◌>>=◌,
                  ◌>>◌,
                )
                (put_new_lem cmd new without_old start p fits n))))
    where
      fits : start ≤ length without_old.buffer + 1
      fits =
          rw (settled-buffer start (length (without start end w.buffer)) _)
            (length-without start end w.buffer (omega arith))

  -- The state when the old lines are gone and nothing else is done yet.
  abbrev pub old_state : State
  old_state =
      cut_state (new_resolved (line_range start end) CommandId.delete cmd.rest_of_cmd) start end
        false w

  pub put_world-buffer :
      start - 1 ≤ length w.buffer
      → (put_world cmd start new without_old).buffer
        ≡ take (start - 1) w.buffer ++ (new ++ drop end w.buffer)
  put_world-buffer h =
      (add_undo-fields _ _ _ _ _ _).0
      ∙ ap (spliced (start - 1) new)
          (settled-buffer start (length (without start end w.buffer)) old_state)
      ∙ spliced-without start end new w.buffer h

  -- Changing lines of the buffer to at least one line succeeds, puts the new lines in their place, makes
  -- the last new line the current one, and leaves the old lines in the cut buffer.
  pub change_lem :
      cmd.resolved ≡ some (line_range start end)
      → 0 < start
      → start ≤ end
      → end ≤ length w.buffer
      → 0 < length new
      → (v : World) × (change cmd (some new) w ≡ done tt v)
        × (v.buffer ≡ take (start - 1) w.buffer ++ (new ++ drop end w.buffer))
        × (v.line_nbr ≡ start - 1 + length new)
        × (v.cut_buffer ≡ segment start end w.buffer)
  change_lem r p q l n = (
    put_world cmd start new without_old,
    change-put_world r p q l n,
    put_world-buffer (omega arith),
    (add_undo-fields _ _ _ _ _ _).1,
    (add_undo-fields _ _ _ _ _ _).2
        ∙ settled-cut_buffer start (length (without start end w.buffer)) old_state,
  )
