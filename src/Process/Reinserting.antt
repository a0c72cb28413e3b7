-- ===== src/Process/Reinserting.antt =====
-- A deletion, and then the undo of it.
use go_red.Base.{
  ℕ, ◌-◌, ◌<◌, ◌≤◌, ◌≡◌, refl, ◌∙◌, ap, arith, true, false, Option, none, some, List, ◌∷◌, length,
  length-append, length-take, length-drop, take, drop, pos, int_limit, zero, suc, ltb, inr,
}
use go_red.Buffer.{Line}
use go_red.Command.Ident.{CommandId}
use go_red.Command.{Command}
use go_red.Edit.Change.{spliced-without}
use go_red.Edit.Delete.{deleted_world, delete-deleted_world, cut_state, settled, length-segment}
use go_red.Edit.Insert.{append_insert_lem, inserted_world}
use go_red.Edit.{delete}
use go_red.Exec.{give_up, done, Exec, ◌>>=◌, ◌>>◌}
use go_red.Lines.Append.{spliced}
use go_red.Lines.Cut.{segment, without, segment-parts}
use go_red.Process.{
  System, Reply, reply, process_with, process_checked, resolve_and_run, resolve_with, run_resolved,
  run, report, catch, caught, forbidden_in_global, takes_no_range, process, process_command,
  undo_top, undo_with, undo_lines,
}
use go_red.Process.Undoing.{
  plain_undo, popped, restored, undo_entry, inserted-buffer, deleted_world-buffer,
}
use go_red.Range.Bounds.{calculate_absolute}
use go_red.Range.{line_range}
use go_red.Result.{ok}
use go_red.State.{State, add_undo, World, Undo, UndoText, lines, undo_command}

-- The insert at line `a` that an undo stores, and what it is once it is resolved.
abbrev pub stored_insert : ℕ → UndoText → Command → Command
stored_insert a text original = (undo_command (pos a) (pos a) CommandId.insert text original).cmd

abbrev pub resolved_insert : ℕ → UndoText → Command → Command
resolved_insert a text original = record (stored_insert a text original) {
  resolved = some (line_range a a);
}

module _ (sys : System) (f : Command → Option (List Line) → Exec Reply) (a : ℕ) (new : List Line)
    (original : Command) (w : World) (i : a < int_limit) (l : a ≤ length w.buffer) where
  resolve_stored :
      resolve_with sys (stored_insert a (lines new) original) none w
      ≡ ok (resolved_insert a (lines new) original)
  unfolding resolve_with
  resolve_stored =
      rw (
        calculate_absolute sys.regex w.buffer w.marks w.line_nbr a a (omega arith) i l,
        resolve_with,
      )

  process_insert :
      0 < length new
      → process_with sys f (stored_insert a (lines new) original) (some new) false w
        ≡ done
            (reply false none)
            (inserted_world (resolved_insert a (lines new) original) (a - 1) new w)
  unfolding process_with process_checked forbidden_in_global takes_no_range resolve_and_run
      run_resolved run report catch caught
  process_insert n =
      ap (λ r. run_resolved sys f none (some new) r w) resolve_stored
      ∙ rw
          (
            append_insert_lem (resolved_insert a (lines new) original) a a new w (inr refl) refl l
                n,
            ◌>>=◌,
          )
          refl

module _ (sys : System) (a : ℕ) (new : List Line) (original : Command) (i : a < int_limit)
    (n : 0 < length new) where
  redo_insert :
      (depth : ℕ) (w : World)
      → a ≤ length w.buffer
      → process sys depth (stored_insert a (lines new) original) (some new) false w
        ≡ done
            (reply false none)
            (inserted_world (resolved_insert a (lines new) original) (a - 1) new w)
  unfolding process
  redo_insert zero w l = process_insert sys (λ c j. give_up) a new original w i l n
  redo_insert (suc depth) w l =
      process_insert sys (λ c j. process sys depth c j false) a new original w i l n

  pub undo_top-insert :
      (depth : ℕ) (us : List Undo) (v : World)
      → a ≤ length v.buffer
      → undo_top sys
          (λ c j. process sys depth c j false)
          (undo_command (pos a) (pos a) CommandId.insert (lines new) original ∷ us)
          v
        ≡ done (reply false none) (
            restored sys (
              inserted_world
                (resolved_insert a (lines new) original)
                (a - 1)
                new
                (popped sys us v)))
  unfolding undo_top undo_with undo_lines
  undo_top-insert depth us v l = rw (redo_insert depth (popped sys us v) l, ◌>>=◌, ◌>>◌) refl

pub settled-undo : (start n : ℕ) (s : State) → (settled start n s).undo ≡ s.undo
settled-undo start n s = ground arith

pub spliced-segment :
    (start end : ℕ) (buffer : List Line)
    → 0 < start
    → start ≤ end
    → end ≤ length buffer
    → spliced (start - 1) (segment start end buffer) (without start end buffer) ≡ buffer
spliced-segment start end buffer p q r =
    spliced-without start end (segment start end buffer) buffer (omega arith)
    ∙ segment-parts start end buffer p q

module _ (sys : System) (cmd : Command) (start end : ℕ) (w : World) where
  abbrev pub removed : World
  removed = deleted_world cmd start end true w

  -- The undo that a deletion stores, unless it reaches the last line.
  pub deleted-undo :
      start ≤ length (without start end w.buffer)
      → w.processing_undo ≡ false
      → removed.undo
        ≡ undo_command
            (pos start)
            (pos start)
            CommandId.insert
            (lines (segment start end w.buffer))
            cmd
          ∷ w.undo
  unfolding add_undo
  deleted-undo b h =
      let n = length (without start end w.buffer) in
      let kept : ltb n start ≡ false = ground arith in
      settled-undo start n (cut_state cmd start end true w) ∙ rw (kept, h)

  pub removed-buffer : removed.buffer ≡ without start end w.buffer
  removed-buffer = deleted_world-buffer sys (λ c j. give_up) cmd start end w

  pub undo_deleted :
      w.processing_undo ≡ false
      → 0 < start
      → start ≤ end
      → end < length w.buffer
      → start < int_limit
      → (x : World) × (process_command sys plain_undo none false removed
          ≡ done (reply false none) x)
        × (x.buffer ≡ w.buffer)
  undo_deleted u p q r i =
      let old = segment start end w.buffer in
      let size : start ≤ length (without start end w.buffer) = omega (
        arith,
        length-append (take (start - 1) w.buffer) (drop end w.buffer),
        length-take (start - 1) w.buffer,
        length-drop end w.buffer,
      ) in
      let entry = deleted-undo size u in
      let some_old : 0 < length old =
        omega (arith, length-segment start end w.buffer p q (omega arith)) in
      (
        restored sys (
            inserted_world (resolved_insert start (lines old) cmd) (start - 1) old
              (popped sys w.undo removed)),
        undo_entry sys _ w.undo removed _ entry (λ depth.
            undo_top-insert sys start old cmd i some_old depth w.undo removed
              (rw removed-buffer size)),
        inserted-buffer sys (resolved_insert start (lines old) cmd) (start - 1) old
              (popped sys w.undo removed)
            ∙ ap (spliced (start - 1) old) removed-buffer
            ∙ spliced-segment start end w.buffer p q (omega arith),
      )

  -- Deleting lines of the buffer other than the last, with line numbers that fit an `int` and no undo being
  -- processed, succeeds, and the command `u` after it succeeds and gives the buffer back as it was.
  pub delete-undo :
      cmd.resolved ≡ some (line_range start end)
      → 0 < start
      → start ≤ end
      → end < length w.buffer
      → start < int_limit
      → w.processing_undo ≡ false
      → (v : World) × (delete cmd true w ≡ done tt v)
        × (x : World) × (process_command sys plain_undo none false v ≡ done (reply false none) x)
        × (x.buffer ≡ w.buffer)
  delete-undo e p q r i u =
      let (x, f, b) = undo_deleted u p q r i in
      (removed, delete-deleted_world cmd start end true w e p q (omega arith), x, f, b)
