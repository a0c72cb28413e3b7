-- ===== src/Process/Changing.antt =====
-- A change or a join, and then the undo of it.
use mathlib.Core.List.{append_assoc}
use go_red.Base.{
  take-append, drop-append, ℕ, ◌+◌, ◌-◌, ◌<◌, ◌≤◌, ◌≡◌, refl, ◌∙◌, ap, arith, false, Option, none,
  some, List, [], ◌∷◌, ◌++◌, length, length-append, length-take, take, drop, pos, int_limit, zero,
  suc,
}
use go_red.Buffer.{Line}
use go_red.Command.Ident.{CommandId}
use go_red.Command.{Command}
use go_red.Edit.Change.{
  change-put_world, put_world, put_world-buffer, without_old, old_state, settled-cut_buffer,
}
use go_red.Edit.Delete.{settled, length-segment}
use go_red.Edit.Join.{change_command, copied_world, join-change}
use go_red.Edit.{change, join, joined, end_joined}
use go_red.Text.{Text}
use go_red.Exec.{give_up, done, Exec, ◌>>=◌, ◌>>◌}
use go_red.Lines.Cut.{segment, without, segment-parts}
use go_red.Process.{
  System, Reply, reply, process_with, process_checked, resolve_and_run, resolve_with, run_resolved,
  run, report, catch, caught, forbidden_in_global, takes_no_range, process, process_command,
  undo_top, undo_with, undo_lines,
}
use go_red.Process.Reinserting.{settled-undo}
use go_red.Process.Undoing.{plain_undo, popped, restored, undo_entry}
use go_red.Range.Bounds.{calculate_absolute}
use go_red.Range.{line_range}
use go_red.Result.{ok}
use go_red.State.{State, add_undo, World, Undo, UndoText, lines, undo_command}

-- The change of lines `a` to `b` that an undo stores, and what it is once it is resolved.
abbrev pub stored_change : ℕ → ℕ → UndoText → Command → Command
stored_change a b text original = (undo_command (pos a) (pos b) CommandId.change text original).cmd

abbrev pub resolved_change : ℕ → ℕ → UndoText → Command → Command
resolved_change a b text original = record (stored_change a b text original) {
  resolved = some (line_range a b);
}

-- The world when the old lines are back.
abbrev pub changed_back : ℕ → ℕ → List Line → Command → World → World
changed_back a b old original w =
    let cmd = resolved_change a b (lines old) original in
    put_world cmd a old (without_old cmd a b old w)

module _ (sys : System) (a b : ℕ) (old : List Line) (original : Command) (w : World) (p : 0 < a)
    (q : a ≤ b) (i : b < int_limit) (l : b ≤ length w.buffer) (n : 0 < length old) where
  resolve_stored :
      resolve_with sys (stored_change a b (lines old) original) none w
      ≡ ok (resolved_change a b (lines old) original)
  unfolding resolve_with
  resolve_stored =
      rw (calculate_absolute sys.regex w.buffer w.marks w.line_nbr a b q i l, resolve_with)

  process_change :
      (f : Command → Option (List Line) → Exec Reply)
      → process_with sys f (stored_change a b (lines old) original) (some old) false w
        ≡ done (reply false none) (changed_back a b old original w)
  unfolding process_with process_checked forbidden_in_global takes_no_range resolve_and_run
      run_resolved run report catch caught
  process_change f =
      ap (λ r. run_resolved sys f none (some old) r w) resolve_stored
      ∙ rw
          (
            change-put_world (resolved_change a b (lines old) original) a b old w refl p q l n,
            ◌>>=◌,
          )
          refl

  redo_change :
      (depth : ℕ)
      → process sys depth (stored_change a b (lines old) original) (some old) false w
        ≡ done (reply false none) (changed_back a b old original w)
  unfolding process
  redo_change zero = process_change (λ c j. give_up)
  redo_change (suc depth) = process_change (λ c j. process sys depth c j false)

add_undo-undo :
    (a b : ℕ) (id : CommandId) (t : UndoText) (cmd : Command) (us : List Undo) (s : State)
    → s.processing_undo ≡ false
    → s.undo ≡ us
    → (add_undo (pos a) (pos b) id t cmd s).undo ≡ undo_command (pos a) (pos b) id t cmd ∷ us
unfolding add_undo
add_undo-undo a b id t cmd us s h e = rw h (ap (undo_command (pos a) (pos b) id t cmd ∷◌) e)

settled-processing_undo :
    (start n : ℕ) (s : State) → (settled start n s).processing_undo ≡ s.processing_undo
settled-processing_undo start n s = ground arith

module _ (cmd : Command) (start end : ℕ) (new : List Line) (w : World) where
  abbrev pub changed_world : World
  changed_world = put_world cmd start new (without_old cmd start end new w)

  -- The undo that a change stores: the new lines are changed to the old ones.
  pub changed-undo :
      w.processing_undo ≡ false
      → changed_world.undo
        ≡ undo_command
            (pos start)
            (pos (start + length new - 1))
            CommandId.change
            (lines (segment start end w.buffer))
            cmd
          ∷ w.undo
  changed-undo h =
      let n = length (without start end w.buffer) in
      let s = old_state cmd start end new w in
      add_undo-undo start (start + length new - 1) CommandId.change _ cmd w.undo _
        (settled-processing_undo start n s ∙ h) (settled-undo start n s)
      ∙ ap
          (λ c.
            undo_command (pos start) (pos (start + length new - 1)) CommandId.change (lines c) cmd
            ∷ w.undo)
          (settled-cut_buffer start n s)

pub undo_top-change :
    (sys : System) (depth a b : ℕ) (old : List Line) (original : Command) (us : List Undo)
    (v : World)
    → 0 < a
    → a ≤ b
    → b < int_limit
    → b ≤ length v.buffer
    → 0 < length old
    → undo_top sys
        (λ c j. process sys depth c j false)
        (undo_command (pos a) (pos b) CommandId.change (lines old) original ∷ us)
        v
      ≡ done (reply false none) (restored sys (changed_back a b old original (popped sys us v)))
unfolding undo_top undo_with undo_lines
undo_top-change sys depth a b old original us v p q i l n =
    rw (redo_change sys a b old original (popped sys us v) p q i l n depth, ◌>>=◌, ◌>>◌) refl

-- The buffer once lines `start` to `end` have given way to `new`.
abbrev pub replaced : ℕ → ℕ → List Line → List Line → List Line
replaced start end new buffer = take (start - 1) buffer ++ (new ++ drop end buffer)

pub length-replaced :
    (start end : ℕ) (new buffer : List Line)
    → start - 1 ≤ length buffer
    → start - 1 + length new ≤ length (replaced start end new buffer)
length-replaced start end new buffer h = omega (
  arith,
  length-append (take (start - 1) buffer) (new ++ drop end buffer),
  length-append new (drop end buffer),
  length-take (start - 1) buffer,
)

-- Putting the old lines in the place of the new ones gives the buffer back.
pub replaced-replaced :
    (start end : ℕ) (new buffer : List Line)
    → 0 < start
    → start ≤ end
    → end ≤ length buffer
    → replaced start
        (start + length new - 1)
        (segment start end buffer)
        (replaced start end new buffer)
      ≡ buffer
replaced-replaced start end new buffer p q l =
    let size = length-take (start - 1) buffer in
    let front : take (start - 1) (replaced start end new buffer) ≡ take (start - 1) buffer =
      take-append (start - 1) (take (start - 1) buffer) (new ++ drop end buffer)
        (omega (arith, size)) in
    let back : drop (start + length new - 1) (replaced start end new buffer) ≡ drop end buffer =
      rw append_assoc at (
        drop-append (start + length new - 1) (take (start - 1) buffer ++ new) (drop end buffer)
          (omega (arith, size, length-append (take (start - 1) buffer) new))) in
    rw (front, back) (segment-parts start end buffer p q)

module _ (sys : System) (cmd : Command) (start end : ℕ) (new : List Line) (w : World)
    (p : 0 < start) (q : start ≤ end) (r : end ≤ length w.buffer) (n : 0 < length new)
    (i : start + length new < int_limit) (u : w.processing_undo ≡ false) where
  undo_changed :
      (x : World) × (process_command sys plain_undo none false (changed_world cmd start end new w)
        ≡ done (reply false none) x)
      × (x.buffer ≡ w.buffer)
  undo_changed =
      let v = changed_world cmd start end new w in
      let b = start + length new - 1 in
      let old = segment start end w.buffer in
      let entry = changed-undo cmd start end new w u in
      let buffer : v.buffer ≡ replaced start end new w.buffer =
        put_world-buffer cmd start end new w (omega arith) in
      let some_old : 0 < length old = omega (arith, length-segment start end w.buffer p q r) in
      let fits : b ≤ length v.buffer =
        rw buffer (omega (arith, length-replaced start end new w.buffer (omega arith))) in
      (
        _,
        undo_entry sys _ w.undo v _ entry (λ depth.
            undo_top-change sys depth start b old cmd w.undo v p (omega arith) (omega arith) fits
              some_old),
        put_world-buffer _ start b old (popped sys w.undo v) (omega arith)
            ∙ ap (replaced start b old) buffer
            ∙ replaced-replaced start end new w.buffer p q r,
      )

  -- Changing lines of the buffer to at least one line succeeds where line numbers fit an `int` and no undo is being
  -- processed, and the command `u` after it succeeds and gives the buffer back as it was.
  pub change-undo :
      cmd.resolved ≡ some (line_range start end)
      → (v : World) × (change cmd (some new) w ≡ done tt v)
        × (x : World) × (process_command sys plain_undo none false v ≡ done (reply false none) x)
        × (x.buffer ≡ w.buffer)
  change-undo e =
      let (x, f, b) = undo_changed in
      (changed_world cmd start end new w, change-put_world cmd start end new w e p q r n, x, f, b)

-- Joining lines, or a single one, whose texts can be joined succeeds where line numbers fit an `int` and no undo is being processed, and
-- the command `u` after it succeeds and gives the buffer back as it was.
pub join-undo :
    (sys : System) (cmd : Command) (start end : ℕ) (text : Text) (w : World)
    → cmd.resolved ≡ some (line_range start end)
    → 0 < start
    → start ≤ end
    → end ≤ length w.buffer
    → start + 1 < int_limit
    → w.processing_undo ≡ false
    → end_joined (joined (segment start end w.buffer)) ≡ some text
    → (v : World) × (join cmd w ≡ done tt v)
      × (x : World) × (process_command sys plain_undo none false v ≡ done (reply false none) x)
      × (x.buffer ≡ w.buffer)
join-undo sys cmd start end text w e p q r i u j =
    let (v, c, x, f, b) =
      change-undo sys (change_command cmd start end w) start end (record { line = text } ∷ [])
        (copied_world cmd start end w) p q r (omega arith) i u refl in
    (v, join-change cmd start end w text e p q r j ∙ c, x, f, b)
