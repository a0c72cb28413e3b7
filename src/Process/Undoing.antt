-- ===== src/Process/Undoing.antt =====
-- A command, and then the undo of it.
use mathlib.Core.List.{append_assoc}
use go_red.Base.{
  take-append, drop-append, ℕ, ◌+◌, ◌-◌, ◌<◌, ◌≤◌, ◌≡◌, refl, ◌∙◌, ap, arith, true, false, Option,
  none, some, List, [], ◌∷◌, ◌++◌, length, length-append, length-take, take, drop, take-append-drop,
  ◌⊎◌, pos, int_limit, zero, suc,
}
use go_red.Buffer.{Line}
use go_red.Command.Ident.{CommandId}
use go_red.Command.{Command}
use go_red.Edit.Delete.{deleted_world, delete-deleted_world, cut_state, undo_delete-buffer}
use go_red.Edit.Change.{settled-buffer, add_undo-fields}
use go_red.Edit.Insert.{append_insert_lem, inserted_world, place, place-le}
use go_red.Edit.{append_insert}
use go_red.Exec.{give_up, Run, pure, done, Exec, ◌>>=◌, ◌>>◌}
use go_red.Lines.Append.{appended, spliced, length-spliced}
use go_red.Lines.Cut.{without}
use go_red.Process.{
  System, Reply, reply, process_with, process_checked, resolve_and_run, resolve_with, run_resolved,
  run, report, catch, caught, forbidden_in_global, takes_no_range, process, process_command,
  undo_top, undo_last, undo_with, undo_lines,
}
use go_red.Range.Bounds.{calculate_absolute, unspecified_range}
use go_red.Range.{line_range, is_specified, calculate_start_and_end_line_numbers}
use go_red.Result.{ok}
use go_red.State.{add_undo, World, Undo, UndoText, lines, undo_command}

-- Taking out the lines that have been put in gives the buffer as it was.
pub without-spliced :
    (at : ℕ) (new buffer : List Line)
    → at ≤ length buffer
    → without (at + 1) (at + length new) (spliced at new buffer) ≡ buffer
without-spliced at new buffer h =
    let size = length-take at buffer in
    let same : at + 1 - 1 ≡ at = omega arith in
    let front : take at (take at buffer ++ (new ++ drop at buffer)) ≡ take at buffer =
      take-append at (take at buffer) (new ++ drop at buffer) (omega (arith, size)) in
    let back : drop (at + length new) (take at buffer ++ (new ++ drop at buffer)) ≡ drop at buffer =
      rw append_assoc at (
        drop-append (at + length new) (take at buffer ++ new) (drop at buffer)
          (omega (arith, size, length-append (take at buffer) new))) in
    rw (same, front, back) (take-append-drop at buffer)

-- The delete of lines `a` to `b` that an undo stores, and what it is once it is resolved.
abbrev pub stored_delete : ℕ → ℕ → UndoText → Command → Command
stored_delete a b text original = (undo_command (pos a) (pos b) CommandId.delete text original).cmd

abbrev pub resolved_delete : ℕ → ℕ → UndoText → Command → Command
resolved_delete a b text original = record (stored_delete a b text original) {
  resolved = some (line_range a b);
}

module _ (sys : System) (f : Command → Option (List Line) → Exec Reply) where
  resolve_stored :
      (a b : ℕ) (text : UndoText) (original : Command) (w : World)
      → a ≤ b
      → b < int_limit
      → b ≤ length w.buffer
      → resolve_with sys (stored_delete a b text original) none w
        ≡ ok (resolved_delete a b text original)
  unfolding resolve_with
  resolve_stored a b text original w q i l =
      rw (calculate_absolute sys.regex w.buffer w.marks w.line_nbr a b q i l, resolve_with)

  process_delete :
      (a b : ℕ) (text : UndoText) (original : Command) (input : Option (List Line)) (w : World)
      → 0 < a
      → a ≤ b
      → b < int_limit
      → b ≤ length w.buffer
      → process_with sys f (stored_delete a b text original) input false w
        ≡ done (reply false none) (deleted_world (resolved_delete a b text original) a b true w)
  unfolding process_with process_checked forbidden_in_global takes_no_range resolve_and_run
      run_resolved run report catch caught
  process_delete a b text original input w p q i l =
      ap (λ r. run_resolved sys f none input r w) (resolve_stored a b text original w q i l)
      ∙ rw (delete-deleted_world (resolved_delete a b text original) a b true w refl p q l, ◌>>=◌)
          refl

  pub deleted_world-buffer :
      (cmd : Command) (a b : ℕ) (w : World)
      → (deleted_world cmd a b true w).buffer ≡ without a b w.buffer
  deleted_world-buffer cmd a b w =
      settled-buffer a (length (without a b w.buffer)) (cut_state cmd a b true w)
      ∙ undo_delete-buffer cmd a (length (without a b w.buffer)) true _ _

-- `u`, as parsed.
abbrev pub plain_undo : Command
plain_undo = record {
  addr_range = unspecified_range;
  resolved = none;
  cmd = CommandId.undo;
  rest_of_cmd = [];
}

module _ (sys : System) where
  pub redo_delete :
      (depth a b : ℕ) (text : UndoText) (original : Command) (input : Option (List Line))
      (w : World)
      → 0 < a
      → a ≤ b
      → b < int_limit
      → b ≤ length w.buffer
      → process sys depth (stored_delete a b text original) input false w
        ≡ done (reply false none) (deleted_world (resolved_delete a b text original) a b true w)
  unfolding process
  redo_delete zero a b text original input w p q i l =
      process_delete sys (λ c j. give_up) a b text original input w p q i l
  redo_delete (suc depth) a b text original input w p q i l =
      process_delete sys (λ c j. process sys depth c j false) a b text original input w p q i l

  abbrev pub popped : List Undo → World → World
  popped us v = record v { state = record v.state { undo = us; processing_undo = true } }

  abbrev pub restored : World → World
  restored v = record v { state = record v.state { processing_undo = false } }

  pub undo_top-delete :
      (depth a b : ℕ) (text : UndoText) (input : Option (List Line)) (original : Command)
      (us : List Undo) (v : World)
      → undo_lines text ≡ pure input
      → 0 < a
      → a ≤ b
      → b < int_limit
      → b ≤ length v.buffer
      → undo_top sys
          (λ c i. process sys depth c i false)
          (undo_command (pos a) (pos b) CommandId.delete text original ∷ us)
          v
        ≡ done
            (reply false none)
            (restored (deleted_world (resolved_delete a b text original) a b true (popped us v)))
  unfolding undo_top undo_with
  undo_top-delete depth a b text input original us v t p q i l =
      rw t (rw (redo_delete depth a b text original input (popped us v) p q i l, ◌>>=◌, ◌>>◌) refl)

  undo_step :
      (depth : ℕ) (v : World)
      → process sys (suc depth) plain_undo none false v
        ≡ undo_top sys (λ c i. process sys depth c i false) v.undo v
  unfolding process process_with process_checked forbidden_in_global takes_no_range resolve_and_run
      run_resolved resolve_with run undo_last is_specified calculate_start_and_end_line_numbers
  undo_step depth v = refl

  -- `u` does what `undo_top` does with the entry on top, whatever the depth.
  pub undo_entry :
      (u : Undo) (us : List Undo) (v : World) (r : Run Reply)
      → v.undo ≡ u ∷ us
      → ((depth : ℕ) → undo_top sys (λ c j. process sys depth c j false) (u ∷ us) v ≡ r)
      → process_command sys plain_undo none false v ≡ r
  unfolding process_command
  undo_entry u us v r e h =
      ap (λ us'. process sys (length us') plain_undo none false v) e
      ∙ undo_step (length us) v
      ∙ ap (λ us'. undo_top sys (λ c j. process sys (length us) c j false) us' v) e
      ∙ h (length us)

module _ (sys : System) (original : Command) (at : ℕ) (new : List Line) (text : UndoText)
    (input : Option (List Line)) (us : List Undo) (buffer : List Line) (v : World)
    (t : undo_lines text ≡ pure input)
    (e : v.undo
      ≡ undo_command (pos (at + 1)) (pos (at + length new)) CommandId.delete text original ∷ us)
    (b : v.buffer ≡ spliced at new buffer) where
  -- Where lines have been put in and their delete is on top of the undo list, `u` takes them out.
  pub undo_spliced :
      at ≤ length buffer
      → 0 < length new
      → at + length new < int_limit
      → (x : World) × (process_command sys plain_undo none false v ≡ done (reply false none) x)
        × (x.buffer ≡ buffer)
  undo_spliced h l i =
      let size : at + length new ≤ length v.buffer =
        rw b (omega (arith, length-spliced at new buffer h)) in
      (
        _,
        undo_entry sys _ us v _ e (λ depth.
            undo_top-delete sys depth (at + 1) (at + length new) text input original us v t
              (omega arith) (omega arith) i size),
        deleted_world-buffer sys (λ c j. give_up)
              (resolved_delete (at + 1) (at + length new) text original) (at + 1) (at + length new)
              (popped sys us v)
            ∙ ap (without (at + 1) (at + length new)) b
            ∙ without-spliced at new buffer h,
      )

-- The undo that an insertion stores.
pub inserted-undo :
    (cmd : Command) (at : ℕ) (new : List Line) (w : World)
    → w.processing_undo ≡ false
    → (inserted_world cmd at new w).undo
      ≡ undo_command (pos (at + 1)) (pos (at + length new)) CommandId.delete (lines new) cmd
        ∷ w.undo
unfolding add_undo
inserted-undo cmd at new w h = rw h

module _ (sys : System) (cmd : Command) (at : ℕ) (new : List Line) (w : World) where
  abbrev inserted : World
  inserted = inserted_world cmd at new w

  pub inserted-buffer : inserted.buffer ≡ spliced at new w.buffer
  inserted-buffer =
      (add_undo-fields (at + 1) (at + length new) CommandId.delete (lines new) cmd
        (record (appended at new w).state { changed_since_last_write = true })).0

-- With at least one line given, an address up to the last line of the buffer, line numbers that fit an `int`
-- and no undo being processed, `append` and `insert` succeed, and the command `u` after them succeeds and
-- gives the buffer back as it was.
pub append_insert-undo :
    (sys : System) (cmd : Command) (start end : ℕ) (new : List Line) (w : World)
    → (cmd.cmd ≡ CommandId.append) ⊎ (cmd.cmd ≡ CommandId.insert)
    → cmd.resolved ≡ some (line_range start end)
    → start ≤ length w.buffer
    → 0 < length new
    → start + length new < int_limit
    → w.processing_undo ≡ false
    → (v : World) × (append_insert cmd (some new) w ≡ done tt v)
      × (x : World) × (process_command sys plain_undo none false v ≡ done (reply false none) x)
      × (x.buffer ≡ w.buffer)
unfolding undo_lines
append_insert-undo sys cmd start end new w k r h l i u =
    let low = place-le cmd.cmd start in
    let (x, e, b) =
      undo_spliced sys cmd (place cmd.cmd start) new (lines new) (some new) w.undo w.buffer
        (inserted_world cmd (place cmd.cmd start) new w) refl
        (inserted-undo cmd (place cmd.cmd start) new w u)
        (inserted-buffer sys cmd (place cmd.cmd start) new w) (omega (arith, low)) l
        (omega (arith, low)) in
    (
      inserted_world cmd (place cmd.cmd start) new w,
      append_insert_lem cmd start end new w k r h l,
      x,
      e,
      b,
    )
