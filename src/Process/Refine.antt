-- ===== src/Process/Refine.antt =====
-- The commands that edit the buffer, as operations on a list of lines.
pub mod Steps
pub mod Unwound
use go_red.Base.{
  ℕ, zero, suc, ◌+◌, ◌-◌, ◌<◌, ◌≤◌, ◌≡◌, refl, ◌∙◌, ap, arith, true, false, Bool, Option, none,
  some, List, [], ◌∷◌, ◌++◌, length, take, drop, ◌⊎◌, inl, inr, pos, int_limit,
}
use go_red.Buffer.{Line}
use go_red.Command.Ident
use go_red.Command.Ident.{CommandId}
use go_red.Command.{Command}
use go_red.Edit.Change.{change_lem}
use go_red.Edit.Delete.{deleted_world, delete-deleted_world}
use go_red.Edit.Insert.{append_insert_lem, inserted_world, place}
use go_red.Edit.{append_insert, delete, change}
use go_red.Exec.{give_up, Run, abort, pure, done, Exec, ◌>>=◌, ◌>>◌}
use go_red.Lines.Append.{spliced}
use go_red.Lines.Cut.{segment, without}
use go_red.Process.{
  System, Reply, reply, process_with, process_checked, resolve_and_run, resolve_with, run_resolved,
  run, report, catch, caught, forbidden_in_global, takes_no_range, process, process_command,
}
use go_red.Process.Undoing.{deleted_world-buffer, inserted-buffer}
use go_red.Range.Bounds.{calculate_absolute}
use go_red.Range.{line_range}
use go_red.Result.{Result, ok}
use go_red.State.{State, World, absolute_range}
use go_red.Text.{Text, itoa}
use go_red.Transfer.Destination.{destination-itoa}
use go_red.Transfer.Moving.{move_lem}
use go_red.Transfer.Relocated.{relocated}
use go_red.Transfer.{move}

-- What a user asks for: lines put behind a line or before it, lines taken out, replaced, or moved behind another.
pub data Edit : Type 0 where
  add_behind : ℕ → List Line → Edit
  add_before : ℕ → List Line → Edit
  remove : ℕ → ℕ → Edit
  replace : ℕ → ℕ → List Line → Edit
  relocate : ℕ → ℕ → ℕ → Edit

-- The list of lines with an edit made.
unfoldable pub apply : Edit → List Line → List Line
apply (add_behind at new) b = take at b ++ (new ++ drop at b)
apply (add_before at new) b = take (at - 1) b ++ (new ++ drop (at - 1) b)
apply (remove start end) b = take (start - 1) b ++ drop end b
apply (replace start end new) b = take (start - 1) b ++ (new ++ drop end b)
apply (relocate start end dest) b = relocated start end dest b

-- The command for an edit, as `ParseCommand` gives it, and the lines that go with it.
abbrev edit_command : CommandId → ℕ → ℕ → Text → Command
edit_command id start end rest = record {
  addr_range = absolute_range (pos start) (pos end);
  resolved = none;
  cmd = id;
  rest_of_cmd = rest;
}

pub as_command : Edit → Command
as_command (add_behind at new) = edit_command Ident.append at at []
as_command (add_before at new) = edit_command Ident.insert at at []
as_command (remove start end) = edit_command Ident.delete start end []
as_command (replace start end new) = edit_command Ident.change start end []
as_command (relocate start end dest) = edit_command Ident.move start end (itoa (pos dest))

pub input_of : Edit → Option (List Line)
input_of (add_behind at new) = some new
input_of (add_before at new) = some new
input_of (remove start end) = none
input_of (replace start end new) = some new
input_of (relocate start end dest) = none

abbrev InBuffer : ℕ → ℕ → ℕ → Type 0
InBuffer start end n = (0 < start) × (start ≤ end) × (end ≤ n) × (end < int_limit)

-- The edits that a buffer of `n` lines allows: their lines are lines of the buffer with numbers that fit an
-- `int`, and there are lines to put in.
abbrev pub Fits : ℕ → Edit → Type 0
Fits n (add_behind at new) = (at ≤ n) × (at < int_limit) × (0 < length new)
Fits n (add_before at new) = (at ≤ n) × (at < int_limit) × (0 < length new)
Fits n (remove start end) = InBuffer start end n
Fits n (replace start end new) = InBuffer start end n × (0 < length new)
Fits n (relocate start end dest) =
    InBuffer start end n × (dest ≤ n) × (dest < int_limit) × ((dest < start) ⊎ (end ≤ dest))

module _ (sys : System) (id : CommandId) (start end : ℕ) (rest : Text) (input : Option (List Line))
    (w : World) where
  abbrev resolved_command : Command
  resolved_command = record (edit_command id start end rest) {
    resolved = some (line_range start end);
  }

  -- A command on lines of the buffer is resolved and run.
  process_with-run :
      (f : Command → Option (List Line) → Exec Reply) (r : Run Reply)
      → start ≤ end
      → end < int_limit
      → end ≤ length w.buffer
      → takes_no_range id ≡ false
      → run sys f none resolved_command input id w ≡ r
      → process_with sys f (edit_command id start end rest) input false w ≡ r
  unfolding process_with process_checked resolve_and_run run_resolved resolve_with
  process_with-run f r q i l t e = rw t (
      rw (calculate_absolute sys.regex w.buffer w.marks w.line_nbr start end q i l, resolve_with) e)

  -- What the whole of `ProcessCommand` gives does not look at how an undo would be processed.
  process_command-run :
      (r : Run Reply)
      → start ≤ end
      → end < int_limit
      → end ≤ length w.buffer
      → takes_no_range id ≡ false
      → ((f : Command → Option (List Line) → Exec Reply)
          → run sys f none resolved_command input id w ≡ r)
      → process_command sys (edit_command id start end rest) input false w ≡ r
  unfolding process_command process
  process_command-run r q i l t e = at_depth (length w.undo)
    where
      at_depth : (depth : ℕ) → process sys depth (edit_command id start end rest) input false w ≡ r
      at_depth zero = process_with-run (λ c j. give_up) r q i l t (e (λ c j. give_up))
      at_depth (suc depth) =
          process_with-run (λ c j. process sys depth c j false) r q i l t
            (e (λ c j. process sys depth c j false))

module _ (sys : System) (w : World) where
  -- What it takes for an edit to be made.
  abbrev pub Made : Edit → Type 0
  Made e =
      (v : World) × (process_command sys (as_command e) (input_of e) false w
        ≡ done (reply false none) v)
      × (v.buffer ≡ apply e w.buffer)

  remove-Made :
      (start end : ℕ) → Fits (length w.buffer) (remove start end) → Made (remove start end)
  unfolding as_command input_of apply run report catch caught takes_no_range
  remove-Made start end (p, q, l, i) =
      let cmd = resolved_command sys CommandId.delete start end [] none w in
      (
        deleted_world cmd start end true w,
        process_command-run sys CommandId.delete start end [] none w _ q i l refl
            (λ f. rw (delete-deleted_world cmd start end true w refl p q l, ◌>>=◌)),
        deleted_world-buffer sys (λ c j. give_up) cmd start end w,
      )

  inserted-Made :
      (id : CommandId) (at : ℕ) (new : List Line)
      → (id ≡ CommandId.append) ⊎ (id ≡ CommandId.insert)
      → takes_no_range id ≡ false
      → ((f : Command → Option (List Line) → Exec Reply) (c : Command)
          → run sys f none c (some new) id w ≡ report (append_insert c (some new)) w)
      → at ≤ length w.buffer
      → at < int_limit
      → 0 < length new
      → (v : World) × (process_command sys (edit_command id at at []) (some new) false w
          ≡ done (reply false none) v)
        × (v.buffer ≡ spliced (place id at) new w.buffer)
  unfolding report catch caught
  inserted-Made id at new k t e l i n =
      let cmd = resolved_command sys id at at [] (some new) w in
      (
        inserted_world cmd (place id at) new w,
        process_command-run sys id at at [] (some new) w _ (omega arith) i l t
            (λ f. e f cmd ∙ rw (append_insert_lem cmd at at new w k refl l n, ◌>>=◌) refl),
        inserted-buffer sys cmd (place id at) new w,
      )

  replace-Made :
      (start end : ℕ) (new : List Line)
      → Fits (length w.buffer) (replace start end new)
      → Made (replace start end new)
  unfolding as_command input_of apply run report catch caught takes_no_range
  replace-Made start end new ((p, q, l, i), n) =
      let cmd = resolved_command sys CommandId.change start end [] (some new) w in
      let (v, e, b, r, c) = change_lem cmd start end new w refl p q l n in
      (
        v,
        process_command-run sys CommandId.change start end [] (some new) w _ q i l refl
            (λ f. rw (e, ◌>>=◌)),
        b,
      )

  relocate-Made :
      (start end dest : ℕ)
      → Fits (length w.buffer) (relocate start end dest)
      → Made (relocate start end dest)
  unfolding as_command input_of apply run report catch caught takes_no_range
  relocate-Made start end dest ((p, q, l, i), d, j, o) =
      let cmd = resolved_command sys CommandId.move start end (itoa (pos dest)) none w in
      let (v, e, b, r, c) =
        move_lem sys.regex cmd start end dest w refl (destination-itoa sys.regex dest w j d) p q l d
          o in
      (
        v,
        process_command-run sys CommandId.move start end (itoa (pos dest)) none w _ q i l refl
            (λ f. rw (e, ◌>>=◌)),
        b,
      )

  -- Every edit that fits is made.
  pub edit-Made : (e : Edit) → Fits (length w.buffer) e → Made e
  unfolding as_command input_of apply run takes_no_range
  edit-Made (add_behind at new) (l, i, n) =
      inserted-Made CommandId.append at new (inl refl) refl (λ f c. refl) l i n
  edit-Made (add_before at new) (l, i, n) =
      inserted-Made CommandId.insert at new (inr refl) refl (λ f c. refl) l i n
  edit-Made (remove start end) h = remove-Made start end h
  edit-Made (replace start end new) h = replace-Made start end new h
  edit-Made (relocate start end dest) h = relocate-Made start end dest h
