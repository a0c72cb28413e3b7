-- ===== src/Process.antt =====
-- The dispatch of a command, and undo (cmd.go: `ProcessCommand`, `Undo`, `handleUndoMove`,
-- `handleUndoSubst`).
pub mod Fuel
pub mod Undone
pub mod Depth
pub mod Keeps
pub mod Refine
pub mod Undoing
pub mod Moved
pub mod Lost
pub mod Copied
pub mod Changing
pub mod Reinserting
pub mod Quitting
pub mod Addressless
pub mod Unwinding
use go_red.Base.{
  ℕ, zero, suc, ◌+◌, ◌-◌, Bool, true, false, not, ◌&&◌, Option, none, some, List, [], ◌∷◌, ◌++◌,
  ◌==◌, if◌then◌else◌, length,
}
use go_red.Address.{calculate_actual_line_number}
use go_red.Buffer.{Line}
use go_red.Command.Ident
use go_red.Command.Ident.{CommandId}
use go_red.Command.{Command}
use go_red.Edit.{append_insert, delete, change, join}
use go_red.Exec.{
  Run, done, failed, panicked, unfinished, give_up, Exec, ◌>>=◌, ◌>>◌, pure, raise, abort, gets,
  modify, lift, print,
}
use go_red.Files.{edit, read, write}
use go_red.Lines.{append_lines, delete_lines}
use go_red.Help.{help}
use go_red.Range.{LineRange, is_specified, calculate_start_and_end_line_numbers}
use go_red.Regex.{Engine}
use go_red.Result.{
  Error, Result, ok, err, panic, nothing_to_undo, not_allowed_in_global, range_may_not_be_specified,
}
use go_red.Show.{print_command, scroll, linenumber, mark_command}
use go_red.State.{State, World, Change, Undo, UndoText, no_text, lines, changes}
use go_red.Subst.{cmd_substitute, cmd_global}
use go_red.Text.{Text, codes, trim_space, has_prefix}
use go_red.Transfer.{move, put, transfer, yank}

-- What the program takes from outside: the regular expressions, and which files can be created.
pub record System : Type 0 where
  pub regex : Engine
  pub can_create : Text → Bool

-- `(quit bool, err error)`
pub record Reply : Type 0 where
  pub quit : Bool
  pub error : Option Error

abbrev pub reply : Bool → Option Error → Reply
reply q e = record { quit = q; error = e }

caught : Run (Unit {0}) → Run (Option Error)
caught (done _ w) = done none w
caught (failed e w) = done (some e) w
caught panicked = panicked
caught unfinished = unfinished

-- A call whose error is kept as a value.
pub catch : Exec (Unit {0}) → Exec (Option Error)
unfolding caught
catch m w = caught (m w)

report : Exec (Unit {0}) → Exec Reply
unfolding catch
report m = do e ← catch m; pure (reply false e)

not_yet : Option Error → Exec Reply
not_yet pending = do print (codes "not yet implemented\n"); pure (reply false pending)

pub unsaved : Exec (Unit {0})
unsaved = print (codes "buffer has unsaved changes\n")

-- The text that an undo hands to its command: nil, or the list. A list of changes is not a list of
-- lines.
pub undo_lines : UndoText → Exec (Option (List Line))
undo_lines no_text = pure none
undo_lines (lines ls) = pure (some ls)
undo_lines (changes cs) = abort

-- `handleUndoSubst`; the error of each change is dropped, and a command other than a change panics.
is_change : CommandId → Bool
is_change CommandId.change = true
is_change _ = false

pub undo_changes : List Change → Exec (Unit {0})
unfolding catch is_change
undo_changes [] = pure tt
undo_changes (c ∷ cs) =
    (if is_change c.cmd.cmd then (catch (change c.cmd (some c.text)) >>= λ _. pure tt) else abort)
    >> undo_changes cs

pub handle_undo_subst : UndoText → Exec (Unit {0})
unfolding undo_changes
handle_undo_subst (changes cs) = undo_changes cs
handle_undo_subst (lines []) = pure tt
handle_undo_subst (lines (x ∷ xs)) = abort
handle_undo_subst no_text = abort

lines_of : UndoText → Exec (List Line)
lines_of (lines ls) = pure ls
lines_of _ = abort

abbrev is_resolved : Option LineRange → Bool
is_resolved none = false
is_resolved (some r) = true

forbidden_in_global : CommandId → Bool
forbidden_in_global CommandId.edit = true
forbidden_in_global CommandId.edit_unconditionally = true
forbidden_in_global CommandId.global = true
forbidden_in_global CommandId.global_interactive = true
forbidden_in_global CommandId.inverse_global = true
forbidden_in_global CommandId.inverse_global_interactive = true
forbidden_in_global CommandId.help = true
forbidden_in_global CommandId.quit = true
forbidden_in_global CommandId.quit_unconditionally = true
forbidden_in_global CommandId.undo = true
forbidden_in_global CommandId.write = true
forbidden_in_global CommandId.write_append = true
forbidden_in_global _ = false

takes_no_range : CommandId → Bool
takes_no_range CommandId.edit = true
takes_no_range CommandId.edit_unconditionally = true
takes_no_range CommandId.filename = true
takes_no_range CommandId.help = true
takes_no_range CommandId.prompt = true
takes_no_range CommandId.quit = true
takes_no_range CommandId.quit_unconditionally = true
takes_no_range CommandId.undo = true
takes_no_range _ = false

not_in_switch : Text → Option Error → Exec Reply
not_in_switch id pending = do
  print (codes "ERROR got command not in switch!?:  " ++ id ++ codes "\n")
  pure (reply false pending)

append_before : ℕ → List Line → Exec (Unit {0})
append_before original text =
    if original == 0
    then (if length text == 0 then pure tt else abort)
    else append_lines (original - 1) text

module _ (sys : System) where
  abbrev resolve_start : Command → Exec ℕ
  resolve_start c w =
      lift (calculate_actual_line_number sys.regex w.buffer w.marks w.line_nbr c.addr_range.start) w

  -- `handleUndoMove`; both ends of the deletion are computed from the start address.
  pub handle_undo_move : Undo → Exec (Unit {0})
  unfolding lines_of append_before
  handle_undo_move u = do
    start ← resolve_start u.cmd
    end ← resolve_start u.cmd
    removed ← delete_lines start end
    original ← resolve_start u.original_cmd
    text ← lines_of u.text
    append_before original text

  -- `resolveAddress`, unless the address is resolved.
  resolve_with : Command → Option LineRange → World → Result Command
  resolve_with c (some r) w = ok c
  resolve_with c none w =
      elim (calculate_start_and_end_line_numbers sys.regex w.buffer w.marks w.line_nbr
        c.addr_range) [ ok r ↦ ok (record c { resolved = some r }) | err e ↦ err e | panic ↦ panic ]

  -- How a command is processed from within `Undo`.
  abbrev Redo : Type 0
  Redo = Command → Option (List Line) → Exec Reply

  undo_with : Redo → Undo → CommandId → Exec (Option Error)
  unfolding handle_undo_move handle_undo_subst catch undo_lines
  undo_with redo u CommandId.undo_move = catch (handle_undo_move u)
  undo_with redo u CommandId.undo_subst = catch (handle_undo_subst u.text)
  undo_with redo u _ = do text ← undo_lines u.text; r ← redo u.cmd text; pure r.error

  pub undo_top : Redo → List Undo → Exec Reply
  unfolding undo_with
  undo_top redo [] = pure (reply false (some nothing_to_undo))
  undo_top redo (u ∷ us) = do
    modify (λ s. record s { undo = us; processing_undo = true })
    e ← undo_with redo u u.cmd.cmd
    modify (λ s. record s { processing_undo = false })
    pure (reply false e)

  -- `Undo`
  pub undo_last : Redo → Exec Reply
  unfolding undo_top
  undo_last redo w = undo_top redo w.undo w

  -- The last switch. `pending` is the error so far, which most cases assign anew.
  pub run : Redo → Option Error → Command → Option (List Line) → CommandId → Exec Reply
  unfolding undo_last report not_yet unsaved catch not_in_switch
  run redo pending cmd input CommandId.append = report (append_insert cmd input)
  run redo pending cmd input CommandId.insert = report (append_insert cmd input)
  run redo pending cmd input CommandId.change = report (change cmd input)
  run redo pending cmd input CommandId.delete = report (delete cmd true)
  run redo pending cmd input CommandId.edit = do
    dirty ← gets (λ w. w.changed_since_last_write)
    if dirty then (do unsaved; pure (reply false pending)) else report (edit cmd)
  run redo pending cmd input CommandId.edit_unconditionally = report (edit cmd)
  run redo pending cmd input CommandId.filename = do
    modify
        (λ s. record s { flags = record s.flags { default_filename = trim_space cmd.rest_of_cmd } })
    pure (reply false pending)
  run redo pending cmd input CommandId.global = report (cmd_global sys.regex cmd)
  run redo pending cmd input CommandId.global_interactive = not_yet pending
  run redo pending cmd input CommandId.help = report (help cmd)
  run redo pending cmd input CommandId.inverse_global = not_yet pending
  run redo pending cmd input CommandId.inverse_global_interactive = not_yet pending
  run redo pending cmd input CommandId.join = report (join cmd)
  run redo pending cmd input CommandId.mark = report (mark_command cmd)
  run redo pending cmd input CommandId.print_list = not_yet pending
  run redo pending cmd input CommandId.move = report (move sys.regex cmd)
  run redo pending cmd input CommandId.number = report (print_command cmd)
  run redo pending cmd input CommandId.print = report (print_command cmd)
  run redo pending cmd input CommandId.prompt = do
    modify (λ s. record s { flags = record s.flags { show_prompt = not s.show_prompt } })
    pure (reply false pending)
  run redo pending cmd input CommandId.quit = do
    dirty ← gets (λ w. w.changed_since_last_write)
    if dirty then (do unsaved; pure (reply false pending)) else pure (reply true pending)
  run redo pending cmd input CommandId.quit_unconditionally = pure (reply true pending)
  run redo pending cmd input CommandId.read = report (read cmd)
  run redo pending cmd input CommandId.substitute = report (cmd_substitute sys.regex cmd)
  run redo pending cmd input CommandId.transfer = report (transfer sys.regex cmd)
  run redo pending cmd input CommandId.undo = undo_last redo
  run redo pending cmd input CommandId.write = do
    e ← catch (write sys.can_create cmd)
    pure (reply (has_prefix cmd.rest_of_cmd (codes "q")) e)
  run redo pending cmd input CommandId.write_append = not_yet pending
  run redo pending cmd input CommandId.put = report (put cmd)
  run redo pending cmd input CommandId.yank = report (yank cmd)
  run redo pending cmd input CommandId.scroll = report (scroll cmd)
  run redo pending cmd input CommandId.comment = pure (reply false none)
  run redo pending cmd input CommandId.linenumber = report (linenumber cmd)
  run redo pending cmd input CommandId.no_command = pure (reply false pending)
  run redo pending cmd input CommandId.undo_move = not_in_switch (codes ")") pending
  run redo pending cmd input CommandId.undo_subst = not_in_switch (codes "(") pending

  run_resolved : Redo → Option Error → Option (List Line) → Result Command → Exec Reply
  unfolding run
  run_resolved redo pending input (ok c) w = run redo pending c input c.cmd w
  run_resolved redo pending input (err e) w = done (reply false (some e)) w
  run_resolved redo pending input panic w = panicked

  resolve_and_run : Redo → Option Error → Command → Option (List Line) → Exec Reply
  unfolding run_resolved resolve_with
  resolve_and_run redo pending cmd input w =
      run_resolved redo (if is_resolved cmd.resolved then pending else none) input
        (resolve_with cmd cmd.resolved w) w

  -- The result of the range check, and what follows it. Its error is overwritten by `resolveAddress`,
  -- unless the address has been resolved before.
  process_checked : Redo → Result Bool → Command → Option (List Line) → Exec Reply
  unfolding resolve_and_run
  process_checked redo (ok specified) cmd input =
      resolve_and_run redo (if specified then some range_may_not_be_specified else none) cmd input
  process_checked redo (err e) cmd input = raise e
  process_checked redo panic cmd input = abort

  -- `ProcessCommand` with a given way to process the commands of an undo.
  pub process_with : Redo → Command → Option (List Line) → Bool → Exec Reply
  unfolding process_checked forbidden_in_global takes_no_range
  process_with redo cmd input in_global =
      if in_global && forbidden_in_global cmd.cmd
      then pure (reply false (some not_allowed_in_global))
      else process_checked redo
          (if takes_no_range cmd.cmd then is_specified cmd.addr_range else ok false) cmd input

  -- Undo processes a stored command, which may be another undo; each takes one off the list.
  pub process : ℕ → Command → Option (List Line) → Bool → Exec Reply
  unfolding process_with
  process zero = process_with (λ _ _. give_up)
  process (suc depth) = process_with (λ c i. process depth c i false)

  unfoldable pub process_command : Command → Option (List Line) → Bool → Exec Reply
  unfolding process
  process_command cmd input in_global w = process (length w.undo) cmd input in_global w
