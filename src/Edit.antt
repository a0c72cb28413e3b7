-- ===== src/Edit.antt =====
-- The commands that change the buffer (cmd.go): `AppendInsert`, `Delete`, `Change`, `Join`.
pub mod Insert
pub mod Join
pub mod Delete
pub mod Deleted
pub mod Change
pub mod Keeps
use go_red.Base.{
  ℕ, suc, ◌+◌, ◌-◌, Bool, true, false, not, ◌&&◌, ◌||◌, Option, none, some, List, [], ◌∷◌, ◌++◌,
  ltb, leb, ◌==◌, if◌then◌else◌, ℤ, pos, negsuc, length,
}
use go_red.Buffer.{Line}
use go_red.Command.Ident
use go_red.Command.Ident.{CommandId}
use go_red.Command.{Command, create_new_resolved_command}
use go_red.Exec.{
  Run, done, failed, panicked, Exec, ◌>>=◌, ◌>>◌, pure, raise, abort, gets, modify, lift,
  with_range,
}
use go_red.Input.{given_or_read}
use go_red.Lines.{append_lines, copy_lines, delete_lines, move_to_line}
use go_red.Mark.{update_marks}
use go_red.Result.{in_command, start_line_zero}
use go_red.State.{State, set_changed, World, UndoText, lines, add_undo}
use go_red.Text.{Text, codes}

-- `append` at line 0, or `insert` at line 0 or 1.
abbrev pub at_front : CommandId → ℕ → Bool
at_front CommandId.append start = start == 0
at_front CommandId.insert start = leb start 1
at_front _ start = false

abbrev pub is_insert : CommandId → Bool
is_insert CommandId.insert = true
is_insert _ = false

add_undo_lines : ℕ → ℕ → CommandId → UndoText → Command → Exec (Unit {0})
add_undo_lines start end id text cmd = modify (add_undo (pos start) (pos end) id text cmd)

insert_front : Command → List Line → Exec (Unit {0})
unfolding add_undo_lines
insert_front cmd new = do
  modify (λ s. record s { buffer = new ++ s.buffer })
  move_to_line (length new)
  undoing ← gets (λ w. w.processing_undo)
  if undoing then pure tt else add_undo_lines 1 (length new) CommandId.delete (lines new) cmd

insert_lines : Command → ℕ → List Line → Exec (Unit {0})
unfolding insert_front add_undo_lines
insert_lines cmd start new = do
  modify set_changed
  if at_front cmd.cmd start
      then insert_front cmd new
      else if is_insert cmd.cmd
      then (do
        append_lines (start - 1) new
        add_undo_lines start (start + length new - 1) CommandId.delete (lines new) cmd)
      else (do
        append_lines start new
        add_undo_lines (start + 1) (start + length new) CommandId.delete (lines new) cmd)

unfoldable pub append_insert : Command → Option (List Line) → Exec (Unit {0})
unfolding insert_lines
append_insert cmd input = with_range cmd.resolved λ r. do
  new ← given_or_read input
  if length new == 0 then pure tt else insert_lines cmd r.start_line new

-- The undo of a delete; `negsuc 1` is `endOfFile`.
abbrev undo_delete : Command → ℕ → ℕ → List Line → State → State
undo_delete cmd start buffer_len temp s =
    if ltb buffer_len start
    then add_undo (negsuc 1) (negsuc 1) CommandId.append (lines temp) cmd s
    else add_undo (pos start) (pos start) CommandId.insert (lines temp) cmd s

-- The line and the pointer at the end of `Delete`.
settle : ℕ → ℕ → Exec (Unit {0})
settle start buffer_len =
    if buffer_len == 0
    then modify (λ s. record s { dotline = none; line_nbr = 0 })
    else move_to_line (if ltb buffer_len start then buffer_len else start)

-- What follows the deletion of `temp` from the buffer.
after_delete : Command → ℕ → ℕ → Bool → List Line → Exec (Unit {0})
unfolding settle
after_delete cmd start end add temp = do
  modify (λ s. record s { cut_buffer = temp; changed_since_last_write = true })
  buffer_len ← gets (λ w. length w.buffer)
  modify (λ s. record s { marks = update_marks CommandId.delete start end (negsuc 0) s.marks })
  modify (λ s. if add then undo_delete cmd start buffer_len temp s else s)
  settle start buffer_len

unfoldable pub delete : Command → Bool → Exec (Unit {0})
unfolding after_delete
delete cmd add = with_range cmd.resolved λ r. do
  if r.start_line == 0 then raise (in_command (codes "delete") start_line_zero) else (do
    temp ← delete_lines r.start_line r.end_line
    if length temp == 0 then pure tt else after_delete cmd r.start_line r.end_line add temp)

-- What follows the deletion of the old lines.
put_new : Command → ℕ → List Line → Exec (Unit {0})
unfolding add_undo_lines
put_new cmd start new = do
  buffer_len ← gets (λ w. length w.buffer)
  modify set_changed
  cut ← gets (λ w. w.cut_buffer)
  if ltb buffer_len start
      then (do
        append_lines buffer_len new
        add_undo_lines (buffer_len + 1) (buffer_len + length new) CommandId.change (lines cut) cmd)
      else (do
        append_lines (start - 1) new
        add_undo_lines start (start + length new - 1) CommandId.change (lines cut) cmd)

unfoldable pub change : Command → Option (List Line) → Exec (Unit {0})
unfolding put_new
change cmd input = with_range cmd.resolved λ r. do
  if r.start_line == 0 then raise (in_command (codes "change") start_line_zero) else (do
    new ← given_or_read input
    if length new == 0 then pure tt else (do
      delete_cmd ← lift (create_new_resolved_command cmd CommandId.delete cmd.rest_of_cmd)
      delete delete_cmd false
      put_new cmd r.start_line new))

-- `strings.Replace(line, "\n", " ", 1)`
unfoldable pub space_for_newline : Text → Text
space_for_newline [] = []
space_for_newline (c ∷ cs) = if c == b'\n' then 32 ∷ cs else c ∷ space_for_newline cs

-- What the string builder holds after the loop.
unfoldable pub joined : List Line → Text
unfolding space_for_newline
joined [] = []
joined (x ∷ xs) = space_for_newline x.line ++ joined xs

-- The last byte of the builder gives way to a newline; the slice of an empty one panics.
unfoldable pub end_joined : Text → Option Text
end_joined [] = none
end_joined (c ∷ []) = some (b'\n' ∷ [])
end_joined (c ∷ d ∷ cs) = elim (end_joined (d ∷ cs)) [ none ↦ none | some t ↦ some (c ∷ t) ]

or_abort : Option Text → Exec Text
or_abort none = abort
or_abort (some t) = pure t

unfoldable pub join : Command → Exec (Unit {0})
unfolding or_abort joined end_joined
join cmd = with_range cmd.resolved λ r. do
  old ← copy_lines r.start_line r.end_line
  text ← or_abort (end_joined (joined old))
  change_command ← lift (create_new_resolved_command cmd CommandId.change cmd.rest_of_cmd)
  change change_command (some (record { line = text } ∷ []))
