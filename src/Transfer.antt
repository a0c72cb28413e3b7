-- ===== src/Transfer.antt =====
-- The commands that move and copy lines (cmd.go): `Move`, `Put`, `Transfer`, `Yank`.
pub mod Relocated
pub mod Moving
pub mod Destination
pub mod Copying
pub mod Keeps
use go_red.Base.{
  ℕ, ◌+◌, ◌-◌, Bool, true, false, ◌&&◌, Option, none, some, List, [], ◌∷◌, ltb, leb, ◌==◌,
  if◌then◌else◌, pos, length,
}
use go_red.Address.{Address, is_not_specified, calculate_actual_line_number}
use go_red.Address.Parse.{new_address}
use go_red.Buffer.{Line}
use go_red.Command.Ident
use go_red.Command.Ident.{CommandId}
use go_red.Command.{Command}
use go_red.Exec.{
  Run, done, failed, panicked, Exec, ◌>>=◌, ◌>>◌, pure, raise, gets, modify, lift, with_range,
}
use go_red.Lines.{append_lines, copy_lines, delete_lines, move_to_line}
use go_red.Mark.{Marks, update_marks}
use go_red.Range.{get_address_range}
use go_red.Regex.{Engine}
use go_red.Result.{
  Result, ok, map_err, in_command, start_line_zero, invalid_destination_err, destination_too_large,
  destination_in_range, range_may_not_be_specified,
}
use go_red.State.{State, set_changed, World, UndoText, no_text, lines, add_undo}
use go_red.Text.{Text, is_empty, codes, trim_space}

-- The destination once the moved lines are gone.
abbrev pub adjusted : ℕ → ℕ → ℕ → ℕ
adjusted start end dest = if leb start dest then dest - (end + 1 - start) else dest

module _ (re : Engine) where
  -- The destination of `Move` and `Transfer`: the current line, if none is given. The flag says
  -- whether the error of the second step is wrapped, as `Move` does.
  unfoldable pub destination : Bool → Text → Exec ℕ
  unfolding is_empty
  destination wrap rest w =
      let dest = trim_space rest in
      let wrapped = invalid_destination_err dest in
      if is_empty dest
      then done w.line_nbr w
      else (do
        a ← lift (map_err wrapped (new_address dest))
        lift (
            if wrap
            then map_err wrapped (calculate_actual_line_number re w.buffer w.marks w.line_nbr a)
            else calculate_actual_line_number re w.buffer w.marks w.line_nbr a))
          w

  move_lines : Command → ℕ → ℕ → ℕ → Exec (Unit {0})
  move_lines cmd start end dest = do
    temp ← delete_lines start end
    if length temp == 0 then pure tt else (do
      modify (λ s. record s { marks = update_marks Ident.move start end (pos dest) s.marks })
      let to = adjusted start end dest
      append_lines to temp
      modify (add_undo (pos (to + 1)) (pos (to + length temp)) Ident.undo_move (lines temp) cmd)
      modify set_changed)

  unfoldable pub move : Command → Exec (Unit {0})
  unfolding destination move_lines
  move cmd = with_range cmd.resolved λ r. do
    dest ← destination true cmd.rest_of_cmd
    last ← gets (λ w. length w.buffer)
    if r.start_line == 0
        then raise start_line_zero
        else if ltb last dest
        then raise (destination_too_large dest last)
        else if leb r.start_line dest && ltb dest r.end_line
        then raise (destination_in_range dest r.start_line r.end_line)
        else move_lines cmd r.start_line r.end_line dest

  transfer_lines : Command → ℕ → ℕ → ℕ → Exec (Unit {0})
  transfer_lines cmd start end dest = do
    temp ← copy_lines start end
    append_lines dest temp
    modify set_changed
    modify (add_undo (pos (dest + 1)) (pos (dest + length temp)) Ident.delete no_text cmd)

  -- `Transfer` computes its range itself, and takes the current line where none is given.
  unfoldable pub transfer : Command → Exec (Unit {0})
  unfolding destination transfer_lines
  transfer cmd w0 =
      (do
        r ← lift (get_address_range re w0.buffer w0.marks w0.line_nbr cmd.addr_range)
        dest ← destination false cmd.rest_of_cmd
        last ← gets (λ w. length w.buffer)
        if ltb last dest
            then raise (destination_too_large dest last)
            else transfer_lines cmd r.start_line r.end_line dest)
        w0

put_lines : Command → ℕ → Exec (Unit {0})
put_lines cmd start = do
  cut ← gets (λ w. w.cut_buffer)
  if length cut == 0 then pure tt else (do
    append_lines start cut
    modify set_changed
    modify (add_undo (pos (start + 1)) (pos (start + length cut)) Ident.delete no_text cmd))

unfoldable pub put : Command → Exec (Unit {0})
unfolding put_lines
put cmd = with_range cmd.resolved λ r. do
  if r.start_line == 0
      then raise (in_command (codes "put") start_line_zero)
      else if r.start_line == r.end_line
      then (do
        no_start ← lift (is_not_specified cmd.addr_range.start)
        current ← gets (λ w. w.line_nbr)
        put_lines cmd (if no_start then current else r.start_line))
      else raise (in_command (codes "put") range_may_not_be_specified)

yank_lines : ℕ → ℕ → Exec (Unit {0})
yank_lines start end = do
  current ← gets (λ w. w.line_nbr)
  temp ← copy_lines start end
  modify (λ s. record s { cut_buffer = temp })
  move_to_line current

unfoldable pub yank : Command → Exec (Unit {0})
unfolding yank_lines
yank cmd = with_range cmd.resolved λ r.
    if r.start_line == 0
    then raise (in_command (codes "yank") start_line_zero)
    else yank_lines r.start_line r.end_line
