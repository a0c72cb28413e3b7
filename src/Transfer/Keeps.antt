-- ===== src/Transfer/Keeps.antt =====
-- `Move`, `Transfer`, `Put` and `Yank` keep the invariant.
use go_red.Base.{ℕ, ◌+◌, Bool, true, false, ◌&&◌, length, ltb, leb, ◌==◌, if◌then◌else◌, pos}
use go_red.Address.Parse.{new_address}
use go_red.Address.{Address, is_not_specified, calculate_actual_line_number}
use go_red.Command.Ident
use go_red.Command.{Command}
use go_red.Exec.Keeps.{
  Keeps, Holds-bind, Keeps-bind, Holds-if, Keeps-if, Keeps-lift, Keeps-with_range, Holds-if-run,
  Holds-lift-bind,
}
use go_red.Result.{Result, map_err, invalid_destination_err}
use go_red.Range.{get_address_range}
use go_red.Exec.{lift}
use go_red.Invariant.{Inv, add_undo-Inv}
use go_red.Lines.Keeps.{
  append_lines-Keeps, delete_lines-Keeps, copy_lines-Keeps, move_to_line-Keeps,
}
use go_red.Lines.{append_lines, delete_lines, copy_lines}
use go_red.Regex.{Engine}
use go_red.State.{lines, no_text, set_changed}
use go_red.Text.{Text, is_empty, trim_space}
use go_red.Transfer.{
  adjusted, destination, move_lines, move, transfer_lines, transfer, put_lines, put, yank_lines,
  yank,
}

module _ (k : ℕ) (re : Engine) where
  destination-Keeps : (wrap : Bool) (rest : Text) → Keeps (Inv k) (destination re wrap rest)
  unfolding destination
  destination-Keeps wrap rest w i = Holds-if-run (Inv k) (is_empty (trim_space rest)) _ _ i (
      Holds-lift-bind (Inv k)
        (map_err (invalid_destination_err (trim_space rest)) (new_address (trim_space rest)))
        (λ a. lift (at_line a)) w i (λ a e. Keeps-lift (Inv k) (at_line a) w i))
    where
      at_line : Address → Result ℕ
      at_line a =
          if wrap
          then map_err (invalid_destination_err (trim_space rest))
              (calculate_actual_line_number re w.buffer w.marks w.line_nbr a)
          else calculate_actual_line_number re w.buffer w.marks w.line_nbr a

  move_lines-Keeps :
      (cmd : Command) (start end dest : ℕ) → Keeps (Inv k) (move_lines re cmd start end dest)
  unfolding move_lines
  move_lines-Keeps cmd start end dest =
      Keeps-bind (Inv k) (delete_lines start end) _ (delete_lines-Keeps k start end) λ temp.
        Keeps-if (Inv k) (length temp == 0) _ _ (λ w i. i)
          λ w i.
            Holds-bind (Inv k) (append_lines (adjusted start end dest) temp) _ _
              (append_lines-Keeps k (adjusted start end dest) temp _ i)
              (λ t v j.
                add_undo-Inv k (pos (adjusted start end dest + 1))
                  (pos (adjusted start end dest + length temp)) Ident.undo_move (lines temp) cmd v
                  tt j)

  pub move-Keeps : (cmd : Command) → Keeps (Inv k) (move re cmd)
  unfolding move
  move-Keeps cmd = Keeps-with_range (Inv k) cmd.resolved _ λ r.
      Keeps-bind (Inv k) (destination re true cmd.rest_of_cmd) _
        (destination-Keeps true cmd.rest_of_cmd)
        λ dest w i. Holds-if (Inv k) (r.start_line == 0) _ _ w i (
          Holds-if (Inv k) (ltb (length w.buffer) dest) _ _ w i (
            Holds-if (Inv k) (leb r.start_line dest && ltb dest r.end_line) _ _ w i
              (move_lines-Keeps cmd r.start_line r.end_line dest w i)))

  transfer_lines-Keeps :
      (cmd : Command) (start end dest : ℕ) → Keeps (Inv k) (transfer_lines re cmd start end dest)
  unfolding transfer_lines
  transfer_lines-Keeps cmd start end dest =
      Keeps-bind (Inv k) (copy_lines start end) _ (copy_lines-Keeps k start end) λ temp.
        Keeps-bind (Inv k) (append_lines dest temp) _ (append_lines-Keeps k dest temp) λ t v j.
          add_undo-Inv k (pos (dest + 1)) (pos (dest + length temp)) Ident.delete no_text cmd
            (record v { state = set_changed v.state }) tt j

  pub transfer-Keeps : (cmd : Command) → Keeps (Inv k) (transfer re cmd)
  unfolding transfer
  transfer-Keeps cmd w i =
      Keeps-bind (Inv k) (lift (get_address_range re w.buffer w.marks w.line_nbr cmd.addr_range)) _
        (Keeps-lift (Inv k) _)
        (λ r.
          Keeps-bind (Inv k) (destination re false cmd.rest_of_cmd) _
            (destination-Keeps false cmd.rest_of_cmd)
            (λ dest u h.
              Holds-if (Inv k) (ltb (length u.buffer) dest) _ _ u h
                (transfer_lines-Keeps cmd r.start_line r.end_line dest u h)))
        w i

module _ (k : ℕ) where
  put_lines-Keeps : (cmd : Command) (start : ℕ) → Keeps (Inv k) (put_lines cmd start)
  unfolding put_lines
  put_lines-Keeps cmd start w i = Holds-if (Inv k) (length w.cut_buffer == 0) _ _ w i (
      Holds-bind (Inv k) (append_lines start w.cut_buffer) _ w
        (append_lines-Keeps k start w.cut_buffer w i)
        λ t v j.
          add_undo-Inv k (pos (start + 1)) (pos (start + length w.cut_buffer)) Ident.delete no_text
            cmd (record v { state = set_changed v.state }) tt j)

  pub put-Keeps : (cmd : Command) → Keeps (Inv k) (put cmd)
  unfolding put
  put-Keeps cmd = Keeps-with_range (Inv k) cmd.resolved _ λ r.
      Keeps-if (Inv k) (r.start_line == 0) _ _ (λ w i. i)
        (Keeps-if (Inv k) (r.start_line == r.end_line) _ _
          (Keeps-bind (Inv k) _ _ (Keeps-lift (Inv k) (is_not_specified cmd.addr_range.start))
            λ b w i. put_lines-Keeps cmd (if b then w.line_nbr else r.start_line) w i)
          (λ w i. i))

  yank_lines-Keeps : (start end : ℕ) → Keeps (Inv k) (yank_lines start end)
  unfolding yank_lines
  yank_lines-Keeps start end w i =
      Holds-bind (Inv k) (copy_lines start end) _ w (copy_lines-Keeps k start end w i) λ temp v j.
        move_to_line-Keeps k w.line_nbr (record v { state = record v.state { cut_buffer = temp } })
          j

  pub yank-Keeps : (cmd : Command) → Keeps (Inv k) (yank cmd)
  unfolding yank
  yank-Keeps cmd = Keeps-with_range (Inv k) cmd.resolved _ λ r.
      Keeps-if (Inv k) (r.start_line == 0) _ _ (λ w i. i) (yank_lines-Keeps r.start_line r.end_line)
