-- ===== src/Files/Keeps.antt =====
-- `Edit`, `Read` and `Write` keep the invariant.
use go_red.Base.{
  ℕ, ◌+◌, ◌-◌, Bool, true, false, Option, none, some, List, [], length, ◌==◌, if◌then◌else◌, pos,
}
use go_red.Address.{is_not_specified}
use go_red.Buffer.{Line}
use go_red.Command.Ident
use go_red.Command.{Command}
use go_red.Exec.Keeps.{
  Holds, Keeps, Holds-bind, Keeps-bind, Holds-if, Keeps-if, Keeps-lift, Keeps-with_range,
}
use go_red.Files.{
  opened, read_file, get_filename, print_read, edit, read_after, read, written, write_file,
  trim_quit, write, write_writer,
}
use go_red.Invariant.{Inv, add_undo-Inv}
use go_red.Lines.Keeps.{append_lines-Keeps, move_to_line-Inv, move_to_line-Keeps}
use go_red.Lines.{append_lines, move_to_line, from_element}
use go_red.Range.{is_specified}
use go_red.State.{World, no_text}
use go_red.Text.{Text, is_empty, trim_space}

module _ (k : ℕ) where
  opened-Keeps : (name : Text) (o : Option Text) → Keeps (Inv k) (opened name o)
  unfolding opened
  opened-Keeps name none w i = i
  opened-Keeps name (some t) w i = i

  pub read_file-Keeps : (name : Text) → Keeps (Inv k) (read_file name)
  unfolding read_file
  read_file-Keeps name w i = opened-Keeps name (w.files name) w i

  get_filename-Keeps :
      (name : Text) (set_default : Bool) → Keeps (Inv k) (get_filename name set_default)
  unfolding get_filename
  get_filename-Keeps name true w i =
      Holds-if (Inv k) (is_empty name) _ _ w
        (Holds-if (Inv k) (is_empty w.default_filename) _ _ w i i) i
  get_filename-Keeps name false w i =
      Holds-if (Inv k) (is_empty name) _ _ w
        (Holds-if (Inv k) (is_empty w.default_filename) _ _ w i i) i

  print_read-Keeps : (ls : List Line) → Keeps (Inv k) (print_read ls)
  unfolding print_read
  print_read-Keeps ls w i = i

  replaced-Keeps :
      (ls : List Line) (w : World)
      → Inv k w
      → Holds (Inv k) (
          move_to_line (length ls) (record w {
            state = record w.state { buffer = ls; changed_since_last_write = false; undo = [] };
          }))
  replaced-Keeps ls w i = move_to_line-Inv k (length ls) _ (tt, i.1.1)

  pub edit-Keeps : (cmd : Command) → Keeps (Inv k) (edit cmd)
  unfolding edit
  edit-Keeps cmd =
      Keeps-bind (Inv k) _ _ (get_filename-Keeps (trim_space cmd.rest_of_cmd) true) λ name.
        Keeps-bind (Inv k) (read_file name) _ (read_file-Keeps name) λ ls.
          Keeps-bind (Inv k) (print_read ls) _ (print_read-Keeps ls) λ t w i. replaced-Keeps ls w i

  read_after-Keeps :
      (cmd : Command) (start : ℕ) (ls : List Line) → Keeps (Inv k) (read_after cmd start ls)
  unfolding read_after
  read_after-Keeps cmd start ls w i =
      Holds-if (Inv k) (length ls == 0) _ _ w (move_to_line-Keeps k start w i) (
        Holds-bind (Inv k) (append_lines start ls) _ w (append_lines-Keeps k start ls w i) λ t v j.
          add_undo-Inv k (pos (start + 1)) (pos (start + length ls)) Ident.delete no_text cmd
            (record v { state = record v.state { changed_since_last_write = true } }) tt j)

  pub read-Keeps : (cmd : Command) → Keeps (Inv k) (read cmd)
  unfolding read
  read-Keeps cmd = Keeps-with_range (Inv k) cmd.resolved _ λ r.
      Keeps-bind (Inv k) _ _ (Keeps-lift (Inv k) (is_not_specified cmd.addr_range.end)) λ b.
        Keeps-if (Inv k) b _ _
          (Keeps-bind (Inv k) _ _ (get_filename-Keeps (trim_space cmd.rest_of_cmd) false) λ name.
            Keeps-bind (Inv k) _ _ (Keeps-lift (Inv k) (is_not_specified cmd.addr_range.start))
              λ c w i. Holds-bind (Inv k) (read_file name) _ w (read_file-Keeps name w i) λ ls.
                Keeps-bind (Inv k) (print_read ls) _ (print_read-Keeps ls)
                  λ t. read_after-Keeps cmd (if c then length w.buffer else r.start_line) ls)
          (λ w i. i)

  write_file-Keeps :
      (can_create : Text → Bool) (name : Text) (o : Option Text)
      → Keeps (Inv k) (write_file can_create name o)
  unfolding write_file written
  write_file-Keeps can_create name none =
      Keeps-if (Inv k) (can_create name) _ _ (λ w i. tt) (λ w i. i)
  write_file-Keeps can_create name (some t) =
      Keeps-if (Inv k) (can_create name) _ _ (λ w i. i) (λ w i. i)

  pub write-Keeps :
      (can_create : Text → Bool) (cmd : Command) → Keeps (Inv k) (write can_create cmd)
  unfolding write
  write-Keeps can_create cmd w0 i0 =
      Keeps-with_range (Inv k) cmd.resolved _
        (λ r.
          Keeps-bind (Inv k) _ _ (get_filename-Keeps (trim_space (trim_quit cmd.rest_of_cmd)) true)
            λ name.
              Keeps-bind (Inv k) _ _ (Keeps-lift (Inv k) (is_specified cmd.addr_range)) λ b w i.
                Holds-if (Inv k) ((if b then r.start_line else 1) == 0) _ _ w i (
                  Holds-bind (Inv k) (move_to_line (if b then r.start_line else 1)) _ w
                    (move_to_line-Keeps k _ w i)
                    λ t v j.
                      Holds-bind (Inv k)
                        (write_file can_create name (
                          write_writer
                            ((if b then r.end_line else length w.buffer)
                              + 1
                              - (if b then r.start_line else 1))
                            (from_element v.dotline v.buffer)))
                        _ v (write_file-Keeps can_create name _ v j)
                        λ bytes u h. move_to_line-Inv k w0.line_nbr _ h.1))
        w0 i0
