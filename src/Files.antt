-- ===== src/Files.antt =====
-- Files (file.go, and the commands `Edit`, `Read`, `Write` of cmd.go).
pub mod RoundTrip
pub mod Saved
pub mod Keeps
use go_red.Base.{
  ℕ, zero, suc, ◌+◌, ◌-◌, Bool, true, false, not, Option, none, some, List, [], ◌∷◌, ◌++◌, ◌==◌,
  if◌then◌else◌, pos, length, ltb,
}
use go_red.Address.{is_not_specified}
use go_red.Buffer.{Line}
use go_red.Command.Ident
use go_red.Command.{Command}
use go_red.Exec.{
  Run, done, failed, panicked, Exec, ◌>>=◌, ◌>>◌, pure, raise, abort, gets, modify, lift, print,
  with_range,
}
use go_red.Lines.{append_lines, from_element, move_to_line}
use go_red.Range.{is_specified}
use go_red.Result.{
  in_command, missing_filename, no_such_file, cannot_create, range_may_not_be_specified,
  start_line_zero,
}
use go_red.State.{State, World, no_text, add_undo}
use go_red.Text.{Text, is_empty, codes, equal, itoa, trim_space}

-- The loop of `ReadReader`: `ReadString` gives each line with its newline, and at the end of the file
-- what is left, if anything is.
pub add_byte : ℕ → List Line → List Line
add_byte c [] = record { line = c ∷ [] } ∷ []
add_byte c (l ∷ ls) = record { line = c ∷ l.line } ∷ ls

unfoldable pub read_reader : Text → List Line
unfolding add_byte
read_reader [] = []
read_reader (c ∷ cs) =
    let rest = read_reader cs in
    if c == b'\n' then record { line = c ∷ [] } ∷ rest else add_byte c rest

-- `nbrBytesRead` and `nbrBytesWritten`
unfoldable pub count_bytes : List Line → ℕ
count_bytes [] = 0
count_bytes (l ∷ ls) = length l.line + count_bytes ls

-- The loop of `WriteWriter` with `rounds` left; the nil pointer has no value.
unfoldable pub write_writer : ℕ → List Line → Option Text
write_writer zero els = some []
write_writer (suc rounds) [] = none
write_writer (suc rounds) (x ∷ els) = elim (write_writer rounds els) [
  | none ↦ none
  | some t ↦ some (x.line ++ t)
]

-- `ReadFile`
opened : Text → Option Text → Exec (List Line)
opened name none = raise (no_such_file name)
opened name (some content) = pure (read_reader content)

unfoldable pub read_file : Text → Exec (List Line)
unfolding opened read_reader
read_file name = do content ← gets (λ w. w.files name); opened name content

unfoldable pub get_filename : Text → Bool → Exec Text
unfolding is_empty
get_filename potential set_default = do
  default ← gets (λ w. w.default_filename)
  if is_empty potential
      then (if is_empty default then raise missing_filename else pure default)
      else (do
        modify (λ s.
            if set_default
            then record s { flags = record s.flags { default_filename = potential } }
            else s)
        pure potential)

-- "%dL, %dC\n" and "%dC\n"
print_read : List Line → Exec (Unit {0})
print_read ls =
    print (itoa (pos (length ls)) ++ codes "L, " ++ itoa (pos (count_bytes ls)) ++ codes "C\n")

-- `Edit`
unfoldable pub edit : Command → Exec (Unit {0})
unfolding print_read count_bytes
edit cmd = do
  name ← get_filename (trim_space cmd.rest_of_cmd) true
  ls ← read_file name
  print_read ls
  modify (λ s. record s { buffer = ls; changed_since_last_write = false; undo = [] })
  move_to_line (length ls)

read_after : Command → ℕ → List Line → Exec (Unit {0})
read_after cmd start ls = if length ls == 0 then move_to_line start else (do
  append_lines start ls
  modify (λ s. record s { changed_since_last_write = true })
  modify (add_undo (pos (start + 1)) (pos (start + length ls)) Ident.delete no_text cmd))

-- `Read`
unfoldable pub read : Command → Exec (Unit {0})
unfolding read_after print_read count_bytes
read cmd = with_range cmd.resolved λ r. do
  no_end ← lift (is_not_specified cmd.addr_range.end)
  if no_end
      then (do
        name ← get_filename (trim_space cmd.rest_of_cmd) false
        no_start ← lift (is_not_specified cmd.addr_range.start)
        last ← gets (λ w. length w.buffer)
        ls ← read_file name
        print_read ls
        read_after cmd (if no_start then last else r.start_line) ls)
      else raise (in_command (codes "read") range_may_not_be_specified)

-- `strings.TrimPrefix(s, "q")`
unfoldable pub trim_quit : Text → Text
trim_quit [] = []
trim_quit (c ∷ cs) = if c == b'q' then cs else c ∷ cs

-- `os.Create`, then `WriteWriter`; which files can be created is up to the system.
written : Text → Option Text → Exec ℕ
written name none w = panicked
written name (some content) w =
    done (length content)
      (record w { files = λ n. if equal name n then some content else w.files n })

write_file : (Text → Bool) → Text → Option Text → Exec ℕ
unfolding written
write_file can_create name content =
    if can_create name then written name content else raise (cannot_create name)

-- `Write`
unfoldable pub write : (Text → Bool) → Command → Exec (Unit {0})
unfolding write_file trim_quit write_writer
write can_create cmd w0 =
    (with_range cmd.resolved λ r. do
      name ← get_filename (trim_space (trim_quit cmd.rest_of_cmd)) true
      specified ← lift (is_specified cmd.addr_range)
      last ← gets (λ w. length w.buffer)
      let start = if specified then r.start_line else 1
      let end = if specified then r.end_line else last
      if start == 0 then raise (in_command (codes "write") start_line_zero) else (do
        move_to_line start
        els ← gets (λ w. from_element w.dotline w.buffer)
        bytes ← write_file can_create name (write_writer (end + 1 - start) els)
        print (itoa (pos bytes) ++ codes "C\n")
        modify (λ s. record s { changed_since_last_write = false })
        move_to_line w0.line_nbr))
      w0
