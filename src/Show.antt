-- ===== src/Show.antt =====
-- The commands that print, and `Mark` (cmd.go): `Print`, `Scroll`, `Linenumber`, `_printRange`.
pub mod Print
pub mod Keeps
use go_red.Base.{
  ℕ, zero, suc, ◌+◌, ◌-◌, Bool, true, false, Option, some, List, [], ◌∷◌, ◌++◌, ltb, leb, ◌==◌,
  if◌then◌else◌, ℤ, pos, int_limit, length,
}
use go_red.Address.{is_not_specified}
use go_red.Buffer.{Line}
use go_red.Command.Ident.{CommandId}
use go_red.Command.{Command}
use go_red.Exec.{Exec, ◌>>=◌, ◌>>◌, pure, raise, abort, gets, modify, lift, print, with_range}
use go_red.Lines.{from_element, move_to_line}
use go_red.Mark.{add_mark}
use go_red.Range.{is_specified}
use go_red.Result.{
  in_command, start_line_zero, bad_mark_name, range_may_not_be_specified, scroll_range,
  invalid_window_size,
}
use go_red.State.{State}
use go_red.Text.{Text, is_empty, codes, itoa, atoi, trim_space}

-- Spaces in front of a text that is shorter than four characters.
pad : Text → Text
pad (a ∷ []) = 32 ∷ 32 ∷ 32 ∷ a ∷ []
pad (a ∷ b ∷ []) = 32 ∷ 32 ∷ a ∷ b ∷ []
pad (a ∷ b ∷ c ∷ []) = 32 ∷ a ∷ b ∷ c ∷ []
pad t = t

-- `_printLine`: "%4d%c %s" with a tab, or the line alone.
unfoldable pub print_line : ℕ → Text → Bool → Exec (Unit {0})
unfolding pad
print_line nbr text numbers =
    if numbers then print (pad (itoa (pos nbr)) ++ 9 ∷ 32 ∷ text) else print text

-- The loop of `_printRange` with `rounds` left; the nil pointer has no value.
pub print_loop : Bool → ℕ → ℕ → List Line → Exec (Unit {0})
print_loop numbers zero nbr els = pure tt
print_loop numbers (suc rounds) nbr [] = abort
print_loop numbers (suc rounds) nbr (x ∷ els) =
    print_line nbr x.line numbers >> print_loop numbers rounds (nbr + 1) els

-- The pointer after the loop: the element behind the last line printed, or that line's own at the end
-- of the buffer.
after_print : ℕ → State → State
after_print end s = record s {
  dotline = if ltb end (length s.buffer) then some end else some (end - 1);
  line_nbr = end;
}

unfoldable pub print_range : ℕ → ℕ → Bool → Exec (Unit {0})
unfolding print_loop after_print
print_range start end0 numbers =
    let end = if end0 == 0 then 1 else end0 in
    if start == 0
    then raise (in_command (codes "print") start_line_zero)
    else if ltb end start
    then abort
    else (do
      move_to_line start
      els ← gets (λ w. from_element w.dotline w.buffer)
      print_loop numbers (end + 1 - start) start els
      modify (after_print end))

abbrev is_number : CommandId → Bool
is_number CommandId.number = true
is_number _ = false

-- `Print`; the range that it sets where none is specified is not read again.
unfoldable pub print_command : Command → Exec (Unit {0})
print_command cmd = with_range cmd.resolved λ r. do
  specified ← lift (is_specified cmd.addr_range)
  print_range r.start_line r.end_line (is_number cmd.cmd)

window : Option ℤ → Exec (Unit {0})
window (some (pos (suc n))) =
    modify (λ s. record s { flags = record s.flags { window_size = suc n } })
window _ = raise invalid_window_size

min_int_of : ℕ → ℕ → ℕ
min_int_of a b = if ltb b a then b else a

-- A sum that an `int` does not hold is negative; then so is the last line to print.
print_window : ℕ → ℕ → ℕ → Exec (Unit {0})
unfolding min_int_of
print_window first end last =
    if ltb end int_limit
    then print_range first (min_int_of end last) true
    else if first == 0
    then raise (in_command (codes "print") start_line_zero)
    else abort

-- `_scroll`
unfoldable pub scroll : Command → Exec (Unit {0})
unfolding is_empty window min_int_of print_window
scroll cmd = with_range cmd.resolved λ r. do
  no_end ← lift (is_not_specified cmd.addr_range.end)
  if no_end
      then (do
        no_start ← lift (is_not_specified cmd.addr_range.start)
        current ← gets (λ w. w.line_nbr)
        let start = if no_start then current + 1 else r.start_line
        if is_empty cmd.rest_of_cmd then pure tt else window (atoi (trim_space cmd.rest_of_cmd))
        size ← gets (λ w. w.window_size)
        last ← gets (λ w. length w.buffer)
        let first = if start == 0 then 1 else start
        print_window (min_int_of first last) (start + size) last)
      else raise scroll_range

unfoldable pub linenumber : Command → Exec (Unit {0})
linenumber cmd = with_range cmd.resolved λ r. print (itoa (pos r.start_line) ++ b'\n' ∷ [])

-- `singleLetterRE`
single_letter : Text → Bool
single_letter (c ∷ []) = if leb b'a' c then leb c b'z' else false
single_letter _ = false

-- `Mark`
unfoldable pub mark_command : Command → Exec (Unit {0})
unfolding single_letter
mark_command cmd = with_range cmd.resolved λ r.
    let name = trim_space cmd.rest_of_cmd in
    if single_letter name
    then (do
      no_end ← lift (is_not_specified cmd.addr_range.end)
      if no_end
          then modify (λ s. record s { marks = add_mark name r.start_line s.marks })
          else raise range_may_not_be_specified)
    else raise bad_mark_name
