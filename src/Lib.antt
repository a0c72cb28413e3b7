-- ===== src/Lib.antt =====
-- A model of `red`, a line editor after `ed`, with the theorems on it.
--
-- The program keeps a buffer of lines, a cut buffer, the number of the current line, marks and a stack of
-- undo commands (state.go). A command has an address range, a letter and a rest (cmd.go). Its
-- addresses (address.go, addressrange.go) are resolved to line numbers in the state at hand, and
-- `ProcessCommand` then calls the method for the letter, which changes the state, prints, or reads and
-- writes files (file.go, regex.go, mark.go). Each change pushes the command that undoes it.
--
-- Files and what they are about:
-- - Base, Text, Result, Exec: shared names; strings as lists of bytes with what the program uses of
--   `strings` and `strconv`; the errors; calls as functions from a world to a value, an error or a panic,
--   or to `unfinished`, where a loop meets the bound that the model sets on it.
-- - Regex: the `regexp` package, a parameter of everything that uses it; Regex/Captures has the named groups of
--   a match.
-- - Buffer: `Line`, `_findLine`. Lines: `moveToLine`, `iterateLines`, `copyLines`, `deleteLines`,
--   `appendLines`. A pointer into the buffer is an index, `none` for nil.
-- - Mark: mark.go; the map is an association list, and Mark/Table is about the table as a whole
--   and Mark/Update and Mark/Follow about the line that a mark names.
-- - Address, Address/Search, Address/Parse: address.go. `newAddress` cuts the string by the regular
--   expression of the program, which is written out as a scanner there. Address/Print has the strings of
--   addresses.
-- - Range, Range/Parse, Range/Valid: addressrange.go.
-- - Command/Parse: `ParseCommand`, with its regular expression as a scanner.
-- - Command, Command/Ident, State: `Command`, the command letters, state.go; the world adds standard input,
--   standard output and files.
-- - Input: `readInputLines`. Edit: `AppendInsert`, `Delete`, `Change`, `Join`. Transfer: `Move`,
--   `Transfer`, `Put`, `Yank`. Show: `Print`, `Scroll`, `Linenumber`, `Mark`. Files: file.go, `Edit`,
--   `Read`, `Write`. Subst: regex.go.
-- - Help: help.go, with its texts in Help/Topics and Help/Overview. Exec/Printed: what a call prints.
-- - Process: `ProcessCommand`, `Undo`, `handleUndoMove`, `handleUndoSubst`.
-- - Session: cmd/red/main.go, with the reader of the main loop; `Terminal` stands for the texts of errors and of
--   times and for what the runtime says of its memory. Session/Script: a session as its lines.
-- - Invariant, Exec/Keeps: what holds between two commands, and how calls in a row keep it; the files
--   named Keeps show it of each operation.
-- - Edit/Deleted, Transfer/Relocated: a deletion and a move described without the code's own helpers.
-- - Process/Refine: the abstract editor, a list of lines with five edits on it; Process/Refine/Unwound: edits and
--   then as many undos, by Process/Unwinding, which says what one of them does.
-- - Tests: runs on a small buffer.
--
-- Line numbers are natural numbers; where the program computes with a 64-bit `int` that may be negative or
-- overflow (sums in an address, the window of `Scroll`), the model writes out its range. Loops over the
-- buffer count down the lines that are left. `parse_parts` has fuel above the length of its string, and
-- `process` a bound on the depth of nested undos that is the length of the undo stack. `skip_parts` has
-- fuel above the length of the line, and `main_loop` above the bytes that are left of the input, since each
-- round takes at least a newline from it.
--
-- Not modelled: the wording of most errors, debug output, and failures in the middle of
-- reading or writing a file or standard input.
-- White space is that of ASCII.
pub mod Address
pub mod Base
pub mod Buffer
pub mod Command
pub mod Edit
pub mod Exec
pub mod Files
pub mod Help
pub mod Input
pub mod Invariant
pub mod Lines
pub mod Mark
pub mod Process
pub mod Range
pub mod Regex
pub mod Result
pub mod Session
pub mod Show
pub mod State
pub mod Subst
pub mod Tests
pub mod Text
pub mod Transfer
