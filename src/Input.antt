-- ===== src/Input.antt =====
-- Reading text from standard input (cmd.go: `readInputLines`).
pub mod Keeps
use go_red.Base.{true, false, Option, none, some, List, [], ◌∷◌, ◌++◌, ◌==◌}
use go_red.Buffer.{Line}
use go_red.Exec.{done, failed, Exec}
use go_red.Result.{read_failed}
use go_red.Text.{Text, equal}

-- What has been read: the lines up to the one with a single dot, and the chunks that no read has
-- asked for. What is left of a chunk is lost with the buffered reader that holds it.
pub record Entered : Type 0 where
  pub entered : List Line
  pub unread : List Text

-- Byte by byte over the chunk at hand, then over the other chunks; `none` at the end of the input.
pub read_lines : List Text → Text → List Line → Text → Option Entered
read_lines [] partial lines [] = none
read_lines (chunk ∷ chunks) partial lines [] = read_lines chunks partial lines chunk
read_lines chunks partial lines (c ∷ cs) = elim (c == b'\n') [
  | false ↦ read_lines chunks (partial ++ c ∷ []) lines cs
  | true ↦ elim (equal partial (b'.' ∷ [])) [
    | true ↦ some (record { entered = lines; unread = chunks })
    | false ↦ read_lines chunks [] (lines ++ record { line = partial ++ b'\n' ∷ [] } ∷ []) cs
  ]
]

entered_or_fail : Option Entered → Exec (List Line)
entered_or_fail none w = failed read_failed (record w { stdin = [] })
entered_or_fail (some e) w = done e.entered (record w { stdin = e.unread })

unfoldable pub read_input_lines : Exec (List Line)
unfolding entered_or_fail read_lines
read_input_lines w = entered_or_fail (read_lines w.stdin [] [] []) w

-- `if inputLines != nil`
unfoldable pub given_or_read : Option (List Line) → Exec (List Line)
unfolding read_input_lines
given_or_read (some lines) w = done lines w
given_or_read none w = read_input_lines w
