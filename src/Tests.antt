-- ===== src/Tests.antt =====
-- Runs of the editor on a small buffer, at which the theorems are applied.
pub mod Searching
pub mod Editing
pub mod Moving
pub mod Processing
pub mod Running
pub mod Composing
pub mod Substituting
pub mod Undoing
pub mod Sessions
pub mod Unwinding
pub mod Saving
use go_red.Base.{ℕ, Bool, true, Option, none, List, [], ◌∷◌}
use go_red.Buffer.{Line}
use go_red.Command.Ident.{CommandId}
use go_red.Command.{Command, new_resolved}
use go_red.Range.{line_range}
use go_red.Regex.{Engine}
use go_red.State.{State, World, new_state}
use go_red.Text.{Text, codes, has_prefix}

-- Expressions that are prefixes of the lines that they match.
abbrev pub prefixes : Engine
prefixes = record {
  compiles = λ p. true;
  matches = λ p s. has_prefix s p;
  replace_all = λ p s r. s;
}

abbrev pub four_lines : List Line
four_lines =
    record { line = codes "ant\n" }
    ∷ record { line = codes "bee\n" }
    ∷ record { line = codes "cat\n" }
    ∷ record { line = codes "dog\n" }
    ∷ []

abbrev pub two_lines : List Line
two_lines = record { line = codes "new\n" } ∷ record { line = codes "old\n" } ∷ []

abbrev pub state_of : List Line → ℕ → State
state_of buffer n = record new_state { buffer = buffer; cut_buffer = two_lines; line_nbr = n }

abbrev pub world_of : List Line → ℕ → World
world_of buffer n = record { state = state_of buffer n; out = []; stdin = []; files = λ name. none }

-- Line 2 of the four lines is current.
abbrev pub four_world : World
four_world = world_of four_lines 2

abbrev pub command : CommandId → ℕ → ℕ → Text → Command
command id start end rest = new_resolved (line_range start end) id rest
