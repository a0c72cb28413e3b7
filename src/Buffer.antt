-- ===== src/Buffer.antt =====
-- The text buffer (state.go: `Line`; cmd.go: `_findLine`). A `*list.List` of lines is a list, and
-- a pointer to one of its elements is the element's index, counted from 0.
pub mod Find
use go_red.Base.{ℕ, ◌+◌, ◌-◌, Option, none, some, List, [], ◌∷◌, ◌==◌, if◌then◌else◌}
use go_red.Text.{Text}

pub record Line : Type 0 where
  pub line : Text

-- The loop of `_findLine` at line `nbr`, and its check behind the loop: `none` for the panic,
-- `some none` for the nil pointer behind the last line.
unfoldable pub find_from : ℕ → ℕ → List Line → Option (Option ℕ)
find_from required nbr [] = if required == nbr then some none else none
find_from required nbr (x ∷ xs) =
    let rest = find_from required (nbr + 1) xs in
    if nbr == required then some (some (nbr - 1)) else rest

unfoldable pub find_line : ℕ → List Line → Option (Option ℕ)
unfolding find_from
find_line required buffer = find_from required 1 buffer
