-- ===== src/Tests/Unwinding.antt =====
-- Edits of the small buffer that are all undone, and the groups of a match.
use go_red.Base.{◌≡◌, refl, arith, false, some, none, List, [], ◌∷◌}
use go_red.Buffer.{Line}
use go_red.Exec.{done}
use go_red.Process.Refine.Steps.{process_all}
use go_red.Process.Refine.Unwound.{UndoableSteps, stop, step, undo_all, process_all-undo_all}
use go_red.Process.Refine.{Edit, add_behind, remove, replace, apply}
use go_red.Process.Unwinding.{Ready}
use go_red.Regex.Captures.{
  Pattern, Captured, found, get_group, find_named_matches, find_named_matches_lem,
}
use go_red.State.{World}
use go_red.Text.{codes, equal, is_empty}
use go_red.Tests.Processing.{system}
use go_red.Tests.{four_lines, two_lines, four_world}

abbrev three_edits : List Edit
three_edits = add_behind 2 two_lines ∷ remove 1 1 ∷ replace 5 5 two_lines ∷ []

-- What the edits make of the four lines.
abbrev edited : List Line
edited =
    apply (replace 5 5 two_lines) (apply (remove 1 1) (apply (add_behind 2 two_lines) four_lines))

three_edits-UndoableSteps : UndoableSteps four_lines three_edits edited
unfolding apply
three_edits-UndoableSteps =
    step _ (add_behind 2 two_lines) _ _ (omega arith, omega arith, omega arith)
      (step _ (remove 1 1) _ _ (omega arith, omega arith, omega arith, omega arith)
        (step _ (replace 5 5 two_lines) _ _
          ((omega arith, omega arith, omega arith, omega arith), omega arith, omega arith)
          (stop _)))

process_all-undo_all_example :
    (v : World) × (process_all system three_edits four_world ≡ done tt v)
    × (v.buffer ≡ edited)
    × (x : World) × (undo_all system 3 v ≡ done tt x)
    × Ready [] four_lines x
process_all-undo_all_example =
    process_all-undo_all system three_edits four_lines edited [] four_world (refl, refl, refl)
      three_edits-UndoableSteps

-- `(?P<first>a)|(?P<second>b)`, on the string "b".
abbrev either : Pattern
either = record {
  find_string_submatch = λ s. some (codes "b" ∷ [] ∷ codes "b" ∷ []);
  find_all_string_submatch = λ s. none;
  subexp_names = [] ∷ codes "first" ∷ codes "second" ∷ [];
}

find_named_matches_lem_example :
    (all : Captured) × (find_named_matches either (codes "b") false ≡ found (all ∷ []))
    × (get_group (codes "second") all ≡ some (codes "b"))
unfolding equal is_empty
find_named_matches_lem_example =
    find_named_matches_lem either (codes "b") (codes "second") (codes "b") []
      (codes "first" ∷ codes "second" ∷ []) ([] ∷ codes "b" ∷ []) refl refl (omega arith)
