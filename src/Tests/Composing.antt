-- ===== src/Tests/Composing.antt =====
-- Typed commands, commands in a row, and joins and changes with their undo, on the small buffer.
use go_red.Base.{◌≡◌, refl, arith, inl, false, some, none, [], ◌∷◌, ◌++◌, take, drop, pos}
use go_red.Command.Ident
use go_red.Command.Parse.Printed.{parse_command-printed}
use go_red.Command.Parse.{parse_command, letter}
use go_red.Edit.Join.{join_lem, spaced, whole_lines}
use go_red.Edit.{change, join, joined, end_joined, space_for_newline}
use go_red.Exec.{done}
use go_red.Lines.Cut.{segment, without}
use go_red.Process.Changing.{change-undo, join-undo}
use go_red.Process.Refine.Steps.{stop, step, process_all, process_all-Steps}
use go_red.Process.Refine.{add_behind, remove, relocate, apply}
use go_red.Process.Undoing.{plain_undo}
use go_red.Process.{reply, process_command}
use go_red.Result.{ok}
use go_red.Session.Typed.{obey-delete-undo}
use go_red.Session.{obey}
use go_red.State.{World, absolute_range}
use go_red.Text.{Text, codes, contains_byte, itoa, trim_space}
use go_red.Tests.Processing.{system}
use go_red.Tests.Running.{terminal}
use go_red.Tests.{four_lines, two_lines, four_world, command}

abbrev bee_cat : Text
bee_cat = codes "bee cat\n"

join_lem_example :
    (v : World) × (join (command Ident.join 2 3 []) four_world ≡ done tt v)
    × (v.buffer
        ≡ take 1 four_lines
          ++ (record { line = spaced (codes "bee") (codes "cat" ∷ []) } ∷ drop 3 four_lines))
    × (v.line_nbr ≡ 2)
    × (v.cut_buffer ≡ segment 2 3 four_lines)
unfolding contains_byte whole_lines
join_lem_example =
    join_lem (command Ident.join 2 3 []) 2 3 four_world (codes "bee") (codes "cat" ∷ []) refl
      (omega arith) (omega arith) (omega arith) (refl, (refl, tt)) refl

change-undo_example :
    (v : World) × (change (command Ident.change 2 3 []) (some two_lines) four_world ≡ done tt v)
    × (x : World) × (process_command system plain_undo none false v ≡ done (reply false none) x)
    × (x.buffer ≡ four_world.buffer)
change-undo_example =
    change-undo system (command Ident.change 2 3 []) 2 3 two_lines four_world (omega arith)
      (omega arith) (omega arith) (omega arith) (omega arith) refl refl

join-undo_example :
    (v : World) × (join (command Ident.join 2 3 []) four_world ≡ done tt v)
    × (x : World) × (process_command system plain_undo none false v ≡ done (reply false none) x)
    × (x.buffer ≡ four_world.buffer)
unfolding joined end_joined space_for_newline
join-undo_example =
    join-undo system (command Ident.join 2 3 []) 2 3 bee_cat four_world refl (omega arith)
      (omega arith) (omega arith) (omega arith) refl refl

letter-move : letter b'm' ≡ some Ident.move
unfolding letter
letter-move = refl

parse_command-printed_example :
    parse_command (itoa (pos 2) ++ b',' ∷ (itoa (pos 13) ++ b'm' ∷ codes " 7"))
    ≡ ok (record {
      addr_range = absolute_range (pos 2) (pos 13);
      resolved = none;
      cmd = Ident.move;
      rest_of_cmd = trim_space (codes " 7");
    })
unfolding contains_byte
parse_command-printed_example =
    parse_command-printed 2 13 b'm' Ident.move (codes " 7") letter-move (omega arith) (omega arith)
      refl

obey-delete-undo_example :
    (v : World) × (obey system terminal
        (parse_command (itoa (pos 2) ++ b',' ∷ (itoa (pos 3) ++ b'd' ∷ [])))
        four_world
      ≡ done false v)
    × (v.buffer ≡ without 2 3 four_lines)
    × (x : World) × (obey system terminal (parse_command (codes "u")) v ≡ done false x)
    × (x.buffer ≡ four_lines)
obey-delete-undo_example =
    obey-delete-undo system terminal 2 3 four_world (omega arith) (omega arith) (omega arith)
      (omega arith) refl

-- Two lines behind the second, the first out, and the last before all others.
process_all-Steps_example :
    (v : World) × (process_all system
        (add_behind 2 two_lines ∷ remove 1 1 ∷ relocate 5 5 0 ∷ [])
        four_world
      ≡ done tt v)
    × (v.buffer
        ≡ apply (relocate 5 5 0) (apply (remove 1 1) (apply (add_behind 2 two_lines) four_lines)))
unfolding apply
process_all-Steps_example =
    process_all-Steps system (add_behind 2 two_lines ∷ remove 1 1 ∷ relocate 5 5 0 ∷ []) four_lines
      _ four_world refl
      (step _ _ _ _ (omega arith, omega arith, omega arith)
        (step _ _ _ _ (omega arith, omega arith, omega arith, omega arith)
          (step _ _ _ _
            (
              (omega arith, omega arith, omega arith, omega arith),
              omega arith,
              omega arith,
              inl (omega arith),
            )
            (stop _))))
