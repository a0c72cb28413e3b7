-- ===== src/Tests/Undoing.antt =====
-- Commands on the small buffer that are undone, and the help on one of them.
use go_red.Base.{
  take, drop, ◌++◌, ℕ, ◌+◌, ◌≡◌, refl, inr, arith, true, false, none, some, List, length, pos,
}
use go_red.Address.{new_absolute_address, calculate_actual_line_number}
use go_red.Address.Parse.{new_address}
use go_red.Command.Ident
use go_red.Command.Parse.{letter}
use go_red.Command.{Command}
use go_red.Exec.{done}
use go_red.Help.Complete.{explained_world, any_prefix, help-letter}
use go_red.Help.Overview.{overview}
use go_red.Help.Topics.{topics}
use go_red.Help.{find_topic, help}
use go_red.Lines.Cut.{without}
use go_red.Process.Copied.{put-undo, transfer-undo}
use go_red.Process.Lost.{move-undo_lost}
use go_red.Process.Moved.{move-undo, move-undo_length}
use go_red.Process.Undoing.{plain_undo}
use go_red.Process.{reply, process_command}
use go_red.Range.{line_range, comma}
use go_red.Result.{invalid_line_max}
use go_red.State.{World}
use go_red.Text.{Text, codes, atoi, trim_space}
use go_red.Transfer.Relocated.{relocated}
use go_red.Transfer.{destination, move, transfer, put}
use go_red.Tests.{prefixes, four_lines, four_world, command}
use go_red.Tests.Moving.{lines_2_3, line_3, range_2_3, also_to_line_4, to_line_4}
use go_red.Tests.Processing.{system}

to_line_1 : destination prefixes true (codes "1") four_world ≡ done 1 four_world
unfolding destination trim_space new_address atoi calculate_actual_line_number
to_line_1 = refl

-- `3m4`, `2,3m4`, `2,3m1` and `4m1`, resolved.
abbrev moving : ℕ → ℕ → Text → Command
moving start end rest = record {
  addr_range = record {
    start = new_absolute_address (pos start);
    end = new_absolute_address (pos end);
    separator = comma;
  };
  resolved = some (line_range start end);
  cmd = Ident.move;
  rest_of_cmd = rest;
}

put-undo_example :
    (v : World) × (put line_3 four_world ≡ done tt v)
    × (x : World) × (process_command system plain_undo none false v ≡ done (reply false none) x)
    × (x.buffer ≡ four_world.buffer)
put-undo_example =
    put-undo system line_3 3 four_world refl refl (omega arith) (omega arith) (omega arith)
      (omega arith) refl

transfer-undo_example :
    (v : World) × (transfer prefixes lines_2_3 four_world ≡ done tt v)
    × (x : World) × (process_command system plain_undo none false v ≡ done (reply false none) x)
    × (x.buffer ≡ four_world.buffer)
transfer-undo_example =
    transfer-undo system lines_2_3 2 3 4 four_world range_2_3 also_to_line_4 (omega arith)
      (omega arith) (omega arith) (omega arith) (omega arith) refl

move-undo_example :
    (v : World) × (move prefixes (moving 2 2 (codes "4")) four_world ≡ done tt v)
    × (x : World) × (process_command system plain_undo none false v ≡ done (reply false none) x)
    × (x.buffer ≡ four_world.buffer)
move-undo_example =
    move-undo system (moving 2 2 (codes "4")) 2 4 four_world refl refl to_line_4 (omega arith)
      (omega arith) (omega arith) refl (omega arith) (inr (omega arith))

move-undo_length_example :
    (v : World) × (move prefixes (moving 2 3 (codes "4")) four_world ≡ done tt v)
    × (v.buffer ≡ relocated 2 3 4 four_lines)
    × (x : World) × (process_command system plain_undo none false v ≡ done (reply false none) x)
    × (x.buffer
        ≡ take 1 (without 3 3 v.buffer)
          ++ (take 2 (drop 1 four_lines) ++ drop 1 (without 3 3 v.buffer)))
    × (length x.buffer ≡ 4 + 1)
move-undo_length_example =
    move-undo_length system (moving 2 3 (codes "4")) 2 3 4 four_world refl refl to_line_4
      (omega arith) (omega arith) (omega arith) (omega arith) (inr (omega arith)) (omega arith) refl
      (omega arith)

move-undo_lost_example :
    (v : World) × (move prefixes (moving 4 4 (codes "1")) four_world ≡ done tt v)
    × (x : World) × (process_command system plain_undo none false v
        ≡ done (reply false (some (invalid_line_max (pos 4) 3))) x)
    × (x.buffer ≡ without 4 4 four_lines)
move-undo_lost_example =
    move-undo_lost system (moving 4 4 (codes "1")) 1 four_world refl refl to_line_1 (omega arith)
      (omega arith) refl

help-letter_example :
    (text : List Text) × (find_topic (codes "d") topics ≡ some text)
    × (any_prefix (codes "  d ") text ≡ true)
    × (help (command Ident.help 1 1 (codes " d")) four_world
        ≡ done tt (explained_world text four_world))
    × (any_prefix (codes "  d ") overview ≡ true)
unfolding trim_space letter
help-letter_example =
    help-letter (command Ident.help 1 1 (codes " d")) 100 Ident.delete four_world refl refl
