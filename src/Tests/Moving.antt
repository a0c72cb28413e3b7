-- ===== src/Tests/Moving.antt =====
-- Lines of the small buffer moved and copied, and the marks on them.
use go_red.Base.{◌≡◌, refl, inr, arith, true, false, some, [], ◌∷◌, pos}
use go_red.Address.{new_absolute_address, calculate_actual_line_number}
use go_red.Address.Parse.{new_address}
use go_red.Command.Ident
use go_red.Command.{Command}
use go_red.Exec.{done}
use go_red.Lines.Cut.{segment}
use go_red.Mark.Follow.{Followed, delete-Followed, move-Followed}
use go_red.Edit.{delete}
use go_red.Mark.{find_mark}
use go_red.Range.{
  line_range, comma, get_address_range, is_specified, calculate_start_and_end_line_numbers,
}
use go_red.Result.{ok}
use go_red.State.{World}
use go_red.Text.{equal, codes, itoa, atoi, trim_space}
use go_red.Transfer.Copying.{copied_world, transfer_lem}
use go_red.Transfer.Relocated.{relocated}
use go_red.Transfer.Moving.{move_lem}
use go_red.Transfer.{destination, move, transfer}
use go_red.Tests.{prefixes, four_lines, four_world, command}
use mathlib.Core.List.{Perm}

abbrev pub lines_2_3 : Command
lines_2_3 = record {
  addr_range = record {
    start = new_absolute_address (pos 2);
    end = new_absolute_address (pos 3);
    separator = comma;
  };
  resolved = some (line_range 2 3);
  cmd = Ident.transfer;
  rest_of_cmd = codes "4";
}

abbrev pub line_3 : Command
line_3 = record lines_2_3 { resolved = some (line_range 3 3) }

pub range_2_3 :
    get_address_range prefixes four_lines [] 2 lines_2_3.addr_range ≡ ok (line_range 2 3)
unfolding get_address_range is_specified calculate_start_and_end_line_numbers
    calculate_actual_line_number atoi itoa
range_2_3 = refl

pub to_line_4 : destination prefixes true (codes "4") four_world ≡ done 4 four_world
unfolding destination trim_space new_address atoi calculate_actual_line_number
to_line_4 = refl

pub also_to_line_4 : destination prefixes false (codes "4") four_world ≡ done 4 four_world
unfolding destination trim_space new_address atoi calculate_actual_line_number
also_to_line_4 = refl

to_line_2 : destination prefixes true (codes "2") four_world ≡ done 2 four_world
unfolding destination trim_space new_address atoi calculate_actual_line_number
to_line_2 = refl

move_lem_example :
    (v : World) × (move prefixes (command Ident.move 2 3 (codes "4")) four_world ≡ done tt v)
    × (v.buffer ≡ relocated 2 3 4 four_lines)
    × Perm v.buffer four_lines
    × (v.line_nbr ≡ 4)
move_lem_example =
    move_lem prefixes (command Ident.move 2 3 (codes "4")) 2 3 4 four_world refl to_line_4
      (omega arith) (omega arith) (omega arith) (omega arith) (inr (omega arith))

transfer_lem_example :
    transfer prefixes lines_2_3 four_world
    ≡ done tt (copied_world lines_2_3 4 (segment 2 3 four_lines) four_world)
transfer_lem_example =
    transfer_lem prefixes lines_2_3 2 3 4 four_world range_2_3 also_to_line_4 (omega arith)
      (omega arith) (omega arith) (omega arith)

abbrev marked_world : World
marked_world = record four_world {
  state = record four_world.state { marks = (codes "a", 3) ∷ (codes "b", 1) ∷ [] };
}

marked_to_line_4 : destination prefixes true (codes "4") marked_world ≡ done 4 marked_world
unfolding destination trim_space new_address atoi calculate_actual_line_number
marked_to_line_4 = refl

delete-Followed_example :
    (v : World) × (delete (command Ident.delete 1 2 []) true marked_world ≡ done tt v)
    × Followed 1 2 3 four_lines v.buffer (find_mark (codes "a") v.marks)
unfolding find_mark equal
delete-Followed_example =
    delete-Followed (codes "a") 1 2 3 marked_world (refl, (refl, tt)) refl (omega arith)
      (omega arith) (omega arith) (omega arith) (omega arith) (command Ident.delete 1 2 []) true
      refl

move-Followed_example :
    (v : World) × (move prefixes (command Ident.move 1 2 (codes "4")) marked_world ≡ done tt v)
    × Followed 1 2 3 four_lines v.buffer (find_mark (codes "a") v.marks)
unfolding find_mark equal
move-Followed_example =
    move-Followed (codes "a") 1 2 3 marked_world (refl, (refl, tt)) refl (omega arith) (omega arith)
      (omega arith) (omega arith) (omega arith) prefixes (command Ident.move 1 2 (codes "4")) 4 refl
      marked_to_line_4 (omega arith) (inr (omega arith))
