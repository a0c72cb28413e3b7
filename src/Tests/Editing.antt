-- ===== src/Tests/Editing.antt =====
-- The commands on the lines of the small buffer.
use go_red.Base.{◌∷◌, ◌≡◌, refl, inr, arith, true, some, [], ◌++◌, take, drop}
use go_red.Command.Ident
use go_red.Edit.Change.{change_lem}
use go_red.Edit.Deleted.{delete_lem, undo_of}
use go_red.Edit.Insert.{append_insert_lem, append_insert_outside, inserted_world}
use go_red.Edit.{append_insert, delete, change}
use go_red.Exec.{done, panicked}
use go_red.Lines.Cut.{segment}
use go_red.State.{World}
use go_red.Tests.{four_lines, two_lines, world_of, four_world, command}

append_insert_lem_example :
    append_insert (command Ident.insert 3 3 []) (some two_lines) four_world
    ≡ done tt (inserted_world (command Ident.insert 3 3 []) 2 two_lines four_world)
append_insert_lem_example =
    append_insert_lem (command Ident.insert 3 3 []) 3 3 two_lines four_world (inr refl) refl
      (omega arith) (omega arith)

append_insert_outside_example :
    append_insert (command Ident.append 1 1 []) (some two_lines) (world_of [] 0) ≡ panicked
append_insert_outside_example =
    append_insert_outside (command Ident.append 1 1 []) 1 1 _ _ (world_of [] 0) refl refl
      (omega arith)

delete_lem_example :
    (v : World) × (delete (command Ident.delete 2 3 []) true four_world ≡ done tt v)
    × (v.buffer ≡ take 1 four_lines ++ drop 3 four_lines)
    × (v.cut_buffer ≡ take 2 (drop 1 four_lines))
    × (v.line_nbr ≡ 2)
    × (v.changed_since_last_write ≡ true)
    × (v.marks ≡ [])
    × (v.undo ≡ undo_of (command Ident.delete 2 3 []) 2 3 four_world ∷ [])
delete_lem_example =
    delete_lem (command Ident.delete 2 3 []) 2 3 true four_world (omega arith) (omega arith)
      (omega arith) refl

change_lem_example :
    (v : World) × (change (command Ident.change 2 3 []) (some two_lines) four_world ≡ done tt v)
    × (v.buffer ≡ take 1 four_lines ++ (two_lines ++ drop 3 four_lines))
    × (v.line_nbr ≡ 3)
    × (v.cut_buffer ≡ segment 2 3 four_lines)
change_lem_example =
    change_lem (command Ident.change 2 3 []) 2 3 two_lines four_world refl (omega arith)
      (omega arith) (omega arith) (omega arith)
