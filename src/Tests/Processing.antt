-- ===== src/Tests/Processing.antt =====
-- Commands processed on the small buffer.
use go_red.Base.{◌≡◌, refl, true, none, [], ◌∷◌}
use go_red.Command.Ident
use go_red.Command.{zero_range}
use go_red.Exec.{done}
use go_red.Process.Undone.{handle_undo_subst-unresolved}
use go_red.Process.{System, handle_undo_subst}
use go_red.State.{Change, changes}
use go_red.Tests.{prefixes, two_lines, four_world, command}

abbrev pub system : System
system = record { regex = prefixes; can_create = λ name. true }

abbrev changed_back : Change
changed_back = record {
  cmd = record { addr_range = zero_range; resolved = none; cmd = Ident.change; rest_of_cmd = [] };
  text = two_lines;
  original_cmd = command Ident.substitute 2 2 [];
}

handle_undo_subst-unresolved_example :
    handle_undo_subst (changes (changed_back ∷ [])) four_world ≡ done tt four_world
handle_undo_subst-unresolved_example =
    handle_undo_subst-unresolved (changed_back ∷ []) four_world (refl, refl, tt)
