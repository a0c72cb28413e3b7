-- ===== src/Process/Undone.antt =====
-- What the undo of a substitution does with the change commands that it has stored.
use go_red.Base.{◌≡◌, refl, true, Option, none, some, List, [], ◌∷◌, if◌then◌else◌}
use go_red.Buffer.{Line}
use go_red.Command.Ident.{CommandId}
use go_red.Command.{Command}
use go_red.Edit.{change}
use go_red.Exec.{done, failed, ◌>>=◌, ◌>>◌, with_range-none}
use go_red.Process.{is_change, catch, caught, undo_changes, handle_undo_subst}
use go_red.Result.{address_not_resolved}
use go_red.State.{World, Change, changes}

-- Change commands whose addresses are not resolved, as `addUndo` builds all of its commands.
abbrev pub AllUnresolved : List Change → Type 0
AllUnresolved [] = Unit {0}
AllUnresolved (c ∷ cs) = (c.cmd.cmd ≡ CommandId.change) × (c.cmd.resolved ≡ none) × AllUnresolved cs

is_change-change : (id : CommandId) → id ≡ CommandId.change → is_change id ≡ true
unfolding is_change
is_change-change CommandId.change h = refl
is_change-change _ h = cc

change-unresolved :
    (cmd : Command) (input : Option (List Line)) (w : World)
    → cmd.resolved ≡ none
    → change cmd input w ≡ failed address_not_resolved w
unfolding change
change-unresolved cmd input w h = with_range-none cmd.resolved _ w h

undo_changes-unresolved :
    (cs : List Change) (w : World) → AllUnresolved cs → undo_changes cs w ≡ done tt w
unfolding undo_changes catch caught
undo_changes-unresolved [] w h = refl
undo_changes-unresolved (c ∷ cs) w (k, r, h) =
    rw (is_change-change c.cmd.cmd k, if◌then◌else◌)
      (rw (change-unresolved c.cmd (some c.text) w r, ◌>>=◌, ◌>>◌) (undo_changes-unresolved cs w h))

-- Undoing a substitution whose change commands are not resolved succeeds and changes nothing: each
-- change fails, and its error is dropped.
pub handle_undo_subst-unresolved :
    (cs : List Change) (w : World) → AllUnresolved cs → handle_undo_subst (changes cs) w ≡ done tt w
unfolding handle_undo_subst
handle_undo_subst-unresolved cs w h = undo_changes-unresolved cs w h
