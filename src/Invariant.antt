-- ===== src/Invariant.antt =====
-- What every command keeps: the current line is at most one behind the last line, the undo list
-- holds only the commands that undo needs, and standard input is only read.
use go_red.Base.{
  ℕ, ◌+◌, ◌≤◌, ◌≡◌, refl, Bool, true, false, none, List, [], ◌∷◌, length, ℤ, if◌then◌else◌,
}
use go_red.Command.Ident.{CommandId}
use go_red.Command.{Command}
use go_red.State.{World, Undo, UndoText, no_text, lines, changes, undo_command, add_undo}
use go_red.Text.{Text}

-- The commands that are stored to undo others, each with the text that it takes.
abbrev pub Undoes : CommandId → UndoText → Type 0
Undoes CommandId.append (lines ls) = Unit {0}
Undoes CommandId.insert (lines ls) = Unit {0}
Undoes CommandId.change (lines ls) = Unit {0}
Undoes CommandId.delete (lines ls) = Unit {0}
Undoes CommandId.delete no_text = Unit {0}
Undoes CommandId.undo_move (lines ls) = Unit {0}
Undoes CommandId.undo_subst (changes cs) = Unit {0}
Undoes _ _ = ⊥

abbrev pub IsStored : Undo → Type 0
IsStored u = (u.cmd.resolved ≡ none) × Undoes u.cmd.cmd u.text

abbrev pub AllStored : List Undo → Type 0
AllStored [] = Unit {0}
AllStored (u ∷ us) = IsStored u × AllStored us

-- How much is left to read.
abbrev pub unread : List Text → ℕ
unread [] = 0
unread (chunk ∷ chunks) = length chunk + unread chunks

-- The parts of the invariant that do not look at the buffer.
abbrev pub Rest : ℕ → World → Type 0
Rest k w = AllStored w.undo × (unread w.stdin ≤ k)

abbrev pub Inv : ℕ → World → Type 0
Inv k w = (w.line_nbr ≤ length w.buffer + 1) × Rest k w

pub add_undo-Inv :
    (k : ℕ) (a b : ℤ) (id : CommandId) (text : UndoText) (original : Command) (w : World)
    → Undoes id text
    → Inv k w
    → Inv k (record w { state = add_undo a b id text original w.state })
unfolding add_undo
add_undo-Inv k a b id text original w u i = on w.processing_undo
  where
    on :
        (p : Bool)
        → Inv k (record w {
          state =
              if p
              then w.state
              else record w.state { undo = undo_command a b id text original ∷ w.undo };
        })
    on true = i
    on false = (i.0, (((refl, u), i.1.0), i.1.1))
