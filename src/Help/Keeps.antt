-- ===== src/Help/Keeps.antt =====
-- `Help` keeps the invariant.
use go_red.Base.{ℕ, inl, inr}
use go_red.Command.{Command}
use go_red.Exec.Keeps.{Keeps}
use go_red.Help.Complete.{help-prints}
use go_red.Help.{help}
use go_red.Invariant.{Inv}

pub help-Keeps : (k : ℕ) (cmd : Command) → Keeps (Inv k) (help cmd)
help-Keeps k cmd w i =
    let (out, e) = help-prints cmd w in elim e [ inl d ↦ rw d i | inr f ↦ rw f i ]
