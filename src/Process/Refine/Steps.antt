-- ===== src/Process/Refine/Steps.antt =====
-- Edits one after the other.
use go_red.Base.{◌≡◌, refl, ◌∙◌, sym, ap, false, some, none, List, [], ◌∷◌, length}
use mathlib.Core.Path.{subst}
use go_red.Buffer.{Line}
use go_red.Exec.{done, pure, raise, Exec, ◌>>=◌}
use go_red.Process.Refine.{Edit, apply, as_command, input_of, Fits, edit-Made}
use go_red.Process.{System, process_command}
use go_red.State.{World}

-- The lists of lines that edits lead to, one step for each edit that the list at hand allows.
pub data Steps : List Line → List Edit → List Line → Type 0 where
  stop : (b : List Line) → Steps b [] b
  step :
      (b : List Line) (e : Edit) (es : List Edit) (b' : List Line)
      → Fits (length b) e
      → Steps (apply e b) es b'
      → Steps b (e ∷ es) b'

-- The commands for the edits, processed in their order up to the first error.
unfoldable pub process_all : System → List Edit → Exec (Unit {0})
process_all sys [] = pure tt
process_all sys (e ∷ es) = process_command sys (as_command e) (input_of e) false >>= λ r.
    elim r.error [ none ↦ process_all sys es | some x ↦ raise x ]

-- Where the abstract edits lead from the lines of the buffer to others, their commands run without panic or error in any
-- world with that buffer, and leave those other lines in it.
pub process_all-Steps :
    (sys : System) (es : List Edit) (b b' : List Line) (w : World)
    → w.buffer ≡ b
    → Steps b es b'
    → (v : World) × (process_all sys es w ≡ done tt v) × (v.buffer ≡ b')
unfolding process_all
process_all-Steps sys [] b b' w h (stop _) = (w, refl, h)
process_all-Steps sys (e ∷ es) b b' w h (step _ _ _ _ f s) =
    let (v, p, q) = edit-Made sys w e (subst (λ x. Fits (length x) e) (sym h) f) in
    let (x, r, t) = process_all-Steps sys es (apply e b) b' v (q ∙ ap (apply e) h) s in
    (x, rw (p, ◌>>=◌) r, t)
