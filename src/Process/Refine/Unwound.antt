-- ===== src/Process/Refine/Unwound.antt =====
-- Edits one after the other, and then as many undos.
use mathlib.Core.Path.{subst}
use go_red.Base.{
  ℕ, zero, suc, ◌+◌, ◌-◌, ◌<◌, ◌≤◌, ◌≡◌, refl, ◌∙◌, ap, sym, arith, true, false, Option, none, some,
  List, [], ◌∷◌, length, length-append, length-take, length-drop, take, drop, ◌⊎◌, inl, inr,
  int_limit,
}
use go_red.Buffer.{Line}
use go_red.Command.Ident.{CommandId}
use go_red.Command.{Command}
use go_red.Edit.Change.{change-put_world, put_world-buffer}
use go_red.Edit.Delete.{deleted_world, delete-deleted_world}
use go_red.Edit.Insert.{append_insert_lem, inserted_world, place, place-le}
use go_red.Edit.{append_insert}
use go_red.Exec.{pure, raise, done, Exec, ◌>>=◌}
use go_red.Lines.Append.{spliced}
use go_red.Lines.Cut.{without}
use go_red.Process.Changing.{changed_world, changed-undo}
use go_red.Process.Refine.Steps.{process_all}
use go_red.Process.Refine.{
  Edit, add_behind, add_before, remove, replace, relocate, apply, as_command, input_of,
  edit_command, resolved_command, process_command-run, InBuffer,
}
use go_red.Process.Reinserting.{deleted-undo, removed-buffer}
use go_red.Process.Undoing.{plain_undo, inserted-undo, inserted-buffer}
use go_red.Process.Unwinding.{Ready, Reverts, insert-Reverts, delete-Reverts, change-Reverts}
use go_red.Process.{
  System, Reply, reply, process_command, run, report, catch, caught, takes_no_range, undo_lines,
}
use go_red.State.{World, Undo, lines, add_undo}

-- The edits of a buffer of `n` lines that `u` undoes: no deletion of the last line, and no move.
abbrev pub Undoable : ℕ → Edit → Type 0
Undoable n (add_behind at new) = (at ≤ n) × (0 < length new) × (at + length new < int_limit)
Undoable n (add_before at new) = (at ≤ n) × (0 < length new) × (at + length new < int_limit)
Undoable n (remove start end) = (0 < start) × (start ≤ end) × (end < n) × (end < int_limit)
Undoable n (replace start end new) =
    InBuffer start end n × (0 < length new) × (start + length new < int_limit)
Undoable n (relocate start end dest) = ⊥

module _ (sys : System) (w : World) (k : w.processing_undo ≡ false) where
  -- An edit is made, and what `u` would do after it is known.
  abbrev Kept : Edit → Type 0
  Kept e =
      (v : World) × (u : Undo) × (process_command sys (as_command e) (input_of e) false w
        ≡ done (reply false none) v)
      × Ready (u ∷ w.undo) (apply e w.buffer) v
      × Reverts sys u (apply e w.buffer) w.buffer

  deleted-processing_undo :
      (cmd : Command) (a b : ℕ) → (deleted_world cmd a b true w).processing_undo ≡ false
  unfolding add_undo
  deleted-processing_undo cmd a b = ground (arith, k)

  inserted-processing_undo :
      (cmd : Command) (at : ℕ) (new : List Line)
      → (inserted_world cmd at new w).processing_undo ≡ false
  unfolding add_undo
  inserted-processing_undo cmd at new = ground (arith, k)

  changed-processing_undo :
      (cmd : Command) (a b : ℕ) (new : List Line)
      → (changed_world cmd a b new w).processing_undo ≡ false
  unfolding add_undo
  changed-processing_undo cmd a b new = ground (arith, k)

  remove-Kept :
      (start end : ℕ) → Undoable (length w.buffer) (remove start end) → Kept (remove start end)
  unfolding as_command input_of apply run report catch caught takes_no_range
  remove-Kept start end (p, q, l, i) =
      let cmd = resolved_command sys CommandId.delete start end [] none w in
      let size : start ≤ length (without start end w.buffer) = omega (
        arith,
        length-append (take (start - 1) w.buffer) (drop end w.buffer),
        length-take (start - 1) w.buffer,
        length-drop end w.buffer,
      ) in
      (
        deleted_world cmd start end true w,
        _,
        process_command-run sys CommandId.delete start end [] none w _ q i (omega arith) refl
            (λ f. rw (delete-deleted_world cmd start end true w refl p q (omega arith), ◌>>=◌)),
        (
          deleted-undo sys cmd start end w size k,
          removed-buffer sys cmd start end w,
          deleted-processing_undo cmd start end,
        ),
        delete-Reverts sys cmd start end w.buffer p q l (omega arith),
      )

  inserted-Kept :
      (id : CommandId) (at : ℕ) (new : List Line)
      → (id ≡ CommandId.append) ⊎ (id ≡ CommandId.insert)
      → takes_no_range id ≡ false
      → ((f : Command → Option (List Line) → Exec Reply) (c : Command)
          → run sys f none c (some new) id w ≡ report (append_insert c (some new)) w)
      → at ≤ length w.buffer
      → 0 < length new
      → at + length new < int_limit
      → (v : World) × (u : Undo) × (process_command sys
            (edit_command id at at [])
            (some new)
            false
            w
          ≡ done (reply false none) v)
        × Ready (u ∷ w.undo) (spliced (place id at) new w.buffer) v
        × Reverts sys u (spliced (place id at) new w.buffer) w.buffer
  unfolding report catch caught undo_lines
  inserted-Kept id at new c t e l n i =
      let cmd = resolved_command sys id at at [] (some new) w in
      let low = place-le id at in
      (
        inserted_world cmd (place id at) new w,
        _,
        process_command-run sys id at at [] (some new) w _ (omega arith) (omega arith) l t
            (λ f. e f cmd ∙ rw (append_insert_lem cmd at at new w c refl l n, ◌>>=◌) refl),
        (
          inserted-undo cmd (place id at) new w k,
          inserted-buffer sys cmd (place id at) new w,
          inserted-processing_undo cmd (place id at) new,
        ),
        insert-Reverts sys cmd (place id at) new (lines new) (some new) w.buffer refl
            (omega (arith, low)) n (omega (arith, low)),
      )

  replace-Kept :
      (start end : ℕ) (new : List Line)
      → Undoable (length w.buffer) (replace start end new)
      → Kept (replace start end new)
  unfolding as_command input_of apply run report catch caught takes_no_range
  replace-Kept start end new ((p, q, l, i), n, j) =
      let cmd = resolved_command sys CommandId.change start end [] (some new) w in
      (
        changed_world cmd start end new w,
        _,
        process_command-run sys CommandId.change start end [] (some new) w _ q i l refl
            (λ f. rw (change-put_world cmd start end new w refl p q l n, ◌>>=◌)),
        (
          changed-undo cmd start end new w k,
          put_world-buffer cmd start end new w (omega arith),
          changed-processing_undo cmd start end new,
        ),
        change-Reverts sys cmd start end new w.buffer p q l n j,
      )

  edit-Kept : (e : Edit) → Undoable (length w.buffer) e → Kept e
  unfolding as_command input_of apply run takes_no_range
  edit-Kept (add_behind at new) (l, n, i) =
      inserted-Kept CommandId.append at new (inl refl) refl (λ f c. refl) l n i
  edit-Kept (add_before at new) (l, n, i) =
      inserted-Kept CommandId.insert at new (inr refl) refl (λ f c. refl) l n i
  edit-Kept (remove start end) h = remove-Kept start end h
  edit-Kept (replace start end new) h = replace-Kept start end new h
  edit-Kept (relocate start end dest) h = absurd h

-- The lists of lines that such edits lead to.
pub data UndoableSteps : List Line → List Edit → List Line → Type 0 where
  stop : (b : List Line) → UndoableSteps b [] b
  step :
      (b : List Line) (e : Edit) (es : List Edit) (b' : List Line)
      → Undoable (length b) e
      → UndoableSteps (apply e b) es b'
      → UndoableSteps b (e ∷ es) b'

-- `u` so many times, up to the first error.
pub undo_all : System → ℕ → Exec (Unit {0})
undo_all sys zero = pure tt
undo_all sys (suc n) = undo_all sys n >>= λ t. process_command sys plain_undo none false >>= λ r.
    elim r.error [ none ↦ pure tt | some e ↦ raise e ]

-- Where insertions, deletions that spare the last line, and changes lead from the lines of the buffer to others, with line
-- numbers that fit an `int`, their commands run without panic or error where no undo is being
-- processed, and leave those other lines. As many `u` as there were commands then run without panic or
-- error, too, and give back the buffer and the undo list of the beginning.
pub process_all-undo_all :
    (sys : System) (es : List Edit) (b b' : List Line) (us : List Undo) (w : World)
    → Ready us b w
    → UndoableSteps b es b'
    → (v : World) × (process_all sys es w ≡ done tt v)
      × (v.buffer ≡ b')
      × (x : World) × (undo_all sys (length es) v ≡ done tt x)
      × Ready us b x
unfolding process_all undo_all
process_all-undo_all sys [] b b' us w h (stop _) = (w, refl, h.1, w, refl, h)
process_all-undo_all sys (e ∷ es) b b' us w (g, h, k) (step _ _ _ _ f s) =
    let (v, u, p, (d, c, m), back) =
      edit-Kept sys w k e (subst (λ x. Undoable (length x) e) (sym h) f) in
    let (y, q, t, z, r, ready) =
      process_all-undo_all sys es (apply e b) b' (u ∷ us) v (d ∙ ap (u ∷◌) g, c ∙ ap (apply e) h, m)
        s in
    let (below, buffer, none_processed) = ready in
    let (x, n, (end, old, over)) =
      back us z (below, buffer ∙ sym (ap (apply e) h), none_processed) in
    (y, rw (p, ◌>>=◌) q, t, x, rw (r, ◌>>=◌) (rw (n, ◌>>=◌)), (end, old ∙ h, over))
