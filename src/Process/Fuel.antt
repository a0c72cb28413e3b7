-- ===== src/Process/Fuel.antt =====
-- Undo comes to an end: the bound on the depth of nested undos is never met.
use go_red.Base.{
  ℕ, zero, suc, ◌<◌, ◌≤◌, ◌≡◌, refl, arith, Bool, true, false, ◌&&◌, Option, none, some, List, [],
  ◌∷◌, length, Bool-cases, inl, inr,
}
use go_red.Buffer.{Line}
use go_red.Command.Ident.{CommandId}
use go_red.Command.{Command}
use go_red.Exec.{give_up, done, Exec, ◌>>=◌, ◌>>◌}
use go_red.Process.{
  System, Reply, undo_with, undo_top, run, run_resolved, resolve_and_run, process_checked,
  forbidden_in_global, process_with, process, undo_lines,
}
use go_red.Result.{Result, ok, err, panic, Error}
use go_red.State.{World, Undo, UndoText, no_text, lines, changes}

abbrev pub Redo : Type 0
Redo = Command → Option (List Line) → Exec Reply

-- Two ways to process a command that agree where fewer than `n` undos are stored.
abbrev Agree : Redo → Redo → ℕ → Type 0
Agree f g n =
    (c : Command) (i : Option (List Line)) (w : World) → length w.undo < n → f c i w ≡ g c i w

module _ (sys : System) (f g : Redo) where
  undo_with-Agree :
      (u : Undo) (id : CommandId) (w : World)
      → Agree f g (suc (length w.undo))
      → undo_with sys f u id w ≡ undo_with sys g u id w
  unfolding undo_with
  undo_with-Agree u CommandId.undo_move w h = refl
  undo_with-Agree u CommandId.undo_subst w h = refl
  undo_with-Agree u _ w h = on u.text
    where
      on :
          (t : UndoText)
          → (undo_lines t >>= λ text. f u.cmd text >>= λ r v. done r.error v) w
            ≡ (undo_lines t >>= λ text. g u.cmd text >>= λ r v. done r.error v) w
      on no_text = rw (h u.cmd none w (omega arith), ◌>>=◌)
      on (lines ls) = rw (h u.cmd (some ls) w (omega arith), ◌>>=◌)
      on (changes cs) = refl

  undo_top-Agree :
      (us : List Undo) (w : World)
      → Agree f g (length us)
      → undo_top sys f us w ≡ undo_top sys g us w
  unfolding undo_top
  undo_top-Agree [] w h = refl
  undo_top-Agree (u ∷ us) w h = rw (
    undo_with-Agree u u.cmd.cmd
        (record w { state = record w.state { undo = us; processing_undo = true } }) h,
    ◌>>=◌,
    ◌>>◌,
  )

  run-Agree :
      (pending : Option Error) (cmd : Command) (input : Option (List Line)) (id : CommandId)
      (w : World)
      → undo_top sys f w.undo w ≡ undo_top sys g w.undo w
      → run sys f pending cmd input id w ≡ run sys g pending cmd input id w
  unfolding run
  run-Agree pending cmd input CommandId.undo w h = h
  run-Agree pending cmd input _ w h = refl

  run_resolved-Agree :
      (pending : Option Error) (input : Option (List Line)) (c : Result Command) (w : World)
      → undo_top sys f w.undo w ≡ undo_top sys g w.undo w
      → run_resolved sys f pending input c w ≡ run_resolved sys g pending input c w
  unfolding run_resolved
  run_resolved-Agree pending input (ok c) w h = run-Agree pending c input c.cmd w h
  run_resolved-Agree pending input (err e) w h = refl
  run_resolved-Agree pending input panic w h = refl

  process_checked-Agree :
      (o : Result Bool) (cmd : Command) (input : Option (List Line)) (w : World)
      → undo_top sys f w.undo w ≡ undo_top sys g w.undo w
      → process_checked sys f o cmd input w ≡ process_checked sys g o cmd input w
  unfolding process_checked resolve_and_run
  process_checked-Agree (ok b) cmd input w h = run_resolved-Agree _ input _ w h
  process_checked-Agree (err e) cmd input w h = refl
  process_checked-Agree panic cmd input w h = refl

  -- Two ways to process the commands of an undo give the same run of a command, if they undo alike.
  pub process_with-Agree :
      (cmd : Command) (input : Option (List Line)) (in_global : Bool) (w : World)
      → undo_top sys f w.undo w ≡ undo_top sys g w.undo w
      → process_with sys f cmd input in_global w ≡ process_with sys g cmd input in_global w
  unfolding process_with
  process_with-Agree cmd input in_global w h =
      elim (Bool-cases (in_global && forbidden_in_global cmd.cmd)) [
        | inl e ↦ rw e
        | inr e ↦ rw e (process_checked-Agree _ cmd input w h)
      ]

-- Any two bounds on the depth of nested undos that are at least the number of stored undos give the same
-- run of a command, so the nesting ends by itself.
pub process_fuel :
    (sys : System) (f g : ℕ) (cmd : Command) (input : Option (List Line)) (in_global : Bool)
    (w : World)
    → length w.undo ≤ f
    → length w.undo ≤ g
    → process sys f cmd input in_global w ≡ process sys g cmd input in_global w
unfolding process
process_fuel sys zero zero cmd input in_global w h k = refl
process_fuel sys zero (suc g) cmd input in_global w h k =
    let next : Redo = λ c i. process sys g c i false in
    process_with-Agree sys (λ _ _. give_up) next cmd input in_global w
      (undo_top-Agree sys (λ _ _. give_up) next w.undo w (λ c i u l. absurd (omega arith)))
process_fuel sys (suc f) zero cmd input in_global w h k =
    let next : Redo = λ c i. process sys f c i false in
    process_with-Agree sys next (λ _ _. give_up) cmd input in_global w
      (undo_top-Agree sys next (λ _ _. give_up) w.undo w (λ c i u l. absurd (omega arith)))
process_fuel sys (suc f) (suc g) cmd input in_global w h k =
    let one : Redo = λ c i. process sys f c i false in
    let two : Redo = λ c i. process sys g c i false in
    process_with-Agree sys one two cmd input in_global w (
      undo_top-Agree sys one two w.undo w
        (λ c i u l. process_fuel sys f g c i false u (omega arith) (omega arith)))
