-- ===== src/Process/Depth.antt =====
-- No stored command is an undo, so undos do not nest.
use go_red.Base.{
  ℕ, zero, suc, ◌≡◌, ◌≢◌, refl, ◌∙◌, arith, Bool, true, false, ◌&&◌, Option, none, some, List, [],
  ◌∷◌, length, Bool-cases, inl, inr,
}
use go_red.Buffer.{Line}
use go_red.Command.Ident.{CommandId}
use go_red.Command.{Command}
use go_red.Exec.{give_up, done, ◌>>=◌, ◌>>◌}
use go_red.Invariant.{Undoes, AllStored}
use go_red.Process.Fuel.{Redo, process_with-Agree, process_fuel}
use go_red.Process.{
  System, process_with, process_checked, resolve_and_run, resolve_with, run_resolved, run, undo_top,
  undo_with, undo_lines, process, process_command, forbidden_in_global,
}
use go_red.Range.{LineRange, calculate_start_and_end_line_numbers}
use go_red.Result.{Error, Result, ok, err, panic}
use go_red.State.{World, Undo, UndoText, no_text, lines, changes}

Undoes-not_undo : (id : CommandId) (t : UndoText) → Undoes id t → id ≢ CommandId.undo
Undoes-not_undo CommandId.undo t h = absurd h
Undoes-not_undo _ t h = λ e. cc

module _ (sys : System) (f g : Redo) where
  run-same :
      (pending : Option Error) (cmd : Command) (input : Option (List Line)) (id : CommandId)
      (w : World)
      → id ≢ CommandId.undo
      → run sys f pending cmd input id w ≡ run sys g pending cmd input id w
  unfolding run
  run-same pending cmd input CommandId.undo w h = absurd (h refl)
  run-same pending cmd input _ w h = refl

  resolved-same :
      (cmd : Command) (input : Option (List Line)) (w : World) (pending : Option Error)
      (r : Result LineRange)
      → cmd.cmd ≢ CommandId.undo
      → run_resolved sys f pending input
          (elim r [ ok x ↦ ok (record cmd { resolved = some x }) | err e ↦ err e | panic ↦ panic ])
          w
        ≡ run_resolved sys g pending input
            (elim r [
              | ok x ↦ ok (record cmd { resolved = some x })
              | err e ↦ err e
              | panic ↦ panic
            ])
            w
  unfolding run_resolved
  resolved-same cmd input w pending (ok x) h = run-same pending _ input cmd.cmd w h
  resolved-same cmd input w pending (err e) h = refl
  resolved-same cmd input w pending panic h = refl

  run_resolved-same :
      (cmd : Command) (input : Option (List Line)) (w : World) (pending : Option Error)
      (o : Option LineRange)
      → cmd.cmd ≢ CommandId.undo
      → run_resolved sys f pending input (resolve_with sys cmd o w) w
        ≡ run_resolved sys g pending input (resolve_with sys cmd o w) w
  unfolding resolve_with run_resolved
  run_resolved-same cmd input w pending (some r) h = run-same pending cmd input cmd.cmd w h
  run_resolved-same cmd input w pending none h =
      resolved-same cmd input w pending
        (calculate_start_and_end_line_numbers sys.regex w.buffer w.marks w.line_nbr cmd.addr_range)
        h

  checked-same :
      (o : Result Bool) (cmd : Command) (input : Option (List Line)) (w : World)
      → cmd.cmd ≢ CommandId.undo
      → process_checked sys f o cmd input w ≡ process_checked sys g o cmd input w
  unfolding process_checked resolve_and_run
  checked-same (ok b) cmd input w h = run_resolved-same cmd input w _ cmd.resolved h
  checked-same (err e) cmd input w h = refl
  checked-same panic cmd input w h = refl

  process_with-same :
      (cmd : Command) (input : Option (List Line)) (in_global : Bool) (w : World)
      → cmd.cmd ≢ CommandId.undo
      → process_with sys f cmd input in_global w ≡ process_with sys g cmd input in_global w
  unfolding process_with
  process_with-same cmd input in_global w h =
      elim (Bool-cases (in_global && forbidden_in_global cmd.cmd)) [
        | inl e ↦ rw e
        | inr e ↦ rw e (checked-same _ cmd input w h)
      ]

-- Commands other than undo are processed alike at every depth.
process-same :
    (sys : System) (m n : ℕ) (cmd : Command) (input : Option (List Line)) (w : World)
    → cmd.cmd ≢ CommandId.undo
    → process sys m cmd input false w ≡ process sys n cmd input false w
unfolding process
process-same sys zero zero cmd input w h = refl
process-same sys zero (suc n) cmd input w h =
    process_with-same sys (λ c i. give_up) (λ c i. process sys n c i false) cmd input false w h
process-same sys (suc m) zero cmd input w h =
    process_with-same sys (λ c i. process sys m c i false) (λ c i. give_up) cmd input false w h
process-same sys (suc m) (suc n) cmd input w h =
    process_with-same sys (λ c i. process sys m c i false) (λ c i. process sys n c i false) cmd
      input false w h

abbrev at_depth : System → ℕ → Redo
at_depth sys d c i = process sys d c i false

module _ (sys : System) (m n : ℕ) where
  undo_with-stored :
      (u : Undo) (id : CommandId) (w : World)
      → u.cmd.cmd ≢ CommandId.undo
      → undo_with sys (at_depth sys m) u id w ≡ undo_with sys (at_depth sys n) u id w
  unfolding undo_with
  undo_with-stored u CommandId.undo_move w h = refl
  undo_with-stored u CommandId.undo_subst w h = refl
  undo_with-stored u _ w h = on u.text
    where
      on :
          (t : UndoText)
          → (undo_lines t >>= λ text. at_depth sys m u.cmd text >>= λ r v. done r.error v) w
            ≡ (undo_lines t >>= λ text. at_depth sys n u.cmd text >>= λ r v. done r.error v) w
      on no_text = rw (process-same sys m n u.cmd none w h, ◌>>=◌)
      on (lines ls) = rw (process-same sys m n u.cmd (some ls) w h, ◌>>=◌)
      on (changes cs) = refl

  undo_top-stored :
      (us : List Undo) (w : World)
      → AllStored us
      → undo_top sys (at_depth sys m) us w ≡ undo_top sys (at_depth sys n) us w
  unfolding undo_top
  undo_top-stored [] w h = refl
  undo_top-stored (u ∷ us) w h = rw (
    undo_with-stored u u.cmd.cmd
        (record w { state = record w.state { undo = us; processing_undo = true } })
        (Undoes-not_undo u.cmd.cmd u.text h.0.1),
    ◌>>=◌,
    ◌>>◌,
  )

-- Where the undo list holds only commands that undo others, each with the text that it takes, undos do not nest:
-- a command runs as it does with undos allowed at one level.
pub process_command-one :
    (sys : System) (cmd : Command) (input : Option (List Line)) (in_global : Bool) (w : World)
    → AllStored w.undo
    → process_command sys cmd input in_global w ≡ process sys 1 cmd input in_global w
unfolding process_command process
process_command-one sys cmd input in_global w h =
    process_fuel sys (length w.undo) (suc (length w.undo)) cmd input in_global w (omega arith)
      (omega arith)
    ∙ process_with-Agree sys (at_depth sys (length w.undo)) (at_depth sys 0) cmd input in_global w
        (undo_top-stored sys (length w.undo) 0 w.undo w h)
