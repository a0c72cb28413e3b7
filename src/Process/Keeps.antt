-- ===== src/Process/Keeps.antt =====
-- Processing a command keeps the invariant.
use go_red.Base.{
  ℕ, zero, suc, ◌-◌, ◌<◌, ◌≤◌, arith, Bool, true, false, ◌&&◌, Option, none, some, List, [], ◌∷◌,
  length, ◌==◌, if◌then◌else◌,
}
use go_red.Buffer.{Line}
use go_red.Command.Ident.{CommandId}
use go_red.Command.{Command}
use go_red.Edit.Keeps.{append_insert-Keeps, delete-Keeps, change-Keeps, join-Keeps}
use go_red.Edit.{change}
use go_red.Exec.Keeps.{Holds, Keeps, Holds-bind, Keeps-bind, Holds-if, Keeps-if, Keeps-lift}
use go_red.Exec.{give_up, Run, done, failed, panicked, unfinished, Exec, abort, pure, ◌>>=◌}
use go_red.Files.Keeps.{edit-Keeps, read-Keeps, write-Keeps}
use go_red.Files.{write}
use go_red.Help.Keeps.{help-Keeps}
use go_red.Invariant.{Inv, AllStored}
use go_red.Lines.Keeps.{append_lines-Keeps, delete_lines-Keeps}
use go_red.Lines.{delete_lines}
use go_red.Process.{
  System, Reply, caught, catch, report, not_yet, not_in_switch, undo_lines, is_change, undo_changes,
  handle_undo_subst, lines_of, append_before, resolve_start, handle_undo_move, undo_with, undo_top,
  undo_last, run, run_resolved, resolve_and_run, resolve_with, process_checked, process_with,
  process, process_command, forbidden_in_global,
}
use go_red.Result.{Error, Result, ok, err, panic}
use go_red.Show.Keeps.{print_command-Keeps, scroll-Keeps, linenumber-Keeps, mark_command-Keeps}
use go_red.State.{World, Change, Undo, UndoText, no_text, lines, changes}
use go_red.Subst.Keeps.{cmd_substitute-Keeps, cmd_global-Keeps}
use go_red.Transfer.Keeps.{move-Keeps, transfer-Keeps, put-Keeps, yank-Keeps}

module _ (k : ℕ) where
  caught-Inv : (r : Run (Unit {0})) → Holds (Inv k) r → Holds (Inv k) (caught r)
  unfolding caught
  caught-Inv (done t w) h = h
  caught-Inv (failed e w) h = h
  caught-Inv panicked h = tt
  caught-Inv unfinished h = h

  pub catch-Keeps : (m : Exec (Unit {0})) → Keeps (Inv k) m → Keeps (Inv k) (catch m)
  unfolding catch
  catch-Keeps m h w i = caught-Inv (m w) (h w i)

  report-Keeps : (m : Exec (Unit {0})) → Keeps (Inv k) m → Keeps (Inv k) (report m)
  unfolding report
  report-Keeps m h = Keeps-bind (Inv k) (catch m) _ (catch-Keeps m h) (λ e w i. i)

  undo_lines-Keeps : (t : UndoText) → Keeps (Inv k) (undo_lines t)
  unfolding undo_lines
  undo_lines-Keeps no_text w i = i
  undo_lines-Keeps (lines ls) w i = i
  undo_lines-Keeps (changes cs) w i = tt

  undo_changes-Keeps : (cs : List Change) → Keeps (Inv k) (undo_changes cs)
  unfolding undo_changes
  undo_changes-Keeps [] w i = i
  undo_changes-Keeps (c ∷ cs) w i =
      Holds-bind (Inv k)
        (if is_change c.cmd.cmd
          then (catch (change c.cmd (some c.text)) >>= λ e. pure tt)
          else abort)
        _ w
        (Keeps-if (Inv k) (is_change c.cmd.cmd) _ _
          (Keeps-bind (Inv k) (catch (change c.cmd (some c.text))) _
            (catch-Keeps _ (change-Keeps k c.cmd (some c.text))) (λ e v j. j))
          (λ v j. tt) w i)
        (λ t v j. undo_changes-Keeps cs v j)

  handle_undo_subst-Keeps : (t : UndoText) → Keeps (Inv k) (handle_undo_subst t)
  unfolding handle_undo_subst
  handle_undo_subst-Keeps no_text w i = tt
  handle_undo_subst-Keeps (lines []) w i = i
  handle_undo_subst-Keeps (lines (x ∷ xs)) w i = tt
  handle_undo_subst-Keeps (changes cs) w i = undo_changes-Keeps cs w i

  lines_of-Keeps : (t : UndoText) → Keeps (Inv k) (lines_of t)
  unfolding lines_of
  lines_of-Keeps (lines ls) w i = i
  lines_of-Keeps no_text w i = tt
  lines_of-Keeps (changes cs) w i = tt

  append_before-Keeps : (n : ℕ) (text : List Line) → Keeps (Inv k) (append_before n text)
  unfolding append_before
  append_before-Keeps n text =
      Keeps-if (Inv k) (n == 0) _ _ (Keeps-if (Inv k) (length text == 0) _ _ (λ w i. i) (λ w i. tt))
        (append_lines-Keeps k (n - 1) text)

module _ (k : ℕ) (sys : System) where
  resolve_start-Keeps : (c : Command) → Keeps (Inv k) (resolve_start sys c)
  resolve_start-Keeps c w i = Keeps-lift (Inv k) _ w i

  handle_undo_move-Keeps : (u : Undo) → Keeps (Inv k) (handle_undo_move sys u)
  unfolding handle_undo_move
  handle_undo_move-Keeps u =
      Keeps-bind (Inv k) (resolve_start sys u.cmd) _ (resolve_start-Keeps u.cmd) λ start.
        Keeps-bind (Inv k) (resolve_start sys u.cmd) _ (resolve_start-Keeps u.cmd) λ end.
          Keeps-bind (Inv k) (delete_lines start end) _ (delete_lines-Keeps k start end) λ removed.
            Keeps-bind (Inv k) (resolve_start sys u.original_cmd) _
              (resolve_start-Keeps u.original_cmd)
              λ original.
                Keeps-bind (Inv k) (lines_of u.text) _ (lines_of-Keeps k u.text)
                  λ text. append_before-Keeps k original text

  module _ (redo : Command → Option (List Line) → Exec Reply) (n : ℕ)
      (ih : (c : Command) (input : Option (List Line)) (w : World)
        → length w.undo < n
        → Inv k w
        → Holds (Inv k) (redo c input w)) where
    undo_with-Holds :
        (u : Undo) (id : CommandId) (w : World)
        → length w.undo < n
        → Inv k w
        → Holds (Inv k) (undo_with sys redo u id w)
    unfolding undo_with
    undo_with-Holds u CommandId.undo_move w l i = catch-Keeps k _ (handle_undo_move-Keeps u) w i
    undo_with-Holds u CommandId.undo_subst w l i =
        catch-Keeps k _ (handle_undo_subst-Keeps k u.text) w i
    undo_with-Holds u _ w l i = on u.text
      where
        on :
            (t : UndoText)
            → Holds (Inv k) ((undo_lines t >>= λ text. redo u.cmd text >>= λ r v. done r.error v) w)
        on no_text = Holds-bind (Inv k) (redo u.cmd none) _ w (ih u.cmd none w l i) (λ r v j. j)
        on (lines ls) =
            Holds-bind (Inv k) (redo u.cmd (some ls)) _ w (ih u.cmd (some ls) w l i) (λ r v j. j)
        on (changes cs) = tt

    undo_top-Inv :
        (us : List Undo) (w : World)
        → AllStored us
        → length us ≤ n
        → Inv k w
        → Holds (Inv k) (undo_top sys redo us w)
    unfolding undo_top
    undo_top-Inv [] w s l i = i
    undo_top-Inv (u ∷ us) w s l i =
        Holds-bind (Inv k) (undo_with sys redo u u.cmd.cmd) _ _
          (undo_with-Holds u u.cmd.cmd
            (record w { state = record w.state { undo = us; processing_undo = true } })
            (omega arith) (i.0, (s.1, i.1.1)))
          (λ e v j. j)

    run-Holds :
        (pending : Option Error) (cmd : Command) (input : Option (List Line)) (id : CommandId)
        (w : World)
        → length w.undo ≤ n
        → Inv k w
        → Holds (Inv k) (run sys redo pending cmd input id w)
    unfolding run undo_last not_yet not_in_switch
    run-Holds pending cmd input CommandId.append w l i =
        report-Keeps k _ (append_insert-Keeps k cmd input) w i
    run-Holds pending cmd input CommandId.insert w l i =
        report-Keeps k _ (append_insert-Keeps k cmd input) w i
    run-Holds pending cmd input CommandId.change w l i =
        report-Keeps k _ (change-Keeps k cmd input) w i
    run-Holds pending cmd input CommandId.delete w l i =
        report-Keeps k _ (delete-Keeps k cmd true) w i
    run-Holds pending cmd input CommandId.edit w l i =
        Holds-if (Inv k) w.changed_since_last_write _ _ w i
          (report-Keeps k _ (edit-Keeps k cmd) w i)
    run-Holds pending cmd input CommandId.edit_unconditionally w l i =
        report-Keeps k _ (edit-Keeps k cmd) w i
    run-Holds pending cmd input CommandId.filename w l i = i
    run-Holds pending cmd input CommandId.global w l i =
        report-Keeps k _ (cmd_global-Keeps k sys.regex cmd) w i
    run-Holds pending cmd input CommandId.global_interactive w l i = i
    run-Holds pending cmd input CommandId.help w l i = report-Keeps k _ (help-Keeps k cmd) w i
    run-Holds pending cmd input CommandId.inverse_global w l i = i
    run-Holds pending cmd input CommandId.inverse_global_interactive w l i = i
    run-Holds pending cmd input CommandId.join w l i = report-Keeps k _ (join-Keeps k cmd) w i
    run-Holds pending cmd input CommandId.mark w l i =
        report-Keeps k _ (mark_command-Keeps k cmd) w i
    run-Holds pending cmd input CommandId.print_list w l i = i
    run-Holds pending cmd input CommandId.move w l i =
        report-Keeps k _ (move-Keeps k sys.regex cmd) w i
    run-Holds pending cmd input CommandId.number w l i =
        report-Keeps k _ (print_command-Keeps k cmd) w i
    run-Holds pending cmd input CommandId.print w l i =
        report-Keeps k _ (print_command-Keeps k cmd) w i
    run-Holds pending cmd input CommandId.prompt w l i = i
    run-Holds pending cmd input CommandId.quit w l i =
        Holds-if (Inv k) w.changed_since_last_write _ _ w i i
    run-Holds pending cmd input CommandId.quit_unconditionally w l i = i
    run-Holds pending cmd input CommandId.read w l i = report-Keeps k _ (read-Keeps k cmd) w i
    run-Holds pending cmd input CommandId.substitute w l i =
        report-Keeps k _ (cmd_substitute-Keeps k sys.regex cmd) w i
    run-Holds pending cmd input CommandId.transfer w l i =
        report-Keeps k _ (transfer-Keeps k sys.regex cmd) w i
    run-Holds pending cmd input CommandId.undo w l i = undo_top-Inv w.undo w i.1.0 l i
    run-Holds pending cmd input CommandId.write w l i =
        Keeps-bind (Inv k) (catch (write sys.can_create cmd)) _
          (catch-Keeps k _ (write-Keeps k sys.can_create cmd)) (λ e v j. j) w i
    run-Holds pending cmd input CommandId.write_append w l i = i
    run-Holds pending cmd input CommandId.put w l i = report-Keeps k _ (put-Keeps k cmd) w i
    run-Holds pending cmd input CommandId.yank w l i = report-Keeps k _ (yank-Keeps k cmd) w i
    run-Holds pending cmd input CommandId.scroll w l i = report-Keeps k _ (scroll-Keeps k cmd) w i
    run-Holds pending cmd input CommandId.comment w l i = i
    run-Holds pending cmd input CommandId.linenumber w l i =
        report-Keeps k _ (linenumber-Keeps k cmd) w i
    run-Holds pending cmd input CommandId.no_command w l i = i
    run-Holds pending cmd input CommandId.undo_move w l i = i
    run-Holds pending cmd input CommandId.undo_subst w l i = i

    run_resolved-Holds :
        (pending : Option Error) (input : Option (List Line)) (c : Result Command) (w : World)
        → length w.undo ≤ n
        → Inv k w
        → Holds (Inv k) (run_resolved sys redo pending input c w)
    unfolding run_resolved
    run_resolved-Holds pending input (ok c) w l i = run-Holds pending c input c.cmd w l i
    run_resolved-Holds pending input (err e) w l i = i
    run_resolved-Holds pending input panic w l i = tt

    process_checked-Holds :
        (o : Result Bool) (cmd : Command) (input : Option (List Line)) (w : World)
        → length w.undo ≤ n
        → Inv k w
        → Holds (Inv k) (process_checked sys redo o cmd input w)
    unfolding process_checked resolve_and_run
    process_checked-Holds (ok b) cmd input w l i =
        run_resolved-Holds _ input (resolve_with sys cmd cmd.resolved w) w l i
    process_checked-Holds (err e) cmd input w l i = i
    process_checked-Holds panic cmd input w l i = tt

    process_with-Holds :
        (cmd : Command) (input : Option (List Line)) (in_global : Bool) (w : World)
        → length w.undo ≤ n
        → Inv k w
        → Holds (Inv k) (process_with sys redo cmd input in_global w)
    unfolding process_with
    process_with-Holds cmd input in_global w l i =
        Holds-if (Inv k) (in_global && forbidden_in_global cmd.cmd) _ _ w i
          (process_checked-Holds _ cmd input w l i)

  process-Holds :
      (depth : ℕ) (cmd : Command) (input : Option (List Line)) (in_global : Bool) (w : World)
      → length w.undo ≤ depth
      → Inv k w
      → Holds (Inv k) (process sys depth cmd input in_global w)
  unfolding process
  process-Holds zero cmd input in_global w l i =
      process_with-Holds (λ c j. give_up) zero (λ c j v b h. absurd (omega arith)) cmd input
        in_global w l i
  process-Holds (suc depth) cmd input in_global w l i =
      process_with-Holds (λ c j. process sys depth c j false) (suc depth)
        (λ c j v b h. process-Holds depth c j false v (omega arith) h) cmd input in_global w l i

-- From a world in which the current line is at most one behind the last line, the undo list holds only
-- unresolved commands of the six kinds that undo others, each with the text that it takes, and at most `k`
-- bytes of standard input are left, every command leaves such a world, whether it succeeds or fails, unless
-- it panics; it never comes to the bound on nested undos.
pub process_command-Inv :
    (k : ℕ) (sys : System) (cmd : Command) (input : Option (List Line)) (in_global : Bool)
    (w : World)
    → Inv k w
    → Holds (Inv k) (process_command sys cmd input in_global w)
unfolding process_command
process_command-Inv k sys cmd input in_global w i =
    process-Holds k sys (length w.undo) cmd input in_global w (omega arith) i
