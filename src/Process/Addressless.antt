-- ===== src/Process/Addressless.antt =====
-- A deletion without an address.
use go_red.Base.{
  ℕ, zero, suc, ◌<◌, ◌≡◌, refl, arith, false, true, none, some, List, [], length, Option,
}
use go_red.Buffer.{Line}
use go_red.Command.Ident
use go_red.Command.{Command}
use go_red.Edit.Delete.{deleted_world, delete-deleted_world}
use go_red.Exec.{give_up, done, Exec, ◌>>=◌}
use go_red.Process.{
  System, Reply, reply, process_with, process_checked, resolve_and_run, resolve_with, run_resolved,
  run, report, catch, caught, forbidden_in_global, takes_no_range, process, process_command,
}
use go_red.Range.Bounds.{unspecified_range}
use go_red.Range.{line_range, is_specified, calculate_start_and_end_line_numbers}
use go_red.State.{World}

-- `d`, as it is parsed, and as it is resolved.
abbrev pub plain_delete : Command
plain_delete = record {
  addr_range = unspecified_range;
  resolved = none;
  cmd = Ident.delete;
  rest_of_cmd = [];
}

abbrev pub delete_line_1 : Command
delete_line_1 = record plain_delete { resolved = some (line_range 1 1) }

module _ (sys : System) (w : World) (h : 0 < length w.buffer) where
  process_with-plain_delete :
      (redo : Command → Option (List Line) → Exec Reply)
      → process_with sys redo plain_delete none false w
        ≡ done (reply false none) (deleted_world delete_line_1 1 1 true w)
  unfolding process_with process_checked forbidden_in_global takes_no_range resolve_and_run
      run_resolved resolve_with run report catch caught is_specified
      calculate_start_and_end_line_numbers
  process_with-plain_delete redo =
      rw
        (
          delete-deleted_world delete_line_1 1 1 true w refl (omega arith) (omega arith)
              (omega arith),
          ◌>>=◌,
        )
        refl

  process-plain_delete :
      (depth : ℕ)
      → process sys depth plain_delete none false w
        ≡ done (reply false none) (deleted_world delete_line_1 1 1 true w)
  unfolding process
  process-plain_delete zero = process_with-plain_delete (λ c j. give_up)
  process-plain_delete (suc depth) = process_with-plain_delete (λ c j. process sys depth c j false)

  pub process_command-plain_delete :
      process_command sys plain_delete none false w
      ≡ done (reply false none) (deleted_world delete_line_1 1 1 true w)
  unfolding process_command
  process_command-plain_delete = process-plain_delete (length w.undo)
