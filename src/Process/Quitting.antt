-- ===== src/Process/Quitting.antt =====
-- The commands `q` and `Q`.
use go_red.Base.{ℕ, zero, suc, ◌≡◌, refl, Bool, true, false, none, [], ◌∷◌, length}
use go_red.Command.Ident
use go_red.Command.Ident.{CommandId}
use go_red.Command.{Command}
use go_red.Exec.{give_up, done, Run}
use go_red.Process.{System, Reply, reply, Redo, process, process_with, process_command}
use go_red.Range.Bounds.{unspecified_range}
use go_red.Range.{is_specified, calculate_start_and_end_line_numbers}
use go_red.State.{World}
use go_red.Text.{codes}

abbrev pub quitting : CommandId → Command
quitting id = record { addr_range = unspecified_range; resolved = none; cmd = id; rest_of_cmd = [] }

-- The world in which the warning has been printed.
abbrev pub warned : World → World
warned w = record w { out = codes "buffer has unsaved changes\n" ∷ w.out }

-- What `q` does, as a buffer has unsaved changes or not.
abbrev pub quit_or_warn : Bool → World → Run Reply
quit_or_warn true w = done (reply false none) (warned w)
quit_or_warn false w = done (reply true none) w

module _ (sys : System) (w : World) where
  process_with-quit :
      (redo : Redo sys)
      → (b : Bool) → w.changed_since_last_write ≡ b
      → process_with sys redo (quitting Ident.quit) none false w ≡ quit_or_warn b w
  unfolding process_with is_specified calculate_start_and_end_line_numbers
  process_with-quit redo true e = rw e refl
  process_with-quit redo false e = rw e refl

  process_with-quit_unconditionally :
      (redo : Redo sys)
      → process_with sys redo (quitting Ident.quit_unconditionally) none false w
        ≡ done (reply true none) w
  unfolding process_with is_specified calculate_start_and_end_line_numbers
  process_with-quit_unconditionally redo = refl

  process-quit :
      (depth : ℕ)
      → process sys depth (quitting Ident.quit) none false w
        ≡ quit_or_warn w.changed_since_last_write w
  unfolding process
  process-quit zero = process_with-quit (λ c i. give_up) _ refl
  process-quit (suc depth) = process_with-quit (λ c i. process sys depth c i false) _ refl

  process-quit_unconditionally :
      (depth : ℕ)
      → process sys depth (quitting Ident.quit_unconditionally) none false w
        ≡ done (reply true none) w
  unfolding process
  process-quit_unconditionally zero = process_with-quit_unconditionally (λ c i. give_up)
  process-quit_unconditionally (suc depth) =
      process_with-quit_unconditionally (λ c i. process sys depth c i false)

  pub process_command-quit :
      process_command sys (quitting Ident.quit) none false w
      ≡ quit_or_warn w.changed_since_last_write w
  unfolding process_command
  process_command-quit = process-quit (length w.undo)

  pub process_command-quit_unconditionally :
      process_command sys (quitting Ident.quit_unconditionally) none false w
      ≡ done (reply true none) w
  unfolding process_command
  process_command-quit_unconditionally = process-quit_unconditionally (length w.undo)
