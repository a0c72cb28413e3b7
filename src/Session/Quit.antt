-- ===== src/Session/Quit.antt =====
-- The commands that end a session, as they are typed.
use go_red.Base.{◌≡◌, refl, ◌∙◌, ap, Bool, true, false, none, [], if◌then◌else◌}
use go_red.Command.Ident
use go_red.Command.Ident.{CommandId}
use go_red.Command.Parse.Printed.{parse_command-letter}
use go_red.Command.Parse.{parse_command, letter}
use go_red.Command.{Command}
use go_red.Exec.{done, ◌>>=◌}
use go_red.Process.Quitting.{
  quitting, warned, quit_or_warn, process_command-quit, process_command-quit_unconditionally,
}
use go_red.Process.{System, reply, process_command}
use go_red.Result.{Result, ok}
use go_red.Session.{Terminal, obey, answer, report_error}
use go_red.State.{World}
use go_red.Text.{codes, trim_space, contains_byte}

module _ (sys : System) (term : Terminal) where
  -- A command that is processed without error.
  pub obey-reply :
      (r : Result Command) (cmd : Command) (quit : Bool) (w v : World)
      → r ≡ ok cmd
      → process_command sys cmd none false w ≡ done (reply quit none) v
      → obey sys term r w ≡ done quit v
  unfolding obey answer report_error
  obey-reply r cmd quit w v p e = rw (p, obey) (rw (e, ◌>>=◌))

module _ (sys : System) (term : Terminal) (w : World) where
  parse_command-quit : parse_command (codes "q") ≡ ok (quitting Ident.quit)
  unfolding trim_space contains_byte letter
  parse_command-quit = parse_command-letter b'q' Ident.quit [] refl refl

  parse_command-quit_unconditionally :
      parse_command (codes "Q") ≡ ok (quitting Ident.quit_unconditionally)
  unfolding trim_space contains_byte letter
  parse_command-quit_unconditionally =
      parse_command-letter b'Q' Ident.quit_unconditionally [] refl refl

  obey-quit_warned :
      (b : Bool)
      → w.changed_since_last_write ≡ b
      → obey sys term (parse_command (codes "q")) w
        ≡ (if b then done false (warned w) else done true w)
  obey-quit_warned true e =
      obey-reply sys term _ (quitting Ident.quit) false w (warned w) parse_command-quit
        (process_command-quit sys w ∙ ap (λ b. quit_or_warn b w) e)
  obey-quit_warned false e =
      obey-reply sys term _ (quitting Ident.quit) true w w parse_command-quit
        (process_command-quit sys w ∙ ap (λ b. quit_or_warn b w) e)

  -- Typing `Q` ends the session and leaves the world as it is. Typing `q` does the same where the buffer has not
  -- been changed since it was last written; where it has been, a warning is printed, nothing else
  -- changes, and the session goes on.
  pub obey-quit :
      (obey sys term (parse_command (codes "Q")) w ≡ done true w)
      × (obey sys term (parse_command (codes "q")) w
          ≡ (if w.changed_since_last_write then done false (warned w) else done true w))
  obey-quit = (
    obey-reply sys term _ (quitting Ident.quit_unconditionally) true w w
        parse_command-quit_unconditionally (process_command-quit_unconditionally sys w),
    obey-quit_warned _ refl,
  )
