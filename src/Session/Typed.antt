-- ===== src/Session/Typed.antt =====
-- A command as it is typed, from its text to the buffer.
use go_red.Base.{
  take, drop, ℕ, ◌<◌, ◌≤◌, ◌≡◌, refl, arith, false, true, none, [], ◌∷◌, ◌++◌, length, pos,
  int_limit,
}
use go_red.Command.Ident.{CommandId}
use go_red.Command.Parse.Printed.{
  parse_command-printed, parse_command-letter, letter-delete, letter-undo,
}
use go_red.Command.Parse.{parse_command}
use go_red.Command.{zero_command}
use go_red.Edit.Delete.{deleted_world}
use go_red.Edit.Deleted.{deleted-buffer, deleted-cut_buffer}
use go_red.Process.Addressless.{plain_delete, delete_line_1, process_command-plain_delete}
use go_red.Exec.{give_up, done}
use go_red.Lines.Cut.{without}
use go_red.Process.Reinserting.{undo_deleted}
use go_red.Process.Undoing.{
  plain_undo, redo_delete, resolved_delete, stored_delete, deleted_world-buffer,
}
use go_red.Process.{System, reply, process_command}
use go_red.Result.{ok}
use go_red.Session.Quit.{obey-reply}
use go_red.Session.{Terminal, obey}
use go_red.State.{World, no_text}
use go_red.Text.{contains_byte, trim_space, codes, itoa}

module _ (sys : System) (term : Terminal) where
  process_command-delete :
      (m n : ℕ) (w : World)
      → 0 < m
      → m ≤ n
      → n < int_limit
      → n ≤ length w.buffer
      → process_command sys (stored_delete m n no_text zero_command) none false w
        ≡ done
            (reply false none)
            (deleted_world (resolved_delete m n no_text zero_command) m n true w)
  unfolding process_command
  process_command-delete m n w p q i l =
      redo_delete sys (length w.undo) m n no_text zero_command none w p q i l

  parse_command-undo : parse_command (codes "u") ≡ ok plain_undo
  unfolding trim_space contains_byte
  parse_command-undo = parse_command-letter b'u' CommandId.undo [] letter-undo refl

  -- Typing two line numbers with a comma between them and `d` takes those lines out of the buffer, where they are
  -- lines of the buffer in order, not the last one, that fit an `int`, and no undo is being processed; typing `u` after that
  -- gives the buffer back as it was.
  pub obey-delete-undo :
      (m n : ℕ) (w : World)
      → 0 < m
      → m ≤ n
      → n < length w.buffer
      → n < int_limit
      → w.processing_undo ≡ false
      → (v : World) × (obey sys term
            (parse_command (itoa (pos m) ++ b',' ∷ (itoa (pos n) ++ b'd' ∷ [])))
            w
          ≡ done false v)
        × (v.buffer ≡ without m n w.buffer)
        × (x : World) × (obey sys term (parse_command (codes "u")) v ≡ done false x)
        × (x.buffer ≡ w.buffer)
  unfolding trim_space contains_byte
  obey-delete-undo m n w p q l i u =
      let cmd = resolved_delete m n no_text zero_command in
      let (x, e, b) = undo_deleted sys cmd m n w u p q l (omega arith) in
      (
        deleted_world cmd m n true w,
        obey-reply sys term _ (stored_delete m n no_text zero_command) false w _
            (parse_command-printed m n b'd' CommandId.delete [] letter-delete (omega arith) i refl)
            (process_command-delete m n w p q i (omega arith)),
        deleted_world-buffer sys (λ c j. give_up) cmd m n w,
        x,
        obey-reply sys term _ plain_undo false _ x parse_command-undo e,
        b,
      )

  parse_command-plain_delete : parse_command (codes "d") ≡ ok plain_delete
  unfolding trim_space contains_byte
  parse_command-plain_delete = parse_command-letter b'd' CommandId.delete [] letter-delete refl

  -- Typing `d` without an address takes the first line out of a buffer that is not empty, whichever line is the current
  -- one, and makes it the cut buffer.
  pub obey-delete_unspecified :
      (w : World)
      → 0 < length w.buffer
      → (v : World) × (obey sys term (parse_command (codes "d")) w ≡ done false v)
        × (v.buffer ≡ drop 1 w.buffer)
        × (v.cut_buffer ≡ take 1 w.buffer)
  obey-delete_unspecified w h = (
    deleted_world delete_line_1 1 1 true w,
    obey-reply sys term _ plain_delete false w _ parse_command-plain_delete
        (process_command-plain_delete sys w h),
    deleted-buffer delete_line_1 1 1 true w (omega arith) (omega arith) (omega arith),
    deleted-cut_buffer delete_line_1 1 1 true w (omega arith) (omega arith) (omega arith),
  )
