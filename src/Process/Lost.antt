-- ===== src/Process/Lost.antt =====
-- A move of the last line, which its undo loses.
use go_red.Base.{
  ℕ, ◌+◌, ◌-◌, ◌<◌, ◌≤◌, ◌≡◌, refl, ◌∙◌, ap, arith, true, false, none, some, List, ◌∷◌, length, pos,
  int_limit, inl,
}
use go_red.Address.Bounds.{calculate-new_absolute_address, calculate-new_absolute_address_outside}
use go_red.Address.{new_absolute_address}
use go_red.Buffer.{Line}
use go_red.Command.{Command}
use go_red.Exec.{done, failed, ◌>>=◌, ◌>>◌}
use go_red.Lines.Append.{spliced}
use go_red.Lines.Cut.{cut_world, delete_lines_lem, segment, without}
use go_red.Process.Moved.{
  move_undo, moved-undo, length-lines_moved, length-left, length-moved, place-le,
}
use go_red.Process.Undoing.{without-spliced, plain_undo, popped, restored, undo_entry}
use go_red.Process.{
  System, reply, process, process_command, undo_top, undo_with, handle_undo_move, catch, caught,
}
use go_red.Range.{line_range}
use go_red.Result.{Error, invalid_line_max}
use go_red.State.{World, Undo}
use go_red.Transfer.Moving.{moved_world, moved_world-fields, move-moved_world}
use go_red.Transfer.{adjusted, destination, move}

module _ (sys : System) (original : Command) (n b s : ℕ) (text : List Line) where
  handle_undo_move_lost :
      (w : World)
      → original.addr_range.start ≡ new_absolute_address (pos s)
      → 0 < n
      → n ≤ length w.buffer
      → n < int_limit
      → length (without n n w.buffer) < s
      → s < int_limit
      → handle_undo_move sys (move_undo sys original n b s text) w
        ≡ failed (invalid_line_max (pos s) (length (without n n w.buffer))) (cut_world n n w)
  unfolding handle_undo_move
  handle_undo_move_lost w o p l i q k =
      let place = calculate-new_absolute_address sys.regex w.buffer w.marks w.line_nbr n i l in
      rw (place, ◌>>=◌)
        (rw (place, ◌>>=◌)
          (rw (delete_lines_lem n n w p (omega arith) l, ◌>>=◌)
            (rw (
              o,
              calculate-new_absolute_address_outside sys.regex (without n n w.buffer) w.marks n s k
                  q,
              ◌>>=◌,
            ))))

  undo_top-failed :
      (depth : ℕ) (us : List Undo) (v x : World) (e : Error)
      → handle_undo_move sys (move_undo sys original n b s text) (popped sys us v) ≡ failed e x
      → undo_top sys (λ c j. process sys depth c j false) (move_undo sys original n b s text ∷ us) v
        ≡ done (reply false (some e)) (restored sys x)
  unfolding undo_top undo_with catch caught
  undo_top-failed depth us v x e h = rw (h, ◌>>=◌, ◌>>◌) refl

  undo_failed :
      (us : List Undo) (v x : World) (e : Error)
      → v.undo ≡ move_undo sys original n b s text ∷ us
      → handle_undo_move sys (move_undo sys original n b s text) (popped sys us v) ≡ failed e x
      → process_command sys plain_undo none false v ≡ done (reply false (some e)) (restored sys x)
  undo_failed us v x e t h =
      undo_entry sys (move_undo sys original n b s text) us v _ t
        (λ depth. undo_top-failed depth us v x e h)

module _ (sys : System) (cmd : Command) (dest : ℕ) (w : World) where
  -- The last line, and the world in which it has been moved.
  abbrev last : ℕ
  last = length w.buffer

  -- Moving the last line up succeeds where line numbers fit an `int` and no undo is being processed. The command `u`
  -- after it gives an error and does not put the line back: the others are left.
  pub move-undo_lost :
      cmd.resolved ≡ some (line_range last last)
      → cmd.addr_range.start ≡ new_absolute_address (pos last)
      → destination sys.regex true cmd.rest_of_cmd w ≡ done dest w
      → dest < last
      → last < int_limit
      → w.processing_undo ≡ false
      → (v : World) × (move sys.regex cmd w ≡ done tt v)
        × (x : World) × (process_command sys plain_undo none false v
            ≡ done (reply false (some (invalid_line_max (pos last) (last - 1)))) x)
        × (x.buffer ≡ without last last w.buffer)
  move-undo_lost r o t d i u =
      let p : 0 < last = omega arith in
      let at = adjusted last last dest in
      let line = segment last last w.buffer in
      let v = moved_world cmd last last dest w in
      let one =
        length-lines_moved sys cmd last last dest w r o t p (omega arith) (omega arith)
          (omega arith) (inl d) i u in
      let left =
        length-left sys cmd last last dest w r o t p (omega arith) (omega arith) (omega arith)
          (inl d) i u in
      let whole =
        length-moved sys cmd last last dest w r o t p (omega arith) (omega arith) (omega arith)
          (inl d) i u in
      let fits =
        place-le sys cmd last last dest w r o t p (omega arith) (omega arith) (omega arith) (inl d)
          i u in
      let end : at + 1 ≡ at + length line = omega (arith, one) in
      let above : at ≡ dest = ground arith in
      let lost : handle_undo_move sys (move_undo sys cmd (at + 1) (at + length line) last line)
            (popped sys w.undo v)
          ≡ failed (invalid_line_max (pos last) (last - 1))
              (cut_world (at + 1) (at + 1) (popped sys w.undo v)) =
        rw left at (
          handle_undo_move_lost sys cmd (at + 1) (at + length line) last line (popped sys w.undo v)
            o (omega arith) (omega (arith, above, whole)) (omega (arith, above))
            (omega (arith, left)) i) in
      (
        v,
        move-moved_world sys.regex cmd last last dest w r t p (omega arith) (omega arith)
            (omega arith) (inl d),
        restored sys (cut_world (at + 1) (at + 1) (popped sys w.undo v)),
        undo_failed sys cmd (at + 1) (at + length line) last line w.undo v _ _
            (moved-undo sys cmd last last dest w r o t p (omega arith) (omega arith) (omega arith)
              (inl d) i u)
            lost,
        ap (without (at + 1) (at + 1)) (moved_world-fields cmd last last dest w).0
            ∙ ap (λ k. without (at + 1) k (spliced at line (without last last w.buffer))) end
            ∙ without-spliced at line (without last last w.buffer) fits,
      )
