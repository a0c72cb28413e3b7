-- ===== src/Process/Moved.antt =====
-- A move, and then the undo of it.
use go_red.Base.{
  if◌then◌else◌, ltb, inl, inr, take, drop, ◌++◌, ℕ, ◌+◌, ◌-◌, ◌<◌, ◌≤◌, ◌≡◌, refl, ◌∙◌, ap, arith,
  true, false, none, some, List, ◌∷◌, ◌==◌, length, pos, int_limit, ◌⊎◌,
}
use go_red.Address.Bounds.{calculate-new_absolute_address}
use go_red.Address.{new_absolute_address}
use go_red.Buffer.{Line}
use go_red.Command.Ident
use go_red.Command.{Command}
use go_red.Edit.Delete.{length-segment}
use go_red.Exec.{done, ◌>>=◌, ◌>>◌}
use go_red.Lines.Append.{appended, append_lines_lem, spliced, length-spliced}
use go_red.Lines.Cut.{cut_world, delete_lines_lem, segment, without}
use go_red.Process.Reinserting.{spliced-segment}
use go_red.Process.Undoing.{without-spliced, plain_undo, popped, restored, undo_entry}
use go_red.Process.{
  System, reply, process, process_command, undo_top, undo_with, handle_undo_move, append_before,
  catch, caught, lines_of,
}
use go_red.Range.{line_range}
use go_red.Transfer.Moving.{moved_world, moved_world-fields, move-moved_world, length-without}
use go_red.Transfer.Relocated.{relocated, spliced-relocated}
use go_red.Transfer.{adjusted, destination, move}
use go_red.State.{World, Undo, lines, undo_command, add_undo}

module _ (sys : System) (original : Command) (n b s : ℕ) (text : List Line) where
  abbrev pub move_undo : Undo
  move_undo = undo_command (pos n) (pos b) Ident.undo_move (lines text) original

  -- The world when line `n` is out and the text is in again before line `s`.
  abbrev put_back : World → World
  put_back w = appended (s - 1) text (cut_world n n w)

  handle_undo_move_lem :
      (w : World)
      → original.addr_range.start ≡ new_absolute_address (pos s)
      → 0 < n
      → n ≤ length w.buffer
      → n < int_limit
      → 0 < s
      → s ≤ length (without n n w.buffer)
      → s < int_limit
      → 0 < length text
      → handle_undo_move sys move_undo w ≡ done tt (put_back w)
  unfolding handle_undo_move lines_of append_before
  handle_undo_move_lem w o p l i q k j t =
      let some_line : (s == 0) ≡ false = ground arith in
      let place = calculate-new_absolute_address sys.regex w.buffer w.marks w.line_nbr n i l in
      rw (place, ◌>>=◌)
        (rw (place, ◌>>=◌)
          (rw (delete_lines_lem n n w p (omega arith) l, ◌>>=◌)
            (rw
              (
                o,
                calculate-new_absolute_address sys.regex (without n n w.buffer) w.marks n s j k,
                ◌>>=◌,
              )
              (rw some_line (append_lines_lem (s - 1) text (cut_world n n w) (omega arith) t)))))

  undo_top-move :
      (depth : ℕ) (us : List Undo) (v : World)
      → handle_undo_move sys move_undo (popped sys us v) ≡ done tt (put_back (popped sys us v))
      → undo_top sys (λ c j. process sys depth c j false) (move_undo ∷ us) v
        ≡ done (reply false none) (restored sys (put_back (popped sys us v)))
  unfolding undo_top undo_with catch caught
  undo_top-move depth us v h = rw (h, ◌>>=◌, ◌>>◌) refl

  -- Where a move is on top of the undo list, `u` takes line `n` out and puts the text in.
  undo_moved :
      (us : List Undo) (v : World)
      → v.undo ≡ move_undo ∷ us
      → handle_undo_move sys move_undo (popped sys us v) ≡ done tt (put_back (popped sys us v))
      → process_command sys plain_undo none false v
        ≡ done (reply false none) (restored sys (put_back (popped sys us v)))
  undo_moved us v e h = undo_entry sys move_undo us v _ e (λ depth. undo_top-move depth us v h)

module _ (sys : System) (cmd : Command) (start end dest : ℕ) (w : World)
    (r : cmd.resolved ≡ some (line_range start end))
    (o : cmd.addr_range.start ≡ new_absolute_address (pos start))
    (t : destination sys.regex true cmd.rest_of_cmd w ≡ done dest w) (p : 0 < start)
    (q : start ≤ end) (l : end ≤ length w.buffer) (d : dest ≤ length w.buffer)
    (g : (dest < start) ⊎ (end ≤ dest)) (i : length w.buffer < int_limit)
    (u : w.processing_undo ≡ false) where
  abbrev pub moved : World
  moved = moved_world cmd start end dest w

  abbrev pub place : ℕ
  place = adjusted start end dest

  abbrev pub lines_moved : List Line
  lines_moved = segment start end w.buffer

  abbrev back : World
  back =
      put_back sys cmd (place + 1) (place + length lines_moved) start lines_moved
        (popped sys w.undo moved)

  pub moved-undo :
      moved.undo
      ≡ move_undo sys cmd (place + 1) (place + length lines_moved) start lines_moved ∷ w.undo
  unfolding add_undo
  moved-undo = rw u

  pub moved-buffer : moved.buffer ≡ spliced place lines_moved (without start end w.buffer)
  moved-buffer = (moved_world-fields cmd start end dest w).0

  pub length-lines_moved : length lines_moved ≡ end + 1 - start
  length-lines_moved = omega (arith, length-segment start end w.buffer p q (omega arith))

  length-between : length (without start end w.buffer) ≡ length w.buffer - (end + 1 - start)
  length-between = length-without start end w.buffer p q (omega arith)

  pub place-le : place ≤ length (without start end w.buffer)
  place-le = rw length-between (ground arith)

  pub length-moved : length moved.buffer ≡ length w.buffer
  length-moved = rw moved-buffer (
      omega (
        arith,
        length-spliced place lines_moved (without start end w.buffer) place-le,
        length-between,
        length-lines_moved,
      ))

  -- The moved lines but the first, and the others.
  pub length-left : length (without (place + 1) (place + 1) moved.buffer) ≡ length w.buffer - 1
  length-left = omega (
    arith,
    length-without (place + 1) (place + 1) moved.buffer,
    length-moved,
    place-le,
    length-between,
  )

  undo_move :
      end < length w.buffer
      → process_command sys plain_undo none false moved
        ≡ done (reply false none) (restored sys back)
  undo_move k =
      undo_moved sys cmd (place + 1) (place + length lines_moved) start lines_moved w.undo moved
        moved-undo
        (handle_undo_move_lem sys cmd (place + 1) (place + length lines_moved) start lines_moved
          (popped sys w.undo moved) o (omega arith)
          (omega (arith, length-moved, place-le, length-between))
          (omega (arith, place-le, length-between)) p (omega (arith, length-left)) (omega arith)
          (omega (arith, length-lines_moved)))

  -- The number of the first moved line.
  abbrev pub first_moved : ℕ
  first_moved = if ltb dest start then dest + 1 else dest + start - end

  first_moved-place : place + 1 ≡ first_moved
  first_moved-place = elim g [ inl h ↦ ground arith | inr h ↦ ground arith ]

  -- Moving lines other than the last of the buffer from where an absolute address says, to a line outside them, succeeds
  -- where line numbers fit an `int` and no undo is being processed. The command `u` after it succeeds too, but it takes
  -- out only the first of the moved lines and puts all of them back before the line number that they came from, so the
  -- buffer is longer than it was by the number of moved lines less one.
  pub move-undo_length :
      end < length w.buffer
      → (v : World) × (move sys.regex cmd w ≡ done tt v)
        × (v.buffer ≡ relocated start end dest w.buffer)
        × (x : World) × (process_command sys plain_undo none false v ≡ done (reply false none) x)
        × (x.buffer
            ≡ take (start - 1) (without first_moved first_moved v.buffer)
              ++ (take (end + 1 - start) (drop (start - 1) w.buffer)
                  ++ drop (start - 1) (without first_moved first_moved v.buffer)))
        × (length x.buffer ≡ length w.buffer + (end - start))
  move-undo_length k = (
    moved,
    move-moved_world sys.regex cmd start end dest w r t p q (omega arith) d g,
    moved-buffer ∙ spliced-relocated start end dest w.buffer p q (omega arith) d g,
    restored sys back,
    undo_move k,
    ap (λ n. spliced (start - 1) lines_moved (without n n moved.buffer)) first_moved-place,
    omega (
      arith,
      length-spliced (start - 1) lines_moved (without (place + 1) (place + 1) moved.buffer),
      length-left,
      length-lines_moved,
    ),
  )

module _ (sys : System) (cmd : Command) (start dest : ℕ) (w : World)
    (r : cmd.resolved ≡ some (line_range start start))
    (o : cmd.addr_range.start ≡ new_absolute_address (pos start))
    (t : destination sys.regex true cmd.rest_of_cmd w ≡ done dest w) (p : 0 < start)
    (d : dest ≤ length w.buffer) (i : length w.buffer < int_limit)
    (u : w.processing_undo ≡ false) where
  -- Moving one line other than the last of the buffer from where an absolute address says succeeds where line
  -- numbers fit an `int` and no undo is being processed, and the command `u` after it succeeds and
  -- gives the buffer back as it was.
  pub move-undo :
      start < length w.buffer
      → (dest < start) ⊎ (start ≤ dest)
      → (v : World) × (move sys.regex cmd w ≡ done tt v)
        × (x : World) × (process_command sys plain_undo none false v ≡ done (reply false none) x)
        × (x.buffer ≡ w.buffer)
  move-undo l g =
      let at = adjusted start start dest in
      let line = segment start start w.buffer in
      let one =
        length-lines_moved sys cmd start start dest w r o t p (omega arith) (omega arith) d g i u in
      let last : at + 1 ≡ at + length line = omega (arith, one) in
      (
        moved_world cmd start start dest w,
        move-moved_world sys.regex cmd start start dest w r t p (omega arith) (omega arith) d g,
        restored sys (
            put_back sys cmd (at + 1) (at + length line) start line
              (popped sys w.undo (moved_world cmd start start dest w))),
        undo_move sys cmd start start dest w r o t p (omega arith) (omega arith) d g i u l,
        ap (λ b. spliced (start - 1) line (without (at + 1) (at + 1) b))
              (moved_world-fields cmd start start dest w).0
            ∙ ap
                (λ k.
                  spliced (start - 1) line
                    (without (at + 1) k (spliced at line (without start start w.buffer))))
                last
            ∙ ap (spliced (start - 1) line) (
                without-spliced at line (without start start w.buffer)
                  (place-le sys cmd start start dest w r o t p (omega arith) (omega arith) d g i u))
            ∙ spliced-segment start start w.buffer p (omega arith) (omega arith),
      )
