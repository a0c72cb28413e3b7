-- ===== src/Transfer/Copying.antt =====
-- What `Transfer`, `Put` and `Yank` do.
use go_red.Base.{
  ℕ, ◌+◌, ◌-◌, ◌<◌, ◌≤◌, ◌≡◌, ◌∙◌, arith, true, false, some, List, ltb, ◌==◌, ==_iff, if◌then◌else◌,
  pos, length, Bool-cases, inl, inr,
}
use go_red.Address.{is_not_specified}
use go_red.Buffer.{Line}
use go_red.Command.Ident
use go_red.Command.{Command}
use go_red.Edit.Delete.{length-segment}
use go_red.Exec.{done, panicked, ◌>>=◌, ◌>>◌, with_range-some}
use go_red.Lines.Append.{
  append_lines_lem, appended, at_world, move_to_line_lem, move_to_line_outside,
}
use go_red.Lines.Cut.{segment, copy_lines_lem}
use go_red.Lines.{move_to_line}
use go_red.Range.{line_range, get_address_range}
use go_red.Regex.{Engine}
use go_red.Result.{ok}
use go_red.State.{set_changed, World, no_text, add_undo}
use go_red.Transfer.{destination, transfer_lines, transfer, put, put_lines, yank, yank_lines}

-- The world with `new` after line `at`, and the undo that deletes it.
abbrev pub copied_world : Command → ℕ → List Line → World → World
copied_world cmd at new w =
    let v = appended at new w in
    record v {
      state =
          add_undo (pos (at + 1)) (pos (at + length new)) Ident.delete no_text cmd
            (set_changed v.state);
    }

-- Copying lines of the buffer behind line `dest` of it, or to its front, leaves all the lines in their
-- order, puts the copies in their order behind line `dest`, and makes the last copy the current line;
-- the undo is a delete of the copies.
pub transfer_lem :
    (re : Engine) (cmd : Command) (start end dest : ℕ) (w : World)
    → get_address_range re w.buffer w.marks w.line_nbr cmd.addr_range ≡ ok (line_range start end)
    → destination re false cmd.rest_of_cmd w ≡ done dest w
    → 0 < start
    → start ≤ end
    → end ≤ length w.buffer
    → dest ≤ length w.buffer
    → transfer re cmd w ≡ done tt (copied_world cmd dest (segment start end w.buffer) w)
unfolding transfer transfer_lines
transfer_lem re cmd start end dest w e t p q r d =
    let within : ltb (length w.buffer) dest ≡ false = ground arith in
    rw (e, ◌>>=◌)
      (rw (t, ◌>>=◌)
        (rw within (
          rw (copy_lines_lem start end w p q r, ◌>>=◌, ◌>>◌)
            (rw (
              append_lines_lem dest (segment start end w.buffer)
                  (at_world start (some (start - 1)) w) d
                  (omega (arith, length-segment start end w.buffer p q r)),
              ◌>>=◌,
              ◌>>◌,
            )))))

-- Putting a cut buffer that is not empty, at one address that is given and stands for a line of the
-- buffer, inserts it behind that line as it is, and the undo is a delete of the lines inserted.
pub put_lem :
    (cmd : Command) (start : ℕ) (w : World)
    → cmd.resolved ≡ some (line_range start start)
    → is_not_specified cmd.addr_range.start ≡ ok false
    → 0 < start
    → start ≤ length w.buffer
    → 0 < length w.cut_buffer
    → put cmd w ≡ done tt (copied_world cmd start w.cut_buffer w)
unfolding put put_lines
put_lem cmd start w e t p r c =
    let not_zero : (start == 0) ≡ false = ground arith in
    let same : (start == start) ≡ true = ground arith in
    let some_cut : (length w.cut_buffer == 0) ≡ false = ground arith in
    with_range-some cmd.resolved _ w e
    ∙ rw (not_zero, same)
        (rw (t, ◌>>=◌) (rw some_cut (rw (append_lines_lem start w.cut_buffer w r c, ◌>>=◌, ◌>>◌))))

move_back :
    (n : ℕ) (w : World)
    → n ≤ length w.buffer
    → move_to_line n w ≡ (if n == 0 then panicked else done tt (at_world n (some (n - 1)) w))
move_back n w h = elim (Bool-cases (n == 0)) [
  | inl z ↦ rw z (move_to_line_outside n w (inl ((==_iff n 0).0 z)))
  | inr z ↦ rw z (move_to_line_lem n w (ground arith) h)
]

-- Yanking lines of the buffer copies them to the cut buffer and changes neither the buffer nor the
-- current line, where that is a line of the buffer; where it is 0, yanking panics.
pub yank_lem :
    (cmd : Command) (start end : ℕ) (w : World)
    → cmd.resolved ≡ some (line_range start end)
    → 0 < start
    → start ≤ end
    → end ≤ length w.buffer
    → w.line_nbr ≤ length w.buffer
    → yank cmd w ≡ (
        if w.line_nbr == 0
        then panicked
        else done tt (record w {
          state = record w.state {
            cut_buffer = segment start end w.buffer;
            dotline = some (w.line_nbr - 1);
          };
        }))
unfolding yank yank_lines
yank_lem cmd start end w e p q r l =
    let not_zero : (start == 0) ≡ false = ground arith in
    with_range-some cmd.resolved _ w e
    ∙ rw not_zero (rw (copy_lines_lem start end w p q r, ◌>>=◌, ◌>>◌) (move_back w.line_nbr _ l))
