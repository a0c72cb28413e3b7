-- ===== src/Transfer/Moving.antt =====
-- What `Move` does: the lines keep their order among themselves, and so do the others.
use mathlib.Core.List.{Perm, append_assoc, perm_append_comm, perm-append_right_iff}
use mathlib.Core.Path.{subst}
use mathlib.Core.List.Perm
use go_red.Base.{
  ℕ, ◌+◌, ◌-◌, ◌<◌, ◌≤◌, ◌≡◌, ◌∙◌, ap, sym, ◌⊎◌, arith, true, false, ◌&&◌, some, List, ◌++◌, ltb,
  leb, ◌==◌, if◌then◌else◌, pos, length, length-append, length-take, length-drop, take, drop,
  take-append-drop,
}
use go_red.Buffer.{Line}
use go_red.Command.Ident
use go_red.Command.{Command}
use go_red.Edit.Delete.{length-segment}
use go_red.Exec.{done, failed, ◌>>=◌, ◌>>◌, with_range-some}
use go_red.Lines.Append.{append_lines_lem, appended, spliced}
use go_red.Lines.Cut.{segment, segment-parts, without, cut_world, delete_lines_lem}
use go_red.Mark.{update_marks}
use go_red.Range.{line_range}
use go_red.Regex.{Engine}
use go_red.Result.{destination_in_range}
use go_red.State.{set_changed, World, lines, add_undo}
use go_red.Transfer.Relocated.{relocated, last_moved, spliced-relocated, adjusted-last_moved}
use go_red.Transfer.{adjusted, destination, move_lines, move}

-- The world after a move of lines `start` to `end` behind line `dest` of the old buffer.
abbrev pub moved_world : Command → ℕ → ℕ → ℕ → World → World
moved_world cmd start end dest w =
    let u = cut_world start end w in
    let temp = segment start end w.buffer in
    let to = adjusted start end dest in
    let v = appended to temp (record u {
      state = record u.state { marks = update_marks Ident.move start end (pos dest) w.marks };
    }) in
    record v {
      state = set_changed (
          add_undo (pos (to + 1)) (pos (to + length temp)) Ident.undo_move (lines temp) cmd
            v.state);
    }

pub length-without :
    (start end : ℕ) (buffer : List Line)
    → 0 < start
    → start ≤ end
    → end ≤ length buffer
    → length (without start end buffer) ≡ length buffer - (end + 1 - start)
length-without start end buffer p q r = omega (
  arith,
  length-take (start - 1) buffer,
  length-drop end buffer,
  length-append (take (start - 1) buffer) (drop end buffer),
)

-- Lines put in at a place, and lines taken out and put in elsewhere, are the same lines.
swap_front : (a b c : List Line) → Perm (a ++ (b ++ c)) (b ++ (a ++ c))
swap_front a b c =
    rw (← append_assoc a b c, ← append_assoc b a c)
      ((perm-append_right_iff c).1 (perm_append_comm a b))

spliced-perm : (n : ℕ) (new buffer : List Line) → Perm (spliced n new buffer) (new ++ buffer)
spliced-perm n new buffer =
    subst (λ b. Perm (spliced n new buffer) (new ++ b)) (take-append-drop n buffer)
      (swap_front (take n buffer) new (drop n buffer))

segment-perm :
    (start end : ℕ) (buffer : List Line)
    → 0 < start
    → start ≤ end
    → Perm (segment start end buffer ++ without start end buffer) buffer
segment-perm start end buffer p q =
    subst (λ b. Perm (segment start end buffer ++ without start end buffer) b)
      (segment-parts start end buffer p q)
      (swap_front (segment start end buffer) (take (start - 1) buffer) (drop end buffer))

pub moved_world-fields :
    (cmd : Command) (start end dest : ℕ) (w : World)
    → ((moved_world cmd start end dest w).buffer
        ≡ spliced
            (adjusted start end dest)
            (segment start end w.buffer)
            (without start end w.buffer))
      × ((moved_world cmd start end dest w).line_nbr
          ≡ adjusted start end dest + length (segment start end w.buffer))
      × ((moved_world cmd start end dest w).marks
          ≡ update_marks Ident.move start end (pos dest) w.marks)
unfolding add_undo
moved_world-fields cmd start end dest w = (ground arith, ground arith, ground arith)

module _ (re : Engine) (cmd : Command) (start end dest : ℕ) (w : World) where
  move_lines_lem :
      0 < start
      → start ≤ end
      → end ≤ length w.buffer
      → dest ≤ length w.buffer
      → (dest < start) ⊎ (end ≤ dest)
      → move_lines re cmd start end dest w ≡ done tt (moved_world cmd start end dest w)
  unfolding move_lines
  move_lines_lem p q r d o =
      let some_cut : (length (segment start end w.buffer) == 0) ≡ false =
        ground (arith, length-segment start end w.buffer) in
      rw (delete_lines_lem start end w p q r, ◌>>=◌, ◌>>◌)
        (rw some_cut (
          rw (
            append_lines_lem (adjusted start end dest) (segment start end w.buffer) between fits
                (ground (arith, length-segment start end w.buffer)),
            ◌>>=◌,
            ◌>>◌,
            if◌then◌else◌,
          )))
    where
      between : World
      between = record (cut_world start end w) {
        state = record (cut_world start end w).state {
          marks = update_marks Ident.move start end (pos dest) w.marks;
        };
      }

      fits : adjusted start end dest ≤ length (without start end w.buffer)
      fits = ground (arith, length-without start end w.buffer p q r)

  pub move-moved_world :
      cmd.resolved ≡ some (line_range start end)
      → destination re true cmd.rest_of_cmd w ≡ done dest w
      → 0 < start
      → start ≤ end
      → end ≤ length w.buffer
      → dest ≤ length w.buffer
      → (dest < start) ⊎ (end ≤ dest)
      → move re cmd w ≡ done tt (moved_world cmd start end dest w)
  unfolding move
  move-moved_world e t p q r d o =
      let not_zero : (start == 0) ≡ false = ground arith in
      let within : ltb (length w.buffer) dest ≡ false = ground arith in
      let outside : (leb start dest && ltb dest end) ≡ false = ground arith in
      with_range-some cmd.resolved _ w e
      ∙ rw (t, ◌>>=◌) (rw (not_zero, within, outside) (move_lines_lem p q r d o))

  -- A move to a line outside the moved ones, or to their last line, puts them behind that line, in their
  -- order, with the other lines in theirs, so the buffer holds the lines that it held; the last moved
  -- line becomes the current one.
  pub move_lem :
      cmd.resolved ≡ some (line_range start end)
      → destination re true cmd.rest_of_cmd w ≡ done dest w
      → 0 < start
      → start ≤ end
      → end ≤ length w.buffer
      → dest ≤ length w.buffer
      → (dest < start) ⊎ (end ≤ dest)
      → (v : World) × (move re cmd w ≡ done tt v)
        × (v.buffer ≡ relocated start end dest w.buffer)
        × Perm v.buffer w.buffer
        × (v.line_nbr ≡ last_moved start end dest)
  move_lem e t p q r d o =
      let f = moved_world-fields cmd start end dest w in
      (
        moved_world cmd start end dest w,
        move-moved_world e t p q r d o,
        f.0 ∙ spliced-relocated start end dest w.buffer p q r d o,
        subst (λ b. Perm b w.buffer) (sym f.0)
            (Perm.trans (spliced-perm (adjusted start end dest) _ _)
              (segment-perm start end w.buffer p q)),
        f.1
            ∙ ap (λ k. adjusted start end dest + k) (length-segment start end w.buffer p q r)
            ∙ adjusted-last_moved start end dest w.buffer p q r d o,
      )

  -- A destination that is a line of the buffer among the moved lines, other than their last, is refused,
  -- if the moved lines do not start at line 0, and nothing changes.
  pub move_in_range :
      cmd.resolved ≡ some (line_range start end)
      → destination re true cmd.rest_of_cmd w ≡ done dest w
      → 0 < start
      → dest ≤ length w.buffer
      → start ≤ dest
      → dest < end
      → move re cmd w ≡ failed (destination_in_range dest start end) w
  unfolding move
  move_in_range e t p d l m =
      let not_zero : (start == 0) ≡ false = ground arith in
      let within : ltb (length w.buffer) dest ≡ false = ground arith in
      let inside : (leb start dest && ltb dest end) ≡ true = ground arith in
      with_range-some cmd.resolved _ w e ∙ rw (t, ◌>>=◌) (rw (not_zero, within, inside))
