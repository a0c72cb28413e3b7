-- ===== src/Show/Print.antt =====
-- What `_printRange` prints, and where it panics.
use go_red.Base.{
  ℕ, zero, suc, ◌+◌, ◌-◌, ◌<◌, ◌≤◌, ◌≡◌, refl, arith, Bool, true, false, none, some, List, [], ◌∷◌,
  ◌++◌, length, take, drop, length-drop, ltb, ◌==◌, if◌then◌else◌, pos, inl, inr, Nat-cases,
}
use go_red.Buffer.{Line}
use go_red.Exec.Printed.{say}
use go_red.Exec.{done, panicked, ◌>>=◌, ◌>>◌}
use go_red.Lines.Append.{at_world, move_to_line_lem, move_to_line_end, move_to_line_outside}
use go_red.Lines.Cut.{segment}
use go_red.Lines.{from_element}
use go_red.Show.{pad, print_line, print_loop, after_print, print_range}
use go_red.State.{World}
use go_red.Text.{Text, itoa}

-- One line as it is printed, with its number or alone.
pub line_text : Bool → ℕ → Line → Text
line_text numbers nbr x = if numbers then pad (itoa (pos nbr)) ++ 9 ∷ 32 ∷ x.line else x.line

-- The lines as they are printed, with numbers that go up from the first.
pub shown : Bool → ℕ → List Line → List Text
unfolding line_text
shown numbers nbr [] = []
shown numbers nbr (x ∷ xs) = line_text numbers nbr x ∷ shown numbers (nbr + 1) xs

pub print_line_lem :
    (numbers : Bool) (nbr : ℕ) (x : Line) (w : World)
    → print_line nbr x.line numbers w ≡ done tt (record w { out = line_text numbers nbr x ∷ w.out })
unfolding print_line line_text
print_line_lem true nbr x w = refl
print_line_lem false nbr x w = refl

print_loop_lem :
    (numbers : Bool) (rounds nbr : ℕ) (els : List Line) (w : World)
    → rounds ≤ length els
    → print_loop numbers rounds nbr els w
      ≡ done tt (record w { out = say (shown numbers nbr (take rounds els)) w.out })
unfolding print_loop shown say
print_loop_lem numbers zero nbr els w h = refl
print_loop_lem numbers (suc r) nbr [] w h = absurd (omega arith)
print_loop_lem numbers (suc r) nbr (x ∷ els) w h =
    rw (print_line_lem numbers nbr x w, ◌>>=◌, ◌>>◌)
      (print_loop_lem numbers r (nbr + 1) els (record w { out = line_text numbers nbr x ∷ w.out })
        (omega arith))

print_loop_outside :
    (numbers : Bool) (rounds nbr : ℕ) (els : List Line) (w : World)
    → length els < rounds
    → print_loop numbers rounds nbr els w ≡ panicked
unfolding print_loop
print_loop_outside numbers zero nbr els w h = absurd (omega arith)
print_loop_outside numbers (suc r) nbr [] w h = refl
print_loop_outside numbers (suc r) nbr (x ∷ els) w h =
    rw (print_line_lem numbers nbr x w, ◌>>=◌, ◌>>◌)
      (print_loop_outside numbers r (nbr + 1) els
        (record w { out = line_text numbers nbr x ∷ w.out }) (omega arith))

-- The world when lines `start` to `end` have been printed.
abbrev pub printed_world : Bool → ℕ → ℕ → World → World
printed_world numbers start end w = record w {
  state = record w.state {
    dotline = if ltb end (length w.buffer) then some end else some (end - 1);
    line_nbr = end;
  };
  out = say (shown numbers start (segment start end w.buffer)) w.out;
}

module _ (numbers : Bool) (start end : ℕ) (w : World) where
  -- Printing lines of the buffer prints them in their order, each with its own number where numbers are asked for,
  -- makes the last of them the current line, and changes nothing else.
  pub print_range_lem :
      0 < start
      → start ≤ end
      → end ≤ length w.buffer
      → print_range start end numbers w ≡ done tt (printed_world numbers start end w)
  unfolding print_range after_print from_element
  print_range_lem p q r =
      let some_end : (end == 0) ≡ false = ground arith in
      let not_zero : (start == 0) ≡ false = ground arith in
      let in_order : ltb end start ≡ false = ground arith in
      rw (some_end, not_zero, in_order, if◌then◌else◌)
        (rw (move_to_line_lem start w p (omega arith), ◌>>=◌, ◌>>◌)
          (rw (
            print_loop_lem numbers (end + 1 - start) start (drop (start - 1) w.buffer)
                (at_world start (some (start - 1)) w)
                (omega (arith, length-drop (start - 1) w.buffer)),
            ◌>>=◌,
            ◌>>◌,
          )))

  -- Printing up to a line behind the buffer panics.
  pub print_range_outside :
      0 < start → start ≤ end → length w.buffer < end → print_range start end numbers w ≡ panicked
  unfolding print_range from_element
  print_range_outside p q r =
      let some_end : (end == 0) ≡ false = ground arith in
      let not_zero : (start == 0) ≡ false = ground arith in
      let in_order : ltb end start ≡ false = ground arith in
      rw (some_end, not_zero, in_order, if◌then◌else◌)
        (elim (Nat-cases (length w.buffer) start) [
          | inr l ↦
              rw (move_to_line_lem start w p l, ◌>>=◌, ◌>>◌)
                (rw (
                  print_loop_outside numbers (end + 1 - start) start (drop (start - 1) w.buffer)
                      (at_world start (some (start - 1)) w)
                      (omega (arith, length-drop (start - 1) w.buffer)),
                  ◌>>=◌,
                  ◌>>◌,
                ))
          | inl m ↦ elim (Nat-cases (length w.buffer + 1) start) [
            | inl l ↦ rw (move_to_line_outside start w (inr l), ◌>>=◌, ◌>>◌)
            | inr l ↦
                rw (move_to_line_end start w (omega arith), ◌>>=◌, ◌>>◌)
                  (rw (
                    print_loop_outside numbers (end + 1 - start) start [] (at_world start none w)
                        (omega arith),
                    ◌>>=◌,
                    ◌>>◌,
                  ))
          ]
        ])

  pub print_range_backwards : 0 < end → end < start → print_range start end numbers w ≡ panicked
  unfolding print_range
  print_range_backwards p q =
      let some_end : (end == 0) ≡ false = ground arith in
      let not_zero : (start == 0) ≡ false = ground arith in
      let backwards : ltb end start ≡ true = ground arith in
      rw (some_end, not_zero, backwards, if◌then◌else◌)
