-- ===== src/Show/Keeps.antt =====
-- The commands that print, and `Mark`, keep the invariant.
use go_red.Base.{
  ℕ, suc, zero, ◌+◌, ◌≤◌, ◌<◌, arith, Bool, true, Option, none, some, length, ltb, ◌==◌,
  if◌then◌else◌, ℤ, pos, negsuc, int_limit, Nat-cases, inl, inr,
}
use go_red.Address.{is_not_specified}
use go_red.Command.{Command}
use go_red.Exec.Keeps.{Holds, Keeps, Keeps-bind, Holds-bind, Keeps-if, Keeps-lift, Keeps-with_range}
use go_red.Exec.{pure}
use go_red.Invariant.{Inv}
use go_red.Range.{is_specified}
use go_red.Show.Print.{print_range_lem, print_range_outside, print_range_backwards}
use go_red.Show.{
  print_range, print_command, is_number, window, min_int_of, print_window, scroll, linenumber,
  single_letter, mark_command,
}
use go_red.State.{World}
use go_red.Text.{is_empty, atoi, trim_space}

module _ (k : ℕ) where
  in_order-Inv :
      (start end : ℕ) (numbers : Bool) (w : World)
      → 0 < start
      → start ≤ end
      → Inv k w
      → Holds (Inv k) (print_range start end numbers w)
  in_order-Inv start end numbers w p q i = elim (Nat-cases (length w.buffer) end) [
    | inr r ↦ rw (print_range_lem numbers start end w p q r) (omega arith, i.1)
    | inl r ↦ rw (print_range_outside numbers start end w p q r) tt
  ]

  from_1-Inv :
      (s e : ℕ) (numbers : Bool) (w : World)
      → Inv k w
      → Holds (Inv k) (print_range (suc s) (suc e) numbers w)
  from_1-Inv s e numbers w i = elim (Nat-cases e s) [
    | inr l ↦ in_order-Inv (suc s) (suc e) numbers w (omega arith) (omega arith) i
    | inl l ↦ rw (print_range_backwards numbers (suc s) (suc e) w (omega arith) (omega arith)) tt
  ]

  print_range-Keeps :
      (start end : ℕ) (numbers : Bool) → Keeps (Inv k) (print_range start end numbers)
  unfolding print_range
  print_range-Keeps zero end numbers w i = i
  print_range-Keeps (suc s) zero numbers w i = from_1-Inv s 0 numbers w i
  print_range-Keeps (suc s) (suc e) numbers w i = from_1-Inv s e numbers w i

  pub print_command-Keeps : (cmd : Command) → Keeps (Inv k) (print_command cmd)
  unfolding print_command
  print_command-Keeps cmd = Keeps-with_range (Inv k) cmd.resolved _ λ r.
      Keeps-bind (Inv k) _ _ (Keeps-lift (Inv k) (is_specified cmd.addr_range))
        λ b. print_range-Keeps r.start_line r.end_line (is_number cmd.cmd)

  window-Keeps : (o : Option ℤ) → Keeps (Inv k) (window o)
  unfolding window
  window-Keeps none w i = i
  window-Keeps (some (negsuc n)) w i = i
  window-Keeps (some (pos zero)) w i = i
  window-Keeps (some (pos (suc n))) w i = i

  print_window-Keeps : (first end last : ℕ) → Keeps (Inv k) (print_window first end last)
  unfolding print_window
  print_window-Keeps first end last =
      Keeps-if (Inv k) (ltb end int_limit) _ _ (print_range-Keeps first (min_int_of end last) true)
        (Keeps-if (Inv k) (first == 0) _ _ (λ w i. i) (λ w i. tt))

  pub scroll-Keeps : (cmd : Command) → Keeps (Inv k) (scroll cmd)
  unfolding scroll
  scroll-Keeps cmd = Keeps-with_range (Inv k) cmd.resolved _ λ r.
      Keeps-bind (Inv k) _ _ (Keeps-lift (Inv k) (is_not_specified cmd.addr_range.end)) λ b.
        Keeps-if (Inv k) b _ _
          (Keeps-bind (Inv k) _ _ (Keeps-lift (Inv k) (is_not_specified cmd.addr_range.start))
            λ c w i.
              Holds-bind (Inv k)
                (if is_empty cmd.rest_of_cmd
                  then pure tt
                  else window (atoi (trim_space cmd.rest_of_cmd)))
                _ w
                (Keeps-if (Inv k) (is_empty cmd.rest_of_cmd) _ _ (λ v j. j)
                  (window-Keeps (atoi (trim_space cmd.rest_of_cmd))) w i)
                (λ t v j.
                  print_window-Keeps
                    (min_int_of
                      (if (if c then w.line_nbr + 1 else r.start_line) == 0
                        then 1
                        else (if c then w.line_nbr + 1 else r.start_line))
                      (length v.buffer))
                    ((if c then w.line_nbr + 1 else r.start_line) + v.window_size) (length v.buffer)
                    v j))
          (λ w i. i)

  pub linenumber-Keeps : (cmd : Command) → Keeps (Inv k) (linenumber cmd)
  unfolding linenumber
  linenumber-Keeps cmd = Keeps-with_range (Inv k) cmd.resolved _ (λ r w i. i)

  pub mark_command-Keeps : (cmd : Command) → Keeps (Inv k) (mark_command cmd)
  unfolding mark_command
  mark_command-Keeps cmd = Keeps-with_range (Inv k) cmd.resolved _ λ r.
      Keeps-if (Inv k) (single_letter (trim_space cmd.rest_of_cmd)) _ _
        (Keeps-bind (Inv k) _ _ (Keeps-lift (Inv k) (is_not_specified cmd.addr_range.end))
          λ b. Keeps-if (Inv k) b _ _ (λ w i. i) (λ w i. i))
        (λ w i. i)
