-- ===== src/Range/Bounds.antt =====
-- What the line numbers of a range satisfy, and what a range that is not specified stands for.
use go_red.Base.{
  pos, int_limit, false, if◌then◌else◌, ℕ, ◌≤◌, ◌<◌, ◌≡◌, refl, arith, List, length, if◌then◌else◌,
  ltb,
}
use go_red.Address.{new_unspecified_address}
use go_red.Address.Bounds.{calculate_actual_line_number-le, calculate-new_absolute_address}
use go_red.State.{absolute_range}
use go_red.Buffer.{Line}
use go_red.Mark.{Marks}
use go_red.Range.Parse.{new_range}
use go_red.Address.Parse.{new_address}
use go_red.Text.{trim_space, is_empty}
use go_red.Base.{[]}
use go_red.Range.{
  start_line_of, end_line_of, comma, AddressRange, LineRange, line_range, dot_for_end,
  calculate_start_and_end_line_numbers, get_address_range, is_specified,
}
use go_red.Regex.{Engine}
use go_red.Result.{ok, err, ◌>>=◌, >>=-eq-ok, bad_range}

module _ (re : Engine) (buffer : List Line) (marks : Marks) (current : ℕ) where
  -- A range that is resolved has its start at or before its end.
  pub calculate_start_and_end-le :
      (ra : AddressRange) {r : LineRange}
      → calculate_start_and_end_line_numbers re buffer marks current ra ≡ ok r
      → r.start_line ≤ r.end_line
  unfolding calculate_start_and_end_line_numbers
  calculate_start_and_end-le ra e = ground arith

module _ (re : Engine) (buffer : List Line) (marks : Marks) (current : ℕ) where
  start_line_of-le :
      (ra : AddressRange) {n : ℕ}
      → 0 < length buffer
      → current ≤ length buffer
      → start_line_of re buffer marks current ra ≡ ok n
      → n ≤ length buffer
  unfolding start_line_of
  start_line_of-le ra {n} h l e =
      ground (arith, calculate_actual_line_number-le re buffer marks current ra.start {n = n})

  end_line_of-le :
      (ra : AddressRange) (s : ℕ) {n : ℕ}
      → s ≤ length buffer
      → current ≤ length buffer
      → end_line_of re buffer marks current ra s ≡ ok n
      → n ≤ length buffer
  unfolding end_line_of
  end_line_of-le ra s {n} h l e = ground (
    arith,
    calculate_actual_line_number-le re buffer marks (dot_for_end ra.separator current s) ra.end
        {n = n},
  )

  range_of_lines :
      (s e : ℕ) {r : LineRange}
      → (if ltb e s then err bad_range else ok (line_range s e)) ≡ ok r
      → r.end_line ≡ e
  range_of_lines s e h = ground arith

  -- With a line in the buffer, and the current line in it, a range resolves to two lines in order that are lines of the
  -- buffer or 0.
  pub calculate_start_and_end-le_length :
      (ra : AddressRange) {r : LineRange}
      → 0 < length buffer
      → current ≤ length buffer
      → calculate_start_and_end_line_numbers re buffer marks current ra ≡ ok r
      → (r.start_line ≤ r.end_line) × (r.end_line ≤ length buffer)
  unfolding calculate_start_and_end_line_numbers
  calculate_start_and_end-le_length ra h l e =
      let (s, p, f) =
        >>=-eq-ok (start_line_of re buffer marks current ra)
          (λ s. end_line_of re buffer marks current ra s >>= λ e.
            if ltb e s then err bad_range else ok (line_range s e))
          e in
      let (t, q, g) =
        >>=-eq-ok (end_line_of re buffer marks current ra s)
          (λ e. if ltb e s then err bad_range else ok (line_range s e)) f in
      (
        calculate_start_and_end-le re buffer marks current ra e,
        omega (arith, range_of_lines s t g, end_line_of-le ra s (start_line_of-le ra h l p) l q),
      )

abbrev pub unspecified_range : AddressRange
unspecified_range = record {
  start = new_unspecified_address;
  end = new_unspecified_address;
  separator = comma;
}

module _ (re : Engine) (buffer : List Line) (marks : Marks) (current : ℕ) where
  -- The empty string parses as the range that is not specified. It stands for the current line where a
  -- command asks for it by `getAddressRange`, but for line 1 where it is resolved before the command
  -- runs.
  pub calculate_unspecified :
      (new_range [] ≡ ok unspecified_range)
      × (get_address_range re buffer marks current unspecified_range
          ≡ ok (line_range current current))
      × (calculate_start_and_end_line_numbers re buffer marks current unspecified_range
          ≡ ok (line_range 1 1))
  unfolding calculate_start_and_end_line_numbers get_address_range is_specified new_range
      new_address trim_space is_empty
  calculate_unspecified = (refl, refl, refl)

module _ (re : Engine) (buffer : List Line) (marks : Marks) (current : ℕ) where
  -- A range of two plain numbers in order, of which the second is a line of the buffer and fits an `int`,
  -- resolves to those numbers.
  pub calculate_absolute :
      (a b : ℕ)
      → a ≤ b
      → b < int_limit
      → b ≤ length buffer
      → calculate_start_and_end_line_numbers re buffer marks current
          (absolute_range (pos a) (pos b))
        ≡ ok (line_range a b)
  unfolding calculate_start_and_end_line_numbers start_line_of end_line_of
  calculate_absolute a b h i l =
      let in_order : ltb b a ≡ false = ground arith in
      rw
        (
          calculate-new_absolute_address re buffer marks current a (omega arith) (omega arith),
          ◌>>=◌,
        )
        (rw (calculate-new_absolute_address re buffer marks current b i l, ◌>>=◌) (rw in_order))
