-- ===== src/Address/Bounds.antt =====
-- The line number that an address stands for lies in the buffer; plain and signed numbers.
use go_red.Base.{
  ℕ, suc, ◌-◌, ◌<◌, ◌≤◌, ◌≡◌, refl, arith, true, false, List, [], ◌∷◌, le→ltb, lt→ltb, ℤ, pos,
  negsuc, int_limit, add_int-negsuc, length, Bool-cases, inl, inr,
}
use go_red.Address.{
  AddressPart, Address, is_not_specified_ident, new_absolute_address, is_signed, walk, in_buffer,
  calculate_actual_line_number,
}
use go_red.Buffer.{Line}
use go_red.Mark.{Marks}
use go_red.Regex.{Engine}
use go_red.Result.{ok, err, invalid_line_max, >>=-eq-ok}
use go_red.Text.{Text, itoa}
use go_red.Text.Numbers.{atoi-itoa, itoa-starts_digit, itoa-minus, starts_digit}

module _ (re : Engine) (buffer : List Line) (marks : Marks) where
  in_buffer-le : (i : ℤ) {n : ℕ} → in_buffer re buffer marks i ≡ ok n → n ≤ length buffer
  unfolding in_buffer
  in_buffer-le (negsuc k) h = cc
  in_buffer-le (pos k) h = ground arith

  -- An address that gives a line number gives one of the buffer, or 0, if the current line number is
  -- such a number.
  pub calculate_actual_line_number-le :
      (current : ℕ) (a : Address) {n : ℕ}
      → current ≤ length buffer
      → calculate_actual_line_number re buffer marks current a ≡ ok n
      → n ≤ length buffer
  unfolding calculate_actual_line_number
  calculate_actual_line_number-le current a {n} h e = on_parts a.internal e
    where
      on_parts :
          (ps : List AddressPart)
          → calculate_actual_line_number re buffer marks current (record { internal = ps }) ≡ ok n
          → n ≤ length buffer
      on_parts [] e = cc
      on_parts (p ∷ ps) e = elim (Bool-cases (is_not_specified_ident p.addr_ident)) [
        | inl u ↦ ground arith
        | inr s ↦
            let (w, _, f) =
              >>=-eq-ok
                (walk re buffer marks (record { line_nbr = pos current; offset = false }) (p ∷ ps))
                (λ w. in_buffer re buffer marks w.line_nbr) (rw s at e) in
            in_buffer-le w.line_nbr f
      ]

is_signed-digit : (s : Text) → starts_digit s ≡ true → is_signed s ≡ false
unfolding is_signed
is_signed-digit [] h = cc
is_signed-digit (c ∷ cs) h = ground arith

is_signed-minus : (s : Text) → is_signed (b'-' ∷ s) ≡ true
unfolding is_signed
is_signed-minus s = refl

is_signed-itoa : (k : ℕ) → is_signed (itoa (negsuc k)) ≡ true
is_signed-itoa k = let (s, e) = itoa-minus k in rw e (is_signed-minus s)

module _ (re : Engine) (buffer : List Line) (marks : Marks) (current : ℕ) where
  -- An absolute address stands for its number, if that fits an `int` and is not behind the last line.
  pub calculate-new_absolute_address :
      (n : ℕ)
      → n < int_limit
      → n ≤ length buffer
      → calculate_actual_line_number re buffer marks current (new_absolute_address (pos n)) ≡ ok n
  unfolding calculate_actual_line_number
  calculate-new_absolute_address n h l =
      rw (atoi-itoa (pos n) h, is_signed-digit _ (itoa-starts_digit n), le→ltb (length buffer) n l)

  -- An absolute address built from a negative number is an offset from the current line, which has to
  -- be a line of the buffer that fits an `int` and is more than that number of lines down; so `endOfFile`
  -- (-2) stands for two lines up.
  pub calculate-new_absolute_address_negsuc :
      (k : ℕ)
      → k < current
      → current < int_limit
      → current ≤ length buffer
      → calculate_actual_line_number re buffer marks current (new_absolute_address (negsuc k))
        ≡ ok (current - suc k)
  unfolding calculate_actual_line_number
  calculate-new_absolute_address_negsuc k h l m = rw (
    atoi-itoa (negsuc k) (omega arith),
    is_signed-itoa k,
    add_int-negsuc current k h l,
    le→ltb (length buffer) (current - suc k) (omega arith),
  )

module _ (re : Engine) (buffer : List Line) (marks : Marks) (current : ℕ) where
  -- An absolute address behind the last line that fits an `int` is an error.
  pub calculate-new_absolute_address_outside :
      (n : ℕ)
      → n < int_limit
      → length buffer < n
      → calculate_actual_line_number re buffer marks current (new_absolute_address (pos n))
        ≡ err (invalid_line_max (pos n) (length buffer))
  unfolding calculate_actual_line_number
  calculate-new_absolute_address_outside n h l =
      rw (atoi-itoa (pos n) h, is_signed-digit _ (itoa-starts_digit n), lt→ltb (length buffer) n l)
