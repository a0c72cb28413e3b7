-- ===== src/Text/Numbers.antt =====
-- `Atoi` reads back what `Itoa` prints.
use go_red.Base.{
  ℕ, suc, zero, ◌+◌, ◌/◌, ◌%◌, ◌<◌, ◌≡◌, refl, ◌∙◌, arith, Bool, true, false, some, [], ◌∷◌, ℤ, pos,
  negsuc, int_limit, lt→ltb,
}
use go_red.Text.{
  Text, print_digits, print_nat, itoa, parse_digits, parse_unsigned, with_sign, atoi, is_digit,
}

-- Parsing what is printed goes on, behind the number, with the number for accumulator.
parse-print_digits :
    (f n : ℕ) (acc : Text) → n < f → parse_digits 0 (print_digits f n acc) ≡ parse_digits n acc
unfolding print_digits parse_digits
parse-print_digits zero n acc h = absurd (omega arith)
parse-print_digits (suc f) n acc h =
    ground (arith, parse-print_digits f (n / 10) ((b'0' + n % 10) ∷ acc))

abbrev pub starts_digit : Text → Bool
starts_digit [] = false
starts_digit (c ∷ cs) = is_digit c

print_digits-starts_digit :
    (f n : ℕ) (acc : Text) → n < f → starts_digit (print_digits f n acc) ≡ true
unfolding print_digits
print_digits-starts_digit zero n acc h = absurd (omega arith)
print_digits-starts_digit (suc f) n acc h =
    ground (arith, print_digits-starts_digit f (n / 10) ((b'0' + n % 10) ∷ acc))

parse_unsigned-digits :
    (minus : Bool) (s : Text)
    → starts_digit s ≡ true
    → parse_unsigned minus s ≡ with_sign minus (parse_digits 0 s)
unfolding parse_unsigned
parse_unsigned-digits minus [] h = cc
parse_unsigned-digits minus (c ∷ cs) h = refl

atoi-digits : (s : Text) → starts_digit s ≡ true → atoi s ≡ with_sign false (parse_digits 0 s)
unfolding atoi
atoi-digits [] h = cc
atoi-digits (c ∷ cs) h = ground arith

atoi-minus : (s : Text) → atoi (b'-' ∷ s) ≡ parse_unsigned true s
unfolding atoi
atoi-minus s = refl

parse-print_nat : (n : ℕ) → parse_digits 0 (print_nat n) ≡ some n
unfolding parse_digits
parse-print_nat n = parse-print_digits (suc n) n [] (omega arith)

-- A number that fits an `int` is read back as it was printed.
abbrev pub FitsInt : ℤ → Type 0
FitsInt (pos n) = n < int_limit
FitsInt (negsuc n) = n < int_limit

pub atoi-itoa : (i : ℤ) → FitsInt i → atoi (itoa i) ≡ some i
unfolding itoa with_sign
atoi-itoa (pos n) h =
    atoi-digits (print_nat n) (print_digits-starts_digit (suc n) n [] (omega arith))
    ∙ rw (parse-print_nat n, lt→ltb n int_limit h)
atoi-itoa (negsuc n) h =
    atoi-minus (print_nat (suc n))
    ∙ parse_unsigned-digits true (print_nat (suc n))
        (print_digits-starts_digit (suc (suc n)) (suc n) [] (omega arith))
    ∙ rw (parse-print_nat (suc n), lt→ltb n int_limit h)

pub itoa-starts_digit : (n : ℕ) → starts_digit (itoa (pos n)) ≡ true
unfolding itoa
itoa-starts_digit n = print_digits-starts_digit (suc n) n [] (omega arith)

pub itoa-minus : (n : ℕ) → (s : Text) × (itoa (negsuc n) ≡ b'-' ∷ s)
unfolding itoa
itoa-minus n = (print_nat (suc n), refl)
