-- ===== src/Command/Parse/Printed.antt =====
-- `ParseCommand` on two printed line numbers, a letter and a rest.
use mathlib.Core.List.{append_assoc}
use go_red.Base.{
  ℕ, ◌-◌, ◌<◌, ◌≡◌, refl, ◌∙◌, ap, arith, true, false, some, none, [], ◌∷◌, ◌++◌, length,
  length-append, take-append, take, pos, int_limit,
}
use go_red.Address.Parse.Printed.{new_address-itoa, is_digit-not_space}
use go_red.Command.Ident
use go_red.Command.Ident.{CommandId}
use go_red.Range.Bounds.{unspecified_range}
use go_red.Address.Parse.{new_address}
use go_red.Command.Parse.{
  skip_parts, skip_address, skip_separator, letter, command_groups, command_at, on_one_line,
  match_command_line, from_groups, command_of, no_letter, parse_command,
}
use go_red.Range.Parse.{new_range, new_range-separated}
use go_red.Result.{ok, ◌>>=◌}
use go_red.State.{absolute_range}
use go_red.Text.Numbers.{itoa-starts_digit, starts_digit}
use go_red.Text.Trim.{
  every, every-append, every_imp, not_space, trim_space-every, trim_space-nonblank, itoa-every,
}
use go_red.Text.{Text, is_digit, is_empty, trim_space, itoa, contains_byte}
use go_red.Command.Parse.Scan.{
  letter-ends_address, skip_part-none, skip_address-digits, letter-not_separator, letter-not_space,
  digits-no_separators,
}

command_at-letter :
    (addr rest : Text) (c : ℕ) {id : CommandId}
    → letter c ≡ some id
    → command_at addr (c ∷ rest) ≡ record { addr_range = addr; cmd = some id; rest = rest }
unfolding command_at command_groups
command_at-letter addr rest c h = rw (h, command_groups)

module _ (a b rest : Text) (c : ℕ) (id : CommandId) (p : starts_digit a ≡ true)
    (q : starts_digit b ≡ true) (d : every is_digit a ≡ true) (e : every is_digit b ≡ true)
    (l : letter c ≡ some id) where
  -- What is left behind the two numbers.
  behind_range :
      skip_address (skip_separator (skip_address (a ++ b',' ∷ (b ++ c ∷ rest)))) ≡ c ∷ rest
  unfolding skip_separator
  behind_range =
      rw (skip_address-digits a (b ++ c ∷ rest) b',' p d refl, skip_separator)
        (skip_address-digits b rest c q e (letter-ends_address c l))

  match_command_line-range :
      contains_byte rest b'\n' ≡ false
      → match_command_line (a ++ b',' ∷ (b ++ c ∷ rest))
        ≡ some (record { addr_range = a ++ b',' ∷ b; cmd = some id; rest = rest })
  unfolding match_command_line on_one_line
  match_command_line-range n =
      let whole : a ++ b',' ∷ (b ++ c ∷ rest) ≡ (a ++ b',' ∷ b) ++ c ∷ rest = rw append_assoc in
      let size : length (a ++ b',' ∷ (b ++ c ∷ rest)) - length (c ∷ rest) ≡ length (a ++ b',' ∷ b) =
        rw whole (omega (arith, length-append (a ++ b',' ∷ b) (c ∷ rest))) in
      let front : take (length (a ++ b',' ∷ (b ++ c ∷ rest)) - length (c ∷ rest))
            (a ++ b',' ∷ (b ++ c ∷ rest))
          ≡ a ++ b',' ∷ b =
        ap (take _) whole ∙ take-append _ (a ++ b',' ∷ b) (c ∷ rest) size in
      rw (behind_range, command_at-letter _ rest c l) (rw (n, front))

module _ (m n c : ℕ) (id : CommandId) (rest : Text) where
  -- The two line numbers with a comma between them.
  abbrev pub range_text : Text
  range_text = itoa (pos m) ++ b',' ∷ itoa (pos n)

  range_text-every : every not_space range_text ≡ true
  unfolding every
  range_text-every =
      let first = every_imp is_digit not_space (itoa (pos m)) is_digit-not_space (itoa-every m) in
      let second = every_imp is_digit not_space (itoa (pos n)) is_digit-not_space (itoa-every n) in
      every-append not_space (itoa (pos m)) (b',' ∷ itoa (pos n)) first (rw second)

  digit-nonblank : (s t : Text) → starts_digit s ≡ true → is_empty (trim_space (s ++ t)) ≡ false
  digit-nonblank [] t h = cc
  digit-nonblank (x ∷ s) t h = trim_space-nonblank x (s ++ t) (is_digit-not_space x h)

  length-digits : (s : Text) → starts_digit s ≡ true → 0 < length s
  length-digits [] h = cc
  length-digits (x ∷ s) h = omega arith

  new_range-printed :
      m < int_limit → n < int_limit → new_range range_text ≡ ok (absolute_range (pos m) (pos n))
  new_range-printed i j =
      new_range-separated (itoa (pos m)) (itoa (pos n)) b',' _ _
        (digits-no_separators (itoa (pos m)) (itoa-every m))
        (digits-no_separators (itoa (pos n)) (itoa-every n)) refl
        (omega (arith, length-digits (itoa (pos m)) (itoa-starts_digit m)))
        (digit-nonblank (itoa (pos m)) (b',' ∷ itoa (pos n)) (itoa-starts_digit m))
        (new_address-itoa m i) (new_address-itoa n j)

  -- A line of two numbers that fit an `int` with a comma between them, a command letter and a rest without newline
  -- parses as the command of that letter, on the lines of those numbers, with the rest trimmed.
  pub parse_command-printed :
      letter c ≡ some id
      → m < int_limit
      → n < int_limit
      → contains_byte rest b'\n' ≡ false
      → parse_command (itoa (pos m) ++ b',' ∷ (itoa (pos n) ++ c ∷ rest))
        ≡ ok (record {
          addr_range = absolute_range (pos m) (pos n);
          resolved = none;
          cmd = id;
          rest_of_cmd = trim_space rest;
        })
  unfolding parse_command from_groups command_of no_letter
  parse_command-printed l i j h =
      rw (digit-nonblank (itoa (pos m)) (b',' ∷ (itoa (pos n) ++ c ∷ rest)) (itoa-starts_digit m)) (
        rw
          (
            match_command_line-range (itoa (pos m)) (itoa (pos n)) rest c id (itoa-starts_digit m)
                (itoa-starts_digit n) (itoa-every m) (itoa-every n) l h,
            from_groups,
          )
          (rw (trim_space-every range_text range_text-every, new_range-printed i j, ◌>>=◌)))

new_range-nothing : new_range [] ≡ ok unspecified_range
unfolding new_range new_address trim_space is_empty
new_range-nothing = refl

pub letter-delete : letter b'd' ≡ some Ident.delete
unfolding letter
letter-delete = refl

pub letter-undo : letter b'u' ≡ some Ident.undo
unfolding letter
letter-undo = refl

module _ (c : ℕ) (id : CommandId) (rest : Text) (l : letter c ≡ some id) where
  skip_address-letter : skip_address (c ∷ rest) ≡ c ∷ rest
  unfolding skip_address skip_parts
  skip_address-letter = rw (skip_part-none c rest (letter-ends_address c l), skip_parts)

  behind_letter : skip_address (skip_separator (skip_address (c ∷ rest))) ≡ c ∷ rest
  unfolding skip_separator
  behind_letter =
      rw (skip_address-letter, skip_separator)
        (rw (letter-not_separator c l, skip_separator) skip_address-letter)

  match_command_line-letter :
      contains_byte rest b'\n' ≡ false
      → match_command_line (c ∷ rest)
        ≡ some (record { addr_range = []; cmd = some id; rest = rest })
  unfolding match_command_line on_one_line
  match_command_line-letter n =
      let nothing : length (c ∷ rest) - length (c ∷ rest) ≡ 0 = omega arith in
      rw (behind_letter, command_at-letter _ rest c l) (rw (n, nothing))

  -- A line that begins with a command letter and holds no newline parses as that command without an address, with
  -- the rest trimmed.
  pub parse_command-letter :
      contains_byte rest b'\n' ≡ false
      → parse_command (c ∷ rest)
        ≡ ok (record {
          addr_range = unspecified_range;
          resolved = none;
          cmd = id;
          rest_of_cmd = trim_space rest;
        })
  unfolding parse_command from_groups command_of no_letter trim_space
  parse_command-letter h =
      let black = letter-not_space c l in
      rw (trim_space-nonblank c rest black)
        (rw (match_command_line-letter h, from_groups) (rw (new_range-nothing, ◌>>=◌)))
