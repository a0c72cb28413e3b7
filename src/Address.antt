-- ===== src/Address.antt =====
-- Addresses (address.go): their parts as parsed, and the line number that an address stands for in
-- a given state. Line numbers on the way are Go's 64-bit `int`.
pub mod Search
pub mod Bounds
pub mod Parse
pub mod Print
use go_red.Base.{
  ℕ, ◌+◌, Bool, true, false, ◌||◌, Option, none, some, List, [], ◌∷◌, ltb, ◌==◌, if◌then◌else◌, ℤ,
  pos, negsuc, add_int, length,
}
use go_red.Address.Search.{match_line_forward, match_line_backward}
use go_red.Buffer.{Line}
use go_red.Mark.{Marks, find_mark}
use go_red.Regex.{Engine}
use go_red.Result.{
  Result, ok, err, panic, ◌>>=◌, map_err, invalid_line, invalid_line_max, unknown_mark,
  no_matching_line, bad_number, bad_ident,
}
use go_red.Text.{Text, itoa, atoi}

-- The constants `ident*` that an address part can hold.
pub data Ident : Type 0 where
  dec dot dollar inc mark not_specified regex_backward regex_forward signed_nbr : Ident

pub record AddressPart : Type 0 where
  pub addr_ident : Ident
  pub info : Text

pub record Address : Type 0 where
  pub internal : List AddressPart

abbrev pub is_not_specified_ident : Ident → Bool
is_not_specified_ident not_specified = true
is_not_specified_ident _ = false

-- `a.internal[0]` panics on an empty slice, that of a zero `Address`.
abbrev pub is_not_specified_in : List AddressPart → Result Bool
is_not_specified_in [] = panic
is_not_specified_in (p ∷ ps) = ok (is_not_specified_ident p.addr_ident)

abbrev pub is_not_specified : Address → Result Bool
is_not_specified a = is_not_specified_in a.internal

abbrev pub new_unspecified_address : Address
new_unspecified_address = record {
  internal = record { addr_ident = not_specified; info = [] } ∷ [];
}

abbrev pub new_absolute_address : ℤ → Address
new_absolute_address line_nbr = record {
  internal = record { addr_ident = signed_nbr; info = itoa line_nbr } ∷ [];
}

-- What the loop over the parts carries: the line number, and whether a number is an offset now.
pub record Walk : Type 0 where
  pub line_nbr : ℤ
  pub offset : Bool

abbrev pub walked : ℤ → Walk
walked n = record { line_nbr = n; offset = true }

-- `addrPart.info[0:1]` is `+` or `-`.
is_signed : Text → Bool
is_signed [] = false
is_signed (c ∷ cs) = c == b'+' || c == b'-'

number_part : Walk → Text → Option ℤ → Result Walk
unfolding is_signed
number_part w info none = err (bad_number info)
number_part w info (some n) =
    if w.offset || is_signed info then ok (walked (add_int w.line_nbr n)) else ok (walked n)

mark_part : Text → Option ℕ → Result Walk
mark_part name (some n) = ok (walked (pos n))
mark_part name none = err (unknown_mark name)

abbrev pub found_line : Result ℕ → Result Walk
found_line r = map_err (λ _. no_matching_line) r >>= λ n. ok (walked (pos n))

module _ (re : Engine) (buffer : List Line) (marks : Marks) where
  -- The body of the loop, by the kind of the part; the last case is the switch's default.
  pub walk_part : Walk → Ident → Text → Result Walk
  unfolding number_part mark_part
  walk_part w inc info = ok (walked (add_int w.line_nbr (pos 1)))
  walk_part w dec info = ok (walked (add_int w.line_nbr (negsuc 0)))
  walk_part w dollar info = ok (walked (pos (length buffer)))
  walk_part w dot info = ok (walked w.line_nbr)
  walk_part w mark info = mark_part info (find_mark info marks)
  walk_part w regex_forward info = found_line (match_line_forward re w.line_nbr info buffer)
  walk_part w regex_backward info = found_line (match_line_backward re w.line_nbr info buffer)
  walk_part w signed_nbr info = number_part w info (atoi info)
  walk_part w not_specified info = err bad_ident

  pub walk : Walk → List AddressPart → Result Walk
  unfolding walk_part
  walk w [] = ok w
  walk w (p ∷ ps) = do w' ← walk_part w p.addr_ident p.info; walk w' ps

  -- The two tests behind the loop.
  pub in_buffer : ℤ → Result ℕ
  in_buffer (negsuc n) = err (invalid_line (negsuc n))
  in_buffer (pos n) =
      if ltb (length buffer) n then err (invalid_line_max (pos n) (length buffer)) else ok n

  unfoldable pub calculate_actual_line_number : ℕ → Address → Result ℕ
  unfolding walk in_buffer
  calculate_actual_line_number current a = do
    unspecified ← is_not_specified a
    if unspecified then ok current else do
      w ← walk (record { line_nbr = pos current; offset = false }) a.internal
      in_buffer w.line_nbr
