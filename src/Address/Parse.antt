-- ===== src/Address/Parse.antt =====
-- `newAddress` (address.go): the parts of an address, read off a string.
pub mod Fuel
pub mod Printed
pub mod Parts
use go_red.Base.{
  ℕ, zero, suc, ◌+◌, Bool, true, false, ◌&&◌, ◌||◌, Option, none, some, List, [], ◌∷◌, leb, ◌==◌,
  if◌then◌else◌, length, ℤ,
}
use go_red.Address.{
  Ident, dec, dot, dollar, inc, mark, regex_backward, regex_forward, signed_nbr, AddressPart,
  Address, new_unspecified_address,
}
use go_red.Result.{Result, ok, err, ◌>>=◌, syntax_error, bad_number, unrecognised_command}
use go_red.Text.{Text, is_empty, trim_space, is_digit, atoi}

-- A part at the head of a string, and what follows it.
pub record Token : Type 0 where
  pub part : AddressPart
  pub rest : Text

abbrev pub token : Ident → Text → Text → Token
token ident info rest = record { part = record { addr_ident = ident; info = info }; rest = rest }

abbrev pub is_lower : ℕ → Bool
is_lower c = leb b'a' c && leb c b'z'

-- `'[a-z]`, behind its quote
mark_at : Text → Option Token
mark_at [] = none
mark_at (c ∷ cs) = if is_lower c then some (token mark (c ∷ []) cs) else none

push_char : ℕ → Option Token → Option Token
push_char c none = none
push_char c (some t) = some (token t.part.addr_ident (c ∷ t.part.info) t.rest)

-- `[^/]*\/` and `[^\?]*\?`, behind the first delimiter
pub regex_at : Ident → ℕ → Text → Option Token
unfolding push_char
regex_at ident delimiter [] = none
regex_at ident delimiter (c ∷ cs) =
    if c == delimiter then some (token ident [] cs) else push_char c (regex_at ident delimiter cs)

-- `\d*`
pub digits_at : Text → Token
digits_at [] = token signed_nbr [] []
digits_at (c ∷ cs) =
    let t = digits_at cs in
    if is_digit c then token signed_nbr (c ∷ t.part.info) t.rest else token signed_nbr [] (c ∷ cs)

-- `[+-]?\d+`, or else the sign alone, at the sign `c`
sign_at : Ident → ℕ → Text → Token
unfolding digits_at
sign_at ident c [] = token ident [] []
sign_at ident c (d ∷ ds) =
    let t = digits_at (d ∷ ds) in
    if is_digit d then token signed_nbr (c ∷ t.part.info) t.rest else token ident [] (d ∷ ds)

-- `addressRE` at the head of the string.
pub match_at : Text → Option Token
unfolding mark_at regex_at digits_at sign_at
match_at [] = none
match_at (c ∷ cs) =
    if c == b'.'
    then some (token dot [] cs)
    else if c == b'$'
    then some (token dollar [] cs)
    else if c == 39
    then mark_at cs
    else if c == b'/'
    then regex_at regex_forward b'/' cs
    else if c == b'?'
    then regex_at regex_backward b'?' cs
    else if is_digit c
    then some (digits_at (c ∷ cs))
    else if c == b'+'
    then some (sign_at inc c cs)
    else if c == b'-'
    then some (sign_at dec c cs)
    else none

-- `FindStringIndex`: the characters that are skipped, and the leftmost match.
pub record Found : Type 0 where
  pub skipped : Text
  pub match : Option Token

skip_char : ℕ → Found → Found
skip_char c f = record { skipped = c ∷ f.skipped; match = f.match }

pub find_part : Text → Found
unfolding match_at skip_char
find_part [] = record { skipped = []; match = none }
find_part (c ∷ cs) = elim (match_at (c ∷ cs)) [
  | some t ↦ record { skipped = []; match = some t }
  | none ↦ skip_char c (find_part cs)
]

-- `checkSkippedChars`
unfoldable pub check_skipped_chars : Text → Result (Unit {0})
unfolding is_empty
check_skipped_chars skipped =
    if is_empty (trim_space skipped) then ok tt else err (syntax_error skipped)

number_is_valid : Option ℤ → Text → Result (Unit {0})
number_is_valid none info = err (bad_number info)
number_is_valid (some n) info = ok tt

-- The check of a number by `Atoi`.
check_part : Ident → Text → Result (Unit {0})
unfolding number_is_valid
check_part signed_nbr info = number_is_valid (atoi info) info
check_part _ info = ok tt

-- The loop of `newAddress`, on fuel.
pub parse_parts : ℕ → Text → Result (List AddressPart)
unfolding find_part check_part check_skipped_chars
parse_parts zero s = err unrecognised_command
parse_parts (suc fuel) s =
    let found = find_part s in
    elim found.match [
      | none ↦ check_skipped_chars found.skipped >>= λ _. ok []
      | some t ↦ check_skipped_chars found.skipped >>= λ _.
          check_part t.part.addr_ident t.part.info >>= λ _.
          parse_parts fuel t.rest >>= λ ps. ok (t.part ∷ ps)
    ]

unfoldable pub new_address : Text → Result Address
unfolding parse_parts is_empty
new_address s =
    let trimmed = trim_space s in
    if is_empty trimmed
    then ok new_unspecified_address
    else parse_parts (suc (length trimmed)) trimmed >>= λ ps. ok (record { internal = ps })
