-- ===== src/Address/Parse/Printed.antt =====
-- `newAddress` reads back the number that `newAbsoluteAddress` prints.
use mathlib.Core.List.{append-nil}
use go_red.Base.{
  ℕ, suc, ◌<◌, ◌≡◌, ◌≢◌, refl, ◌∙◌, ap, arith, Bool, true, false, some, none, [], ◌∷◌, ◌++◌, ◌==◌,
  ◌||◌, length, pos, int_limit,
}
use go_red.Address.Parse.{
  Token, token, digits_at, match_at, find_part, parse_parts, new_address, check_skipped_chars,
  check_part,
}
use go_red.Address.{signed_nbr, new_absolute_address}
use go_red.Result.{ok, ◌>>=◌}
use go_red.Text.Numbers.{atoi-itoa, itoa-starts_digit, starts_digit}
use go_red.Text.Trim.{every, every_imp, not_space, trim_space-every, itoa-every}
use go_red.Text.{Text, is_digit, is_empty, trim_space, itoa}

pub is_digit-not_space : (c : ℕ) → is_digit c ≡ true → not_space c ≡ true
is_digit-not_space c h = ground arith

-- Digits in front of something else are the number at the head of the string.
digits_at-append :
    (s rest : Text)
    → every is_digit s ≡ true
    → starts_digit rest ≡ false
    → digits_at (s ++ rest) ≡ token signed_nbr s rest
unfolding digits_at every
digits_at-append [] [] h k = refl
digits_at-append [] (c ∷ cs) h k = rw k
digits_at-append (c ∷ s) rest h k =
    let head : is_digit c ≡ true = ground arith in
    rw (head, digits_at-append s rest (ground arith) k)

match_at-digit :
    (c : ℕ) (cs : Text) → is_digit c ≡ true → match_at (c ∷ cs) ≡ some (digits_at (c ∷ cs))
unfolding match_at
match_at-digit c cs h = ground arith

pub match_at-digits :
    (s rest : Text)
    → starts_digit s ≡ true
    → every is_digit s ≡ true
    → starts_digit rest ≡ false
    → match_at (s ++ rest) ≡ some (token signed_nbr s rest)
match_at-digits [] rest p h k = cc
match_at-digits (c ∷ s) rest p h k =
    match_at-digit c (s ++ rest) p ∙ ap some (digits_at-append (c ∷ s) rest h k)

-- The bytes that a part of an address can begin with.
abbrev pub begins_part : ℕ → Bool
begins_part c =
    c == b'.'
    || c == b'$'
    || c == 39
    || c == b'/'
    || c == b'?'
    || is_digit c
    || c == b'+'
    || c == b'-'

pub match_at-other : (c : ℕ) (cs : Text) → begins_part c ≡ false → match_at (c ∷ cs) ≡ none
unfolding match_at
match_at-other c cs h = ground arith

find_part-some :
    (s : Text) {t : Token}
    → match_at s ≡ some t
    → find_part s ≡ record { skipped = []; match = some t }
unfolding find_part match_at
find_part-some [] h = cc
find_part-some (c ∷ s) h = rw (h, find_part)

pub starts_digit-nonempty : (s : Text) → starts_digit s ≡ true → is_empty s ≡ false
unfolding is_empty
starts_digit-nonempty [] h = cc
starts_digit-nonempty (c ∷ s) h = refl

match_at-nil : {t : Token} → match_at [] ≢ some t
unfolding match_at
match_at-nil h = cc

parse_parts-nil : (fuel : ℕ) → parse_parts (suc fuel) [] ≡ ok []
unfolding parse_parts find_part check_skipped_chars trim_space
parse_parts-nil fuel = refl

-- A round of the loop that skips nothing.
parse_parts-found :
    (fuel : ℕ) (s : Text) {t : Token}
    → find_part s ≡ record { skipped = []; match = some t }
    → check_part t.part.addr_ident t.part.info ≡ ok tt
    → parse_parts (suc fuel) s ≡ (parse_parts fuel t.rest >>= λ ps. ok (t.part ∷ ps))
unfolding parse_parts check_skipped_chars trim_space
parse_parts-found fuel s h c = rw (h, parse_parts) (rw (h, c, ◌>>=◌))

-- One part that takes the whole string.
parse_parts-last :
    (s : Text) {t : Token}
    → match_at s ≡ some t
    → t.rest ≡ []
    → check_part t.part.addr_ident t.part.info ≡ ok tt
    → parse_parts (suc (length s)) s ≡ ok (t.part ∷ [])
parse_parts-last [] h r c = absurd (match_at-nil h)
parse_parts-last (x ∷ s) {t} h r c =
    parse_parts-found (suc (length s)) (x ∷ s) (find_part-some (x ∷ s) h) c
    ∙ rw r (rw (parse_parts-nil (length s), ◌>>=◌))

check_part-itoa : (n : ℕ) → n < int_limit → check_part signed_nbr (itoa (pos n)) ≡ ok tt
unfolding check_part
check_part-itoa n h = rw (atoi-itoa (pos n) h)

-- A number that fits an `int` is parsed as the absolute address of that number.
pub new_address-itoa :
    (n : ℕ) → n < int_limit → new_address (itoa (pos n)) ≡ ok (new_absolute_address (pos n))
unfolding new_address
new_address-itoa n h =
    let digits = itoa-every n in
    let head = itoa-starts_digit n in
    let clean : trim_space (itoa (pos n)) ≡ itoa (pos n) =
      trim_space-every (itoa (pos n)) (every_imp is_digit not_space _ is_digit-not_space digits) in
    let found : match_at (itoa (pos n)) ≡ some (token signed_nbr (itoa (pos n)) []) =
      rw append-nil at (match_at-digits (itoa (pos n)) [] head digits refl) in
    rw (clean, starts_digit-nonempty (itoa (pos n)) head)
      (rw (parse_parts-last (itoa (pos n)) found refl (check_part-itoa n h), ◌>>=◌))
