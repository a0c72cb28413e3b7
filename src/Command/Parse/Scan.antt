-- ===== src/Command/Parse/Scan.antt =====
-- How the scanner of `ParseCommand` passes over numbers and stops at a letter.
use go_red.Base.{
  ℕ, suc, ◌≡◌, refl, arith, Bool, true, false, not, some, none, List, [], ◌∷◌, ◌++◌, ◌&&◌, ◌==◌,
  ◌||◌, length, Bool-cases, inl, inr,
}
use go_red.Address.Parse.Printed.{begins_part, match_at-digits, match_at-other}
use go_red.Command.Ident.{CommandId}
use go_red.Command.Parse.{
  space_at, skip_part, skip_parts, skip_address, letters, find_letter, letter, is_re_space,
}
use go_red.Range.Parse.{no_separators, is_separator}
use go_red.Text.Numbers.{starts_digit}
use go_red.Text.Trim.{not_space, every, not_space}
use go_red.Text.{Text, is_digit}

-- Bytes that neither a part of an address nor white space begins with.
abbrev pub ends_address : ℕ → Bool
ends_address c = not (begins_part c || is_re_space c)

unfoldable pub every_letter : (ℕ → Bool) → List (ℕ × CommandId) → Bool
every_letter test [] = true
every_letter test ((l, id) ∷ ls) = test l && every_letter test ls

-- What holds of all command letters holds of one that is found.
find_letter-every :
    (test : ℕ → Bool) (c : ℕ) (ls : List (ℕ × CommandId)) {id : CommandId}
    → find_letter c ls ≡ some id
    → every_letter test ls ≡ true
    → test c ≡ true
unfolding find_letter every_letter
find_letter-every test c [] h k = cc
find_letter-every test c ((l, i) ∷ ls) h k = elim (Bool-cases (c == l)) [
  | inl e ↦ let same : c ≡ l = ground (arith, e) in rw same (ground arith)
  | inr e ↦ find_letter-every test c ls (rw (e, find_letter) at h) (ground arith)
]

-- What holds of all command letters holds of each of them.
pub letter-every :
    (test : ℕ → Bool) (c : ℕ) {id : CommandId}
    → letter c ≡ some id
    → every_letter test letters ≡ true
    → test c ≡ true
unfolding letter
letter-every test c h k = find_letter-every test c letters h k

pub letter-ends_address : (c : ℕ) {id : CommandId} → letter c ≡ some id → ends_address c ≡ true
unfolding every_letter
letter-ends_address c h = letter-every ends_address c h refl

pub skip_part-none : (c : ℕ) (cs : Text) → ends_address c ≡ true → skip_part (c ∷ cs) ≡ none
unfolding skip_part space_at
skip_part-none c cs h =
    let other : begins_part c ≡ false = ground arith in
    let black : is_re_space c ≡ false = ground arith in
    rw (match_at-other c cs other, skip_part) (rw black)

skip_part-digits :
    (s rest : Text) (c : ℕ)
    → starts_digit s ≡ true
    → every is_digit s ≡ true
    → ends_address c ≡ true
    → skip_part (s ++ c ∷ rest) ≡ some (c ∷ rest)
unfolding skip_part
skip_part-digits s rest c p d e =
    let other : is_digit c ≡ false = ground arith in
    rw (match_at-digits s (c ∷ rest) p d other, skip_part)

pub skip_parts-digits :
    (fuel : ℕ) (s rest : Text) (c : ℕ)
    → starts_digit s ≡ true
    → every is_digit s ≡ true
    → ends_address c ≡ true
    → skip_parts (suc (suc fuel)) (s ++ c ∷ rest) ≡ c ∷ rest
unfolding skip_parts
skip_parts-digits fuel s rest c p d e =
    rw (skip_part-digits s rest c p d e, skip_parts) (rw (skip_part-none c rest e, skip_parts))

pub skip_address-digits :
    (s rest : Text) (c : ℕ)
    → starts_digit s ≡ true
    → every is_digit s ≡ true
    → ends_address c ≡ true
    → skip_address (s ++ c ∷ rest) ≡ c ∷ rest
unfolding skip_address
skip_address-digits [] rest c p d e = cc
skip_address-digits (x ∷ s) rest c p d e =
    skip_parts-digits (length (s ++ c ∷ rest)) (x ∷ s) rest c p d e

pub letter-not_separator : (c : ℕ) {id : CommandId} → letter c ≡ some id → is_separator c ≡ false
unfolding every_letter
letter-not_separator c h =
    let other = letter-every (λ l. not (is_separator l)) c h refl in ground arith

pub digits-no_separators : (s : Text) → every is_digit s ≡ true → no_separators s ≡ true
unfolding no_separators every
digits-no_separators [] h = refl
digits-no_separators (c ∷ s) h =
    let other : is_separator c ≡ false = ground arith in
    rw (other, no_separators) (digits-no_separators s (ground arith))

pub letter-not_space : (c : ℕ) {id : CommandId} → letter c ≡ some id → not_space c ≡ true
unfolding every_letter
letter-not_space c h = letter-every not_space c h refl
