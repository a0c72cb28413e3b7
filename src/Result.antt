-- ===== src/Result.antt =====
-- What a call gives: a value, a Go error, or a panic.
use go_red.Base.{ℕ, ◌≡◌, refl, ℤ}
use go_red.Text.{Text}

-- The errors of the program, by the value or the call that builds them. A constructor with an
-- error inside is one that wraps it (`%w`, or the `Err` of an `AddressError`).
pub data Error : Type 0 where
  invalid_line : ℤ → Error
  invalid_line_max : ℤ → ℕ → Error
  start_line_zero : Error
  in_command : Text → Error → Error
  invalid_destination : Text → Error
  invalid_destination_err : Text → Error → Error
  destination_too_large : ℕ → ℕ → Error
  destination_in_range : ℕ → ℕ → ℕ → Error
  unknown_mark : Text → Error
  no_matching_line : Error
  line_search_failed : Error
  bad_number : Text → Error
  bad_ident : Error
  invalid_start_of_range : Error → Error
  invalid_end_of_range : Error → Error
  bad_range : Error
  unrecognised_range : Error
  range_may_not_be_specified : Error
  address_not_resolved : Error
  bad_mark_name : Error
  missing_filename : Error
  not_allowed_in_global : Error
  nothing_to_undo : Error
  invalid_window_size : Error
  scroll_range : Error
  unrecognised_command : Error
  syntax_error : Text → Error
  unterminated_regex : Error
  could_not_parse_range : Error → Error
  general_parse_error : Error
  could_not_parse_address_1 : Error → Error
  could_not_parse_address_2 : Error → Error
  missing_delimiter : Error
  no_substitutions : Error
  no_previous_regex : Error
  bad_regex : Text → Error
  no_such_file : Text → Error
  cannot_create : Text → Error
  read_failed : Error
  write_failed : Error
  no_help : Text → Error

pub data Result {ℓ} (A : Type ℓ) : Type ℓ where
  ok : A → Result A
  err : Error → Result A
  panic : Result A

infixl 5 ◌>>=◌
abbrev pub ◌>>=◌ {ℓ κ} : {A : Type ℓ} {B : Type κ} → Result A → (A → Result B) → Result B
ok a >>= f = f a
err e >>= f = err e
panic >>= f = panic

-- A returned error passed on inside another.
abbrev pub map_err {ℓ} : {A : Type ℓ} → (Error → Error) → Result A → Result A
map_err f (ok a) = ok a
map_err f (err e) = err (f e)
map_err f panic = panic

pub >>=-eq-ok {ℓ κ} :
    {S : Type ℓ} {T : Type κ} (first : Result S) (next : S → Result T) {t : T}
    → (first >>= next) ≡ ok t
    → (s : S) × (first ≡ ok s) × (next s ≡ ok t)
>>=-eq-ok panic next e = cc
>>=-eq-ok (err x) next e = cc
>>=-eq-ok (ok s) next e = (s, refl, e)

pub map_err-eq-ok {ℓ} :
    {A : Type ℓ} (f : Error → Error) (m : Result A) {a : A} → map_err f m ≡ ok a → m ≡ ok a
map_err-eq-ok f (ok a) h = h
map_err-eq-ok f (err e) h = cc
map_err-eq-ok f panic h = cc
