-- ===== src/Address/Search.antt =====
-- The two searches of address.go, `matchLineForward` and `matchLineBackward`.
pub mod Forward
pub mod Backward
use mathlib.Core.List.{reverse}
use go_red.Base.{
  ℕ, zero, suc, ◌+◌, ◌-◌, Bool, true, false, Option, none, some, List, [], ◌∷◌, if◌then◌else◌, ℤ,
  pos, negsuc, length, take, drop, get_elem?,
}
use go_red.Buffer.{Line, find_line}
use go_red.Regex.{Engine}
use go_red.Result.{Result, ok, err, panic, ◌>>=◌, no_matching_line, line_search_failed}
use go_red.Text.{Text}

-- `for e = e.Next(); e != nil && !found`: the lines are those behind the current line.
pub scan_down : (Line → Bool) → ℕ → List Line → Option ℕ
scan_down test current [] = none
scan_down test current (x ∷ xs) =
    let rest = scan_down test (current + 1) xs in if test x then some (current + 1) else rest

-- The second loop, which ends by its count; a nil element has no `Value`.
pub scan_down_for : (Line → Bool) → ℕ → ℕ → List Line → Result (Option ℕ)
scan_down_for test zero current xs = ok none
scan_down_for test (suc rounds) current [] = panic
scan_down_for test (suc rounds) current (x ∷ xs) =
    let rest = scan_down_for test rounds (current + 1) xs in
    if test x then ok (some (current + 1)) else rest

-- `for e = e.Prev(); e != nil`: the lines are those above the current line, the nearest first.
pub scan_up : (Line → Bool) → ℕ → List Line → Option ℕ
scan_up test current [] = none
scan_up test current (x ∷ xs) =
    let rest = scan_up test (current - 1) xs in if test x then some (current - 1) else rest

pub scan_up_for : (Line → Bool) → ℕ → ℕ → List Line → Result (Option ℕ)
scan_up_for test zero current xs = ok none
scan_up_for test (suc rounds) current [] = panic
scan_up_for test (suc rounds) current (x ∷ xs) =
    let rest = scan_up_for test rounds (current - 1) xs in
    if test x then ok (some current) else rest

or_no_match : Option ℕ → Result ℕ
or_no_match none = err no_matching_line
or_no_match (some n) = ok n

pub forward_from : (Line → Bool) → ℕ → List Line → Result ℕ
unfolding scan_down scan_down_for or_no_match
forward_from test start buffer = elim (scan_down test start (drop start buffer)) [
  | some n ↦ ok n
  | none ↦ scan_down_for test start 0 buffer >>= or_no_match
]

pub backward_from : (Line → Bool) → ℕ → List Line → Result ℕ
unfolding scan_up scan_up_for or_no_match
backward_from test start buffer = elim (scan_up test start (reverse (take (start - 1) buffer))) [
  | some n ↦ ok n
  | none ↦ scan_up_for test (length buffer - start) (length buffer) (reverse buffer) >>= or_no_match
]

-- What follows the call of `_findLine`: its panic, its nil pointer, or the search.
after_find : Option (Option ℕ) → Result ℕ → Result ℕ
after_find none search = panic
after_find (some none) search = err line_search_failed
after_find (some (some i)) search = search

module _ (re : Engine) where
  abbrev pub line_matches : Text → Line → Bool
  line_matches pattern l = re.matches pattern l.line

  -- `regexp.MustCompile` panics on a bad expression, `_findLine` on a negative number.
  unfoldable pub match_line_forward : ℤ → Text → List Line → Result ℕ
  unfolding after_find forward_from find_line
  match_line_forward (negsuc n) pattern buffer = panic
  match_line_forward (pos start) pattern buffer =
      if re.compiles pattern
      then after_find (find_line start buffer) (forward_from (line_matches pattern) start buffer)
      else panic

  unfoldable pub match_line_backward : ℤ → Text → List Line → Result ℕ
  unfolding after_find backward_from find_line
  match_line_backward (negsuc n) pattern buffer = panic
  match_line_backward (pos start) pattern buffer =
      if re.compiles pattern
      then after_find (find_line start buffer) (backward_from (line_matches pattern) start buffer)
      else panic

-- The line with this index satisfies the test.
abbrev pub matches_at : (Line → Bool) → List Line → ℕ → Bool
matches_at test xs i = elim (get_elem? xs i) [ none ↦ false | some l ↦ test l ]
