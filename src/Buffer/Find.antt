-- ===== src/Buffer/Find.antt =====
-- Where `_findLine` stops, and when it panics.
use go_red.Base.{ℕ, ◌+◌, ◌-◌, ◌<◌, ◌≤◌, ◌≡◌, arith, List, [], ◌∷◌, none, some, length, ◌⊎◌}
use go_red.Buffer.{Line, find_from, find_line}

find_from-eq_some :
    (xs : List Line) (r nbr : ℕ)
    → nbr ≤ r
    → r < nbr + length xs
    → find_from r nbr xs ≡ some (some (r - 1))
unfolding find_from
find_from-eq_some [] r nbr h l = absurd (omega arith)
find_from-eq_some (x ∷ xs) r nbr h l = ground (arith, find_from-eq_some xs r (nbr + 1))

find_from_end : (xs : List Line) (r nbr : ℕ) → r ≡ nbr + length xs → find_from r nbr xs ≡ some none
unfolding find_from
find_from_end [] r nbr h = ground arith
find_from_end (x ∷ xs) r nbr h = ground (arith, find_from_end xs r (nbr + 1))

find_from_outside :
    (xs : List Line) (r nbr : ℕ) → (r < nbr) ⊎ (nbr + length xs < r) → find_from r nbr xs ≡ none
unfolding find_from
find_from_outside [] r nbr h = ground arith
find_from_outside (x ∷ xs) r nbr h = ground (arith, find_from_outside xs r (nbr + 1))

pub find_line-eq_some :
    (n : ℕ) (buffer : List Line)
    → 0 < n
    → n ≤ length buffer
    → find_line n buffer ≡ some (some (n - 1))
unfolding find_line
find_line-eq_some n buffer h l = find_from-eq_some buffer n 1 h (omega arith)

pub find_line_end :
    (n : ℕ) (buffer : List Line) → n ≡ length buffer + 1 → find_line n buffer ≡ some none
unfolding find_line
find_line_end n buffer h = find_from_end buffer n 1 (omega arith)

pub find_line_outside :
    (n : ℕ) (buffer : List Line) → (n ≡ 0) ⊎ (length buffer + 1 < n) → find_line n buffer ≡ none
unfolding find_line
find_line_outside n buffer h = find_from_outside buffer n 1 (omega arith)
