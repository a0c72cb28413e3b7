-- ===== src/Mark/Table.antt =====
-- The table of marks as a whole: each name stands in it at most once, and an update acts on each mark by itself.
use mathlib.Core.Path.{subst}
use go_red.Base.{
  ◌+◌, ◌-◌, ◌≤◌, ltb, leb, ◌&&◌, Nat-cases, arith, ℕ, ◌≡◌, refl, ◌∙◌, ap, Bool, true, false, Option,
  none, some, [], ◌∷◌, inl, inr, Bool-cases, if◌then◌else◌,
}
use go_red.Mark.{delete_shift, Marks, find_mark, add_mark, keep_mark, shift_marks}
use go_red.Text.Equal.{apart, turned}
use go_red.Text.{Text, equal, equal_iff}

-- A table in which no name stands twice, as in a map.
abbrev pub Distinct : Marks → Type 0
Distinct [] = Unit {0}
Distinct ((n, l) ∷ marks) = (find_mark n marks ≡ none) × Distinct marks

-- What an update makes of the mark that a name has.
abbrev pub shifted : (ℕ → Option ℕ) → Option ℕ → Option ℕ
shifted shift none = none
shifted shift (some n) = shift n

find_mark-keep_mark :
    (name n : Text) (o : Option ℕ) (rest : Marks)
    → equal n name ≡ false
    → find_mark name (keep_mark n o rest) ≡ find_mark name rest
unfolding find_mark keep_mark
find_mark-keep_mark name n none rest h = refl
find_mark-keep_mark name n (some l) rest h = rw h

find_mark-keep_mark_same :
    (name n : Text) (o : Option ℕ) (rest : Marks)
    → equal n name ≡ true
    → find_mark name rest ≡ none
    → find_mark name (keep_mark n o rest) ≡ o
unfolding find_mark keep_mark
find_mark-keep_mark_same name n none rest h e = e
find_mark-keep_mark_same name n (some l) rest h e = rw h

-- In a table without a name twice, an update of the table updates the mark of each name.
pub find_mark-shift_marks :
    (name : Text) (shift : ℕ → Option ℕ) (marks : Marks)
    → Distinct marks
    → find_mark name (shift_marks shift marks) ≡ shifted shift (find_mark name marks)
unfolding find_mark shift_marks keep_mark
find_mark-shift_marks name shift [] d = refl
find_mark-shift_marks name shift ((n, l) ∷ marks) d =
    let ih = find_mark-shift_marks name shift marks d.1 in
    elim (Bool-cases (equal n name)) [
      | inl same ↦
          let absent : find_mark name marks ≡ none =
            subst (λ t. find_mark t marks ≡ none) ((equal_iff n name).0 same) d.0 in
          let gone : find_mark name (shift_marks shift marks) ≡ none =
            ih ∙ ap (shifted shift) absent in
          rw same (find_mark-keep_mark_same name n (shift l) (shift_marks shift marks) same gone)
      | inr other ↦
          rw other (find_mark-keep_mark name n (shift l) (shift_marks shift marks) other ∙ ih)
    ]

keep_mark-Distinct :
    (n : Text) (o : Option ℕ) (rest : Marks)
    → find_mark n rest ≡ none
    → Distinct rest
    → Distinct (keep_mark n o rest)
unfolding keep_mark
keep_mark-Distinct n none rest h d = d
keep_mark-Distinct n (some l) rest h d = (h, d)

-- An update of the table leaves no name twice.
pub shift_marks-Distinct :
    (shift : ℕ → Option ℕ) (marks : Marks) → Distinct marks → Distinct (shift_marks shift marks)
unfolding shift_marks
shift_marks-Distinct shift [] d = tt
shift_marks-Distinct shift ((n, l) ∷ marks) d =
    keep_mark-Distinct n (shift l) (shift_marks shift marks)
      (find_mark-shift_marks n shift marks d.1 ∙ ap (shifted shift) d.0)
      (shift_marks-Distinct shift marks d.1)

-- A mark that is added is the mark of its name, and those of the other names stay.
pub find_mark-add_mark :
    (name n : Text) (l : ℕ) (marks : Marks)
    → find_mark name (add_mark n l marks) ≡ (if equal n name then some l else find_mark name marks)
unfolding find_mark add_mark
find_mark-add_mark name n l [] = refl
find_mark-add_mark name n l ((x, k) ∷ marks) = elim (Bool-cases (equal x n)) [
  | inl same ↦
      let alike : equal x name ≡ equal n name = ap (λ t. equal t name) ((equal_iff x n).0 same) in
      rw (same, alike) (elim (Bool-cases (equal n name)) [ inl e ↦ rw e | inr e ↦ rw e ])
  | inr other ↦
      let ih = find_mark-add_mark name n l marks in
      rw other (elim (Bool-cases (equal x name)) [
        | inl e ↦ let first : equal n name ≡ false = apart x n name other e in rw (e, first)
        | inr e ↦ rw e ih
      ])
]

-- Adding a mark leaves no name twice.
pub add_mark-Distinct :
    (n : Text) (l : ℕ) (marks : Marks) → Distinct marks → Distinct (add_mark n l marks)
unfolding add_mark find_mark
add_mark-Distinct n l [] d = (refl, tt)
add_mark-Distinct n l ((x, k) ∷ marks) d = on (add_mark-Distinct n l marks d.1) (equal x n) refl
  where
    on :
        Distinct (add_mark n l marks)
        → (b : Bool) → equal x n ≡ b
        → Distinct (if b then (x, l) ∷ marks else (x, k) ∷ add_mark n l marks)
    on rest true e = d
    on rest false e =
        let other : equal n x ≡ false = turned x n e in
        (find_mark-add_mark x n l marks ∙ rw (other, d.0), rest)

-- The marks when lines are gone: those on the lines before stay, those on the lines are dropped, and those behind
-- move up by as many lines.
abbrev pub marks_without : ℕ → ℕ → Marks → Marks
marks_without start end [] = []
marks_without start end ((name, n) ∷ marks) =
    if ltb n start
    then (name, n) ∷ marks_without start end marks
    else if ltb end n
    then (name, n - (end + 1 - start)) ∷ marks_without start end marks
    else marks_without start end marks

pub shift_marks-delete_shift :
    (start end : ℕ) (marks : Marks)
    → start ≤ end
    → shift_marks (delete_shift start end) marks ≡ marks_without start end marks
unfolding shift_marks delete_shift keep_mark
shift_marks-delete_shift start end [] h = refl
shift_marks-delete_shift start end ((name, n) ∷ marks) h =
    let ih = shift_marks-delete_shift start end marks h in
    elim (Nat-cases end n) [
      | inl over ↦
          let a : (leb n end && leb start n) ≡ false = ground arith in
          let b : ltb end n ≡ true = ground arith in
          let c : ltb n start ≡ false = ground arith in
          rw (a, b, c) (ap ((name, n - (end + 1 - start)) ∷◌) ih)
      | inr under ↦ elim (Bool-cases (ltb n start)) [
        | inl low ↦
            let a : (leb n end && leb start n) ≡ false = ground arith in
            let b : ltb end n ≡ false = ground arith in rw (a, b, low) (ap ((name, n) ∷◌) ih)
        | inr high ↦
            let a : (leb n end && leb start n) ≡ true = ground arith in
            let b : ltb end n ≡ false = ground arith in rw (a, b, high) ih
      ]
    ]
