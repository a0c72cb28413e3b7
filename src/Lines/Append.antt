-- ===== src/Lines/Append.antt =====
-- What `moveToLine` and `appendLines` do to the state, and where they panic.
use mathlib.Core.List.{append-nil, append_assoc}
use native.Mathlib.Numerals.{add-one}
use go_red.Base.{
  ℕ, zero, suc, ◌+◌, ◌-◌, ◌<◌, ◌≤◌, ◌==◌, ◌≡◌, refl, ◌∙◌, ap, ◌⊎◌, inl, inr, arith, Option, none,
  some, List, [], ◌∷◌, ◌++◌, if◌then◌else◌, length, length-append, take, drop, take-eq_self,
  drop-eq_nil, insert_idx, false, Bool-cases, ==_iff, length-take, length-drop, take-append-drop,
  sym,
}
use go_red.Buffer.{Line}
use go_red.Buffer.Find.{find_line-eq_some, find_line_end, find_line_outside}
use go_red.Exec.{done, panicked, ◌>>=◌, ◌>>◌}
use go_red.Lines.{at_line, move_to_line, insert_after, inserted, append_lines}
use go_red.State.{World}

abbrev pub at_world : ℕ → Option ℕ → World → World
at_world n el w = record w { state = at_line n el w.state }

pub move_to_line_lem :
    (n : ℕ) (w : World)
    → 0 < n
    → n ≤ length w.buffer
    → move_to_line n w ≡ done tt (at_world n (some (n - 1)) w)
unfolding move_to_line
move_to_line_lem n w h l = rw (find_line-eq_some n w.buffer h l)

-- One line behind the last the pointer is nil, and the line number is set all the same.
pub move_to_line_end :
    (n : ℕ) (w : World) → n ≡ length w.buffer + 1 → move_to_line n w ≡ done tt (at_world n none w)
unfolding move_to_line
move_to_line_end n w h = rw (find_line_end n w.buffer h)

pub move_to_line_outside :
    (n : ℕ) (w : World) → (n ≡ 0) ⊎ (length w.buffer + 1 < n) → move_to_line n w ≡ panicked
unfolding move_to_line
move_to_line_outside n w h = rw (find_line_outside n w.buffer h)

-- The buffer with `new` after line `n`.
abbrev pub spliced : ℕ → List Line → List Line → List Line
spliced n new buffer = take n buffer ++ (new ++ drop n buffer)

take-insert_idx :
    (n : ℕ) (x : Line) (xs : List Line)
    → n ≤ length xs
    → take (suc n) (insert_idx xs n x) ≡ take n xs ++ x ∷ []
take-insert_idx zero x xs h = refl
take-insert_idx (suc n) x [] h = absurd (omega arith)
take-insert_idx (suc n) x (y ∷ xs) h = ap (y ∷◌) (take-insert_idx n x xs (omega arith))

drop-insert_idx :
    (n : ℕ) (x : Line) (xs : List Line)
    → n ≤ length xs
    → drop (suc n) (insert_idx xs n x) ≡ drop n xs
drop-insert_idx zero x xs h = refl
drop-insert_idx (suc n) x [] h = absurd (omega arith)
drop-insert_idx (suc n) x (y ∷ xs) h = drop-insert_idx n x xs (omega arith)

length-insert_idx :
    (n : ℕ) (x : Line) (xs : List Line) → length (insert_idx xs n x) ≡ suc (length xs)
length-insert_idx zero x xs = refl
length-insert_idx (suc n) x [] = refl
length-insert_idx (suc n) x (y ∷ xs) = ap suc (length-insert_idx n x xs)

insert_after-spliced :
    (i : ℕ) (new buffer : List Line)
    → i < length buffer
    → insert_after (some i) new buffer ≡ some (spliced (suc i) new buffer)
unfolding insert_after
insert_after-spliced i [] buffer h = ap some (sym (take-append-drop (suc i) buffer))
insert_after-spliced i (x ∷ new) buffer h =
    let next = insert_idx buffer (suc i) x in
    let size = length-insert_idx (suc i) x buffer in
    rw add-one (
      insert_after-spliced (suc i) new next (omega arith)
      ∙ rw (take-insert_idx (suc i) x buffer h, drop-insert_idx (suc i) x buffer h, append_assoc))

-- The world with `new` appended after line `n`.
abbrev pub appended : ℕ → List Line → World → World
appended n new w = record w {
  state = record w.state {
    buffer = spliced n new w.buffer;
    dotline = some (n + length new - 1);
    line_nbr = n + length new;
  };
}

pub length-spliced :
    (n : ℕ) (new buffer : List Line)
    → n ≤ length buffer
    → length (spliced n new buffer) ≡ length buffer + length new
length-spliced n new buffer h = omega (
  arith,
  length-append (take n buffer) (new ++ drop n buffer),
  length-append new (drop n buffer),
  length-take n buffer,
  length-drop n buffer,
)

spliced_end : (new buffer : List Line) → spliced (length buffer) new buffer ≡ buffer ++ new
spliced_end new buffer = rw (
  take-eq_self (length buffer) buffer (omega arith),
  drop-eq_nil (length buffer) buffer (omega arith),
  append-nil,
)

-- `moveToLine` after the buffer has become the spliced one.
move_to-spliced :
    (n : ℕ) (new : List Line) (w : World)
    → n ≤ length w.buffer
    → 0 < length new
    → move_to_line
        (n + length new)
        (record w { state = record w.state { buffer = spliced n new w.buffer } })
      ≡ done tt (appended n new w)
move_to-spliced n new w h l =
    move_to_line_lem (n + length new)
      (record w { state = record w.state { buffer = spliced n new w.buffer } }) (omega arith)
      (omega (arith, length-spliced n new w.buffer h))

-- The same, where the buffer and the line number are given by other terms.
pub move_to-joined :
    (n m : ℕ) (new joined : List Line) (w : World)
    → n ≤ length w.buffer
    → 0 < length new
    → joined ≡ spliced n new w.buffer
    → m ≡ n + length new
    → move_to_line m (record w { state = record w.state { buffer = joined } })
      ≡ done tt (appended n new w)
move_to-joined n m new joined w h l p q = rw (p, q) (move_to-spliced n new w h l)

append_middle :
    (n : ℕ) (new : List Line) (w : World)
    → 0 < n
    → n ≤ length w.buffer
    → 0 < length new
    → inserted
        (n + length new)
        (insert_after (some (n - 1)) new w.buffer)
        (at_world n (some (n - 1)) w)
      ≡ done tt (appended n new w)
unfolding inserted
append_middle n new w p h l =
    let back : suc (n - 1) ≡ n = omega arith in
    rw (insert_after-spliced (n - 1) new w.buffer (omega arith), back)
      (move_to-spliced n new (at_world n (some (n - 1)) w) h l)

pub not_empty : (x : Line) (new : List Line) → (suc (length new) == 0) ≡ false
not_empty x new = ground arith

-- Lines appended after a line of the buffer, or after line 0, stand behind it in their order with the
-- other lines unchanged, and the last of them becomes the current line, if there is at least one.
pub append_lines_lem :
    (n : ℕ) (new : List Line) (w : World)
    → n ≤ length w.buffer
    → 0 < length new
    → append_lines n new w ≡ done tt (appended n new w)
unfolding append_lines
append_lines_lem n [] w h l = absurd (omega arith)
append_lines_lem n (x ∷ new) w h l = elim (Bool-cases (n == length w.buffer)) [
  | inl e ↦
      let at_end : n ≡ length w.buffer = (==_iff n _).0 e in
      rw (not_empty x new, e)
        (move_to-joined n _ (x ∷ new) (w.buffer ++ x ∷ new) w h l
          (rw at_end (sym (spliced_end (x ∷ new) w.buffer)))
          (omega (arith, length-append w.buffer (x ∷ new))))
  | inr e ↦ elim (Bool-cases (n == 0)) [
    | inl z ↦
        let at_start : n ≡ 0 = (==_iff n 0).0 z in
        rw (not_empty x new, e, z)
          (move_to-joined n _ (x ∷ new) (x ∷ new ++ w.buffer) w h l (rw at_start) (omega arith))
    | inr p ↦
        rw (not_empty x new, e, p)
          (rw (move_to_line_lem n w (ground arith) h, ◌>>=◌, ◌>>◌, if◌then◌else◌)
            (append_middle n (x ∷ new) w (ground arith) h l))
  ]
]

-- An empty list is not appended: nothing changes, not even the current line.
pub append_lines_nil : (n : ℕ) (w : World) → append_lines n [] w ≡ done tt w
unfolding append_lines
append_lines_nil n w = refl

-- Appending at least one line after a line number that the buffer does not have panics.
pub append_lines_outside :
    (n : ℕ) (x : Line) (new : List Line) (w : World)
    → length w.buffer < n
    → append_lines n (x ∷ new) w ≡ panicked
unfolding append_lines
append_lines_outside n x new w h =
    let not_end : (n == length w.buffer) ≡ false = ground arith in
    let not_start : (n == 0) ≡ false = ground arith in
    rw (not_empty x new, not_end, not_start)
      (elim (Bool-cases (n == length w.buffer + 1)) [
        | inl e ↦
            rw (move_to_line_end n w ((==_iff n _).0 e), ◌>>=◌, ◌>>◌, if◌then◌else◌)
              (unfold inserted insert_after in refl)
        | inr e ↦ rw (move_to_line_outside n w (inr (ground arith)), ◌>>=◌, ◌>>◌, if◌then◌else◌)
      ])
