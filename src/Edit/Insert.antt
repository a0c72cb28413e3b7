-- ===== src/Edit/Insert.antt =====
-- `append` and `insert` put the new lines in their place, behind one description of both.
use go_red.Base.{
  ℕ, ◌+◌, ◌-◌, ◌<◌, ◌≤◌, ◌≡◌, refl, ◌∙◌, arith, Bool, true, false, some, List, [], ◌∷◌, ◌++◌,
  if◌then◌else◌, pos, length, Bool-cases, inl, inr, ◌⊎◌,
}
use go_red.Buffer.{Line}
use go_red.Command.Ident.{CommandId}
use go_red.Command.{Command}
use go_red.Edit.{at_front, is_insert, add_undo_lines, insert_front, insert_lines, append_insert}
use go_red.Exec.{done, panicked, ◌>>=◌, ◌>>◌, with_range-some}
use go_red.Input.{given_or_read}
use go_red.Lines.Append.{
  append_lines_outside, appended, append_lines_lem, move_to-joined, not_empty,
}
use go_red.Lines.{append_lines}
use go_red.Range.{line_range}
use go_red.State.{set_changed, World, lines, add_undo}

-- The world with `new` after line `at`, the buffer marked as changed, and the undo that deletes the
-- new lines again.
abbrev pub inserted_world : Command → ℕ → List Line → World → World
inserted_world cmd at new w =
    let u = appended at new w in
    record u {
      state =
          add_undo (pos (at + 1)) (pos (at + length new)) CommandId.delete (lines new) cmd
            (record u.state { changed_since_last_write = true });
    }

-- The line after which a command puts its lines.
abbrev pub place : CommandId → ℕ → ℕ
place CommandId.insert start = start - 1
place _ start = start

front_place : (id : CommandId) (start : ℕ) → at_front id start ≡ true → place id start ≡ 0
front_place CommandId.append start h = ground arith
front_place CommandId.insert start h = ground arith
front_place _ start h = cc

insert_place :
    (id : CommandId) (start : ℕ)
    → at_front id start ≡ false
    → is_insert id ≡ true
    → start ≡ place id start + 1
insert_place CommandId.insert start h k = ground arith
insert_place _ start h k = cc

append_place :
    (id : CommandId) (start : ℕ)
    → at_front id start ≡ false
    → is_insert id ≡ false
    → start ≡ place id start
append_place CommandId.insert start h k = cc
append_place _ start h k = refl

pub place-le : (id : CommandId) (start : ℕ) → place id start ≤ start
place-le CommandId.insert start = omega arith
place-le _ start = omega arith

abbrev changed : World → World
changed w = record w { state = set_changed w.state }

module _ (cmd : Command) (new : List Line) (w : World) where
  append_then_undo :
      (at a b : ℕ)
      → a ≡ at + 1
      → b ≡ at + length new
      → at ≤ length w.buffer
      → 0 < length new
      → (append_lines at new >> add_undo_lines a b CommandId.delete (lines new) cmd) (changed w)
        ≡ done tt (inserted_world cmd at new w)
  unfolding add_undo_lines
  append_then_undo at a b p q h l =
      rw (append_lines_lem at new (changed w) h l, ◌>>=◌, ◌>>◌) (rw (p, q))

  insert_front_lem :
      0 < length new → insert_front cmd new (changed w) ≡ done tt (inserted_world cmd 0 new w)
  unfolding insert_front add_undo
  insert_front_lem l =
      let one : 1 ≡ 0 + 1 = omega arith in
      let size : length new ≡ 0 + length new = omega arith in
      rw
        (
          move_to-joined 0 (length new) new (new ++ w.buffer) (changed w) (omega arith) l refl size,
          ◌>>=◌,
          ◌>>◌,
        )
        (elim (Bool-cases w.processing_undo) [ inl e ↦ rw e | inr e ↦ rw (e, ← one, ← size) ])

  -- The three branches, by the two tests and the line that the commands put their lines after.
  by_branch :
      (front inserts : Bool) (at start : ℕ)
      → (front ≡ true → at ≡ 0)
      → (front ≡ false → inserts ≡ true → start ≡ at + 1)
      → (front ≡ false → inserts ≡ false → start ≡ at)
      → at ≤ length w.buffer
      → 0 < length new
      → (if front
            then insert_front cmd new
            else if inserts
            then (append_lines (start - 1) new
                >> add_undo_lines start (start + length new - 1) CommandId.delete (lines new) cmd)
            else (append_lines start new
                >> add_undo_lines
                    (start + 1)
                    (start + length new)
                    CommandId.delete
                    (lines new)
                    cmd))
          (changed w)
        ≡ done tt (inserted_world cmd at new w)
  by_branch true inserts at start a b c h l = rw (a refl) (insert_front_lem l)
  by_branch false true at start a b c h l =
      let back : start - 1 ≡ at = omega (arith, b refl refl) in
      rw back (
        append_then_undo at start (start + length new - 1) (b refl refl)
          (omega (arith, b refl refl)) h l)
  by_branch false false at start a b c h l =
      rw (c refl refl) (append_then_undo at (at + 1) (at + length new) refl refl h l)

  insert_lines_lem :
      (start : ℕ)
      → (cmd.cmd ≡ CommandId.append) ⊎ (cmd.cmd ≡ CommandId.insert)
      → start ≤ length w.buffer
      → 0 < length new
      → insert_lines cmd start new w ≡ done tt (inserted_world cmd (place cmd.cmd start) new w)
  unfolding insert_lines
  insert_lines_lem start k h l =
      by_branch (at_front cmd.cmd start) (is_insert cmd.cmd) (place cmd.cmd start) start
        (front_place cmd.cmd start) (insert_place cmd.cmd start) (append_place cmd.cmd start)
        (omega (arith, place-le cmd.cmd start)) l

-- With at least one line given, and an address up to the last line of the buffer, `append` puts the
-- lines behind the addressed line and `insert` before it (at line 0, before line 1): the buffer is
-- split there and nowhere else changed, the last new line becomes the current line, and the
-- undo, which is stored unless one is being processed, is a delete of exactly the new lines.
pub append_insert_lem :
    (cmd : Command) (start end : ℕ) (new : List Line) (w : World)
    → (cmd.cmd ≡ CommandId.append) ⊎ (cmd.cmd ≡ CommandId.insert)
    → cmd.resolved ≡ some (line_range start end)
    → start ≤ length w.buffer
    → 0 < length new
    → append_insert cmd (some new) w ≡ done tt (inserted_world cmd (place cmd.cmd start) new w)
unfolding append_insert given_or_read
append_insert_lem cmd start end [] w k r h l = absurd (omega arith)
append_insert_lem cmd start end (x ∷ new) w k r h l =
    with_range-some cmd.resolved _ w r
    ∙ rw (not_empty x new) (insert_lines_lem cmd (x ∷ new) w start k h l)

at_front-append :
    (id : CommandId) (start : ℕ) → id ≡ CommandId.append → 0 < start → at_front id start ≡ false
at_front-append CommandId.append start h k = ground arith
at_front-append _ start h k = cc

is_insert-append : (id : CommandId) → id ≡ CommandId.append → is_insert id ≡ false
is_insert-append CommandId.insert h = cc
is_insert-append _ h = refl

-- `append` of at least one line at a line number behind the last line, such as line 1 of an empty
-- buffer, panics.
pub append_insert_outside :
    (cmd : Command) (start end : ℕ) (x : Line) (new : List Line) (w : World)
    → cmd.cmd ≡ CommandId.append
    → cmd.resolved ≡ some (line_range start end)
    → length w.buffer < start
    → append_insert cmd (some (x ∷ new)) w ≡ panicked
unfolding append_insert given_or_read insert_lines
append_insert_outside cmd start end x new w k r h =
    let front = at_front-append cmd.cmd start k (omega arith) in
    with_range-some cmd.resolved _ w r
    ∙ rw (not_empty x new) (
        rw (front, is_insert-append cmd.cmd k)
          (rw (append_lines_outside start x new (changed w) h, ◌>>=◌, ◌>>◌)))
