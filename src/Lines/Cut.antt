-- ===== src/Lines/Cut.antt =====
-- What `copyLines` and `deleteLines` give and leave, and where they panic.
use mathlib.Core.List.{append-nil, append_assoc}
use go_red.Base.{
  ℕ, zero, suc, ◌+◌, ◌-◌, ◌<◌, ◌≤◌, ◌≡◌, refl, ◌∙◌, ap, sym, inl, inr, arith, none, some, List, [],
  ◌∷◌, ◌++◌, length, length-take, length-drop, take, drop, take-append-drop, erase_idx, drop-drop,
  Nat-cases,
}
use go_red.Buffer.{Line}
use go_red.Exec.{done, panicked, ◌>>=◌, ◌>>◌}
use go_red.Lines.Append.{at_world, move_to_line_lem, move_to_line_end, move_to_line_outside}
use go_red.Lines.{
  Cutting, cutting, copy_fn, delete_fn, iterate, finish_cut, iterate_lines, copy_lines,
  delete_lines,
}
use go_red.State.{World}

-- Lines `start` to `end`, counted from 1, and the buffer without them.
abbrev pub segment : ℕ → ℕ → List Line → List Line
segment start end buffer = take (end + 1 - start) (drop (start - 1) buffer)

abbrev pub without : ℕ → ℕ → List Line → List Line
without start end buffer = take (start - 1) buffer ++ drop end buffer

iterate-copy_fn :
    (rounds nbr : ℕ) (els : List Line) (s : Cutting)
    → rounds ≤ length els
    → iterate copy_fn rounds nbr els s ≡ some (cutting s.kept (s.cut ++ take rounds els))
unfolding iterate
iterate-copy_fn zero nbr els s h = rw append-nil
iterate-copy_fn (suc r) nbr [] s h = absurd (omega arith)
iterate-copy_fn (suc r) nbr (x ∷ els) s h =
    iterate-copy_fn r (nbr + 1) els (copy_fn nbr x s) (omega arith) ∙ rw append_assoc

erase_idx-append :
    (pre : List Line) (x : Line) (els : List Line)
    → erase_idx (pre ++ x ∷ els) (length pre) ≡ pre ++ els
erase_idx-append [] x els = refl
erase_idx-append (p ∷ pre) x els = ap (p ∷◌) (erase_idx-append pre x els)

iterate-delete_fn :
    (rounds start nbr : ℕ) (pre els cut : List Line)
    → start - 1 ≡ length pre
    → rounds ≤ length els
    → iterate (delete_fn start) rounds nbr els (cutting (pre ++ els) cut)
      ≡ some (cutting (pre ++ drop rounds els) (cut ++ take rounds els))
unfolding iterate
iterate-delete_fn zero start nbr pre els cut e h = rw append-nil
iterate-delete_fn (suc r) start nbr pre [] cut e h = absurd (omega arith)
iterate-delete_fn (suc r) start nbr pre (x ∷ els) cut e h =
    rw (e, erase_idx-append pre x els)
      (iterate-delete_fn r start (nbr + 1) pre els (cut ++ x ∷ []) e (omega arith)
        ∙ rw append_assoc)

iterate_outside {ℓ} :
    {S : Type ℓ} (fn : ℕ → Line → S → S) (rounds nbr : ℕ) (els : List Line) (s : S)
    → length els < rounds
    → iterate fn rounds nbr els s ≡ none
unfolding iterate
iterate_outside fn zero nbr els s h = absurd (omega arith)
iterate_outside fn (suc r) nbr [] s h = refl
iterate_outside fn (suc r) nbr (x ∷ els) s h =
    iterate_outside fn r (nbr + 1) els (fn nbr x s) (omega arith)

delete_loop :
    (start end : ℕ) (buffer : List Line)
    → 0 < start
    → start ≤ end
    → end ≤ length buffer
    → iterate
        (delete_fn start)
        (end + 1 - start)
        start
        (drop (start - 1) buffer)
        (cutting buffer [])
      ≡ some (cutting (without start end buffer) (segment start end buffer))
delete_loop start end buffer p q r =
    let at_end : start - 1 + (end + 1 - start) ≡ end = omega arith in
    rw take-append-drop at (
      iterate-delete_fn (end + 1 - start) start start (take (start - 1) buffer)
        (drop (start - 1) buffer) [] (omega (arith, length-take (start - 1) buffer))
        (omega (arith, length-drop (start - 1) buffer)))
    ∙ rw (drop-drop, at_end)

module _ (start end : ℕ) (w : World) where
  -- Copying lines of the buffer gives them, moves to the first of them, and changes nothing else.
  pub copy_lines_lem :
      0 < start
      → start ≤ end
      → end ≤ length w.buffer
      → copy_lines start end w
        ≡ done (segment start end w.buffer) (at_world start (some (start - 1)) w)
  unfolding copy_lines
  copy_lines_lem p q r =
      rw (move_to_line_lem start w p (omega arith), ◌>>=◌, ◌>>◌)
        (rw (
          iterate-copy_fn (end + 1 - start) start (drop (start - 1) w.buffer) (cutting w.buffer [])
              (omega (arith, length-drop (start - 1) w.buffer)),
          finish_cut,
        ))

  -- The world without lines `start` to `end`.
  abbrev pub cut_world : World
  cut_world = record w {
    state = record w.state {
      buffer = without start end w.buffer;
      dotline = some (start - 1);
      line_nbr = start;
    };
  }

  -- Deleting lines of the buffer gives them and leaves the others in their order.
  pub delete_lines_lem :
      0 < start
      → start ≤ end
      → end ≤ length w.buffer
      → delete_lines start end w ≡ done (segment start end w.buffer) cut_world
  unfolding delete_lines
  delete_lines_lem p q r =
      rw (move_to_line_lem start w p (omega arith), ◌>>=◌, ◌>>◌)
        (rw (delete_loop start end w.buffer p q r, finish_cut))

iterate_lines_outside :
    (start end : ℕ) (fn : ℕ → Line → Cutting → Cutting) (w : World)
    → start ≤ end
    → length w.buffer < end
    → iterate_lines start end fn w ≡ panicked
unfolding iterate_lines
iterate_lines_outside start end fn w q r = elim (Nat-cases start (length w.buffer + 1)) [
  | inl l ↦ elim (Nat-cases 0 start) [
    | inl p ↦
        rw (move_to_line_lem start w p (omega arith), ◌>>=◌, ◌>>◌)
          (rw (
            iterate_outside fn (end + 1 - start) start (drop (start - 1) w.buffer)
                (cutting w.buffer []) (omega (arith, length-drop (start - 1) w.buffer)),
            finish_cut,
          ))
    | inr z ↦ rw (move_to_line_outside start w (inl (omega arith)), ◌>>=◌, ◌>>◌)
  ]
  | inr m ↦ elim (Nat-cases (length w.buffer + 1) start) [
    | inl l ↦ rw (move_to_line_outside start w (inr l), ◌>>=◌, ◌>>◌)
    | inr l ↦
        rw (move_to_line_end start w (omega arith), ◌>>=◌, ◌>>◌)
          (rw (
            iterate_outside fn (end + 1 - start) start [] (cutting w.buffer []) (omega arith),
            finish_cut,
          ))
  ]
]

-- Where lines up to one behind the buffer are asked for, copying and deleting them panic.
pub cut_outside :
    (start end : ℕ) (w : World)
    → start ≤ end
    → length w.buffer < end
    → (copy_lines start end w ≡ panicked) × (delete_lines start end w ≡ panicked)
unfolding copy_lines delete_lines
cut_outside start end w q r = (
  iterate_lines_outside start end copy_fn w q r,
  iterate_lines_outside start end (delete_fn start) w q r,
)

-- The lines of a range with those before and behind them are the buffer.
pub segment-parts :
    (start end : ℕ) (buffer : List Line)
    → 0 < start
    → start ≤ end
    → take (start - 1) buffer ++ (segment start end buffer ++ drop end buffer) ≡ buffer
segment-parts start end buffer p q =
    let at_end : start - 1 + (end + 1 - start) ≡ end = omega arith in
    let behind : drop end buffer ≡ drop (end + 1 - start) (drop (start - 1) buffer) =
      sym (drop-drop (end + 1 - start) (start - 1) buffer ∙ ap (λ k. drop k buffer) at_end) in
    ap (λ d. take (start - 1) buffer ++ (segment start end buffer ++ d)) behind
    ∙ ap (take (start - 1) buffer ++◌)
        (take-append-drop (end + 1 - start) (drop (start - 1) buffer))
    ∙ take-append-drop (start - 1) buffer
