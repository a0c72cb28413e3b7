-- ===== src/Subst/Replaced.antt =====
-- What `replaceLines` does to the buffer, and the list of undos that it gives.
use mathlib.Core.List.{append-nil, append_assoc}
use go_red.Base.{
  ℕ, zero, suc, ◌+◌, ◌-◌, ◌<◌, ◌≤◌, ◌≡◌, refl, ◌∙◌, sym, ap, arith, Bool, true, false, ◌||◌, some,
  List, [], ◌∷◌, ◌++◌, if◌then◌else◌, pos, length, length-append, length-take, length-drop, set,
  take, drop, take-append-drop, drop-drop, int_limit, Bool-cases, inl, inr,
}
use go_red.Address.Parse.Printed.{new_address-itoa}
use go_red.Address.{new_absolute_address}
use go_red.Buffer.{Line}
use go_red.Exec.{Run, done, ◌>>=◌, ◌>>◌, pure, print}
use go_red.Lines.Append.{at_world, move_to_line_lem}
use go_red.Lines.Cut.{segment}
use go_red.Lines.{from_element}
use go_red.Regex.{Engine}
use go_red.Show.Print.{line_text, print_line_lem}
use go_red.Show.{print_line}
use go_red.State.{World, Change}
use go_red.Subst.{Printing, undo_change, replace_line, replace_loop, replace_lines}
use go_red.Text.{Text, contains_byte, codes}

set-append :
    (pre els : List Line) (x y : Line) → set (pre ++ x ∷ els) (length pre) y ≡ pre ++ y ∷ els
set-append [] els x y = refl
set-append (p ∷ pre) els x y = ap (p ∷◌) (set-append pre els x y)

-- The line printed, or not.
shown_line :
    (p : Printing) (nbr : ℕ) (x : Line) (w : World)
    → (out : List Text) × ((if p.shows || p.numbers
            then print_line nbr x.line p.numbers
            else pure tt)
          w
        ≡ done tt (record w { out = out }))
shown_line p nbr x w = elim (Bool-cases (p.shows || p.numbers)) [
  | inl e ↦ (line_text p.numbers nbr x ∷ w.out, rw e (print_line_lem p.numbers nbr x w))
  | inr e ↦ (w.out, rw e)
]

module _ (re : Engine) (pattern replacement : Text) where
  -- A line as the substitution leaves it.
  pub substituted : Line → Line
  substituted x =
      if re.matches pattern x.line
      then record { line = re.replace_all pattern x.line replacement }
      else x

  pub all_substituted : List Line → List Line
  unfolding substituted
  all_substituted [] = []
  all_substituted (x ∷ xs) = substituted x ∷ all_substituted xs

  -- For each line that matches, in their order, the change that puts the old line back at its number.
  pub undos : ℕ → List Line → List Change
  undos nbr [] = []
  undos nbr (x ∷ xs) =
      let rest = undos (nbr + 1) xs in
      if re.matches pattern x.line
      then undo_change (new_absolute_address (pos nbr)) x ∷ rest
      else rest

  -- The world with line `nbr` changed, and perhaps printed.
  abbrev with_line : ℕ → Line → List Text → World → World
  with_line nbr y out w = record w {
    state = record w.state { buffer = set w.buffer (nbr - 1) y };
    out = out;
  }

  replace_line_lem :
      (p : Printing) (nbr : ℕ) (x : Line) (w : World)
      → nbr < int_limit
      → (out : List Text) × (replace_line re pattern replacement p nbr x w
          ≡ done
              (undo_change (new_absolute_address (pos nbr)) x)
              (with_line nbr (record { line = re.replace_all pattern x.line replacement }) out w))
  unfolding replace_line
  replace_line_lem p nbr x w i =
      let (out, e) =
        shown_line p nbr (record { line = re.replace_all pattern x.line replacement }) w in
      (out, rw (e, ◌>>=◌, ◌>>◌) (rw (new_address-itoa nbr i)))

  -- What the loop leaves of the lines it is at, behind those it has passed.
  abbrev Replaced : ℕ → ℕ → List Line → List Line → List Change → Run (List Change) → World → Type 0
  Replaced rounds nbr pre els acc r w =
      (v : World) × (r ≡ done (acc ++ undos nbr (take rounds els)) v)
      × (v.buffer ≡ pre ++ (all_substituted (take rounds els) ++ drop rounds els))
      × (v.line_nbr ≡ w.line_nbr)

  replace_loop_lem :
      (p : Printing) (rounds nbr : ℕ) (pre els : List Line) (acc : List Change) (w : World)
      → rounds ≤ length els
      → nbr ≡ length pre + 1
      → nbr + rounds ≤ int_limit
      → w.buffer ≡ pre ++ els
      → Replaced rounds nbr pre els acc
          (replace_loop re pattern replacement p rounds nbr els acc w)
          w
  unfolding replace_loop undos all_substituted substituted
  replace_loop_lem p zero nbr pre els acc w h n i b = (w, rw append-nil, b, refl)
  replace_loop_lem p (suc r) nbr pre [] acc w h n i b = absurd (omega arith)
  replace_loop_lem p (suc r) nbr pre (x ∷ els) acc w h n i b =
      elim (Bool-cases (re.matches pattern x.line)) [
        | inl e ↦
            let y : Line = record { line = re.replace_all pattern x.line replacement } in
            let (out, l) = replace_line_lem p nbr x w (omega arith) in
            let at : nbr - 1 ≡ length pre = omega arith in
            let buffer : set w.buffer (nbr - 1) y ≡ (pre ++ y ∷ []) ++ els =
              ap (λ c. set c (nbr - 1) y) b
              ∙ ap (λ k. set (pre ++ x ∷ els) k y) at
              ∙ set-append pre els x y
              ∙ rw append_assoc in
            let (v, c, d, f) =
              replace_loop_lem p r (nbr + 1) (pre ++ y ∷ []) els
                (acc ++ undo_change (new_absolute_address (pos nbr)) x ∷ []) (with_line nbr y out w)
                (omega arith) (omega (arith, length-append pre (y ∷ []))) (omega arith) buffer in
            (
              v,
              rw (e, replace_loop) (rw (l, ◌>>=◌) (c ∙ rw append_assoc)),
              rw e (d ∙ rw append_assoc),
              f,
            )
        | inr e ↦
            let (v, c, d, f) =
              replace_loop_lem p r (nbr + 1) (pre ++ x ∷ []) els acc w (omega arith)
                (omega (arith, length-append pre (x ∷ []))) (omega arith) (b ∙ rw append_assoc) in
            (v, rw (e, replace_loop) c, rw e (d ∙ rw append_assoc), f)
      ]

  -- The message of the suffix `l`, which is printed first.
  suffix_message :
      (b : Bool) (w : World)
      → (out : List Text) × ((if b
              then print (codes "(suffix l not supported, defaulting to p)")
              else pure tt)
            w
          ≡ done tt (record w { out = out }))
  suffix_message true w = (codes "(suffix l not supported, defaulting to p)" ∷ w.out, refl)
  suffix_message false w = (w.out, refl)

  -- Replacing on lines of the buffer with numbers that fit an `int` succeeds whatever the suffixes, a count included: each of these
  -- lines that matches is replaced by what the engine makes of it, and the other lines stay as they are; the first of the
  -- lines becomes the current one. The result is, for each line that matched and in their order, the change
  -- that puts the old line back at its number.
  pub replace_lines_lem :
      (start end : ℕ) (suffixes : Text) (w : World)
      → 0 < start
      → start ≤ end
      → end ≤ length w.buffer
      → end < int_limit
      → (v : World) × (replace_lines re start end pattern replacement suffixes w
          ≡ done (undos start (segment start end w.buffer)) v)
        × (v.buffer
            ≡ take (start - 1) w.buffer
              ++ (all_substituted (segment start end w.buffer) ++ drop end w.buffer))
        × (v.line_nbr ≡ start)
  unfolding replace_lines from_element
  replace_lines_lem start end suffixes w p q l i =
      let els = drop (start - 1) w.buffer in
      let pre = take (start - 1) w.buffer in
      let size = length-take (start - 1) w.buffer in
      let (out, m) = suffix_message (contains_byte suffixes b'l') w in
      let (v, e, b, f) =
        replace_loop_lem
          (record {
            shows = contains_byte suffixes b'p' || contains_byte suffixes b'l';
            numbers = contains_byte suffixes b'n';
          })
          (end + 1 - start) start pre els []
          (at_world start (some (start - 1)) (record w { out = out }))
          (omega (arith, length-drop (start - 1) w.buffer)) (omega (arith, size)) (omega arith)
          (sym (take-append-drop (start - 1) w.buffer)) in
      let at_end : start - 1 + (end + 1 - start) ≡ end = omega arith in
      let behind : drop (end + 1 - start) els ≡ drop end w.buffer =
        drop-drop (end + 1 - start) (start - 1) w.buffer ∙ ap (λ k. drop k w.buffer) at_end in
      (
        v,
        rw (m, ◌>>=◌, ◌>>◌)
            (rw (move_to_line_lem start (record w { out = out }) p (omega arith), ◌>>=◌, ◌>>◌) e),
        b ∙ rw behind,
        f,
      )
