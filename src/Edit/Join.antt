-- ===== src/Edit/Join.antt =====
-- `Join` replaces the addressed lines by one.
use go_red.Base.{
  ℕ, ◌-◌, ◌<◌, ◌≤◌, ◌≡◌, refl, ◌∙◌, ap, arith, false, some, List, [], ◌∷◌, ◌++◌, ◌==◌, length, take,
  drop, Bool-cases, inl, inr,
}
use mathlib.Core.List.{append_assoc}
use go_red.Buffer.{Line}
use go_red.Command.Ident.{CommandId}
use go_red.Command.{Command, new_resolved, create_new_resolved_command_lem}
use go_red.Edit.Change.{change_lem}
use go_red.Edit.{change, join, joined, end_joined, space_for_newline, or_abort}
use go_red.Exec.{done, ◌>>=◌, ◌>>◌, with_range-some}
use go_red.Lines.Append.{at_world}
use go_red.Lines.Cut.{segment, copy_lines_lem}
use go_red.Range.{line_range}
use go_red.State.{World}
use go_red.Text.{Text, contains_byte}

-- A line is its text and a newline.
abbrev pub whole_line : Text → Line
whole_line t = record { line = t ++ b'\n' ∷ [] }

unfoldable pub whole_lines : List Text → List Line
whole_lines [] = []
whole_lines (t ∷ ts) = whole_line t ∷ whole_lines ts

-- The texts with single spaces between them, and a newline at the end.
pub spaced : Text → List Text → Text
spaced t [] = t ++ b'\n' ∷ []
spaced t (u ∷ us) = t ++ 32 ∷ spaced u us

abbrev pub NoNewlines : List Text → Type 0
NoNewlines [] = Unit {0}
NoNewlines (t ∷ ts) = (contains_byte t b'\n' ≡ false) × NoNewlines ts

space_for_newline_lem :
    (t : Text) → contains_byte t b'\n' ≡ false → space_for_newline (t ++ b'\n' ∷ []) ≡ t ++ 32 ∷ []
unfolding space_for_newline contains_byte
space_for_newline_lem [] h = refl
space_for_newline_lem (c ∷ cs) h = elim (Bool-cases (c == b'\n')) [
  | inl e ↦ ground arith
  | inr e ↦ rw e (ap (c ∷◌) (space_for_newline_lem cs (ground arith)))
]

end_joined-append :
    (t : Text) (c : ℕ) (s u : Text)
    → end_joined (c ∷ s) ≡ some u
    → end_joined (t ++ c ∷ s) ≡ some (t ++ u)
unfolding end_joined
end_joined-append [] c s u h = h
end_joined-append (a ∷ []) c s u h = rw (h, end_joined)
end_joined-append (a ∷ b ∷ t) c s u h = rw (end_joined-append (b ∷ t) c s u h, end_joined)

end_joined-cons :
    (t : Text) (s u : Text) → end_joined s ≡ some u → end_joined (t ++ s) ≡ some (t ++ u)
unfolding end_joined
end_joined-cons t [] u h = cc
end_joined-cons t (c ∷ s) u h = end_joined-append t c s u h

-- Joining whole lines without other newlines puts single spaces between their texts.
end_joined-joined :
    (t : Text) (ts : List Text)
    → NoNewlines (t ∷ ts)
    → end_joined (joined (whole_lines (t ∷ ts))) ≡ some (spaced t ts)
unfolding joined whole_lines spaced end_joined
end_joined-joined t [] h =
    rw (space_for_newline_lem t h.0, append_assoc) (end_joined-append t 32 [] (b'\n' ∷ []) refl)
end_joined-joined t (u ∷ us) h = rw (space_for_newline_lem t h.0) (
    end_joined-cons (t ++ 32 ∷ []) (joined (whole_lines (u ∷ us))) (spaced u us)
      (end_joined-joined u us h.1)
    ∙ rw append_assoc)

module _ (cmd : Command) (start end : ℕ) (w : World) where
  -- The world in which `Join` calls `Change`.
  abbrev pub copied_world : World
  copied_world = at_world start (some (start - 1)) w

  abbrev pub change_command : Command
  change_command = new_resolved (line_range start end) CommandId.change cmd.rest_of_cmd

  pub join-change :
      (text : Text)
      → cmd.resolved ≡ some (line_range start end)
      → 0 < start
      → start ≤ end
      → end ≤ length w.buffer
      → end_joined (joined (segment start end w.buffer)) ≡ some text
      → join cmd w ≡ change change_command (some (record { line = text } ∷ [])) copied_world
  unfolding join or_abort
  join-change text r p q l j =
      with_range-some cmd.resolved _ w r
      ∙ rw (copy_lines_lem start end w p q l, ◌>>=◌, ◌>>◌)
          (rw (j, ◌>>=◌, ◌>>◌)
            (rw (
              create_new_resolved_command_lem cmd CommandId.change cmd.rest_of_cmd r,
              ◌>>=◌,
              ◌>>◌,
            )))

  -- Joining lines of the buffer, or a single one, each of which ends with its only newline, succeeds and puts in their place one line:
  -- their texts with single spaces between them, and a newline. It becomes the current line, and the old lines the cut
  -- buffer.
  pub join_lem :
      (t : Text) (ts : List Text)
      → cmd.resolved ≡ some (line_range start end)
      → 0 < start
      → start ≤ end
      → end ≤ length w.buffer
      → NoNewlines (t ∷ ts)
      → segment start end w.buffer ≡ whole_lines (t ∷ ts)
      → (v : World) × (join cmd w ≡ done tt v)
        × (v.buffer
            ≡ take (start - 1) w.buffer ++ (record { line = spaced t ts } ∷ drop end w.buffer))
        × (v.line_nbr ≡ start)
        × (v.cut_buffer ≡ segment start end w.buffer)
  join_lem t ts r p q l n s =
      let text = ap (λ x. end_joined (joined x)) s ∙ end_joined-joined t ts n in
      let (v, e, b, m, c) =
        change_lem change_command start end (record { line = spaced t ts } ∷ []) copied_world refl p
          q l (omega arith) in
      (v, join-change (spaced t ts) r p q l text ∙ e, b, m ∙ omega arith, c)
