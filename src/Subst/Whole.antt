-- ===== src/Subst/Whole.antt =====
-- The substitute command from its text to the buffer.
use go_red.Base.{
  ℕ, ◌-◌, ◌<◌, ◌≡◌, refl, ◌∙◌, ap, arith, true, false, some, List, [], ◌∷◌, ◌++◌, ◌==◌,
  if◌then◌else◌, pos, length, take, drop,
}
use go_red.Buffer.{Line}
use go_red.Command.Ident
use go_red.Command.{Command}
use go_red.Exec.{done, failed}
use go_red.Lines.Cut.{segment}
use go_red.Regex.{Engine}
use go_red.Result.{ok, no_substitutions}
use go_red.State.{World, add_undo, changes}
use go_red.Subst.Replaced.{undos, all_substituted}
use go_red.Subst.{
  extend_first, split, RegexCommand, four_pieces, parse_regex_command, cmd_substitute,
}
use go_red.Text.{codes, itoa, Text, contains_byte}

split-piece :
    (d : ℕ) (a t : Text) → contains_byte a d ≡ false → split d (a ++ d ∷ t) ≡ a ∷ split d t
unfolding split contains_byte extend_first
split-piece d [] t h = ground arith
split-piece d (c ∷ a) t h =
    let other : (c == d) ≡ false = ground arith in
    rw (other, split-piece d a t (ground arith), extend_first)

split-last : (d : ℕ) (a : Text) → contains_byte a d ≡ false → split d a ≡ a ∷ []
unfolding split contains_byte extend_first
split-last d [] h = refl
split-last d (c ∷ a) h =
    let other : (c == d) ≡ false = ground arith in
    rw (other, split-last d a (ground arith), extend_first)

-- The text of a substitution: a delimiter, then pattern, replacement and suffixes with the delimiter between them.
abbrev pub regex_text : ℕ → RegexCommand → Text
regex_text d c = d ∷ (c.pattern ++ d ∷ (c.replacement ++ d ∷ c.suffixes))

abbrev pub NotIn : ℕ → RegexCommand → Type 0
NotIn d c =
    (contains_byte c.pattern d ≡ false)
    × (contains_byte c.replacement d ≡ false)
    × (contains_byte c.suffixes d ≡ false)

split-regex_text :
    (d : ℕ) (c : RegexCommand)
    → NotIn d c
    → split d (regex_text d c) ≡ [] ∷ c.pattern ∷ c.replacement ∷ c.suffixes ∷ []
unfolding contains_byte
split-regex_text d c (a, b, s) =
    split-piece d [] _ refl
    ∙ ap ([] ∷◌) (
        split-piece d c.pattern _ a
        ∙ ap (c.pattern ∷◌)
            (split-piece d c.replacement _ b ∙ ap (c.replacement ∷◌) (split-last d c.suffixes s)))

four_pieces-nonempty :
    (p r s : Text)
    → 0 < length p
    → four_pieces ([] ∷ p ∷ r ∷ s ∷ []) ≡ ok (record { pattern = p; replacement = r; suffixes = s })
unfolding four_pieces
four_pieces-nonempty [] r s h = absurd (omega arith)
four_pieces-nonempty (x ∷ p) r s h = refl

-- A substitution written with a delimiter that stands in none of its three parts is read back, if its pattern is not empty.
pub parse_regex_command-regex_text :
    (d : ℕ) (c : RegexCommand)
    → 0 < length c.pattern
    → NotIn d c
    → parse_regex_command (regex_text d c) ≡ ok c
unfolding parse_regex_command
parse_regex_command-regex_text d c n h =
    ap four_pieces (split-regex_text d c h)
    ∙ four_pieces-nonempty c.pattern c.replacement c.suffixes n

module _ (re : Engine) (cmd : Command) (d start end : ℕ) (c : RegexCommand) (w : World) where
  -- The lines addressed, and how many of them match.
  abbrev addressed : List Line
  addressed = segment start end w.buffer

  abbrev pub hits : ℕ
  hits = length (undos re c.pattern c.replacement start addressed)

  abbrev pub Substituted : World → Type 0
  Substituted x =
      (cmd_substitute re cmd w ≡ (if hits == 0 then failed no_substitutions x else done tt x))
      × (x.buffer
          ≡ take (start - 1) w.buffer
            ++ (all_substituted re c.pattern c.replacement addressed ++ drop end w.buffer))
      × (x.line_nbr ≡ start)

  -- The world in which the lines are replaced, where the substitution is remembered.
  abbrev remembered : World
  remembered = record w {
    state = record w.state {
      last_subst_re = some c.pattern;
      last_subst_replacement = c.replacement;
      last_subst_suffixes = c.suffixes;
    };
  }

  -- The world when the undo of a substitution that ended in `v` is stored.
  abbrev stored : World → World
  stored v =
      let us = undos re c.pattern c.replacement start addressed in
      record v {
        state = record (add_undo (pos 1) (pos 1) Ident.undo_subst (changes us) cmd v.state) {
          changed_since_last_write = true;
        };
        out = (itoa (pos (length us)) ++ codes " lines changed\n") ∷ v.out;
      }
