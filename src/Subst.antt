-- ===== src/Subst.antt =====
-- The substitute command and the stub of the global one (regex.go).
pub mod Keeps
pub mod Replaced
pub mod Whole
use go_red.Base.{
  ℕ, zero, suc, ◌+◌, ◌-◌, Bool, true, false, ◌||◌, Option, none, some, List, [], ◌∷◌, ◌++◌, ◌==◌,
  if◌then◌else◌, pos, length, set,
}
use go_red.Address.{Address}
use go_red.Address.Parse.{new_address}
use go_red.Buffer.{Line}
use go_red.Command.Ident
use go_red.Command.{Command, zero_command}
use go_red.Exec.{failed, Exec, ◌>>=◌, ◌>>◌, pure, raise, abort, gets, modify, lift, print}
use go_red.Lines.{from_element, move_to_line}
use go_red.Range.{comma, get_address_range}
use go_red.Regex.{Engine}
use go_red.Result.{
  bad_regex, missing_delimiter, no_previous_regex, no_substitutions, Result, ok, err, panic,
}
use go_red.Show.{print_line}
use go_red.State.{Change, changes, add_undo}
use go_red.Text.{Text, codes, itoa, trim_space, contains_byte}

extend_first : ℕ → List Text → List Text
extend_first c [] = (c ∷ []) ∷ []
extend_first c (p ∷ ps) = (c ∷ p) ∷ ps

-- `strings.Split` at a single byte.
pub split : ℕ → Text → List Text
unfolding extend_first
split delimiter [] = [] ∷ []
split delimiter (c ∷ cs) =
    let rest = split delimiter cs in if c == delimiter then [] ∷ rest else extend_first c rest

pub record RegexCommand : Type 0 where
  pub pattern : Text
  pub replacement : Text
  pub suffixes : Text

-- Four pieces, the first of them in front of the delimiter, the second not empty.
four_pieces : List Text → Result RegexCommand
four_pieces (a ∷ (c ∷ cs) ∷ replacement ∷ suffixes ∷ []) =
    ok (record { pattern = c ∷ cs; replacement = replacement; suffixes = suffixes })
four_pieces _ = err missing_delimiter

unfoldable pub parse_regex_command : Text → Result RegexCommand
unfolding split four_pieces
parse_regex_command [] = panic
parse_regex_command (d ∷ ds) = four_pieces (split d (d ∷ ds))

-- What the suffixes ask to print.
pub record Printing : Type 0 where
  pub shows : Bool
  pub numbers : Bool

-- The undo of one changed line, a change that puts the old line back.
abbrev pub undo_change : Address → Line → Change
undo_change current old = record {
  cmd = record {
    addr_range = record { start = current; end = current; separator = comma };
    resolved = none;
    cmd = Ident.change;
    rest_of_cmd = [];
  };
  text = old ∷ [];
  original_cmd = zero_command;
}

module _ (re : Engine) where
  -- One line that matches.
  replace_line : Text → Text → Printing → ℕ → Line → Exec Change
  replace_line pattern replacement p nbr x = do
    let changed = re.replace_all pattern x.line replacement
    if p.shows || p.numbers then print_line nbr changed p.numbers else pure tt
    modify (λ s. record s { buffer = set s.buffer (nbr - 1) (record { line = changed }) })
    current ← lift (new_address (itoa (pos nbr)))
    pure (undo_change current x)

  -- The loop of `replaceLines` with `rounds` left.
  pub replace_loop : Text → Text → Printing → ℕ → ℕ → List Line → List Change → Exec (List Change)
  unfolding replace_line
  replace_loop pattern replacement p zero nbr els undo_list = pure undo_list
  replace_loop pattern replacement p (suc rounds) nbr [] undo_list = abort
  replace_loop pattern replacement p (suc rounds) nbr (x ∷ els) undo_list =
      elim (re.matches pattern x.line) [
        | true ↦ replace_line pattern replacement p nbr x >>= λ c.
            replace_loop pattern replacement p rounds (nbr + 1) els (undo_list ++ c ∷ [])
        | false ↦ replace_loop pattern replacement p rounds (nbr + 1) els undo_list
      ]

  unfoldable pub replace_lines : ℕ → ℕ → Text → Text → Text → Exec (List Change)
  unfolding replace_loop
  replace_lines start end pattern replacement suffixes = do
    let list_suffix = contains_byte suffixes b'l'
    if list_suffix then print (codes "(suffix l not supported, defaulting to p)") else pure tt
    move_to_line start
    els ← gets (λ w. from_element w.dotline w.buffer)
    replace_loop pattern replacement
        (record {
          shows = contains_byte suffixes b'p' || list_suffix;
          numbers = contains_byte suffixes b'n';
        })
        (end + 1 - start) start els []

  unfoldable pub process_lines : ℕ → ℕ → RegexCommand → Exec (List Change)
  unfolding replace_lines
  process_lines start end c =
      if re.compiles c.pattern
      then (do
        modify (λ s. record s {
          last_subst_re = some c.pattern;
          last_subst_replacement = c.replacement;
          last_subst_suffixes = c.suffixes;
        })
        replace_lines start end c.pattern c.replacement c.suffixes)
      else raise (bad_regex c.pattern)

  with_previous : ℕ → ℕ → Option Text → Exec (List Change)
  with_previous start end none w = failed no_previous_regex w
  with_previous start end (some pattern) w =
      replace_lines start end pattern w.last_subst_replacement w.last_subst_suffixes w

  -- The suffixes that it is given are empty, so those of the previous substitution are used.
  unfoldable pub process_lines_using_previous_subst : ℕ → ℕ → Exec (List Change)
  unfolding with_previous replace_lines
  process_lines_using_previous_subst start end = do
    previous ← gets (λ w. w.last_subst_re)
    with_previous start end previous

  subst_lines : ℕ → ℕ → Text → Exec (List Change)
  subst_lines start end [] = process_lines_using_previous_subst start end
  subst_lines start end (c ∷ cs) = do
    command ← lift (parse_regex_command (c ∷ cs))
    process_lines start end command

  unfoldable pub cmd_substitute : Command → Exec (Unit {0})
  unfolding subst_lines process_lines process_lines_using_previous_subst parse_regex_command
  cmd_substitute cmd w0 =
      (do
        r ← lift (get_address_range re w0.buffer w0.marks w0.line_nbr cmd.addr_range)
        undo_list ← subst_lines r.start_line r.end_line (trim_space cmd.rest_of_cmd)
        if length undo_list == 0 then raise no_substitutions else (do
          print (itoa (pos (length undo_list)) ++ codes " lines changed\n")
          modify (add_undo (pos 1) (pos 1) Ident.undo_subst (changes undo_list) cmd)
          modify (λ s. record s { changed_since_last_write = true })))
        w0

  -- Only the address range is looked at.
  unfoldable pub cmd_global : Command → Exec (Unit {0})
  cmd_global cmd w0 =
      (do
        r ← lift (get_address_range re w0.buffer w0.marks w0.line_nbr cmd.addr_range)
        print (
            codes "not yet implemented "
            ++ itoa (pos r.start_line)
            ++ 32 ∷ itoa (pos r.end_line)
            ++ 32 ∷ itoa (pos w0.line_nbr)
            ++ codes "\n"))
        w0
