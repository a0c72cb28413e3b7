-- ===== src/Tests/Substituting.antt =====
-- Substitutions on the small buffer, with an engine that replaces whole lines.
use go_red.Base.{◌≡◌, refl, arith, true, none, ◌++◌, drop, pos}
use go_red.Command.Ident
use go_red.Command.{Command}
use go_red.Exec.{done}
use go_red.Lines.Cut.{segment}
use go_red.Regex.{Engine}
use go_red.Result.{ok}
use go_red.State.{World, absolute_range}
use go_red.Subst.Replaced.{replace_lines_lem, undos, all_substituted}
use go_red.Subst.Whole.{parse_regex_command-regex_text}
use go_red.Subst.{RegexCommand, replace_lines, parse_regex_command}
use go_red.Text.{codes, contains_byte, has_prefix}
use go_red.Tests.{four_lines, four_world}

-- Expressions that are prefixes of the lines that they match; the replacement takes the place of the whole line.
abbrev replacing : Engine
replacing = record {
  compiles = λ p. true;
  matches = λ p s. has_prefix s p;
  replace_all = λ p s r. r ++ codes "\n";
}

replace_lines_lem_example :
    (v : World) × (replace_lines replacing 1 3 (codes "b") (codes "eel") (codes "n") four_world
      ≡ done (undos replacing (codes "b") (codes "eel") 1 (segment 1 3 four_lines)) v)
    × (v.buffer
        ≡ all_substituted replacing (codes "b") (codes "eel") (segment 1 3 four_lines)
          ++ drop 3 four_lines)
    × (v.line_nbr ≡ 1)
replace_lines_lem_example =
    replace_lines_lem replacing (codes "b") (codes "eel") 1 3 (codes "n") four_world (omega arith)
      (omega arith) (omega arith) (omega arith)

abbrev eel_for_bee : RegexCommand
eel_for_bee = record { pattern = codes "b"; replacement = codes "eel"; suffixes = codes "p" }

parse_regex_command-regex_text_example : parse_regex_command (codes "/b/eel/p") ≡ ok eel_for_bee
unfolding contains_byte
parse_regex_command-regex_text_example =
    parse_regex_command-regex_text b'/' eel_for_bee (omega arith) (refl, refl, refl)

-- `1,4s/b/eel/p`
abbrev substitute_all : Command
substitute_all = record {
  addr_range = absolute_range (pos 1) (pos 4);
  resolved = none;
  cmd = Ident.substitute;
  rest_of_cmd = codes "/b/eel/p";
}
