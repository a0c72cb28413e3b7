-- ===== src/Command/Parse.antt =====
-- `ParseCommand` (cmd.go): address range, command letter and the rest of a command line.
pub mod Fuel
pub mod Printed
pub mod Scan
use go_red.Base.{
  ℕ, zero, suc, ◌-◌, Bool, true, false, ◌&&◌, ◌||◌, Option, none, some, List, [], ◌∷◌, leb, ◌==◌,
  if◌then◌else◌, length, take,
}
use go_red.Address.Parse.{match_at}
use go_red.Command.Ident
use go_red.Command.Ident.{CommandId}
use go_red.Command.{Command}
use go_red.Range.Parse.{is_separator, new_range}
use go_red.Range.{AddressRange}
use go_red.Result.{
  Result, ok, err, ◌>>=◌, map_err, unrecognised_command, unterminated_regex, could_not_parse_range,
  general_parse_error,
}
use go_red.Text.{Text, codes, is_empty, contains_byte, trim_space}

-- `\s`, which has no vertical tab.
abbrev is_re_space : ℕ → Bool
is_re_space c = c == 9 || c == 10 || c == 12 || c == 13 || c == 32

space_at : Text → Option Text
space_at [] = none
space_at (c ∷ cs) = if is_re_space c then some cs else none

-- What is left behind one part of `_simplifiedAddressRE` that is not empty. All but the white space are
-- the parts of `addressRE`.
pub skip_part : Text → Option Text
unfolding space_at
skip_part s = elim (match_at s) [ some t ↦ some t.rest | none ↦ space_at s ]

-- What is left behind `(...)+`, which takes as many parts as it can. On fuel.
pub skip_parts : ℕ → Text → Text
unfolding skip_part
skip_parts zero s = s
skip_parts (suc fuel) s = elim (skip_part s) [ none ↦ s | some rest ↦ skip_parts fuel rest ]

pub skip_address : Text → Text
unfolding skip_parts
skip_address s = skip_parts (suc (length s)) s

-- `[,;]?`
pub skip_separator : Text → Text
skip_separator [] = []
skip_separator (c ∷ cs) = if is_separator c then cs else c ∷ cs

-- The constants `command*`, and with them `_commandRE`.
abbrev pub letters : List (ℕ × CommandId)
letters =
    (b'a', Ident.append)
    ∷ (b'c', Ident.change)
    ∷ (b'd', Ident.delete)
    ∷ (b'e', Ident.edit)
    ∷ (b'E', Ident.edit_unconditionally)
    ∷ (b'f', Ident.filename)
    ∷ (b'g', Ident.global)
    ∷ (b'G', Ident.global_interactive)
    ∷ (b'h', Ident.help)
    ∷ (b'i', Ident.insert)
    ∷ (b'j', Ident.join)
    ∷ (b'k', Ident.mark)
    ∷ (b'l', Ident.print_list)
    ∷ (b'm', Ident.move)
    ∷ (b'n', Ident.number)
    ∷ (b'p', Ident.print)
    ∷ (b'P', Ident.prompt)
    ∷ (b'q', Ident.quit)
    ∷ (b'Q', Ident.quit_unconditionally)
    ∷ (b'r', Ident.read)
    ∷ (b's', Ident.substitute)
    ∷ (b't', Ident.transfer)
    ∷ (b'u', Ident.undo)
    ∷ (b'v', Ident.inverse_global)
    ∷ (b'V', Ident.inverse_global_interactive)
    ∷ (b'w', Ident.write)
    ∷ (b'W', Ident.write_append)
    ∷ (b'x', Ident.put)
    ∷ (b'y', Ident.yank)
    ∷ (b'z', Ident.scroll)
    ∷ (35, Ident.comment)
    ∷ (b'=', Ident.linenumber)
    ∷ []

find_letter : ℕ → List (ℕ × CommandId) → Option CommandId
find_letter c [] = none
find_letter c ((l, id) ∷ ls) = if c == l then some id else find_letter c ls

unfoldable pub letter : ℕ → Option CommandId
unfolding find_letter
letter c = find_letter c letters

-- The named groups of `commandLineRE`.
pub record Groups : Type 0 where
  pub addr_range : Text
  pub cmd : Option CommandId
  pub rest : Text

command_groups : Text → Text → Option CommandId → Text → Groups
command_groups addr s none cs = record { addr_range = addr; cmd = none; rest = s }
command_groups addr s (some id) cs = record { addr_range = addr; cmd = some id; rest = cs }

command_at : Text → Text → Groups
unfolding command_groups letter
command_at addr [] = record { addr_range = addr; cmd = none; rest = [] }
command_at addr (c ∷ cs) = command_groups addr (c ∷ cs) (letter c) cs

-- `.*$`: the rest holds no newline.
on_one_line : Groups → Option Groups
on_one_line g = if contains_byte g.rest b'\n' then none else some g

-- `commandLineRE`. Each part takes as much as it can, and what follows it always matches but for a
-- newline in the rest, which no other way to match avoids.
pub match_command_line : Text → Option Groups
unfolding on_one_line command_at skip_address skip_separator
match_command_line s =
    let behind = skip_address (skip_separator (skip_address s)) in
    on_one_line (command_at (take (length s - length behind) s) behind)

starts_regex : Text → Bool
starts_regex [] = false
starts_regex (c ∷ cs) = c == b'/' || c == b'?'

-- The command of a line whose range is read; without a letter it is `p`.
pub command_of : AddressRange → Option CommandId → Text → Result Command
command_of ra none rest =
    if is_empty rest
    then ok (record { addr_range = ra; resolved = none; cmd = Ident.print; rest_of_cmd = rest })
    else err general_parse_error
command_of ra (some id) rest =
    ok (record { addr_range = ra; resolved = none; cmd = id; rest_of_cmd = rest })

no_letter : Option CommandId → Bool
no_letter none = true
no_letter (some id) = false

pub from_groups : Option Groups → Result Command
unfolding command_of no_letter starts_regex
from_groups none = err unrecognised_command
from_groups (some g) =
    let rest = trim_space g.rest in
    if no_letter g.cmd && starts_regex rest
    then err unterminated_regex
    else map_err could_not_parse_range (new_range (trim_space g.addr_range)) >>= λ ra.
        command_of ra g.cmd rest

-- A blank line is `+1p`.
unfoldable pub parse_command : Text → Result Command
unfolding from_groups match_command_line
parse_command str =
    from_groups (match_command_line (if is_empty (trim_space str) then codes "+1p" else str))
