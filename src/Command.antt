-- ===== src/Command.antt =====
-- Commands as parsed (cmd.go: `Command`, `resolveAddress`, `createNewResolvedCommand`).
pub mod Ident
pub mod Parse
use go_red.Base.{ℕ, ◌≡◌, refl, Option, none, some, List, []}
use go_red.Address.{Address}
use go_red.Command.Ident.{CommandId, no_command}
use go_red.Range.{AddressRange, no_separator, LineRange}
use go_red.Result.{Result, ok, err, address_not_resolved}
use go_red.Text.{Text}

-- `resolved` is `none` as long as `addressIsResolved` is false. The string that is kept for
-- debugging is left out.
pub record Command : Type 0 where
  pub addr_range : AddressRange
  pub resolved : Option LineRange
  pub cmd : CommandId
  pub rest_of_cmd : Text

-- A range whose addresses are zero values.
abbrev pub zero_range : AddressRange
zero_range = record {
  start = record { internal = [] };
  end = record { internal = [] };
  separator = no_separator;
}

abbrev pub zero_command : Command
zero_command = record {
  addr_range = zero_range;
  resolved = none;
  cmd = no_command;
  rest_of_cmd = [];
}

abbrev pub new_resolved : LineRange → CommandId → Text → Command
new_resolved r id rest = record {
  addr_range = zero_range;
  resolved = some r;
  cmd = id;
  rest_of_cmd = rest;
}

unfoldable pub create_new_resolved_command : Command → CommandId → Text → Result Command
create_new_resolved_command c id rest = elim c.resolved [
  | none ↦ err address_not_resolved
  | some r ↦ ok (new_resolved r id rest)
]

pub create_new_resolved_command_lem :
    (c : Command) (id : CommandId) (rest : Text) {r : LineRange}
    → c.resolved ≡ some r
    → create_new_resolved_command c id rest ≡ ok (new_resolved r id rest)
unfolding create_new_resolved_command
create_new_resolved_command_lem c id rest h = rw (h, create_new_resolved_command)
