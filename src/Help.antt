-- ===== src/Help.antt =====
-- The command `h` (help.go): `Help`.
pub mod Topics
pub mod Overview
pub mod Complete
pub mod Keeps
use go_red.Base.{Bool, true, false, ◌||◌, Option, none, some, List, [], ◌∷◌, if◌then◌else◌}
use go_red.Command.{Command}
use go_red.Exec.{Exec, ◌>>=◌, ◌>>◌, pure, raise, print}
use go_red.Help.Overview.{overview}
use go_red.Help.Topics.{Topic, topics}
use go_red.Result.{no_help}
use go_red.Text.{Text, codes, equal, trim_space}

unfoldable pub is_name : Text → List Text → Bool
is_name s [] = false
is_name s (n ∷ ns) = equal s n || is_name s ns

-- The switch: the text of the first topic of that name.
pub find_topic : Text → List Topic → Option (List Text)
unfolding is_name
find_topic s [] = none
find_topic s (t ∷ ts) =
    let rest = find_topic s ts in if is_name s t.names then some t.text else rest

pub print_all : List Text → Exec (Unit {0})
print_all [] = pure tt
print_all (t ∷ ts) = print t >> print_all ts

-- The text for a topic and the empty line behind it; the error of an unknown topic comes before that line.
pub show_topic : Text → Option (List Text) → Exec (Unit {0})
unfolding print_all
show_topic s none = raise (no_help s)
show_topic s (some text) = print_all text >> print (codes "\n")

pub help_on : Text → Exec (Unit {0})
unfolding show_topic find_topic
help_on [] = show_topic [] (some overview)
help_on (c ∷ cs) = show_topic (c ∷ cs) (find_topic (c ∷ cs) topics)

unfoldable pub help : Command → Exec (Unit {0})
unfolding help_on
help cmd = do print (codes "\n"); help_on (trim_space cmd.rest_of_cmd)
