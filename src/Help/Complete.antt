-- ===== src/Help/Complete.antt =====
-- What `Help` prints, and that the letters of all commands are explained.
use go_red.Base.{
  ℕ, ◌≡◌, refl, arith, Bool, true, false, ◌&&◌, ◌||◌, Option, none, some, Option-cases, inl, inr,
  List, [], ◌∷◌, ◌⊎◌,
}
use go_red.Command.Ident.{CommandId}
use go_red.Command.Parse.Scan.{every_letter, letter-every}
use go_red.Command.Parse.{letter, letters}
use go_red.Command.{Command}
use go_red.Exec.Printed.{say}
use go_red.Exec.{done, failed, ◌>>=◌, ◌>>◌}
use go_red.Help.Overview.{overview}
use go_red.Help.Topics.{topics}
use go_red.Help.{is_name, find_topic, print_all, show_topic, help_on, help}
use go_red.Result.{no_help}
use go_red.State.{World}
use go_red.Text.{Text, codes, equal, has_prefix, trim_space}

pub print_all_lem :
    (ts : List Text) (w : World) → print_all ts w ≡ done tt (record w { out = say ts w.out })
unfolding print_all say
print_all_lem [] w = refl
print_all_lem (t ∷ ts) w = print_all_lem ts (record w { out = t ∷ w.out })

-- A world in which `text` has been printed between two empty lines.
abbrev pub explained_world : List Text → World → World
explained_world text w = record w { out = codes "\n" ∷ say text (codes "\n" ∷ w.out) }

help-topic :
    (cmd : Command) (c : ℕ) (cs : Text) (w : World) {text : List Text}
    → trim_space cmd.rest_of_cmd ≡ c ∷ cs
    → find_topic (c ∷ cs) topics ≡ some text
    → help cmd w ≡ done tt (explained_world text w)
unfolding help help_on show_topic
help-topic cmd c cs w {text} t f =
    rw (t, help_on)
      (rw (f, show_topic)
        (rw (print_all_lem text (record w { out = codes "\n" ∷ w.out }), ◌>>=◌, ◌>>◌)))

unfoldable pub any_prefix : Text → List Text → Bool
any_prefix p [] = false
any_prefix p (t ∷ ts) = has_prefix t p || any_prefix p ts

is_explaining : ℕ → Option (List Text) → Bool
is_explaining c none = false
is_explaining c (some text) = any_prefix (32 ∷ 32 ∷ c ∷ 32 ∷ []) text

abbrev is_explained : ℕ → Bool
is_explained c =
    is_explaining c (find_topic (c ∷ []) topics) && any_prefix (32 ∷ 32 ∷ c ∷ 32 ∷ []) overview

all_explained : every_letter is_explained letters ≡ true
unfolding every_letter is_explaining any_prefix find_topic topics is_name equal has_prefix overview
all_explained = refl

-- Asked for any letter that `ParseCommand` takes for a command, `Help` prints a text with a line on that letter and leaves the rest
-- of the world as it is, and the overview that it prints without a topic has a line on the letter, too.
pub help-letter :
    (cmd : Command) (c : ℕ) (id : CommandId) (w : World)
    → letter c ≡ some id
    → trim_space cmd.rest_of_cmd ≡ c ∷ []
    → (text : List Text) × (find_topic (c ∷ []) topics ≡ some text)
      × (any_prefix (32 ∷ 32 ∷ c ∷ 32 ∷ []) text ≡ true)
      × (help cmd w ≡ done tt (explained_world text w))
      × (any_prefix (32 ∷ 32 ∷ c ∷ 32 ∷ []) overview ≡ true)
unfolding is_explaining
help-letter cmd c id w l t =
    let e : is_explained c ≡ true = letter-every is_explained c l all_explained in
    elim (Option-cases (find_topic (c ∷ []) topics)) [
      | inl n ↦ absurd (on n e)
      | inr (text, f) ↦ (text, f, on_text text f e, help-topic cmd c [] w t f, ground (arith, e))
    ]
  where
    on : find_topic (c ∷ []) topics ≡ none → is_explained c ≡ true → ⊥
    on n e = ground (arith, n, e)

    on_text :
        (text : List Text)
        → find_topic (c ∷ []) topics ≡ some text
        → is_explained c ≡ true
        → any_prefix (32 ∷ 32 ∷ c ∷ 32 ∷ []) text ≡ true
    on_text text f e = ground (arith, f, e)

show_topic-prints :
    (s : Text) (o : Option (List Text)) (v : World)
    → (out : List Text) × ((show_topic s o v ≡ done tt (record v { out = out }))
        ⊎ (show_topic s o v ≡ failed (no_help s) (record v { out = out })))
unfolding show_topic
show_topic-prints s none v = (v.out, inr refl)
show_topic-prints s (some text) v =
    (codes "\n" ∷ say text v.out, inl (rw (print_all_lem text v, ◌>>=◌, ◌>>◌)))

help_on-prints :
    (s : Text) (v : World)
    → (out : List Text) × ((help_on s v ≡ done tt (record v { out = out }))
        ⊎ (help_on s v ≡ failed (no_help s) (record v { out = out })))
unfolding help_on
help_on-prints [] v = show_topic-prints [] (some overview) v
help_on-prints (c ∷ cs) v = show_topic-prints (c ∷ cs) (find_topic (c ∷ cs) topics) v

-- `Help` prints and changes nothing else, whatever the topic is.
pub help-prints :
    (cmd : Command) (w : World)
    → (out : List Text) × ((help cmd w ≡ done tt (record w { out = out }))
        ⊎ (help cmd w ≡ failed (no_help (trim_space cmd.rest_of_cmd)) (record w { out = out })))
unfolding help
help-prints cmd w =
    help_on-prints (trim_space cmd.rest_of_cmd) (record w { out = codes "\n" ∷ w.out })
