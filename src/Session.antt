-- ===== src/Session.antt =====
-- The main program (cmd/red/main.go): `main`, `readInputFile` and `mainloop`.
pub mod Memory
pub mod Keeps
pub mod Typed
pub mod Script
pub mod Quit
use go_red.Base.{
  ℕ, zero, suc, ◌+◌, Bool, true, false, Option, none, some, List, [], ◌∷◌, ◌++◌, ◌==◌,
  if◌then◌else◌, ℤ,
}
use go_red.Command.Parse.{parse_command}
use go_red.Command.{Command}
use go_red.Exec.{
  give_up, Run, done, failed, panicked, Exec, ◌>>=◌, ◌>>◌, pure, abort, gets, modify, print,
}
use go_red.Files.{edit}
use go_red.Invariant.{unread}
use go_red.Process.{System, Reply, process_command, catch}
use go_red.Result.{Error, Result, ok, err, panic}
use go_red.Session.Memory.{MemStats, get_mem_usage}
use go_red.State.{State, World}
use go_red.Text.{Text, codes, is_empty}

-- What the program prints that is not modelled: the text of an error, and that of a time. The statistics are
-- what the runtime says of the memory when it is asked.
pub record Terminal : Type 0 where
  pub message : Error → Text
  pub kitchen : ℤ → Text
  pub mem_stats : State → MemStats

-- A line of commands without its newline, and what the reader and standard input still hold.
pub record Entry : Type 0 where
  pub line : Text
  pub pending : Text
  pub chunks : List Text

-- `ReadString('\n')`: the bytes that the reader holds, then chunk after chunk; `none` at the end of the
-- input, where the bytes of a last line without newline are dropped.
pub read_string : List Text → Text → Text → Option Entry
read_string [] partial [] = none
read_string (chunk ∷ chunks) partial [] = read_string chunks partial chunk
read_string chunks partial (c ∷ cs) =
    let rest = read_string chunks (partial ++ c ∷ []) cs in
    if c == b'\n' then some (record { line = partial; pending = cs; chunks = chunks }) else rest

print_if : Bool → Text → Exec (Unit {0})
print_if b t = if b then print t else pure tt

report_error : Terminal → Option Error → Exec (Unit {0})
report_error term none = pure tt
report_error term (some e) = print (codes "error: " ++ term.message e ++ codes "\n")

-- What is printed before a command is read.
pub greet : Terminal → Exec (Unit {0})
unfolding print_if
greet term = do
  show_memory ← gets (λ w. w.show_memory)
  usage ← gets (λ w. get_mem_usage term.kitchen (term.mem_stats w.state))
  print_if show_memory (usage ++ codes " ")
  show_prompt ← gets (λ w. w.show_prompt)
  prompt ← gets (λ w. w.prompt)
  print_if show_prompt (prompt ++ codes " ")

-- The body of the loop behind the read: it gives `quit`.
answer : Terminal → Reply → Exec Bool
unfolding report_error
answer term r = do report_error term r.error; pure r.quit

pub obey : System → Terminal → Result Command → Exec Bool
unfolding answer
obey sys term (ok cmd) = process_command sys cmd none false >>= answer term
obey sys term (err e) = do print (codes "? " ++ term.message e ++ codes "\n"); pure false
obey sys term panic = abort

or_go_on : Bool → Exec (Unit {0}) → Exec (Unit {0})
or_go_on true next = pure tt
or_go_on false next = next

enter : (Text → Exec (Unit {0})) → (Text → Exec Bool) → Option Entry → Exec (Unit {0})
unfolding or_go_on
enter next act none w = done tt (record w { stdin = [] })
enter next act (some e) w =
    (act e.line >>= λ quit. or_go_on quit (next e.pending)) (record w { stdin = e.chunks })

-- `mainloop`, with what its reader holds; on fuel.
pub main_loop : System → Terminal → ℕ → Text → Exec (Unit {0})
unfolding enter obey read_string greet
main_loop sys term zero pending = give_up
main_loop sys term (suc fuel) pending = do
  greet term
  chunks ← gets (λ w. w.stdin)
  enter (main_loop sys term fuel) (λ line. obey sys term (parse_command line))
      (read_string chunks [] pending)

edit_start : Result Command → Exec (Option Text)
edit_start panic = abort
edit_start (err e) = pure (some (codes "could not parse command e "))
edit_start (ok cmd) = do
  e ← catch (edit cmd)
  pure (elim e [ none ↦ none | some x ↦ some (codes "error reading file ") ])

-- `readInputFile`; it gives the text of its error, up to the file's name.
read_input_file : Text → Exec (Option Text)
unfolding edit_start
read_input_file name = edit_start (parse_command (codes "e " ++ name))

pub default_prompt : Text → Text
default_prompt [] = codes ":"
default_prompt (c ∷ cs) = c ∷ cs

start_loop : System → Terminal → Text → Option Text → Exec (Unit {0})
unfolding main_loop
start_loop sys term name (some e) w = print (codes "error: " ++ e ++ name ++ codes "\n") w
start_loop sys term name none w = main_loop sys term (suc (unread w.stdin)) [] w

start_with : System → Terminal → Text → Exec (Unit {0})
unfolding start_loop read_input_file
start_with sys term name =
    if is_empty name
    then start_loop sys term name none
    else (read_input_file name >>= start_loop sys term name)

-- `main`, with the flags `-m` and `-p`, on the arguments behind the flags.
unfoldable pub main : System → Terminal → Bool → Text → List Text → Exec (Unit {0})
unfolding start_with default_prompt
main sys term show_memory prompt (a ∷ b ∷ args) = print (codes "unexpected arguments. See usage")
main sys term show_memory prompt args = do
  modify (λ s. record s {
    flags = record s.flags {
      show_memory = show_memory;
      prompt = default_prompt prompt;
      show_prompt = true;
      window_size = 15;
    };
  })
  print (codes "*** Rich's ed (v0.4)\n")
  start_with sys term (elim args [ [] ↦ [] | a ∷ rest ↦ a ])
