-- ===== src/Session/Script.antt =====
-- Sessions from their lines: the main loop obeys one line after the other, and ends where one quits.
use mathlib.Core.List.{append_assoc, append-nil}
use go_red.Base.{
  ℕ, zero, suc, ◌+◌, ◌≤◌, ◌≡◌, refl, ◌∙◌, arith, Bool, true, false, Option, none, some, List, [],
  ◌∷◌, ◌++◌, ◌==◌, length, length-append, ◌<◌, if◌then◌else◌,
}
use go_red.Command.Parse.{parse_command}
use go_red.Exec.{done, Exec, ◌>>=◌, ◌>>◌}
use go_red.Process.{System}
use go_red.Session.Memory.{get_mem_usage}
use go_red.Session.{
  Terminal, Entry, read_string, print_if, greet, obey, or_go_on, enter, main_loop, main, start_with,
  start_loop, default_prompt,
}
use go_red.State.{World}
use go_red.Text.{Text, codes, contains_byte, is_empty}

-- What stands on the screen before a line is read.
abbrev pub asked_for_memory : Terminal → World → List Text
asked_for_memory term w =
    if w.show_memory
    then (get_mem_usage term.kitchen (term.mem_stats w.state) ++ codes " ") ∷ w.out
    else w.out

abbrev pub greeted : Terminal → World → World
greeted term w = record w {
  out =
      if w.show_prompt
      then (w.prompt ++ codes " ") ∷ asked_for_memory term w
      else asked_for_memory term w;
}

print_if-out :
    (b : Bool) (t : Text) (w : World)
    → print_if b t w ≡ done tt (record w { out = if b then t ∷ w.out else w.out })
unfolding print_if
print_if-out true t w = refl
print_if-out false t w = refl

greet-greeted : (term : Terminal) (w : World) → greet term w ≡ done tt (greeted term w)
unfolding greet
greet-greeted term w =
    rw
      (
        print_if-out w.show_memory
            (get_mem_usage term.kitchen (term.mem_stats w.state) ++ codes " ") w,
        ◌>>=◌,
        ◌>>◌,
      )
      (print_if-out w.show_prompt (w.prompt ++ codes " ")
        (record w { out = asked_for_memory term w }))

-- A line is read up to its newline, and nothing is taken from standard input for it.
read_string-line :
    (chunks : List Text) (partial line rest : Text)
    → contains_byte line b'\n' ≡ false
    → read_string chunks partial (line ++ b'\n' ∷ rest)
      ≡ some (record { line = partial ++ line; pending = rest; chunks = chunks })
unfolding read_string contains_byte
read_string-line [] partial [] rest h = rw append-nil
read_string-line (x ∷ xs) partial [] rest h = rw append-nil
read_string-line [] partial (l ∷ ls) rest h =
    let other : (l == b'\n') ≡ false = ground arith in
    rw other (read_string-line [] (partial ++ l ∷ []) ls rest (ground arith) ∙ rw append_assoc)
read_string-line (x ∷ xs) partial (l ∷ ls) rest h =
    let other : (l == b'\n') ≡ false = ground arith in
    rw other
      (read_string-line (x ∷ xs) (partial ++ l ∷ []) ls rest (ground arith) ∙ rw append_assoc)

-- The lines as they are typed.
unfoldable pub typed : List Text → Text
typed [] = []
typed (line ∷ rest) = line ++ b'\n' ∷ typed rest

length-typed : (lines : List Text) → length lines ≤ length (typed lines)
unfolding typed
length-typed [] = omega arith
length-typed (line ∷ rest) =
    omega (arith, length-append line (b'\n' ∷ typed rest), length-typed rest)

-- The world in which `main` comes to its loop.
abbrev pub started : Bool → Text → World → World
started show_memory prompt w = record w {
  state = record w.state {
    flags = record w.flags {
      show_memory = show_memory;
      prompt = default_prompt prompt;
      show_prompt = true;
      window_size = 15;
    };
  };
  out = codes "*** Rich's ed (v0.4)\n" ∷ w.out;
  stdin = [];
}

module _ (sys : System) (term : Terminal) where
  -- A session of these lines, from a world to the one at its end. Each line but the last is obeyed and does not
  -- quit; the last does, or the input ends behind it.
  pub data Script : List Text → World → World → Type 0 where
    quits :
        {line : Text} {rest : List Text} {w v : World}
        → contains_byte line b'\n' ≡ false
        → obey sys term (parse_command line) (greeted term w) ≡ done true v
        → Script (line ∷ rest) w v
    input_ends : {w : World} → w.stdin ≡ [] → Script [] w (record (greeted term w) { stdin = [] })
    goes_on :
        {line : Text} {rest : List Text} {w u v : World}
        → contains_byte line b'\n' ≡ false
        → obey sys term (parse_command line) (greeted term w) ≡ done false u
        → Script rest u v
        → Script (line ∷ rest) w v

  main_loop-line :
      (fuel : ℕ) (line rest : Text) (w : World)
      → contains_byte line b'\n' ≡ false
      → main_loop sys term (suc fuel) (line ++ b'\n' ∷ rest) w
        ≡ (obey sys term (parse_command line) >>= λ quit.
              or_go_on quit (main_loop sys term fuel rest))
            (greeted term w)
  unfolding main_loop enter
  main_loop-line fuel line rest w h =
      rw (greet-greeted term w, ◌>>=◌, ◌>>◌) (rw (read_string-line w.stdin [] line rest h))

  main_loop_at_end :
      (fuel : ℕ) (w : World)
      → w.stdin ≡ []
      → main_loop sys term (suc fuel) [] w ≡ done tt (record (greeted term w) { stdin = [] })
  unfolding main_loop enter read_string
  main_loop_at_end fuel w e = rw (greet-greeted term w, ◌>>=◌, ◌>>◌) (rw e)

  -- The main loop on the lines of a session ends in the world at the end of the session, with more fuel than
  -- there are lines.
  pub main_loop-Script :
      (lines : List Text) (w v : World) (fuel : ℕ)
      → Script lines w v
      → length lines < fuel
      → main_loop sys term fuel (typed lines) w ≡ done tt v
  unfolding typed or_go_on
  main_loop-Script lines w v zero s l = absurd (omega arith)
  main_loop-Script lines w v (suc fuel) (input_ends e) l = main_loop_at_end fuel w e
  main_loop-Script lines w v (suc fuel) (quits {line = line} {rest = rest} n e) l =
      main_loop-line fuel line (typed rest) w n ∙ rw (e, ◌>>=◌)
  main_loop-Script lines w v (suc fuel) (goes_on {line = line} {rest = rest} {u = u} n e s) l =
      main_loop-line fuel line (typed rest) w n
      ∙ rw (e, ◌>>=◌) (main_loop-Script rest u v fuel s (omega arith))

  enter-stdin :
      (next : Text → Exec (Unit {0})) (act : Text → Exec Bool) (o : Option Entry) (w : World)
      (a b : List Text)
      → enter next act o (record w { stdin = a }) ≡ enter next act o (record w { stdin = b })
  unfolding enter
  enter-stdin next act none w a b = refl
  enter-stdin next act (some e) w a b = refl

  -- The reader takes a chunk where it holds nothing.
  main_loop-chunk :
      (fuel : ℕ) (w : World) (chunk : Text) (chunks : List Text)
      → main_loop sys term (suc fuel) [] (record w { stdin = chunk ∷ chunks })
        ≡ main_loop sys term (suc fuel) chunk (record w { stdin = chunks })
  unfolding main_loop read_string
  main_loop-chunk fuel w chunk chunks =
      rw (greet-greeted term (record w { stdin = chunk ∷ chunks }), ◌>>=◌, ◌>>◌)
        (rw (greet-greeted term (record w { stdin = chunks }), ◌>>=◌, ◌>>◌)
          (enter-stdin (main_loop sys term fuel) (λ line. obey sys term (parse_command line))
            (read_string chunks [] chunk) (greeted term w) (chunk ∷ chunks) chunks))

  -- The program without a file, whose whole input is delivered as the lines of a session, ends in the world at the end of
  -- that session.
  pub main-Script :
      (show_memory : Bool) (prompt : Text) (lines : List Text) (w v : World)
      → Script lines (started show_memory prompt w) v
      → main sys term show_memory prompt [] (record w { stdin = typed lines ∷ [] }) ≡ done tt v
  unfolding main start_with start_loop is_empty
  main-Script show_memory prompt lines w v s =
      main_loop-chunk (length (typed lines) + 0) (started show_memory prompt w) (typed lines) []
      ∙ main_loop-Script lines (started show_memory prompt w) v (suc (length (typed lines) + 0)) s
          (omega (arith, length-typed lines))
