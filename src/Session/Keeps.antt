-- ===== src/Session/Keeps.antt =====
-- The main loop keeps the invariant, and comes to an end.
use go_red.Base.{
  ap, ℕ, zero, suc, ◌+◌, ◌<◌, ◌≤◌, ◌≡◌, ◌≢◌, refl, arith, Bool, true, false, Option, none, some,
  List, [], ◌∷◌, ◌++◌, length,
}
use go_red.Command.Parse.{parse_command}
use go_red.Command.{Command}
use go_red.Exec.Keeps.{
  Holds, Keeps, Holds-bind_told, Holds-imp, Holds-finished, Keeps-bind, Keeps-if, bind-cong,
}
use go_red.Exec.{unfinished, done, Exec, ◌>>=◌, ◌>>◌}
use go_red.Files.Keeps.{edit-Keeps}
use go_red.Files.{edit}
use go_red.Invariant.{Inv, unread, AllStored}
use go_red.Process.Keeps.{process_command-Inv, catch-Keeps}
use go_red.Process.{System, Reply, process_command, catch}
use go_red.Result.{Error, Result, ok, err, panic}
use go_red.Session.Memory.{get_mem_usage}
use go_red.Session.{
  Terminal, Entry, read_string, print_if, report_error, greet, answer, obey, or_go_on, enter,
  main_loop, edit_start, read_input_file, start_loop, start_with, main,
}
use go_red.State.{State, World, new_state}
use go_red.Text.{Text, codes, is_empty}

-- A line that is read takes at least its newline from the input.
read_string-unread :
    (chunks : List Text) (partial cs : Text) {e : Entry}
    → read_string chunks partial cs ≡ some e
    → (unread e.chunks ≤ unread chunks)
      × (length e.pending + unread e.chunks < length cs + unread chunks)
unfolding read_string
read_string-unread [] partial [] h = cc
read_string-unread (chunk ∷ chunks) partial [] h =
    let ih = read_string-unread chunks partial chunk h in (omega (arith, ih.0), omega (arith, ih.1))
read_string-unread chunks partial (c ∷ cs) {e} h = (
  ground (arith, read_string-unread chunks (partial ++ c ∷ []) cs {e = e}),
  ground (arith, read_string-unread chunks (partial ++ c ∷ []) cs {e = e}),
)

print_if_lem :
    (b : Bool) (t : Text) (w : World)
    → (out : List Text) × (print_if b t w ≡ done tt (record w { out = out }))
unfolding print_if
print_if_lem true t w = (t ∷ w.out, refl)
print_if_lem false t w = (w.out, refl)

greet_lem :
    (term : Terminal) (w : World)
    → (out : List Text) × (greet term w ≡ done tt (record w { out = out }))
unfolding greet print_if
greet_lem term w = on w.show_memory
  where
    on :
        (b : Bool)
        → (out : List Text) × ((print_if b
                  (get_mem_usage term.kitchen (term.mem_stats w.state) ++ codes " ")
                >>= λ t v. print_if v.show_prompt (v.prompt ++ codes " ") v)
              w
            ≡ done tt (record w { out = out }))
    on true = print_if_lem w.show_prompt (w.prompt ++ codes " ") (record w {
      out = (get_mem_usage term.kitchen (term.mem_stats w.state) ++ codes " ") ∷ w.out;
    })
    on false = print_if_lem w.show_prompt (w.prompt ++ codes " ") w

module _ (k : ℕ) (sys : System) (term : Terminal) where
  report_error-Keeps : (o : Option Error) → Keeps (Inv k) (report_error term o)
  unfolding report_error
  report_error-Keeps none w i = i
  report_error-Keeps (some e) w i = i

  answer-Keeps : (r : Reply) → Keeps (Inv k) (answer term r)
  unfolding answer
  answer-Keeps r =
      Keeps-bind (Inv k) (report_error term r.error) _ (report_error-Keeps r.error) (λ t w i. i)

  obey-Keeps : (r : Result Command) → Keeps (Inv k) (obey sys term r)
  unfolding obey
  obey-Keeps (ok cmd) w i =
      Keeps-bind (Inv k) (process_command sys cmd none false) (answer term)
        (process_command-Inv k sys cmd none false) answer-Keeps w i
  obey-Keeps (err e) w i = i
  obey-Keeps panic w i = tt

  or_go_on-Keeps : (b : Bool) (m : Exec (Unit {0})) → Keeps (Inv k) m → Keeps (Inv k) (or_go_on b m)
  unfolding or_go_on
  or_go_on-Keeps true m h w i = i
  or_go_on-Keeps false m h w i = h w i

module _ (sys : System) (term : Terminal) where
  enter-Holds :
      (k : ℕ) (next : Text → Exec (Unit {0})) (o : Option Entry) (w : World)
      → Inv k w
      → ((e : Entry) → o ≡ some e → unread e.chunks ≤ k)
      → ((e : Entry) (v : World)
          → o ≡ some e
          → Inv (unread e.chunks) v
          → Holds (Inv (unread e.chunks)) (next e.pending v))
      → Holds (Inv k) (enter next (λ line. obey sys term (parse_command line)) o w)
  unfolding enter
  enter-Holds k next none w i b h = (i.0, (i.1.0, omega arith))
  enter-Holds k next (some e) w i b h =
      let weaker : (v : World) → Inv (unread e.chunks) v → Inv k v =
        λ v j. (j.0, (j.1.0, omega (arith, j.1.1, b e refl))) in
      Holds-bind_told (Inv (unread e.chunks)) (Inv k) (obey sys term (parse_command e.line)) _ _
        weaker
        (obey-Keeps (unread e.chunks) sys term (parse_command e.line)
          (record w { stdin = e.chunks }) (i.0, (i.1.0, omega arith)))
        (λ quit v j. on weaker quit v j)
    where
      on :
          ((v : World) → Inv (unread e.chunks) v → Inv k v)
          → (quit : Bool) (v : World) → Inv (unread e.chunks) v
          → Holds (Inv k) (or_go_on quit (next e.pending) v)
      on weaker true v j = weaker v j
      on weaker false v j =
          Holds-imp (Inv (unread e.chunks)) (Inv k) (next e.pending v) weaker (h e v refl j)

  -- With fuel above the bytes that are left of the input, the main loop comes to its end and keeps the
  -- invariant.
  main_loop-Holds :
      (k fuel : ℕ) (pending : Text) (w : World)
      → Inv k w
      → length pending + unread w.stdin < fuel
      → Holds (Inv k) (main_loop sys term fuel pending w)
  unfolding main_loop
  main_loop-Holds k zero pending w i l = absurd (omega arith)
  main_loop-Holds k (suc fuel) pending w i l =
      let (out, e) = greet_lem term w in
      rw (e, ◌>>=◌, ◌>>◌)
        (enter-Holds k (main_loop sys term fuel) (read_string w.stdin [] pending)
          (record w { out = out }) i
          (λ a h. omega (arith, (read_string-unread w.stdin [] pending h).0, i.1.1))
          (λ a v h j.
            main_loop-Holds (unread a.chunks) fuel a.pending v j
              (omega (arith, (read_string-unread w.stdin [] pending h).1, j.1.1))))

module _ (sys : System) (term : Terminal) where
  enter-cong :
      (f g : ℕ) (o : Option Entry) (w : World)
      → ((e : Entry) (v : World)
          → o ≡ some e
          → Inv (unread e.chunks) v
          → main_loop sys term f e.pending v ≡ main_loop sys term g e.pending v)
      → AllStored w.undo
      → w.line_nbr ≤ length w.buffer + 1
      → enter (main_loop sys term f) (λ line. obey sys term (parse_command line)) o w
        ≡ enter (main_loop sys term g) (λ line. obey sys term (parse_command line)) o w
  unfolding enter or_go_on
  enter-cong f g none w h s p = refl
  enter-cong f g (some e) w h s p =
      bind-cong (Inv (unread e.chunks)) (obey sys term (parse_command e.line)) _ _
        (record w { stdin = e.chunks })
        (obey-Keeps (unread e.chunks) sys term (parse_command e.line)
          (record w { stdin = e.chunks }) (p, (s, omega arith)))
        (λ quit v i. on quit v i)
    where
      on :
          (quit : Bool) (v : World)
          → Inv (unread e.chunks) v
          → or_go_on quit (main_loop sys term f e.pending) v
            ≡ or_go_on quit (main_loop sys term g e.pending) v
      on true v i = refl
      on false v i = h e v refl i

  main_loop-same :
      (k f g : ℕ) (pending : Text) (w : World)
      → Inv k w
      → length pending + unread w.stdin < f
      → length pending + unread w.stdin < g
      → main_loop sys term f pending w ≡ main_loop sys term g pending w
  unfolding main_loop
  main_loop-same k zero g pending w i a b = absurd (omega arith)
  main_loop-same k (suc f) zero pending w i a b = absurd (omega arith)
  main_loop-same k (suc f) (suc g) pending w i a b =
      let (out, e) = greet_lem term w in
      rw (e, ◌>>=◌, ◌>>◌)
        (enter-cong f g (read_string w.stdin [] pending) (record w { out = out })
          (λ x v h j.
            let less = (read_string-unread w.stdin [] pending h).1 in
            main_loop-same (unread x.chunks) f g x.pending v j (omega (arith, less, j.1.1))
              (omega (arith, less, j.1.1)))
          i.1.0 i.0)

  -- From a world of the invariant, and with fuel above the bytes that are left of the input, the main loop comes to its
  -- end: it returns, fails or panics, and never for want of fuel. What it does is the same for all such fuel.
  pub main_loop_fuel :
      (k f g : ℕ) (pending : Text) (w : World)
      → Inv k w
      → length pending + unread w.stdin < f
      → length pending + unread w.stdin < g
      → (main_loop sys term f pending w ≢ unfinished)
        × (main_loop sys term f pending w ≡ main_loop sys term g pending w)
  main_loop_fuel k f g pending w i a b = (
    Holds-finished (Inv k) (main_loop sys term f pending w)
        (main_loop-Holds sys term k f pending w i a),
    main_loop-same k f g pending w i a b,
  )

module _ (k : ℕ) (sys : System) (term : Terminal) where
  edit_start-Keeps : (r : Result Command) → Keeps (Inv k) (edit_start r)
  unfolding edit_start
  edit_start-Keeps (ok cmd) w i =
      Keeps-bind (Inv k) (catch (edit cmd)) _ (catch-Keeps k (edit cmd) (edit-Keeps k cmd))
        (λ e v j. j) w i
  edit_start-Keeps (err e) w i = i
  edit_start-Keeps panic w i = tt

  start_loop-Keeps : (name : Text) (o : Option Text) → Keeps (Inv k) (start_loop sys term name o)
  unfolding start_loop
  start_loop-Keeps name none w i =
      main_loop-Holds sys term k (suc (unread w.stdin)) [] w i (omega arith)
  start_loop-Keeps name (some e) w i = i

  start_with-Keeps : (name : Text) → Keeps (Inv k) (start_with sys term name)
  unfolding start_with read_input_file
  start_with-Keeps name = Keeps-if (Inv k) (is_empty name) _ _ (start_loop-Keeps name none) (
      Keeps-bind (Inv k) (read_input_file name) _
        (edit_start-Keeps (parse_command (codes "e " ++ name))) (start_loop-Keeps name))

  main-Keeps : (m : Bool) (p : Text) (args : List Text) → Keeps (Inv k) (main sys term m p args)
  unfolding main
  main-Keeps m p [] w i = start_with-Keeps [] _ i
  main-Keeps m p (a ∷ []) w i = start_with-Keeps a _ i
  main-Keeps m p (a ∷ b ∷ args) w i = i

-- Whatever the arguments and the input are, a run of the program from its new state comes to its end, never for
-- want of fuel, and if it does not panic it ends
-- with the current line at most one behind the last line and with an undo list of nothing but unresolved commands of the
-- six kinds that undo others, each with the text that it takes.
pub main-Inv :
    (sys : System) (term : Terminal) (show_memory : Bool) (prompt : Text) (args : List Text)
    (w : World)
    → w.state ≡ new_state
    → Holds (Inv (unread w.stdin)) (main sys term show_memory prompt args w)
main-Inv sys term m p args w e =
    let placed : w.line_nbr ≤ length w.buffer + 1 =
      rw (ap (λ (s : State). s.line_nbr) e) (omega arith) in
    let stored : AllStored w.undo = rw (ap (λ (s : State). s.undo) e) tt in
    main-Keeps (unread w.stdin) sys term m p args w (placed, (stored, omega arith))
