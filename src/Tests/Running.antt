-- ===== src/Tests/Running.antt =====
-- The invariant, the main loop and what is printed, on the small buffer.
use go_red.Base.{◌≡◌, ◌≢◌, refl, arith, true, false, some, none, [], ◌∷◌, pos}
use go_red.Address.Search.Backward.{BackwardResult, match_line_backward_lem}
use go_red.Address.Search.{line_matches, match_line_backward}
use go_red.Command.Ident
use go_red.Exec.Keeps.{Holds}
use go_red.Exec.{unfinished, done}
use go_red.Invariant.{Inv}
use go_red.Process.Keeps.{process_command-Inv}
use go_red.Process.{process_command}
use go_red.Session.Keeps.{main_loop_fuel, main-Inv}
use go_red.Session.{Terminal, main_loop, main}
use go_red.Show.Print.{print_range_lem, printed_world}
use go_red.Show.{print_range}
use go_red.State.{World, new_state}
use go_red.Text.{codes}
use go_red.Tests.Processing.{system}
use go_red.Tests.{prefixes, four_lines, four_world, command}

process_command-Inv_example :
    Holds (Inv 0) (process_command system (command Ident.delete 2 3 []) none false four_world)
process_command-Inv_example =
    process_command-Inv 0 system (command Ident.delete 2 3 []) none false four_world
      (omega arith, (tt, omega arith))

abbrev pub terminal : Terminal
terminal = record {
  message = λ e. codes "no";
  kitchen = λ t. codes "3:04PM";
  mem_stats = λ w. record { heap_alloc = 2097152; sys = 9999999; num_gc = 0; last_gc = 0 };
}

-- Two lines of input, the second in two reads.
abbrev typed_world : World
typed_world = record four_world { stdin = codes "3d\n=" ∷ codes "\n" ∷ [] }

main_loop_fuel_example :
    (main_loop system terminal 6 [] typed_world ≢ unfinished)
    × (main_loop system terminal 6 [] typed_world ≡ main_loop system terminal 60 [] typed_world)
main_loop_fuel_example =
    main_loop_fuel system terminal 5 6 60 [] typed_world (omega arith, (tt, omega arith))
      (omega arith) (omega arith)

abbrev start_world : World
start_world = record {
  state = new_state;
  out = [];
  stdin = codes "1,2p\n" ∷ codes "q\n" ∷ [];
  files = λ name. some (codes "ant\nbee\n");
}

main-Inv_example : Holds (Inv 7) (main system terminal false [] (codes "animals" ∷ []) start_world)
main-Inv_example = main-Inv system terminal false [] (codes "animals" ∷ []) start_world refl

print_range_lem_example :
    print_range 2 3 true four_world ≡ done tt (printed_world true 2 3 four_world)
print_range_lem_example =
    print_range_lem true 2 3 four_world (omega arith) (omega arith) (omega arith)

match_line_backward_lem_example :
    BackwardResult
      (line_matches prefixes (codes "dog"))
      3
      four_lines
      (match_line_backward prefixes (pos 3) (codes "dog") four_lines)
match_line_backward_lem_example =
    match_line_backward_lem prefixes 3 (codes "dog") four_lines refl (omega arith) (omega arith)
