-- ===== src/Tests/Sessions.antt =====
-- A session of two lines: `q` where there are unsaved changes, and then `Q`.
use go_red.Base.{arith, take, drop, ◌≡◌, refl, true, false, if◌then◌else◌, List, [], ◌∷◌}
use go_red.Command.Parse.{parse_command}
use go_red.Exec.{done}
use go_red.Process.Quitting.{warned}
use go_red.Session.Quit.{obey-quit}
use go_red.Session.Script.{Script, quits, goes_on, greeted, started, typed, main-Script}
use go_red.Session.{obey, main}
use go_red.State.{World}
use go_red.Text.{Text, codes, contains_byte}
use go_red.Tests.Processing.{system}
use go_red.Tests.Running.{terminal}
use go_red.Session.Typed.{obey-delete_unspecified}
use go_red.Tests.{four_world, four_lines}

abbrev changed_world : World
changed_world = record four_world {
  state = record four_world.state { changed_since_last_write = true };
}

abbrev q_lines : List Text
q_lines = codes "q" ∷ codes "Q" ∷ []

-- What the screen holds when `Q` has been typed.
abbrev end_world : World
end_world = greeted terminal (warned (greeted terminal (started false [] changed_world)))

q-Script : Script system terminal q_lines (started false [] changed_world) end_world
unfolding contains_byte
q-Script =
    goes_on refl (obey-quit system terminal (greeted terminal (started false [] changed_world))).1
      (quits refl (obey-quit system terminal end_world).0)

main-Script_example :
    main system terminal false [] [] (record changed_world { stdin = typed q_lines ∷ [] })
    ≡ done tt end_world
main-Script_example = main-Script system terminal false [] q_lines changed_world end_world q-Script

obey-quit_example :
    (obey system terminal (parse_command (codes "Q")) changed_world ≡ done true changed_world)
    × (obey system terminal (parse_command (codes "q")) changed_world ≡ (
        if changed_world.changed_since_last_write
        then done false (warned changed_world)
        else done true changed_world))
obey-quit_example = obey-quit system terminal changed_world

obey-delete_unspecified_example :
    (v : World) × (obey system terminal (parse_command (codes "d")) four_world ≡ done false v)
    × (v.buffer ≡ drop 1 four_lines)
    × (v.cut_buffer ≡ take 1 four_lines)
obey-delete_unspecified_example = obey-delete_unspecified system terminal four_world (omega arith)
