-- ===== src/Tests/Saving.antt =====
-- The small buffer written to a file and read again.
use go_red.Base.{◌≡◌, refl, arith, false}
use go_red.Command.Ident
use go_red.Command.{Command}
use go_red.Exec.{done}
use go_red.Files.RoundTrip.{ends_line}
use go_red.Files.Saved.{write-edit}
use go_red.Files.{edit, write, trim_quit}
use go_red.Range.Bounds.{unspecified_range}
use go_red.Range.{is_specified}
use go_red.State.{World}
use go_red.Text.{codes, trim_space}
use go_red.Tests.Processing.{system}
use go_red.Tests.{four_world, four_lines, command}

-- `wq pets`, resolved.
abbrev write_and_quit : Command
write_and_quit = record (command Ident.write 1 1 (codes "q pets")) {
  addr_range = unspecified_range;
}

write-edit_example :
    (v : World) × (write system.can_create write_and_quit four_world ≡ done tt v)
    × (v.changed_since_last_write ≡ false)
    × (x : World) × (edit (command Ident.edit 1 1 (codes "pets")) v ≡ done tt x)
    × (x.buffer ≡ four_lines)
    × (x.line_nbr ≡ 4)
    × (x.changed_since_last_write ≡ false)
unfolding is_specified trim_space trim_quit ends_line
write-edit_example =
    write-edit system.can_create write_and_quit (command Ident.edit 1 1 (codes "pets")) b'p'
      (codes "ets") four_world refl refl refl refl refl (omega arith) (omega arith) (omega arith)
      (refl, (refl, (refl, (refl, tt))))
