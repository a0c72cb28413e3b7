-- ===== src/Process/Copied.antt =====
-- A put or a transfer, and then the undo of it.
use go_red.Base.{
  ℕ, ◌+◌, ◌-◌, ◌<◌, ◌≤◌, ◌≡◌, refl, arith, false, none, some, List, ◌∷◌, length, pos, int_limit,
}
use go_red.Address.{is_not_specified}
use go_red.Buffer.{Line}
use go_red.Command.Ident
use go_red.Command.{Command}
use go_red.Edit.Change.{add_undo-fields}
use go_red.Edit.Delete.{length-segment}
use go_red.Exec.{done}
use go_red.Lines.Append.{appended, spliced}
use go_red.Lines.Cut.{segment}
use go_red.Process.Undoing.{plain_undo, undo_spliced}
use go_red.Process.{System, reply, process_command, undo_lines}
use go_red.Range.{line_range, get_address_range}
use go_red.Result.{ok}
use go_red.State.{World, no_text, set_changed, undo_command, add_undo}
use go_red.Transfer.Copying.{copied_world, put_lem, transfer_lem}
use go_red.Transfer.{destination, put, transfer}

-- The undo that a copy stores.
copied-undo :
    (cmd : Command) (at : ℕ) (new : List Line) (w : World)
    → w.processing_undo ≡ false
    → (copied_world cmd at new w).undo
      ≡ undo_command (pos (at + 1)) (pos (at + length new)) Ident.delete no_text cmd ∷ w.undo
unfolding add_undo
copied-undo cmd at new w h = rw h

copied-buffer :
    (cmd : Command) (at : ℕ) (new : List Line) (w : World)
    → (copied_world cmd at new w).buffer ≡ spliced at new w.buffer
copied-buffer cmd at new w =
    (add_undo-fields (at + 1) (at + length new) Ident.delete no_text cmd
      (set_changed (appended at new w).state)).0

undo_copied :
    (sys : System) (cmd : Command) (at : ℕ) (new : List Line) (w : World)
    → w.processing_undo ≡ false
    → at ≤ length w.buffer
    → 0 < length new
    → at + length new < int_limit
    → (x : World) × (process_command sys plain_undo none false (copied_world cmd at new w)
        ≡ done (reply false none) x)
      × (x.buffer ≡ w.buffer)
unfolding undo_lines
undo_copied sys cmd at new w u h l i =
    undo_spliced sys cmd at new no_text none w.undo w.buffer (copied_world cmd at new w) refl
      (copied-undo cmd at new w u) (copied-buffer cmd at new w) h l i

-- Putting a cut buffer that is not empty behind a line of the buffer, given as one address, succeeds where line
-- numbers fit an `int` and no undo is being processed, and the command `u` after it succeeds and gives the
-- buffer back as it was.
pub put-undo :
    (sys : System) (cmd : Command) (start : ℕ) (w : World)
    → cmd.resolved ≡ some (line_range start start)
    → is_not_specified cmd.addr_range.start ≡ ok false
    → 0 < start
    → start ≤ length w.buffer
    → 0 < length w.cut_buffer
    → start + length w.cut_buffer < int_limit
    → w.processing_undo ≡ false
    → (v : World) × (put cmd w ≡ done tt v)
      × (x : World) × (process_command sys plain_undo none false v ≡ done (reply false none) x)
      × (x.buffer ≡ w.buffer)
put-undo sys cmd start w r t p l c i u =
    let (x, e, b) = undo_copied sys cmd start w.cut_buffer w u l c i in
    (copied_world cmd start w.cut_buffer w, put_lem cmd start w r t p l c, x, e, b)

-- Copying lines of the buffer behind line `dest` of it, or to its front, succeeds where line numbers fit an `int`
-- and no undo is being processed, and the command `u` after it succeeds and gives the buffer back as it
-- was.
pub transfer-undo :
    (sys : System) (cmd : Command) (start end dest : ℕ) (w : World)
    → get_address_range sys.regex w.buffer w.marks w.line_nbr cmd.addr_range
      ≡ ok (line_range start end)
    → destination sys.regex false cmd.rest_of_cmd w ≡ done dest w
    → 0 < start
    → start ≤ end
    → end ≤ length w.buffer
    → dest ≤ length w.buffer
    → dest + (end + 1 - start) < int_limit
    → w.processing_undo ≡ false
    → (v : World) × (transfer sys.regex cmd w ≡ done tt v)
      × (x : World) × (process_command sys plain_undo none false v ≡ done (reply false none) x)
      × (x.buffer ≡ w.buffer)
transfer-undo sys cmd start end dest w e t p q r d i u =
    let size = length-segment start end w.buffer p q r in
    let (x, f, b) =
      undo_copied sys cmd dest (segment start end w.buffer) w u d (omega (arith, size))
        (omega (arith, size)) in
    (
      copied_world cmd dest (segment start end w.buffer) w,
      transfer_lem sys.regex cmd start end dest w e t p q r d,
      x,
      f,
      b,
    )
