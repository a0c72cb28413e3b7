-- ===== src/Process/Unwinding.antt =====
-- What one `u` does to the undo on top of the list, and many of them in a row.
use go_red.Base.{
  ℕ, ◌+◌, ◌-◌, ◌<◌, ◌≤◌, ◌≡◌, refl, ◌∙◌, ap, arith, true, false, Option, none, List, ◌∷◌, length,
  length-append, length-take, length-drop, take, drop, pos, int_limit,
}
use go_red.Buffer.{Line}
use go_red.Command.Ident.{CommandId}
use go_red.Command.{Command}
use go_red.Edit.Change.{put_world-buffer}
use go_red.Edit.Delete.{deleted_world, cut_state, length-segment}
use go_red.Edit.Insert.{inserted_world}
use go_red.Exec.{give_up, pure, done}
use go_red.Lines.Append.{spliced, length-spliced}
use go_red.Lines.Cut.{segment, without}
use go_red.Process.Changing.{
  changed_back, replaced, replaced-replaced, length-replaced, undo_top-change,
}
use go_red.Process.Reinserting.{resolved_insert, undo_top-insert, spliced-segment, settled-undo}
use go_red.Process.Undoing.{
  plain_undo, popped, restored, undo_entry, undo_top-delete, resolved_delete, deleted_world-buffer,
  inserted-buffer, without-spliced,
}
use go_red.Process.{System, reply, process_command, undo_lines}
use go_red.State.{World, Undo, UndoText, lines, undo_command, add_undo}

-- No undo is being processed, and the undo list and the buffer are these.
abbrev pub Ready : List Undo → List Line → World → Type 0
Ready us b v = (v.undo ≡ us) × (v.buffer ≡ b) × (v.processing_undo ≡ false)

-- With this undo on top of the list, `u` takes it off and leads from the one buffer to the other.
abbrev pub Reverts : System → Undo → List Line → List Line → Type 0
Reverts sys u b b' =
    (us : List Undo) (v : World)
    → Ready (u ∷ us) b v
    → (x : World) × (process_command sys plain_undo none false v ≡ done (reply false none) x)
      × Ready us b' x

module _ (sys : System) (us : List Undo) (v : World) where
  -- Nothing is stored while an undo is processed.
  redeleted-undo :
      (cmd : Command) (a b : ℕ) → (deleted_world cmd a b true (popped sys us v)).undo ≡ us
  unfolding add_undo
  redeleted-undo cmd a b =
      settled-undo a _ (cut_state cmd a b true (popped sys us v)) ∙ ground arith

  reinserted-undo :
      (cmd : Command) (at : ℕ) (new : List Line)
      → (inserted_world cmd at new (popped sys us v)).undo ≡ us
  unfolding add_undo
  reinserted-undo cmd at new = refl

  rechanged-undo :
      (a b : ℕ) (old : List Line) (original : Command)
      → (changed_back a b old original (popped sys us v)).undo ≡ us
  unfolding add_undo
  rechanged-undo a b old original = ground arith

module _ (sys : System) (original : Command) where
  pub insert-Reverts :
      (at : ℕ) (new : List Line) (text : UndoText) (input : Option (List Line)) (b : List Line)
      → undo_lines text ≡ pure input
      → at ≤ length b
      → 0 < length new
      → at + length new < int_limit
      → Reverts sys
          (undo_command (pos (at + 1)) (pos (at + length new)) CommandId.delete text original)
          (spliced at new b)
          b
  insert-Reverts at new text input b t h l i us v (e, f, g) =
      let cmd = resolved_delete (at + 1) (at + length new) text original in
      let size : at + length new ≤ length v.buffer =
        rw f (omega (arith, length-spliced at new b h)) in
      (
        restored sys (deleted_world cmd (at + 1) (at + length new) true (popped sys us v)),
        undo_entry sys _ us v _ e (λ depth.
            undo_top-delete sys depth (at + 1) (at + length new) text input original us v t
              (omega arith) (omega arith) i size),
        (
          redeleted-undo sys us v cmd (at + 1) (at + length new),
          deleted_world-buffer sys (λ c j. give_up) cmd (at + 1) (at + length new) (popped sys us v)
              ∙ ap (without (at + 1) (at + length new)) f
              ∙ without-spliced at new b h,
          refl,
        ),
      )

  pub delete-Reverts :
      (start end : ℕ) (b : List Line)
      → 0 < start
      → start ≤ end
      → end < length b
      → start < int_limit
      → Reverts sys
          (undo_command
            (pos start)
            (pos start)
            CommandId.insert
            (lines (segment start end b))
            original)
          (without start end b)
          b
  delete-Reverts start end b p q r i us v (e, f, g) =
      let old = segment start end b in
      let cmd = resolved_insert start (lines old) original in
      let size : start ≤ length v.buffer = rw f (
        omega (
          arith,
          length-append (take (start - 1) b) (drop end b),
          length-take (start - 1) b,
          length-drop end b,
        )) in
      let some_old : 0 < length old = omega (arith, length-segment start end b p q (omega arith)) in
      (
        restored sys (inserted_world cmd (start - 1) old (popped sys us v)),
        undo_entry sys _ us v _ e
            (λ depth. undo_top-insert sys start old original i some_old depth us v size),
        (
          reinserted-undo sys us v cmd (start - 1) old,
          inserted-buffer sys cmd (start - 1) old (popped sys us v)
              ∙ ap (spliced (start - 1) old) f
              ∙ spliced-segment start end b p q (omega arith),
          refl,
        ),
      )

  pub change-Reverts :
      (start end : ℕ) (new b : List Line)
      → 0 < start
      → start ≤ end
      → end ≤ length b
      → 0 < length new
      → start + length new < int_limit
      → Reverts sys
          (undo_command
            (pos start)
            (pos (start + length new - 1))
            CommandId.change
            (lines (segment start end b))
            original)
          (replaced start end new b)
          b
  change-Reverts start end new b p q r n i us v (e, f, g) =
      let last = start + length new - 1 in
      let old = segment start end b in
      let some_old : 0 < length old = omega (arith, length-segment start end b p q r) in
      let fits : last ≤ length v.buffer =
        rw f (omega (arith, length-replaced start end new b (omega arith))) in
      (
        restored sys (changed_back start last old original (popped sys us v)),
        undo_entry sys _ us v _ e (λ depth.
            undo_top-change sys depth start last old original us v p (omega arith) (omega arith)
              fits some_old),
        (
          rechanged-undo sys us v start last old original,
          put_world-buffer _ start last old (popped sys us v) (omega arith)
              ∙ ap (replaced start last old) f
              ∙ replaced-replaced start end new b p q r,
          refl,
        ),
      )
