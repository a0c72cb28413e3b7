-- ===== src/Edit/Keeps.antt =====
-- `AppendInsert`, `Delete`, `Change` and `Join` keep the invariant.
use go_red.Base.{
  ℕ, ◌-◌, arith, Bool, true, false, Option, none, some, List, [], ◌∷◌, length, ltb, ◌==◌,
  if◌then◌else◌, pos, negsuc,
}
use go_red.Buffer.{Line}
use go_red.Command.Ident.{CommandId}
use go_red.Command.{Command, create_new_resolved_command}
use go_red.Edit.{
  insert_front, add_undo_lines, insert_lines, append_insert, undo_delete, settle, after_delete,
  delete, put_new, change, or_abort, join, at_front, is_insert,
}
use go_red.Exec.Keeps.{
  Keeps, Holds-bind, Keeps-bind, Holds-if, Keeps-if, Keeps-lift, Keeps-with_range,
}
use go_red.Exec.{◌>>◌}
use go_red.Input.{given_or_read}
use go_red.Mark.{update_marks}
use go_red.Input.Keeps.{given_or_read-Keeps}
use go_red.Invariant.{Inv, Undoes, add_undo-Inv}
use go_red.Lines.Keeps.{append_lines-Keeps, delete_lines-Keeps, copy_lines-Keeps, move_to_line-Inv}
use go_red.Lines.{move_to_line, append_lines, delete_lines, copy_lines}
use go_red.State.{World, UndoText, lines, add_undo}
use go_red.Text.{Text}

module _ (k : ℕ) where
  add_undo_lines-Keeps :
      (a b : ℕ) (id : CommandId) (text : UndoText) (cmd : Command)
      → Undoes id text
      → Keeps (Inv k) (add_undo_lines a b id text cmd)
  unfolding add_undo_lines
  add_undo_lines-Keeps a b id text cmd u w i = add_undo-Inv k (pos a) (pos b) id text cmd w u i

  append_then-Keeps :
      (n a b : ℕ) (new ls : List Line) (id : CommandId) (cmd : Command)
      → Undoes id (lines ls)
      → Keeps (Inv k) (append_lines n new >> add_undo_lines a b id (lines ls) cmd)
  append_then-Keeps n a b new ls id cmd u =
      Keeps-bind (Inv k) (append_lines n new) _ (append_lines-Keeps k n new)
        (λ t. add_undo_lines-Keeps a b id (lines ls) cmd u)

  insert_front-Keeps : (cmd : Command) (new : List Line) → Keeps (Inv k) (insert_front cmd new)
  unfolding insert_front
  insert_front-Keeps cmd new w i =
      Holds-bind (Inv k) (move_to_line (length new)) _ _ (move_to_line-Inv k (length new) _ i.1)
        (λ t v j.
          Holds-if (Inv k) v.processing_undo _ _ v j
            (add_undo_lines-Keeps 1 (length new) CommandId.delete (lines new) cmd tt v j))

  insert_lines-Keeps :
      (cmd : Command) (start : ℕ) (new : List Line) → Keeps (Inv k) (insert_lines cmd start new)
  unfolding insert_lines
  insert_lines-Keeps cmd start new w i =
      Holds-if (Inv k) (at_front cmd.cmd start) _ _ _ (insert_front-Keeps cmd new _ i) (
        Holds-if (Inv k) (is_insert cmd.cmd) _ _ _
          (append_then-Keeps (start - 1) _ _ new new CommandId.delete cmd tt _ i)
          (append_then-Keeps start _ _ new new CommandId.delete cmd tt _ i))

  pub append_insert-Keeps :
      (cmd : Command) (input : Option (List Line)) → Keeps (Inv k) (append_insert cmd input)
  unfolding append_insert
  append_insert-Keeps cmd input = Keeps-with_range (Inv k) cmd.resolved _ λ r.
      Keeps-bind (Inv k) (given_or_read input) _ (given_or_read-Keeps k input) λ new.
        Keeps-if (Inv k) (length new == 0) _ _ (λ w i. i) (insert_lines-Keeps cmd r.start_line new)

  undo_delete-Inv :
      (cmd : Command) (start n : ℕ) (temp : List Line) (w : World)
      → Inv k w
      → Inv k (record w { state = undo_delete cmd start n temp w.state })
  undo_delete-Inv cmd start n temp w i = on (ltb n start)
    where
      on :
          (b : Bool)
          → Inv k (record w {
            state =
                if b
                then add_undo (negsuc 1) (negsuc 1) CommandId.append (lines temp) cmd w.state
                else add_undo (pos start) (pos start) CommandId.insert (lines temp) cmd w.state;
          })
      on true = add_undo-Inv k (negsuc 1) (negsuc 1) CommandId.append (lines temp) cmd w tt i
      on false = add_undo-Inv k (pos start) (pos start) CommandId.insert (lines temp) cmd w tt i

  settle-Keeps : (start n : ℕ) → Keeps (Inv k) (settle start n)
  unfolding settle
  settle-Keeps start n w i =
      Holds-if (Inv k) (n == 0) _ _ w (omega arith, i.1) (move_to_line-Inv k _ w i.1)

  after_delete-Keeps :
      (cmd : Command) (start end : ℕ) (add : Bool) (temp : List Line)
      → Keeps (Inv k) (after_delete cmd start end add temp)
  unfolding after_delete
  after_delete-Keeps cmd start end true temp w i =
      let v : World = record w {
        state = record w.state {
          cut_buffer = temp;
          changed_since_last_write = true;
          marks = update_marks CommandId.delete start end (negsuc 0) w.marks;
        };
      } in
      settle-Keeps start (length w.buffer) _ (undo_delete-Inv cmd start (length w.buffer) temp v i)
  after_delete-Keeps cmd start end false temp w i = settle-Keeps start _ _ i

  pub delete-Keeps : (cmd : Command) (add : Bool) → Keeps (Inv k) (delete cmd add)
  unfolding delete
  delete-Keeps cmd add = Keeps-with_range (Inv k) cmd.resolved _ λ r.
      Keeps-if (Inv k) (r.start_line == 0) _ _ (λ w i. i)
        (Keeps-bind (Inv k) (delete_lines r.start_line r.end_line) _
          (delete_lines-Keeps k r.start_line r.end_line)
          λ temp.
            Keeps-if (Inv k) (length temp == 0) _ _ (λ w i. i)
              (after_delete-Keeps cmd r.start_line r.end_line add temp))

  put_new-Keeps :
      (cmd : Command) (start : ℕ) (new : List Line) → Keeps (Inv k) (put_new cmd start new)
  unfolding put_new
  put_new-Keeps cmd start new w i =
      Holds-if (Inv k) (ltb (length w.buffer) start) _ _ _
        (append_then-Keeps _ _ _ new w.cut_buffer CommandId.change cmd tt _ i)
        (append_then-Keeps _ _ _ new w.cut_buffer CommandId.change cmd tt _ i)

  pub change-Keeps : (cmd : Command) (input : Option (List Line)) → Keeps (Inv k) (change cmd input)
  unfolding change
  change-Keeps cmd input = Keeps-with_range (Inv k) cmd.resolved _ λ r.
      Keeps-if (Inv k) (r.start_line == 0) _ _ (λ w i. i)
        (Keeps-bind (Inv k) (given_or_read input) _ (given_or_read-Keeps k input) λ new.
          Keeps-if (Inv k) (length new == 0) _ _ (λ w i. i)
            (Keeps-bind (Inv k) _ _
              (Keeps-lift (Inv k)
                (create_new_resolved_command cmd CommandId.delete cmd.rest_of_cmd))
              λ d.
                Keeps-bind (Inv k) (delete d false) _ (delete-Keeps d false)
                  λ t. put_new-Keeps cmd r.start_line new))

  or_abort-Keeps : (o : Option Text) → Keeps (Inv k) (or_abort o)
  unfolding or_abort
  or_abort-Keeps none w i = tt
  or_abort-Keeps (some t) w i = i

  pub join-Keeps : (cmd : Command) → Keeps (Inv k) (join cmd)
  unfolding join
  join-Keeps cmd = Keeps-with_range (Inv k) cmd.resolved _ λ r.
      Keeps-bind (Inv k) (copy_lines r.start_line r.end_line) _
        (copy_lines-Keeps k r.start_line r.end_line)
        λ old. Keeps-bind (Inv k) _ _ (or_abort-Keeps _) λ text.
          Keeps-bind (Inv k) _ _
            (Keeps-lift (Inv k) (create_new_resolved_command cmd CommandId.change cmd.rest_of_cmd))
            λ c. change-Keeps c (some (record { line = text } ∷ []))
