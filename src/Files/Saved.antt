-- ===== src/Files/Saved.antt =====
-- The buffer written to a file, and read from it again.
use go_red.Base.{
  ℕ, ◌+◌, ◌-◌, ◌<◌, ◌≤◌, ◌≡◌, refl, ◌∙◌, ap, arith, Bool, true, false, some, List, [], ◌∷◌, ◌++◌,
  if◌then◌else◌, pos, length,
}
use go_red.Buffer.{Line}
use go_red.Command.{Command}
use go_red.Exec.{done, ◌>>=◌, ◌>>◌, with_range-some}
use go_red.Files.RoundTrip.{bytes_of, AllLines, read_reader-bytes_of}
use go_red.Files.{
  get_filename, read_file, opened, print_read, count_bytes, edit, write, write_file, written,
  trim_quit, write_writer, read_reader,
}
use go_red.Lines.Append.{at_world, move_to_line_lem}
use go_red.Lines.{from_element}
use go_red.Range.{LineRange, is_specified}
use go_red.Result.{ok}
use go_red.State.{World}
use go_red.Text.{Text, is_empty, codes, equal, equal_iff, itoa, trim_space}

-- The world in which a file name has become the default.
abbrev pub named : Text → World → World
named name w = record w {
  state = record w.state { flags = record w.flags { default_filename = name } };
}

get_filename-named :
    (c : ℕ) (cs : Text) (w : World)
    → get_filename (c ∷ cs) true w ≡ done (c ∷ cs) (named (c ∷ cs) w)
unfolding get_filename is_empty
get_filename-named c cs w = refl

-- The world in which the lines of `w` are the content of a file.
abbrev pub saved : Text → World → World
saved name w = at_world w.line_nbr (some (w.line_nbr - 1)) (record w {
  state = record w.state {
    flags = record w.flags { default_filename = name };
    changed_since_last_write = false;
  };
  out = (itoa (pos (length (bytes_of w.buffer))) ++ codes "C\n") ∷ w.out;
  files = λ n. if equal name n then some (bytes_of w.buffer) else w.files n;
})

write_writer-all : (ls : List Line) → write_writer (length ls) ls ≡ some (bytes_of ls)
unfolding write_writer
write_writer-all [] = refl
write_writer-all (x ∷ ls) = rw (write_writer-all ls)

module _ (can_create : Text → Bool) (cmd : Command) (c : ℕ) (cs : Text) (w : World) {r : LineRange}
    (g : cmd.resolved ≡ some r) (t : trim_space (trim_quit cmd.rest_of_cmd) ≡ c ∷ cs)
    (s : is_specified cmd.addr_range ≡ ok false) (o : can_create (c ∷ cs) ≡ true)
    (p : 0 < length w.buffer) (q : 0 < w.line_nbr) (l : w.line_nbr ≤ length w.buffer) where
  write-saved : write can_create cmd w ≡ done tt (saved (c ∷ cs) w)
  unfolding write write_file written from_element
  write-saved =
      let all : length w.buffer + 1 - 1 ≡ length w.buffer = omega arith in
      let content : write_writer (length w.buffer + 1 - 1) w.buffer ≡ some (bytes_of w.buffer) =
        ap (λ n. write_writer n w.buffer) all ∙ write_writer-all w.buffer in
      with_range-some cmd.resolved _ w g
      ∙ rw (t, get_filename-named c cs w, ◌>>=◌)
          (rw (s, ◌>>=◌)
            (rw (move_to_line_lem 1 (named (c ∷ cs) w) (omega arith) (omega arith), ◌>>=◌, ◌>>◌)
              (rw (o, content, ◌>>=◌, ◌>>◌)
                (move_to_line_lem w.line_nbr (at_world 1 (some 0) (saved (c ∷ cs) w)) q l))))

-- The world in which a file has been read into the buffer.
abbrev pub replaced_world : Text → List Line → World → World
replaced_world name ls w = record (named name w) {
  state = record (named name w).state { buffer = ls; changed_since_last_write = false; undo = [] };
  out =
      (itoa (pos (length ls)) ++ codes "L, " ++ itoa (pos (count_bytes ls)) ++ codes "C\n") ∷ w.out;
}

-- The same, with the last line as the current one.
abbrev pub opened_world : Text → List Line → World → World
opened_world name ls w = at_world (length ls) (some (length ls - 1)) (replaced_world name ls w)

module _ (cmd : Command) (c : ℕ) (cs content : Text) (w : World)
    (t : trim_space cmd.rest_of_cmd ≡ c ∷ cs) (f : w.files (c ∷ cs) ≡ some content)
    (p : 0 < length (read_reader content)) where
  edit_lem : edit cmd w ≡ done tt (opened_world (c ∷ cs) (read_reader content) w)
  unfolding edit read_file opened print_read
  edit_lem =
      rw (t, get_filename-named c cs w, ◌>>=◌)
        (rw (f, ◌>>=◌, ◌>>◌)
          (move_to_line_lem (length (read_reader content))
            (replaced_world (c ∷ cs) (read_reader content) w) p (omega arith)))

-- Writing the whole of a buffer that is not empty to a file that can be created, with the current line in the
-- buffer, succeeds. Where every line ends with its only newline, editing that file afterwards succeeds
-- too: the buffer holds the same lines, the last of them is the current one, and nothing counts as unsaved in
-- either world.
pub write-edit :
    (can_create : Text → Bool) (cmd again : Command) (c : ℕ) (cs : Text) (w : World) {r : LineRange}
    → cmd.resolved ≡ some r
    → is_specified cmd.addr_range ≡ ok false
    → trim_space (trim_quit cmd.rest_of_cmd) ≡ c ∷ cs
    → trim_space again.rest_of_cmd ≡ c ∷ cs
    → can_create (c ∷ cs) ≡ true
    → 0 < length w.buffer
    → 0 < w.line_nbr
    → w.line_nbr ≤ length w.buffer
    → AllLines w.buffer
    → (v : World) × (write can_create cmd w ≡ done tt v)
      × (v.changed_since_last_write ≡ false)
      × (x : World) × (edit again v ≡ done tt x)
      × (x.buffer ≡ w.buffer)
      × (x.line_nbr ≡ length w.buffer)
      × (x.changed_since_last_write ≡ false)
write-edit can_create cmd again c cs w g s t u o p q l a =
    let content = bytes_of w.buffer in
    let same : read_reader content ≡ w.buffer = read_reader-bytes_of w.buffer a in
    let v = saved (c ∷ cs) w in
    let found : v.files (c ∷ cs) ≡ some content = rw ((equal_iff (c ∷ cs) (c ∷ cs)).1 refl) in
    (
      v,
      write-saved can_create cmd c cs w g t s o p q l,
      refl,
      opened_world (c ∷ cs) (read_reader content) v,
      edit_lem again c cs content v u found (rw same p),
      same,
      ap length same,
      refl,
    )
