-- ===== src/Files/RoundTrip.antt =====
-- What is written is read back as the same lines, and what is read holds every byte of the file.
use go_red.Base.{
  ℕ, zero, suc, ◌≡◌, refl, ◌∙◌, ap, arith, Bool, true, false, ◌&&◌, none, some, List, [], ◌∷◌, ◌++◌,
  ◌==◌, leb, if◌then◌else◌, length, take, Bool-cases, inl, inr,
}
use go_red.Buffer.{Line}
use go_red.Files.{add_byte, read_reader, write_writer}
use go_red.Text.{Text}

-- The bytes of the lines, one after the other.
abbrev pub bytes_of : List Line → Text
bytes_of [] = []
bytes_of (l ∷ ls) = l.line ++ bytes_of ls

bytes_of-add_byte : (c : ℕ) (ls : List Line) → bytes_of (add_byte c ls) ≡ c ∷ bytes_of ls
unfolding add_byte
bytes_of-add_byte c [] = refl
bytes_of-add_byte c (l ∷ ls) = refl

-- The lines that a file is read into hold its bytes, all of them and in their order.
pub bytes_of-read_reader : (t : Text) → bytes_of (read_reader t) ≡ t
unfolding read_reader
bytes_of-read_reader [] = refl
bytes_of-read_reader (c ∷ cs) = elim (Bool-cases (c == b'\n')) [
  | inl e ↦ rw e (ap (c ∷◌) (bytes_of-read_reader cs))
  | inr e ↦ rw e (bytes_of-add_byte c (read_reader cs) ∙ ap (c ∷◌) (bytes_of-read_reader cs))
]

-- A text that ends with its only newline.
unfoldable pub ends_line : Text → Bool
ends_line [] = false
ends_line (c ∷ []) = c == b'\n'
ends_line (c ∷ d ∷ cs) = (if c == b'\n' then false else true) && ends_line (d ∷ cs)

abbrev pub AllLines : List Line → Type 0
AllLines [] = Unit {0}
AllLines (l ∷ ls) = (ends_line l.line ≡ true) × AllLines ls

read_reader-append :
    (s rest : Text)
    → ends_line s ≡ true
    → read_reader (s ++ rest) ≡ record { line = s } ∷ read_reader rest
unfolding ends_line read_reader add_byte
read_reader-append [] rest h = cc
read_reader-append (c ∷ []) rest h = rw h
read_reader-append (c ∷ d ∷ cs) rest h =
    let inner : ends_line (d ∷ cs) ≡ true = ground arith in
    let plain : (c == b'\n') ≡ false = ground arith in
    rw plain (ap (add_byte c) (read_reader-append (d ∷ cs) rest inner))

-- Lines that end with their only newline are read back as they were written.
pub read_reader-bytes_of : (ls : List Line) → AllLines ls → read_reader (bytes_of ls) ≡ ls
unfolding read_reader
read_reader-bytes_of [] h = refl
read_reader-bytes_of (l ∷ ls) h =
    read_reader-append l.line (bytes_of ls) h.0 ∙ ap (l ∷◌) (read_reader-bytes_of ls h.1)

-- Writing `n` lines gives their bytes, if there are that many, and panics otherwise.
pub write_writer_lem :
    (n : ℕ) (els : List Line)
    → write_writer n els ≡ (if leb n (length els) then some (bytes_of (take n els)) else none)
unfolding write_writer
write_writer_lem zero els = ground arith
write_writer_lem (suc n) [] = ground arith
write_writer_lem (suc n) (x ∷ els) = ground (arith, write_writer_lem n els)
