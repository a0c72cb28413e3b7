-- ===== src/Mark.antt =====
-- Marks (mark.go). The map from names to line numbers is an association list.
pub mod Update
pub mod Table
pub mod Follow
use go_red.Base.{
  ℕ, ◌+◌, ◌-◌, Bool, true, false, ◌&&◌, ◌||◌, Option, none, some, List, [], ◌∷◌, ltb, leb,
  if◌then◌else◌, ℤ, pos, negsuc,
}
use go_red.Command.Ident
use go_red.Command.Ident.{CommandId}
use go_red.Text.{Text, equal}

abbrev pub Marks : Type 0
Marks = List (Text × ℕ)

-- `marks[name]`, and whether it is there.
unfoldable pub find_mark : Text → Marks → Option ℕ
find_mark name [] = none
find_mark name ((n, l) ∷ marks) = if equal n name then some l else find_mark name marks

-- `addMark`: a mark of that name is replaced.
unfoldable pub add_mark : Text → ℕ → Marks → Marks
add_mark name line_nbr [] = (name, line_nbr) ∷ []
add_mark name line_nbr ((n, l) ∷ marks) =
    if equal n name then (n, line_nbr) ∷ marks else (n, l) ∷ add_mark name line_nbr marks

-- `line_nbr > destination`
abbrev pub above : ℕ → ℤ → Bool
above n (pos d) = ltb d n
above n (negsuc d) = true

-- What the loop does with one mark's line number: a new number, or `none` where it is deleted.
unfoldable pub delete_shift : ℕ → ℕ → ℕ → Option ℕ
delete_shift start end line_nbr =
    if leb line_nbr end && leb start line_nbr
    then none
    else if ltb end line_nbr
    then some (line_nbr - (end + 1 - start))
    else some line_nbr

unfoldable pub move_shift : ℕ → ℕ → ℤ → ℕ → Option ℕ
move_shift start end destination line_nbr =
    if above start destination
    then (if ltb end line_nbr || (if above line_nbr destination then false else true)
        then some line_nbr
        else if leb line_nbr end && leb start line_nbr
        then none
        else some (line_nbr + (end + 1 - start)))
    else if ltb line_nbr start || above line_nbr destination
    then some line_nbr
    else if leb line_nbr end && leb start line_nbr
    then none
    else some (line_nbr - (end + 1 - start))

keep_mark : Text → Option ℕ → Marks → Marks
keep_mark name none rest = rest
keep_mark name (some l) rest = (name, l) ∷ rest

-- The loop over the map, which visits every key once and changes only that key.
unfoldable pub shift_marks : (ℕ → Option ℕ) → Marks → Marks
unfolding keep_mark
shift_marks shift [] = []
shift_marks shift ((n, l) ∷ marks) = keep_mark n (shift l) (shift_marks shift marks)

-- `updateMarks`; where it gives an error, which its callers ignore, the marks stay.
unfoldable pub update_marks : CommandId → ℕ → ℕ → ℤ → Marks → Marks
unfolding shift_marks delete_shift move_shift
update_marks CommandId.delete start end destination marks =
    if ltb end start then marks else shift_marks (delete_shift start end) marks
update_marks CommandId.move start end destination marks =
    if ltb end start then marks else shift_marks (move_shift start end destination) marks
update_marks _ start end destination marks = marks
