-- ===== src/Range.antt =====
-- Address ranges (addressrange.go).
pub mod Bounds
pub mod Parse
pub mod Valid
use go_red.Base.{ℕ, Bool, true, false, not, ◌&&◌, List, ltb, if◌then◌else◌, ℤ, pos}
use go_red.Address.{
  Address, is_not_specified, calculate_actual_line_number, new_unspecified_address,
}
use go_red.Buffer.{Line}
use go_red.Mark.{Marks}
use go_red.Regex.{Engine}
use go_red.Result.{
  Result, ok, err, panic, ◌>>=◌, map_err, invalid_start_of_range, invalid_end_of_range, bad_range,
}

-- The separator, which is empty where a range has none.
pub data Separator : Type 0 where
  no_separator comma semicolon : Separator

pub record AddressRange : Type 0 where
  pub start : Address
  pub end : Address
  pub separator : Separator

pub record LineRange : Type 0 where
  pub start_line : ℕ
  pub end_line : ℕ

abbrev pub line_range : ℕ → ℕ → LineRange
line_range s e = record { start_line = s; end_line = e }

-- `IsSpecified`; the second test is made only if the first address is not specified.
unfoldable pub is_specified : AddressRange → Result Bool
is_specified ra = do
  no_start ← is_not_specified ra.start
  if no_start then (do no_end ← is_not_specified ra.end; ok (not no_end)) else ok true

-- The first switch: with no separator `startLine` keeps its zero value.
pub default_start : Separator → ℕ → ℕ
default_start comma current = 1
default_start semicolon current = current
default_start no_separator current = 0

abbrev pub dot_for_end : Separator → ℕ → ℕ → ℕ
dot_for_end semicolon current start_line = start_line
dot_for_end _ current start_line = current

module _ (re : Engine) (buffer : List Line) (marks : Marks) where
  pub start_line_of : ℕ → AddressRange → Result ℕ
  unfolding default_start
  start_line_of current ra = do
    no_start ← is_not_specified ra.start
    if no_start
        then ok (default_start ra.separator current)
        else map_err invalid_start_of_range
            (calculate_actual_line_number re buffer marks current ra.start)

  pub end_line_of : ℕ → AddressRange → ℕ → Result ℕ
  end_line_of current ra start_line = do
    no_end ← is_not_specified ra.end
    if no_end
        then ok start_line
        else map_err invalid_end_of_range (
            calculate_actual_line_number re buffer marks
              (dot_for_end ra.separator current start_line) ra.end)

  -- No special value is left here, so the last test is on the order alone.
  unfoldable pub calculate_start_and_end_line_numbers : ℕ → AddressRange → Result LineRange
  unfolding start_line_of end_line_of
  calculate_start_and_end_line_numbers current ra = do
    start_line ← start_line_of current ra
    end_line ← end_line_of current ra start_line
    if ltb end_line start_line then err bad_range else ok (line_range start_line end_line)

  unfoldable pub get_address_range : ℕ → AddressRange → Result LineRange
  get_address_range current ra = do
    specified ← is_specified ra
    if specified
        then calculate_start_and_end_line_numbers current ra
        else ok (line_range current current)
