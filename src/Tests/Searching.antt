-- ===== src/Tests/Searching.antt =====
-- Addresses and ranges on the small buffer, and what is read and written.
use go_red.Base.{true, false, ◌≤◌, ◌≡◌, refl, arith, [], ◌∷◌, length, pos, add_int}
use go_red.Address.{regex_forward}
use go_red.Base.{◌++◌, some}
use go_red.Text.{contains_byte}
use go_red.Address.Parse.{match_at}
use go_red.Address.Print.Parsed.{match_at-part_string}
use go_red.Address.Print.{part_string}
use go_red.Address.Search.Forward.{ForwardResult, match_line_forward_lem}
use go_red.Address.Search.{line_matches, match_line_forward}
use go_red.Address.{dec, dollar, Address, new_absolute_address, calculate_actual_line_number}
use go_red.Files.RoundTrip.{bytes_of, AllLines, bytes_of-read_reader, ends_line}
use go_red.Files.{read_reader}
use go_red.Range.Bounds.{calculate_start_and_end-le_length}
use go_red.Range.{AddressRange, semicolon, line_range, calculate_start_and_end_line_numbers}
use go_red.Result.{ok}
use go_red.Text.{itoa, atoi, codes}
use go_red.Range.Parse.{no_separators}
use go_red.Address.Parse.{new_address}
use go_red.Text.{trim_space, is_empty}
use go_red.Tests.{prefixes, four_lines}

match_line_forward_lem_example :
    ForwardResult
      (line_matches prefixes (codes "bee"))
      2
      four_lines
      (match_line_forward prefixes (pos 2) (codes "bee") four_lines)
match_line_forward_lem_example =
    match_line_forward_lem prefixes 2 (codes "bee") four_lines refl (omega arith) (omega arith)

-- `$-`
abbrev before_last : Address
before_last = record {
  internal =
      record { addr_ident = dollar; info = [] } ∷ record { addr_ident = dec; info = [] } ∷ [];
}

before_last-eq_ok : calculate_actual_line_number prefixes four_lines [] 2 before_last ≡ ok 3
unfolding calculate_actual_line_number add_int
before_last-eq_ok = refl

-- `2;$-`
abbrev from_2 : AddressRange
from_2 = record { start = new_absolute_address (pos 2); end = before_last; separator = semicolon }

from_2-eq_ok :
    calculate_start_and_end_line_numbers prefixes four_lines [] 1 from_2 ≡ ok (line_range 2 3)
unfolding calculate_start_and_end_line_numbers calculate_actual_line_number atoi itoa add_int
from_2-eq_ok = refl

calculate_start_and_end-le_length_example : (2 ≤ 3) × (3 ≤ length four_lines)
calculate_start_and_end-le_length_example =
    calculate_start_and_end-le_length prefixes four_lines [] 1 from_2 (omega arith) (omega arith)
      from_2-eq_ok

bytes_of-read_reader_example : bytes_of (read_reader (codes "ant\nbee")) ≡ codes "ant\nbee"
bytes_of-read_reader_example = bytes_of-read_reader (codes "ant\nbee")

all_lines : AllLines four_lines
unfolding ends_line
all_lines = (refl, (refl, (refl, (refl, tt))))

address_2 : new_address (codes "2") ≡ ok (new_absolute_address (pos 2))
unfolding new_address atoi itoa trim_space
address_2 = refl

address_last : new_address (codes "$-") ≡ ok before_last
unfolding new_address trim_space
address_last = refl

not_blank : is_empty (trim_space (codes "2;$-")) ≡ false
unfolding trim_space is_empty
not_blank = refl

plain_2 : no_separators (codes "2") ≡ true
unfolding no_separators
plain_2 = refl

plain_last : no_separators (codes "$-") ≡ true
unfolding no_separators
plain_last = refl

match_at-part_string_example :
    match_at
      (part_string (record { addr_ident = regex_forward; info = codes "bee" }) ++ codes " +2")
    ≡ some (record {
      part = record { addr_ident = regex_forward; info = codes "bee" };
      rest = codes " +2";
    })
unfolding contains_byte
match_at-part_string_example =
    match_at-part_string (record { addr_ident = regex_forward; info = codes "bee" }) (codes " +2")
      refl refl
