-- ===== src/Help/Topics.antt =====
-- The topics of the command `h` (help.go) with their texts, one for each case of the switch, in its order.
use go_red.Base.{List, [], ◌∷◌}
use go_red.Text.{Text, codes}

pub record Topic : Type 0 where
  pub names : List Text
  pub text : List Text

abbrev topic : List Text → List Text → Topic
topic names text = record { names = names; text = text }

unfoldable pub topics : List Topic
topics =
    topic (codes "address" ∷ []) (
      codes "An address can contain the following elements:\n"
      ∷ codes " .    The current line in the buffer.\n"
      ∷ codes " $    The last line in the buffer.\n"
      ∷ codes " n    The nth line in the buffer.\n"
      ∷ codes " +n   The nth next line.\n"
      ∷ codes " -n   The nth previous line.\n"
      ∷ codes " +    The next line. Equivalent to '+1'.\n"
      ∷ codes " -    The previous line. Equivalent to '-1'.\n"
      ∷ codes " /re/ The next line matching the regular expression re. The search wraps around.\n"
      ∷ codes
          " ?re? The previous line matching the regular expression re. The search wraps around.\n"
      ∷ codes
          " 'x   Refers to the line marked by a 'k' (mark) command. 'x' is a lower case letter in the range a-z.\n"
      ∷ codes "\nAddress ranges consist of two addresses, separated by a comma or a semicolon.\n"
      ∷ codes
          "In the case of a semicolon, the current line is set to the first address before the second is calculated.\n"
      ∷ codes "The address range can omit either the first or second address or both:\n"
      ∷ codes "  only 1st address specified: the 2nd address is set to the 1st address.\n"
      ∷ codes "  , addr    : the 1st address is set to line 1.\n"
      ∷ codes "  ; addr    : the 1st address is set to the current line.\n"
      ∷ codes "  ,         : equals '1,$', i.e. the first to last lines in the buffer.\n"
      ∷ codes "  ;         : equals '.;$', i.e. the current to last lines in the buffer.\n"
      ∷ [])
    ∷ topic (codes "a" ∷ []) (
        codes "  a Appends text after the addressed line.\n"
        ∷ codes
            "\n  Text is entered in input mode, i.e. any number of lines, terminated by a fullstop on its own line.\n"
        ∷ codes
            "  Specifying the address '0' (zero) adds the entered text at the beginning of the buffer.\n"
        ∷ codes "\n  Ex.: 2a      appends text after line 2.\n"
        ∷ [])
    ∷ topic (codes "c" ∷ []) (
        codes "  c Changes lines in the buffer.\n"
        ∷ codes "\n  Ex.: 2-4c      changes lines 2-4.\n"
        ∷ [])
    ∷ topic (codes "d" ∷ []) (codes "  d Deletes lines from the buffer.\n" ∷ [])
    ∷ topic (codes "e" ∷ codes "E" ∷ []) (
        codes "  e Edits (reads in) file, if there are no current unsaved changes.\n"
        ∷ codes "  E Edits (reads in) file regardless of any currently unsaved changes.\n"
        ∷ [])
    ∷ topic (codes "f" ∷ []) (codes "  f Sets the default filename.\n" ∷ [])
    ∷ topic (codes "g" ∷ codes "G" ∷ codes "v" ∷ codes "V" ∷ []) (
        codes "  g Executes the command-list for all matching lines.\n"
        ∷ codes "  G Interactive 'global'.\n"
        ∷ codes "  v As 'global' but acts on all lines NOT matching the regex.\n"
        ∷ codes "  V Interactive 'inverse-global'.\n"
        ∷ [])
    ∷ topic (codes "h" ∷ []) (codes "  h Displays this help\n" ∷ [])
    ∷ topic (codes "i" ∷ []) (
        codes "  i Inserts text before the addressed line.\n"
        ∷ codes
            "\n  Text is entered in input mode, i.e. any number of lines, terminated by a fullstop on its own line.\n"
        ∷ codes
            "  Specifying the address '0' (zero) adds the entered text at the beginning of the buffer.\n"
        ∷ [])
    ∷ topic (codes "j" ∷ []) (
        codes
          "  j Joins the addressed lines, replacing them by a single line containing the joined text.\n"
        ∷ codes
            "\n  Example: 2,4j will replace the contents of line 2 with the text of lines 2-4.\n"
        ∷ codes "  (Newlines are replaced by spaces)\n"
        ∷ [])
    ∷ topic (codes "k" ∷ []) (
        codes "  k Marks the given line.\n"
        ∷ codes "\n  The mark 'a' can be referred to in an address using the syntax 'a.\n"
        ∷ [])
    ∷ topic (codes "m" ∷ []) (
        codes "  m Moves lines in the buffer.\n"
        ∷ codes "\n  The addressed lines are moved to after the destination address.\n"
        ∷ codes
            "  Specifying the destination address '0' (zero) moves the addressed lines to the beginning of the buffer.\n"
        ∷ codes "\n  Example: 2,4m5 moves lines 2-4 to after line 5.\n"
        ∷ [])
    ∷ topic (codes "l" ∷ codes "n" ∷ codes "p" ∷ []) (
        codes "  l Display the addressed lines.\n"
        ∷ codes "  n Prints the addressed lines with their line numbers.\n"
        ∷ codes "  p Prints the addressed lines.\n"
        ∷ [])
    ∷ topic (codes "P" ∷ []) (codes "  P Sets the prompt.\n" ∷ [])
    ∷ topic (codes "q" ∷ codes "Q" ∷ []) (
        codes "  q Quits the editor if there are no unsaved changes.\n"
        ∷ codes "  Q Quits the editor without saving.\n"
        ∷ [])
    ∷ topic (codes "r" ∷ []) (
        codes "  r Reads a file and appends it after the addressed line.\n"
        ∷ codes
            "\n  Specifying the address '0' (zero) adds the file's contents at the beginning of the buffer.\n"
        ∷ codes "\n  Example: 2r myfile.txt appends the contents of myfile.txt after line 2.\n"
        ∷ [])
    ∷ topic (codes "s" ∷ []) (
        codes "  s Replaces text in lines matching a regular expression.\n"
        ∷ codes "\n  Allowed suffixes are: 'g' global, 'count', or 'l', 'n', or 'p'.\n"
        ∷ codes "  The 'count' suffix causes only the 'count'th match to be replaced.\n"
        ∷ codes
            "\n  Example: 2,4s/re/replacement/g replaces all matches of regex 're' with 'replacement' in lines 2-4.\n"
        ∷ [])
    ∷ topic (codes "t" ∷ []) (codes "  t Copies (transfers) lines to a destination address.\n" ∷ [])
    ∷ topic (codes "u" ∷ []) (
        codes "  u Undoes the effect of the last command that modified anything in the buffer.\n"
        ∷ [])
    ∷ topic (codes "w" ∷ codes "W" ∷ codes "wq" ∷ []) (
        codes "  w Writes the addressed lines to a file.\n"
        ∷ codes "  wq Writes the addressed lines to a file and exits the program.\n"
        ∷ codes "  W Appends the addressed lines to a file.\n"
        ∷ codes "\n  Example: 2,4w rjo.1 writes lines 2-4 to the file 'rjo.1'.\n"
        ∷ [])
    ∷ topic (codes "x" ∷ codes "y" ∷ []) (
        codes "  x Puts (inserts) the cut-buffer after the addressed line.\n"
        ∷ codes "  y Copies (yanks) the addressed lines to the cut-buffer.\n"
        ∷ [])
    ∷ topic (codes "z" ∷ []) (
        codes "  z Scrolls n lines starting at the addressed line.\n"
        ∷ codes
            "  The value for 'n' defaults to the window size and can be reset with this command:\n"
        ∷ codes "\n  Example 1: 2z5 sets the window size to 5 and displays lines 2..7.\n"
        ∷ codes "  Example 2: 2z displays <window-size> lines, starting at line 2.\n"
        ∷ [])
    ∷ topic (codes "#" ∷ []) (codes "  # Enters a comment (i.e. the line is ignored)\n" ∷ [])
    ∷ topic (codes "=" ∷ []) (codes "  = Prints the line number of the addressed line.\n" ∷ [])
    ∷ []
