-- ===== src/Help/Overview.antt =====
-- What the command `h` prints without a topic (help.go).
use go_red.Base.{List, [], ◌∷◌}
use go_red.Text.{Text, codes}

unfoldable pub overview : List Text
overview =
    codes "  a Appends text after the addressed line.\n"
    ∷ codes "  c Changes lines in the buffer.\n"
    ∷ codes "  d Deletes lines from the buffer.\n"
    ∷ codes "  e Edits (reads in) file, if there are no current unsaved changes.\n"
    ∷ codes "  E Edits (reads in) file regardless of any currently unsaved changes.\n"
    ∷ codes "  f Sets the default filename.\n"
    ∷ codes "  g Executes the command-list for all matching lines.\n"
    ∷ codes "  G Interactive 'global'.\n"
    ∷ codes "  h Displays this help. (Specify another command to get help on that command)\n"
    ∷ codes "  i Inserts text before the addressed line.\n"
    ∷ codes
        "  j Joins the addressed lines, replacing them by a single line containing the joined text.\n"
    ∷ codes "  k Marks the given line.\n"
    ∷ codes "  l Display the addressed lines.\n"
    ∷ codes "  m Moves lines in the buffer.\n"
    ∷ codes "  n Prints the addressed lines with their line numbers.\n"
    ∷ codes "  p Prints the addressed lines.\n"
    ∷ codes "  P Sets the prompt.\n"
    ∷ codes "  q Quits the editor if there are no unsaved changes.\n"
    ∷ codes "  Q Quits the editor without saving changes.\n"
    ∷ codes "  r Reads file and appends it after the addressed line.\n"
    ∷ codes "  s Replaces text in lines matching a regular expression.\n"
    ∷ codes "  t Copies (transfers) lines to a destination address.\n"
    ∷ codes "  u Undoes the effect of the last command that modified anything in the buffer.\n"
    ∷ codes "  v As 'global' but acts on all lines NOT matching the regex.\n"
    ∷ codes "  V Interactive 'inverse-global'.\n"
    ∷ codes "  w Writes the addressed lines to a file.\n"
    ∷ codes "  W Appends the addressed lines to a file.\n"
    ∷ codes "  x Puts (inserts) the cut-buffer after the addressed line.\n"
    ∷ codes "  y Copies (yanks) lines to the cut-buffer.\n"
    ∷ codes "  z Scrolls n lines starting at the addressed line.\n"
    ∷ codes "  # Enters a comment (i.e. the line is ignored)\n"
    ∷ codes "  = Prints the line number of the addressed line.\n"
    ∷ codes "\nEnter h <cmd> for more help on a specific command.\n"
    ∷ codes "Enter h address for help on addresses.\n"
    ∷ []
