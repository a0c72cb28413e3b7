-- ===== src/Input/Keeps.antt =====
-- Reading lines from standard input leaves no more to read than there was.
use go_red.Base.{ℕ, ◌≤◌, ◌≡◌, refl, arith, Option, none, some, List, [], ◌∷◌, ◌++◌}
use go_red.Buffer.{Line}
use go_red.Exec.Keeps.{Holds, Keeps}
use go_red.Input.{Entered, read_lines, entered_or_fail, read_input_lines, given_or_read}
use go_red.Invariant.{Inv, unread}
use go_red.State.{World}
use go_red.Text.{Text}

read_lines-unread :
    (chunks : List Text) (partial : Text) (ls : List Line) (cs : Text) {e : Entered}
    → read_lines chunks partial ls cs ≡ some e
    → unread e.unread ≤ unread chunks
unfolding read_lines
read_lines-unread [] partial ls [] h = cc
read_lines-unread (chunk ∷ chunks) partial ls [] h =
    omega (arith, read_lines-unread chunks partial ls chunk h)
read_lines-unread chunks partial ls (c ∷ cs) {e} h = ground (
  arith,
  read_lines-unread chunks (partial ++ c ∷ []) ls cs {e = e},
  read_lines-unread chunks [] (ls ++ record { line = partial ++ b'\n' ∷ [] } ∷ []) cs {e = e},
)

entered_or_fail-Inv :
    (k : ℕ) (o : Option Entered) (w : World)
    → ((e : Entered) → o ≡ some e → unread e.unread ≤ unread w.stdin)
    → Inv k w
    → Holds (Inv k) (entered_or_fail o w)
unfolding entered_or_fail
entered_or_fail-Inv k none w h i = (i.0, (i.1.0, omega arith))
entered_or_fail-Inv k (some e) w h i = (i.0, (i.1.0, omega (arith, h e refl, i.1.1)))

pub given_or_read-Keeps : (k : ℕ) (input : Option (List Line)) → Keeps (Inv k) (given_or_read input)
unfolding given_or_read read_input_lines
given_or_read-Keeps k (some ls) w i = i
given_or_read-Keeps k none w i =
    entered_or_fail-Inv k (read_lines w.stdin [] [] []) w
      (λ e h. read_lines-unread w.stdin [] [] [] h) i
