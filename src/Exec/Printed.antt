-- ===== src/Exec/Printed.antt =====
-- What is on standard output after more has been printed.
use go_red.Base.{List, [], ◌∷◌}
use go_red.Text.{Text}

-- Output with more texts printed, the last printed in front.
unfoldable pub say : List Text → List Text → List Text
say [] out = out
say (t ∷ ts) out = say ts (t ∷ out)
