-- ===== src/Regex.antt =====
-- Go's `regexp` package, which the program only calls. A compiled expression is kept as its source.
pub mod Captures
use go_red.Base.{Bool}
use go_red.Text.{Text}

pub record Engine : Type 0 where
  -- `regexp.Compile` gives no error.
  pub compiles : Text → Bool
  -- `MatchString`: the expression, then the string.
  pub matches : Text → Text → Bool
  -- `ReplaceAllString`: the expression, the string, then the replacement.
  pub replace_all : Text → Text → Text → Text
