-- ===== src/Text/Equal.antt =====
-- Texts that differ.
use go_red.Base.{◌≡◌, ◌∙◌, sym, true, false, inl, inr, Bool-cases}
use go_red.Text.{Text, equal, equal_iff}

pub apart : (x n name : Text) → equal x n ≡ false → equal x name ≡ true → equal n name ≡ false
apart x n name h e = elim (Bool-cases (equal n name)) [
  | inl same ↦
      let alike : x ≡ n = (equal_iff x name).0 e ∙ sym ((equal_iff n name).0 same) in
      cc ((equal_iff x n).1 alike)
  | inr other ↦ other
]

pub turned : (x n : Text) → equal x n ≡ false → equal n x ≡ false
turned x n h = elim (Bool-cases (equal n x)) [
  | inl same ↦ cc ((equal_iff x n).1 (sym ((equal_iff n x).0 same)))
  | inr other ↦ other
]
