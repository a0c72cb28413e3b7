-- ===== src/Command/Parse/Fuel.antt =====
-- Each part that `commandLineRE` skips is shorter than the line, so the fuel never runs out.
use go_red.Base.{ℕ, zero, suc, ◌<◌, ◌≡◌, arith, some, [], ◌∷◌, length, Option-cases, inl, inr}
use go_red.Address.Parse.Fuel.{match_at-Shorter}
use go_red.Address.Parse.{match_at}
use go_red.Command.Parse.{space_at, skip_part, skip_parts}
use go_red.Text.{Text}

space_at-lt : (s : Text) {r : Text} → space_at s ≡ some r → length r < length s
unfolding space_at
space_at-lt [] h = cc
space_at-lt (c ∷ cs) h = ground arith

skip_part-lt : (s : Text) {r : Text} → skip_part s ≡ some r → length r < length s
unfolding skip_part
skip_part-lt s {r} h = elim (Option-cases (match_at s)) [
  | inl e ↦ space_at-lt s (rw (e, skip_part) at h)
  | inr (t, e) ↦
      let less : length t.rest < length s = rw e at (match_at-Shorter s) in
      let same : some t.rest ≡ some r = rw (e, skip_part) at h in ground arith
]

-- With fuel above the length of the line, what is skipped does not depend on it.
pub skip_parts_fuel :
    (f g : ℕ) (s : Text) → length s < f → length s < g → skip_parts f s ≡ skip_parts g s
unfolding skip_parts
skip_parts_fuel zero g s h k = absurd (omega arith)
skip_parts_fuel (suc f) zero s h k = absurd (omega arith)
skip_parts_fuel (suc f) (suc g) s h k = elim (Option-cases (skip_part s)) [
  | inl e ↦ rw (e, skip_parts)
  | inr (r, e) ↦
      let less = skip_part-lt s e in
      rw (e, skip_parts) (skip_parts_fuel f g r (omega arith) (omega arith))
]
