-- ===== src/Transfer/Relocated.antt =====
-- Where the lines stand after a move, said without the code's way to compute the place.
use mathlib.Core.List.{append_assoc}
use go_red.Base.{
  ℕ, zero, suc, ◌+◌, ◌-◌, ◌<◌, ◌≤◌, ◌≡◌, ◌∙◌, ap, arith, ◌⊎◌, inl, inr, List, [], ◌∷◌, ◌++◌, true,
  false, sym, ltb, if◌then◌else◌, length, length-append, length-take, length-drop, take, drop,
  take-append, drop-append, take-append-drop, drop-drop,
}
use go_red.Buffer.{Line}
use go_red.Lines.Append.{spliced}
use go_red.Lines.Cut.{segment, without}
use go_red.Transfer.{adjusted}

-- Moved up, the lines stand behind the first `dest` lines, and those between come behind them. Moved down, the lines
-- between come first, and the moved ones stand behind the old line `dest`.
abbrev pub relocated : ℕ → ℕ → ℕ → List Line → List Line
relocated start end dest b =
    if ltb dest start
    then take dest b
      ++ (segment start end b ++ (take (start - 1 - dest) (drop dest b) ++ drop end b))
    else take (start - 1) b
      ++ (take (dest - end) (drop end b) ++ (segment start end b ++ drop dest b))

-- The number of the last moved line.
abbrev pub last_moved : ℕ → ℕ → ℕ → ℕ
last_moved start end dest = if ltb dest start then dest + (end + 1 - start) else dest

take_add : (n m : ℕ) (b : List Line) → take (n + m) b ≡ take n b ++ take m (drop n b)
take_add zero m b = let e : 0 + m ≡ m = omega arith in ap (λ k. take k b) e
take_add (suc n) zero [] = let e : suc n + 0 ≡ suc n = omega arith in ap (λ k. take k []) e
take_add (suc n) (suc m) [] =
    let e : suc n + suc m ≡ suc (n + suc m) = omega arith in ap (λ k. take k []) e
take_add (suc n) m (x ∷ b) =
    let e : suc n + m ≡ suc (n + m) = omega arith in
    ap (λ k. take k (x ∷ b)) e ∙ ap (x ∷◌) (take_add n m b)

-- Lines put behind the first of two parts.
spliced-parts :
    (n : ℕ) (a b new : List Line) → n ≡ length a → spliced n new (a ++ b) ≡ a ++ (new ++ b)
spliced-parts n a b new h = rw (take-append n a b h, drop-append n a b h)

module _ (start end dest : ℕ) (b : List Line) (p : 0 < start) (q : start ≤ end) (r : end ≤ length b)
    (d : dest ≤ length b) where
  spliced_up :
      dest < start
      → spliced dest (segment start end b) (without start end b)
        ≡ take dest b
          ++ (segment start end b ++ (take (start - 1 - dest) (drop dest b) ++ drop end b))
  spliced_up h =
      let at : dest + (start - 1 - dest) ≡ start - 1 = omega arith in
      let front : take (start - 1) b ≡ take dest b ++ take (start - 1 - dest) (drop dest b) =
        ap (λ k. take k b) (sym at) ∙ take_add dest (start - 1 - dest) b in
      ap (λ t. spliced dest (segment start end b) (t ++ drop end b)) front
      ∙ ap (spliced dest (segment start end b))
          (append_assoc (take dest b) (take (start - 1 - dest) (drop dest b)) (drop end b))
      ∙ spliced-parts dest (take dest b) (take (start - 1 - dest) (drop dest b) ++ drop end b)
          (segment start end b) (omega (arith, length-take dest b))

  spliced_down :
      end ≤ dest
      → spliced (dest - (end + 1 - start)) (segment start end b) (without start end b)
        ≡ take (start - 1) b
          ++ (take (dest - end) (drop end b) ++ (segment start end b ++ drop dest b))
  spliced_down h =
      let at : end + (dest - end) ≡ dest = omega arith in
      let a = take (start - 1) b in
      let m = take (dest - end) (drop end b) in
      let back : drop end b ≡ m ++ drop dest b =
        sym (take-append-drop (dest - end) (drop end b))
        ∙ ap (m ++◌) (drop-drop (dest - end) end b ∙ ap (λ k. drop k b) at) in
      ap (λ t. spliced (dest - (end + 1 - start)) (segment start end b) (a ++ t)) back
      ∙ ap (spliced (dest - (end + 1 - start)) (segment start end b))
          (sym (append_assoc a m (drop dest b)))
      ∙ spliced-parts (dest - (end + 1 - start)) (a ++ m) (drop dest b) (segment start end b) (
          omega (
            arith,
            length-append a m,
            length-take (start - 1) b,
            length-take (dest - end) (drop end b),
            length-drop end b,
          ))
      ∙ append_assoc a m (segment start end b ++ drop dest b)

  pub spliced-relocated :
      (dest < start) ⊎ (end ≤ dest)
      → spliced (adjusted start end dest) (segment start end b) (without start end b)
        ≡ relocated start end dest b
  spliced-relocated o = elim o [
    | inl h ↦
        let up : ltb dest start ≡ true = ground arith in
        let at : adjusted start end dest ≡ dest = ground arith in
        ap (λ k. spliced k (segment start end b) (without start end b)) at ∙ rw up (spliced_up h)
    | inr h ↦
        let down : ltb dest start ≡ false = ground arith in
        let at : adjusted start end dest ≡ dest - (end + 1 - start) = ground arith in
        ap (λ k. spliced k (segment start end b) (without start end b)) at
        ∙ rw down (spliced_down h)
  ]

  pub adjusted-last_moved :
      (dest < start) ⊎ (end ≤ dest)
      → adjusted start end dest + (end + 1 - start) ≡ last_moved start end dest
  adjusted-last_moved o = elim o [ inl h ↦ ground arith | inr h ↦ ground arith ]
