-- ===== src/Regex/Captures.antt =====
-- The named groups of a match (regex.go): `findNamedMatches`, `extractNamedCaptureGroups` and `findAllNamedMatches`.
use go_red.Base.{
  ◌≤◌, ◌≡◌, refl, ◌∙◌, ap, arith, Bool, false, not, ◌&&◌, Option, none, some, List, [], ◌∷◌, length,
  if◌then◌else◌, Bool-cases, Option-cases, sym, inl, inr,
}
use go_red.Text.Equal.{apart}
use go_red.Text.{Text, codes, equal, equal_iff, is_empty}

-- A compiled expression, as far as these functions ask it: `FindStringSubmatch`, `FindAllStringSubmatch` with -1, and
-- `SubexpNames`. What they find is nil, or holds the whole match and then one string for each group.
pub record Pattern : Type 0 where
  pub find_string_submatch : Text → Option (List Text)
  pub find_all_string_submatch : Text → Option (List (List Text))
  pub subexp_names : List Text

-- The map from names to groups.
abbrev pub Captured : Type 0
Captured = List (Text × Text)

-- `results[name] = result`
pub set_group : Text → Text → Captured → Captured
set_group name t [] = (name, t) ∷ []
set_group name t ((n, u) ∷ results) =
    let rest = set_group name t results in if equal n name then (n, t) ∷ results else (n, u) ∷ rest

-- `results[name]`
pub get_group : Text → Captured → Option Text
get_group name [] = none
get_group name ((n, u) ∷ results) =
    let rest = get_group name results in if equal n name then some u else rest

set_unless_empty : Text → Text → Captured → Captured
unfolding set_group
set_unless_empty name t results = if is_empty t then results else set_group name t results

-- The loop over the groups, with the names of those that are left; a group without a name to it panics.
pub extract_from : List Text → List Text → Captured → Option Captured
unfolding set_unless_empty
extract_from names [] results = some results
extract_from [] (t ∷ match) results =
    let rest = extract_from [] match results in if is_empty t then rest else none
extract_from (name ∷ names) (t ∷ match) results =
    extract_from names match (set_unless_empty name t results)

abbrev behind_first : List Text → List Text
behind_first [] = []
behind_first (name ∷ names) = names

-- `extractNamedCaptureGroups`; `none` where it panics.
pub extract_named_capture_groups : List Text → List Text → Bool → Option Captured
unfolding extract_from
extract_named_capture_groups names [] add_all = some []
extract_named_capture_groups names (whole ∷ match) add_all =
    extract_from (behind_first names) match (if add_all then (codes "ALL", whole) ∷ [] else [])

-- What the two functions give: nil, the groups of the matches, or a panic.
pub data Found : Type 0 where
  no_match : Found
  found : List Captured → Found
  out_of_names : Found

found_or_panic : Option (List Captured) → Found
found_or_panic none = out_of_names
found_or_panic (some results) = found results

put_first : Option Captured → Option (List Captured) → Option (List Captured)
put_first (some results) (some rest) = some (results ∷ rest)
put_first _ _ = none

-- The loop over the matches.
extract_all : List Text → List (List Text) → Bool → Option (List Captured)
unfolding put_first
extract_all names [] add_all = some []
extract_all names (match ∷ matches) add_all =
    put_first (extract_named_capture_groups names match add_all) (extract_all names matches add_all)

found_in : List Text → Bool → Option (List (List Text)) → Found
unfolding extract_all found_or_panic
found_in names add_all none = no_match
found_in names add_all (some matches) = found_or_panic (extract_all names matches add_all)

-- A match by itself is a list of one.
alone : Option (List Text) → Option (List (List Text))
alone none = none
alone (some match) = some (match ∷ [])

-- `findNamedMatches`; its map is a list of one.
pub find_named_matches : Pattern → Text → Bool → Found
unfolding found_in alone
find_named_matches re str add_all =
    found_in re.subexp_names add_all (alone (re.find_string_submatch str))

-- `findAllNamedMatches`
pub find_all_named_matches : Pattern → Text → Bool → Found
unfolding found_in
find_all_named_matches re str add_all =
    found_in re.subexp_names add_all (re.find_all_string_submatch str)

-- The last group of a name that is not empty.
abbrev pub last_group : Text → List Text → List Text → Option Text
last_group name [] match = none
last_group name (n ∷ names) [] = none
last_group name (n ∷ names) (t ∷ match) = elim (last_group name names match) [
  | some u ↦ some u
  | none ↦ if equal n name && not (is_empty t) then some t else none
]

abbrev or_else : Option Text → Option Text → Option Text
or_else none b = b
or_else (some t) b = some t

get_group-set_group :
    (name n t : Text) (results : Captured)
    → get_group name (set_group n t results)
      ≡ (if equal n name then some t else get_group name results)
unfolding get_group set_group
get_group-set_group name n t [] = refl
get_group-set_group name n t ((m, u) ∷ results) = elim (Bool-cases (equal m n)) [
  | inl same ↦
      let alike : equal m name ≡ equal n name = ap (λ s. equal s name) ((equal_iff m n).0 same) in
      rw (same, alike) (elim (Bool-cases (equal n name)) [ inl e ↦ rw e | inr e ↦ rw e ])
  | inr other ↦
      let ih = get_group-set_group name n t results in
      rw other (elim (Bool-cases (equal m name)) [
        | inl e ↦ let first : equal n name ≡ false = apart m n name other e in rw (e, first)
        | inr e ↦ rw e ih
      ])
]

get_group-set_unless_empty :
    (name n t : Text) (results : Captured)
    → get_group name (set_unless_empty n t results)
      ≡ or_else (if equal n name && not (is_empty t) then some t else none) (get_group name results)
unfolding set_unless_empty
get_group-set_unless_empty name n t results = elim (Bool-cases (is_empty t)) [
  | inl e ↦ rw e (elim (Bool-cases (equal n name)) [ inl f ↦ rw f | inr f ↦ rw f ])
  | inr e ↦
      rw (e, get_group-set_group name n t results)
        (elim (Bool-cases (equal n name)) [ inl f ↦ rw f | inr f ↦ rw f ])
]

last_group-none : (name : Text) (names : List Text) → last_group name names [] ≡ none
last_group-none name [] = refl
last_group-none name (n ∷ names) = refl

extract_from_lem :
    (name : Text) (names match : List Text) (results : Captured)
    → length match ≤ length names
    → (all : Captured) × (extract_from names match results ≡ some all)
      × (get_group name all ≡ or_else (last_group name names match) (get_group name results))
unfolding extract_from set_unless_empty
extract_from_lem name names [] results h =
    (results, refl, ap (λ o. or_else o (get_group name results)) (sym (last_group-none name names)))
extract_from_lem name [] (t ∷ match) results h = absurd (omega arith)
extract_from_lem name (n ∷ names) (t ∷ match) results h =
    let (all, e, g) =
      extract_from_lem name names match (set_unless_empty n t results) (omega arith) in
    (
      all,
      e,
      g ∙ elim (Option-cases (last_group name names match)) [
        | inl u ↦ rw u (get_group-set_unless_empty name n t results)
        | inr (u, f) ↦ rw f
      ],
    )

-- Where there is a name for each group of a match, `findNamedMatches` without the whole match gives a map in which each
-- name has the last of its groups that are not empty, and no other name has one.
pub find_named_matches_lem :
    (re : Pattern) (str name whole : Text) (n : Text) (names match : List Text)
    → re.find_string_submatch str ≡ some (whole ∷ match)
    → re.subexp_names ≡ n ∷ names
    → length match ≤ length names
    → (all : Captured) × (find_named_matches re str false ≡ found (all ∷ []))
      × (get_group name all ≡ last_group name names match)
unfolding find_named_matches found_in alone extract_named_capture_groups extract_all put_first
    found_or_panic get_group
find_named_matches_lem re str name whole n names match m s l =
    let (all, e, g) = extract_from_lem name names match [] l in
    (
      all,
      rw (m, s, alone, found_in) (rw e),
      g ∙ elim (Option-cases (last_group name names match)) [ inl u ↦ rw u | inr (u, f) ↦ rw f ],
    )
