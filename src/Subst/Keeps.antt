-- ===== src/Subst/Keeps.antt =====
-- The substitute command keeps the invariant.
use go_red.Base.{
  ℕ, zero, suc, ◌+◌, ◌-◌, ◌≡◌, refl, ap, arith, Bool, true, false, ◌||◌, Option, none, some, List,
  [], ◌∷◌, ◌++◌, length, ◌==◌, if◌then◌else◌, pos, set,
}
use go_red.Address.Parse.{new_address}
use go_red.Buffer.{Line}
use go_red.Command.Ident
use go_red.Command.{Command}
use go_red.Exec.Keeps.{Keeps, Holds-bind, Keeps-bind, Keeps-if, Keeps-lift}
use go_red.Exec.{lift, pure, print, ◌>>=◌}
use go_red.Invariant.{Inv, add_undo-Inv}
use go_red.Lines.Keeps.{move_to_line-Keeps}
use go_red.Lines.{move_to_line, from_element}
use go_red.Range.{get_address_range}
use go_red.Regex.{Engine}
use go_red.Show.{print_line}
use go_red.State.{Change, changes}
use go_red.Subst.{
  Printing, undo_change, replace_line, replace_loop, replace_lines, RegexCommand, process_lines,
  with_previous, process_lines_using_previous_subst, subst_lines, cmd_substitute, cmd_global,
  parse_regex_command,
}
use go_red.Text.{Text, codes, itoa, contains_byte, trim_space}

pub length-set : (n : ℕ) (x : Line) (xs : List Line) → length (set xs n x) ≡ length xs
length-set n x [] = refl
length-set zero x (y ∷ xs) = refl
length-set (suc n) x (y ∷ xs) = ap suc (length-set n x xs)

module _ (k : ℕ) (re : Engine) where
  print_line-Keeps :
      (nbr : ℕ) (t : Text) (numbers : Bool) → Keeps (Inv k) (print_line nbr t numbers)
  unfolding print_line
  print_line-Keeps nbr t true w i = i
  print_line-Keeps nbr t false w i = i

  replace_line-Keeps :
      (pattern replacement : Text) (p : Printing) (nbr : ℕ) (x : Line)
      → Keeps (Inv k) (replace_line re pattern replacement p nbr x)
  unfolding replace_line
  replace_line-Keeps pattern replacement p nbr x =
      let changed = re.replace_all pattern x.line replacement in
      Keeps-bind (Inv k)
        (if p.shows || p.numbers then print_line nbr changed p.numbers else pure tt) _
        (Keeps-if (Inv k) (p.shows || p.numbers) _ _ (print_line-Keeps nbr changed p.numbers)
          (λ w i. i))
        (λ t w i.
          let same = length-set (nbr - 1) (record { line = changed }) w.buffer in
          Holds-bind (Inv k) (lift (new_address (itoa (pos nbr)))) (λ a. pure (undo_change a x))
            (record w {
              state = record w.state {
                buffer = set w.buffer (nbr - 1) (record { line = changed });
              };
            })
            (Keeps-lift (Inv k) (new_address (itoa (pos nbr))) _ (omega (arith, same, i.0), i.1))
            (λ a v j. j))

  replace_loop-Keeps :
      (pattern replacement : Text) (p : Printing) (rounds nbr : ℕ) (els : List Line)
      (cs : List Change)
      → Keeps (Inv k) (replace_loop re pattern replacement p rounds nbr els cs)
  unfolding replace_loop
  replace_loop-Keeps pattern replacement p zero nbr els cs w i = i
  replace_loop-Keeps pattern replacement p (suc r) nbr [] cs w i = tt
  replace_loop-Keeps pattern replacement p (suc r) nbr (x ∷ els) cs w i =
      on (re.matches pattern x.line)
        (λ ds v j. replace_loop-Keeps pattern replacement p r (nbr + 1) els ds v j) w i
    where
      on :
          (b : Bool)
          → ((ds : List Change)
              → Keeps (Inv k) (replace_loop re pattern replacement p r (nbr + 1) els ds))
          → Keeps (Inv k) (elim b [
            | true ↦ replace_line re pattern replacement p nbr x >>= λ c.
                replace_loop re pattern replacement p r (nbr + 1) els (cs ++ c ∷ [])
            | false ↦ replace_loop re pattern replacement p r (nbr + 1) els cs
          ])
      on true ih =
          Keeps-bind (Inv k) (replace_line re pattern replacement p nbr x) _
            (replace_line-Keeps pattern replacement p nbr x) (λ c. ih (cs ++ c ∷ []))
      on false ih = ih cs

  replace_lines-Keeps :
      (start end : ℕ) (pattern replacement suffixes : Text)
      → Keeps (Inv k) (replace_lines re start end pattern replacement suffixes)
  unfolding replace_lines
  replace_lines-Keeps start end pattern replacement suffixes =
      Keeps-bind (Inv k)
        (if contains_byte suffixes b'l'
          then print (codes "(suffix l not supported, defaulting to p)")
          else pure tt)
        _ (Keeps-if (Inv k) (contains_byte suffixes b'l') _ _ (λ w i. i) (λ w i. i))
        (λ t. Keeps-bind (Inv k) (move_to_line start) _ (move_to_line-Keeps k start) (λ s w i.
          replace_loop-Keeps pattern replacement
            (record {
              shows = contains_byte suffixes b'p' || contains_byte suffixes b'l';
              numbers = contains_byte suffixes b'n';
            })
            (end + 1 - start) start (from_element w.dotline w.buffer) [] w i))

  process_lines-Keeps :
      (start end : ℕ) (c : RegexCommand) → Keeps (Inv k) (process_lines re start end c)
  unfolding process_lines
  process_lines-Keeps start end c =
      Keeps-if (Inv k) (re.compiles c.pattern) _ _
        (λ w i. replace_lines-Keeps start end c.pattern c.replacement c.suffixes _ i) (λ w i. i)

  with_previous-Keeps :
      (start end : ℕ) (o : Option Text) → Keeps (Inv k) (with_previous re start end o)
  unfolding with_previous
  with_previous-Keeps start end none w i = i
  with_previous-Keeps start end (some pattern) w i =
      replace_lines-Keeps start end pattern w.last_subst_replacement w.last_subst_suffixes w i

  subst_lines-Keeps : (start end : ℕ) (t : Text) → Keeps (Inv k) (subst_lines re start end t)
  unfolding subst_lines process_lines_using_previous_subst
  subst_lines-Keeps start end [] w i = with_previous-Keeps start end w.last_subst_re w i
  subst_lines-Keeps start end (c ∷ cs) w i =
      Holds-bind (Inv k) (lift (parse_regex_command (c ∷ cs))) (process_lines re start end) w
        (Keeps-lift (Inv k) (parse_regex_command (c ∷ cs)) w i) (process_lines-Keeps start end)

  pub cmd_substitute-Keeps : (cmd : Command) → Keeps (Inv k) (cmd_substitute re cmd)
  unfolding cmd_substitute
  cmd_substitute-Keeps cmd w i =
      Keeps-bind (Inv k) (lift (get_address_range re w.buffer w.marks w.line_nbr cmd.addr_range)) _
        (Keeps-lift (Inv k) _)
        (λ r.
          Keeps-bind (Inv k) (subst_lines re r.start_line r.end_line (trim_space cmd.rest_of_cmd)) _
            (subst_lines-Keeps r.start_line r.end_line (trim_space cmd.rest_of_cmd))
            (λ cs.
              Keeps-if (Inv k) (length cs == 0) _ _ (λ v j. j)
                (λ v j.
                  add_undo-Inv k (pos 1) (pos 1) Ident.undo_subst (changes cs) cmd
                    (record v {
                      out = (itoa (pos (length cs)) ++ codes " lines changed\n") ∷ v.out;
                    })
                    tt j)))
        w i

  pub cmd_global-Keeps : (cmd : Command) → Keeps (Inv k) (cmd_global re cmd)
  unfolding cmd_global
  cmd_global-Keeps cmd w i =
      Keeps-bind (Inv k) (lift (get_address_range re w.buffer w.marks w.line_nbr cmd.addr_range)) _
        (Keeps-lift (Inv k) _) (λ r v j. j) w i
