-- ===== src/Exec.antt =====
-- Functions on the editor's state: they return a value or an error with the state they leave, or
-- panic; a run that is `unfinished` has come to the bound that the model sets on a loop.
pub mod Keeps
pub mod Printed
use go_red.Base.{Option, none, some, ◌∷◌, ◌≡◌, refl, ap}
use go_red.Range.{LineRange}
use go_red.Result.{Result, ok, err, panic, Error, address_not_resolved}
use go_red.State.{State, World}
use go_red.Text.{Text}

pub data Run {ℓ} (A : Type ℓ) : Type ℓ where
  done : A → World → Run A
  failed : Error → World → Run A
  panicked : Run A
  unfinished : Run A

abbrev pub Exec : Type 0 → Type 0
Exec A = World → Run A

infixl 5 ◌>>=◌ ◌>>◌
abbrev pub ◌>>=◌ : {A B : Type 0} → Exec A → (A → Exec B) → Exec B
◌>>=◌ m f w = elim (m w) [
  | done a w' ↦ f a w'
  | failed e w' ↦ failed e w'
  | panicked ↦ panicked
  | unfinished ↦ unfinished
]

abbrev pub ◌>>◌ : {B : Type 0} → Exec (Unit {0}) → Exec B → Exec B
m >> k = m >>= λ _. k

abbrev pub pure : {A : Type 0} → A → Exec A
pure a w = done a w

abbrev pub raise : {A : Type 0} → Error → Exec A
raise e w = failed e w

abbrev pub abort : {A : Type 0} → Exec A
abort w = panicked

abbrev pub give_up : {A : Type 0} → Exec A
give_up w = unfinished

abbrev pub gets : {A : Type 0} → (World → A) → Exec A
gets f w = done (f w) w

abbrev pub lift : {A : Type 0} → Result A → Exec A
lift r w = elim r [ ok a ↦ done a w | err e ↦ failed e w | panic ↦ panicked ]

abbrev pub modify : (State → State) → Exec (Unit {0})
modify f w = done tt (record w { state = f w.state })

abbrev pub print : Text → Exec (Unit {0})
print t w = done tt (record w { out = t ∷ w.out })

-- `if !cmd.addressIsResolved` returns its error, before anything else is done.
unfoldable pub with_range : {A : Type 0} → Option LineRange → (LineRange → Exec A) → Exec A
with_range none f = raise address_not_resolved
with_range (some r) f = f r

pub with_range-some :
    {A : Type 0} (o : Option LineRange) (f : LineRange → Exec A) (w : World) {r : LineRange}
    → o ≡ some r
    → with_range o f w ≡ f r w
unfolding with_range
with_range-some o f w h = rw (h, with_range)

pub with_range-none :
    {A : Type 0} (o : Option LineRange) (f : LineRange → Exec A) (w : World)
    → o ≡ none
    → with_range o f w ≡ failed address_not_resolved w
unfolding with_range
with_range-none o f w h = rw (h, with_range)

pub >>=-eq-done :
    {A B : Type 0} (m : Exec A) (f : A → Exec B) (w : World) {b : B} {v : World}
    → (m >>= f) w ≡ done b v
    → (a : A) × (u : World) × (m w ≡ done a u) × (f a u ≡ done b v)
>>=-eq-done {A} {B} m f w {b} {v} = on (m w) refl
  where
    on :
        (r : Run A)
        → m w ≡ r
        → (elim r [
          | done a w' ↦ f a w'
          | failed e w' ↦ failed e w'
          | panicked ↦ panicked
          | unfinished ↦ unfinished
        ])
          ≡ done b v
        → (a : A) × (u : World) × (m w ≡ done a u) × (f a u ≡ done b v)
    on (done a u) e h = (a, u, e, h)
    on (failed e' u) e h = cc
    on panicked e h = cc
    on unfinished e h = cc

-- A first step that returns, fails or panics.
after : {A B : Type 0} → (A → Exec B) → Run A → Run B
after f r = elim r [
  | done a w' ↦ f a w'
  | failed e w' ↦ failed e w'
  | panicked ↦ panicked
  | unfinished ↦ unfinished
]

module _ {A B : Type 0} (m : Exec A) (f : A → Exec B) (w : World) where
  pub bind-done : {a : A} {u : World} → m w ≡ done a u → (m >>= f) w ≡ f a u
  unfolding after
  bind-done h = ap (after f) h

  pub bind-failed : {e : Error} {u : World} → m w ≡ failed e u → (m >>= f) w ≡ failed e u
  unfolding after
  bind-failed h = ap (after f) h

  pub bind-panicked : m w ≡ panicked → (m >>= f) w ≡ panicked
  unfolding after
  bind-panicked h = ap (after f) h
