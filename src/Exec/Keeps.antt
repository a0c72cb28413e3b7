-- ===== src/Exec/Keeps.antt =====
-- What holds of the world in which a call returns or fails.
use go_red.Base.{◌≡◌, ◌≢◌, refl, Bool, true, false, Option, none, some, if◌then◌else◌}
use go_red.Exec.{Run, done, failed, panicked, unfinished, Exec, ◌>>=◌, after, lift, with_range}
use go_red.Range.{LineRange}
use go_red.Result.{Result, ok, err, panic}
use go_red.State.{World}

-- The call finishes, and `I` holds of the world at the end, unless the call panics.
abbrev pub Holds : {A : Type 0} → (World → Type 0) → Run A → Type 0
Holds I (done a w) = I w
Holds I (failed e w) = I w
Holds I panicked = Unit {0}
Holds I unfinished = ⊥

abbrev pub Keeps : {A : Type 0} → (World → Type 0) → Exec A → Type 0
Keeps I m = (w : World) → I w → Holds I (m w)

pub Holds-imp :
    (I J : World → Type 0) {A : Type 0} (r : Run A)
    → ((w : World) → I w → J w)
    → Holds I r
    → Holds J r
Holds-imp I J (done a w) f h = f w h
Holds-imp I J (failed e w) f h = f w h
Holds-imp I J panicked f h = tt
Holds-imp I J unfinished f h = h

pub Holds-finished : (I : World → Type 0) {A : Type 0} (r : Run A) → Holds I r → r ≢ unfinished
Holds-finished I (done a w) h = λ e. cc
Holds-finished I (failed e w) h = λ e. cc
Holds-finished I panicked h = λ e. cc
Holds-finished I unfinished h = absurd h

-- A call of which that is known, and then one that is told what the first has kept.
pub Holds-bind_told :
    (I J : World → Type 0) {A B : Type 0} (m : Exec A) (f : A → Exec B) (w : World)
    → ((v : World) → I v → J v)
    → Holds I (m w)
    → ((a : A) (v : World) → I v → Holds J (f a v))
    → Holds J ((m >>= f) w)
unfolding after
Holds-bind_told I J {A} m f w g h k = on (m w) h
  where
    on : (r : Run A) → Holds I r → Holds J (after f r)
    on (done a v) i = k a v i
    on (failed e v) i = g v i
    on panicked i = tt
    on unfinished i = i

module _ (I : World → Type 0) {A B : Type 0} where
  Holds-after :
      (f : A → Exec B) (r : Run A) → Holds I r → ((a : A) → Keeps I (f a)) → Holds I (after f r)
  unfolding after
  Holds-after f (done a w) h k = k a w h
  Holds-after f (failed e w) h k = h
  Holds-after f panicked h k = tt
  Holds-after f unfinished h k = h

  pub Holds-bind :
      (m : Exec A) (f : A → Exec B) (w : World)
      → Holds I (m w)
      → ((a : A) → Keeps I (f a))
      → Holds I ((m >>= f) w)
  unfolding after
  Holds-bind m f w h k = Holds-after f (m w) h k

  pub Keeps-bind :
      (m : Exec A) (f : A → Exec B) → Keeps I m → ((a : A) → Keeps I (f a)) → Keeps I (m >>= f)
  Keeps-bind m f h k w i = Holds-bind m f w (h w i) k

module _ (I : World → Type 0) {A : Type 0} where
  pub Holds-if :
      (b : Bool) (m n : Exec A) (w : World)
      → Holds I (m w)
      → Holds I (n w)
      → Holds I ((if b then m else n) w)
  Holds-if true m n w h k = h
  Holds-if false m n w h k = k

  pub Keeps-if : (b : Bool) (m n : Exec A) → Keeps I m → Keeps I n → Keeps I (if b then m else n)
  Keeps-if true m n h k = h
  Keeps-if false m n h k = k

  pub Keeps-lift : (r : Result A) → Keeps I (lift r)
  Keeps-lift (ok a) w i = i
  Keeps-lift (err e) w i = i
  Keeps-lift panic w i = tt

  pub Keeps-with_range :
      (o : Option LineRange) (f : LineRange → Exec A)
      → ((r : LineRange) → Keeps I (f r))
      → Keeps I (with_range o f)
  unfolding with_range
  Keeps-with_range none f k w i = i
  Keeps-with_range (some r) f k w i = k r w i

  pub Holds-if-run : (b : Bool) (r s : Run A) → Holds I r → Holds I s → Holds I (if b then r else s)
  Holds-if-run true r s h k = h
  Holds-if-run false r s h k = k

module _ (I : World → Type 0) {A B : Type 0} where
  -- A result, and then a call at the same world.
  pub Holds-lift-bind :
      (r : Result A) (f : A → Exec B) (w : World)
      → I w
      → ((a : A) → r ≡ ok a → Holds I (f a w))
      → Holds I ((lift r >>= f) w)
  Holds-lift-bind (ok a) f w i k = k a refl
  Holds-lift-bind (err e) f w i k = i
  Holds-lift-bind panic f w i k = tt

  -- Two calls that agree wherever the first step can end.
  pub bind-cong :
      (m : Exec A) (f g : A → Exec B) (w : World)
      → Holds I (m w)
      → ((a : A) (v : World) → I v → f a v ≡ g a v)
      → (m >>= f) w ≡ (m >>= g) w
  unfolding after
  bind-cong m f g w h k = on (m w) h
    where
      on : (r : Run A) → Holds I r → after f r ≡ after g r
      on (done a v) i = k a v i
      on (failed e v) i = refl
      on panicked i = refl
      on unfinished i = absurd i
