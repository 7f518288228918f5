-- ===== src/Prelude/Effects.antt =====
-- Code that may fail and acts on the outside world. What was done before an error stays done, so
-- the world comes back beside the error too.
use mathlib.Core.Path.{◌≡◌, refl, ap, ◌∙◌}
use mathlib.Core.Bool.{Bool, true, false}
use epistole.Prelude.Tests.{if◌then◌else◌}
use epistole.Prelude.Results.{Result, ok, err, map_err}

abbrev pub Exec {ℓ} : Type ℓ → Type ℓ → Type ℓ → Type ℓ
Exec W E A = W → Result E A × W

module _ {ℓ} {W E A : Type ℓ} where
  abbrev pub pure : A → Exec W E A
  pure a w = (ok a, w)

  abbrev pub raise : E → Exec W E A
  raise e w = (err e, w)

  abbrev pub lift : Result E A → Exec W E A
  lift r w = (r, w)

module _ {ℓ} {W E F A : Type ℓ} where
  -- `call.map_err(f)`
  abbrev pub call : Exec W E A → (E → F) → Exec W F A
  call m f w = (map_err (m w).0 f, (m w).1)

module _ {ℓ} {W E A B : Type ℓ} where
  abbrev pub continue : Result E A → (A → Exec W E B) → Exec W E B
  continue (ok a) f w = f a w
  continue (err e) f w = (err e, w)

  infixl 10 ◌>>=◌ ◌>>◌
  -- The `?` operator.
  abbrev pub ◌>>=◌ : Exec W E A → (A → Exec W E B) → Exec W E B
  ◌>>=◌ m f w = continue (m w).0 f (m w).1

  abbrev pub ◌>>◌ : Exec W E A → Exec W E B → Exec W E B
  m >> n = m >>= λ _. n

-- Inversion of a run that succeeds.
module _ {ℓ} {W E A B : Type ℓ} where
  continue-eq-ok :
      (r : Result E A) (f : A → Exec W E B) (w : W) {b : B}
      → (continue r f w).0 ≡ ok b
      → (a : A) × (r ≡ ok a) × (continue r f w ≡ f a w) × ((f a w).0 ≡ ok b)
  continue-eq-ok (ok a) f w h = (a, refl, refl, h)
  continue-eq-ok (err e) f w h = cc

  pub >>=-eq-ok :
      (m : Exec W E A) (f : A → Exec W E B) (w : W) {b : B}
      → ((m >>= f) w).0 ≡ ok b
      → (a : A) × ((m w).0 ≡ ok a) × ((m >>= f) w ≡ f a (m w).1) × ((f a (m w).1).0 ≡ ok b)
  >>=-eq-ok m f w h = continue-eq-ok (m w).0 f (m w).1 h

module _ {ℓ} {W E A B : Type ℓ} where
  continue-cong :
      (r : Result E A) {f g : A → Exec W E B} (w : W)
      → ((a : A) (v : W) → f a v ≡ g a v)
      → continue r f w ≡ continue r g w
  continue-cong (ok a) w same = same a w
  continue-cong (err e) w same = refl

  pub >>=-cong :
      (m : Exec W E A) {f g : A → Exec W E B} (w : W)
      → ((a : A) (v : W) → f a v ≡ g a v)
      → (m >>= f) w ≡ (m >>= g) w
  >>=-cong m w same = continue-cong (m w).0 (m w).1 same

module _ {ℓ} {W E A B C : Type ℓ} where
  continue_assoc :
      (r : Result E A) (f : A → Exec W E B) (g : B → Exec W E C) (w : W)
      → continue (continue r f w).0 g (continue r f w).1 ≡ continue r (λ a. f a >>= g) w
  continue_assoc (ok a) f g w = refl
  continue_assoc (err e) f g w = refl

  pub >>=-assoc :
      (m : Exec W E A) (f : A → Exec W E B) (g : B → Exec W E C) (w : W)
      → ((m >>= f) >>= g) w ≡ (m >>= λ a. f a >>= g) w
  >>=-assoc m f g w = continue_assoc (m w).0 f g (m w).1

module _ {ℓ} {E F A : Type ℓ} where
  pub map_err-eq-ok : (r : Result E A) (f : E → F) {a : A} → map_err r f ≡ ok a → r ≡ ok a
  map_err-eq-ok (ok b) f h = cc
  map_err-eq-ok (err e) f h = cc

-- `m` leaves what `view` shows of the world as it was, whether it succeeds or fails.
pub record Keeps {ℓ} {W E A V : Type ℓ} (view : W → V) (m : Exec W E A) : Type ℓ where
  pub at : (w : W) → view (m w).1 ≡ view w

module _ {ℓ} {W E A V : Type ℓ} {view : W → V} where
  pub Keeps-pure : (a : A) → Keeps view (pure {E = E} a)
  Keeps-pure a = record { at = λ w. refl }

  pub Keeps-raise : (e : E) → Keeps view (raise {A = A} e)
  Keeps-raise e = record { at = λ w. refl }

  pub Keeps-if :
      (b : Bool) {m n : Exec W E A} → Keeps view m → Keeps view n → Keeps view (if b then m else n)
  Keeps-if true k l = k
  Keeps-if false k l = l

  pub Keeps-lift : (r : Result E A) → Keeps view (lift r)
  Keeps-lift r = record { at = λ w. refl }

module _ {ℓ} {W E F A V : Type ℓ} {view : W → V} where
  pub Keeps-call : (m : Exec W E A) (f : E → F) → Keeps view m → Keeps view (call m f)
  Keeps-call m f k = record { at = k.at }

module _ {ℓ} {W E A B V : Type ℓ} {view : W → V} where
  pub Keeps-continue :
      (r : Result E A) (f : A → Exec W E B)
      → ((a : A) → Keeps view (f a))
      → Keeps view (continue r f)
  Keeps-continue (ok a) f k = k a
  Keeps-continue (err e) f k = Keeps-raise e

  pub Keeps-bind :
      (m : Exec W E A) (f : A → Exec W E B)
      → Keeps view m
      → ((a : A) → Keeps view (f a))
      → Keeps view (m >>= f)
  Keeps-bind m f km kf = record { at = λ w. (Keeps-continue (m w).0 f kf).at (m w).1 ∙ km.at w }

pub ruleset keeps_rules = (Keeps-pure, Keeps-raise, Keeps-lift, Keeps-call, Keeps-bind)

-- The run of `m` from `w` ends with a value.
abbrev pub Returns {ℓ} : {W E A : Type ℓ} → Exec W E A → W → Type ℓ
Returns {A} m w = (a : A) × ((m w).0 ≡ ok a)

module _ {ℓ} {W E A B : Type ℓ} where
  continue-Returns :
      (r : Result E A) (f : A → Exec W E B) (w : W) {a : A}
      → r ≡ ok a
      → Returns (f a) w
      → Returns (continue r f) w
  continue-Returns (ok b) f w {a} h k = rw h k
  continue-Returns (err e) f w h k = cc

  -- A chain returns if each of its parts does.
  pub >>=-Returns :
      (m : Exec W E A) (f : A → Exec W E B) (w : W)
      → Returns m w
      → ((a : A) → (m w).0 ≡ ok a → Returns (f a) (m w).1)
      → Returns (m >>= f) w
  >>=-Returns m f w (a, h) k = continue-Returns (m w).0 f (m w).1 h (k a h)

module _ {ℓ} {W E F A : Type ℓ} where
  pub call-Returns : (m : Exec W E A) (f : E → F) (w : W) → Returns m w → Returns (call m f) w
  call-Returns m f w (a, h) = (a, ap (λ r. map_err r f) h)
