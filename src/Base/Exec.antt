-- ===== src/Base/Exec.antt =====
-- Methods that change a state and may raise: what was changed before a raise stays changed.
use mathlib.Core.Path.{◌≡◌, refl}
use mathlib.Core.Path.{subst}
use moadian.Base.Outcome.{Result, ok, err, Error, ok_injective}

abbrev pub Exec : Type 0 → Type 0 → Type 0
Exec W A = W → Result A × W

module _ {W : Type 0} where
  abbrev pub pure : {A : Type 0} → A → Exec W A
  pure a w = (ok a, w)

  abbrev pub lift : {A : Type 0} → Result A → Exec W A
  lift r w = (r, w)

  abbrev pub continue : {A B : Type 0} → Result A → (A → Exec W B) → Exec W B
  continue (ok a) f w = f a w
  continue (err e) f w = (err e, w)

  infixl 5 ◌>>=◌ ◌>>◌
  abbrev pub ◌>>=◌ : {A B : Type 0} → Exec W A → (A → Exec W B) → Exec W B
  ◌>>=◌ m f w = let (r, w') = m w in continue r f w'

  abbrev pub ◌>>◌ : {B : Type 0} → Exec W (Unit {0}) → Exec W B → Exec W B
  m >> k = m >>= λ _. k

-- A run that returns, returns a value with the property.
unfoldable pub Returns : {A : Type 0} → (A → Type 0) → Result A → Type 0
Returns {A = A} P r = (a : A) → r ≡ ok a → P a

err_ne_ok : {A : Type 0} (x : Error) (b : A) → err x ≡ ok b → ⊥
err_ne_ok x b e = cc

pub Returns-pure : {A : Type 0} (P : A → Type 0) (a : A) → P a → Returns P (ok a)
unfolding Returns
Returns-pure P a p b h = subst P (ok_injective a b h) p

Returns-continue :
    {W A B : Type 0} (Q : A → Type 0) (P : B → Type 0) (f : A → Exec W B) (r : Result A) (w : W)
    → Returns Q r
    → ((a : A) → Q a → (w' : W) → Returns P (f a w').0)
    → Returns P (continue r f w).0
unfolding Returns
Returns-continue Q P f (ok a) w q k b h = k a (q a refl) w b h
Returns-continue Q P f (err e) w q k b h = absurd (err_ne_ok e b h)

pub Returns->>= :
    {W A B : Type 0} (Q : A → Type 0) (P : B → Type 0) (m : Exec W A) (f : A → Exec W B) (w : W)
    → Returns Q (m w).0
    → ((a : A) → Q a → (w' : W) → Returns P (f a w').0)
    → Returns P ((m >>= f) w).0
Returns->>= Q P m f w = Returns-continue Q P f (m w).0 (m w).1

pub Returns-any : {A : Type 0} (r : Result A) → Returns (λ _. Unit {0}) r
unfolding Returns
Returns-any r a h = tt
