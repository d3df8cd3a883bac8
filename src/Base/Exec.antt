-- ===== src/Base/Exec.antt =====
-- A method that changes a state and may fail: what was written before an error stays written.
use mathlib.Core.Path.{◌≡◌, refl, ap, ◌∙◌}
use Prim.Native.String.{String}
use native.Mathlib.Omega.{arith}
use autok3s.Base.Fallible.{Result, ok, err, panic}

abbrev pub Exec {ℓ} : Type ℓ → Type ℓ → Type ℓ
Exec S A = S → Result A × S

module _ {ℓ} {S A : Type ℓ} where
  unfoldable pub pure : A → Exec S A
  pure a s = (ok a, s)

  unfoldable pub raise : String → Exec S A
  raise e s = (err e, s)

  unfoldable pub crash : Exec S A
  crash s = (panic, s)

  unfoldable pub lift : Result A → Exec S A
  lift r s = (r, s)

  unfoldable pub gets : (S → A) → Exec S A
  gets f s = (ok (f s), s)

module _ {ℓ} {S A B : Type ℓ} where
  unfoldable pub continue : Result A → (A → Exec S B) → Exec S B
  continue (ok a) f s = f a s
  continue (err e) f s = (err e, s)
  continue panic f s = (panic, s)

  infixl 5 ◌>>=◌ ◌>>◌
  unfoldable pub ◌>>=◌ : Exec S A → (A → Exec S B) → Exec S B
  unfolding pure raise crash lift gets continue
  ◌>>=◌ m f s = let (r, s') = m s in continue r f s'

  abbrev pub ◌>>◌ : Exec S A → Exec S B → Exec S B
  m >> n = m >>= λ _. n

  continue-eq-ok :
      (r : Result A) (f : A → Exec S B) (s : S) {b : B} {t : S}
      → continue r f s ≡ (ok b, t)
      → (a : A) × (r ≡ ok a) × (f a s ≡ (ok b, t))
  unfolding continue
  continue-eq-ok (ok a) f s h = (a, refl, h)
  continue-eq-ok (err e) f s h = ground arith
  continue-eq-ok panic f s h = ground arith

  -- A sequence that succeeds is one success after the other.
  pub >>=-eq-ok :
      (m : Exec S A) (f : A → Exec S B) (s : S) {b : B} {t : S}
      → (m >>= f) s ≡ (ok b, t)
      → (a : A) × (u : S) × (m s ≡ (ok a, u)) × (f a u ≡ (ok b, t))
  unfolding ◌>>=◌
  >>=-eq-ok m f s h =
      let (r, u) = m s in let (a, e, k) = continue-eq-ok r f u h in (a, u, ap (λ x. (x, u)) e, k)

-- Whatever the outcome, the action leaves `f` of the state as it was.
abbrev pub Preserves {ℓ κ} : {S A : Type ℓ} {B : Type κ} → (S → B) → Exec S A → Type (ℓ ⊔ κ)
Preserves {S} f m = (s : S) → f (m s).1 ≡ f s

module _ {ℓ κ} {S A B : Type ℓ} {V : Type κ} (f : S → V) where
  continue-Preserves :
      (r : Result A) (k : A → Exec S B) (s : S)
      → ((a : A) → Preserves f (k a))
      → f (continue r k s).1 ≡ f s
  unfolding continue
  continue-Preserves (ok a) k s h = h a s
  continue-Preserves (err e) k s h = refl
  continue-Preserves panic k s h = refl

  pub >>=-Preserves :
      (m : Exec S A) (k : A → Exec S B)
      → Preserves f m
      → ((a : A) → Preserves f (k a))
      → Preserves f (m >>= k)
  unfolding ◌>>=◌
  >>=-Preserves m k h h' s = let (r, u) = m s in continue-Preserves r k u h' ∙ h s

-- Whatever the outcome, `R` holds of the states before and after.
abbrev pub Steps {ℓ κ} : {S A : Type ℓ} → (S → S → Type κ) → Exec S A → Type (ℓ ⊔ κ)
Steps {S} R m = (s : S) → R s (m s).1

pub record IsOrder {ℓ κ} {S : Type ℓ} (R : S → S → Type κ) : Type (ℓ ⊔ κ) where
  pub reflexive : (s : S) → R s s
  pub transitive : (s t u : S) → R s t → R t u → R s u

module _ {ℓ κ} {S A B : Type ℓ} (R : S → S → Type κ) (order : IsOrder R) where
  continue-Steps :
      (r : Result A) (k : A → Exec S B) (s : S) → ((a : A) → Steps R (k a)) → R s (continue r k s).1
  unfolding continue
  continue-Steps (ok a) k s h = h a s
  continue-Steps (err e) k s h = order.reflexive s
  continue-Steps panic k s h = order.reflexive s

  pub >>=-Steps :
      (m : Exec S A) (k : A → Exec S B) → Steps R m → ((a : A) → Steps R (k a)) → Steps R (m >>= k)
  unfolding ◌>>=◌
  >>=-Steps m k h h' s =
      let (r, u) = m s in order.transitive s u (continue r k u).1 (h s) (continue-Steps r k u h')

module _ {ℓ} {S : Type ℓ} where
  unfoldable pub modify : (S → S) → Exec S (Unit {ℓ})
  modify f s = (ok tt, f s)

-- What holds of a sequence holds for each outcome of its first part.
module _ {ℓ κ} {S A B : Type ℓ} (Q : Result B × S → Type κ) where
  continue-cases :
      (r : Result A) (k : A → Exec S B) (s : S)
      → ((a : A) → r ≡ ok a → Q (k a s))
      → ((e : String) → r ≡ err e → Q (err e, s))
      → (r ≡ panic → Q (panic, s))
      → Q (continue r k s)
  unfolding continue
  continue-cases (ok a) k s f g h = f a refl
  continue-cases (err e) k s f g h = g e refl
  continue-cases panic k s f g h = h refl

  pub >>=-cases :
      (m : Exec S A) (k : A → Exec S B) (s : S)
      → ((a : A) → (m s).0 ≡ ok a → Q (k a (m s).1))
      → ((e : String) → (m s).0 ≡ err e → Q (err e, (m s).1))
      → ((m s).0 ≡ panic → Q (panic, (m s).1))
      → Q ((m >>= k) s)
  unfolding ◌>>=◌
  >>=-cases m k s f g h = let (r, u) = m s in continue-cases r k u f g h

module _ {ℓ} {S A B : Type ℓ} where
  -- What follows a first part that succeeded.
  pub >>=-ok :
      (m : Exec S A) (k : A → Exec S B) (s : S) {a : A} → (m s).0 ≡ ok a → (m >>= k) s ≡ k a (m s).1
  unfolding ◌>>=◌ continue
  >>=-ok m k s h = ap (λ r. continue r k (m s).1) h
