-- ===== src/Base/Exec.antt =====
-- Calls that may fail and that change a state: what was changed before a failure stays changed.

use mathlib.Core.Path.{◌≡◌, refl, sym, ap, ◌∙◌}
use mathlib.Core.Logic.{◌⊎◌, inl, inr}

pub data Result (E A : Type 0) : Type 0 where
  ok : A → Result E A
  err : E → Result E A

abbrev pub Exec : Type 0 → Type 0 → Type 0 → Type 0
Exec W E A = W → Result E A × W

module _ {W E A : Type 0} where
  abbrev pub pure : A → Exec W E A
  pure a w = (ok a, w)

  abbrev pub fail : E → Exec W E A
  fail e w = (err e, w)

module _ {W E A B : Type 0} where
  abbrev pub continue : Result E A → (A → Exec W E B) → Exec W E B
  continue (ok a) f w = f a w
  continue (err e) f w = (err e, w)

  infixl 5 ◌>>=◌ ◌>>◌
  abbrev pub ◌>>=◌ : Exec W E A → (A → Exec W E B) → Exec W E B
  ◌>>=◌ m f w = continue (m w).0 f (m w).1

  abbrev pub ◌>>◌ : Exec W E A → Exec W E B → Exec W E B
  m >> n = m >>= λ _. n

module _ {E A : Type 0} where
  pub Result-cases : (r : Result E A) → ((a : A) × (r ≡ ok a)) ⊎ ((e : E) × (r ≡ err e))
  Result-cases (ok a) = inl (a, refl)
  Result-cases (err e) = inr (e, refl)

module _ {W E A B : Type 0} where
  continue_rule :
      (Q : Result E B × W → Type 0) (r : Result E A) (f : A → Exec W E B) (w : W)
      → ((a : A) → r ≡ ok a → Q (f a w))
      → ((e : E) → r ≡ err e → Q (err e, w))
      → Q (continue r f w)
  continue_rule Q (ok a) f w ko ke = ko a refl
  continue_rule Q (err e) f w ko ke = ke e refl

  -- What holds of a sequence, by the two ways in which its first call ends.
  pub bind_rule :
      (Q : Result E B × W → Type 0) (m : Exec W E A) (f : A → Exec W E B) (w : W)
      → ((a : A) → (m w).0 ≡ ok a → Q (f a (m w).1))
      → ((e : E) → (m w).0 ≡ err e → Q (err e, (m w).1))
      → Q ((m >>= f) w)
  bind_rule Q m f w = continue_rule Q (m w).0 f (m w).1

  -- A sequence whose first call fails.
  pub bind_err :
      (m : Exec W E A) (f : A → Exec W E B) (w : W) (e : E)
      → (m w).0 ≡ err e
      → (m >>= f) w ≡ (err e, (m w).1)
  bind_err m f w e h = rw h refl

  -- A sequence that ends well, by its first call.
  pub bind_ok :
      (m : Exec W E A) (f : A → Exec W E B) (w : W) (b : B)
      → ((m >>= f) w).0 ≡ ok b
      → (a : A) × ((m w).0 ≡ ok a) × ((m >>= f) w ≡ f a (m w).1)
  bind_ok m f w b h = elim (Result-cases (m w).0) [
    | inl (a, k) ↦ (a, k, rw k refl)
    | inr (e, k) ↦ absurd (cc (h, k))
  ]

  -- The same with the call's result as a variable.
  pub bind_ok_then :
      {R : Type 0} (m : Exec W E A) (f : A → Exec W E B) (w : W) (b : B)
      → ((m >>= f) w).0 ≡ ok b
      → ((a : A) → (m w).0 ≡ ok a → (f a (m w).1).0 ≡ ok b → (m >>= f) w ≡ f a (m w).1 → R)
      → R
  bind_ok_then m f w b h k =
      let (a, done, e) = bind_ok m f w b h in k a done (ap (λ r. r.0) (sym e) ∙ h) e
