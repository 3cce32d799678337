-- ===== src/Base/Keeps.antt =====
-- Properties of the state that a call keeps, whether it fails or not.
use mathlib.Core.Bool.{Bool, true, false}
use beanstore.Base.Tests.{if◌then◌else◌}
use beanstore.Base.Exec.{Exec, ◌>>=◌, bind_rule}

abbrev pub Keeps : {S E A : Type 0} → (S → Type 0) → Exec S E A → Type 0
Keeps {S} P m = (s : S) → P s → P (m s).1

module _ {S E A B : Type 0} (P : S → Type 0) where
  pub then-Keeps :
      (m : Exec S E A) (f : A → Exec S E B)
      → Keeps P m
      → ((a : A) → Keeps P (f a))
      → Keeps P (m >>= f)
  then-Keeps m f km kf s h =
      bind_rule (λ r. P r.1) m f s (λ a _. kf a (m s).1 (km s h)) (λ e _. km s h)

module _ {S E A : Type 0} (P : S → Type 0) where
  pub if-Keeps :
      (b : Bool) (m n : Exec S E A) → Keeps P m → Keeps P n → Keeps P (if b then m else n)
  if-Keeps true m n km kn = km
  if-Keeps false m n km kn = kn
