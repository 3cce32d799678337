-- ===== src/Storage/Recovery.antt =====
-- What crash recovery (internal/storage/recover.go) may do to the state of a volume.
pub mod Finishing
pub mod Step
pub mod Loop
pub mod Scan
pub mod Safety
use beanstore.Base.{sym, ◌≡◌, refl, ◌⊎◌, Option, none, some, ◌∙◌, inl, inr}
use beanstore.Storage.State.{State, creating, ready, pushing, incoming, deleting, rollback}

-- A name that recovery does not visit: at most a rollback copy lands on it while it is free.
pub data Lands (s s' : Option State) : Type 0 where
  stays : s' ≡ s → Lands s s'
  lands_rollback : s ≡ none → s' ≡ some rollback → Lands s s'
  lands_ready : s ≡ none → s' ≡ some ready → Lands s s'

-- The states whose volumes recovery may remove.
pub data IsGarbage : State → Type 0 where
  creating_garbage : IsGarbage creating
  deleting_garbage : IsGarbage deleting
  incoming_garbage : IsGarbage incoming
  rollback_garbage : IsGarbage rollback

-- A volume before and after its recovery, or a free name.
pub data Settles (s s' : Option State) : Type 0 where
  lands : Lands s s' → Settles s s'
  removed : (g : State) → IsGarbage g → s ≡ some g → s' ≡ none → Settles s s'
  reverted : s ≡ some pushing → s' ≡ some ready → Settles s s'
  finished : s ≡ some rollback → s' ≡ some ready → Settles s s'

pub Lands-trans : {s t u : Option State} → Lands s t → Lands t u → Lands s u
Lands-trans (stays e) (stays f) = stays (f ∙ e)
Lands-trans (stays e) (lands_rollback f g) = lands_rollback (sym e ∙ f) g
Lands-trans (stays e) (lands_ready f g) = lands_ready (sym e ∙ f) g
Lands-trans (lands_rollback e f) (stays g) = lands_rollback e (g ∙ f)
Lands-trans (lands_rollback e f) (lands_rollback g h) = absurd (cc (f, g))
Lands-trans (lands_rollback e f) (lands_ready g h) = absurd (cc (f, g))
Lands-trans (lands_ready e f) (stays g) = lands_ready e (g ∙ f)
Lands-trans (lands_ready e f) (lands_rollback g h) = absurd (cc (f, g))
Lands-trans (lands_ready e f) (lands_ready g h) = absurd (cc (f, g))

-- A volume that was settled stays as it is.
pub Settles-stays : {s t u : Option State} → Settles s t → u ≡ t → Settles s u
Settles-stays (lands l) e = lands (Lands-trans l (stays e))
Settles-stays (removed g i a b) e = removed g i a (e ∙ b)
Settles-stays (reverted a b) e = reverted a (e ∙ b)
Settles-stays (finished a b) e = finished a (e ∙ b)

-- A volume that is not yet visited was left as it is.
pub stays-Settles : {s t u : Option State} → t ≡ s → Settles t u → Settles s u
stays-Settles e (lands l) = lands (Lands-trans (stays e) l)
stays-Settles e (removed g i a b) = removed g i (sym e ∙ a) b
stays-Settles e (reverted a b) = reverted (sym e ∙ a) b
stays-Settles e (finished a b) = finished (sym e ∙ a) b
