-- ===== src/Storage/Node.antt =====
-- A node as the storage engine of internal/storage/ sees it through lvm: the state of each
-- volume by name, the invariant of the tags, and what a call leaves as it was.
pub mod Reads
pub mod Changes
pub mod Guard
pub mod Ends
pub mod Calm
use beanstore.Base.{◌≡◌, ◌≢◌, refl, sym, ◌∙◌, String, Option, none, some}
use beanstore.Config.{Config}
use beanstore.Lvm.Interface.{Lvm}
use beanstore.Lvm.Laws.{LvmLaws, Entry, View}
use beanstore.Storage.State.{State, state_of, state_tag_prefix}
use beanstore.Storage.Tags.{AtMostOne}

-- The laws of lvm2 for the configured vg and pool.
abbrev pub NodeLaws : {W : Type 0} → Lvm W → Config → Type 0
NodeLaws lvm cfg = LvmLaws lvm cfg.volume_group cfg.thin_pool

abbrev pub entry_state : Option Entry → Option State
entry_state none = none
entry_state (some e) = state_of e.lv.tags

-- The state of the volume called `id`; none for a foreign lv and for no lv.
abbrev pub state_in : View → String → Option State
state_in v id = entry_state (v id)

-- The same lvs.
pub record Same (v v' : View) : Type 0 where
  pub same : (j : String) → v' j ≡ v j

-- The same lvs but for one name.
pub record SameBut (id : String) (v v' : View) : Type 0 where
  pub others : (j : String) → id ≢ j → v' j ≡ v j

-- No lv has two state tags.
pub record IsTagged (v : View) : Type 0 where
  pub one_state : (id : String) (e : Entry) → v id ≡ some e → AtMostOne state_tag_prefix e.lv.tags

pub Same-refl : (v : View) → Same v v
Same-refl v = record { same = λ j. refl }

pub Same-trans : {u v w : View} → Same u v → Same v w → Same u w
Same-trans a b = record { same = λ j. b.same j ∙ a.same j }

pub Same-SameBut : {u v : View} (id : String) → Same u v → SameBut id u v
Same-SameBut id a = record { others = λ j n. a.same j }

pub SameBut-trans : {u v w : View} (id : String) → SameBut id u v → SameBut id v w → SameBut id u w
SameBut-trans id a b = record { others = λ j n. b.others j n ∙ a.others j n }

pub IsTagged-Same : {u v : View} → Same u v → IsTagged u → IsTagged v
IsTagged-Same s t = record { one_state = λ id e h. t.one_state id e (sym (s.same id) ∙ h) }
