-- ===== src/Storage/State.antt =====
-- The lifecycle states of internal/storage/volumes.go and the lvm tags that persist them.
use beanstore.Base.{
  arith, sym, ◌≢◌, eq_iff, ◌≡◌, refl, String, Option, none, some, List, [], ◌∷◌, cat, cut_prefix,
  str_eq, if◌then◌else◌,
}

-- `unknown` is the state of a volume whose state tag has an unreadable value; its text is "".
pub data State : Type 0 where
  creating ready attached pushing committing : State
  incoming retired deleting snapshot rollback unknown : State

pub State-discrete : Discrete State
State-discrete = hlevel

unfoldable pub state_text : State → String
state_text creating = "creating"
state_text ready = "ready"
state_text attached = "attached"
state_text pushing = "pushing"
state_text committing = "committing"
state_text incoming = "incoming"
state_text retired = "retired"
state_text deleting = "deleting"
state_text snapshot = "snapshot"
state_text rollback = "rollback"
state_text unknown = ""

abbrev known_states : List State
known_states =
    creating ∷ ready ∷ attached ∷ pushing ∷ committing ∷ incoming ∷ retired ∷ deleting ∷ snapshot
    ∷ rollback ∷ []

find_state : String → List State → State
find_state value [] = unknown
find_state value (s ∷ ss) = if str_eq value (state_text s) then s else find_state value ss

-- knownState: the lookup in `knownStates`.
unfoldable pub known_state : String → State
unfolding find_state state_text
known_state value = find_state value known_states

find_state-text :
    (value : String) (s : State) (ss : List State)
    → find_state value ss ≡ s
    → s ≢ unknown
    → value ≡ state_text s
unfolding find_state
find_state-text value s [] h n = absurd (n (sym h))
find_state-text value s (t ∷ ts) h n =
    ground (arith, eq_iff value (state_text t), find_state-text value s ts)

-- A readable state is that of its own text only.
pub known_state-text :
    (value : String) (s : State) → known_state value ≡ s → s ≢ unknown → value ≡ state_text s
known_state-text value s h n = find_state-text value s known_states (unfold known_state in h) n

pub known_state-state_text : (s : State) → known_state (state_text s) ≡ s
unfolding known_state state_text
known_state-state_text creating = refl
known_state-state_text ready = refl
known_state-state_text attached = refl
known_state-state_text pushing = refl
known_state-state_text committing = refl
known_state-state_text incoming = refl
known_state-state_text retired = refl
known_state-state_text deleting = refl
known_state-state_text snapshot = refl
known_state-state_text rollback = refl
known_state-state_text unknown = refl

-- The tags' prefixes are pairwise no prefixes of one another.
abbrev pub state_tag_prefix : String
state_tag_prefix = "beanstore.state="

abbrev pub origin_tag_prefix : String
origin_tag_prefix = "beanstore.origin="

abbrev pub transfer_tag_prefix : String
transfer_tag_prefix = "beanstore.transfer="

abbrev pub target_tag_prefix : String
target_tag_prefix = "beanstore.target="

abbrev pub rollback_target_tag_prefix : String
rollback_target_tag_prefix = "beanstore.rollback_target="

unfoldable pub state_tag : State → String
state_tag s = cat state_tag_prefix (state_text s)

unfoldable pub origin_tag : String → String
origin_tag id = cat origin_tag_prefix id

unfoldable pub transfer_tag : String → String
transfer_tag id = cat transfer_tag_prefix id

unfoldable pub target_tag : String → String
target_tag address = cat target_tag_prefix address

unfoldable pub rollback_target_tag : String → String
rollback_target_tag id = cat rollback_target_tag_prefix id

or_else : Option String → Option String → Option String
or_else none o = o
or_else (some v) _ = some v

-- The value of the first tag with the prefix.
unfoldable pub first_value : List String → String → Option String
unfolding or_else
first_value [] prefix = none
first_value (t ∷ ts) prefix = or_else (cut_prefix t prefix) (first_value ts prefix)

-- tagValue: "" where no tag has the prefix.
unfoldable pub tag_value : List String → String → String
tag_value tags prefix = elim (first_value tags prefix) [ none ↦ "" | some v ↦ v ]

-- stateOf: none where no tag is a state tag, so that the lv is foreign.
unfoldable pub state_of : List String → Option State
state_of tags = elim (first_value tags state_tag_prefix) [
  | none ↦ none
  | some v ↦ some (known_state v)
]
