-- ===== src/Storage/Tags/Values.antt =====
-- The values that a list of tags has under a prefix. For the tag lists of the code they compute.
use beanstore.Base.{
  ◌≡◌, refl, ◌≢◌, String, true, Option, none, some, List, [], ◌∷◌, arith, cat, cut_prefix,
  cut_prefix-cat, cut_prefix-some, contains, eq_iff, Option-cases, inl, inr,
}
use beanstore.Storage.State.{
  State, unknown, state_text, known_state-state_text, known_state-text, first_value, state_of,
  state_tag_prefix,
}
use beanstore.Storage.Tags.{has_value, AtMostOne, cat-injective, first_value-has, first_value_only}

prepend : Option String → List String → List String
prepend none vs = vs
prepend (some v) vs = v ∷ vs

unfoldable pub values_of : String → List String → List String
unfolding prepend
values_of p [] = []
values_of p (t ∷ ts) = prepend (cut_prefix t p) (values_of p ts)

pub has_value-values_of :
    (p v : String) (tags : List String) → has_value p v tags ≡ contains v (values_of p tags)
unfolding values_of contains
has_value-values_of p v [] = refl
has_value-values_of p v (t ∷ ts) = elim (Option-cases (cut_prefix t p)) [
  | inl e ↦ ground (arith, has_value-values_of p v ts, eq_iff (cat p v) t, cut_prefix-cat p v)
  | inr (u, e) ↦ ground (
    arith,
    has_value-values_of p v ts,
    eq_iff (cat p v) t,
    eq_iff v u,
    cut_prefix-some t p u,
    cat-injective p {u = v} {v = u},
  )
]

-- A readable state stands in the tags.
pub state_of-has :
    (tags : List String) (s : State)
    → state_of tags ≡ some s
    → s ≢ unknown
    → has_value state_tag_prefix (state_text s) tags ≡ true
unfolding state_of
state_of-has tags s h n = elim (Option-cases (first_value tags state_tag_prefix)) [
  | inl e ↦ ground arith
  | inr (v, e) ↦ ground (arith, first_value-has tags state_tag_prefix v, known_state-text v s)
]

-- The only state tag is the state.
pub state_of_only :
    (tags : List String) (s : State)
    → AtMostOne state_tag_prefix tags
    → has_value state_tag_prefix (state_text s) tags ≡ true
    → state_of tags ≡ some s
unfolding state_of
state_of_only tags s one h =
    ground
      (arith, first_value_only tags state_tag_prefix (state_text s) one h, known_state-state_text s)
