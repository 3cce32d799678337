-- ===== src/Storage/Tags.antt =====
-- Tags as sets of values under a prefix: how tagValue and stateOf of internal/storage/volumes.go
-- read a set of tags that has at most one value for the prefix.
pub mod Values
pub mod Change
use beanstore.Base.{
  ◌≡◌, ap, String, Bool, true, some, List, [], ◌∷◌, arith, cat, cut_prefix, cut_prefix-cat,
  cut_prefix-some, contains, str_eq, eq_iff, Option-cases, inl, inr, Bool-cases,
}
use beanstore.Storage.State.{first_value}

-- Whether the tag with this prefix and value is among the tags.
abbrev pub has_value : String → String → List String → Bool
has_value p v tags = contains (cat p v) tags

abbrev pub AtMostOne : String → List String → Type 0
AtMostOne p tags = (u v : String) → has_value p u tags ≡ true → has_value p v tags ≡ true → u ≡ v

pub cat-injective : (p : String) {u v : String} → cat p u ≡ cat p v → u ≡ v
cat-injective p {u} {v} h = cc (cut_prefix-cat p u, cut_prefix-cat p v, ap (λ t. cut_prefix t p) h)

-- The first value is one of the values.
pub first_value-has :
    (tags : List String) (p v : String) → first_value tags p ≡ some v → has_value p v tags ≡ true
unfolding first_value contains
first_value-has [] p v h = cc
first_value-has (t ∷ ts) p v h =
    ground (arith, cut_prefix-some t p v, first_value-has ts p v, eq_iff (cat p v) t)

-- With no value under the prefix there is none, and with one there is a first.
pub has-first_value :
    (tags : List String) (p v : String)
    → has_value p v tags ≡ true
    → (u : String) × (first_value tags p ≡ some u)
unfolding first_value contains
has-first_value [] p v h = cc
has-first_value (t ∷ ts) p v h = elim (Option-cases (cut_prefix t p)) [
  | inr (u, e) ↦ (u, ground arith)
  | inl e ↦ elim (Bool-cases (str_eq (cat p v) t)) [
    | inl same ↦ absurd (cc (cut_prefix-cat p v, (eq_iff (cat p v) t).0 same, e))
    | inr other ↦ let (u, eu) = has-first_value ts p v (ground arith) in (u, ground arith)
  ]
]

pub first_value_only :
    (tags : List String) (p v : String)
    → AtMostOne p tags
    → has_value p v tags ≡ true
    → first_value tags p ≡ some v
first_value_only tags p v one h =
    let (u, e) = has-first_value tags p v h in
    rw e (ap some (one u v (first_value-has tags p u e) h))
