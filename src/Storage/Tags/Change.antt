-- ===== src/Storage/Tags/Change.antt =====
-- What one lvchange of tags does to the values under a prefix.
use beanstore.Base.{
  ◌≡◌, refl, ◌≢◌, String, true, false, ◌||◌, List, [], ◌∷◌, arith, cat, contains, eq_iff, eq_refl,
  ap, ◌∙◌,
}
use beanstore.Storage.Tags.{has_value, AtMostOne}
use beanstore.Storage.Tags.Values.{values_of, has_value-values_of}

contains_one : (v u : String) → contains v (u ∷ []) ≡ true → v ≡ u
unfolding contains
contains_one v u h = ground (arith, eq_iff v u)

contains_self : (u : String) → contains u (u ∷ []) ≡ true
unfolding contains
contains_self u = ground (arith, eq_refl u)

contains_none : (u : String) → contains u [] ≡ false
unfolding contains
contains_none u = refl

contains_other : (v u : String) → v ≢ u → contains v (u ∷ []) ≡ false
unfolding contains
contains_other v u h = ground (arith, eq_iff v u)

module _ (retag : List String → List String → List String → List String)
    (kept : (t : String) (tags added removed : List String)
      → contains t removed ≡ false
      → contains t (retag tags added removed) ≡ contains t added || contains t tags)
    (dropped : (t : String) (tags added removed : List String)
      → contains t removed ≡ true
      → contains t added ≡ false
      → contains t (retag tags added removed) ≡ false)
    (p : String) (tags added removed : List String) where
  in_list :
      (u : String) {vs : List String} (l : List String)
      → values_of p l ≡ vs
      → has_value p u l ≡ contains u vs
  in_list u l e = has_value-values_of p u l ∙ ap (contains u) e

  -- The value `from` gives way to the value `to`.
  pub swaps-only :
      {from to : String}
      → values_of p added ≡ to ∷ []
      → values_of p removed ≡ from ∷ []
      → AtMostOne p tags
      → has_value p from tags ≡ true
      → (u : String) → has_value p u (retag tags added removed) ≡ true
      → u ≡ to
  swaps-only {from} {to} ea er one h u hu = ground (
    arith,
    in_list u added ea,
    in_list u removed er,
    contains_one u to,
    contains_self from,
    one u from,
    kept (cat p u) tags added removed,
    dropped (cat p u) tags added removed,
  )

  pub swaps-has :
      {from to : String}
      → values_of p added ≡ to ∷ []
      → values_of p removed ≡ from ∷ []
      → to ≢ from
      → has_value p to (retag tags added removed) ≡ true
  swaps-has {from} {to} ea er n = ground (
    arith,
    in_list to added ea,
    in_list to removed er,
    contains_self to,
    contains_other to from n,
    kept (cat p to) tags added removed,
  )

  -- The only value is removed, and none is added.
  pub drops_values :
      {from : String}
      → values_of p added ≡ []
      → values_of p removed ≡ from ∷ []
      → ((u : String) → has_value p u tags ≡ true → u ≡ from)
      → (u : String) → has_value p u (retag tags added removed) ≡ false
  drops_values {from} ea er only u = ground (
    arith,
    in_list u added ea,
    in_list u removed er,
    contains_none u,
    contains_self from,
    only u,
    kept (cat p u) tags added removed,
    dropped (cat p u) tags added removed,
  )

  -- Nothing under the prefix is added or removed.
  pub keeps_values :
      values_of p added ≡ []
      → values_of p removed ≡ []
      → (u : String) → has_value p u (retag tags added removed) ≡ has_value p u tags
  keeps_values ea er u =
      let none_added : has_value p u added ≡ false =
        has_value-values_of p u added ∙ ap (contains u) ea ∙ contains_none u in
      let none_removed : has_value p u removed ≡ false =
        has_value-values_of p u removed ∙ ap (contains u) er ∙ contains_none u in
      ground (arith, kept (cat p u) tags added removed)
