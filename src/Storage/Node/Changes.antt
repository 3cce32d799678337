-- ===== src/Storage/Node/Changes.antt =====
-- One lvm command under the laws of lvm2: what it does to the states of a node.
use beanstore.Base.{
  some_injective, ◌≡◌, ◌≢◌, ap, sym, ◌∙◌, String, true, Option, some, [], ◌∷◌, arith, str_eq,
  eq_iff, eq_refl, Bool-cases, inl, inr,
}
use mathlib.Core.Path.{subst}
use beanstore.Base.Exec.{ok}
use beanstore.Config.{Config}
use beanstore.Lvm.Types.{ChangeLogicalVolumeOptions}
use beanstore.Lvm.Interface.{Lvm}
use beanstore.Lvm.Laws.{Entry, View, put}
use beanstore.Storage.State.{
  State, unknown, state_text, state_of, state_tag_prefix, known_state-state_text, known_state,
}
use beanstore.Storage.Volume.{lv_name}
use beanstore.Storage.Tags.{AtMostOne, has_value}
use beanstore.Storage.Tags.Values.{values_of, state_of-has, state_of_only}
use beanstore.Storage.Tags.Change.{swaps-only, swaps-has}
use beanstore.Storage.Node.{IsTagged-Same, NodeLaws, state_in, entry_state, Same, SameBut, IsTagged}

pub put_self : (id : String) (e : Option Entry) (v : View) → put id e v id ≡ e
put_self id e v = ground (arith, eq_refl id)

pub put_ne : (id : String) (e : Option Entry) (v : View) (j : String) → id ≢ j → put id e v j ≡ v j
put_ne id e v j n = ground (arith, eq_iff id j)

-- The view `v'` is `v` with `id` put to `o`.
pub record Puts (id : String) (o : Option Entry) (v v' : View) : Type 0 where
  pub puts : (j : String) → v' j ≡ put id o v j

module _ {id : String} {o : Option Entry} {v v' : View} (p : Puts id o v v') where
  pub Puts-self : v' id ≡ o
  Puts-self = p.puts id ∙ put_self id o v

  pub Puts-SameBut : SameBut id v v'
  Puts-SameBut = record { others = λ j n. p.puts j ∙ put_ne id o v j n }

  -- The tags stay well formed if those of the new lv are.
  pub Puts-IsTagged :
      IsTagged v → ((e : Entry) → o ≡ some e → AtMostOne state_tag_prefix e.lv.tags) → IsTagged v'
  Puts-IsTagged t one = record { one_state = at }
    where
      at : (j : String) (e : Entry) → v' j ≡ some e → AtMostOne state_tag_prefix e.lv.tags
      at j e h = elim (Bool-cases (str_eq id j)) [
        | inl same ↦ one e (ground (arith, p.puts j))
        | inr other ↦ t.one_state j e (ground (arith, p.puts j))
      ]

-- The same volumes in the same states.
pub record SameStates (v v' : View) : Type 0 where
  pub states : (j : String) → state_in v' j ≡ state_in v j

-- An lv that keeps its tags keeps its state.
pub Puts-SameStates :
    {id : String} {e e' : Entry} {v v' : View}
    → Puts id (some e') v v'
    → v id ≡ some e
    → state_of e'.lv.tags ≡ state_of e.lv.tags
    → SameStates v v'
Puts-SameStates {id} {e} {e'} {v} {v'} p found same = record { states = at }
  where
    at : (j : String) → state_in v' j ≡ state_in v j
    at j = elim (Bool-cases (str_eq id j)) [
      | inl eq ↦ ground (arith, p.puts j, eq_iff id j, same)
      | inr ne ↦ ap entry_state (ground (arith, p.puts j))
    ]

pub Same-SameStates : {v v' : View} → Same v v' → SameStates v v'
Same-SameStates s = record { states = λ j. ap entry_state (s.same j) }

pub SameStates-trans : {u v w : View} → SameStates u v → SameStates v w → SameStates u w
SameStates-trans a b = record { states = λ j. b.states j ∙ a.states j }

state_text-injective : (a b : State) → state_text a ≡ state_text b → a ≡ b
state_text-injective a b h =
    sym (known_state-state_text a) ∙ ap known_state h ∙ known_state-state_text b

-- A change that adds one state tag and removes one.
pub record Swaps (q : ChangeLogicalVolumeOptions) (from to : State) : Type 0 where
  pub adds : values_of state_tag_prefix q.add_tags ≡ state_text to ∷ []
  pub removes : values_of state_tag_prefix q.remove_tags ≡ state_text from ∷ []

-- What such a change leaves of the node: the volume is in the new state, the rest as it was.
pub record Retagged (id : String) (to : State) (v v' : View) : Type 0 where
  pub state : state_in v' id ≡ some to
  pub but : SameBut id v v'
  pub tagged : IsTagged v'

pub Same-Retagged :
    {u v w : View} {id : String} {to : State} → Same u v → Retagged id to v w → Retagged id to u w
Same-Retagged {id = id} a r = record {
  state = r.state;
  but = record { others = λ j n. r.but.others j n ∙ a.same j };
  tagged = r.tagged;
}

pub Retagged-Same :
    {u v w : View} {id : String} {to : State} → Retagged id to u v → Same v w → Retagged id to u w
Retagged-Same {id = id} r a = record {
  state = ap entry_state (a.same id) ∙ r.state;
  but = record { others = λ j n. a.same j ∙ r.but.others j n };
  tagged = IsTagged-Same a r.tagged;
}

-- A later command that keeps the tags of the volume.
pub Retagged-Puts :
    {u v w : View} {id : String} {to : State} {e e' : Entry}
    → Retagged id to u v
    → v id ≡ some e
    → Puts id (some e') v w
    → e'.lv.tags ≡ e.lv.tags
    → Retagged id to u w
Retagged-Puts {id = id} {e = e} {e' = e'} r found p same = record {
  state = (Puts-SameStates p found (ap state_of same)).states id ∙ r.state;
  but = record { others = λ j n. (Puts-SameBut p).others j n ∙ r.but.others j n };
  tagged = Puts-IsTagged p r.tagged (λ x k.
      subst (λ (y : Entry). AtMostOne state_tag_prefix y.lv.tags) (some_injective k)
        (subst (AtMostOne state_tag_prefix) (sym same) (r.tagged.one_state id e found)));
}

module _ {W : Type 0} (lvm : Lvm W) (cfg : Config) (laws : NodeLaws lvm cfg) where
  pub change_Retagged :
      (id : String) (q : ChangeLogicalVolumeOptions) (from to : State) (w : W)
      → Swaps q from to
      → from ≢ unknown
      → to ≢ from
      → IsTagged (laws.view w)
      → state_in (laws.view w) id ≡ some from
      → (lvm.change (lv_name cfg id) q w).0 ≡ ok tt
      → Retagged id to (laws.view w) (laws.view (lvm.change (lv_name cfg id) q w).1)
  change_Retagged id q from to w s readable moved t h done =
      let (e, found, puts) = laws.change_done id q w done in
      let p : Puts id _ (laws.view w) (laws.view (lvm.change (lv_name cfg id) q w).1) = record {
        puts = puts;
      } in
      let one : AtMostOne state_tag_prefix e.lv.tags = t.one_state id e found in
      let had : has_value state_tag_prefix (state_text from) e.lv.tags ≡ true =
        state_of-has e.lv.tags from (sym (ap entry_state found) ∙ h) readable in
      let only : (u : String)
          → has_value state_tag_prefix u (laws.retag e.lv.tags q.add_tags q.remove_tags) ≡ true
          → u ≡ state_text to =
        swaps-only laws.retag laws.retag_kept laws.retag_dropped state_tag_prefix e.lv.tags
          q.add_tags q.remove_tags s.adds s.removes one had in
      let one' : AtMostOne state_tag_prefix (laws.retag e.lv.tags q.add_tags q.remove_tags) =
        λ x y hx hy. only x hx ∙ sym (only y hy) in
      record {
        state =
            ap entry_state (Puts-self p)
            ∙ state_of_only _ to one' (
                swaps-has laws.retag laws.retag_kept laws.retag_dropped state_tag_prefix e.lv.tags
                  q.add_tags q.remove_tags s.adds s.removes
                  (λ k. moved (state_text-injective to from k)));
        but = Puts-SameBut p;
        tagged = Puts-IsTagged p t (λ x k.
            subst (λ (y : Entry). AtMostOne state_tag_prefix y.lv.tags) (some_injective k) one');
      }
