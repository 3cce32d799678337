-- ===== src/Storage/Node/Reads.antt =====
-- GetVolume of internal/storage/volumes.go under the laws of lvm2.
use beanstore.Base.{
  false, true, sym, ◌≡◌, refl, ap, ◌∙◌, ◌⊎◌, inl, inr, String, Option, none, some, arith,
  Option-cases,
}
use mathlib.Core.Path.{subst}
use beanstore.Lvm.Types.{LogicalVolume}
use beanstore.Base.Exec.{Result, ok, err, Exec, Result-cases, bind_rule}
use beanstore.Config.{Config}
use beanstore.Lvm.Interface.{Lvm}
use beanstore.Lvm.Errors.{LvmError}
use beanstore.Lvm.Laws.{Entry, rows}
use beanstore.Storage.State.{State, state_of}
use beanstore.Storage.Errors.{Error, lvm_failed, not_found, wrap}
use beanstore.Storage.Volume.{Volume, volume_from_lv, head_volume, get_volume, by_name, is_owned}
use beanstore.Storage.Node.{NodeLaws, state_in, entry_state, Same}

pub wrap-ok :
    {W A : Type 0} (m : Exec W LvmError A) (w : W) (a : A) → (wrap m w).0 ≡ ok a → (m w).0 ≡ ok a
unfolding wrap
wrap-ok m w a h = ground arith

pub wrap-err :
    {W A : Type 0} (m : Exec W LvmError A) (w : W) (e : Error)
    → (wrap m w).0 ≡ err e
    → (x : LvmError) × (e ≡ lvm_failed x) × ((m w).0 ≡ err x)
unfolding wrap
wrap-err m w e h = elim (Result-cases (m w).0) [
  | inl (a, k) ↦ absurd (ground arith)
  | inr (x, k) ↦ (x, ground arith, k)
]

pub is_owned-none : (lv : LogicalVolume) → state_of lv.tags ≡ none → is_owned lv ≡ false
unfolding is_owned
is_owned-none lv h = rw (h, is_owned)

is_owned-some : (lv : LogicalVolume) (s : State) → state_of lv.tags ≡ some s → is_owned lv ≡ true
unfolding is_owned
is_owned-some lv s h = rw (h, is_owned)

pub volume_from_lv-state :
    {W : Type 0} (lvm : Lvm W) (lv : LogicalVolume) (s : State)
    → state_of lv.tags ≡ some s
    → (volume_from_lv lvm lv).state ≡ s
unfolding volume_from_lv
volume_from_lv-state lvm lv s h = rw h

module _ {W : Type 0} (lvm : Lvm W) (cfg : Config) (laws : NodeLaws lvm cfg) where
  -- What a lookup says of the node at which it was made.
  abbrev pub Looked : String → W → Result Error Volume × W → Type 0
  Looked id w (ok v, w') =
      Same (laws.view w) (laws.view w')
      × (e : Entry) × (laws.view w id ≡ some e)
      × (v ≡ volume_from_lv lvm e.lv)
      × (state_of e.lv.tags ≡ some v.state)
  Looked id w (err x, w') =
      Same (laws.view w) (laws.view w')
      × (((x ≡ not_found id) × (state_in (laws.view w) id ≡ none))
          ⊎ ((l : LvmError) × (x ≡ lvm_failed l)))

  head_Looked :
      (id : String) (w w' : W) (o : Option Entry)
      → laws.view w id ≡ o
      → Same (laws.view w) (laws.view w')
      → Looked id w (head_volume lvm cfg id (rows o), w')
  unfolding head_volume
  head_Looked id w w' none h s = (s, inl (refl, ap entry_state h))
  head_Looked id w w' (some e) h s = elim (Option-cases (state_of e.lv.tags)) [
    | inl foreign ↦ rw (is_owned-none e.lv foreign) (s, inl (refl, ap entry_state h ∙ foreign))
    | inr (state, owned) ↦
        rw (is_owned-some e.lv state owned)
          (s, e, h, refl, owned ∙ ap some (sym (volume_from_lv-state lvm e.lv state owned)))
  ]

  pub get_volume-Looked : (id : String) (w : W) → Looked id w (get_volume lvm cfg id w)
  unfolding get_volume
  get_volume-Looked id w =
      bind_rule (Looked id w) (wrap (lvm.list (by_name cfg id))) _ w
        (λ lvs e.
          rw (laws.list_named id w lvs (wrap-ok (lvm.list (by_name cfg id)) w lvs e))
            (head_Looked id w _ (laws.view w id) refl (unfold wrap in unchanged)))
        (λ x e.
          let (l, k, _) = wrap-err (lvm.list (by_name cfg id)) w x e in
          (unfold wrap in unchanged, inr (l, k)))
    where
      unchanged : Same (laws.view w) (laws.view (lvm.list (by_name cfg id) w).1)
      unchanged = record { same = laws.list_keeps (by_name cfg id) w }

  pub get_volume-ok :
      (id : String) (w : W) (v : Volume)
      → (get_volume lvm cfg id w).0 ≡ ok v
      → Looked id w (ok v, (get_volume lvm cfg id w).1)
  get_volume-ok id w v h =
      subst (λ r. Looked id w (r, (get_volume lvm cfg id w).1)) h (get_volume-Looked id w)

  pub get_volume-err :
      (id : String) (w : W) (x : Error)
      → (get_volume lvm cfg id w).0 ≡ err x
      → Looked id w (err x, (get_volume lvm cfg id w).1)
  get_volume-err id w x h =
      subst (λ r. Looked id w (r, (get_volume lvm cfg id w).1)) h (get_volume-Looked id w)
