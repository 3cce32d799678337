-- ===== src/Api/Rollbacks/Finishing.antt =====
-- finishRollback of internal/api/rollback.go: where a rollback stands once its volume is removed,
-- attempt by attempt.
use mathlib.Core.Path.{subst}
use beanstore.Base.{
  ◌≡◌, ◌≢◌, refl, ap, sym, ◌∙◌, ◌⊎◌, inl, inr, ℕ, zero, suc, String, Bool, true, false, Option,
  none, some, str_eq, eq_iff, Bool-cases, if◌then◌else◌,
}
use beanstore.Base.Exec.{Result, ok, err, ◌>>◌, bind_rule, Result-cases}
use beanstore.Config.{Config}
use beanstore.Lvm.Types.{no_common, ChangeLogicalVolumeOptions}
use beanstore.Lvm.Interface.{Lvm}
use beanstore.Lvm.Laws.{Entry, View, put}
use beanstore.Storage.State.{State, ready, rollback}
use beanstore.Storage.Errors.{Error, wrap}
use beanstore.Storage.Volume.{lv_name, volume_exists}
use beanstore.Storage.Rollback.{finish_rollback, finish_options, rename_if}
use beanstore.Storage.Rollback.Beginning.{
  origin_in, entry_origin, is_there, Exists, volume_exists-Exists,
}
use beanstore.Storage.Node.{NodeLaws, state_in, entry_state, Same, IsTagged, IsTagged-Same}
use beanstore.Storage.Node.Changes.{change_Retagged, put_self}
use beanstore.Storage.Node.Ends.{wrap_rule, wrap_last_rule}
use beanstore.Storage.Recovery.Finishing.{finish_options-Swaps, rename_Renamed}
use beanstore.Api.Rollbacks.{try_finish, finish_attempts}

-- The copy of `source` stands under its own name, and the volume's name is free.
pub record Copied (id temp source : String) (v0 v : View) : Type 0 where
  pub copy : state_in v temp ≡ some rollback
  pub from : origin_in v temp ≡ some source
  pub others : (j : String) → id ≢ j → temp ≢ j → v j ≡ v0 j
  pub tagged : IsTagged v

-- The copy of `source` stands under the volume's name, in the state.
pub record Renamed (id temp source : String) (s : State) (v0 v : View) : Type 0 where
  pub here : state_in v id ≡ some s
  pub from : origin_in v id ≡ some source
  pub gone : v temp ≡ none
  pub others : (j : String) → id ≢ j → temp ≢ j → v j ≡ v0 j
  pub tagged : IsTagged v

Copied-Same :
    {id temp source : String} {v0 v v' : View}
    → Copied id temp source v0 v
    → Same v v'
    → Copied id temp source v0 v'
Copied-Same {temp = temp} c s = record {
  copy = ap entry_state (s.same temp) ∙ c.copy;
  from = ap entry_origin (s.same temp) ∙ c.from;
  others = λ j a b. s.same j ∙ c.others j a b;
  tagged = IsTagged-Same s c.tagged;
}

Renamed-Same :
    {id temp source : String} {t : State} {v0 v v' : View}
    → Renamed id temp source t v0 v
    → Same v v'
    → Renamed id temp source t v0 v'
Renamed-Same {id = id} {temp = temp} c s = record {
  here = ap entry_state (s.same id) ∙ c.here;
  from = ap entry_origin (s.same id) ∙ c.from;
  gone = s.same temp ∙ c.gone;
  others = λ j a b. s.same j ∙ c.others j a b;
  tagged = IsTagged-Same s c.tagged;
}

there_some : (o : Option Entry) (s : State) → entry_state o ≡ some s → is_there o ≡ true
there_some none s h = absurd (cc h)
there_some (some e) s h = refl

-- A change and a rename keep the origin.
module _ {W : Type 0} (lvm : Lvm W) (cfg : Config) (laws : NodeLaws lvm cfg) where
  change-origin :
      (id : String) (q : ChangeLogicalVolumeOptions) (w : W)
      → (lvm.change (lv_name cfg id) q w).0 ≡ ok tt
      → origin_in (laws.view (lvm.change (lv_name cfg id) q w).1) id ≡ origin_in (laws.view w) id
  change-origin id q w h =
      let (e, at, puts) = laws.change_done id q w h in
      ap entry_origin (puts id ∙ put_self id _ (laws.view w)) ∙ sym (ap entry_origin at)

  rename-origin :
      (old new : String) (w : W)
      → (lvm.rename cfg.volume_group old new no_common w).0 ≡ ok tt
      → origin_in (laws.view (lvm.rename cfg.volume_group old new no_common w).1) new
        ≡ origin_in (laws.view w) old
  rename-origin old new w h =
      let (e, at, _, puts) = laws.rename_done old new no_common w h in
      ap entry_origin (puts new ∙ put_self new _ (put old none (laws.view w)))
      ∙ sym (ap entry_origin at)

module _ {W : Type 0} (lvm : Lvm W) (cfg : Config) (laws : NodeLaws lvm cfg)
    (id temp source : String) (v0 : View) (differ : temp ≢ id) where
  -- An attempt finishes the rollback, or the copy is still under one of its two names.
  abbrev pub Finishes : Result Error Unit × W → Type 0
  Finishes (ok u, w) = Renamed id temp source ready v0 (laws.view w)
  Finishes (err x, w) =
      Copied id temp source v0 (laws.view w) ⊎ Renamed id temp source rollback v0 (laws.view w)

  change_Finishes :
      (w : W)
      → Renamed id temp source rollback v0 (laws.view w)
      → Finishes (wrap (lvm.change (lv_name cfg id) (finish_options id)) w)
  change_Finishes w r =
      wrap_last_rule Finishes (lvm.change (lv_name cfg id) (finish_options id)) w
        (λ a h.
          let m =
            change_Retagged lvm cfg laws id (finish_options id) rollback ready w
              (finish_options-Swaps id) (cc) (cc) r.tagged r.here h in
          record {
            here = m.state;
            from = change-origin lvm cfg laws id (finish_options id) w h ∙ r.from;
            gone = m.but.others temp (λ e. differ (sym e)) ∙ r.gone;
            others = λ j a b. m.but.others j a ∙ r.others j a b;
            tagged = m.tagged;
          })
        (λ x h.
          inr (Renamed-Same r (record { same = laws.change_fails id (finish_options id) w x h })))

  rename_Finishes :
      (w : W)
      → Copied id temp source v0 (laws.view w)
      → Finishes (
          (wrap (lvm.rename cfg.volume_group temp id no_common)
              >> wrap (lvm.change (lv_name cfg id) (finish_options id)))
            w)
  rename_Finishes w c =
      wrap_rule Finishes (lvm.rename cfg.volume_group temp id no_common)
        (λ _. wrap (lvm.change (lv_name cfg id) (finish_options id))) w
        (λ a h.
          let r = rename_Renamed lvm cfg laws temp id w c.copy differ c.tagged h in
          change_Finishes _ (record {
            here = r.here;
            from = rename-origin lvm cfg laws temp id w h ∙ c.from;
            gone = r.gone;
            others = λ j a b. r.other j b a ∙ c.others j a b;
            tagged = r.tagged;
          }))
        (λ x h. inl (Copied-Same c (record { same = laws.rename_fails temp id no_common w x h })))

  str_ne : (a b : String) → a ≢ b → str_eq a b ≡ false
  str_ne a b n = elim (Bool-cases (str_eq a b)) [
    | inl same ↦ absurd (n ((eq_iff a b).0 same))
    | inr other ↦ other
  ]

  str_refl : (a : String) → str_eq a a ≡ true
  str_refl a = (eq_iff a a).1 refl

  finish_own :
      (w : W)
      → Renamed id temp source rollback v0 (laws.view w)
      → Finishes (finish_rollback lvm cfg id id w)
  unfolding finish_rollback rename_if
  finish_own w r = rw (str_refl id) (change_Finishes w r)

  finish_copy :
      (w : W)
      → Copied id temp source v0 (laws.view w)
      → Finishes (finish_rollback lvm cfg temp id w)
  unfolding finish_rollback rename_if
  finish_copy w c = rw (str_ne temp id differ) (rename_Finishes w c)

  -- The lookup finds the copy where it is.
  found_finish :
      (b : Bool) (w : W)
      → (Copied id temp source v0 (laws.view w) × (b ≡ true))
        ⊎ (Renamed id temp source rollback v0 (laws.view w) × (b ≡ false))
      → Finishes (finish_rollback lvm cfg (if b then temp else id) id w)
  found_finish b w (inl (c, e)) = rw e (finish_copy w c)
  found_finish b w (inr (r, e)) = rw e (finish_own w r)

  Standing : W → Type 0
  Standing w =
      Copied id temp source v0 (laws.view w) ⊎ Renamed id temp source rollback v0 (laws.view w)

  Standing-Same : (w w' : W) → Standing w → Same (laws.view w) (laws.view w') → Standing w'
  unfolding Standing
  Standing-Same w w' (inl c) s = inl (Copied-Same c s)
  Standing-Same w w' (inr r) s = inr (Renamed-Same r s)

  located :
      (b : Bool) (w w' : W)
      → Standing w
      → Same (laws.view w) (laws.view w')
      → b ≡ is_there (laws.view w temp)
      → (Copied id temp source v0 (laws.view w') × (b ≡ true))
        ⊎ (Renamed id temp source rollback v0 (laws.view w') × (b ≡ false))
  unfolding Standing
  located b w w' (inl c) s e =
      inl (Copied-Same c s, e ∙ there_some (laws.view w temp) rollback c.copy)
  located b w w' (inr r) s e = inr (Renamed-Same r s, e ∙ ap is_there r.gone)

  try_finish-Finishes : (w : W) → Standing w → Finishes (try_finish lvm cfg temp id w)
  unfolding try_finish
  try_finish-Finishes w h = rw (str_ne temp id differ) (
      bind_rule Finishes (volume_exists lvm cfg temp)
        (λ exists. finish_rollback lvm cfg (if exists then temp else id) id) w
        (λ b e.
          let (same, right) =
            subst (λ r. Exists lvm cfg laws temp w (r, (volume_exists lvm cfg temp w).1)) e
              (volume_exists-Exists lvm cfg laws temp w) in
          found_finish b _ (located b w _ h same right))
        (λ x e.
          unfold Standing in
          Standing-Same w _ h (
            subst (λ r. Exists lvm cfg laws temp w (r, (volume_exists lvm cfg temp w).1)) e
              (volume_exists-Exists lvm cfg laws temp w))))

  pub finish_attempts-Finishes :
      (n : ℕ) (w : W)
      → Copied id temp source v0 (laws.view w) ⊎ Renamed id temp source rollback v0 (laws.view w)
      → Finishes (finish_attempts lvm cfg n temp id w)
  unfolding finish_attempts Standing
  finish_attempts-Finishes zero w h = try_finish-Finishes w h
  finish_attempts-Finishes (suc n) w h =
      let tried = try_finish-Finishes w h in
      elim (Result-cases (try_finish lvm cfg temp id w).0) [
        | inl (u, e) ↦
            rw (e, finish_attempts)
              (subst (λ r. Finishes (r, (try_finish lvm cfg temp id w).1)) e tried)
        | inr (x, e) ↦
            rw (e, finish_attempts)
              (finish_attempts-Finishes n (try_finish lvm cfg temp id w).1
                (subst (λ r. Finishes (r, (try_finish lvm cfg temp id w).1)) e tried))
      ]
