-- ===== src/Storage/Rollback/Beginning.antt =====
-- BeginRollback of internal/storage/rollback.go, and the lookup of a name.
use mathlib.Core.Path.{subst}
use beanstore.Base.{
  ◌≡◌, ◌≢◌, refl, ap, sym, ◌∙◌, String, Bool, true, false, Option, none, some, [], ◌∷◌, arith, cat,
  cut_prefix, contains, eq_iff, str_eq, some_injective,
}
use beanstore.Base.Exec.{Result, ok, err, ◌>>◌, bind_rule}
use beanstore.Config.{Config}
use beanstore.Lvm.Interface.{Lvm}
use beanstore.Lvm.Laws.{Entry, View, rows}
use beanstore.Storage.State.{
  ready, snapshot, rollback, state_text, state_tag, state_tag_prefix, state_of, first_value,
  known_state, rollback_target_tag,
}
use beanstore.Storage.Errors.{Error, wrap}
use beanstore.Storage.Volume.{volume_exists, by_name}
use beanstore.Storage.Verbs.{is_state}
use beanstore.Storage.Rollback.{rollback_temp_name, temp_options, check_lineage, begin_rollback}
use beanstore.Storage.Tags.{AtMostOne}
use beanstore.Storage.Tags.Values.{values_of, has_value-values_of}
use beanstore.Storage.Node.{
  NodeLaws, state_in, entry_state, Same, Same-trans, IsTagged, IsTagged-Same,
}
use beanstore.Storage.Node.Reads.{wrap-ok}
use beanstore.Storage.Node.Changes.{Puts, Puts-self, Puts-SameBut, Puts-IsTagged}
use beanstore.Storage.Node.Guard.{guard_rule}
use beanstore.Storage.Node.Ends.{wrap_last_rule}

abbrev pub is_there : Option Entry → Bool
is_there none = false
is_there (some e) = true

-- The lv of which the lv of a name is a snapshot.
abbrev pub entry_origin : Option Entry → Option String
entry_origin none = none
entry_origin (some e) = some e.lv.origin

abbrev pub origin_in : View → String → Option String
origin_in v id = entry_origin (v id)

copy_values :
    (id : String) → values_of state_tag_prefix ((temp_options id).add_tags) ≡ "rollback" ∷ []
unfolding values_of state_tag rollback_target_tag cut_prefix cat state_text
copy_values id = refl

only_rollback : (u : String) → contains u ("rollback" ∷ []) ≡ true → u ≡ "rollback"
unfolding contains
only_rollback u h = ground (arith, eq_iff u "rollback")

copy-AtMostOne : (id : String) → AtMostOne state_tag_prefix ((temp_options id).add_tags)
copy-AtMostOne id u v hu hv =
    let one : (x : String)
        → contains (cat state_tag_prefix x) ((temp_options id).add_tags) ≡ true
        → x ≡ "rollback" =
      λ x h. only_rollback x (
        ap (contains x) (sym (copy_values id))
        ∙ sym (has_value-values_of state_tag_prefix x ((temp_options id).add_tags))
        ∙ h) in
    one u hu ∙ sym (one v hv)

copy_state : (id : String) → state_of ((temp_options id).add_tags) ≡ some rollback
unfolding state_of first_value state_tag rollback_target_tag cut_prefix cat state_text known_state
copy_state id = refl

module _ {W : Type 0} (lvm : Lvm W) (cfg : Config) (laws : NodeLaws lvm cfg) where
  -- What a lookup by VolumeExists says: it changes nothing, and it is right.
  abbrev pub Exists : String → W → Result Error Bool × W → Type 0
  Exists id w (ok b, w') = Same (laws.view w) (laws.view w') × (b ≡ is_there (laws.view w id))
  Exists id w (err x, w') = Same (laws.view w) (laws.view w')

  rows_there : (o : Option Entry) → (elim (rows o) [ [] ↦ false | _ ∷ _ ↦ true ]) ≡ is_there o
  rows_there none = refl
  rows_there (some e) = refl

  pub volume_exists-Exists : (id : String) (w : W) → Exists id w (volume_exists lvm cfg id w)
  unfolding volume_exists
  volume_exists-Exists id w =
      bind_rule (Exists id w) (wrap (lvm.list (by_name cfg id))) _ w
        (λ lvs e. (
          unfold wrap in unchanged,
          rw (laws.list_named id w lvs (wrap-ok (lvm.list (by_name cfg id)) w lvs e))
              (rows_there (laws.view w id)),
        ))
        (λ x e. unfold wrap in unchanged)
    where
      unchanged : Same (laws.view w) (laws.view (lvm.list (by_name cfg id) w).1)
      unchanged = record { same = laws.list_keeps (by_name cfg id) w }

  -- A copy of `source` stands under a name that was free, and no other lv changed.
  pub record Copies (temp source : String) (v v' : View) : Type 0 where
    pub free : v temp ≡ none
    pub copy : state_in v' temp ≡ some rollback
    pub from : origin_in v' temp ≡ some source
    pub others : (j : String) → temp ≢ j → v' j ≡ v j
    pub tagged : IsTagged v'

  abbrev pub Begun : String → String → W → Result Error Unit × W → Type 0
  Begun temp source w (ok u, w') = Copies temp source (laws.view w) (laws.view w')
  Begun temp source w (err x, w') = Same (laws.view w) (laws.view w')

  copy_Begun :
      (id snapshot_id : String) (w0 w : W)
      → Same (laws.view w0) (laws.view w)
      → IsTagged (laws.view w)
      → Begun (rollback_temp_name id) snapshot_id w0 (
          wrap
            (lvm.create_snapshot cfg.volume_group snapshot_id
              (rollback_temp_name id)
              (temp_options id))
            w)
  copy_Begun id snapshot_id w0 w s t =
      let temp = rollback_temp_name id in
      wrap_last_rule (Begun temp snapshot_id w0)
        (lvm.create_snapshot cfg.volume_group snapshot_id temp (temp_options id)) w
        (λ a h.
          let (_, e, at, free, tags, _, origin, _, _, _, puts) =
            laws.snapshot_done snapshot_id temp (temp_options id) w h in
          let p : Puts temp (some e) (laws.view w) (
              laws.view
                (lvm.create_snapshot cfg.volume_group snapshot_id temp (temp_options id) w).1) =
            record { puts = puts } in
          record {
            free = sym (s.same temp) ∙ free;
            copy = ap entry_state (Puts-self p) ∙ ap state_of tags ∙ copy_state id;
            from = ap entry_origin (Puts-self p) ∙ ap some origin;
            others = λ j n. (Puts-SameBut p).others j n ∙ s.same j;
            tagged = Puts-IsTagged p t (λ x k.
                subst (λ (y : Entry). AtMostOne state_tag_prefix y.lv.tags) (some_injective k)
                  (subst (AtMostOne state_tag_prefix) (sym tags) (copy-AtMostOne id)));
          })
        (λ x h.
          Same-trans s
            (record { same = laws.snapshot_fails snapshot_id temp (temp_options id) w x h }))

  lineage_Begun :
      (b : Bool) (id snapshot_id origin : String) (w0 w : W)
      → Same (laws.view w0) (laws.view w)
      → IsTagged (laws.view w)
      → Begun (rollback_temp_name id) snapshot_id w0 (
          (check_lineage b snapshot_id origin
              >> wrap (
                  lvm.create_snapshot cfg.volume_group snapshot_id
                    (rollback_temp_name id)
                    (temp_options id)))
            w)
  unfolding check_lineage
  lineage_Begun true id snapshot_id origin w0 w s t = copy_Begun id snapshot_id w0 w s t
  lineage_Begun false id snapshot_id origin w0 w s t = s

  -- A rollback begins with a copy under a free name, or it changes nothing.
  pub begin_rollback-Begun :
      (id snapshot_id : String) (w : W)
      → IsTagged (laws.view w)
      → Begun (rollback_temp_name id) snapshot_id w (begin_rollback lvm cfg id snapshot_id w)
  unfolding begin_rollback
  begin_rollback-Begun id snapshot_id w t =
      let temp = rollback_temp_name id in
      guard_rule lvm cfg laws (Begun temp snapshot_id w) id (λ s. is_state s ready) _ w
        (λ v e w1 s1 at eq state good.
          guard_rule lvm cfg laws (Begun temp snapshot_id w) snapshot_id (λ s. is_state s snapshot)
            _ w1
            (λ v2 e2 w2 s2 at2 eq2 state2 good2.
              lineage_Begun (str_eq v2.origin id) id snapshot_id v2.origin w w2 (Same-trans s1 s2)
                (IsTagged-Same (Same-trans s1 s2) t))
            (λ x w2 s2 r. Same-trans s1 s2))
        (λ x w1 s1 r. s1)
