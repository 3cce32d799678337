-- ===== src/Examples/Family/Lawful.antt =====
-- The node of Family satisfies what the program relies on of lvm2.
use beanstore.Base.{
  ◌≡◌, refl, sym, ap, ◌∙◌, String, Option, none, some, List, cat, cut_prefix, str_eq, eq_iff,
  some_injective, Bool-cases, Option-cases, inl, inr, if◌then◌else◌,
}
use beanstore.Base.Exec.{ok, err}
use beanstore.Lvm.Types.{LogicalVolume, name, CreateThinSnapshotOptions, ChangeLogicalVolumeOptions}
use beanstore.Lvm.Errors.{LvmError}
use beanstore.Lvm.Laws.{Entry, View, rows, put, LvmLaws}
use beanstore.Examples.Toy.{retagged}
use beanstore.Examples.Lawful.{toy_laws, err_not_ok}
use beanstore.Examples.Family.{
  named, as_named, family_view, step, on_name, on_selected, copy_of, snap, move, rows_named, family,
}

pub view_put :
    (id : String) (e : Entry) (w : View) (j : String)
    → family_view (put id (some e) w) j ≡ put id (some (named id e)) (family_view w) j
view_put id e w j = elim (Bool-cases (str_eq id j)) [
  | inl same ↦ rw same (ap (λ i. some (named i e)) (sym ((eq_iff id j).0 same)))
  | inr other ↦ rw other refl
]

view_drop :
    (id : String) (w : View) (j : String)
    → family_view (put id none w) j ≡ put id none (family_view w) j
view_drop id w j = elim (Bool-cases (str_eq id j)) [
  | inl same ↦ rw same refl
  | inr other ↦ rw other refl
]

step_fails :
    (o : Option Entry) (id : String) (f : Entry → Option Entry) (w : View) (x : LvmError)
    → (step o id f w).0 ≡ err x
    → (step o id f w).1 ≡ w
unfolding step
step_fails none id f w x h = refl
step_fails (some e) id f w x h = absurd (cc h)

step_done :
    (o : Option Entry) (id : String) (f : Entry → Option Entry) (w : View)
    → (step o id f w).0 ≡ ok tt
    → (e : Entry) × (o ≡ some e) × ((step o id f w).1 ≡ put id (f e) w)
unfolding step
step_done none id f w h = absurd (cc h)
step_done (some e) id f w h = (e, refl, refl)

on_volume :
    (id : String) (f : Entry → Option Entry) (w : View)
    → on_selected (name (cat "vg" (cat "/" id))) f w ≡ step (w id) id f w
unfolding on_selected on_name cut_prefix cat
on_volume id f w = refl

pub on_fails :
    (id : String) (f : Entry → Option Entry) (w : View) (x : LvmError)
    → (on_selected (name (cat "vg" (cat "/" id))) f w).0 ≡ err x
    → (j : String)
    → family_view (on_selected (name (cat "vg" (cat "/" id))) f w).1 j ≡ family_view w j
on_fails id f w x h j =
    let e = on_volume id f w in
    ap (λ v. family_view v j)
      (ap (λ r. r.1) e ∙ step_fails (w id) id f w x (ap (λ r. r.0) (sym e) ∙ h))

on_done :
    (id : String) (f : Entry → Option Entry) (w : View)
    → (on_selected (name (cat "vg" (cat "/" id))) f w).0 ≡ ok tt
    → (e : Entry) × (w id ≡ some e)
      × ((on_selected (name (cat "vg" (cat "/" id))) f w).1 ≡ put id (f e) w)
on_done id f w h =
    let e = on_volume id f w in
    let (entry, at, puts) = step_done (w id) id f w (ap (λ r. r.0) (sym e) ∙ h) in
    (entry, at, ap (λ r. r.1) e ∙ puts)

pub remove_done :
    (id : String) (w : View)
    → (on_selected (name (cat "vg" (cat "/" id))) (λ e. none) w).0 ≡ ok tt
    → (j : String)
    → family_view (on_selected (name (cat "vg" (cat "/" id))) (λ e. none) w).1 j
      ≡ put id none (family_view w) j
remove_done id w h j =
    let (_, _, puts) = on_done id (λ e. none) w h in
    ap (λ v. family_view v j) puts ∙ view_drop id w j

pub change_done :
    (id : String) (q : ChangeLogicalVolumeOptions) (w : View)
    → (on_selected (name (cat "vg" (cat "/" id))) (λ e. some (retagged q e)) w).0 ≡ ok tt
    → (e : Entry) × (family_view w id ≡ some e)
      × ((j : String)
          → family_view
              (on_selected (name (cat "vg" (cat "/" id))) (λ e. some (retagged q e)) w).1
              j
            ≡ put id (some (retagged q e)) (family_view w) j)
change_done id q w h =
    let (e, at, puts) = on_done id (λ e. some (retagged q e)) w h in
    (
      named id e,
      ap (as_named id) at,
      λ j. ap (λ v. family_view v j) puts ∙ view_put id (retagged q e) w j,
    )

pub snap_fails :
    (a b : Option Entry) (origin id : String) (q : CreateThinSnapshotOptions) (w : View)
    (x : LvmError)
    → (snap a b origin id q w).0 ≡ err x
    → (snap a b origin id q w).1 ≡ w
unfolding snap
snap_fails none b origin id q w x h = refl
snap_fails (some e) none origin id q w x h = absurd (cc h)
snap_fails (some e) (some f) origin id q w x h = refl

pub snap_done :
    (a b : Option Entry) (origin id : String) (q : CreateThinSnapshotOptions) (w : View)
    → (snap a b origin id q w).0 ≡ ok tt
    → (e : Entry) × (a ≡ some e)
      × (b ≡ none)
      × ((snap a b origin id q w).1 ≡ put id (some (copy_of origin id q e)) w)
unfolding snap
snap_done none b origin id q w h = absurd (cc h)
snap_done (some e) none origin id q w h = (e, refl, refl, refl)
snap_done (some e) (some f) origin id q w h = absurd (cc h)

pub move_fails :
    (a b : Option Entry) (old new : String) (w : View) (x : LvmError)
    → (move a b old new w).0 ≡ err x
    → (move a b old new w).1 ≡ w
unfolding move
move_fails none b old new w x h = refl
move_fails (some e) none old new w x h = absurd (cc h)
move_fails (some e) (some f) old new w x h = refl

pub move_done :
    (a b : Option Entry) (old new : String) (w : View)
    → (move a b old new w).0 ≡ ok tt
    → (e : Entry) × (a ≡ some e)
      × (b ≡ none)
      × ((move a b old new w).1 ≡ put new (some e) (put old none w))
unfolding move
move_done none b old new w h = absurd (cc h)
move_done (some e) none old new w h = (e, refl, refl, refl)
move_done (some e) (some f) old new w h = absurd (cc h)

pub moved_view :
    (old new : String) (e : Entry) (w : View) (j : String)
    → family_view (put new (some e) (put old none w)) j
      ≡ put new (some (named new e)) (put old none (family_view w)) j
moved_view old new e w j =
    view_put new e (put old none w) j
    ∙ ap (λ o. if str_eq new j then some (named new e) else o) (view_drop old w j)

pub list_named :
    (id : String) (w : View) (lvs : List LogicalVolume)
    → rows_named (cut_prefix (cat "lv_name = " id) "lv_name = ") w ≡ ok lvs
    → lvs ≡ rows (family_view w id)
unfolding rows_named cut_prefix cat
list_named id w lvs h = cc h

-- A report on a pool is refused.
pub list_pool :
    {P : Type 0} (w : View) (lvs : List LogicalVolume)
    → rows_named (cut_prefix (cat "pool_lv = " "pool") "lv_name = ") w ≡ ok lvs
    → P
unfolding rows_named cut_prefix cat
list_pool w lvs h = err_not_ok h

pub family_name : (w : View) (id : String) (e : Entry) → family_view w id ≡ some e → e.lv.name ≡ id
family_name w id e h = elim (Option-cases (w id)) [
  | inl gone ↦ absurd (cc (h, ap (as_named id) gone))
  | inr (x, at) ↦ ap (λ (o : Entry). o.lv.name) (some_injective (sym h ∙ ap (as_named id) at))
]

abbrev pub family_laws : LvmLaws family "vg" "pool"
family_laws = record {
  view = family_view;
  retag = toy_laws.retag;
  device = toy_laws.device;
  view_name = family_name;
  retag_kept = toy_laws.retag_kept;
  retag_dropped = toy_laws.retag_dropped;
  list_keeps = λ q w j. refl;
  list_named = list_named;
  list_pool_sound = λ w lvs h. list_pool w lvs h;
  list_pool_complete = λ w lvs id e h _ _. list_pool w lvs h;
  list_pool_distinct = λ w lvs h. list_pool w lvs h;
  change_fails = λ id q. on_fails id (λ e. some (retagged q e));
  activate_fails = λ id q w x h j. refl;
  deactivate_fails = λ id q w x h j. refl;
  remove_fails = λ id q. on_fails id (λ e. none);
  create_fails = λ id size q w x h j. refl;
  snapshot_fails = λ origin id q w x h j.
      ap (λ v. family_view v j) (snap_fails (w origin) (w id) origin id q w x h);
  rename_fails =
      λ old new q w x h j. ap (λ v. family_view v j) (move_fails (w old) (w new) old new w x h);
  resize_fails = λ id n q w x h j. refl;
  change_done = change_done;
  activate_done = λ id q w h. err_not_ok h;
  deactivate_done = λ id q w h. err_not_ok h;
  remove_done = λ id q. remove_done id;
  create_done = λ id size q w h. err_not_ok h;
  snapshot_done = λ origin id q w h.
      let (e, at, free, puts) = snap_done (w origin) (w id) origin id q w h in
      (
        named origin e,
        copy_of origin id q e,
        ap (as_named origin) at,
        ap (as_named id) free,
        refl,
        refl,
        refl,
        refl,
        refl,
        λ _. refl,
        λ j. ap (λ v. family_view v j) puts ∙ view_put id (copy_of origin id q e) w j,
      );
  rename_done = λ old new q w h.
      let (e, at, free, puts) = move_done (w old) (w new) old new w h in
      (
        named old e,
        ap (as_named old) at,
        ap (as_named new) free,
        λ j. ap (λ v. family_view v j) puts ∙ moved_view old new e w j,
      );
  resize_done = λ id n q w h. err_not_ok h;
}
