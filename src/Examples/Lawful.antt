-- ===== src/Examples/Lawful.antt =====
-- The node of Toy satisfies what the program relies on of lvm2.
use mathlib.Core.Path.{subst}
use beanstore.Base.{
  ◌≤◌, ◌≡◌, refl, sym, ap, ◌∙◌, String, true, false, ◌||◌, none, some, List, cat, cut_prefix,
  contains, str_eq, eq_iff, Bool-cases, inl, inr, ℕ, ◌&&◌, if◌then◌else◌, arith,
}
use beanstore.Base.Exec.{Result, ok, err}
use beanstore.Lvm.Types.{LogicalVolume, name, bytes, ActivateLogicalVolumeOptions}
use beanstore.Lvm.Errors.{LvmError}
use beanstore.Lvm.Laws.{Entry, rows, LvmLaws, All, put, lists_name, Distinct}
use beanstore.Examples.Toy.{
  resize_to, World, toy, toy_retag, toy_device, keep_tags, on, found, of_pool, select_rows,
  retagged, switched_on, switched_off, resized,
}
use beanstore.Examples.Commands.{
  toy_view, contains-append, contains-kept, contains-dropped, found-name, found_self, at_fails,
  keeps_done, on_at_fails, on_keeps_done, on_at, resize_at, remove_at_done, switched_on-name,
  create_in_fails, create_in_done, rename_to_fails, rename_to_done,
}

toy_list : String → World → Result LvmError (List LogicalVolume)
toy_list q w = select_rows (cut_prefix q "lv_name = ") (cut_prefix q "pool_lv = ") w

pub list_by_name :
    (id : String) (w : World) (lvs : List LogicalVolume)
    → select_rows
        (cut_prefix (cat "lv_name = " id) "lv_name = ")
        (cut_prefix (cat "lv_name = " id) "pool_lv = ")
        w
      ≡ ok lvs
    → lvs ≡ rows (found id w)
unfolding select_rows cut_prefix cat
list_by_name id w lvs h = cc h

abbrev Pooled : World → List LogicalVolume → Type 0
Pooled w lvs =
    (All (λ (lv : LogicalVolume). (e : Entry) × (found lv.name w ≡ some e) × (e.lv ≡ lv)) lvs)
    × ((id : String) (e : Entry)
        → found id w ≡ some e
        → e.lv.pool ≡ "pool"
        → lists_name id lvs ≡ true)
    × Distinct lvs

ok_injective : {E A : Type 0} {a b : A} → ◌≡◌ {A = Result E A} (ok a) (ok b) → a ≡ b
ok_injective h = cc h

pool_rows-Pooled : (w : World) → Pooled w (rows (of_pool "pool" w))
unfolding of_pool found
pool_rows-Pooled none = (tt, λ id e h _. absurd cc, tt)
pool_rows-Pooled (some x) = elim (Bool-cases (str_eq "pool" x.lv.pool)) [
  | inl p ↦ rw p (
    ((x, unfold found in found_self x x.lv.name refl, refl), tt),
    λ id e h _. ground arith,
    (refl, tt),
  )
  | inr n ↦ rw n (tt, λ id e h k. absurd (ground (arith, eq_iff "pool" x.lv.pool)), tt)
]

pub list_by_pool :
    (w : World) (lvs : List LogicalVolume)
    → select_rows
        (cut_prefix (cat "pool_lv = " "pool") "lv_name = ")
        (cut_prefix (cat "pool_lv = " "pool") "pool_lv = ")
        w
      ≡ ok lvs
    → Pooled w lvs
unfolding select_rows cat cut_prefix
list_by_pool w lvs h = subst (Pooled w) (ok_injective h) (pool_rows-Pooled w)

pub remove_done :
    (id : String) (w : World)
    → (on (name (cat "vg" (cat "/" id))) (λ e. none) w).0 ≡ ok tt
    → (j : String)
    → found j (on (name (cat "vg" (cat "/" id))) (λ e. none) w).1 ≡ put id none (toy_view w) j
remove_done id w =
    subst (λ m. (m w).0 ≡ ok tt → (j : String) → found j (m w).1 ≡ put id none (toy_view w) j)
      (sym (on_at id (λ e. none))) (remove_at_done id w)

pub resize_fails :
    (id : String) (n : ℕ) (w : World) (x : LvmError)
    → (resize_to (cat "vg" (cat "/" id)) (bytes n) w).0 ≡ err x
    → (j : String) → found j (resize_to (cat "vg" (cat "/" id)) (bytes n) w).1 ≡ found j w
resize_fails id n w x h j =
    subst (λ m. (m w).0 ≡ err x → found j (m w).1 ≡ found j w) (sym (resize_at id n))
      (at_fails id (λ e. some (resized n e)) w x j) h

pub resize_done :
    (id : String) (n : ℕ) (w : World)
    → (resize_to (cat "vg" (cat "/" id)) (bytes n) w).0 ≡ ok tt
    → (e : Entry) × (found id w ≡ some e)
      × (e.lv.name ≡ id)
      × ((j : String)
          → found j (resize_to (cat "vg" (cat "/" id)) (bytes n) w).1
            ≡ put id (some (resized n e)) (toy_view w) j)
resize_done id n w =
    subst
      (λ m.
        (m w).0 ≡ ok tt
        → (e : Entry) × (found id w ≡ some e)
          × (e.lv.name ≡ id)
          × ((j : String) → found j (m w).1 ≡ put id (some (resized n e)) (toy_view w) j))
      (sym (resize_at id n)) (keeps_done id (resized n) w (λ e. refl))

pub activated_at :
    (id : String) (q : ActivateLogicalVolumeOptions) (e : Entry)
    → e.lv.name ≡ id
    → switched_on q e ≡ (
        if e.skip && (if q.ignore_activation_skip then false else true)
        then e
        else record e { lv = record (e.lv) { active = true; path = toy_device id } })
activated_at id q e h = rw (sym h) refl

pub le_self : (n : ℕ) → n ≤ n
le_self n = omega arith

pub err_not_ok :
    {A : Type 0} {x : LvmError} {a : A} {P : Type 0}
    → ◌≡◌ {A = Result LvmError A} (err x) (ok a)
    → P
err_not_ok h = absurd (cc h)

abbrev pub toy_laws : LvmLaws toy "vg" "pool"
toy_laws = record {
  view = toy_view;
  retag = toy_retag;
  device = toy_device;
  view_name = found-name;
  retag_kept = λ t tags added removed h.
      contains-append t added (keep_tags tags removed)
      ∙ ap (λ b. contains t added || b) (contains-kept t tags removed h);
  retag_dropped = λ t tags added removed h n.
      contains-append t added (keep_tags tags removed)
      ∙ ap (λ b. b || contains t (keep_tags tags removed)) n
      ∙ contains-dropped t tags removed h;
  list_keeps = λ q w j. refl;
  list_named = list_by_name;
  list_pool_sound = λ w lvs h. (list_by_pool w lvs h).0;
  list_pool_complete = λ w lvs id e h. (list_by_pool w lvs h).1 id e;
  list_pool_distinct = λ w lvs h. (list_by_pool w lvs h).2;
  change_fails = λ id q. on_at_fails id (λ e. some (retagged q e));
  activate_fails = λ id q. on_at_fails id (λ e. some (switched_on q e));
  deactivate_fails = λ id q. on_at_fails id (λ e. some (switched_off e));
  remove_fails = λ id q. on_at_fails id (λ e. none);
  create_fails = λ id size q w x h j. create_in_fails id q size w x h j;
  snapshot_fails = λ origin id q w x h j. refl;
  rename_fails = λ old new q. rename_to_fails old new;
  resize_fails = λ id n q. resize_fails id n;
  change_done = λ id q w h.
      let (e, f, _, puts) = on_keeps_done id (retagged q) w (λ e. refl) h in (e, f, puts);
  activate_done = λ id q w h.
      let (e, f, named, puts) = on_keeps_done id (switched_on q) w (switched_on-name q) h in
      (e, f, λ j. puts j ∙ ap (λ x. put id (some x) (toy_view w) j) (activated_at id q e named));
  deactivate_done = λ id q w h.
      let (e, f, _, puts) = on_keeps_done id switched_off w (λ e. refl) h in (e, f, puts);
  remove_done = λ id q. remove_done id;
  create_done = λ id size q. create_in_done id size q;
  snapshot_done = λ origin id q w h. err_not_ok h;
  rename_done = λ old new q. rename_to_done old new;
  resize_done =
      λ id n q w h. let (e, f, _, puts) = resize_done id n w h in (e, n, f, le_self n, puts);
}
