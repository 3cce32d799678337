-- ===== src/Examples/Commands.antt =====
-- The commands of the node of Toy, one by one, under the laws of lvm2.
use mathlib.Core.Path.{subst}
use beanstore.Base.{
  ◌≤◌, ℕ, ◌≡◌, refl, sym, ap, ◌∙◌, String, true, false, ◌||◌, none, some, List, [], ◌∷◌, cat,
  cut_prefix, contains, str_eq, eq_iff, arith, Bool-cases, inl, inr,
}
use beanstore.Base.Exec.{ok, err}
use beanstore.Lvm.Types.{name, bytes, ActivateLogicalVolumeOptions, CreateThinVolumeOptions}
use beanstore.Lvm.Errors.{LvmError}
use beanstore.Lvm.Laws.{Entry, View, put}
use beanstore.Examples.Toy.{
  World, keep_tags, append, at, on, on_path, found, resize_to, create_in, rename_to, switched_on,
  resized, renamed, missing, lv_of,
}

abbrev pub toy_view : World → View
toy_view w id = found id w

pub contains-append :
    (t : String) (us vs : List String) → contains t (append us vs) ≡ contains t us || contains t vs
unfolding contains append
contains-append t [] vs = refl
contains-append t (u ∷ us) vs = ground (arith, contains-append t us vs)

pub contains-kept :
    (t : String) (ts removed : List String)
    → contains t removed ≡ false
    → contains t (keep_tags ts removed) ≡ contains t ts
unfolding contains keep_tags
contains-kept t [] removed h = refl
contains-kept t (u ∷ us) removed h = ground (arith, contains-kept t us removed h, eq_iff t u)

pub contains-dropped :
    (t : String) (ts removed : List String)
    → contains t removed ≡ true
    → contains t (keep_tags ts removed) ≡ false
unfolding contains keep_tags
contains-dropped t [] removed h = refl
contains-dropped t (u ∷ us) removed h = ground (arith, contains-dropped t us removed h, eq_iff t u)

pub found-name : (w : World) (id : String) (e : Entry) → found id w ≡ some e → e.lv.name ≡ id
unfolding found
found-name none id e h = cc
found-name (some x) id e h = ground (arith, eq_iff id x.lv.name)

pub at_fails :
    (id : String) (f : Entry → World) (w : World) (x : LvmError) (j : String)
    → (at id f w).0 ≡ err x
    → found j (at id f w).1 ≡ found j w
unfolding at
at_fails id f none x j h = refl
at_fails id f (some e) x j h = ground arith

-- A command that is done on the lv of its name.
pub at_done :
    (id : String) (f : Entry → World) (w : World)
    → (at id f w).0 ≡ ok tt
    → (e : Entry) × (w ≡ some e) × (e.lv.name ≡ id) × ((at id f w).1 ≡ f e)
unfolding at
at_done id f none h = absurd cc
at_done id f (some e) h = (e, refl, ground (arith, eq_iff id e.lv.name), ground arith)

pub found_self : (e : Entry) (id : String) → e.lv.name ≡ id → found id (some e) ≡ some e
unfolding found
found_self e id h = ground (arith, eq_iff id e.lv.name)

pub found-put :
    (e e' : Entry) (id j : String)
    → e.lv.name ≡ id
    → e'.lv.name ≡ id
    → found j (some e') ≡ put id (some e') (λ k. found k (some e)) j
unfolding found
found-put e e' id j h h' = ground (arith, eq_iff j e.lv.name, eq_iff id j, eq_iff j e'.lv.name)

-- A command that keeps the name of its lv.
pub keeps_done :
    (id : String) (f : Entry → Entry) (w : World)
    → ((e : Entry) → (f e).lv.name ≡ e.lv.name)
    → (at id (λ e. some (f e)) w).0 ≡ ok tt
    → (e : Entry) × (found id w ≡ some e)
      × (e.lv.name ≡ id)
      × ((j : String) → found j (at id (λ e. some (f e)) w).1 ≡ put id (some (f e)) (toy_view w) j)
keeps_done id f w k h =
    let (e, is, named, after) = at_done id (λ e. some (f e)) w h in
    (
      e,
      ap (found id) is ∙ found_self e id named,
      named,
      λ j.
          ap (found j) after
          ∙ found-put e (f e) id j named (k e ∙ named)
          ∙ ap (λ v. put id (some (f e)) (toy_view v) j) (sym is),
    )

pub path_cut : (id : String) → cut_prefix (cat "vg" (cat "/" id)) "vg/" ≡ some id
unfolding cat cut_prefix
path_cut id = refl

pub on_at : (id : String) (f : Entry → World) → on (name (cat "vg" (cat "/" id))) f ≡ at id f
unfolding on on_path
on_at id f = rw (path_cut id, on, on_path) refl

pub switched_on-name :
    (q : ActivateLogicalVolumeOptions) (e : Entry) → (switched_on q e).lv.name ≡ e.lv.name
switched_on-name q e = ground arith

pub on_at_fails :
    (id : String) (f : Entry → World) (w : World) (x : LvmError)
    → (on (name (cat "vg" (cat "/" id))) f w).0 ≡ err x
    → (j : String) → found j (on (name (cat "vg" (cat "/" id))) f w).1 ≡ found j w
on_at_fails id f w x h j =
    subst (λ m. (m w).0 ≡ err x → found j (m w).1 ≡ found j w) (sym (on_at id f))
      (at_fails id f w x j) h

pub on_keeps_done :
    (id : String) (f : Entry → Entry) (w : World)
    → ((e : Entry) → (f e).lv.name ≡ e.lv.name)
    → (on (name (cat "vg" (cat "/" id))) (λ e. some (f e)) w).0 ≡ ok tt
    → (e : Entry) × (found id w ≡ some e)
      × (e.lv.name ≡ id)
      × ((j : String)
          → found j (on (name (cat "vg" (cat "/" id))) (λ e. some (f e)) w).1
            ≡ put id (some (f e)) (toy_view w) j)
on_keeps_done id f w k =
    subst
      (λ m.
        (m w).0 ≡ ok tt
        → (e : Entry) × (found id w ≡ some e)
          × (e.lv.name ≡ id)
          × ((j : String) → found j (m w).1 ≡ put id (some (f e)) (toy_view w) j))
      (sym (on_at id (λ e. some (f e)))) (keeps_done id f w k)

pub removed_put :
    (e : Entry) (id j : String) → e.lv.name ≡ id → none ≡ put id none (λ k. found k (some e)) j
unfolding found
removed_put e id j h = ground (arith, eq_iff j e.lv.name, eq_iff id j)

pub remove_at_done :
    (id : String) (w : World)
    → (at id (λ e. none) w).0 ≡ ok tt
    → (j : String) → found j (at id (λ e. none) w).1 ≡ put id none (toy_view w) j
remove_at_done id w h j =
    let (e, is, named, after) = at_done id (λ e. none) w h in
    ap (found j) after
    ∙ unfold found in (removed_put e id j named) ∙ ap (λ v. put id none (toy_view v) j) (sym is)

pub resize_at :
    (id : String) (n : ℕ)
    → resize_to (cat "vg" (cat "/" id)) (bytes n) ≡ at id (λ e. some (resized n e))
unfolding resize_to on_path
resize_at id n = rw (path_cut id, resize_to, on_path) refl

pub created_put :
    (id j : String) (e : Entry)
    → e.lv.name ≡ id
    → found j (some e) ≡ put id (some e) (toy_view none) j
unfolding found
created_put id j e h = ground (arith, eq_iff j e.lv.name, eq_iff id j)

pub create_in_fails :
    (id : String) (q : CreateThinVolumeOptions) (size : ℕ) (w : World) (x : LvmError)
    → (create_in id q size w).0 ≡ err x
    → (j : String) → found j (create_in id q size w).1 ≡ found j w
unfolding create_in
create_in_fails id q size none x h j = absurd cc
create_in_fails id q size (some e) x h j = refl

pub create_in_done :
    (id : String) (size : ℕ) (q : CreateThinVolumeOptions) (w : World)
    → (create_in id q size w).0 ≡ ok tt
    → (e : Entry) × (found id w ≡ none)
      × (e.lv.tags ≡ q.add_tags)
      × (e.lv.pool ≡ "pool")
      × (size ≤ e.lv.size_bytes)
      × (e.skip ≡ false)
      × (q.activate ≡ some false → e.lv.active ≡ false)
      × ((j : String) → found j (create_in id q size w).1 ≡ put id (some e) (toy_view w) j)
unfolding create_in found
create_in_done id size q none h =
    let e : Entry = record { lv = lv_of id q.add_tags size; skip = false } in
    (e, refl, refl, refl, ground arith, refl, λ _. refl, λ j. created_put id j e refl)
create_in_done id size q (some e) h = absurd cc

pub moved_put :
    (e : Entry) (old new j : String)
    → e.lv.name ≡ old
    → str_eq old new ≡ false
    → found j (some (renamed new e))
      ≡ put new (some (renamed new e)) (put old none (λ k. found k (some e))) j
unfolding found
moved_put e old new j h n =
    ground (arith, eq_iff j new, eq_iff new j, eq_iff old j, eq_iff j e.lv.name)

pub free_new :
    (e : Entry) (old new : String)
    → e.lv.name ≡ old
    → str_eq old new ≡ false
    → found new (some e) ≡ none
unfolding found
free_new e old new h n = ground (arith, eq_iff new e.lv.name, eq_iff old new)

pub rename_at :
    (old new : String) (w : World)
    → str_eq old new ≡ false
    → rename_to old new w ≡ at old (λ e. some (renamed new e)) w
unfolding rename_to
rename_at old new w n = rw n refl

pub rename_same :
    (old new : String) (w : World) → str_eq old new ≡ true → rename_to old new w ≡ (err missing, w)
unfolding rename_to
rename_same old new w n = rw n refl

pub rename_to_fails :
    (old new : String) (w : World) (x : LvmError)
    → (rename_to old new w).0 ≡ err x
    → (j : String) → found j (rename_to old new w).1 ≡ found j w
rename_to_fails old new w x h j = elim (Bool-cases (str_eq old new)) [
  | inl s ↦ ap (λ r. found j r.1) (rename_same old new w s)
  | inr n ↦
      ap (λ r. found j r.1) (rename_at old new w n)
      ∙ at_fails old (λ e. some (renamed new e)) w x j
          (ap (λ r. r.0) (sym (rename_at old new w n)) ∙ h)
]

pub rename_to_done :
    (old new : String) (w : World)
    → (rename_to old new w).0 ≡ ok tt
    → (e : Entry) × (found old w ≡ some e)
      × (found new w ≡ none)
      × ((j : String)
          → found j (rename_to old new w).1
            ≡ put new (some (renamed new e)) (put old none (toy_view w)) j)
rename_to_done old new w h = elim (Bool-cases (str_eq old new)) [
  | inl s ↦ absurd (cc (h, ap (λ r. r.0) (rename_same old new w s)))
  | inr n ↦
      let (e, is, named, after) =
        at_done old (λ e. some (renamed new e)) w
          (ap (λ r. r.0) (sym (rename_at old new w n)) ∙ h) in
      (
        e,
        ap (found old) is ∙ found_self e old named,
        ap (found new) is ∙ free_new e old new named n,
        λ j.
            ap (λ r. found j r.1) (rename_at old new w n)
            ∙ ap (found j) after
            ∙ moved_put e old new j named n
            ∙ ap (λ v. put new (some (renamed new e)) (put old none (toy_view v)) j) (sym is),
      )
]
