-- ===== src/Lvm/Laws.antt =====
-- What the program relies on of lvm2, which is not its code: the documented effect of the
-- commands behind each operation on the lvs of one vg. `view w id` is the lv called `id` in the
-- metadata at `w`, with its activation skip flag. A command that fails changes nothing that is
-- seen there; nothing is assumed of when a command fails.
use beanstore.Base.{
  ◌≡◌, String, Bool, true, false, ◌||◌, ◌&&◌, Option, none, some, List, [], ◌∷◌, cat, contains,
  str_eq, ℕ, ◌≤◌, if◌then◌else◌,
}
use beanstore.Base.Exec.{ok, err}
use beanstore.Lvm.Types.{
  LogicalVolume, CommonOptions, name, bytes, no_list, CreateThinVolumeOptions,
  CreateThinSnapshotOptions, RemoveLogicalVolumeOptions, ChangeLogicalVolumeOptions,
  ActivateLogicalVolumeOptions, ResizeLogicalVolumeOptions, ListLogicalVolumesOptions,
}
use beanstore.Lvm.Errors.{LvmError}
use beanstore.Lvm.Interface.{Lvm}

pub record Entry : Type 0 where
  pub lv : LogicalVolume
  pub skip : Bool

abbrev pub View : Type 0
View = String → Option Entry

-- The rows of a report on one name.
abbrev pub rows : Option Entry → List LogicalVolume
rows none = []
rows (some e) = e.lv ∷ []

abbrev pub skip_after : Option Bool → Bool → Bool
skip_after none old = old
skip_after (some new) old = new

abbrev pub All {ℓ κ} : {A : Type ℓ} → (A → Type κ) → List A → Type κ
All P [] = Unit
All P (x ∷ xs) = P x × All P xs

-- Whether a row of the report has the name.
abbrev pub lists_name : String → List LogicalVolume → Bool
lists_name id [] = false
lists_name id (lv ∷ lvs) = str_eq id lv.name || lists_name id lvs

-- No two rows of the report have one name.
abbrev pub Distinct : List LogicalVolume → Type 0
Distinct [] = Unit
Distinct (lv ∷ lvs) = (lists_name lv.name lvs ≡ false) × Distinct lvs

-- The view after a change of one name.
abbrev pub put : String → Option Entry → View → View
put id e v j = if str_eq id j then e else v j

-- `retag tags added removed` are the tags after one lvchange, in the order that lvm reports.
pub record LvmLaws {W : Type 0} (o : Lvm W) (vg pool : String) : Type 0 where
  pub view : W → View
  pub retag : List String → List String → List String → List String
  pub device : String → String
  pub view_name : (w : W) (id : String) (e : Entry) → view w id ≡ some e → e.lv.name ≡ id
  pub retag_kept :
      (t : String) (tags added removed : List String)
      → contains t removed ≡ false
      → contains t (retag tags added removed) ≡ contains t added || contains t tags
  pub retag_dropped :
      (t : String) (tags added removed : List String)
      → contains t removed ≡ true
      → contains t added ≡ false
      → contains t (retag tags added removed) ≡ false
  -- A report changes nothing. By name it has the lv of that name, by pool the pool's lvs.
  pub list_keeps :
      (q : ListLogicalVolumesOptions) (w : W) (j : String) → view (o.list q w).1 j ≡ view w j
  pub list_named :
      (id : String) (w : W) (lvs : List LogicalVolume)
      → (o.list (record no_list { vg = vg; selection = cat "lv_name = " id }) w).0 ≡ ok lvs
      → lvs ≡ rows (view w id)
  pub list_pool_sound :
      (w : W) (lvs : List LogicalVolume)
      → (o.list (record no_list { vg = vg; selection = cat "pool_lv = " pool }) w).0 ≡ ok lvs
      → All (λ lv. (e : Entry) × (view w lv.name ≡ some e) × (e.lv ≡ lv)) lvs
  pub list_pool_complete :
      (w : W) (lvs : List LogicalVolume) (id : String) (e : Entry)
      → (o.list (record no_list { vg = vg; selection = cat "pool_lv = " pool }) w).0 ≡ ok lvs
      → view w id ≡ some e
      → e.lv.pool ≡ pool
      → lists_name id lvs ≡ true
  pub list_pool_distinct :
      (w : W) (lvs : List LogicalVolume)
      → (o.list (record no_list { vg = vg; selection = cat "pool_lv = " pool }) w).0 ≡ ok lvs
      → Distinct lvs
  -- A failed command leaves the view as it was.
  pub change_fails :
      (id : String) (q : ChangeLogicalVolumeOptions) (w : W) (x : LvmError)
      → (o.change (name (cat vg (cat "/" id))) q w).0 ≡ err x
      → (j : String) → view (o.change (name (cat vg (cat "/" id))) q w).1 j ≡ view w j
  pub activate_fails :
      (id : String) (q : ActivateLogicalVolumeOptions) (w : W) (x : LvmError)
      → (o.activate (name (cat vg (cat "/" id))) q w).0 ≡ err x
      → (j : String) → view (o.activate (name (cat vg (cat "/" id))) q w).1 j ≡ view w j
  pub deactivate_fails :
      (id : String) (q : CommonOptions) (w : W) (x : LvmError)
      → (o.deactivate (name (cat vg (cat "/" id))) q w).0 ≡ err x
      → (j : String) → view (o.deactivate (name (cat vg (cat "/" id))) q w).1 j ≡ view w j
  pub remove_fails :
      (id : String) (q : RemoveLogicalVolumeOptions) (w : W) (x : LvmError)
      → (o.remove (name (cat vg (cat "/" id))) q w).0 ≡ err x
      → (j : String) → view (o.remove (name (cat vg (cat "/" id))) q w).1 j ≡ view w j
  pub create_fails :
      (id : String) (size : ℕ) (q : CreateThinVolumeOptions) (w : W) (x : LvmError)
      → (o.create_volume vg pool id size q w).0 ≡ err x
      → (j : String) → view (o.create_volume vg pool id size q w).1 j ≡ view w j
  pub snapshot_fails :
      (origin id : String) (q : CreateThinSnapshotOptions) (w : W) (x : LvmError)
      → (o.create_snapshot vg origin id q w).0 ≡ err x
      → (j : String) → view (o.create_snapshot vg origin id q w).1 j ≡ view w j
  pub rename_fails :
      (old new : String) (q : CommonOptions) (w : W) (x : LvmError)
      → (o.rename vg old new q w).0 ≡ err x
      → (j : String) → view (o.rename vg old new q w).1 j ≡ view w j
  pub resize_fails :
      (id : String) (n : ℕ) (q : ResizeLogicalVolumeOptions) (w : W) (x : LvmError)
      → (o.resize (cat vg (cat "/" id)) (bytes n) q w).0 ≡ err x
      → (j : String) → view (o.resize (cat vg (cat "/" id)) (bytes n) q w).1 j ≡ view w j
  -- lvchange --addtag --deltag -k: the lv exists, and its tags and its skip flag change.
  pub change_done :
      (id : String) (q : ChangeLogicalVolumeOptions) (w : W)
      → (o.change (name (cat vg (cat "/" id))) q w).0 ≡ ok tt
      → (e : Entry) × (view w id ≡ some e)
        × ((j : String)
            → view (o.change (name (cat vg (cat "/" id))) q w).1 j
              ≡ put id
                  (some (record {
                    lv = record (e.lv) { tags = retag e.lv.tags q.add_tags q.remove_tags };
                    skip = skip_after q.set_activation_skip e.skip;
                  }))
                  (view w)
                  j)
  -- lvchange -a y: an lv that is flagged to be skipped stays as it is, unless -K is given.
  pub activate_done :
      (id : String) (q : ActivateLogicalVolumeOptions) (w : W)
      → (o.activate (name (cat vg (cat "/" id))) q w).0 ≡ ok tt
      → (e : Entry) × (view w id ≡ some e)
        × ((j : String)
            → view (o.activate (name (cat vg (cat "/" id))) q w).1 j
              ≡ put id
                  (some (
                    if e.skip && (if q.ignore_activation_skip then false else true)
                    then e
                    else record e { lv = record (e.lv) { active = true; path = device id } }))
                  (view w)
                  j)
  -- lvchange -a n
  pub deactivate_done :
      (id : String) (q : CommonOptions) (w : W)
      → (o.deactivate (name (cat vg (cat "/" id))) q w).0 ≡ ok tt
      → (e : Entry) × (view w id ≡ some e)
        × ((j : String)
            → view (o.deactivate (name (cat vg (cat "/" id))) q w).1 j
              ≡ put id
                  (some (record e { lv = record (e.lv) { active = false; path = "" } }))
                  (view w)
                  j)
  -- lvremove
  pub remove_done :
      (id : String) (q : RemoveLogicalVolumeOptions) (w : W)
      → (o.remove (name (cat vg (cat "/" id))) q w).0 ≡ ok tt
      → (j : String) → view (o.remove (name (cat vg (cat "/" id))) q w).1 j ≡ put id none (view w) j
  -- lvcreate --thin: the name was free. The size is rounded up to whole extents.
  pub create_done :
      (id : String) (size : ℕ) (q : CreateThinVolumeOptions) (w : W)
      → (o.create_volume vg pool id size q w).0 ≡ ok tt
      → (e : Entry) × (view w id ≡ none)
        × (e.lv.tags ≡ q.add_tags)
        × (e.lv.pool ≡ pool)
        × (size ≤ e.lv.size_bytes)
        × (e.skip ≡ false)
        × (q.activate ≡ some false → e.lv.active ≡ false)
        × ((j : String)
            → view (o.create_volume vg pool id size q w).1 j ≡ put id (some e) (view w) j)
  -- lvcreate -s: the origin exists and the name was free; the copy is flagged to be skipped and,
  -- unless -K is given, inactive.
  pub snapshot_done :
      (origin id : String) (q : CreateThinSnapshotOptions) (w : W)
      → (o.create_snapshot vg origin id q w).0 ≡ ok tt
      → (from : Entry) × (e : Entry) × (view w origin ≡ some from)
        × (view w id ≡ none)
        × (e.lv.tags ≡ q.add_tags)
        × (e.lv.pool ≡ from.lv.pool)
        × (e.lv.origin ≡ origin)
        × (e.lv.size_bytes ≡ from.lv.size_bytes)
        × (e.skip ≡ true)
        × (q.ignore_activation_skip ≡ false → e.lv.active ≡ false)
        × ((j : String)
            → view (o.create_snapshot vg origin id q w).1 j ≡ put id (some e) (view w) j)
  -- lvrename: the old name exists and the new one was free.
  pub rename_done :
      (old new : String) (q : CommonOptions) (w : W)
      → (o.rename vg old new q w).0 ≡ ok tt
      → (e : Entry) × (view w old ≡ some e)
        × (view w new ≡ none)
        × ((j : String)
            → view (o.rename vg old new q w).1 j
              ≡ put new
                  (some (record e { lv = record (e.lv) { name = new } }))
                  (put old none (view w))
                  j)
  -- lvresize: the size is at least the one asked for.
  pub resize_done :
      (id : String) (n : ℕ) (q : ResizeLogicalVolumeOptions) (w : W)
      → (o.resize (cat vg (cat "/" id)) (bytes n) q w).0 ≡ ok tt
      → (e : Entry) × (m : ℕ) × (view w id ≡ some e)
        × (n ≤ m)
        × ((j : String)
            → view (o.resize (cat vg (cat "/" id)) (bytes n) q w).1 j
              ≡ put id (some (record e { lv = record (e.lv) { size_bytes = m } })) (view w) j)
