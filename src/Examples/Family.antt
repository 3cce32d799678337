-- ===== src/Examples/Family.antt =====
-- A node with any number of lvs that can list by name, change, remove, rename and make snapshots,
-- and fails every other command: what stands there for lvm2 in a rollback that runs to its end.
pub mod Lawful
use beanstore.Base.{String, true, false, Option, none, some, List, [], cut_prefix, ℕ}
use beanstore.Base.Exec.{Result, ok, err, Exec}
use beanstore.Lvm.Types.{
  LogicalVolume, Selector, name, CreateThinSnapshotOptions, ChangeLogicalVolumeOptions,
}
use beanstore.Lvm.Errors.{LvmError}
use beanstore.Lvm.Interface.{Lvm}
use beanstore.Lvm.Laws.{Entry, View, rows, put}
use beanstore.Examples.Toy.{missing, retagged}

abbrev pub named : String → Entry → Entry
named id e = record e { lv = record (e.lv) { name = id } }

-- What stands under a name goes by that name.
abbrev pub as_named : String → Option Entry → Option Entry
as_named id none = none
as_named id (some e) = some (named id e)

abbrev pub family_view : View → View
family_view w id = as_named id (w id)

-- A command on what stands under a name.
unfoldable pub step : Option Entry → String → (Entry → Option Entry) → Exec View LvmError Unit
step none id f w = (err missing, w)
step (some e) id f w = (ok tt, put id (f e) w)

unfoldable pub on_name : Option String → (Entry → Option Entry) → Exec View LvmError Unit
on_name none f w = (err missing, w)
on_name (some id) f w = step (w id) id f w

unfoldable pub on_selected : Selector → (Entry → Option Entry) → Exec View LvmError Unit
on_selected (name path) f w = on_name (cut_prefix path "vg/") f w
on_selected _ f w = (err missing, w)

abbrev pub copy_of : String → String → CreateThinSnapshotOptions → Entry → Entry
copy_of origin id q e = record {
  lv = record (e.lv) { name = id; tags = q.add_tags; origin = origin; path = ""; active = false };
  skip = true;
}

unfoldable pub snap :
    Option Entry
    → Option Entry
    → String
    → String
    → CreateThinSnapshotOptions
    → Exec View LvmError Unit
snap (some e) none origin id q w = (ok tt, put id (some (copy_of origin id q e)) w)
snap _ _ origin id q w = (err missing, w)

unfoldable pub move : Option Entry → Option Entry → String → String → Exec View LvmError Unit
move (some e) none old new w = (ok tt, put new (some e) (put old none w))
move _ _ old new w = (err missing, w)

unfoldable pub rows_named : Option String → View → Result LvmError (List LogicalVolume)
rows_named none w = err missing
rows_named (some id) w = ok (rows (family_view w id))

abbrev pub fails : {A : Type 0} → Exec View LvmError A
fails w = (err missing, w)

abbrev pub family : Lvm View
family = record {
  create_pool = λ vg pool size q. fails;
  create_volume = λ vg pool id size q. fails;
  create_snapshot = λ vg origin id q w. snap (w origin) (w id) origin id q w;
  list = λ q w. (rows_named (cut_prefix q.selection "lv_name = ") w, w);
  remove = λ s q. on_selected s (λ e. none);
  change = λ s q. on_selected s (λ e. some (retagged q e));
  activate = λ s q. fails;
  deactivate = λ s q. fails;
  resize = λ path size q. fails;
  rename = λ vg old new q w. move (w old) (w new) old new w;
  percent_of = λ n p. 0;
}
