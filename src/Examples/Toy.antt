-- ===== src/Examples/Toy.antt =====
-- A node with room for one lv, on which the storage engine can run: what stands there for lvm2,
-- which is not part of the repository.
use beanstore.Base.{
  ℕ, String, true, false, ◌&&◌, Option, none, some, List, [], ◌∷◌, cat, cut_prefix, contains,
  str_eq, if◌then◌else◌,
}
use beanstore.Base.Exec.{Result, ok, err, Exec}
use beanstore.Base.Integers.{pos}
use beanstore.Config.{Config}
use beanstore.Lvm.Types.{
  LogicalVolume, Selector, name, Size, bytes, ChangeLogicalVolumeOptions,
  ActivateLogicalVolumeOptions, CreateThinVolumeOptions,
}
use beanstore.Lvm.Errors.{LvmError, not_run}
use beanstore.Lvm.Interface.{Lvm}
use beanstore.Lvm.Laws.{Entry, rows, skip_after}

abbrev pub World : Type 0
World = Option Entry

abbrev pub toy_config : Config
toy_config = record {
  listen_address = "127.0.0.1:7420";
  log_level = pos 0;
  volume_group = "vg";
  thin_pool = "pool";
  create_pool = false;
  pool_size = record { bytes = 0; percent = 0 };
  max_inbound_transfers = 0;
  transfer_grace = 0;
  tls = record { ca_file = ""; cert_file = ""; key_file = "" };
  insecure = true;
}

abbrev pub lv_of : String → List String → ℕ → LogicalVolume
lv_of id tags size = record {
  name = id;
  uuid = "";
  volume_group = "vg";
  size_bytes = size;
  metadata_size_bytes = 0;
  chunk_size_bytes = 0;
  attributes = "";
  tags = tags;
  pool = "pool";
  origin = "";
  path = "";
  device_path = "";
  data_percent = 0;
  metadata_percent = 0;
  active = false;
  layout = [];
}

unfoldable pub keep_tags : List String → List String → List String
keep_tags [] removed = []
keep_tags (t ∷ ts) removed =
    let rest = keep_tags ts removed in if contains t removed then rest else t ∷ rest

unfoldable pub append : List String → List String → List String
append [] us = us
append (t ∷ ts) us = t ∷ append ts us

abbrev pub toy_retag : List String → List String → List String → List String
toy_retag tags added removed = append added (keep_tags tags removed)

abbrev pub toy_device : String → String
toy_device id = cat "/dev/vg/" id

abbrev pub missing : LvmError
missing = not_run "no such lv"

-- A command on the lv of one name.
unfoldable pub at : String → (Entry → World) → Exec World LvmError Unit
at id f none = (err missing, none)
at id f (some e) = if str_eq id e.lv.name then (ok tt, f e) else (err missing, some e)

unfoldable pub on_path : Option String → (Entry → World) → Exec World LvmError Unit
on_path none f w = (err missing, w)
on_path (some id) f w = at id f w

unfoldable pub on : Selector → (Entry → World) → Exec World LvmError Unit
unfolding on_path
on (name path) f w = on_path (cut_prefix path "vg/") f w
on _ f w = (err missing, w)

abbrev pub retagged : ChangeLogicalVolumeOptions → Entry → Entry
retagged q e = record {
  lv = record (e.lv) { tags = toy_retag e.lv.tags q.add_tags q.remove_tags };
  skip = skip_after q.set_activation_skip e.skip;
}

abbrev pub switched_on : ActivateLogicalVolumeOptions → Entry → Entry
switched_on q e =
    if e.skip && (if q.ignore_activation_skip then false else true)
    then e
    else record e { lv = record (e.lv) { active = true; path = toy_device e.lv.name } }

abbrev pub switched_off : Entry → Entry
switched_off e = record e { lv = record (e.lv) { active = false; path = "" } }

abbrev pub resized : ℕ → Entry → Entry
resized n e = record e { lv = record (e.lv) { size_bytes = n } }

abbrev pub renamed : String → Entry → Entry
renamed new e = record e { lv = record (e.lv) { name = new } }

unfoldable pub found : String → World → World
found id none = none
found id (some e) = if str_eq id e.lv.name then some e else none

unfoldable pub of_pool : String → World → World
of_pool p none = none
of_pool p (some e) = if str_eq p e.lv.pool then some e else none

unfoldable pub select_rows :
    Option String → Option String → World → Result LvmError (List LogicalVolume)
unfolding found of_pool
select_rows (some id) _ w = ok (rows (found id w))
select_rows none (some p) w = ok (rows (of_pool p w))
select_rows none none w = err missing

unfoldable pub resize_to : String → Size → Exec World LvmError Unit
unfolding on_path
resize_to path (bytes n) w = on_path (cut_prefix path "vg/") (λ e. some (resized n e)) w
resize_to path _ w = (err missing, w)

unfoldable pub create_in : String → CreateThinVolumeOptions → ℕ → Exec World LvmError Unit
create_in id q size none = (ok tt, some (record { lv = lv_of id q.add_tags size; skip = false }))
create_in id q size (some e) = (err missing, some e)

-- A rename to the same name is refused, as the new name is taken.
unfoldable pub rename_to : String → String → Exec World LvmError Unit
unfolding at
rename_to old new w =
    if str_eq old new then (err missing, w) else at old (λ e. some (renamed new e)) w

-- There is no room for a second lv, so that a snapshot always fails.
abbrev pub toy : Lvm World
toy = record {
  create_pool = λ vg pool size q w. (err missing, w);
  create_volume = λ vg pool id size q. create_in id q size;
  create_snapshot = λ vg origin id q w. (err missing, w);
  list = λ q w. (
    select_rows (cut_prefix q.selection "lv_name = ") (cut_prefix q.selection "pool_lv = ") w,
    w,
  );
  remove = λ s q. on s (λ e. none);
  change = λ s q. on s (λ e. some (retagged q e));
  activate = λ s q. on s (λ e. some (switched_on q e));
  deactivate = λ s q. on s (λ e. some (switched_off e));
  resize = λ path size q. resize_to path size;
  rename = λ vg old new q. rename_to old new;
  percent_of = λ n p. 0;
}
