-- ===== src/Lvm/Report.antt =====
-- parseLVReport and its helpers in lvm/lv.go: from the decoded rows of `lvs` to the volumes.
use mathlib.Core.List.{flatten}
use beanstore.Base.{
  ℕ, ◌≡◌, refl, String, ◌||◌, Option, none, some, List, [], ◌∷◌, str_eq, if◌then◌else◌,
}
use Prim.Native.Char.{code}
use beanstore.Base.{◌==◌}
use beanstore.Base.Exec.{Result, ok, err}
use beanstore.Lvm.Types.{LogicalVolume, Float64}
use beanstore.Lvm.Errors.{LvmError, bad_report}
use beanstore.Lvm.Client.{RawLv, Host}
use beanstore.Lvm.Decimal.{parse_uint}

-- strings.Split(value, ","), from the part read so far to its end.
split_from : String → List String
split_from String.[] = "" ∷ []
split_from (String.◌∷◌ c s) = elim (split_from s) [
  | [] ↦ []
  | part ∷ parts ↦ if code c == 44 then "" ∷ part ∷ parts else (String.◌∷◌ c part) ∷ parts
]

unfoldable pub split_list : String → List String
unfolding split_from
split_list String.[] = []
split_list (String.◌∷◌ c s) = split_from (String.◌∷◌ c s)

-- A size field, zero where lvm reports none.
parse_size : String → Option ℕ
parse_size String.[] = some 0
parse_size (String.◌∷◌ c s) = parse_uint (String.◌∷◌ c s)

infixl 5 ◌>>=◌
abbrev ◌>>=◌ : {A B : Type 0} → Option A → (A → Option B) → Option B
none >>= f = none
some a >>= f = f a

module _ {W : Type 0} (h : Host W) where
  -- Zero, the float with no bit set, where lvm reports none.
  parse_percent : String → Option Float64
  parse_percent String.[] = some 0
  parse_percent (String.◌∷◌ c s) = h.parse_float (String.◌∷◌ c s)

  parse_row : RawLv → Option LogicalVolume
  unfolding parse_size parse_percent
  parse_row lv = do
    size ← parse_size lv.size
    metadata_size ← parse_size lv.metadata_size
    chunk_size ← parse_size lv.chunk_size
    data_percent ← parse_percent lv.data_percent
    metadata_percent ← parse_percent lv.metadata_percent
    some (record {
      name = lv.name;
      uuid = lv.uuid;
      volume_group = lv.vg;
      size_bytes = size;
      metadata_size_bytes = metadata_size;
      chunk_size_bytes = chunk_size;
      attributes = lv.attr;
      tags = split_list lv.tags;
      pool = lv.pool;
      origin = lv.origin;
      path = lv.path;
      device_path = lv.dm_path;
      data_percent = data_percent;
      metadata_percent = metadata_percent;
      active = str_eq lv.active "1" || str_eq lv.active "active";
      layout = split_list lv.layout;
    })

  parse_rows : List RawLv → Option (List LogicalVolume)
  unfolding parse_row
  parse_rows [] = some []
  parse_rows (lv ∷ lvs) = do
    volume ← parse_row lv
    volumes ← parse_rows lvs
    some (volume ∷ volumes)

  rows_of : Option (List (List RawLv)) → Option (List LogicalVolume)
  unfolding parse_rows
  rows_of none = none
  rows_of (some report) = parse_rows (flatten report)

  unfoldable pub parse_lv_report : String → Result LvmError (List LogicalVolume)
  unfolding rows_of
  parse_lv_report output = elim (rows_of (h.unmarshal_lvs output)) [
    | none ↦ err (bad_report output)
    | some volumes ↦ ok volumes
  ]

test_split : split_list "a,b,,c" ≡ "a" ∷ "b" ∷ "" ∷ "c" ∷ []
unfolding split_list
test_split = refl
