-- ===== src/Storage/Pins.antt =====
-- internal/storage/exports.go: how many exports stream from each snapshot. A method runs under
-- the mutex, so it is one step. Counts are Go ints; a count that falls to 0 or below is deleted,
-- so no stored count is ever negative and naturals serve; a count stays far below 2 ^ 63.
pub mod Counting
use beanstore.Base.{
  ℕ, ◌+◌, ◌-◌, String, Bool, true, false, none, some, [], ltb, leb, ◌==◌, if◌then◌else◌,
}
use beanstore.Base.StringMap.{StringMap, lookup, insert, erase}

pub record ExportPins : Type 0 where
  pub counts : StringMap ℕ

abbrev pub new_pins : ExportPins
new_pins = record { counts = [] }

-- `p.counts[id]`, zero for a missing key.
unfoldable pub count : String → ExportPins → ℕ
count id p = elim (lookup id p.counts) [ none ↦ 0 | some n ↦ n ]

-- Whether this is the snapshot's first live export.
unfoldable pub acquire : String → ExportPins → Bool × ExportPins
unfolding count
acquire id p = (count id p + 1 == 1, record { counts = insert id (count id p + 1) p.counts })

-- Whether this was its last.
unfoldable pub release : String → ExportPins → Bool × ExportPins
unfolding count
release id p =
    if leb (count id p) 1
    then (true, record { counts = erase id p.counts })
    else (false, record { counts = insert id (count id p - 1) p.counts })

unfoldable pub is_pinned : String → ExportPins → Bool
unfolding count
is_pinned id p = ltb 0 (count id p)
