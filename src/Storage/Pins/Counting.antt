-- ===== src/Storage/Pins/Counting.antt =====
-- What the pins of internal/storage/exports.go count, call by call.
use beanstore.Base.{
  ℕ, ◌+◌, ◌-◌, ◌≡◌, refl, ap, ◌∙◌, String, Bool, true, false, List, [], ◌∷◌, arith, str_eq, eq_iff,
  ltb, leb, ◌==◌, if◌then◌else◌,
}
use beanstore.Base.StringMap.{lookup-insert, lookup-erase}
use beanstore.Storage.Pins.{ExportPins, new_pins, count, acquire, release, is_pinned}

-- The calls that change the pins.
pub data PinCall : Type 0 where
  acquires releases : String → PinCall

pub pin_step : PinCall → ExportPins → ExportPins
pin_step (acquires id) p = (acquire id p).1
pin_step (releases id) p = (release id p).1

pub pin_run : List PinCall → ExportPins → ExportPins
pin_run [] p = p
pin_run (c ∷ cs) p = pin_run cs (pin_step c p)

-- The exports of one snapshot that are live after the calls, from `n` on: each acquire starts
-- one, and each release ends one where there is one.
pub live : String → List PinCall → ℕ → ℕ
live id [] n = n
live id (acquires j ∷ cs) n = let rest = live id cs in if str_eq j id then rest (n + 1) else rest n
live id (releases j ∷ cs) n = let rest = live id cs in if str_eq j id then rest (n - 1) else rest n

pub count-acquire :
    (j id : String) (p : ExportPins)
    → count id (acquire j p).1 ≡ (if str_eq j id then count id p + 1 else count id p)
unfolding acquire count
count-acquire j id p = ground (arith, eq_iff j id, lookup-insert j id (count j p + 1) p.counts)

pub count-release :
    (j id : String) (p : ExportPins)
    → count id (release j p).1 ≡ (if str_eq j id then count id p - 1 else count id p)
unfolding release count
count-release j id p =
    ground
      (arith, eq_iff j id, lookup-insert j id (count j p - 1) p.counts, lookup-erase j id p.counts)

if_ap :
    {A B : Type 0} (f : A → B) (b : Bool) (x y : A)
    → f (if b then x else y) ≡ (if b then f x else f y)
if_ap f true x y = refl
if_ap f false x y = refl

-- The count of a snapshot is the number of its live exports, after any calls for any snapshots.
count-run :
    (id : String) (cs : List PinCall) (p : ExportPins)
    → count id (pin_run cs p) ≡ live id cs (count id p)
unfolding pin_run pin_step live
count-run id [] p = refl
count-run id (acquires j ∷ cs) p =
    count-run id cs (acquire j p).1
    ∙ ap (live id cs) (count-acquire j id p)
    ∙ if_ap (live id cs) (str_eq j id) _ _
count-run id (releases j ∷ cs) p =
    count-run id cs (release j p).1
    ∙ ap (live id cs) (count-release j id p)
    ∙ if_ap (live id cs) (str_eq j id) _ _

-- What the tests say of a count.
tests_count :
    (id : String) (p : ExportPins) (n : ℕ)
    → count id p ≡ n
    → (is_pinned id p ≡ ltb 0 n) × ((acquire id p).0 ≡ (n == 0)) × ((release id p).0 ≡ leb n 1)
unfolding is_pinned acquire release count
tests_count id p n h = (ground arith, ground arith, ground arith)

-- After any calls from no pins on, a snapshot is pinned if and only if it has a live export; the
-- next acquire reports a first export exactly when there is none, and the next release reports
-- the last exactly when there is at most one.
pub pins_count_exports :
    (id : String) (cs : List PinCall)
    → (is_pinned id (pin_run cs new_pins) ≡ ltb 0 (live id cs 0))
      × ((acquire id (pin_run cs new_pins)).0 ≡ (live id cs 0 == 0))
      × ((release id (pin_run cs new_pins)).0 ≡ leb (live id cs 0) 1)
unfolding beanstore.Base.StringMap.lookup
pins_count_exports id cs =
    tests_count id (pin_run cs new_pins) (live id cs 0)
      (count-run id cs new_pins ∙ ap (live id cs) (unfold count in refl))
