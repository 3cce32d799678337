-- ===== src/Examples/Runs.antt =====
-- The theorems on operations and volumes at concrete runs on the node of Toy.
use mathlib.Core.Option
use beanstore.Base.{
  ◌≡◌, refl, inl, inr, some_injective, Bool-cases, sym, ap, ◌∙◌, String, true, false, ◌||◌, none,
  some, [], ◌∷◌, cat, cut_prefix, contains, str_eq, eq_iff, if◌then◌else◌, arith,
}
use beanstore.Base.Exec.{ok, err}
use beanstore.Operations.{
  new_table, begin, progress, mark_done, mark_failed, get, progressing_at, done_op, failed_with,
}
use beanstore.Operations.Phases.{run, progresses, finishes, begin_once, replaces_entry}
use beanstore.Lvm.Laws.{Entry}
use beanstore.Storage.State.{
  state_of, first_value, known_state, State, ready, attached, pushing, committing, retired,
  state_tag, state_tag_prefix, state_text,
}
use beanstore.Storage.Tags.{cat-injective}
use beanstore.Storage.Node.{IsTagged, state_in}
use beanstore.Storage.Node.Ends.{Ends, is_active}
use beanstore.Storage.Verbs.{check_state, is_state, attach}
use beanstore.Storage.Attaching.{AttachPartial, attach-Ends, attach_runs}
use beanstore.Storage.Pushes.{mark_pushing, mark_committing, retire_pushed, abort_push}
use beanstore.Storage.Pushing.{Switches, mark_pushing_ends, mark_committing_ends}
use beanstore.Storage.Pushing.Ending.{PushEnds, retire_pushed_ends, abort_push_ends}
use beanstore.Storage.Recover.{recover}
use beanstore.Storage.Recovery.{Settles}
use beanstore.Storage.Recovery.Safety.{recover-Settles}
use beanstore.Examples.Toy.{select_rows, on, at, append, World, toy, toy_config, lv_of, found}
use beanstore.Storage.Volume.{get_volume, is_owned, volume_from_lv}
use beanstore.Examples.Lawful.{toy_laws}

-- The node holds one volume `a` in a state.
abbrev pub only_entry : State → Entry
only_entry s = record { lv = lv_of "a" (state_tag s ∷ []) 1048576; skip = false }

abbrev pub in_state : State → World
in_state s = some (only_entry s)

pub found_a : (s : State) → toy_laws.view (in_state s) "a" ≡ some (only_entry s)
unfolding found
found_a s = refl

holds_attached : state_in (toy_laws.view (in_state attached)) "a" ≡ some attached
unfolding found state_of first_value cut_prefix state_tag cat known_state
holds_attached = refl

pub holds_ready : state_in (toy_laws.view (in_state ready)) "a" ≡ some ready
unfolding found state_of first_value cut_prefix state_tag cat known_state
holds_ready = refl

pub holds_pushing : state_in (toy_laws.view (in_state pushing)) "a" ≡ some pushing
unfolding found state_of first_value cut_prefix state_tag cat known_state
holds_pushing = refl

pub holds_committing : state_in (toy_laws.view (in_state committing)) "a" ≡ some committing
unfolding found state_of first_value cut_prefix state_tag cat known_state
holds_committing = refl

only : (x t : String) → contains x (t ∷ []) ≡ true → x ≡ t
unfolding contains
only x t h = ground (arith, eq_iff x t)

found_tags :
    (s : State) (id : String) (e : Entry)
    → found id (in_state s) ≡ some e
    → e.lv.tags ≡ state_tag s ∷ []
unfolding found
found_tags s id e h = elim (Bool-cases (str_eq id "a")) [
  | inl same ↦
      ap (λ (x : Entry). x.lv.tags)
        (some_injective (sym h ∙ ap (λ b. if b then in_state s else none) same))
  | inr other ↦ absurd (cc (h, other))
]

pub in_state-IsTagged : (s : State) → IsTagged (toy_laws.view (in_state s))
in_state-IsTagged s = record {
  one_state = λ id e h u v hu hv.
      let tags = found_tags s id e h in
      cat-injective state_tag_prefix (
        only _ _ (ap (contains (cat state_tag_prefix u)) (sym tags) ∙ hu)
        ∙ sym (only _ _ (ap (contains (cat state_tag_prefix v)) (sym tags) ∙ hv)));
}

begin_once_example :
    begin "m1" (run (progresses "m1" 7 ∷ finishes "m1" ∷ []) (begin "m1" new_table).1)
    ≡ (err tt, run (progresses "m1" 7 ∷ finishes "m1" ∷ []) (begin "m1" new_table).1)
begin_once_example = begin_once "m1" new_table (progresses "m1" 7 ∷ finishes "m1" ∷ [])

attach-Ends_example :
    Ends "a"
      (λ s. is_state s ready)
      (toy_laws.view (in_state ready))
      (λ path. AttachPartial toy toy_config toy_laws "a" (toy_laws.view (in_state ready)))
      (AttachPartial toy toy_config toy_laws "a" (toy_laws.view (in_state ready)))
      (attach toy toy_config "a" (in_state ready)).0
      (toy_laws.view (attach toy toy_config "a" (in_state ready)).1)
attach-Ends_example =
    attach-Ends toy toy_config toy_laws "a" (in_state ready) (in_state-IsTagged ready)

run_attach : (attach toy toy_config "a" (in_state ready)).0 ≡ ok "/dev/vg/a"
unfolding attach get_volume select_rows cut_prefix cat is_owned state_of first_value state_tag
    check_state is_state state_text volume_from_lv known_state on at append
run_attach = refl

attach_runs_example :
    (is_active (toy_laws.view (attach toy toy_config "a" (in_state ready)).1 "a") ≡ true)
    × ("/dev/vg/a" ≡ toy_laws.device "a")
attach_runs_example =
    attach_runs toy toy_config toy_laws "a" (in_state ready) (only_entry ready) "/dev/vg/a"
      (in_state-IsTagged ready) (found_a ready) refl run_attach

mark_pushing_ends_example :
    Switches toy toy_config toy_laws "a" ready pushing
      (toy_laws.view (in_state ready))
      (mark_pushing toy toy_config "a" "m1" "node2" (in_state ready))
mark_pushing_ends_example =
    mark_pushing_ends toy toy_config toy_laws "a" "m1" "node2" (in_state ready)
      (in_state-IsTagged ready)

mark_committing_ends_example :
    Switches toy toy_config toy_laws "a" pushing committing
      (toy_laws.view (in_state pushing))
      (mark_committing toy toy_config "a" (in_state pushing))
mark_committing_ends_example =
    mark_committing_ends toy toy_config toy_laws "a" (in_state pushing) (in_state-IsTagged pushing)

retire_pushed_ends_example :
    PushEnds toy toy_config toy_laws "a"
      (λ s. is_state s committing)
      retired
      (toy_laws.view (in_state committing))
      (retire_pushed toy toy_config "a" (in_state committing))
retire_pushed_ends_example =
    retire_pushed_ends toy toy_config toy_laws "a" (in_state committing)
      (in_state-IsTagged committing)

abort_push_ends_example :
    PushEnds toy toy_config toy_laws "a"
      (λ s. is_state s pushing || is_state s committing)
      ready
      (toy_laws.view (in_state pushing))
      (abort_push toy toy_config "a" (in_state pushing))
abort_push_ends_example =
    abort_push_ends toy toy_config toy_laws "a" (in_state pushing) (in_state-IsTagged pushing)

recover-Settles_example :
    IsTagged (toy_laws.view (recover toy toy_config (in_state pushing)).1)
    × ((j : String)
        → Settles
            (state_in (toy_laws.view (in_state pushing)) j)
            (state_in (toy_laws.view (recover toy toy_config (in_state pushing)).1) j))
recover-Settles_example =
    recover-Settles toy toy_config toy_laws (in_state pushing) (in_state-IsTagged pushing)

replaces_entry_example :
    (get "m1" (progress "m1" 7 (begin "m1" new_table).1) ≡ (
      if str_eq "m1" "m1"
      then Option.map (λ _. progressing_at 7) (get "m1" (begin "m1" new_table).1)
      else get "m1" (begin "m1" new_table).1))
    × (get "m1" (mark_done "m1" (begin "m1" new_table).1) ≡ (
        if str_eq "m1" "m1"
        then Option.map (λ _. done_op) (get "m1" (begin "m1" new_table).1)
        else get "m1" (begin "m1" new_table).1))
    × (get "m1" (mark_failed "m1" "gone" (begin "m1" new_table).1) ≡ (
        if str_eq "m1" "m1"
        then Option.map (λ _. failed_with "gone") (get "m1" (begin "m1" new_table).1)
        else get "m1" (begin "m1" new_table).1))
replaces_entry_example = replaces_entry "m1" "m1" 7 "gone" (begin "m1" new_table).1
