-- ===== src/Examples/Snapshots.antt =====
-- The theorems on exports and copies at runs of the daemon of Remote.
use beanstore.Base.{◌≡◌, refl, none, cat, cut_prefix}
use beanstore.Base.Exec.{ok}
use beanstore.Storage.State.{ready, snapshot}
use beanstore.Storage.Errors.{wrap}
use beanstore.Storage.Pins.{count}
use beanstore.Storage.Verbs.{remove_volume}
use beanstore.Api.Exports.{answer_export}
use beanstore.Api.Exports.Balance.{export_balances}
use beanstore.Api.Copies.{run_copy_from_snapshot}
use beanstore.Api.Copies.Taken.{create_target, copy_removes_taken}
use beanstore.Examples.Toy.{on, at, create_in}
use beanstore.Examples.Runs.{found_a, only_entry}
use beanstore.Examples.Remote.{both_laws, toy_daemon, server_in}

export_balances_example :
    count "a"
      (answer_export toy_daemon "a"
        (λ f w. (ok tt, w))
        (λ n b w. (ok tt, w))
        (server_in snapshot)).1.pins
    ≡ count "a" (server_in snapshot).pins
export_balances_example =
    export_balances toy_daemon "a" "a" (λ f w. (ok tt, w)) (λ n b w. (ok tt, w))
      (server_in snapshot)

removed :
    (remove_volume toy_daemon.lvm toy_daemon.cfg "a"
      (create_target toy_daemon both_laws "a" 1048576 (server_in ready).world).1).0
    ≡ ok tt
unfolding remove_volume on at cut_prefix wrap cat create_in
removed = refl

copy_removes_taken_example :
    both_laws.view
      (run_copy_from_snapshot toy_daemon "a" "snap" "op1" 1048576 (server_in ready)).world
      "a"
    ≡ none
copy_removes_taken_example =
    copy_removes_taken toy_daemon both_laws "a" "snap" "op1" 1048576 (server_in ready)
      (only_entry ready) (found_a ready) removed
