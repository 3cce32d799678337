-- ===== src/Api/Jobs.antt =====
-- The background tasks that the handlers of internal/api/ start, and what resolve.go runs for
-- the COMMITTING volumes that a restart left behind.
pub mod Ends
pub mod Requests
pub mod Accepted
pub mod Resolving
use beanstore.Base.{
  ℕ, zero, suc, String, Bool, true, false, ◌||◌, List, [], ◌∷◌, str_eq, if◌then◌else◌,
}
use beanstore.Base.Exec.{ok, err, Exec}
use beanstore.Storage.State.{committing}
use beanstore.Storage.Volume.{Volume, list_volumes}
use beanstore.Storage.Verbs.{is_state}
use beanstore.Api.Status.{Status}
use beanstore.Api.Volumes.{answer_create_volume, answer_delete_volume, run_create, run_delete}
use beanstore.Api.Pushing.{answer_push_volume, run_push, settle_push}
use beanstore.Api.Copies.{
  answer_create_volume_from_snapshot, answer_push_snapshot, run_copy_from_snapshot,
  run_snapshot_push,
}
use beanstore.Api.Server.{
  Daemon, Server, never_committed, Job, creates, deletes, pushes, copies, pushes_snapshot, inside,
}

-- A COMMITTING volume that is resolved on its own loop: its id, its transfer and its target.
pub record Unresolved : Type 0 where
  pub id : String
  pub transfer_id : String
  pub target : String

-- The loop of resolveRecovered.
unfoldable pub unresolved : List Volume → List Unresolved
unresolved [] = []
unresolved (v ∷ vs) =
    let rest = unresolved vs in
    if is_state v.state committing
    then (if str_eq v.push_target "" || str_eq v.transfer ""
        then rest
        else record { id = v.id; transfer_id = v.transfer; target = v.push_target } ∷ rest)
    else rest

-- The requests that start a task.
pub data Request : Type 0 where
  create_volume : String → ℕ → String → Request
  delete_volume : String → Bool → String → Request
  push_volume : String → String → String → String → Request
  create_volume_from_snapshot : String → String → String → Request
  push_snapshot : String → String → String → String → Request

module _ {W : Type 0} (d : Daemon W) where
  unfoldable pub accept : Request → Exec (Server W) Status Job
  accept (create_volume id size op) = answer_create_volume d id size op
  accept (delete_volume id force op) = answer_delete_volume d id force op
  accept (push_volume id transfer_id target op) = answer_push_volume d id transfer_id target op
  accept (create_volume_from_snapshot id snapshot_id op) =
      answer_create_volume_from_snapshot d id snapshot_id op
  accept (push_snapshot id transfer_id target op) = answer_push_snapshot d id transfer_id target op

  unfoldable pub run_job : Job → Server W → Server W
  run_job (creates id size op) = run_create d id size op
  run_job (deletes id snapshots op) = run_delete d id snapshots op
  run_job (pushes id transfer_id target op) = run_push d id transfer_id target op
  run_job (copies id snapshot_id op size) = run_copy_from_snapshot d id snapshot_id op size
  run_job (pushes_snapshot id transfer_id target op) = run_snapshot_push d id transfer_id target op

  -- The loops that resolveRecovered starts; a failed scan starts none.
  unfoldable pub resolve_recovered : Server W → List Unresolved × Server W
  resolve_recovered s =
      let r = inside (list_volumes d.lvm d.cfg) s in
      (elim r.0 [ ok volumes ↦ unresolved volumes | err _ ↦ [] ], r.1)

  -- tryResolve: whether the target answered. No operation belongs to a recovered push.
  unfoldable pub try_resolve : Unresolved → Server W → Bool × Server W
  try_resolve u s =
      let dialed = inside (d.peers.dial u.target) s in
      elim dialed.0 [
        | err _ ↦ (false, dialed.1)
        | ok _ ↦
            let asked = inside (d.peers.query_volume u.target u.id) dialed.1 in
            elim asked.0 [
              | err _ ↦ (false, asked.1)
              | ok committed ↦ (
                true,
                settle_push d u.target committed u.id u.transfer_id "" never_committed asked.1,
              )
            ]
      ]

  -- resolveUntilSettled, as far as `n` attempts; the loop ends with the daemon.
  unfoldable pub resolve_attempts : ℕ → Unresolved → Server W → Bool × Server W
  resolve_attempts zero u s = (false, s)
  resolve_attempts (suc n) u s = elim (try_resolve u s).0 [
    | true ↦ (true, (try_resolve u s).1)
    | false ↦ resolve_attempts n u (try_resolve u s).1
  ]
