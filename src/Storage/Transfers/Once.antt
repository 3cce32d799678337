-- ===== src/Storage/Transfers/Once.antt =====
-- A transfer id of internal/storage/transfers.go cannot be received into twice.
use beanstore.Base.{◌≡◌, refl, ℕ, String, true, ◌||◌, List, [], ◌∷◌, contains}
use beanstore.Base.Exec.{err}
use beanstore.Config.{Config}
use beanstore.Lvm.Interface.{Lvm}
use beanstore.Storage.Errors.{transfer_used}
use beanstore.Storage.Digest.{Bytes}
use beanstore.Storage.Reader.{Files}
use beanstore.Storage.Transfers.{attach_stream, detach_stream}
use beanstore.Storage.Transfers.Handlers.{
  Node, has_session, prepare_receive, commit, write, destroy, abort,
}
use beanstore.Storage.Transfers.Ids.{
  IsUsed, attach-IsUsed, detach-IsUsed, prepare-Keeps, commit-Keeps, write-Keeps, destroy-Keeps,
}

-- The calls of a node's transfers; the grace timer of a transfer may fire at any point.
pub data TransferCall : Type 0 where
  prepares : String → String → ℕ → TransferCall
  attaches detaches aborts expires : String → TransferCall
  writes : String → ℕ → Bytes → TransferCall
  commits : String → Bytes → TransferCall

module _ {W : Type 0} (lvm : Lvm W) (cfg : Config) (sha256 : Bytes → Bytes) (files : Files W) where
  unfoldable pub transfer_step : TransferCall → Node W → Node W
  transfer_step (prepares id v size) n = (prepare_receive lvm cfg id v size n).1
  transfer_step (attaches id) n = record n { table = (attach_stream id n.table).1 }
  transfer_step (detaches id) n = record n { table = detach_stream id n.table }
  transfer_step (aborts id) n = abort lvm cfg id n
  transfer_step (expires id) n = destroy lvm cfg id n
  transfer_step (writes id o d) n = (write sha256 files id o d n).1
  transfer_step (commits id d) n = (commit lvm cfg sha256 files id d n).1

  unfoldable pub transfer_run : List TransferCall → Node W → Node W
  transfer_run [] n = n
  transfer_run (c ∷ cs) n = transfer_run cs (transfer_step c n)

  step-IsUsed :
      (id : String) (c : TransferCall) (n : Node W)
      → IsUsed id n.table
      → IsUsed id (transfer_step c n).table
  unfolding transfer_step abort has_session
  step-IsUsed id (prepares j v size) n h = prepare-Keeps lvm cfg id j v size n h
  step-IsUsed id (attaches j) n h = attach-IsUsed id j n.table h
  step-IsUsed id (detaches j) n h = detach-IsUsed id j n.table h
  step-IsUsed id (aborts j) n h = destroy-Keeps lvm cfg id j n h
  step-IsUsed id (expires j) n h = destroy-Keeps lvm cfg id j n h
  step-IsUsed id (writes j o d) n h = write-Keeps lvm cfg sha256 files id j o d n h
  step-IsUsed id (commits j d) n h = commit-Keeps lvm cfg sha256 files id j d n h

  run-IsUsed :
      (id : String) (cs : List TransferCall) (n : Node W)
      → IsUsed id n.table
      → IsUsed id (transfer_run cs n).table
  unfolding transfer_run
  run-IsUsed id [] n h = h
  run-IsUsed id (c ∷ cs) n h = run-IsUsed id cs (transfer_step c n) (step-IsUsed id c n h)

  prepare-refused :
      (id v : String) (size : ℕ) (n : Node W)
      → IsUsed id n.table
      → prepare_receive lvm cfg id v size n ≡ (err (transfer_used id), n)
  unfolding prepare_receive
  prepare-refused id v size n h = rw h refl

  -- Once a transfer id has a session or has ended, no calls make it usable again, a grace timer
  -- that fires included: preparing it is refused as used, and changes nothing on the table or in
  -- the world.
  pub transfer_once :
      (id v : String) (size : ℕ) (cs : List TransferCall) (n : Node W)
      → contains id n.table.dead || has_session id n.table ≡ true
      → prepare_receive lvm cfg id v size (transfer_run cs n)
        ≡ (err (transfer_used id), transfer_run cs n)
  transfer_once id v size cs n h =
      prepare-refused id v size (transfer_run cs n) (run-IsUsed id cs n h)
