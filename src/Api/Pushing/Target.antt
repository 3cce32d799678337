-- ===== src/Api/Pushing/Target.antt =====
-- What a push relies on of its target, and which of its own calls leave the target alone.
use beanstore.Base.{◌≡◌, String, Bool, true, false}
use beanstore.Base.Exec.{ok, err, Exec, ◌>>=◌, ◌>>◌}
use beanstore.Base.Keeps.{Keeps, then-Keeps}
use beanstore.Config.{Config}
use beanstore.Lvm.Types.{
  Selector, CommonOptions, ListLogicalVolumesOptions, ChangeLogicalVolumeOptions,
  ActivateLogicalVolumeOptions, no_common,
}
use beanstore.Lvm.Interface.{Lvm}
use beanstore.Lvm.Errors.{LvmError}
use beanstore.Storage.State.{State}
use beanstore.Storage.Errors.{Error, wrap}
use beanstore.Storage.Digest.{Bytes}
use beanstore.Storage.Reader.{Frame}
use beanstore.Storage.Reader.Keeping.{FilesKeep}
use beanstore.Storage.Volume.{Volume, get_volume, by_name, lv_name}
use beanstore.Storage.Verbs.{check_state}
use beanstore.Storage.Pushes.{
  mark_committing, retire_pushed, abort_push, deactivate_if, deactivate_pushed, end_push,
}
use beanstore.Storage.Node.{NodeLaws, Same}
use beanstore.Api.Status.{data_loss}
use beanstore.Api.Server.{Daemon}

-- `arrived` is whether the target holds the volume in a state other than INCOMING. Local commands
-- and files are not the target's, calls of the target are not this node's. CommitTransfer that
-- succeeds has committed the volume; one that answers DataLoss found the digest wrong, and no
-- volume is there. QueryVolume tells the truth. Nothing is assumed of when a call fails.
pub record TargetLaws {W : Type 0} (d : Daemon W) (laws : NodeLaws d.lvm d.cfg)
    (target id transfer_id : String) : Type 0 where
  pub arrived : W → Bool
  pub list_local : (q : ListLogicalVolumesOptions) (w : W) → arrived (d.lvm.list q w).1 ≡ arrived w
  pub change_local :
      (x : Selector) (q : ChangeLogicalVolumeOptions) (w : W)
      → arrived (d.lvm.change x q w).1 ≡ arrived w
  pub activate_local :
      (x : Selector) (q : ActivateLogicalVolumeOptions) (w : W)
      → arrived (d.lvm.activate x q w).1 ≡ arrived w
  pub deactivate_local :
      (x : Selector) (q : CommonOptions) (w : W) → arrived (d.lvm.deactivate x q w).1 ≡ arrived w
  pub files_local :
      (w : W)
      → FilesKeep (λ w'. Same (laws.view w) (laws.view w') × (arrived w' ≡ arrived w)) d.files
  pub dial_remote : (w : W) → Same (laws.view w) (laws.view (d.peers.dial target w).1)
  pub query_transfer_remote :
      (w : W) → Same (laws.view w) (laws.view (d.peers.query_transfer target transfer_id w).1)
  pub receive_remote : (w : W) → Same (laws.view w) (laws.view (d.peers.receive target w).1)
  pub header_remote :
      (w : W) → Same (laws.view w) (laws.view (d.peers.send_header target transfer_id w).1)
  pub frame_remote :
      (f : Frame) (w : W) → Same (laws.view w) (laws.view (d.peers.send_frame target f w).1)
  pub close_remote : (w : W) → Same (laws.view w) (laws.view (d.peers.close_and_recv target w).1)
  pub commit_remote :
      (digest : Bytes) (w : W)
      → Same (laws.view w) (laws.view (d.peers.commit_transfer target transfer_id digest w).1)
  pub abort_remote :
      (w : W) → Same (laws.view w) (laws.view (d.peers.abort_transfer target transfer_id w).1)
  pub query_remote : (w : W) → Same (laws.view w) (laws.view (d.peers.query_volume target id w).1)
  -- Only a commit makes the volume arrive.
  pub dial_keeps : (w : W) → arrived (d.peers.dial target w).1 ≡ arrived w
  pub query_transfer_keeps :
      (w : W) → arrived (d.peers.query_transfer target transfer_id w).1 ≡ arrived w
  pub receive_keeps : (w : W) → arrived (d.peers.receive target w).1 ≡ arrived w
  pub header_keeps : (w : W) → arrived (d.peers.send_header target transfer_id w).1 ≡ arrived w
  pub frame_keeps : (f : Frame) (w : W) → arrived (d.peers.send_frame target f w).1 ≡ arrived w
  pub close_keeps : (w : W) → arrived (d.peers.close_and_recv target w).1 ≡ arrived w
  pub abort_keeps : (w : W) → arrived (d.peers.abort_transfer target transfer_id w).1 ≡ arrived w
  pub query_keeps : (w : W) → arrived (d.peers.query_volume target id w).1 ≡ arrived w
  pub commit_lands :
      (digest : Bytes) (w : W)
      → (d.peers.commit_transfer target transfer_id digest w).0 ≡ ok tt
      → arrived (d.peers.commit_transfer target transfer_id digest w).1 ≡ true
  pub commit_refuses :
      (digest : Bytes) (w : W)
      → (d.peers.commit_transfer target transfer_id digest w).0 ≡ err data_loss
      → arrived (d.peers.commit_transfer target transfer_id digest w).1 ≡ false
  pub query_answers :
      (w : W) (b : Bool) → (d.peers.query_volume target id w).0 ≡ ok b → arrived w ≡ b

pub wrap-Keeps :
    {W A : Type 0} (P : W → Type 0) (m : Exec W LvmError A) → Keeps P m → Keeps P (wrap m)
unfolding wrap
wrap-Keeps P m k = k

check_state-Keeps :
    {W : Type 0} (P : W → Type 0) (id : String) (b : Bool) (s : State)
    → Keeps P (check_state {W = W} id b s)
unfolding check_state
check_state-Keeps P id true s w h = h
check_state-Keeps P id false s w h = h

-- The verbs of a push keep what the commands of lvm keep.
module _ {W : Type 0} (lvm : Lvm W) (cfg : Config) (P : W → Type 0)
    (list : (q : ListLogicalVolumesOptions) → Keeps P (lvm.list q))
    (change : (x : Selector) (q : ChangeLogicalVolumeOptions) → Keeps P (lvm.change x q))
    (deactivate : (x : Selector) (q : CommonOptions) → Keeps P (lvm.deactivate x q)) where
  pub get_volume-Keeps : (id : String) → Keeps P (get_volume lvm cfg id)
  unfolding get_volume
  get_volume-Keeps id =
      then-Keeps P (wrap (lvm.list (by_name cfg id))) _
        (wrap-Keeps P (lvm.list (by_name cfg id)) (list (by_name cfg id))) (λ lvs w h. h)

  guarded-Keeps :
      (id : String) (test : State → Bool) (rest : Volume → Exec W Error Unit)
      → ((v : Volume) → Keeps P (rest v))
      → Keeps P (get_volume lvm cfg id >>= λ v. check_state id (test v.state) v.state >> rest v)
  guarded-Keeps id test rest k = then-Keeps P (get_volume lvm cfg id) _ (get_volume-Keeps id) (λ v.
      then-Keeps P (check_state id (test v.state) v.state) _
        (check_state-Keeps P id (test v.state) v.state) (λ _. k v))

  pub mark_committing-Keeps : (id : String) → Keeps P (mark_committing lvm cfg id)
  unfolding mark_committing
  mark_committing-Keeps id =
      guarded-Keeps id _ _ (λ v. wrap-Keeps P (lvm.change (lv_name cfg id) _) (change _ _))

  deactivate_if-Keeps : (b : Bool) (i : String) → Keeps P (deactivate_if lvm cfg b i)
  unfolding deactivate_if
  deactivate_if-Keeps false i w h = h
  deactivate_if-Keeps true i w h =
      wrap-Keeps P (lvm.deactivate (lv_name cfg i) no_common) (deactivate _ no_common) w h

  deactivate_pushed-Keeps : (v : Volume) → Keeps P (deactivate_pushed lvm cfg v)
  unfolding deactivate_pushed
  deactivate_pushed-Keeps v = deactivate_if-Keeps v.active v.id

  ends-Keeps :
      (id : String) (test : State → Bool) (to : State)
      → Keeps P (
          get_volume lvm cfg id >>= λ v.
          check_state id (test v.state) v.state
          >> (deactivate_pushed lvm cfg v >> end_push lvm cfg id v to))
  unfolding end_push
  ends-Keeps id test to = guarded-Keeps id test _ (λ v.
      then-Keeps P (deactivate_pushed lvm cfg v) _ (deactivate_pushed-Keeps v)
        (λ _. wrap-Keeps P (lvm.change (lv_name cfg id) _) (change _ _)))

  pub retire_pushed-Keeps : (id : String) → Keeps P (retire_pushed lvm cfg id)
  unfolding retire_pushed
  retire_pushed-Keeps id = ends-Keeps id _ _

  pub abort_push-Keeps : (id : String) → Keeps P (abort_push lvm cfg id)
  unfolding abort_push
  abort_push-Keeps id = ends-Keeps id _ _
