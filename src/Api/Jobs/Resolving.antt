-- ===== src/Api/Jobs/Resolving.antt =====
-- What internal/api/resolve.go makes of a COMMITTING volume that a restart left behind.
use beanstore.Base.{◌≡◌, ◌⊎◌, Bool, true, false}
use beanstore.Base.Exec.{Result, ok, err}
use beanstore.Lvm.Laws.{View}
use beanstore.Storage.State.{State, ready, committing, retired}
use beanstore.Storage.Errors.{Error}
use beanstore.Storage.Pushes.{retire_pushed, abort_push}
use beanstore.Storage.Node.{NodeLaws}
use beanstore.Api.Server.{Daemon, Server}
use beanstore.Api.Pushing.Target.{TargetLaws}
use beanstore.Api.Pushing.Outcome.{Here}
use beanstore.Api.Jobs.{Unresolved}

module _ {W : Type 0} (d : Daemon W) (laws : NodeLaws d.lvm d.cfg) (u : Unresolved)
    (there : TargetLaws d laws u.target u.id u.transfer_id) (v0 : View) where
  abbrev Stands : State → W → Type 0
  Stands = Here d laws u.target u.id u.transfer_id "" there v0

  abbrev asked : W → W
  asked w = (d.peers.query_volume u.target u.id w).1

  -- RetirePushed once the target answered, and AbortPush once it was also told to abort.
  abbrev pub retires : W → Result Error Unit × W
  retires w = retire_pushed d.lvm d.cfg u.id (asked w)

  abbrev pub aborts : W → Result Error Unit × W
  aborts w = abort_push d.lvm d.cfg u.id (d.peers.abort_transfer u.target u.transfer_id (asked w)).1

  -- How the loop ends, by what the target answered in `w0`: the volume is RETIRED and on the
  -- target, or COMMITTING there since RetirePushed failed; or READY and not on the target, or
  -- COMMITTING since AbortPush failed.
  pub data Settled (w : W) : Type 0 where
    moved :
        (w0 : W)
        → (d.peers.query_volume u.target u.id w0).0 ≡ ok true
        → (retires w0).0 ≡ ok tt
        → w ≡ (retires w0).1
        → Stands retired w
        → there.arrived w ≡ true
        → Settled w
    not_moved :
        (w0 : W) (x : Error)
        → (d.peers.query_volume u.target u.id w0).0 ≡ ok true
        → (retires w0).0 ≡ err x
        → w ≡ (retires w0).1
        → Stands committing w
        → there.arrived w ≡ true
        → Settled w
    kept :
        (w0 : W)
        → (d.peers.query_volume u.target u.id w0).0 ≡ ok false
        → (aborts w0).0 ≡ ok tt
        → w ≡ (aborts w0).1
        → Stands ready w
        → there.arrived w ≡ false
        → Settled w
    not_kept :
        (w0 : W) (x : Error)
        → (d.peers.query_volume u.target u.id w0).0 ≡ ok false
        → (aborts w0).0 ≡ err x
        → w ≡ (aborts w0).1
        → Stands committing w
        → there.arrived w ≡ false
        → Settled w

  -- Settled, or still COMMITTING.
  abbrev pub Tried : Bool × Server W → Type 0
  Tried r = ((r.0 ≡ true) × Settled r.1.world) ⊎ ((r.0 ≡ false) × Stands committing r.1.world)
