-- ===== src/Api/Rollbacks/Safety.antt =====
-- RollbackVolume of internal/api/rollback.go: the volume or its copy is always there.
use beanstore.Base.{◌≡◌, ◌≢◌, ◌⊎◌, String}
use beanstore.Base.Exec.{Result, ok, err, Exec}
use beanstore.Lvm.Laws.{View}
use beanstore.Storage.State.{ready, rollback}
use beanstore.Storage.Rollback.{rollback_temp_name}
use beanstore.Storage.Node.{NodeLaws}
use beanstore.Api.Status.{Status}
use beanstore.Api.Server.{Daemon}
use beanstore.Api.Rollbacks.Finishing.{Copied, Renamed}

module _ {W : Type 0} (d : Daemon W) (laws : NodeLaws d.lvm d.cfg) where
  -- How a rollback ends: the copy of `source` has taken the volume's place; or the volume and all others are
  -- as they were, but for the copy's name; or the copy stands under one of the two names.
  abbrev pub RolledBack : String → String → View → Result Status Unit × W → Type 0
  RolledBack id source v0 (ok u, w) =
      Renamed id (rollback_temp_name id) source ready v0 (laws.view w)
  RolledBack id source v0 (err x, w) =
      ((j : String) → rollback_temp_name id ≢ j → laws.view w j ≡ v0 j)
      ⊎ (Copied id (rollback_temp_name id) source v0 (laws.view w)
          ⊎ Renamed id (rollback_temp_name id) source rollback v0 (laws.view w))
