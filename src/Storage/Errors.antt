-- ===== src/Storage/Errors.antt =====
-- The errors of internal/storage/, and those of a caller's sink, by their gRPC codes. The texts that wrap them are left out: callers test errors by
-- `errors.Is` and `errors.As`, which see through the wrapping.
use beanstore.Base.{ℕ, String}
use beanstore.Base.Exec.{Result, ok, err, Exec}
use beanstore.Codes.{Code}
use beanstore.Lvm.Errors.{LvmError}
use beanstore.Storage.State.{State}

pub data Error : Type 0 where
  lvm_failed : LvmError → Error
  not_found : String → Error
  wrong_state : String → State → Error
  shrink : String → ℕ → ℕ → Error
  has_snapshots : String → Error
  export_in_progress : String → Error
  wrong_lineage : String → String → Error
  no_rollback_target : String → Error
  transfer_limit : ℕ → Error
  transfer_used transfer_unknown transfer_busy digest_mismatch : String → Error
  bad_frame : Error
  io_failed : String → Error
  sink_failed : Code → Error

wrap_result : {A : Type 0} → Result LvmError A → Result Error A
wrap_result (ok a) = ok a
wrap_result (err e) = err (lvm_failed e)

-- `fmt.Errorf("…: %w", err)` around a call of lvm.
unfoldable pub wrap : {W A : Type 0} → Exec W LvmError A → Exec W Error A
unfolding wrap_result
wrap m w = (wrap_result (m w).0, (m w).1)
