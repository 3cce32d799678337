-- ===== src/Codes.antt =====
-- The codes of gRPC other than OK, which internal/api/ answers and reads.

pub data Code : Type 0 where
  canceled unknown_code invalid_argument deadline_exceeded missing already_exists : Code
  permission_denied resource_exhausted failed_precondition aborted out_of_range : Code
  unimplemented internal unavailable data_loss unauthenticated : Code

pub Code-discrete : Discrete Code
Code-discrete = hlevel
