-- ===== src/Config.antt =====
-- internal/config/config.go: the configuration. Reading it from files and the environment is koanf's.
pub mod Validation
pub mod Consistent
use beanstore.Base.{ℕ, String, Bool, ◌||◌, not, str_eq}
use beanstore.Base.Integers.{ℤ}

-- A byte count, or a percentage of the free space of the vg where that is set.
pub record PoolSize : Type 0 where
  pub bytes : ℕ
  pub percent : ℕ

pub record Tls : Type 0 where
  pub ca_file : String
  pub cert_file : String
  pub key_file : String

-- TLS.Enabled
unfoldable pub is_enabled : Tls → Bool
is_enabled t =
    not (str_eq t.ca_file "") || not (str_eq t.cert_file "") || not (str_eq t.key_file "")

-- The limit and the grace period, in nanoseconds, are above 0 once validated.
pub record Config : Type 0 where
  pub listen_address : String
  pub log_level : ℤ
  pub volume_group : String
  pub thin_pool : String
  pub create_pool : Bool
  pub pool_size : PoolSize
  pub max_inbound_transfers : ℕ
  pub transfer_grace : ℕ
  pub tls : Tls
  pub insecure : Bool
