-- ===== src/Config/Validation.antt =====
-- `validate` of internal/config/config.go and its parsers. strings.ToLower and time.ParseDuration
-- are parameters: `lower`, and `parse_duration`, which is none for a text that is no duration.
use beanstore.Base.{
  ℕ, ◌*◌, ◌%◌, ◌^◌, String, Bool, true, false, ◌&&◌, ◌||◌, not, Option, none, some, str_eq, ltb,
  ◌==◌, cut_suffix, if◌then◌else◌,
}
use beanstore.Base.Integers.{ℤ, pos, negsuc, positive}
use beanstore.Base.Exec.{Result, Exec, pure, fail, ◌>>=◌, ◌>>◌}
use beanstore.Lvm.Decimal.{parse_uint}
use beanstore.Config.{PoolSize, Tls, is_enabled, Config}

-- The settings as koanf reads them.
pub record RawConfig : Type 0 where
  pub listen_address : String
  pub log_level : String
  pub volume_group : String
  pub thin_pool : String
  pub create_pool : Bool
  pub pool_size : String
  pub max_inbound_transfers : ℤ
  pub transfer_grace : String
  pub tls : Tls
  pub insecure : Bool

-- Why a configuration is refused.
pub data Refusal : Type 0 where
  no_listen_address no_volume_group no_thin_pool : Refusal
  pool_size_missing pool_size_unused : Refusal
  limit_not_positive : Refusal
  tls_and_insecure tls_incomplete no_transport_choice : Refusal
  unknown_level bad_percentage bad_size bad_grace : String → Refusal

-- A check that may refuse; it has no state.
abbrev pub Checked : Type 0 → Type 0
Checked A = Exec Unit Refusal A

unfoldable pub refuse_if : Bool → Refusal → Checked Unit
refuse_if b why = if b then fail why else pure tt

unfoldable pub or_reject : {A : Type 0} → Option A → Refusal → Checked A
or_reject (some a) why = pure a
or_reject none why = fail why

unfoldable pub parse_level : (String → String) → String → Checked ℤ
parse_level lower name =
    if str_eq (lower name) "debug"
    then pure (negsuc 3)
    else if str_eq (lower name) "info"
    then pure (pos 0)
    else if str_eq (lower name) "warn"
    then pure (pos 4)
    else if str_eq (lower name) "error"
    then pure (pos 8)
    else fail (unknown_level name)

-- One case of the switch on the suffix: the multiplier and the number before the suffix.
unfoldable pub suffix_case : Option String → ℕ → ℕ × String → ℕ × String
suffix_case (some number) multiplier rest = (multiplier, number)
suffix_case none multiplier rest = rest

unfoldable pub split_unit : String → ℕ × String
split_unit value = suffix_case (cut_suffix value "K") (2 ^ 10) (
    suffix_case (cut_suffix value "M") (2 ^ 20) (
      suffix_case (cut_suffix value "G") (2 ^ 30)
        (suffix_case (cut_suffix value "T") (2 ^ 40) (1, value))))

unfoldable pub percent_size : String → Option ℕ → Checked PoolSize
percent_size value none = fail (bad_percentage value)
percent_size value (some n) =
    if n == 0 || ltb 100 n
    then fail (bad_percentage value)
    else pure (record { bytes = 0; percent = n })

-- The product wraps around.
unfoldable pub byte_size : String → ℕ → Option ℕ → Checked PoolSize
byte_size value multiplier none = fail (bad_size value)
byte_size value multiplier (some n) =
    if n == 0
    then fail (bad_size value)
    else pure (record { bytes = n * multiplier % 2 ^ 64; percent = 0 })

unfoldable pub size_of : String → Option String → Checked PoolSize
size_of value (some number) = percent_size value (parse_uint number)
size_of value none = let unit = split_unit value in byte_size value unit.0 (parse_uint unit.1)

unfoldable pub parse_pool_size : String → Checked PoolSize
parse_pool_size value =
    if str_eq value "" then fail pool_size_missing else size_of value (cut_suffix value "%")

unfoldable pub choose_size : Bool → String → Checked PoolSize
choose_size true value = parse_pool_size value
choose_size false value =
    if str_eq value "" then pure (record { bytes = 0; percent = 0 }) else fail pool_size_unused

unfoldable pub check_tls : Tls → Bool → Checked Unit
check_tls t insecure =
    if is_enabled t && insecure
    then fail tls_and_insecure
    else if is_enabled t
    then refuse_if (str_eq t.ca_file "" || str_eq t.cert_file "" || str_eq t.key_file "")
        tls_incomplete
    else refuse_if (not insecure) no_transport_choice

-- The duration, where it is above 0.
unfoldable pub positive_duration : Option ℤ → Option ℕ
positive_duration none = none
positive_duration (some n) = positive n

module _ (lower : String → String) (parse_duration : String → Option ℤ) where
  unfoldable pub check_config : RawConfig → Checked Config
  check_config raw = do
    refuse_if (str_eq raw.listen_address "") no_listen_address
    level ← parse_level lower raw.log_level
    refuse_if (str_eq raw.volume_group "") no_volume_group
    refuse_if (str_eq raw.thin_pool "") no_thin_pool
    pool_size ← choose_size raw.create_pool raw.pool_size
    limit ← or_reject (positive raw.max_inbound_transfers) limit_not_positive
    grace ←
        or_reject (positive_duration (parse_duration raw.transfer_grace))
          (bad_grace raw.transfer_grace)
    check_tls raw.tls raw.insecure
    pure (record {
      listen_address = raw.listen_address;
      log_level = level;
      volume_group = raw.volume_group;
      thin_pool = raw.thin_pool;
      create_pool = raw.create_pool;
      pool_size = pool_size;
      max_inbound_transfers = limit;
      transfer_grace = grace;
      tls = raw.tls;
      insecure = raw.insecure;
    })

  unfoldable pub validate : RawConfig → Result Refusal Config
  validate raw = (check_config raw tt).0
