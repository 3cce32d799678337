-- ===== src/Examples/Settings.antt =====
-- Settings that the validation accepts, and one that it refuses.
use beanstore.Base.{◌≡◌, refl, String, true, false, Option, some, cut_suffix}
use beanstore.Base.Integers.{ℤ, pos, positive}
use beanstore.Base.Exec.{ok, err}
use beanstore.Lvm.Decimal.{parse_uint}
use beanstore.Config.{Config, is_enabled}
use beanstore.Config.Validation.{
  RawConfig, check_config, validate, parse_pool_size, size_of, split_unit, suffix_case, byte_size,
  percent_size, choose_size, parse_level, check_tls, refuse_if, or_reject, positive_duration,
  tls_incomplete,
}
use beanstore.Config.Consistent.{IsConsistent, validate-IsConsistent}

abbrev plain : String → String
plain s = s

-- A minute, for every text.
abbrev one_minute : String → Option ℤ
one_minute s = some (pos 60000000000)

abbrev settings : RawConfig
settings = record {
  listen_address = "127.0.0.1:50051";
  log_level = "info";
  volume_group = "vg0";
  thin_pool = "pool0";
  create_pool = true;
  pool_size = "2G";
  max_inbound_transfers = pos 4;
  transfer_grace = "60s";
  tls = record { ca_file = ""; cert_file = ""; key_file = "" };
  insecure = true;
}

abbrev accepted : Config
accepted = record {
  listen_address = "127.0.0.1:50051";
  log_level = pos 0;
  volume_group = "vg0";
  thin_pool = "pool0";
  create_pool = true;
  pool_size = record { bytes = 2147483648; percent = 0 };
  max_inbound_transfers = 4;
  transfer_grace = 60000000000;
  tls = record { ca_file = ""; cert_file = ""; key_file = "" };
  insecure = true;
}

accepts : validate plain one_minute settings ≡ ok accepted
unfolding validate check_config parse_pool_size size_of split_unit suffix_case byte_size choose_size
    parse_level check_tls refuse_if or_reject positive_duration positive is_enabled cut_suffix
    parse_uint
accepts = refl

validate-IsConsistent_example : IsConsistent accepted
validate-IsConsistent_example = validate-IsConsistent plain one_minute settings accepted accepts

-- 2^34 times 2^30 wraps around to 0.
test_wrapped_size : (parse_pool_size "17179869184G" tt).0 ≡ ok (record { bytes = 0; percent = 0 })
unfolding parse_pool_size size_of split_unit suffix_case byte_size cut_suffix parse_uint
test_wrapped_size = refl

test_percent : (parse_pool_size "90%" tt).0 ≡ ok (record { bytes = 0; percent = 90 })
unfolding parse_pool_size size_of percent_size cut_suffix parse_uint
test_percent = refl

test_half_tls :
    validate plain one_minute (record settings {
      tls = record { ca_file = "ca.pem"; cert_file = ""; key_file = "" };
      insecure = false;
    })
    ≡ err tls_incomplete
unfolding validate check_config parse_pool_size size_of split_unit suffix_case byte_size choose_size
    parse_level check_tls refuse_if or_reject positive_duration positive is_enabled cut_suffix
    parse_uint
test_half_tls = refl
