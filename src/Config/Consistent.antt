-- ===== src/Config/Consistent.antt =====
-- What `validate` of internal/config/config.go lets through.
use mathlib.Core.Path.{subst}
use beanstore.Base.{
  ◌≡◌, refl, ◌⊎◌, ℕ, zero, suc, ◌≤◌, ◌<◌, String, Bool, true, false, Option, none, some, str_eq,
  cut_suffix, if◌then◌else◌, arith,
}
use beanstore.Base.Integers.{ℤ, pos, negsuc, positive}
use beanstore.Base.Exec.{Result, ok, fail, bind_ok_then}
use beanstore.Lvm.Decimal.{parse_uint}
use beanstore.Config.{PoolSize, Tls, is_enabled, Config}
use beanstore.Config.Validation.{
  RawConfig, Refusal, refuse_if, or_reject, parse_level, percent_size, byte_size, size_of,
  split_unit, parse_pool_size, choose_size, check_tls, positive_duration, check_config, validate,
  pool_size_missing, no_listen_address, no_volume_group, no_thin_pool, limit_not_positive,
  bad_grace,
}

-- A percentage up to 100, or a number of bytes that fits 64 bits.
abbrev pub IsPoolSize : PoolSize → Type 0
IsPoolSize p =
    ((p.bytes ≡ 0) × (0 < p.percent) × (p.percent ≤ 100))
    ⊎ ((p.percent ≡ 0) × (p.bytes < 18446744073709551616))

-- Mutual TLS with all its files, or the explicit choice of none.
abbrev pub IsTransport : Tls → Bool → Type 0
IsTransport t insecure =
    ((insecure ≡ false)
      × (str_eq t.ca_file "" ≡ false)
      × (str_eq t.cert_file "" ≡ false)
      × (str_eq t.key_file "" ≡ false))
    ⊎ ((insecure ≡ true) × (is_enabled t ≡ false))

abbrev pub IsLevel : ℤ → Type 0
IsLevel n = (n ≡ negsuc 3) ⊎ ((n ≡ pos 0) ⊎ ((n ≡ pos 4) ⊎ (n ≡ pos 8)))

abbrev pub IsConsistent : Config → Type 0
IsConsistent c =
    (str_eq c.listen_address "" ≡ false)
    × (str_eq c.volume_group "" ≡ false)
    × (str_eq c.thin_pool "" ≡ false)
    × IsLevel c.log_level
    × IsPoolSize c.pool_size
    × (0 < c.max_inbound_transfers)
    × (0 < c.transfer_grace)
    × IsTransport c.tls c.insecure

refuse_if-ok : (b : Bool) (why : Refusal) (u : Unit) → (refuse_if b why tt).0 ≡ ok u → b ≡ false
unfolding refuse_if
refuse_if-ok true why u h = absurd (cc h)
refuse_if-ok false why u h = refl

or_reject-ok :
    {A : Type 0} (o : Option A) (why : Refusal) (a : A) → (or_reject o why tt).0 ≡ ok a → o ≡ some a
unfolding or_reject
or_reject-ok none why a h = absurd (cc h)
or_reject-ok (some b) why a h = cc h

positive-above : (z : ℤ) (n : ℕ) → positive z ≡ some n → 0 < n
unfolding positive
positive-above (pos zero) n h = absurd (cc h)
positive-above (pos (suc m)) n h = ground arith
positive-above (negsuc m) n h = absurd (cc h)

duration-above : (o : Option ℤ) (n : ℕ) → positive_duration o ≡ some n → 0 < n
unfolding positive_duration
duration-above none n h = absurd (cc h)
duration-above (some z) n h = positive-above z n h

parse_level-IsLevel :
    (lower : String → String) (name : String) (n : ℤ)
    → (parse_level lower name tt).0 ≡ ok n
    → IsLevel n
unfolding parse_level
parse_level-IsLevel lower name n h = ground arith

percent_size-ok :
    (value : String) (o : Option ℕ) (p : PoolSize)
    → (percent_size value o tt).0 ≡ ok p
    → IsPoolSize p
unfolding percent_size
percent_size-ok value none p h = absurd (cc h)
percent_size-ok value (some n) p h = ground arith

byte_size-ok :
    (value : String) (m : ℕ) (o : Option ℕ) (p : PoolSize)
    → (byte_size value m o tt).0 ≡ ok p
    → IsPoolSize p
unfolding byte_size
byte_size-ok value m none p h = absurd (cc h)
byte_size-ok value m (some n) p h = ground arith

check_tls-ok :
    (t : Tls) (insecure : Bool) (u : Unit)
    → (check_tls t insecure tt).0 ≡ ok u
    → IsTransport t insecure
unfolding check_tls refuse_if is_enabled
check_tls-ok t insecure u h = ground arith

size_of-ok :
    (value : String) (o : Option String) (p : PoolSize)
    → (size_of value o tt).0 ≡ ok p
    → IsPoolSize p
unfolding size_of
size_of-ok value (some number) p h = percent_size-ok value (parse_uint number) p h
size_of-ok value none p h =
    byte_size-ok value (split_unit value).0 (parse_uint (split_unit value).1) p h

given_size-ok :
    (b : Bool) (value : String) (p : PoolSize)
    → ((if b then fail pool_size_missing else size_of value (cut_suffix value "%")) tt).0 ≡ ok p
    → IsPoolSize p
given_size-ok true value p h = absurd (cc h)
given_size-ok false value p h = size_of-ok value (cut_suffix value "%") p h

parse_pool_size-ok :
    (value : String) (p : PoolSize) → (parse_pool_size value tt).0 ≡ ok p → IsPoolSize p
unfolding parse_pool_size
parse_pool_size-ok value p h = given_size-ok (str_eq value "") value p h

ok_injective : {E A : Type 0} (a b : A) → ◌≡◌ {A = Result E A} (ok a) (ok b) → a ≡ b
ok_injective a b h = cc h

choose_size-ok :
    (create : Bool) (value : String) (p : PoolSize)
    → (choose_size create value tt).0 ≡ ok p
    → IsPoolSize p
unfolding choose_size
choose_size-ok true value p h = parse_pool_size-ok value p h
choose_size-ok false value p h = ground arith

module _ (lower : String → String) (parse_duration : String → Option ℤ) where
  -- A configuration that `validate` accepts names its address, volume group and pool, has a level
  -- of slog, a pool size that is a percentage from 1 to 100 or a number of bytes below 2^64, a
  -- limit on transfers and a grace period above 0, and either all files of mutual TLS and not the
  -- insecure flag, or the insecure flag and no file.
  pub validate-IsConsistent :
      (raw : RawConfig) (c : Config) → validate lower parse_duration raw ≡ ok c → IsConsistent c
  unfolding validate check_config
  validate-IsConsistent raw c h =
      bind_ok_then (refuse_if (str_eq raw.listen_address "") no_listen_address) _ tt c h
        (λ u e1 h _. bind_ok_then (parse_level lower raw.log_level) _ tt c h (λ level e2 h _.
          bind_ok_then (refuse_if (str_eq raw.volume_group "") no_volume_group) _ tt c h
            (λ u e3 h _.
              bind_ok_then (refuse_if (str_eq raw.thin_pool "") no_thin_pool) _ tt c h (λ u e4 h _.
                bind_ok_then (choose_size raw.create_pool raw.pool_size) _ tt c h (λ size e5 h _.
                  bind_ok_then (or_reject (positive raw.max_inbound_transfers) limit_not_positive) _
                    tt c h
                    (λ limit e6 h _.
                      bind_ok_then
                        (or_reject (positive_duration (parse_duration raw.transfer_grace))
                          (bad_grace raw.transfer_grace))
                        _ tt c h
                        (λ grace e7 h _.
                          bind_ok_then (check_tls raw.tls raw.insecure) _ tt c h (λ u8 e8 h _.
                            subst IsConsistent (ok_injective _ c h) (
                              refuse_if-ok _ no_listen_address u e1,
                              refuse_if-ok _ no_volume_group u e3,
                              refuse_if-ok _ no_thin_pool u e4,
                              parse_level-IsLevel lower raw.log_level level e2,
                              choose_size-ok raw.create_pool raw.pool_size size e5,
                              positive-above raw.max_inbound_transfers limit (
                                  or_reject-ok (positive raw.max_inbound_transfers)
                                    limit_not_positive limit e6),
                              duration-above (parse_duration raw.transfer_grace) grace (
                                  or_reject-ok
                                    (positive_duration (parse_duration raw.transfer_grace))
                                    (bad_grace raw.transfer_grace) grace e7),
                              check_tls-ok raw.tls raw.insecure u8 e8,
                            )))))))))
