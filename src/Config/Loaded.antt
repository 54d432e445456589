-- ===== src/Config/Loaded.antt =====
-- What Load of backend/config/config.go lets the program start with.
use notifyx.Prelude.{
  ℕ, zero, suc, ◌*◌, ◌^◌, ◌≤◌, ◌≡◌, ◌∙◌, refl, ap, subst, ◌-◌, to_word, String, true, false, none,
  arith, str_eq, ℤ, pos, negsuc, is_positive, is_below, ◌*ℤ◌, *ℤ-pos, to_int64, to_int64-small,
  Option-cases, not, ◌||◌,
}
use notifyx.Config.{Config, get_env_int, hour, read_config, validate_config, exceeds, loaded, load}

positive-pos : (z : ℤ) → is_positive z ≡ true → (n : ℕ) × (z ≡ pos (suc n))
unfolding is_positive
positive-pos (pos zero) h = absurd (ground arith)
positive-pos (pos (suc n)) h = (n, refl)
positive-pos (negsuc n) h = absurd (ground arith)

from_one : (z : ℤ) → is_below z 1 ≡ false → (n : ℕ) × (z ≡ pos (suc n))
unfolding is_below
from_one (pos zero) h = absurd (ground arith)
from_one (pos (suc n)) h = (n, refl)
from_one (negsuc n) h = absurd (ground arith)

from_zero :
    (z : ℤ) (m : ℕ)
    → is_below z 0 ≡ false
    → exceeds z (pos m) ≡ false
    → (n : ℕ) × (z ≡ pos n) × (n ≤ m)
unfolding is_below exceeds
from_zero (pos n) m h k = (n, refl, ground arith)
from_zero (negsuc n) m h k = absurd (ground arith)

-- What passes Validate.
validate_config_of_none :
    (c : Config)
    → validate_config c ≡ none
    → (str_eq c.database_url "" ≡ false)
      × ((str_eq c.env "development" || str_eq c.env "production") ≡ true)
      × (is_below c.db_max_conns 1 ≡ false)
      × (is_below c.db_min_conns 0 ≡ false)
      × (exceeds c.db_min_conns c.db_max_conns ≡ false)
      × (is_positive c.dedup_ttl ≡ true)
      × ((str_eq c.resend_api_key "" || not (str_eq c.resend_from_email "")) ≡ true)
unfolding validate_config
validate_config_of_none c h = ground arith

load_of_loaded :
    (environment : String → String) {c : Config}
    → load environment ≡ loaded c
    → (validate_config c ≡ none) × (c ≡ read_config environment)
unfolding load
load_of_loaded environment h =
    ground (arith, Option-cases (validate_config (read_config environment)))

-- A configuration that Load returns has a database, one of the two environments, at least one
-- connection, no more idle connections than connections, a positive time to live for idempotency keys,
-- and an address to send from where it has a key for Resend.
pub load-Sound :
    (environment : String → String) {c : Config}
    → load environment ≡ loaded c
    → (str_eq c.database_url "" ≡ false)
      × ((str_eq c.env "development" || str_eq c.env "production") ≡ true)
      × ((max : ℕ) × (min : ℕ) × (c.db_max_conns ≡ pos (suc max))
          × (c.db_min_conns ≡ pos min)
          × (min ≤ suc max))
      × ((ttl : ℕ) × (c.dedup_ttl ≡ pos (suc ttl)))
      × ((str_eq c.resend_api_key "" || not (str_eq c.resend_from_email "")) ≡ true)
load-Sound environment {c} h =
    let v = validate_config_of_none c ((load_of_loaded environment h).0) in
    let (max, m) = from_one c.db_max_conns (v.2) in
    let (min, n, k) =
      from_zero c.db_min_conns (suc max) (v.3)
        (subst (λ z. exceeds c.db_min_conns z ≡ false) m (v.4)) in
    (v.0, v.1, (max, min, m, n, k), positive-pos c.dedup_ttl (v.5), v.6)

-- DEDUP_TTL_HOURS becomes its number of hours in nanoseconds where it is at most 2562047.
load_dedup_ttl :
    (environment : String → String) (hours : ℕ) {c : Config}
    → load environment ≡ loaded c
    → get_env_int environment "DEDUP_TTL_HOURS" (pos 24) ≡ pos hours
    → hours ≤ 2562047
    → c.dedup_ttl ≡ pos (hours * 3600000000000)
unfolding read_config
load_dedup_ttl environment hours {c} l e h =
    ap (λ x. x.dedup_ttl) ((load_of_loaded environment l).1)
    ∙ ap (λ z. z *ℤ hour) e
    ∙ *ℤ-pos hours 3600000000000 (omega (arith, h)) (omega arith)
    ∙ to_int64-small (hours * 3600000000000) (omega (arith, h))

-- From 2562048 hours on the number of nanoseconds does not fit: with 5124096 hours Load succeeds with
-- a time to live of less than an hour, where nothing else in the configuration is wrong.
load_dedup_ttl_wraps :
    (environment : String → String)
    → get_env_int environment "DEDUP_TTL_HOURS" (pos 24) ≡ pos 5124096
    → (read_config environment).dedup_ttl ≡ pos (5124096 * 3600000000000 - 2 ^ 64)
unfolding read_config ◌*ℤ◌ to_word to_int64
load_dedup_ttl_wraps environment e = ap (λ z. z *ℤ hour) e
