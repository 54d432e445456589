-- ===== src/Tests/Configs.antt =====
-- A configuration that Load accepts.
use notifyx.Prelude.{
  ℕ, suc, ◌≤◌, String, ◌≡◌, refl, true, false, not, ◌||◌, str_eq, pos, is_below, is_positive, ◌*ℤ◌,
  if◌then◌else◌,
}
use notifyx.Config.{load, read_config, validate_config}
use notifyx.Config.Loaded.{load-Sound}

abbrev pub environment : String → String
environment name = if str_eq name "DATABASE_URL" then "postgres://db" else ""

load-Sound_example :
    (str_eq (read_config environment).database_url "" ≡ false)
    × ((str_eq (read_config environment).env "development"
          || str_eq (read_config environment).env "production")
        ≡ true)
    × ((max : ℕ) × (min : ℕ) × ((read_config environment).db_max_conns ≡ pos (suc max))
        × ((read_config environment).db_min_conns ≡ pos min)
        × (min ≤ suc max))
    × ((ttl : ℕ) × ((read_config environment).dedup_ttl ≡ pos (suc ttl)))
    × ((str_eq (read_config environment).resend_api_key ""
          || not (str_eq (read_config environment).resend_from_email ""))
        ≡ true)
unfolding load read_config validate_config is_below is_positive ◌*ℤ◌
load-Sound_example = load-Sound environment {c = read_config environment} refl
