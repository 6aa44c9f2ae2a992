-- ===== src/Maps/Config.antt =====
-- The configuration map (src/control_plane/map_manager.go: SetGeoIPPolicy, GetGeoIPPolicy,
-- updateWhitelistCount and its callers, UpdateRateLimits).
pub mod Laws
use shield_core.Prelude.{ℕ, ◌+◌, ◌%◌, ◌^◌, Option, none, some, List, Text, length}
use shield_core.Kernel.{Kernel, put_or_keep}
use shield_core.Maps.{MapManager, MapError, not_loaded, put_failed, Outcome, ok, err}
use shield_core.Maps.Targets.{insert, remove}

abbrev pub pps_key : ℕ
pps_key = 0

abbrev pub bps_key : ℕ
bps_key = 1

abbrev pub policy_key : ℕ
policy_key = 2

abbrev pub count_key : ℕ
count_key = 3

module _ (K : Kernel) where
  -- One `ConfigMap.Put`, on a map that is there.
  unfoldable pub config_put : MapManager K → K.config.Store → ℕ → ℕ → MapManager K × Option MapError
  config_put m s key val = elim (K.config.put key val s) [
    | none ↦ (m, some put_failed)
    | some t ↦ (record m { config_map = some t }, none)
  ]

  unfoldable pub set_geoip_policy : MapManager K → ℕ → MapManager K × Option MapError
  unfolding config_put
  set_geoip_policy m policy = elim m.config_map [
    | none ↦ (m, some not_loaded)
    | some s ↦ config_put m s policy_key policy
  ]

  -- A key that cannot be read counts as the blacklist policy.
  unfoldable pub get_geoip_policy : MapManager K → Outcome ℕ
  get_geoip_policy m = elim m.config_map [
    | none ↦ err not_loaded
    | some s ↦ elim (K.config.lookup policy_key s) [ none ↦ ok 0 | some val ↦ ok val ]
  ]

  -- The error of `Put` is dropped.
  unfoldable pub update_whitelist_count : MapManager K → MapManager K
  unfolding put_or_keep
  update_whitelist_count m = elim m.config_map [
    | none ↦ m
    | some s ↦ record m {
      config_map = some (
          put_or_keep K.config count_key
            ((length m.active_countries + length m.active_asns) % 2 ^ 64) s);
    }
  ]

  unfoldable pub add_active_country : MapManager K → Text → MapManager K
  unfolding insert update_whitelist_count
  add_active_country m code =
      update_whitelist_count (record m { active_countries = insert code m.active_countries })

  unfoldable pub remove_active_country : MapManager K → Text → MapManager K
  unfolding remove update_whitelist_count
  remove_active_country m code =
      update_whitelist_count (record m { active_countries = remove code m.active_countries })

  unfoldable pub get_active_countries : MapManager K → List Text
  get_active_countries m = m.active_countries

  unfoldable pub add_active_asn : MapManager K → Text → MapManager K
  unfolding insert update_whitelist_count
  add_active_asn m asn =
      update_whitelist_count (record m { active_asns = insert asn m.active_asns })

  unfoldable pub remove_active_asn : MapManager K → Text → MapManager K
  unfolding remove update_whitelist_count
  remove_active_asn m asn =
      update_whitelist_count (record m { active_asns = remove asn m.active_asns })

  unfoldable pub get_active_asns : MapManager K → List Text
  get_active_asns m = m.active_asns

  -- The second `Put` is made only if the first succeeds, and keeps what the first wrote.
  unfoldable pub bps_after_pps : ℕ → MapManager K × Option MapError → MapManager K × Option MapError
  unfolding config_put
  bps_after_pps bps (m, some e) = (m, some e)
  bps_after_pps bps (m, none) = elim m.config_map [
    | none ↦ (m, some not_loaded)
    | some s ↦ config_put m s bps_key bps
  ]

  unfoldable pub update_rate_limits : MapManager K → ℕ → ℕ → MapManager K × Option MapError
  unfolding bps_after_pps config_put
  update_rate_limits m pps bps = elim m.config_map [
    | none ↦ (m, some not_loaded)
    | some s ↦ bps_after_pps bps (config_put m s pps_key pps)
  ]
