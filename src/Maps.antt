-- ===== src/Maps.antt =====
-- MapManager (src/control_plane/map_manager.go): the maps of the loaded program and the sets of
-- targets beside them. A method returns the manager after it and the error, `none` for nil.
pub mod Targets
pub mod Config
pub mod Cidr
pub mod Scan
pub mod Health
pub mod Backends
use shield_core.Prelude.{ℕ, ◌+◌, Bool, true, false, Option, none, some, List, [], ◌∷◌, Text, length}
use shield_core.Net.Lpm.{AddrError}
use shield_core.Kernel.{Kernel}

-- The `map[string]bool` sets are duplicate-free lists, newest first.
pub record MapManager (K : Kernel) : Type 0 where
  pub config_map : Option K.config.Store  -- nil until it is loaded
  pub cidr_blacklist : K.lpm.Store
  pub cidr_whitelist : K.lpm.Store
  pub ip_stats_map : K.ip_stats.Store
  pub backend_map : K.backend.Store
  pub stats_map : K.stats.Store
  pub vip_stats : Option K.vip_stats.Store
  pub ring_stats_map : Option K.ring_stats.Store
  pub active_countries : List Text
  pub active_asns : List Text
  pub whitelist_targets : List Text
  pub blacklist_targets : List Text

pub data MapError : Type 0 where
  not_loaded put_failed delete_failed lookup_failed iterate_failed : MapError
  bad_address : AddrError → MapError

-- A result beside Go's `error`.
pub data Outcome {ℓ} (A : Type ℓ) : Type ℓ where
  ok : A → Outcome A
  err : MapError → Outcome A
