-- ===== src/Tests/Settings.antt =====
-- The configuration map on a small table (src/control_plane/map_manager.go).
use shield_core.Prelude.{none, some, [], ◌∷◌}
use shield_core.Kernel.Table.{small_kernel}
use shield_core.Maps.{MapManager}

abbrev loaded : MapManager small_kernel
loaded = record {
  config_map = some ((0, 5000) ∷ (1, 10485760) ∷ []);
  cidr_blacklist = [];
  cidr_whitelist = [];
  ip_stats_map = [];
  backend_map = [];
  stats_map = [];
  vip_stats = none;
  ring_stats_map = none;
  active_countries = [];
  active_asns = [];
  whitelist_targets = [];
  blacklist_targets = [];
}
