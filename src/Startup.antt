-- ===== src/Startup.antt =====
-- Start-up of the daemon (src/control_plane/main.go, main, up to the engine;
-- src/control_plane/map_manager.go: NewMapManager).
pub mod Loader
pub mod Attach
pub mod Certificate
pub mod Privileges
pub mod Degraded
pub mod Restored
pub mod Daemon
use shield_core.Prelude.{
  ℕ, ◌*◌, Bool, true, false, Option, none, some, List, [], ◌∷◌, Text, bytes, text_eq, if◌then◌else◌,
}
use shield_core.Kernel.{Kernel}
use shield_core.Maps.{MapManager}
use shield_core.Maps.Config.{update_rate_limits}
use shield_core.Geoip.{GeoIpManager, Disk, init_geoip_manager}
use shield_core.Gate.{Config}
use shield_core.Cluster.{Cluster, load_cluster_nodes}
use shield_core.Server.{Server, StateFile, restore_rules_state}
use shield_core.Server.Reputation.{ReputationItem, load_items}
use shield_core.Startup.Loader.{Mode, Loaded, attached_in, failed}

-- SHIELD_IFACE, or the main interface.
unfoldable pub iface_of : Text → Text
iface_of value = if text_eq value [] then bytes "eth0" else value

module _ (K : Kernel) where
  -- The manager of the maps that the program has, with no target.
  unfoldable pub new_map_manager : MapManager K → MapManager K
  new_map_manager maps = record maps {
    active_countries = [];
    active_asns = [];
    whitelist_targets = [];
    blacklist_targets = [];
  }

-- What the daemon finds at its start: the maps that loading opened, the list of reputation, the
-- nodes, the state file, and the files of the databases.
pub record Found (K : Kernel) : Type 0 where
  pub maps : MapManager K
  pub reputation : Option (List ReputationItem)
  pub nodes : Option (List Text)
  pub state_file : StateFile
  pub can_save : Bool
  pub disk : Disk

module _ (K : Kernel) (parse_ipv6 : Text → Option ℕ) (now : ℕ) where
  -- Nothing is done where conf/reputation.json cannot be read.
  unfoldable pub load_reputation : Option (List ReputationItem) → MapManager K → MapManager K
  load_reputation none m = m
  load_reputation (some items) m = (load_items K parse_ipv6 now items m).0

  -- The manager before the rules are restored. The error of the limits is only logged.
  unfoldable pub first_manager : Found K → MapManager K
  unfolding new_map_manager load_reputation
  first_manager found =
      load_reputation found.reputation
        (update_rate_limits K (new_map_manager K found.maps) 5000 (10 * 1024 * 1024)).0

  unfoldable pub server_with : Option (MapManager K) → Bool → GeoIpManager → Found K → Server K
  server_with m persistent g found = record {
    map_mgr = m;
    geoip_mgr = some g;
    persistent = persistent;
    state_file = found.state_file;
    can_save = found.can_save;
    events = [];
  }

  -- The server and the nodes when the API starts; without the program there is no manager, and
  -- neither the nodes nor the rules are loaded.
  unfoldable pub start : Config → Loaded → Found K → Cluster → Server K × Cluster
  unfolding first_manager server_with
  start config (failed why) found c =
      let g = init_geoip_manager found.disk now config.asn_db_path config.country_db_path in
      (
        server_with none false g found,
        record c { listen_addr = config.listen; api_key = config.key },
      )
  start config (attached_in mode) found c =
      let g = init_geoip_manager found.disk now config.asn_db_path config.country_db_path in
      let s = server_with (some (first_manager found)) true g found in
      (
        restore_rules_state K parse_ipv6 now s,
        load_cluster_nodes found.nodes
            (record c { listen_addr = config.listen; api_key = config.key }),
      )
