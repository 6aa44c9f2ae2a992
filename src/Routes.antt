-- ===== src/Routes.antt =====
-- The requests of the administration API from the network on (src/control_plane/main.go: the
-- multiplexer of main with its middleware, handleStats, handleGeoIPHealth, handleGeoIPReload,
-- handleRouting).
pub mod Serve
pub mod Guard
pub mod Forward
pub mod Metrics
pub mod Health
use shield_core.Prelude.{
  ℕ, ◌+◌, Bool, true, false, ◌&&◌, ◌||◌, not, Option, none, some, List, [], ◌∷◌, ◌++◌, Text, bytes,
  text_eq, ◌==◌, if◌then◌else◌,
}
use shield_core.Strings.{to_lower}
use shield_core.Strings.Query.{query, get}
use shield_core.Net.Decimal.{parse_uint}
use shield_core.Kernel.{Kernel}
use shield_core.Wireguard.{Host}
use shield_core.Maps.{MapManager, MapError, Outcome, ok, err}
use shield_core.Maps.Health.{get_stats}
use shield_core.Maps.Backends.{RoutingEntry, get_routing_map}
use shield_core.Geoip.{GeoIpManager, Disk, reload}
use shield_core.Gate.{RateLimitMap, rate_limit, authorized}
use shield_core.Server.{Server, Event, sync_routing, write_event}
use shield_core.Api.{Request, Reply, refused, sync_unless, handle_blacklist, handle_whitelist}
use shield_core.Api.Policy.{handle_rules_policy}
use shield_core.Logs.{LogFile, handle_logs}

-- A request, with the query as it is read, where it comes from and when.
pub record Incoming : Type 0 where
  pub method : Text
  pub path : Text
  pub values : List (Text × Text)
  pub api_key : Text
  pub remote_addr : Text
  pub time : ℕ

-- What /api/geoip/health shows.
pub record GeoIpHealth : Type 0 where
  pub asn_db_loaded : Bool
  pub country_db_loaded : Bool
  pub last_reload_time : ℕ
  pub asn_db_size : ℕ
  pub country_db_size : ℕ
  pub asn_db_version : Text
  pub country_db_version : Text

-- An answer: the status of an error, or what the body says.
pub data Answer : Type 0 where
  error : ℕ → Answer
  rules : Reply → Answer
  stats : ℕ → ℕ → Answer
  geoip_health : GeoIpHealth → Answer
  reloaded : Answer
  routes : List RoutingEntry → Answer
  mapped : Text → Text → Text → Answer
  unmapped : Text → Answer
  logs : List Text → Answer
  health metrics files blank : Answer

unfoldable pub stats_or_error : Outcome (ℕ × ℕ) → Answer
stats_or_error (err e) = error 500
stats_or_error (ok (pass, drop)) = stats pass drop

unfoldable pub geoip_health_of : GeoIpManager → GeoIpHealth
geoip_health_of g = record {
  asn_db_loaded = g.asn.loaded;
  country_db_loaded = g.country.loaded;
  last_reload_time = g.last_reload_time;
  asn_db_size = g.asn.size;
  country_db_size = g.country.size;
  asn_db_version = g.asn.version;
  country_db_version = g.country.version;
}

-- The number of `vport`, 0 where there is none or it is no uint16.
unfoldable pub vport_of : List (Text × Text) → ℕ
vport_of values = elim (parse_uint 16 (get (bytes "vport") values)) [ none ↦ 0 | some p ↦ p ]

unfoldable pub protocol_name : List (Text × Text) → Text
protocol_name values =
    let protocol = to_lower (get (bytes "protocol") values) in
    if text_eq protocol [] then to_lower (get (bytes "proto") values) else protocol

-- 0 stands for any protocol; a port without a protocol is one of TCP.
unfoldable pub protocol_of : List (Text × Text) → ℕ
unfolding protocol_name vport_of
protocol_of values =
    let name = protocol_name values in
    if text_eq name (bytes "tcp")
    then 6
    else if text_eq name (bytes "udp")
    then 17
    else if vport_of values == 0
    then 0
    else 6

module _ (K : Kernel) where
  unfoldable pub handle_stats : Server K → Answer
  unfolding stats_or_error
  handle_stats s = elim s.map_mgr [ none ↦ error 503 | some m ↦ stats_or_error (get_stats K m) ]

  unfoldable pub handle_geoip_health : Server K → Answer
  unfolding geoip_health_of
  handle_geoip_health s = elim s.geoip_mgr [
    | none ↦ error 503
    | some g ↦ geoip_health (geoip_health_of g)
  ]

  unfoldable pub handle_geoip_reload : Disk → ℕ → Text → Server K → Server K × Answer
  handle_geoip_reload disk now method s =
      if not (text_eq method (bytes "POST")) then (s, error 405) else elim s.geoip_mgr [
        | none ↦ (s, error 503)
        | some g ↦ (record s { geoip_mgr = some (reload disk now g) }, reloaded)
      ]

  -- AddBackendVIP and RemoveBackendVIP, as handleRouting calls them: map_manager.go declares them
  -- with other parameters, so that what the calls do is left open. An address, a port, a protocol,
  -- a backend and a tunnel type give the manager, the host, and whether there was an error.
  pub record RoutingCalls : Type 0 where
    pub add_backend_vip :
        Text → ℕ → ℕ → Text → Text → MapManager K × Host → (MapManager K × Host) × Bool
    pub remove_backend_vip :
        Text → ℕ → ℕ → Text → Text → MapManager K × Host → (MapManager K × Host) × Bool

  -- The server and the host behind a call, its event and its answer.
  unfoldable pub routed :
      Text → Event → Answer → Server K → (MapManager K × Host) × Bool → (Server K × Host) × Answer
  routed sync event answer s ((m, h), true) = ((record s { map_mgr = some m }, h), error 500)
  routed sync event answer s ((m, h), false) =
      ((sync_unless K sync event (record s { map_mgr = some m }), h), answer)

  unfoldable pub show_routes :
      Server K × Host → List RoutingEntry × Option MapError → (Server K × Host) × Answer
  show_routes s (entries, some e) = (s, error 500)
  show_routes s (entries, none) = (s, routes entries)

  unfoldable pub post_routing :
      RoutingCalls
      → List (Text × Text)
      → MapManager K
      → Server K × Host
      → (Server K × Host) × Answer
  unfolding routed vport_of protocol_of
  post_routing calls values m (s, h) =
      let vip = get (bytes "vip") values in
      let backend = get (bytes "backend") values in
      let tunnel_type = get (bytes "type") values in
      let vport = vport_of values in
      let protocol = protocol_of values in
      let event = sync_routing (bytes "POST") vip vport protocol backend tunnel_type in
      if text_eq vip [] || text_eq backend []
      then ((s, h), error 400)
      else routed (get (bytes "sync") values) event (mapped vip backend tunnel_type) s
          (calls.add_backend_vip vip vport protocol backend tunnel_type (m, h))

  unfoldable pub delete_routing :
      RoutingCalls
      → List (Text × Text)
      → MapManager K
      → Server K × Host
      → (Server K × Host) × Answer
  unfolding routed vport_of protocol_of
  delete_routing calls values m (s, h) =
      let vip = get (bytes "vip") values in
      let backend = get (bytes "backend") values in
      let tunnel_type = get (bytes "type") values in
      let vport = vport_of values in
      let protocol = protocol_of values in
      let event = sync_routing (bytes "DELETE") vip vport protocol backend tunnel_type in
      if text_eq vip []
      then ((s, h), error 400)
      else routed (get (bytes "sync") values) event (unmapped vip) s
          (calls.remove_backend_vip vip vport protocol backend tunnel_type (m, h))

  unfoldable pub handle_routing :
      RoutingCalls → Text → List (Text × Text) → Server K × Host → (Server K × Host) × Answer
  unfolding show_routes post_routing delete_routing
  handle_routing calls method values (s, h) = elim s.map_mgr [
    | none ↦ ((s, h), error 503)
    | some m ↦
        if text_eq method (bytes "GET")
        then show_routes (s, h) (get_routing_map K m)
        else if text_eq method (bytes "POST")
        then post_routing calls values m (s, h)
        else if text_eq method (bytes "DELETE")
        then delete_routing calls values m (s, h)
        else ((s, h), error 405)
  ]
