-- ===== src/Tests/Cluster.antt =====
-- Events between nodes, and requests from the network on (src/control_plane/main.go).
use shield_core.Prelude.{
  ◌⊎◌, ◌↔◌, ℕ, ◌++◌, inl, inr, ◌≡◌, refl, true, false, Option, none, some, List, [], ◌∷◌, Text,
  bytes, text_eq, contains, has_prefix, All, arith,
}
use shield_core.Strings.{to_lower}
use shield_core.Net.Decimal.{parse_uint}
use shield_core.Strings.Split.{lacking_contains}
use shield_core.Strings.Query.{query_escape, get, cut}
use shield_core.Strings.Query.RoundTrip.{IsBytes}
use shield_core.Kernel.Table.{small_kernel}
use shield_core.Geoip.{Disk}
use shield_core.Logs.{LogFile}
use shield_core.Api.Quiet.{sync_events}
use shield_core.Server.{sync_routing}
use shield_core.Routes.{Incoming, RoutingCalls, vport_of, protocol_of, handle_routing}
use shield_core.Routes.Serve.{World, serve_all}
use shield_core.Routes.Guard.{IsSame, serve_all_keyless}
use shield_core.Routes.Forward.{serve_all-IsQuiet}
use shield_core.Cluster.{Cluster, is_local_address, split_host_port}
use shield_core.Cluster.Local.{IsUnbracketed}
use shield_core.Cluster.Local.Own.{IsOwn, is_local_address_exact}
use shield_core.Cluster.Events.{sync_ip_event, sync_routing_event}
use shield_core.Cluster.Nodes.{IsAuthority, IsNodeUrl, IsSchemeUrl}
use shield_core.Cluster.Requests.{IsPathText, IsEventTo, sync_ip_event_lem}
use shield_core.Cluster.Backends.Spread.{AreBytes, ReadsAs, routing_event_delivered}
use shield_core.Tests.Sweeps.{no_ipv6}
use shield_core.Tests.Rules.{loaded, running}

-- A reader of URLs that knows one node.
abbrev known_host : Text → Option Text
known_host url = some (bytes "10.0.0.2:9090")

abbrev pub cluster : Cluster
cluster = record {
  nodes = bytes "http://10.0.0.2:9090" ∷ bytes "10.0.0.3" ∷ [];
  listen_addr = bytes ":9090";
  api_key = bytes "k";
  url_host = known_host;
  interface_addrs = some (bytes "10.0.0.1" ∷ []);
  hostname = none;
}

pub path_text :
    (t : Text) → contains t (bytes "?") ≡ false → contains t (bytes "#") ≡ false → IsPathText t
path_text t h g = (lacking_contains b'?' t h, lacking_contains b'#' t g)

authority :
    (t : Text)
    → contains t (bytes "/") ≡ false
    → contains t (bytes "?") ≡ false
    → contains t (bytes "#") ≡ false
    → IsAuthority t
authority t l h g =
    (lacking_contains b'/' t l, lacking_contains b'?' t h, lacking_contains b'#' t g)

pub cluster_nodes : All IsNodeUrl cluster.nodes
unfolding contains has_prefix
cluster_nodes = (
  (bytes "10.0.0.2:9090", (authority (bytes "10.0.0.2:9090") refl refl refl, inr (inl refl))),
  ((bytes "10.0.0.3", (authority (bytes "10.0.0.3") refl refl refl, inl refl)), tt),
)

abbrev pub schemes : Cluster
schemes = record cluster { nodes = bytes "http://10.0.0.2:9090" ∷ bytes "https://10.0.0.3" ∷ [] }

pub scheme_nodes : All IsSchemeUrl schemes.nodes
unfolding contains has_prefix
scheme_nodes = (
  (bytes "10.0.0.2:9090", (authority (bytes "10.0.0.2:9090") refl refl refl, inl refl)),
  ((bytes "10.0.0.3", (authority (bytes "10.0.0.3") refl refl refl, inr refl)), tt),
)

unbracketed :
    (t : Text) → contains t (bytes "[") ≡ false → contains t (bytes "]") ≡ false → IsUnbracketed t
unbracketed t h g = (lacking_contains b'[' t h, lacking_contains b']' t g)

abbrev pub target : Text
target = bytes "9.9.9.9/8"

pub target-IsBytes : IsBytes target
target-IsBytes = omega arith

sync_ip_event_example :
    All
      (IsEventTo cluster cluster.nodes (bytes "blacklist") (bytes "POST") target)
      (sync_ip_event cluster (bytes "blacklist") (bytes "POST") target)
unfolding contains has_prefix
sync_ip_event_example =
    sync_ip_event_lem cluster (bytes "blacklist") (bytes "POST") target
      (path_text (bytes "blacklist") refl refl) cluster_nodes target-IsBytes

slash_escaped : query_escape target ≡ bytes "9.9.9.9%2F8"
unfolding query_escape
slash_escaped = refl

ipv6_taken_apart : split_host_port (bytes "[::1]:9090") ≡ some (bytes "::1", bytes "9090")
unfolding split_host_port contains has_prefix text_eq cut
ipv6_taken_apart = refl

is_local_address_example :
    (is_local_address cluster (bytes "http://10.0.0.2:9090") ≡ true)
    ↔ (((bytes "9090" ≡ []) ⊎ (bytes "9090" ≡ bytes "9090")) × IsOwn cluster (bytes "10.0.0.2"))
unfolding contains has_prefix
is_local_address_example =
    is_local_address_exact cluster (bytes "http://10.0.0.2:9090") (bytes "10.0.0.2") (bytes "9090")
      [] (bytes "9090") refl refl (unbracketed (bytes "10.0.0.2") refl refl)
      (lacking_contains b':' (bytes "9090") refl) (unbracketed (bytes "9090") refl refl) (tt, tt)
      (lacking_contains b':' (bytes "9090") refl) (unbracketed (bytes "9090") refl refl)

abbrev pub calls : RoutingCalls small_kernel
calls = record {
  add_backend_vip = λ vip vport protocol backend tunnel s. (s, false);
  remove_backend_vip = λ vip vport protocol backend tunnel s. (s, false);
}

abbrev pub disk : Disk
disk = record { asn_files = λ path. none; country_files = λ path. none }

abbrev pub world : World small_kernel
world = record {
  server = running;
  host = record { commands = []; wg_conf = none; can_write = true };
  rates = [];
}

abbrev pub log : LogFile
log = LogFile.absent

abbrev pub incoming : Text → Text → List (Text × Text) → Incoming
incoming path api_key values = record {
  method = bytes "POST";
  path = path;
  values = values;
  api_key = api_key;
  remote_addr = bytes "10.0.0.1:5";
  time = 7000;
}

abbrev forwarded : List Incoming
forwarded =
    incoming (bytes "/api/rules/policy") (bytes "k")
      ((bytes "action", bytes "drop") ∷ (bytes "sync", bytes "true") ∷ [])
    ∷ incoming (bytes "/api/routing") (bytes "k") (
        (bytes "vip", bytes "1.1.1.1")
        ∷ (bytes "backend", bytes "2.2.2.2")
        ∷ (bytes "sync", bytes "true")
        ∷ [])
    ∷ []

serve_all-IsQuiet_example :
    sync_events
      (serve_all small_kernel no_ipv6 calls disk log (bytes "k") forwarded world).server.events
    ≡ sync_events world.server.events
unfolding get text_eq
serve_all-IsQuiet_example =
    serve_all-IsQuiet small_kernel no_ipv6 calls disk log (bytes "k") forwarded world
      (refl, (refl, tt))

abbrev keyless : List Incoming
keyless =
    incoming (bytes "/api/blacklist") (bytes "guess") ((bytes "target", target) ∷ [])
    ∷ incoming (bytes "/metrics") [] []
    ∷ []

serve_all_keyless_example :
    IsSame small_kernel no_ipv6 calls disk log
      (bytes "k")
      world
      (serve_all small_kernel no_ipv6 calls disk log (bytes "k") keyless world)
unfolding text_eq
serve_all_keyless_example =
    serve_all_keyless small_kernel no_ipv6 calls disk log (bytes "k") keyless world
      (refl, (refl, tt))

udp_port :
    (vport_of ((bytes "vport", bytes "53") ∷ []) ≡ 53)
    × (protocol_of ((bytes "proto", bytes "UDP") ∷ []) ≡ 17)
    × (protocol_of ((bytes "vport", bytes "53") ∷ []) ≡ 6)
unfolding protocol_of get text_eq parse_uint to_lower
udp_port = (refl, refl, refl)

abbrev routed_values : List (Text × Text)
routed_values =
    (bytes "vip", bytes "1.1.1.1")
    ∷ (bytes "backend", bytes "2.2.2.2:80")
    ∷ (bytes "vport", bytes "443")
    ∷ (bytes "type", bytes "wireguard")
    ∷ []

routed_values-AreBytes : AreBytes routed_values
unfolding get text_eq
routed_values-AreBytes = (omega arith, omega arith, omega arith)

routing_event_delivered_example :
    (method vip : Text) × (vport : ℕ) × (protocol : ℕ) × (backend : Text) × (tunnel_type : Text)
    × (sync_events
          (handle_routing small_kernel calls
            (bytes "POST")
            routed_values
            (running, world.host)).0.0.events
        ≡ sync_events running.events
          ++ sync_routing method vip vport protocol backend tunnel_type ∷ [])
    × All
        (ReadsAs routed_values)
        (sync_routing_event cluster method vip vport protocol backend tunnel_type)
unfolding get text_eq
routing_event_delivered_example =
    routing_event_delivered small_kernel calls cluster routed_values running world.host loaded refl
      refl refl refl refl routed_values-AreBytes cluster_nodes
