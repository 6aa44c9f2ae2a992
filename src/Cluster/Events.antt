-- ===== src/Cluster/Events.antt =====
-- The requests to the other nodes (src/control_plane/main.go: syncIPEvent, syncGeoRuleEvent,
-- syncGeoPolicyEvent, syncRoutingEvent). The answers are only logged.
use shield_core.Prelude.{
  ℕ, Option, none, some, List, [], ◌∷◌, ◌++◌, Text, bytes, has_prefix, ◌==◌, if◌then◌else◌,
}
use shield_core.Strings.Query.{query_escape}
use shield_core.Net.Decimal.{print_u64}
use shield_core.Cluster.{Cluster, replace_first, is_local_address}

-- A request with the header X-API-Key.
pub record Outgoing : Type 0 where
  pub method : Text
  pub url : Text
  pub key : Text

unfoldable pub secure_node_url : Text → Text
unfolding replace_first
secure_node_url node_url =
    let replaced = replace_first (bytes "http://") (bytes "https://") node_url in
    if has_prefix replaced (bytes "https://") then replaced else bytes "https://" ++ replaced

unfoldable pub sync_ip_url : Text → Text → Text → Text
unfolding secure_node_url
sync_ip_url endpoint ip node =
    secure_node_url node
    ++ (bytes "/api/"
        ++ (endpoint ++ (bytes "?target=" ++ (query_escape ip ++ bytes "&sync=true"))))

-- The URLs of the GeoIP events: the node and the value stand in them as they are.
unfoldable pub sync_geo_rule_url : Text → Text → Text → Text
sync_geo_rule_url rule_type value node =
    node
    ++ (bytes "/api/rules/"
        ++ (rule_type
            ++ (bytes "?" ++ (rule_type ++ (bytes "=" ++ (value ++ bytes "&sync=true"))))))

unfoldable pub sync_geo_policy_url : Text → Text → Text
sync_geo_policy_url action node =
    node ++ (bytes "/api/rules/policy?action=" ++ (action ++ bytes "&sync=true"))

unfoldable pub protocol_text : ℕ → Text
protocol_text protocol =
    if protocol == 6 then bytes "tcp" else if protocol == 17 then bytes "udp" else bytes "any"

unfoldable pub sync_routing_url : Text → ℕ → ℕ → Text → Text → Text → Text
unfolding secure_node_url protocol_text
sync_routing_url vip vport protocol backend tunnel_type node =
    let behind = bytes "&type=" ++ (query_escape tunnel_type ++ bytes "&sync=true") in
    let rest = bytes "&backend=" ++ (query_escape backend ++ behind) in
    let ports =
      bytes "&vport="
      ++ (print_u64 vport ++ (bytes "&protocol=" ++ (protocol_text protocol ++ rest))) in
    secure_node_url node ++ (bytes "/api/routing?vip=" ++ (query_escape vip ++ ports))

-- `http.NewRequest`, which parses the URL: there is no request on an error.
unfoldable pub if_parsed : Option Text → Outgoing → List Outgoing
if_parsed none r = []
if_parsed (some host) r = r ∷ []

unfoldable pub new_request : Cluster → Text → Text → List Outgoing
unfolding if_parsed
new_request c method url =
    if_parsed (c.url_host url) (record { method = method; url = url; key = c.api_key })

-- The loop over the nodes, with the URL that each is sent.
unfoldable pub send_to : Cluster → Text → (Text → Text) → List Text → List Outgoing
unfolding new_request
send_to c method url_of [] = []
send_to c method url_of (node ∷ nodes) =
    let rest = send_to c method url_of nodes in
    if is_local_address c node then rest else new_request c method (url_of node) ++ rest

unfoldable pub sync_ip_event : Cluster → Text → Text → Text → List Outgoing
unfolding send_to sync_ip_url
sync_ip_event c endpoint method ip = send_to c method (sync_ip_url endpoint ip) c.nodes

unfoldable pub sync_geo_rule_event : Cluster → Text → Text → Text → List Outgoing
unfolding send_to sync_geo_rule_url
sync_geo_rule_event c method rule_type value =
    send_to c method (sync_geo_rule_url rule_type value) c.nodes

unfoldable pub sync_geo_policy_event : Cluster → Text → List Outgoing
unfolding send_to sync_geo_policy_url
sync_geo_policy_event c action = send_to c (bytes "POST") (sync_geo_policy_url action) c.nodes

unfoldable pub sync_routing_event : Cluster → Text → Text → ℕ → ℕ → Text → Text → List Outgoing
unfolding send_to sync_routing_url
sync_routing_event c method vip vport protocol backend tunnel_type =
    send_to c method (sync_routing_url vip vport protocol backend tunnel_type) c.nodes
