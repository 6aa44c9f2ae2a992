-- ===== src/Cluster/Backends/Spread.antt =====
-- A backend from the request of a client to the other nodes (src/control_plane/main.go:
-- handleRouting, syncRoutingEvent).
use shield_core.Prelude.{
  ℕ, ◌≡◌, ◌∙◌, refl, ap, All, Bool, true, false, some, List, [], ◌∷◌, ◌++◌, Text, bytes, text_eq,
  arith,
}
use shield_core.Strings.Query.{query, get}
use shield_core.Strings.Query.RoundTrip.{IsBytes}
use shield_core.Routes.{
  vport_of, protocol_of, RoutingCalls, Answer, routed, post_routing, handle_routing,
}
use shield_core.Cluster.Events.{Outgoing, sync_routing_url, sync_routing_event}
use shield_core.Cluster.Requests.{node-IsPathText, send_to-All}
use shield_core.Cluster.Nodes.{IsNode, IsNodeUrl, path_of, path_of-secure}
use shield_core.Cluster.{Cluster}
use shield_core.Kernel.{Kernel}
use shield_core.Wireguard.{Host}
use shield_core.Maps.{MapManager}
use shield_core.Server.{Server, Event, sync_routing}
use shield_core.Api.Quiet.{sync_events, sync_unless_told}
use shield_core.Cluster.Backends.{
  event_values, vport_bound, protocol_cases, vport_of-event_values, protocol_of-event_values,
  sync_routing_url-pieces, query-sync_routing_url,
}

-- What a node that a request reaches reads of the path and the query of its URL: those of the
-- values of another request, and that the change is not to be sent on.
abbrev pub ReadsAs : List (Text × Text) → Outgoing → Type 0
ReadsAs values o =
    let read = query o.url in
    (o.method ≡ bytes "POST")
    × (path_of o.url ≡ bytes "/api/routing")
    × (get (bytes "vip") read ≡ get (bytes "vip") values)
    × (vport_of read ≡ vport_of values)
    × (protocol_of read ≡ protocol_of values)
    × (get (bytes "backend") read ≡ get (bytes "backend") values)
    × (get (bytes "type") read ≡ get (bytes "type") values)
    × (get (bytes "sync") read ≡ bytes "true")

-- The values that the event carries are bytes.
abbrev pub AreBytes : List (Text × Text) → Type 0
AreBytes values =
    IsBytes (get (bytes "vip") values)
    × IsBytes (get (bytes "backend") values)
    × IsBytes (get (bytes "type") values)

-- The URL that is made of the values of a request, for a node.
abbrev url_of : List (Text × Text) → Text → Text
url_of values =
    sync_routing_url (get (bytes "vip") values) (vport_of values) (protocol_of values)
      (get (bytes "backend") values) (get (bytes "type") values)

path_of-sync_routing_url :
    (values : List (Text × Text)) (node a : Text)
    → IsNode node a
    → path_of (url_of values node) ≡ bytes "/api/routing"
path_of-sync_routing_url values node a n =
    rw
      (sync_routing_url-pieces (get (bytes "vip") values) (vport_of values) (protocol_of values)
        (get (bytes "backend") values) (get (bytes "type") values) node)
      (path_of-secure node a (bytes "api/routing") _ n (ground arith) (ground arith))

node-ReadsAs :
    (api_key : Text) (values : List (Text × Text)) (node a : Text)
    → IsNode node a
    → AreBytes values
    → ReadsAs values (record { method = bytes "POST"; url = url_of values node; key = api_key })
unfolding get text_eq event_values
node-ReadsAs api_key values node a n (v, b, t) =
    let vip = get (bytes "vip") values in
    let backend = get (bytes "backend") values in
    let tunnel_type = get (bytes "type") values in
    let vport = vport_of values in
    let protocol = protocol_of values in
    let plain = node-IsPathText node a n in
    let read = query-sync_routing_url vip vport protocol backend tunnel_type node plain v b t in
    let port = vport_of-event_values vip vport protocol backend tunnel_type (vport_bound values) in
    let kind =
      protocol_of-event_values vip vport protocol backend tunnel_type (vport_bound values)
        (protocol_cases values) in
    (
      refl,
      path_of-sync_routing_url values node a n,
      ap (get (bytes "vip")) read,
      ap vport_of read ∙ port,
      ap protocol_of read ∙ kind,
      ap (get (bytes "backend")) read,
      ap (get (bytes "type")) read,
      ap (get (bytes "sync")) read,
    )

nodes-ReadsAs :
    (api_key : Text) (values : List (Text × Text)) (nodes : List Text)
    → All IsNodeUrl nodes
    → AreBytes values
    → All
        (λ node.
          ReadsAs values
            (record { method = bytes "POST"; url = url_of values node; key = api_key }))
        nodes
nodes-ReadsAs api_key values [] n b = tt
nodes-ReadsAs api_key values (node ∷ nodes) ((a, n), ns) b =
    (node-ReadsAs api_key values node a n b, nodes-ReadsAs api_key values nodes ns b)

module _ (K : Kernel) (calls : RoutingCalls K) where
  -- The call that handleRouting makes, and whether it has failed.
  abbrev pub added : List (Text × Text) → MapManager K → Host → (MapManager K × Host) × Bool
  added values m h =
      calls.add_backend_vip (get (bytes "vip") values) (vport_of values) (protocol_of values)
        (get (bytes "backend") values) (get (bytes "type") values) (m, h)

  routed_told :
      (sync : Text) (e : Event) (answer : Answer) (s : Server K)
      (made : (MapManager K × Host) × Bool)
      → made.1 ≡ false
      → text_eq sync (bytes "true") ≡ false
      → sync_events (routed K sync e answer s made).0.0.events
        ≡ sync_events s.events ++ sync_events (e ∷ [])
  unfolding routed
  routed_told sync e answer s ((m, h), true) f g = absurd (ground (arith, f))
  routed_told sync e answer s ((m, h), false) f g =
      sync_unless_told K sync e (record s { map_mgr = some m }) g

  -- The request of a client to add a backend, where the call succeeds, makes one event, and every
  -- request of that event goes to /api/routing and reads, on the node that it reaches, as the same
  -- address, port, protocol, backend and tunnel type, and as one that is not to be sent on,
  -- whatever bytes the texts hold; where every node is a host, with a port or without, behind
  -- http://, https:// or no scheme.
  pub routing_event_delivered :
      (c : Cluster) (values : List (Text × Text)) (s : Server K) (h : Host) (m : MapManager K)
      → s.map_mgr ≡ some m
      → text_eq (get (bytes "vip") values) [] ≡ false
      → text_eq (get (bytes "backend") values) [] ≡ false
      → text_eq (get (bytes "sync") values) (bytes "true") ≡ false
      → (added values m h).1 ≡ false
      → AreBytes values
      → All IsNodeUrl c.nodes
      → (method vip : Text) × (vport : ℕ) × (protocol : ℕ) × (backend : Text) × (tunnel_type : Text)
        × (sync_events (handle_routing K calls (bytes "POST") values (s, h)).0.0.events
            ≡ sync_events s.events
              ++ sync_routing method vip vport protocol backend tunnel_type ∷ [])
        × All (ReadsAs values) (sync_routing_event c method vip vport protocol backend tunnel_type)
  unfolding handle_routing post_routing text_eq sync_routing_event
  routing_event_delivered c values s h m e v b f ok bytes_of nodes = (
    bytes "POST",
    get (bytes "vip") values,
    vport_of values,
    protocol_of values,
    get (bytes "backend") values,
    get (bytes "type") values,
    rw (e, v, b) (routed_told (get (bytes "sync") values) _ _ s (added values m h) ok f),
    send_to-All (ReadsAs values) c (bytes "POST") (url_of values) c.nodes
        (nodes-ReadsAs c.api_key values c.nodes nodes bytes_of),
  )
