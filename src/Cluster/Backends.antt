-- ===== src/Cluster/Backends.antt =====
-- The event of a backend as the node that receives it reads it (src/control_plane/main.go:
-- syncRoutingEvent on the one side, handleRouting on the other).
pub mod Spread
use shield_core.Prelude.{
  ℕ, ◌^◌, ◌<◌, ◌≡◌, ◌∙◌, refl, ap, All, Bool, true, false, ◌⊎◌, inl, inr, some, List, [], ◌∷◌, ◌++◌,
  append_assoc, Text, bytes, text_eq, ◌==◌, arith, Bool-cases, Option-cases,
}
use shield_core.Strings.{to_lower}
use shield_core.Strings.Query.{query, query_escape, is_unreserved, get}
use shield_core.Strings.Query.RoundTrip.{IsBytes, IsKey, pieces, query-pieces, query_escape_key}
use shield_core.Net.Decimal.{is_digit, print_u64, parse_uint}
use shield_core.Net.Decimal.Print.{IsNumber-lacks, print_u64-IsNumber, parse_uint-print}
use shield_core.Maps.Backends.Laws.{parse_uint_bound}
use shield_core.Routes.{
  vport_of, protocol_name, protocol_of, RoutingCalls, Answer, routed, post_routing, handle_routing,
}
use shield_core.Cluster.Events.{
  Outgoing, secure_node_url, protocol_text, sync_routing_url, sync_routing_event,
}
use shield_core.Cluster.Requests.{IsPathText, path-Lacks, node-IsPathText, send_to-All}
use shield_core.Cluster.Nodes.{IsNode, IsNodeUrl, path_of, path_of-secure}
use shield_core.Cluster.{Cluster}
use shield_core.Kernel.{Kernel}
use shield_core.Wireguard.{Host}
use shield_core.Maps.{MapManager}
use shield_core.Server.{Server, Event, sync_routing}
use shield_core.Api.Quiet.{sync_events, sync_unless_told}

unfoldable pub event_values : Text → ℕ → ℕ → Text → Text → List (Text × Text)
event_values vip vport protocol backend tunnel_type =
    (bytes "vip", vip)
    ∷ (bytes "vport", print_u64 vport)
    ∷ (bytes "protocol", protocol_text protocol)
    ∷ (bytes "backend", backend)
    ∷ (bytes "type", tunnel_type)
    ∷ (bytes "sync", bytes "true")
    ∷ []

number-IsKey : (n : ℕ) → IsKey (print_u64 n)
unfolding is_digit is_unreserved
number-IsKey n =
    IsNumber-lacks (λ c. is_unreserved c ≡ true) (λ c h. ground arith) (print_u64 n)
      (print_u64-IsNumber n)

protocol_text-IsKey : (protocol : ℕ) → IsKey (protocol_text protocol)
unfolding protocol_text is_unreserved
protocol_text-IsKey protocol = elim (Bool-cases (protocol == 6)) [
  | inl y ↦ rw y (ground arith)
  | inr n ↦ elim (Bool-cases (protocol == 17)) [
    | inl y ↦ rw (n, y) (ground arith)
    | inr k ↦ rw (n, k) (ground arith)
  ]
]

pub sync_routing_url-pieces :
    (vip : Text) (vport protocol : ℕ) (backend tunnel_type node : Text)
    → sync_routing_url vip vport protocol backend tunnel_type node
      ≡ (secure_node_url node ++ (bytes "/api/" ++ bytes "routing"))
        ++ b'?' ∷ pieces (event_values vip vport protocol backend tunnel_type)
unfolding sync_routing_url event_values
sync_routing_url-pieces vip vport protocol backend tunnel_type node =
    rw
      (
        append_assoc (secure_node_url node) (bytes "/api/routing") _,
        query_escape_key (print_u64 vport) (number-IsKey vport),
        query_escape_key (protocol_text protocol) (protocol_text-IsKey protocol),
      )
      (unfold query_escape in refl)

protocol_text-IsBytes : (protocol : ℕ) → IsBytes (protocol_text protocol)
unfolding protocol_text
protocol_text-IsBytes protocol = elim (Bool-cases (protocol == 6)) [
  | inl y ↦ rw y (omega arith)
  | inr n ↦ elim (Bool-cases (protocol == 17)) [
    | inl y ↦ rw (n, y) (omega arith)
    | inr k ↦ rw (n, k) (omega arith)
  ]
]

number-IsBytes : (n : ℕ) → IsBytes (print_u64 n)
unfolding is_digit
number-IsBytes n =
    IsNumber-lacks (λ c. c < 256) (λ c h. ground arith) (print_u64 n) (print_u64-IsNumber n)

pub query-sync_routing_url :
    (vip : Text) (vport protocol : ℕ) (backend tunnel_type node : Text)
    → IsPathText node
    → IsBytes vip
    → IsBytes backend
    → IsBytes tunnel_type
    → query (sync_routing_url vip vport protocol backend tunnel_type node)
      ≡ event_values vip vport protocol backend tunnel_type
unfolding event_values is_unreserved
query-sync_routing_url vip vport protocol backend tunnel_type node (h, g) v b t =
    let base = secure_node_url node ++ (bytes "/api/" ++ bytes "routing") in
    let rest : List (Text × Text) =
      (bytes "vport", print_u64 vport)
      ∷ (bytes "protocol", protocol_text protocol)
      ∷ (bytes "backend", backend)
      ∷ (bytes "type", tunnel_type)
      ∷ (bytes "sync", bytes "true")
      ∷ [] in
    rw (sync_routing_url-pieces vip vport protocol backend tunnel_type node) (
      query-pieces base (bytes "vip", vip) rest
        (path-Lacks b'?' node (bytes "routing") (ground arith) (ground arith) h (ground arith))
        (path-Lacks b'#' node (bytes "routing") (ground arith) (ground arith) g (ground arith))
        (
          (ground arith, v),
          (
            (ground arith, number-IsBytes vport),
            (
              (ground arith, protocol_text-IsBytes protocol),
              ((ground arith, b), ((ground arith, t), ((ground arith, omega arith), tt))),
            ),
          ),
        ))

pub vport_bound : (values : List (Text × Text)) → vport_of values < 2 ^ 16
unfolding vport_of
vport_bound values = elim (Option-cases (parse_uint 16 (get (bytes "vport") values))) [
  | inl n ↦ ground (arith, n)
  | inr (p, e) ↦ ground (arith, e, parse_uint_bound 16 (get (bytes "vport") values) p e)
]

-- The protocols that handleRouting knows: any stands only where there is no port.
pub protocol_cases :
    (values : List (Text × Text))
    → (protocol_of values ≡ 6)
      ⊎ (protocol_of values ≡ 17)
      ⊎ ((protocol_of values ≡ 0) × (vport_of values ≡ 0))
unfolding protocol_of
protocol_cases values = ground arith

vport_of_read :
    (values : List (Text × Text)) (p : ℕ)
    → parse_uint 16 (get (bytes "vport") values) ≡ some p
    → vport_of values ≡ p
unfolding vport_of
vport_of_read values p h = ground (arith, h)

pub vport_of-event_values :
    (vip : Text) (vport protocol : ℕ) (backend tunnel_type : Text)
    → vport < 2 ^ 16
    → vport_of (event_values vip vport protocol backend tunnel_type) ≡ vport
unfolding event_values get text_eq
vport_of-event_values vip vport protocol backend tunnel_type h =
    vport_of_read (event_values vip vport protocol backend tunnel_type) vport
      (parse_uint-print 16 vport h (omega (arith, h)))

pub protocol_of-event_values :
    (vip : Text) (vport protocol : ℕ) (backend tunnel_type : Text)
    → vport < 2 ^ 16
    → (protocol ≡ 6) ⊎ (protocol ≡ 17) ⊎ ((protocol ≡ 0) × (vport ≡ 0))
    → protocol_of (event_values vip vport protocol backend tunnel_type) ≡ protocol
unfolding protocol_of protocol_name protocol_text event_values get text_eq to_lower parse_uint
    print_u64
protocol_of-event_values vip vport protocol backend tunnel_type h (inl e) = rw e refl
protocol_of-event_values vip vport protocol backend tunnel_type h (inr (inl e)) = rw e refl
protocol_of-event_values vip vport protocol backend tunnel_type h (inr (inr (e, z))) =
    rw (e, z) refl
