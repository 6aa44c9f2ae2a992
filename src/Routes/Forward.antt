-- ===== src/Routes/Forward.antt =====
-- Events that reach another node end there (src/control_plane/main.go: the handlers' test of
-- `sync`, and syncIPEvent, which sets it).
use shield_core.Prelude.{
  ℕ, ◌≡◌, ◌∙◌, refl, Bool, true, false, ◌||◌, inl, inr, Option, none, some, List, [], ◌∷◌, Text,
  bytes, text_eq, All, arith, Bool-cases, Option-cases,
}
use shield_core.Strings.Query.{get}
use shield_core.Kernel.{Kernel}
use shield_core.Wireguard.{Host}
use shield_core.Maps.{MapManager, MapError}
use shield_core.Maps.Backends.{RoutingEntry, get_routing_map}
use shield_core.Geoip.{Disk}
use shield_core.Gate.{rate_limit}
use shield_core.Logs.{LogFile}
use shield_core.Server.{Server, Event}
use shield_core.Api.Quiet.{sync_events, IsQuiet, sync_unless-quiet, handle_rules_policy-IsQuiet}
use shield_core.Api.Quiet.Lists.{handle_blacklist-IsQuiet, handle_whitelist-IsQuiet}
use shield_core.Routes.{
  Incoming, Answer, RoutingCalls, routed, show_routes, post_routing, delete_routing, handle_routing,
  handle_geoip_reload,
}
use shield_core.Routes.Serve.{
  Route, blacklist, routing, stats, geoip_health, geoip_reload, whitelist, rules_policy, show_logs,
  Endpoint, guarded, show_metrics, show_health, static_files, endpoint_of, request_of, World,
  handle, authenticate, limit, at_endpoint, serve, serve_all,
}

-- A request that another node has sent on.
abbrev pub IsForwarded : List (Text × Text) → Type 0
IsForwarded values = text_eq (get (bytes "sync") values) (bytes "true") ≡ true

module _ (K : Kernel) where
  routed-IsQuiet :
      (sync : Text) (event : Event) (answer : Answer) (s : Server K)
      (made : (MapManager K × Host) × Bool)
      → text_eq sync (bytes "true") ≡ true
      → IsQuiet K s (routed K sync event answer s made).0.0
  unfolding routed
  routed-IsQuiet sync event answer s ((m, h), true) g = refl
  routed-IsQuiet sync event answer s ((m, h), false) g =
      rw (sync_unless-quiet K sync event _ g) refl

  show_routes-IsQuiet :
      (s : Server K × Host) (l : List RoutingEntry × Option MapError)
      → IsQuiet K s.0 (show_routes K s l).0.0
  unfolding show_routes
  show_routes-IsQuiet s (entries, some e) = refl
  show_routes-IsQuiet s (entries, none) = refl

  post_routing-IsQuiet :
      (calls : RoutingCalls K) (values : List (Text × Text)) (m : MapManager K)
      (s : Server K × Host)
      → IsForwarded values
      → IsQuiet K s.0 (post_routing K calls values m s).0.0
  unfolding post_routing
  post_routing-IsQuiet calls values m (s, h) g =
      let lacking =
        text_eq (get (bytes "vip") values) [] || text_eq (get (bytes "backend") values) [] in
      elim (Bool-cases lacking) [
        | inl e ↦ rw e refl
        | inr e ↦ rw e (routed-IsQuiet (get (bytes "sync") values) _ _ s _ g)
      ]

  delete_routing-IsQuiet :
      (calls : RoutingCalls K) (values : List (Text × Text)) (m : MapManager K)
      (s : Server K × Host)
      → IsForwarded values
      → IsQuiet K s.0 (delete_routing K calls values m s).0.0
  unfolding delete_routing
  delete_routing-IsQuiet calls values m (s, h) g =
      elim (Bool-cases (text_eq (get (bytes "vip") values) [])) [
        | inl e ↦ rw e refl
        | inr e ↦ rw e (routed-IsQuiet (get (bytes "sync") values) _ _ s _ g)
      ]

  handle_routing-IsQuiet :
      (calls : RoutingCalls K) (method : Text) (values : List (Text × Text)) (s : Server K × Host)
      → IsForwarded values
      → IsQuiet K s.0 (handle_routing K calls method values s).0.0
  unfolding handle_routing
  handle_routing-IsQuiet calls method values (s, h) g = elim (Option-cases s.map_mgr) [
    | inl e ↦ rw e refl
    | inr (m, e) ↦ ground (
      arith,
      e,
      show_routes-IsQuiet (s, h) (get_routing_map K m),
      post_routing-IsQuiet calls values m (s, h) g,
      delete_routing-IsQuiet calls values m (s, h) g,
    )
  ]

  reload-IsQuiet :
      (disk : Disk) (now : ℕ) (method : Text) (s : Server K)
      → IsQuiet K s (handle_geoip_reload K disk now method s).0
  unfolding handle_geoip_reload
  reload-IsQuiet disk now method s = elim (Option-cases s.geoip_mgr) [
    | inl e ↦ ground (arith, e)
    | inr (g, e) ↦ ground (arith, e)
  ]

module _ (K : Kernel) (parse_ipv6 : Text → Option ℕ) (calls : RoutingCalls K) (disk : Disk)
    (log : LogFile) (api_key : Text) where
  handle-IsQuiet :
      (route : Route) (w : World K) (r : Incoming)
      → IsForwarded r.values
      → IsQuiet K w.server (handle K parse_ipv6 calls disk log api_key route w r).0.server
  unfolding handle
  handle-IsQuiet blacklist w r h =
      handle_blacklist-IsQuiet K parse_ipv6 r.time w.server (request_of r) (unfold request_of in h)
  handle-IsQuiet routing w r h =
      handle_routing-IsQuiet K calls r.method r.values (w.server, w.host) h
  handle-IsQuiet stats w r h = refl
  handle-IsQuiet geoip_health w r h = refl
  handle-IsQuiet geoip_reload w r h = reload-IsQuiet K disk r.time r.method w.server
  handle-IsQuiet whitelist w r h =
      handle_whitelist-IsQuiet K parse_ipv6 r.time w.server (request_of r) (unfold request_of in h)
  handle-IsQuiet rules_policy w r h =
      handle_rules_policy-IsQuiet K w.server (request_of r) (unfold request_of in h)
  handle-IsQuiet show_logs w r h = refl

  limit-IsQuiet :
      (route : Route) (w : World K) (r : Incoming)
      → IsForwarded r.values
      → IsQuiet K w.server (limit K parse_ipv6 calls disk log api_key route w r).0.server
  unfolding limit authenticate
  limit-IsQuiet route w r h =
      let counted : World K = record w { rates = (rate_limit w.rates r.remote_addr r.time).0 } in
      ground (arith, handle-IsQuiet route counted r h)

  at_endpoint-IsQuiet :
      (e : Endpoint) (w : World K) (r : Incoming)
      → IsForwarded r.values
      → IsQuiet K w.server (at_endpoint K parse_ipv6 calls disk log api_key e w r).0.server
  unfolding at_endpoint
  at_endpoint-IsQuiet (guarded route) w r h = limit-IsQuiet route w r h
  at_endpoint-IsQuiet show_metrics w r h = refl
  at_endpoint-IsQuiet show_health w r h = refl
  at_endpoint-IsQuiet static_files w r h = refl

  -- Any number of requests with sync=true, whatever they ask, makes no event for other nodes:
  -- the synchronisation of an event ends after one step.
  pub serve_all-IsQuiet :
      (rs : List Incoming) (w : World K)
      → All (λ r. IsForwarded r.values) rs
      → sync_events (serve_all K parse_ipv6 calls disk log api_key rs w).server.events
        ≡ sync_events w.server.events
  unfolding serve_all serve
  serve_all-IsQuiet [] w h = refl
  serve_all-IsQuiet (r ∷ rs) w (h, hs) =
      serve_all-IsQuiet rs (serve K parse_ipv6 calls disk log api_key w r).0 hs
      ∙ at_endpoint-IsQuiet (endpoint_of r.path) w r h
