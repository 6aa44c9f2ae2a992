-- ===== src/System/Requests.antt =====
-- No request takes the file from the rules in memory (src/control_plane/main.go: the multiplexer
-- in main, handleRouting, handleGeoIPReload).
use shield_core.Prelude.{
  ℕ, ◌≡◌, refl, Bool, true, false, ◌||◌, inl, inr, Option, none, some, List, [], Text, bytes,
  text_eq, arith, Bool-cases, Option-cases, ◌==◌, not,
}
use shield_core.Strings.Query.{get}
use shield_core.Kernel.{Kernel, KeepsPut}
use shield_core.Wireguard.{Host}
use shield_core.Maps.{MapManager, MapError}
use shield_core.Maps.Backends.{RoutingEntry, get_routing_map}
use shield_core.Geoip.{Disk}
use shield_core.Gate.{rate_limit}
use shield_core.Logs.{LogFile}
use shield_core.Server.{Server, Event, rules_state_of}
use shield_core.Api.Saved.{
  IsSaved, sync_unless-IsSaved, handle_blacklist-IsSaved, handle_whitelist-IsSaved,
}
use shield_core.Api.Restart.{handle_rules_policy-IsSaved}
use shield_core.Routes.{
  Incoming, Answer, RoutingCalls, routed, show_routes, post_routing, delete_routing, handle_routing,
  handle_geoip_reload,
}
use shield_core.Routes.Serve.{
  Route, blacklist, routing, stats, geoip_health, geoip_reload, whitelist, rules_policy, show_logs,
  Endpoint, guarded, show_metrics, show_health, static_files, endpoint_of, request_of, World,
  handle, authenticate, limit, at_endpoint, serve,
}

-- The calls that write a backend leave the rules alone.
pub record KeepsRules (K : Kernel) (calls : RoutingCalls K) : Type 0 where
  pub adds :
      (vip : Text) (vport protocol : ℕ) (backend tunnel_type : Text) (m : MapManager K) (h : Host)
      → rules_state_of K (calls.add_backend_vip vip vport protocol backend tunnel_type (m, h)).0.0
        ≡ rules_state_of K m
  pub removes :
      (vip : Text) (vport protocol : ℕ) (backend tunnel_type : Text) (m : MapManager K) (h : Host)
      → rules_state_of K
          (calls.remove_backend_vip vip vport protocol backend tunnel_type (m, h)).0.0
        ≡ rules_state_of K m

module _ (K : Kernel) where
  -- A manager with the same rules in place of the one that was saved.
  replaced-IsSaved :
      (m m' : MapManager K) (s : Server K)
      → s.map_mgr ≡ some m
      → rules_state_of K m' ≡ rules_state_of K m
      → IsSaved K s
      → IsSaved K (record s { map_mgr = some m' })
  unfolding IsSaved
  replaced-IsSaved m m' s e same (n, h, p, c, f) =
      let here : n ≡ m = ground (arith, e, h) in (m', refl, p, c, rw same (rw⁻¹ here f))

  routed-IsSaved :
      (sync : Text) (event : Event) (answer : Answer) (s : Server K) (m : MapManager K)
      (made : (MapManager K × Host) × Bool)
      → s.map_mgr ≡ some m
      → rules_state_of K made.0.0 ≡ rules_state_of K m
      → IsSaved K s
      → IsSaved K (routed K sync event answer s made).0.0
  unfolding routed
  routed-IsSaved sync event answer s m ((m', h), true) e same f = replaced-IsSaved m m' s e same f
  routed-IsSaved sync event answer s m ((m', h), false) e same f =
      sync_unless-IsSaved K sync event (record s { map_mgr = some m' })
        (replaced-IsSaved m m' s e same f)

  show_routes-IsSaved :
      (s : Server K × Host) (l : List RoutingEntry × Option MapError)
      → IsSaved K s.0
      → IsSaved K (show_routes K s l).0.0
  unfolding show_routes
  show_routes-IsSaved s (entries, some e) f = f
  show_routes-IsSaved s (entries, none) f = f

  reload-IsSaved :
      (disk : Disk) (now : ℕ) (method : Text) (s : Server K)
      → IsSaved K s
      → IsSaved K (handle_geoip_reload K disk now method s).0
  unfolding handle_geoip_reload IsSaved
  reload-IsSaved disk now method s f = elim (Bool-cases (not (text_eq method (bytes "POST")))) [
    | inl y ↦ rw y f
    | inr n ↦ elim (Option-cases s.geoip_mgr) [ inl e ↦ rw (n, e) f | inr (g, e) ↦ rw (n, e) f ]
  ]

module _ (K : Kernel) (calls : RoutingCalls K) (B : KeepsRules K calls) where
  post_routing-IsSaved :
      (values : List (Text × Text)) (m : MapManager K) (s : Server K) (h : Host)
      → s.map_mgr ≡ some m
      → IsSaved K s
      → IsSaved K (post_routing K calls values m (s, h)).0.0
  unfolding post_routing
  post_routing-IsSaved values m s h e f =
      let lacking =
        text_eq (get (bytes "vip") values) [] || text_eq (get (bytes "backend") values) [] in
      elim (Bool-cases lacking) [
        | inl y ↦ rw y f
        | inr n ↦
            rw n (routed-IsSaved K (get (bytes "sync") values) _ _ s m _ e (B.adds _ _ _ _ _ m h) f)
      ]

  delete_routing-IsSaved :
      (values : List (Text × Text)) (m : MapManager K) (s : Server K) (h : Host)
      → s.map_mgr ≡ some m
      → IsSaved K s
      → IsSaved K (delete_routing K calls values m (s, h)).0.0
  unfolding delete_routing
  delete_routing-IsSaved values m s h e f =
      elim (Bool-cases (text_eq (get (bytes "vip") values) [])) [
        | inl y ↦ rw y f
        | inr n ↦
            rw n
              (routed-IsSaved K (get (bytes "sync") values) _ _ s m _ e (B.removes _ _ _ _ _ m h) f)
      ]

  handle_routing-IsSaved :
      (method : Text) (values : List (Text × Text)) (s : Server K) (h : Host)
      → IsSaved K s
      → IsSaved K (handle_routing K calls method values (s, h)).0.0
  unfolding handle_routing
  handle_routing-IsSaved method values s h f = elim (Option-cases s.map_mgr) [
    | inl e ↦ ground (arith, e, f)
    | inr (m, e) ↦ ground (
      arith,
      e,
      f,
      show_routes-IsSaved K (s, h) (get_routing_map K m) f,
      post_routing-IsSaved values m s h e f,
      delete_routing-IsSaved values m s h e f,
    )
  ]

module _ (K : Kernel) (L : KeepsPut ◌==◌ K.config) (parse_ipv6 : Text → Option ℕ)
    (calls : RoutingCalls K) (B : KeepsRules K calls) (disk : Disk) (log : LogFile)
    (api_key : Text) where
  handle-IsSaved :
      (route : Route) (w : World K) (r : Incoming)
      → IsSaved K w.server
      → IsSaved K (handle K parse_ipv6 calls disk log api_key route w r).0.server
  unfolding handle
  handle-IsSaved blacklist w r f =
      handle_blacklist-IsSaved K parse_ipv6 r.time w.server (request_of r) f
  handle-IsSaved routing w r f =
      handle_routing-IsSaved K calls B r.method r.values w.server w.host f
  handle-IsSaved stats w r f = f
  handle-IsSaved geoip_health w r f = f
  handle-IsSaved geoip_reload w r f = reload-IsSaved K disk r.time r.method w.server f
  handle-IsSaved whitelist w r f =
      handle_whitelist-IsSaved K parse_ipv6 r.time w.server (request_of r) f
  handle-IsSaved rules_policy w r f = handle_rules_policy-IsSaved K L w.server (request_of r) f
  handle-IsSaved show_logs w r f = f

  limit-IsSaved :
      (route : Route) (w : World K) (r : Incoming)
      → IsSaved K w.server
      → IsSaved K (limit K parse_ipv6 calls disk log api_key route w r).0.server
  unfolding limit authenticate
  limit-IsSaved route w r f =
      let counted : World K = record w { rates = (rate_limit w.rates r.remote_addr r.time).0 } in
      ground (arith, f, handle-IsSaved route counted r f)

  at_endpoint-IsSaved :
      (e : Endpoint) (w : World K) (r : Incoming)
      → IsSaved K w.server
      → IsSaved K (at_endpoint K parse_ipv6 calls disk log api_key e w r).0.server
  unfolding at_endpoint
  at_endpoint-IsSaved (guarded route) w r f = limit-IsSaved route w r f
  at_endpoint-IsSaved show_metrics w r f = f
  at_endpoint-IsSaved show_health w r f = f
  at_endpoint-IsSaved static_files w r f = f

  pub serve-IsSaved :
      (w : World K) (r : Incoming)
      → IsSaved K w.server
      → IsSaved K (serve K parse_ipv6 calls disk log api_key w r).0.server
  unfolding serve
  serve-IsSaved w r f = at_endpoint-IsSaved (endpoint_of r.path) w r f
