-- ===== src/Cluster/Policy/Spread.antt =====
-- A policy from the request of a client to the other nodes (src/control_plane/main.go:
-- handleRulesPolicy, syncGeoPolicyEvent).
use shield_core.Prelude.{
  ℕ, ◌≡◌, ◌≢◌, ◌⊎◌, inl, inr, refl, true, false, Option, some, none, List, [], ◌∷◌, ◌++◌, Text,
  bytes, text_eq, arith, All, ◌==◌,
}
use shield_core.Strings.Query.{query}
use shield_core.Kernel.{Kernel, KeepsPut}
use shield_core.Maps.{MapManager, MapError, Outcome}
use shield_core.Maps.Config.{get_geoip_policy, set_geoip_policy}
use shield_core.Maps.Config.Laws.{get-set_geoip_policy}
use shield_core.Geoip.{Disk}
use shield_core.Gate.{rate_limit}
use shield_core.Logs.{LogFile}
use shield_core.Server.{Server, sync_policy}
use shield_core.Api.{Request}
use shield_core.Api.Policy.{policy_of, policy_set, post_policy, take_action, handle_rules_policy}
use shield_core.Api.Quiet.{sync_events, commit_told}
use shield_core.Routes.{Incoming, RoutingCalls}
use shield_core.Routes.Serve.{World, serve}
use shield_core.Cluster.{Cluster}
use shield_core.Cluster.Events.{Outgoing, sync_geo_policy_url, sync_geo_policy_event}
use shield_core.Cluster.Requests.{node-IsPathText, send_to-All}
use shield_core.Cluster.Nodes.{IsSchemeUrl, path_of}
use shield_core.Cluster.Policy.{
  digit_of, path_of-digit_of, query-digit_of, handle_rules_policy_map, Takes, policy_received,
}

-- A request on the node that it reaches, with the path and the query of its URL.
abbrev pub received : Outgoing → Text → ℕ → Incoming
received o remote_addr now = record {
  method = o.method;
  path = path_of o.url;
  values = query o.url;
  api_key = o.key;
  remote_addr = remote_addr;
  time = now;
}

module _ (K : Kernel) where
  -- A policy that is set on the request of a client is an event, one that is refused is none.
  policy_set_events :
      (sync : Text) (p : ℕ) (m : MapManager K) (s : Server K) (e : Option MapError)
      → text_eq sync (bytes "true") ≡ false
      → ((e ≡ none)
          × (sync_events (policy_set K sync p m s e).0.events
              ≡ sync_events s.events ++ sync_policy (digit_of p) ∷ []))
        ⊎ ((e ≢ none) × (sync_events (policy_set K sync p m s e).0.events ≡ sync_events s.events))
  unfolding policy_set
  policy_set_events sync p m s none h =
      inl (refl, commit_told K sync _ _ _ 0 (sync_policy (digit_of p)) m s h)
  policy_set_events sync p m s (some e) h = inr (ground arith, refl)

  policy_cases : (action : Text) (p : ℕ) → policy_of K action ≡ some p → (p ≡ 0) ⊎ (p ≡ 1)
  unfolding policy_of
  policy_cases action p h = ground (arith, h)

  handle_policy_events :
      (s : Server K) (r : Request) (m : MapManager K) (p : ℕ)
      → s.map_mgr ≡ some m
      → r.method ≡ bytes "POST"
      → policy_of K r.action ≡ some p
      → text_eq r.sync (bytes "true") ≡ false
      → let s' = (handle_rules_policy K s r).0 in
        let e = (set_geoip_policy K m p).1 in
        ((e ≡ none)
          × (sync_events s'.events ≡ sync_events s.events ++ sync_policy (digit_of p) ∷ []))
        ⊎ ((e ≢ none) × (sync_events s'.events ≡ sync_events s.events))
  unfolding handle_rules_policy take_action post_policy text_eq
  handle_policy_events s r m p e h a f =
      let (m', x) = set_geoip_policy K m p in rw (e, h, a) (policy_set_events r.sync p m' s x f)

module _ (K : Kernel) (L : KeepsPut ◌==◌ K.config) (parse_ipv6 : Text → Option ℕ)
    (calls : RoutingCalls K) (disk : Disk) (log : LogFile) where
  -- A request with which every node that has its key, and that it reaches within the limit of its
  -- address, takes the policy.
  abbrev pub Tells : ℕ → Outgoing → Type 0
  Tells p o =
      (w : World K) (m : MapManager K) (remote_addr : Text) (now : ℕ)
      → w.server.map_mgr ≡ some m
      → (rate_limit w.rates remote_addr now).1 ≡ true
      → Takes K L parse_ipv6 calls disk log o.key w m p
          (serve K parse_ipv6 calls disk log o.key w (received o remote_addr now)).0

  node-Tells :
      (c : Cluster) (p : ℕ) (node : Text)
      → (p ≡ 0) ⊎ (p ≡ 1)
      → IsSchemeUrl node
      → Tells p (record {
        method = bytes "POST";
        url = sync_geo_policy_url (digit_of p) node;
        key = c.api_key;
      })
  node-Tells c p node b (host, n) w m remote_addr now e h =
      policy_received K L parse_ipv6 calls disk log c.api_key w m p _ e refl
        (path_of-digit_of p node host b n) refl
        (query-digit_of p node b (node-IsPathText node host (n.0, inr n.1))) b h

  nodes-Tells :
      (c : Cluster) (p : ℕ) (nodes : List Text)
      → (p ≡ 0) ⊎ (p ≡ 1)
      → All IsSchemeUrl nodes
      → All
          (λ node. Tells p (record {
            method = bytes "POST";
            url = sync_geo_policy_url (digit_of p) node;
            key = c.api_key;
          }))
          nodes
  nodes-Tells c p [] b n = tt
  nodes-Tells c p (node ∷ nodes) b (n, ns) = (node-Tells c p node b n, nodes-Tells c p nodes b ns)

  -- The request of a client for a policy either is refused by the map, and then no node is told; or
  -- the policy is the one that is read, one event is made, and every node that a request of the
  -- event reaches takes the same policy, or its map refuses it, and makes no event of its own: the
  -- path and the query of the request's URL lead it to handleRulesPolicy. The server has a manager,
  -- the nodes that are reached have one, hold the key and are within the limit of the address, and
  -- every node of the list is a host, with a port or without, behind http:// or https://.
  pub policy_spreads :
      (c : Cluster) (s : Server K) (r : Request) (m : MapManager K) (p : ℕ)
      → s.map_mgr ≡ some m
      → r.method ≡ bytes "POST"
      → policy_of K r.action ≡ some p
      → text_eq r.sync (bytes "true") ≡ false
      → All IsSchemeUrl c.nodes
      → let s' = (handle_rules_policy K s r).0 in
        (((set_geoip_policy K m p).1 ≢ none) × (sync_events s'.events ≡ sync_events s.events))
        ⊎ (((m' : MapManager K) × (s'.map_mgr ≡ some m') × (get_geoip_policy K m' ≡ Outcome.ok p))
            × (sync_events s'.events ≡ sync_events s.events ++ sync_policy (digit_of p) ∷ [])
            × All (Tells p) (sync_geo_policy_event c (digit_of p)))
  unfolding sync_geo_policy_event
  policy_spreads c s r m p e h a f n =
      let b = policy_cases K r.action p a in
      let m' = (set_geoip_policy K m p).0 in
      let told =
        send_to-All (Tells p) c (bytes "POST") (sync_geo_policy_url (digit_of p)) c.nodes
          (nodes-Tells c p c.nodes b n) in
      elim (handle_policy_events K s r m p e h a f) [
        | inr bad ↦ inl bad
        | inl (ok, events) ↦ elim (get-set_geoip_policy K L m p) [
          | inr (bad, same) ↦ absurd (bad ok)
          | inl (ok', got, rest) ↦
              inr ((m', handle_rules_policy_map K s r m p e h a, got), events, told)
        ]
      ]
