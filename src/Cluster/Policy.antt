-- ===== src/Cluster/Policy.antt =====
-- A policy event as the node that receives it handles it (src/control_plane/main.go:
-- syncGeoPolicyEvent on the one side, the middleware and handleRulesPolicy on the other).
pub mod Spread
use shield_core.Prelude.{
  ℕ, ◌≡◌, append_assoc, false, ◌≢◌, ◌⊎◌, inl, inr, refl, ap, ◌∙◌, true, Option, some, none, List,
  [], ◌∷◌, ◌++◌, Text, bytes, text_eq, arith, All-append, ◌==◌, if◌then◌else◌,
}
use shield_core.Strings.Query.{query, get, is_unreserved, query_escape}
use shield_core.Strings.Query.RoundTrip.{
  Lacks, IsKey, IsBytes, query_escape_key, pieces, query-pieces,
}
use shield_core.Kernel.{Kernel, KeepsPut}
use shield_core.Maps.{MapManager, MapError, Outcome}
use shield_core.Maps.Config.{get_geoip_policy, set_geoip_policy}
use shield_core.Maps.Config.Laws.{get-set_geoip_policy}
use shield_core.Geoip.{Disk}
use shield_core.Gate.{rate_limit}
use shield_core.Logs.{LogFile}
use shield_core.Server.{Server}
use shield_core.Api.{Request}
use shield_core.Api.Listed.{commit_map}
use shield_core.Api.Policy.{policy_of, policy_set, post_policy, take_action, handle_rules_policy}
use shield_core.Api.Quiet.{sync_events}
use shield_core.Routes.{Incoming, RoutingCalls}
use shield_core.Routes.Serve.{
  rules_policy, endpoint_of, request_of, World, put_rules, handle, limit, at_endpoint, serve,
  serve_all,
}
use shield_core.Routes.Forward.{IsForwarded, serve_all-IsQuiet}
use shield_core.Cluster.Events.{sync_geo_policy_url}
use shield_core.Cluster.Nodes.{HasScheme, path_of, path_of-scheme}
use shield_core.Cluster.Requests.{IsPathText}
use shield_core.Cluster.Delivery.{authenticate_key}

-- How handleRulesPolicy writes a policy into the event.
abbrev pub digit_of : ℕ → Text
digit_of p = if p == 1 then bytes "1" else bytes "0"

pub policy_values : Text → List (Text × Text)
policy_values action = (bytes "action", action) ∷ (bytes "sync", bytes "true") ∷ []

policy_base-Lacks :
    (k : ℕ) (node : Text)
    → Lacks k (bytes "/api/rules/policy")
    → Lacks k node
    → Lacks k (node ++ bytes "/api/rules/policy")
policy_base-Lacks k node h g =
    All-append (λ c. (c == k) ≡ false) node (bytes "/api/rules/policy") g h

sync_geo_policy_url-pieces :
    (action node : Text)
    → IsKey action
    → sync_geo_policy_url action node
      ≡ (node ++ bytes "/api/rules/policy") ++ b'?' ∷ pieces (policy_values action)
unfolding sync_geo_policy_url policy_values
sync_geo_policy_url-pieces action node k =
    rw (append_assoc node (bytes "/api/rules/policy") _, query_escape_key action k)
      (unfold query_escape in refl)

query-sync_geo_policy_url :
    (action node : Text)
    → IsKey action
    → IsBytes action
    → IsPathText node
    → query (sync_geo_policy_url action node) ≡ policy_values action
unfolding policy_values is_unreserved
query-sync_geo_policy_url action node k b (f, e) = rw (sync_geo_policy_url-pieces action node k) (
    query-pieces (node ++ bytes "/api/rules/policy") (bytes "action", action)
      ((bytes "sync", bytes "true") ∷ []) (policy_base-Lacks b'?' node (ground arith) f)
      (policy_base-Lacks b'#' node (ground arith) e)
      ((ground arith, b), ((ground arith, ground arith), tt)))

pub query-digit_of :
    (p : ℕ) (node : Text)
    → (p ≡ 0) ⊎ (p ≡ 1)
    → IsPathText node
    → query (sync_geo_policy_url (digit_of p) node) ≡ policy_values (digit_of p)
unfolding is_unreserved
query-digit_of p node (inl z) n =
    rw z (query-sync_geo_policy_url (bytes "0") node (ground arith) (ground arith) n)
query-digit_of p node (inr z) n =
    rw z (query-sync_geo_policy_url (bytes "1") node (ground arith) (ground arith) n)

pub path_of-digit_of :
    (p : ℕ) (node a : Text)
    → (p ≡ 0) ⊎ (p ≡ 1)
    → HasScheme node a
    → path_of (sync_geo_policy_url (digit_of p) node) ≡ bytes "/api/rules/policy"
unfolding is_unreserved
path_of-digit_of p node a (inl z) n =
    rw (z, sync_geo_policy_url-pieces (bytes "0") node (ground arith))
      (path_of-scheme node a (bytes "api/rules/policy") _ n (ground arith) (ground arith))
path_of-digit_of p node a (inr z) n =
    rw (z, sync_geo_policy_url-pieces (bytes "1") node (ground arith))
      (path_of-scheme node a (bytes "api/rules/policy") _ n (ground arith) (ground arith))

-- The request of a policy as it comes in: the one that syncGeoPolicyEvent makes for a node.
abbrev pub arriving_policy : Text → ℕ → Text → Text → ℕ → Incoming
arriving_policy api_key p node remote_addr now = record {
  method = bytes "POST";
  path = bytes "/api/rules/policy";
  values = query (sync_geo_policy_url (digit_of p) node);
  api_key = api_key;
  remote_addr = remote_addr;
  time = now;
}

module _ (K : Kernel) where
  policy_of-digit_of : (p : ℕ) → (p ≡ 0) ⊎ (p ≡ 1) → policy_of K (digit_of p) ≡ some p
  unfolding policy_of text_eq
  policy_of-digit_of p (inl z) = rw z refl
  policy_of-digit_of p (inr z) = rw z refl

  -- The manager behind a request for a policy is the one that SetGeoIPPolicy leaves.
  policy_set_map :
      (sync : Text) (p : ℕ) (m : MapManager K) (s : Server K) (e : Option MapError)
      → (policy_set K sync p m s e).0.map_mgr ≡ some m
  unfolding policy_set
  policy_set_map sync p m s none = commit_map K sync _ _ m s
  policy_set_map sync p m s (some e) = refl

  pub handle_rules_policy_map :
      (s : Server K) (r : Request) (m : MapManager K) (p : ℕ)
      → s.map_mgr ≡ some m
      → r.method ≡ bytes "POST"
      → policy_of K r.action ≡ some p
      → (handle_rules_policy K s r).0.map_mgr ≡ some (set_geoip_policy K m p).0
  unfolding handle_rules_policy take_action post_policy text_eq
  handle_rules_policy_map s r m p e h a =
      rw (e, h, a) (policy_set_map r.sync p (set_geoip_policy K m p).0 s (set_geoip_policy K m p).1)

module _ (K : Kernel) (L : KeepsPut ◌==◌ K.config) (parse_ipv6 : Text → Option ℕ)
    (calls : RoutingCalls K) (disk : Disk) (log : LogFile) (api_key : Text) where
  serve_policy :
      (w : World K) (r : Incoming)
      → r.path ≡ bytes "/api/rules/policy"
      → r.api_key ≡ api_key
      → (rate_limit w.rates r.remote_addr r.time).1 ≡ true
      → serve K parse_ipv6 calls disk log api_key w r
        ≡ handle K parse_ipv6 calls disk log api_key rules_policy
            (record w { rates = (rate_limit w.rates r.remote_addr r.time).0 })
            r
  unfolding serve at_endpoint limit endpoint_of text_eq
  serve_policy w r p k h =
      let counted : World K = record w { rates = (rate_limit w.rates r.remote_addr r.time).0 } in
      rw p (
        ground
          (arith, h, authenticate_key K parse_ipv6 calls disk log api_key rules_policy counted r k))

  -- What a node makes of the request of a policy: it has a manager, the same key, and the request
  -- is within the limit of its address.
  abbrev pub Takes : World K → MapManager K → ℕ → World K → Type 0
  Takes w m p w' =
      (m' : MapManager K) × (w'.server.map_mgr ≡ some m')
      × ((get_geoip_policy K m' ≡ Outcome.ok p) ⊎ (((set_geoip_policy K m p).1 ≢ none) × (m' ≡ m)))
      × (sync_events w'.server.events ≡ sync_events w.server.events)

  pub policy_received :
      (w : World K) (m : MapManager K) (p : ℕ) (r : Incoming)
      → w.server.map_mgr ≡ some m
      → r.method ≡ bytes "POST"
      → r.path ≡ bytes "/api/rules/policy"
      → r.api_key ≡ api_key
      → r.values ≡ policy_values (digit_of p)
      → (p ≡ 0) ⊎ (p ≡ 1)
      → (rate_limit w.rates r.remote_addr r.time).1 ≡ true
      → Takes w m p (serve K parse_ipv6 calls disk log api_key w r).0
  unfolding handle put_rules request_of get text_eq serve_all policy_values
  policy_received w m p r e post path key read c h =
      let reached = serve_policy w r path key h in
      let sync : IsForwarded r.values = rw read refl in
      let action : policy_of K (request_of r).action ≡ some p =
        rw read (policy_of-digit_of K p c) in
      (
        (set_geoip_policy K m p).0,
        ap (λ s. s.0.server.map_mgr) reached
            ∙ handle_rules_policy_map K w.server (request_of r) m p e post action,
        elim (get-set_geoip_policy K L m p) [
          | inl (ok, got, rest) ↦ inl got
          | inr (bad, same) ↦ inr (bad, same)
        ],
        serve_all-IsQuiet K parse_ipv6 calls disk log api_key (r ∷ []) w (sync, tt),
      )

  -- Where the event of a policy reaches a node that has a manager and the same key, and is within
  -- the limit of its address, that node reads the same policy, or its map has refused it and is as
  -- it was, and the node makes no event; where the text of the node holds neither `?` nor `#`.
  pub policy_event_delivered :
      (w : World K) (m : MapManager K) (p : ℕ) (node remote_addr : Text) (now : ℕ)
      → w.server.map_mgr ≡ some m
      → IsPathText node
      → (p ≡ 0) ⊎ (p ≡ 1)
      → (rate_limit w.rates remote_addr now).1 ≡ true
      → let w' =
          (serve K parse_ipv6 calls disk log api_key w
            (arriving_policy api_key p node remote_addr now)).0 in
        (m' : MapManager K) × (w'.server.map_mgr ≡ some m')
        × ((get_geoip_policy K m' ≡ Outcome.ok p)
            ⊎ (((set_geoip_policy K m p).1 ≢ none) × (m' ≡ m)))
        × (sync_events w'.server.events ≡ sync_events w.server.events)
  policy_event_delivered w m p node remote_addr now e n c h =
      policy_received w m p (arriving_policy api_key p node remote_addr now) e refl refl refl
        (query-digit_of p node c n) c h
