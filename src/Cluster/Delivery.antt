-- ===== src/Cluster/Delivery.antt =====
-- A blacklist event as the node that receives it handles it (src/control_plane/main.go:
-- syncIPEvent on the one side, the middleware and handleBlacklist on the other).
pub mod Spread
use shield_core.Prelude.{
  ℕ, ◌≡◌, refl, ap, ◌∙◌, true, false, ◌||◌, Option, some, [], ◌∷◌, Text, bytes, text_eq,
  text_eq_refl, arith,
}
use shield_core.Strings.Query.{query, get}
use shield_core.Strings.Query.RoundTrip.{IsBytes}
use shield_core.Kernel.{Kernel}
use shield_core.Maps.{MapManager}
use shield_core.Maps.Targets.{member}
use shield_core.Geoip.{Disk}
use shield_core.Gate.{rate_limit, authorized}
use shield_core.Logs.{LogFile}
use shield_core.Server.{is_country}
use shield_core.Api.{target_of}
use shield_core.Api.Listed.{post_listed}
use shield_core.Api.Quiet.{sync_events}
use shield_core.Routes.{Incoming, RoutingCalls}
use shield_core.Routes.Serve.{
  Route, blacklist, endpoint_of, request_of, World, put_rules, handle, authenticate, limit,
  at_endpoint, serve, serve_all,
}
use shield_core.Routes.Forward.{IsForwarded, serve_all-IsQuiet}
use shield_core.Cluster.Events.{sync_ip_url}
use shield_core.Cluster.Requests.{IsPathText, query-sync_ip_url}

-- The request of a block as it comes in: the one that syncIPEvent makes for a node.
abbrev pub arriving : Text → Text → Text → Text → ℕ → Incoming
arriving api_key ip node remote_addr now = record {
  method = bytes "POST";
  path = bytes "/api/blacklist";
  values = query (sync_ip_url (bytes "blacklist") ip node);
  api_key = api_key;
  remote_addr = remote_addr;
  time = now;
}

module _ (K : Kernel) (parse_ipv6 : Text → Option ℕ) (calls : RoutingCalls K) (disk : Disk)
    (log : LogFile) (api_key : Text) where
  pub authenticate_key :
      (route : Route) (w : World K) (r : Incoming)
      → r.api_key ≡ api_key
      → authenticate K parse_ipv6 calls disk log api_key route w r
        ≡ handle K parse_ipv6 calls disk log api_key route w r
  unfolding authenticate authorized
  authenticate_key route w r h =
      let key : text_eq r.api_key api_key ≡ true = rw h (text_eq_refl api_key) in
      ground (arith, key)

  -- A request with the key that is within the limit of its address reaches handleBlacklist.
  pub serve_blacklist :
      (w : World K) (r : Incoming)
      → r.path ≡ bytes "/api/blacklist"
      → r.api_key ≡ api_key
      → (rate_limit w.rates r.remote_addr r.time).1 ≡ true
      → serve K parse_ipv6 calls disk log api_key w r
        ≡ handle K parse_ipv6 calls disk log api_key blacklist
            (record w { rates = (rate_limit w.rates r.remote_addr r.time).0 })
            r
  unfolding serve at_endpoint limit endpoint_of text_eq
  serve_blacklist w r p k h =
      let counted : World K = record w { rates = (rate_limit w.rates r.remote_addr r.time).0 } in
      rw p (ground (arith, h, authenticate_key blacklist counted r k))

  -- Where the event of a block reaches a node that has a manager and the same key, and is within
  -- the limit of its address, that node's blacklist targets are those from before and the
  -- blocked address or network, whatever bytes its text holds, and the node makes no event.
  pub blacklist_event_delivered :
      (w : World K) (m : MapManager K) (ip node remote_addr t : Text) (now : ℕ)
      → w.server.map_mgr ≡ some m
      → IsPathText node
      → IsBytes ip
      → is_country ip ≡ false
      → text_eq ip [] ≡ false
      → (rate_limit w.rates remote_addr now).1 ≡ true
      → let w' =
          (serve K parse_ipv6 calls disk log api_key w
            (arriving api_key ip node remote_addr now)).0 in
        (m' : MapManager K) × (w'.server.map_mgr ≡ some m')
        × (member t m'.blacklist_targets ≡ (text_eq ip t || member t m.blacklist_targets))
        × (sync_events w'.server.events ≡ sync_events w.server.events)
  unfolding handle put_rules request_of target_of get text_eq serve_all
  blacklist_event_delivered w m ip node remote_addr t now e n b c x h =
      let r = arriving api_key ip node remote_addr now in
      let read = query-sync_ip_url (bytes "blacklist") ip node (ground arith, ground arith) n b in
      let reached = serve_blacklist w r refl refl h in
      let target : target_of (request_of r) ≡ ip = rw read (ground (arith, x)) in
      let sync : IsForwarded r.values = rw read refl in
      let (m', found, listed) =
        post_listed K parse_ipv6 now w.server (request_of r) m t e (rw target c) (rw target x)
          refl in
      (
        m',
        ap (λ s. s.0.server.map_mgr) reached ∙ found,
        listed ∙ ap (λ u. text_eq u t || member t m.blacklist_targets) target,
        serve_all-IsQuiet K parse_ipv6 calls disk log api_key (r ∷ []) w (sync, tt),
      )
