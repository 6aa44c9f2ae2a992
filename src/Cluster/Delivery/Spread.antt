-- ===== src/Cluster/Delivery/Spread.antt =====
-- A block or a release from the request of a client to the other nodes
-- (src/control_plane/main.go: handleBlacklist, syncIPEvent).
use shield_core.Prelude.{
  ℕ, ◌≡◌, refl, ap, ◌∙◌, Bool, true, false, ◌||◌, ◌&&◌, not, Option, some, List, [], ◌∷◌, ◌++◌,
  Text, bytes, text_eq, All, arith,
}
use shield_core.Strings.Query.{query, get}
use shield_core.Strings.Query.RoundTrip.{IsBytes}
use shield_core.Kernel.{Kernel}
use shield_core.Maps.{MapManager}
use shield_core.Maps.Targets.{member}
use shield_core.Geoip.{Disk}
use shield_core.Gate.{rate_limit}
use shield_core.Logs.{LogFile}
use shield_core.Server.{Server, sync_ip, is_country}
use shield_core.Api.{Request, target_of, post_blacklist, delete_blacklist, handle_blacklist}
use shield_core.Api.Listed.{post_listed, delete_listed, post_lem, delete_lem}
use shield_core.Api.Quiet.{sync_events, commit_told}
use shield_core.Routes.{Incoming, RoutingCalls}
use shield_core.Routes.Serve.{request_of, World, put_rules, handle, serve, serve_all}
use shield_core.Routes.Forward.{IsForwarded, serve_all-IsQuiet}
use shield_core.Cluster.{Cluster}
use shield_core.Cluster.Events.{Outgoing, sync_ip_url, sync_ip_event}
use shield_core.Cluster.Requests.{
  node-IsPathText, path_of-sync_ip_url, query-sync_ip_url, send_to-All,
}
use shield_core.Cluster.Nodes.{IsNodeUrl, path_of}
use shield_core.Cluster.Delivery.{serve_blacklist}

-- A request to block, or to release.
abbrev pub method_of : Bool → Text
method_of true = bytes "POST"
method_of false = bytes "DELETE"

-- Whether a text is among targets behind it.
abbrev pub listed : Bool → Text → List Text → Text → Bool
listed true ip ts t = text_eq ip t || member t ts
listed false ip ts t = not (text_eq ip t) && member t ts

-- A request on the node that it reaches, with the path and the query of its URL.
abbrev pub received : Outgoing → Text → ℕ → Incoming
received o remote_addr now = record {
  method = o.method;
  path = path_of o.url;
  values = query o.url;
  api_key = o.key;
  remote_addr = remote_addr;
  time = now;
}

module _ (K : Kernel) where
  -- The manager of a server is one, whichever target is asked for.
  one_manager :
      (s : Server K) (f : Text → Bool)
      → ((t : Text)
          → (m' : MapManager K) × (s.map_mgr ≡ some m') × (member t m'.blacklist_targets ≡ f t))
      → (m' : MapManager K) × (s.map_mgr ≡ some m')
        × ((t : Text) → member t m'.blacklist_targets ≡ f t)
  one_manager s f h =
      let (m0, e0, a0) = h [] in
      (
        m0,
        e0,
        λ t.
            let (m, e, a) = h t in
            let same : m0 ≡ m = ground (arith, e0, e) in
            ap (λ n. member t n.blacklist_targets) same ∙ a,
      )

module _ (K : Kernel) (parse_ipv6 : Text → Option ℕ) (now : ℕ) where
  -- What the handler does to the targets.
  abbrev pub Lists : Bool → Text → MapManager K → Server K → Type 0
  Lists adds ip m s =
      (m' : MapManager K) × (s.map_mgr ≡ some m')
      × ((t : Text) → member t m'.blacklist_targets ≡ listed adds ip m.blacklist_targets t)

  handle-Lists :
      (adds : Bool) (s : Server K) (r : Request) (m : MapManager K)
      → s.map_mgr ≡ some m
      → is_country (target_of r) ≡ false
      → text_eq (target_of r) [] ≡ false
      → r.method ≡ method_of adds
      → Lists adds (target_of r) m (handle_blacklist K parse_ipv6 now s r).0
  handle-Lists true s r m e c x p =
      one_manager K (handle_blacklist K parse_ipv6 now s r).0
        (listed true (target_of r) m.blacklist_targets)
        (λ t. post_listed K parse_ipv6 now s r m t e c x p)
  handle-Lists false s r m e c x p =
      one_manager K (handle_blacklist K parse_ipv6 now s r).0
        (listed false (target_of r) m.blacklist_targets)
        (λ t. delete_listed K parse_ipv6 now s r m t e c x p)

  -- The event of the change.
  handle_told :
      (adds : Bool) (s : Server K) (r : Request) (m : MapManager K)
      → s.map_mgr ≡ some m
      → is_country (target_of r) ≡ false
      → text_eq (target_of r) [] ≡ false
      → r.method ≡ method_of adds
      → text_eq r.sync (bytes "true") ≡ false
      → sync_events (handle_blacklist K parse_ipv6 now s r).0.events
        ≡ sync_events s.events ++ sync_ip (bytes "blacklist") (method_of adds) (target_of r) ∷ []
  unfolding post_blacklist delete_blacklist
  handle_told true s r m e c x p f =
      ap (λ u. sync_events u.0.events) (post_lem K parse_ipv6 now s r m e c x p)
      ∙ commit_told K r.sync _ _ _ 0 (sync_ip (bytes "blacklist") (bytes "POST") (target_of r)) _ s
          f
  handle_told false s r m e c x p f =
      ap (λ u. sync_events u.0.events) (delete_lem K parse_ipv6 now s r m e c x p)
      ∙ commit_told K r.sync _ _ _ 0 (sync_ip (bytes "blacklist") (bytes "DELETE") (target_of r)) _
          s f

module _ (K : Kernel) (parse_ipv6 : Text → Option ℕ) (calls : RoutingCalls K) (disk : Disk)
    (log : LogFile) where
  -- A request with which every node that has its key, and that it reaches within the limit of its
  -- address, makes the same change to its targets, and no event of its own.
  abbrev pub TellsBlock : Bool → Text → Outgoing → Type 0
  TellsBlock adds ip o =
      (w : World K) (m : MapManager K) (remote_addr : Text) (now : ℕ)
      → w.server.map_mgr ≡ some m
      → (rate_limit w.rates remote_addr now).1 ≡ true
      → let w' = (serve K parse_ipv6 calls disk log o.key w (received o remote_addr now)).0 in
        Lists K parse_ipv6 now adds ip m w'.server
        × (sync_events w'.server.events ≡ sync_events w.server.events)

  node-TellsBlock :
      (c : Cluster) (adds : Bool) (ip node : Text)
      → is_country ip ≡ false
      → text_eq ip [] ≡ false
      → IsBytes ip
      → IsNodeUrl node
      → TellsBlock adds ip (record {
        method = method_of adds;
        url = sync_ip_url (bytes "blacklist") ip node;
        key = c.api_key;
      })
  unfolding handle put_rules request_of target_of get text_eq serve_all
  node-TellsBlock c adds ip node a x b (host, n) w m remote_addr now e h =
      let o : Outgoing = record {
        method = method_of adds;
        url = sync_ip_url (bytes "blacklist") ip node;
        key = c.api_key;
      } in
      let r = received o remote_addr now in
      let read =
        query-sync_ip_url (bytes "blacklist") ip node (ground arith, ground arith)
          (node-IsPathText node host n) b in
      let path : r.path ≡ bytes "/api/blacklist" =
        path_of-sync_ip_url (bytes "blacklist") ip node host (ground arith, ground arith) n in
      let reached = serve_blacklist K parse_ipv6 calls disk log c.api_key w r path refl h in
      let target : target_of (request_of r) ≡ ip = rw read (ground (arith, x)) in
      let sync : IsForwarded r.values = rw read refl in
      let (m', found, lists) =
        handle-Lists K parse_ipv6 now adds w.server (request_of r) m e (rw target a) (rw target x)
          refl in
      (
        (
          m',
          ap (λ s. s.0.server.map_mgr) reached ∙ found,
          λ t. lists t ∙ ap (λ u. listed adds u m.blacklist_targets t) target,
        ),
        serve_all-IsQuiet K parse_ipv6 calls disk log c.api_key (r ∷ []) w (sync, tt),
      )

  nodes-TellsBlock :
      (c : Cluster) (adds : Bool) (ip : Text) (nodes : List Text)
      → is_country ip ≡ false
      → text_eq ip [] ≡ false
      → IsBytes ip
      → All IsNodeUrl nodes
      → All
          (λ node. TellsBlock adds ip (record {
            method = method_of adds;
            url = sync_ip_url (bytes "blacklist") ip node;
            key = c.api_key;
          }))
          nodes
  nodes-TellsBlock c adds ip [] a x b n = tt
  nodes-TellsBlock c adds ip (node ∷ nodes) a x b (n, ns) =
      (node-TellsBlock c adds ip node a x b n, nodes-TellsBlock c adds ip nodes a x b ns)

  -- The request of a client to block or to release an address or a network changes the targets by
  -- its text, makes one event, and every node that a request of the event reaches makes the same
  -- change to its own targets, whatever bytes the text holds, and no event: the path and the query
  -- of the request's URL lead it to handleBlacklist. The nodes that are reached have a manager, hold
  -- the key and are within the limit of the address, and every node of the list is a host, with a
  -- port or without, behind http://, https:// or no scheme.
  pub block_spreads :
      (c : Cluster) (adds : Bool) (now : ℕ) (s : Server K) (r : Request) (m : MapManager K)
      → s.map_mgr ≡ some m
      → r.method ≡ method_of adds
      → is_country (target_of r) ≡ false
      → text_eq (target_of r) [] ≡ false
      → text_eq r.sync (bytes "true") ≡ false
      → IsBytes (target_of r)
      → All IsNodeUrl c.nodes
      → let s' = (handle_blacklist K parse_ipv6 now s r).0 in
        let ip = target_of r in
        Lists K parse_ipv6 now adds ip m s'
        × (sync_events s'.events
            ≡ sync_events s.events ++ sync_ip (bytes "blacklist") (method_of adds) ip ∷ [])
        × All (TellsBlock adds ip) (sync_ip_event c (bytes "blacklist") (method_of adds) ip)
  unfolding sync_ip_event
  block_spreads c adds now s r m e p a x f b n = (
    handle-Lists K parse_ipv6 now adds s r m e a x p,
    handle_told K parse_ipv6 now adds s r m e a x p f,
    send_to-All (TellsBlock adds (target_of r)) c (method_of adds)
        (sync_ip_url (bytes "blacklist") (target_of r)) c.nodes
        (nodes-TellsBlock c adds (target_of r) c.nodes a x b n),
  )
