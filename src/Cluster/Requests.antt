-- ===== src/Cluster/Requests.antt =====
-- What the requests to the other nodes carry, and to whom they go (src/control_plane/main.go:
-- syncIPEvent, syncRoutingEvent).
use shield_core.Prelude.{
  ℕ, ◌≡◌, ◌∙◌, ap, refl, true, false, inl, inr, Option, none, some, List, [], ◌∷◌, ◌++◌,
  append_assoc, Text, bytes, text_eq_refl, has_prefix, All, All-append, ◌==◌, arith, Bool-cases,
}
use shield_core.Strings.Query.{query, query_escape, is_unreserved}
use shield_core.Strings.Query.RoundTrip.{Lacks, IsBytes, pieces, query-pieces}
use shield_core.Cluster.Nodes.{
  IsNode, IsNodeUrl, path_of, path_of-secure, node-Lacks, secure_node_url_lem,
}
use shield_core.Cluster.{Cluster, without_prefix, replace_first, member_text, is_local_address}
use shield_core.Cluster.Events.{
  Outgoing, secure_node_url, sync_ip_url, if_parsed, new_request, send_to, sync_ip_event,
}

module _ (P : ℕ → Type 0) where
  without_prefix-All : (t p : Text) → All P t → All P (without_prefix t p)
  unfolding without_prefix
  without_prefix-All t [] h = h
  without_prefix-All [] (d ∷ p) h = tt
  without_prefix-All (c ∷ t) (d ∷ p) (h, hs) = without_prefix-All t p hs

  replace_first-All : (old new t : Text) → All P new → All P t → All P (replace_first old new t)
  unfolding replace_first
  replace_first-All old new [] g h = tt
  replace_first-All old new (c ∷ t) g (h, hs) = elim (Bool-cases (has_prefix (c ∷ t) old)) [
    | inl e ↦ rw e (All-append P new _ g (without_prefix-All (c ∷ t) old (h, hs)))
    | inr e ↦ rw e (h, replace_first-All old new t g hs)
  ]

  secure_node_url-All :
      (node : Text) → All P (bytes "https://") → All P node → All P (secure_node_url node)
  unfolding secure_node_url
  secure_node_url-All node g h =
      let replaced = replace_first (bytes "http://") (bytes "https://") node in
      let kept = replace_first-All (bytes "http://") (bytes "https://") node g h in
      elim (Bool-cases (has_prefix replaced (bytes "https://"))) [
        | inl e ↦ rw e kept
        | inr e ↦ rw e (All-append P (bytes "https://") replaced g kept)
      ]

-- A text that goes before a query: it holds neither `?` nor `#`.
abbrev pub IsPathText : Text → Type 0
IsPathText t = Lacks b'?' t × Lacks b'#' t

pub path-Lacks :
    (k : ℕ) (node endpoint : Text)
    → Lacks k (bytes "https://")
    → Lacks k (bytes "/api/")
    → Lacks k node
    → Lacks k endpoint
    → Lacks k (secure_node_url node ++ (bytes "/api/" ++ endpoint))
path-Lacks k node endpoint h g f e =
    All-append (λ c. (c == k) ≡ false) (secure_node_url node) (bytes "/api/" ++ endpoint)
      (secure_node_url-All (λ c. (c == k) ≡ false) node h f)
      (All-append (λ c. (c == k) ≡ false) (bytes "/api/") endpoint g e)

event_values : Text → List (Text × Text)
event_values ip = (bytes "target", ip) ∷ (bytes "sync", bytes "true") ∷ []

sync_ip_url-pieces :
    (endpoint ip node : Text)
    → sync_ip_url endpoint ip node
      ≡ (secure_node_url node ++ (bytes "/api/" ++ endpoint)) ++ b'?' ∷ pieces (event_values ip)
unfolding sync_ip_url event_values query_escape
sync_ip_url-pieces endpoint ip node =
    rw (append_assoc (secure_node_url node) (bytes "/api/" ++ endpoint) _) refl

-- The query of an event's URL, as the node reads it.
pub query-sync_ip_url :
    (endpoint ip node : Text)
    → IsPathText endpoint
    → IsPathText node
    → IsBytes ip
    → query (sync_ip_url endpoint ip node)
      ≡ (bytes "target", ip) ∷ (bytes "sync", bytes "true") ∷ []
unfolding event_values is_unreserved
query-sync_ip_url endpoint ip node (h, g) (f, e) d =
    let base = secure_node_url node ++ (bytes "/api/" ++ endpoint) in
    rw (sync_ip_url-pieces endpoint ip node) (
      query-pieces base (bytes "target", ip) ((bytes "sync", bytes "true") ∷ [])
        (path-Lacks b'?' node endpoint (ground arith) (ground arith) f h)
        (path-Lacks b'#' node endpoint (ground arith) (ground arith) e g)
        ((ground arith, d), ((ground arith, ground arith), tt)))

-- The path under which a node serves an event's URL.
pub path_of-sync_ip_url :
    (endpoint ip node a : Text)
    → IsPathText endpoint
    → IsNode node a
    → path_of (sync_ip_url endpoint ip node) ≡ bytes "/api/" ++ endpoint
path_of-sync_ip_url endpoint ip node a (h, g) n = rw (sync_ip_url-pieces endpoint ip node) (
    path_of-secure node a (bytes "api/" ++ endpoint) (pieces (event_values ip)) n
      (All-append (λ c. (c == b'?') ≡ false) (bytes "/api/") endpoint (ground arith) h)
      (All-append (λ c. (c == b'#') ≡ false) (bytes "/api/") endpoint (ground arith) g))

-- A node holds neither of the characters that end a path.
pub node-IsPathText : (node a : Text) → IsNode node a → IsPathText node
node-IsPathText node a ((l, q, f), e) = (
  node-Lacks b'?' node a (ground arith) (ground arith) q e,
  node-Lacks b'#' node a (ground arith) (ground arith) f e,
)

sync_ip_url-secure :
    (endpoint ip node a : Text)
    → IsNode node a
    → sync_ip_url endpoint ip node
      ≡ ((bytes "https://" ++ a) ++ (bytes "/api/" ++ endpoint)) ++ b'?' ∷ pieces (event_values ip)
sync_ip_url-secure endpoint ip node a n =
    sync_ip_url-pieces endpoint ip node
    ∙ ap (λ u. (u ++ (bytes "/api/" ++ endpoint)) ++ b'?' ∷ pieces (event_values ip))
        (secure_node_url_lem node a n)

-- Where an event goes: to the authority of a node of the list that is not this one, over TLS, to
-- the endpoint, with the key, and with a query that says what it is of and that it is not to be
-- sent on.
abbrev pub IsEventTo : Cluster → List Text → Text → Text → Text → Outgoing → Type 0
IsEventTo c nodes endpoint method ip r =
    (node : Text) × (a : Text) × (rest : Text) × (member_text node nodes ≡ true)
    × IsNode node a
    × (is_local_address c node ≡ false)
    × (r.url ≡ ((bytes "https://" ++ a) ++ (bytes "/api/" ++ endpoint)) ++ b'?' ∷ rest)
    × (r.method ≡ method)
    × (r.key ≡ c.api_key)
    × (query r.url ≡ (bytes "target", ip) ∷ (bytes "sync", bytes "true") ∷ [])

later_node :
    (c : Cluster) (nodes : List Text) (n endpoint method ip : Text) (rs : List Outgoing)
    → All (IsEventTo c nodes endpoint method ip) rs
    → All (IsEventTo c (n ∷ nodes) endpoint method ip) rs
unfolding member_text
later_node c nodes n endpoint method ip [] h = tt
later_node c nodes n endpoint method ip (r ∷ rs) ((node, a, rest, m, i, l, u, e, k, q), hs) = (
  (node, a, rest, ground (arith, m), i, l, u, e, k, q),
  later_node c nodes n endpoint method ip rs hs,
)

pub if_parsed-All :
    (P : Outgoing → Type 0) (o : Option Text) (r : Outgoing) → P r → All P (if_parsed o r)
unfolding if_parsed
if_parsed-All P none r h = tt
if_parsed-All P (some host) r h = (h, tt)

-- A predicate of every request that is made for a node, where it holds for the request's URL.
pub send_to-All :
    (P : Outgoing → Type 0) (c : Cluster) (method : Text) (url_of : Text → Text) (nodes : List Text)
    → All (λ node. P (record { method = method; url = url_of node; key = c.api_key })) nodes
    → All P (send_to c method url_of nodes)
unfolding send_to new_request
send_to-All P c method url_of [] h = tt
send_to-All P c method url_of (node ∷ nodes) (h, hs) =
    let rest = send_to-All P c method url_of nodes hs in
    elim (Bool-cases (is_local_address c node)) [
      | inl e ↦ rw e rest
      | inr e ↦ rw e (
          All-append P (new_request c method (url_of node)) _
            (if_parsed-All P (c.url_host (url_of node)) _ h) rest)
    ]

new_request-IsEventTo :
    (c : Cluster) (nodes : List Text) (node endpoint method ip : Text)
    → is_local_address c node ≡ false
    → IsPathText endpoint
    → IsNodeUrl node
    → IsBytes ip
    → All
        (IsEventTo c (node ∷ nodes) endpoint method ip)
        (new_request c method (sync_ip_url endpoint ip node))
unfolding new_request member_text
new_request-IsEventTo c nodes node endpoint method ip l h (a, n) f =
    let url = sync_ip_url endpoint ip node in
    if_parsed-All (IsEventTo c (node ∷ nodes) endpoint method ip) (c.url_host url)
      (record { method = method; url = url; key = c.api_key })
      (
        node,
        a,
        pieces (event_values ip),
        ground (arith, text_eq_refl node),
        n,
        l,
        sync_ip_url-secure endpoint ip node a n,
        refl,
        refl,
        query-sync_ip_url endpoint ip node h (node-IsPathText node a n) f,
      )

send_to-IsEventTo :
    (c : Cluster) (endpoint method ip : Text) (nodes : List Text)
    → IsPathText endpoint
    → All IsNodeUrl nodes
    → IsBytes ip
    → All (IsEventTo c nodes endpoint method ip) (send_to c method (sync_ip_url endpoint ip) nodes)
unfolding send_to
send_to-IsEventTo c endpoint method ip [] h g f = tt
send_to-IsEventTo c endpoint method ip (node ∷ nodes) h (g, gs) f =
    let rest =
      later_node c nodes node endpoint method ip _
        (send_to-IsEventTo c endpoint method ip nodes h gs f) in
    elim (Bool-cases (is_local_address c node)) [
      | inl e ↦ rw e rest
      | inr e ↦ rw e (
          All-append (IsEventTo c (node ∷ nodes) endpoint method ip)
            (new_request c method (sync_ip_url endpoint ip node)) _
            (new_request-IsEventTo c nodes node endpoint method ip e h g f) rest)
    ]

-- Every request of a blacklist or whitelist event goes over https to the authority of a node of the
-- list that is not this one, to the path of the endpoint under /api/, it carries the key, and its
-- query reads back as the target, whatever bytes it holds, and sync=true; where every node is a
-- host, with a port or without, behind http://, https:// or no scheme.
pub sync_ip_event_lem :
    (c : Cluster) (endpoint method ip : Text)
    → IsPathText endpoint
    → All IsNodeUrl c.nodes
    → IsBytes ip
    → All (IsEventTo c c.nodes endpoint method ip) (sync_ip_event c endpoint method ip)
unfolding sync_ip_event
sync_ip_event_lem c endpoint method ip h g f = send_to-IsEventTo c endpoint method ip c.nodes h g f
