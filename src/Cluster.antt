-- ===== src/Cluster.antt =====
-- The other nodes of the cluster and the requests that an event makes to them
-- (src/control_plane/main.go: loadClusterNodes, isLocalAddress, isHostAndPortLocal, syncIPEvent,
-- syncGeoRuleEvent, syncGeoPolicyEvent, syncRoutingEvent).
pub mod Events
pub mod Nodes
pub mod Local
pub mod Requests
pub mod Delivery
pub mod Backends
pub mod Policy
use shield_core.Prelude.{
  ℕ, ◌+◌, ◌-◌, ◌^◌, Bool, true, false, ◌&&◌, ◌||◌, not, Option, none, some, List, [], ◌∷◌, ◌++◌,
  Text, bytes, text_eq, has_prefix, contains, ltb, leb, ◌==◌, if◌then◌else◌,
}
use shield_core.Strings.Query.{cut, query_escape}
use shield_core.Net.Decimal.{digits_from, print_u64}
use shield_core.Server.{Event, mitigation, sync_ip, sync_policy}

-- `strings.TrimPrefix`
unfoldable pub without_prefix : Text → Text → Text
without_prefix t [] = t
without_prefix [] (d ∷ p) = []
without_prefix (c ∷ t) (d ∷ p) = without_prefix t p

unfoldable pub trim_prefix : Text → Text → Text
unfolding without_prefix
trim_prefix t p = if has_prefix t p then without_prefix t p else t

-- `strings.Replace(t, old, new, 1)`, for an old text that is not empty.
unfoldable pub replace_first : Text → Text → Text → Text
unfolding without_prefix
replace_first old new [] = []
replace_first old new (c ∷ t) =
    let rest = replace_first old new t in
    if has_prefix (c ∷ t) old then new ++ without_prefix (c ∷ t) old else c ∷ rest

-- The text before the last colon and the text behind it.
unfoldable pub cut_last : ℕ → Text → Option (Text × Text)
cut_last sep [] = none
cut_last sep (c ∷ t) = elim (cut_last sep t) [
  | some p ↦ some (c ∷ p.0, p.1)
  | none ↦ if c == sep then some ([], t) else none
]

-- `net.SplitHostPort` of a host in brackets, with the port behind the last colon.
unfoldable pub split_bracketed : Text → Text → Option (Text × Text)
unfolding without_prefix
split_bracketed host_port port =
    let (before, after) = cut b']' host_port in
    let inner = without_prefix host_port (bytes "[") in
    if contains host_port (bytes "]")
      && text_eq after (b':' ∷ port)
      && not (contains inner (bytes "["))
      && not (contains after (bytes "]"))
    then some (without_prefix before (bytes "["), port)
    else none

-- `net.SplitHostPort`
unfoldable pub split_host_port : Text → Option (Text × Text)
unfolding cut_last split_bracketed
split_host_port host_port = elim (cut_last b':' host_port) [
  | none ↦ none
  | some (host, port) ↦
      if has_prefix host_port (bytes "[")
      then split_bracketed host_port port
      else if contains host (bytes ":")
          || contains host_port (bytes "[")
          || contains host_port (bytes "]")
      then none
      else some (host, port)
]

-- `strconv.Atoi` without an error: a sign or none, and digits, in 64 bits.
unfoldable pub is_magnitude : ℕ → Text → Bool
is_magnitude limit [] = false
is_magnitude limit (c ∷ t) = elim (digits_from 0 (c ∷ t)) [ none ↦ false | some n ↦ ltb n limit ]

unfoldable pub is_int : Text → Bool
unfolding is_magnitude
is_int [] = false
is_int (c ∷ t) =
    if c == b'-'
    then is_magnitude (2 ^ 63 + 1) t
    else if c == b'+'
    then is_magnitude (2 ^ 63) t
    else is_magnitude (2 ^ 63) (c ∷ t)

-- What the node knows: the nodes of conf/nodes.json, its own listen address and key, what
-- `url.Parse` says of a URL (its host, or none on an error), the addresses of its interfaces and
-- its host name.
pub record Cluster : Type 0 where
  pub nodes : List Text
  pub listen_addr : Text
  pub api_key : Text
  pub url_host : Text → Option Text
  pub interface_addrs : Option (List Text)
  pub hostname : Option Text

-- conf/nodes.json: unreadable, or the nodes that decoding sets (on an error those before it).
unfoldable pub load_cluster_nodes : Option (List Text) → Cluster → Cluster
load_cluster_nodes none c = c
load_cluster_nodes (some nodes) c = record c { nodes = nodes }

unfoldable pub local_port : Text → Text
unfolding split_host_port trim_prefix is_int
local_port listen_addr = elim (split_host_port listen_addr) [
  | some (host, port) ↦ port
  | none ↦
      let cleaned = trim_prefix listen_addr (bytes ":") in
      if is_int cleaned then cleaned else bytes "9090"
]

unfoldable pub member_text : Text → List Text → Bool
member_text t [] = false
member_text t (u ∷ us) = text_eq u t || member_text t us

-- Where the interfaces cannot be read the host name is not asked.
unfoldable pub is_own_host : Cluster → Text → Bool
unfolding member_text
is_own_host c host = elim c.interface_addrs [
  | none ↦ false
  | some addrs ↦
      member_text host addrs || elim c.hostname [ none ↦ false | some name ↦ text_eq name host ]
]

unfoldable pub is_host_and_port_local : Cluster → Text → Text → Bool
unfolding local_port is_own_host
is_host_and_port_local c host port =
    if not (text_eq port []) && not (text_eq port (local_port c.listen_addr))
    then false
    else if text_eq host (bytes "localhost")
        || text_eq host (bytes "127.0.0.1")
        || text_eq host (bytes "::1")
    then true
    else is_own_host c host

-- Host and port, or the whole text and no port.
unfoldable pub host_and_port : Text → Text × Text
unfolding split_host_port
host_and_port t = elim (split_host_port t) [ none ↦ (t, []) | some p ↦ p ]

unfoldable pub is_local_address : Cluster → Text → Bool
unfolding host_and_port trim_prefix is_host_and_port_local
is_local_address c node_url = elim (c.url_host node_url) [
  | some host ↦ let (h, p) = host_and_port host in is_host_and_port_local c h p
  | none ↦
      let cleaned = trim_prefix (trim_prefix node_url (bytes "http://")) (bytes "https://") in
      let (h, p) = host_and_port (cut b'/' cleaned).0 in is_host_and_port_local c h p
]
