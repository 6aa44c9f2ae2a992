-- ===== src/Maps/Backends.antt =====
-- Front-end addresses and their backends (src/control_plane/map_manager.go: AddBackendVIP,
-- RemoveBackendVIP, RoutingEntry, GetRoutingMap).
pub mod Laws
pub mod Removal
use shield_core.Prelude.{
  ℕ, Bool, true, false, Option, none, some, List, [], ◌∷◌, ◌++◌, Text, bytes, text_eq, contains,
  ◌==◌, if◌then◌else◌,
}
use shield_core.Strings.{split}
use shield_core.Net.Decimal.{parse_uint}
use shield_core.Net.Addr.{print_ipv4}
use shield_core.Net.Lpm.{Parsed, ip_to_uint32, swap32, htons, ntohs}
use shield_core.Kernel.{Kernel, MapOps, BackendKey, BackendInfo, delete_or_keep}
use shield_core.Wireguard.{Host, run, add_wireguard_peer, remove_wireguard_peer}
use shield_core.Maps.{MapManager, MapError, bad_address, put_failed, iterate_failed}
use shield_core.Maps.Cidr.{iterate_error}

-- The parts of a backend: its address, and its port, 0 where none can be read.
unfoldable pub backend_ip_of : Text → Text
unfolding contains
backend_ip_of backend_str =
    if contains backend_str (bytes ":")
    then elim (split b':' backend_str) [ [] ↦ [] | part ∷ parts ↦ part ]
    else backend_str

unfoldable pub second_part : List Text → Text
second_part [] = []
second_part (p ∷ []) = []
second_part (p ∷ q ∷ ps) = q

unfoldable pub backend_port_of : Text → ℕ
unfolding second_part
backend_port_of backend_str =
    if contains backend_str (bytes ":")
    then elim (parse_uint 16 (second_part (split b':' backend_str))) [ none ↦ 0 | some p ↦ p ]
    else 0

-- One iptables call on the NAT table: `-A` adds a rule and `-D` deletes it.
unfoldable pub dnat : Text → Text → List Text → Text → List Text
dnat op vip_str protocol destination =
    bytes "iptables"
    ∷ bytes "-t"
    ∷ bytes "nat"
    ∷ op
    ∷ bytes "PREROUTING"
    ∷ bytes "-d"
    ∷ vip_str
    ∷ bytes "-p"
    ∷ (protocol ++ bytes "-j" ∷ bytes "DNAT" ∷ bytes "--to-destination" ∷ destination ∷ [])

unfoldable pub tcp_match : List Text
tcp_match =
    bytes "tcp"
    ∷ bytes "-m"
    ∷ bytes "multiport"
    ∷ bytes "!"
    ∷ bytes "--dports"
    ∷ bytes "22,9090"
    ∷ []

unfoldable pub dnat_rules : Host → Text → Text → Text → Text → Host
unfolding dnat tcp_match
dnat_rules h op vip_str backend_str backend_ip_str =
    let tcp = run h (dnat op vip_str tcp_match backend_str) in
    let udp = run tcp (dnat op vip_str (bytes "udp" ∷ []) backend_str) in
    run udp (dnat op vip_str (bytes "icmp" ∷ []) backend_ip_str)

unfoldable pub tunnel_up : Host → Text → Text → Text → Text → Host
unfolding dnat_rules
tunnel_up h vip_str backend_str pubkey endpoint =
    let backend_ip_str = backend_ip_of backend_str in
    let peered = add_wireguard_peer h pubkey backend_ip_str endpoint in
    dnat_rules (if text_eq pubkey [] then h else peered) (bytes "-A") vip_str backend_str
      backend_ip_str

unfoldable pub tunnel_down : Host → Text → Text → Text → Host
unfolding dnat_rules
tunnel_down h vip_str backend_str pubkey =
    let backend_ip_str = backend_ip_of backend_str in
    let peerless = if text_eq pubkey [] then h else remove_wireguard_peer h pubkey in
    if text_eq backend_ip_str []
    then peerless
    else dnat_rules peerless (bytes "-D") vip_str backend_str backend_ip_str

unfoldable pub is_wireguard : Text → Bool
is_wireguard tunnel_type = text_eq tunnel_type (bytes "wireguard")

unfoldable pub backend_key : ℕ → ℕ → ℕ → BackendKey
backend_key vip_key vport protocol = record {
  vip = vip_key;
  vport = htons vport;
  protocol = protocol;
  pad = 0;
}

unfoldable pub backend_info : ℕ → Text → Text → BackendInfo
unfolding backend_port_of is_wireguard
backend_info backend_val backend_str tunnel_type = record {
  ip = backend_val;
  port = htons (backend_port_of backend_str);
  tunnel = if is_wireguard tunnel_type then 1 else 0;
  pad = 0;
}

module _ (K : Kernel) where
  unfoldable pub keys_of : ℕ → List (BackendKey × BackendInfo) → List BackendKey
  keys_of vip_key [] = []
  keys_of vip_key (p ∷ l) =
      let rest = keys_of vip_key l in if p.0.vip == vip_key then p.0 ∷ rest else rest

  unfoldable pub delete_all : List BackendKey → K.backend.Store → K.backend.Store
  delete_all [] s = s
  delete_all (k ∷ ks) s = delete_all ks (delete_or_keep K.backend k s)

  -- Every key of the front-end address, where the iteration ends without an error.
  unfoldable pub remove_vip : MapManager K → ℕ → MapManager K × Option MapError
  unfolding keys_of delete_all
  remove_vip m vip_key =
      let (l, done) = K.backend.iterate m.backend_map in
      if done
      then (record m { backend_map = delete_all (keys_of vip_key l) m.backend_map }, none)
      else (m, some iterate_failed)

module _ (K : Kernel) (parse_ipv6 : Text → Option ℕ) where
  -- The manager and the host after the call, and its error.
  unfoldable pub add_backend_vip :
      MapManager K
      → Host
      → Text
      → ℕ
      → ℕ
      → Text
      → Text
      → Text
      → Text
      → (MapManager K × Host) × Option MapError
  add_backend_vip m h vip_str vport protocol backend_str tunnel_type pubkey endpoint =
      let host =
        if is_wireguard tunnel_type then tunnel_up h vip_str backend_str pubkey endpoint else h in
      elim (ip_to_uint32 parse_ipv6 vip_str) [
        | Parsed.err e ↦ ((m, h), some (bad_address e))
        | Parsed.ok vip_key ↦ elim (ip_to_uint32 parse_ipv6 (backend_ip_of backend_str)) [
          | Parsed.err e ↦ ((m, h), some (bad_address e))
          | Parsed.ok backend_val ↦
              elim (K.backend.put (backend_key vip_key vport protocol)
                (backend_info backend_val backend_str tunnel_type) m.backend_map) [
                  | none ↦ ((m, host), some put_failed)
                  | some t ↦ ((record m { backend_map = t }, host), none)
                ]
        ]
      ]

  unfoldable pub remove_backend_vip :
      MapManager K
      → Host
      → Text
      → ℕ
      → ℕ
      → Text
      → Text
      → Text
      → (MapManager K × Host) × Option MapError
  remove_backend_vip m h vip_str vport protocol backend_str tunnel_type pubkey =
      let host = if is_wireguard tunnel_type then tunnel_down h vip_str backend_str pubkey else h in
      elim (ip_to_uint32 parse_ipv6 vip_str) [
        | Parsed.err e ↦ ((m, h), some (bad_address e))
        | Parsed.ok vip_key ↦
            let (m', e') = remove_vip K m vip_key in
            if vport == 0
            then ((m', host), e')
            else elim (K.backend.delete (backend_key vip_key vport protocol) m.backend_map) [
              | none ↦ ((m', host), e')
              | some t ↦ ((record m { backend_map = t }, host), none)
            ]
      ]

pub record RoutingEntry : Type 0 where
  pub vip : Text
  pub vport : ℕ  -- uint16
  pub protocol : Text
  pub backend_ip : Text
  pub backend_port : ℕ  -- uint16
  pub tunnel_type : Text

unfoldable pub routing_entry : BackendKey → BackendInfo → RoutingEntry
routing_entry key val = record {
  vip = print_ipv4 (swap32 key.vip);
  vport = ntohs key.vport;
  protocol =
      if key.protocol == 6
      then bytes "tcp"
      else if key.protocol == 17
      then bytes "udp"
      else bytes "any";
  backend_ip = print_ipv4 (swap32 val.ip);
  backend_port = ntohs val.port;
  tunnel_type = if val.tunnel == 1 then bytes "wireguard" else bytes "ipip";
}

module _ (K : Kernel) where
  entries_of : List (BackendKey × BackendInfo) → List RoutingEntry
  unfolding routing_entry
  entries_of [] = []
  entries_of (p ∷ l) = routing_entry p.0 p.1 ∷ entries_of l

  unfoldable pub get_routing_map : MapManager K → List RoutingEntry × Option MapError
  unfolding entries_of iterate_error
  get_routing_map m =
      let (l, done) = K.backend.iterate m.backend_map in (entries_of l, iterate_error K done)
