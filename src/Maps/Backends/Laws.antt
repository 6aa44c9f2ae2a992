-- ===== src/Maps/Backends/Laws.antt =====
-- What is in the backend map after AddBackendVIP and RemoveBackendVIP, and what GetRoutingMap
-- says of it (src/control_plane/map_manager.go).
use shield_core.Prelude.{
  ℕ, ◌<◌, ◌^◌, ◌≡◌, ◌≢◌, ◌⊎◌, inl, inr, true, Option, none, some, [], ◌∷◌, Text, bytes, ◌==◌,
  if◌then◌else◌, arith, Option-cases, Bool-cases,
}
use shield_core.Strings.{split}
use shield_core.Net.Decimal.{parse_uint}
use shield_core.Net.Addr.{print_ipv4}
use shield_core.Net.Lpm.{Parsed, Parsed-cases, ip_to_uint32, swap32}
use shield_core.Net.Lpm.RoundTrip.{swap32_involutive, ntohs-htons}
use shield_core.Kernel.{Kernel, KeepsPut, BackendKey, BackendInfo, backend_key_eq}
use shield_core.Wireguard.{Host}
use shield_core.Maps.{MapManager}
use shield_core.Maps.Backends.{
  backend_ip_of, backend_port_of, second_part, is_wireguard, backend_key, backend_info,
  add_backend_vip, routing_entry,
}

abbrev pub backend_at : (K : Kernel) → MapManager K → BackendKey → Option BackendInfo
backend_at K m key = K.backend.lookup key m.backend_map

module _ (K : Kernel) (L : KeepsPut backend_key_eq K.backend) (parse_ipv6 : Text → Option ℕ)
    (m : MapManager K) (h : Host) (vip_str : Text) (vport protocol : ℕ)
    (backend_str tunnel_type : Text) where
  -- Adding a backend either succeeds, and then it is written under the key of the two addresses
  -- that were read and every other key keeps its value, or fails and changes no map. Only a
  -- wireguard tunnel changes the host.
  pub add_backend_vip_lem :
      (pubkey endpoint : Text)
      → let ((m', h'), e) =
          add_backend_vip K parse_ipv6 m h vip_str vport protocol backend_str tunnel_type pubkey
            endpoint in
        (((e ≡ none)
            × ((vip : ℕ) × ((ip : ℕ) × (ip_to_uint32 parse_ipv6 vip_str ≡ Parsed.ok vip)
                  × (ip_to_uint32 parse_ipv6 (backend_ip_of backend_str) ≡ Parsed.ok ip)
                  × ((j : BackendKey)
                      → backend_at K m' j ≡ (
                          if backend_key_eq (backend_key vip vport protocol) j
                          then some (backend_info ip backend_str tunnel_type)
                          else backend_at K m j)))))
          ⊎ ((e ≢ none) × (m' ≡ m)))
        × ((is_wireguard tunnel_type ≡ true) ⊎ (h' ≡ h))
  unfolding add_backend_vip
  add_backend_vip_lem pubkey endpoint = elim (Parsed-cases (ip_to_uint32 parse_ipv6 vip_str)) [
    | inl (e, p) ↦ (inr (ground arith, ground arith), inr (ground arith))
    | inr (vip, p) ↦ elim (Parsed-cases (ip_to_uint32 parse_ipv6 (backend_ip_of backend_str))) [
      | inl (e, q) ↦ (inr (ground arith, ground arith), inr (ground arith))
      | inr (ip, q) ↦
          let key = backend_key vip vport protocol in
          let info = backend_info ip backend_str tunnel_type in
          (
            elim (Option-cases (K.backend.put key info m.backend_map)) [
              | inl f ↦ inr (ground arith, ground arith)
              | inr (u, f) ↦ inl (
                ground arith,
                (vip, (ip, p, q, λ j. ground (arith, L.lookup-put key j info m.backend_map u f))),
              )
            ],
            elim (Bool-cases (is_wireguard tunnel_type)) [
              | inl w ↦ inl w
              | inr w ↦ inr (elim (Option-cases (K.backend.put key info m.backend_map)) [
                | inl f ↦ ground arith
                | inr (u, f) ↦ ground arith
              ])
            ],
          )
    ]
  ]

pub parse_uint_bound : (w : ℕ) (t : Text) (n : ℕ) → parse_uint w t ≡ some n → n < 2 ^ w
unfolding parse_uint
parse_uint_bound w [] n h = ground arith
parse_uint_bound w (c ∷ t) n h = ground arith

backend_port_of_bound : (t : Text) → backend_port_of t < 2 ^ 16
unfolding backend_port_of
backend_port_of_bound t = elim (Option-cases (parse_uint 16 (second_part (split b':' t)))) [
  | inl n ↦ ground arith
  | inr (n, f) ↦ ground (arith, parse_uint_bound 16 (second_part (split b':' t)) n f)
]

-- What the routing map shows of a key and value that are written for 32-bit addresses and a
-- 16-bit port: those addresses, the port, the port of the backend text, and the names of the
-- protocol and the tunnel.
pub routing_entry-backend :
    (vip ip vport protocol : ℕ) (backend_str tunnel_type : Text)
    → vip < 2 ^ 32
    → ip < 2 ^ 32
    → vport < 2 ^ 16
    → routing_entry
        (backend_key (swap32 vip) vport protocol)
        (backend_info (swap32 ip) backend_str tunnel_type)
      ≡ record {
        vip = print_ipv4 vip;
        vport = vport;
        protocol =
            if protocol == 6
            then bytes "tcp"
            else if protocol == 17
            then bytes "udp"
            else bytes "any";
        backend_ip = print_ipv4 ip;
        backend_port = backend_port_of backend_str;
        tunnel_type = if is_wireguard tunnel_type then bytes "wireguard" else bytes "ipip";
      }
unfolding routing_entry backend_key backend_info
routing_entry-backend vip ip vport protocol backend_str tunnel_type h g f =
    let port = ntohs-htons (backend_port_of backend_str) (backend_port_of_bound backend_str) in
    ground (arith, port, ntohs-htons vport f, swap32_involutive vip h, swap32_involutive ip g)
