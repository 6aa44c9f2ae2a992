-- ===== src/Tests/Peers.antt =====
-- Peers, backends and databases at work (src/control_plane/map_manager.go, geoip.go).
use shield_core.Prelude.{
  ℕ, arith, ◌≡◌, ◌≢◌, ◌⊎◌, refl, true, Option, none, some, List, [], ◌∷◌, ◌++◌, Text, bytes,
  text_eq, has_prefix, contains, ◌==◌, if◌then◌else◌,
}
use shield_core.Strings.{trim_space, trim_left, trim_right, to_lower}
use shield_core.Net.Addr.{print_ipv4}
use shield_core.Net.Lpm.{Parsed, ip_to_uint32, swap32}
use shield_core.Kernel.{BackendKey, backend_key_eq}
use shield_core.Kernel.Table.{table-KeepsPut, table-IsMap, backend_key_IsEq, small_kernel}
use shield_core.Wireguard.{
  Host, add_wireguard_peer, remove_wireguard_peer, without_peer, last_block, pass_lines, pass_line,
}
use shield_core.Wireguard.Passes.{Joins}
use shield_core.Wireguard.RoundTrip.{remove-add_wireguard_peer}
use shield_core.Wireguard.Blocks.{Block, block_lines_of, others, without_peer_exact}
use shield_core.Maps.Backends.{
  backend_key, backend_info, backend_ip_of, backend_port_of, is_wireguard, add_backend_vip,
  remove_backend_vip, routing_entry,
}
use shield_core.Maps.Backends.Laws.{backend_at, add_backend_vip_lem, routing_entry-backend}
use shield_core.Maps.Backends.Removal.{Wiped, remove_backend_vip_lem}
use shield_core.Geoip.{
  DbFile, Disk, get_country_cidrs, get_asn_cidrs, init_geoip_manager, get_cidrs, reload, unloaded,
}
use shield_core.Geoip.Lookups.{answer}
use shield_core.Geoip.Requests.{country_of, answer_all, cidrs_never_stale}
use shield_core.Tests.Sweeps.{maps_before, no_ipv6}

abbrev conf : Text
conf = bytes "[Interface]" ++ 10 ∷ bytes "PrivateKey = x"

abbrev gateway : Host
gateway = record { commands = []; wg_conf = some conf; can_write = true }

remove-add_wireguard_peer_example :
    (remove_wireguard_peer
      (add_wireguard_peer gateway (bytes "k1") (bytes "10.8.0.2") [])
      (bytes "k1")).wg_conf
    ≡ some conf
unfolding contains has_prefix
remove-add_wireguard_peer_example =
    remove-add_wireguard_peer gateway conf (bytes "k1") (bytes "10.8.0.2") [] refl refl refl refl
      refl

abbrev peer_one : Block
unfolding has_prefix trim_space trim_left trim_right Joins
peer_one = record {
  first = bytes "[Peer]";
  rest = bytes "PublicKey = k1" ∷ [];
  opens = refl;
  rest_joins = ((refl, refl), tt);
}

abbrev peer_two : Block
unfolding has_prefix trim_space trim_left trim_right Joins
peer_two = record {
  first = bytes " [Peer]";
  rest = bytes "PublicKey = k2" ∷ bytes "" ∷ [];
  opens = refl;
  rest_joins = ((refl, refl), ((refl, refl), tt));
}

without_peer_exact_example :
    without_peer
      (bytes "k1")
      ((bytes "[Interface]" ∷ []) ++ block_lines_of (peer_one ∷ peer_two ∷ []))
    ≡ (bytes "[Interface]" ∷ []) ++ block_lines_of (others (bytes "k1") (peer_one ∷ peer_two ∷ []))
unfolding has_prefix trim_space trim_left trim_right
without_peer_exact_example =
    without_peer_exact (bytes "k1") (bytes "[Interface]" ∷ []) (peer_one ∷ peer_two ∷ []) (refl, tt)

abbrev kept : Option (List Text)
kept = some (bytes "[Interface]" ∷ bytes " [Peer]" ∷ bytes "PublicKey = k2" ∷ bytes "" ∷ [])

other_peer_stays :
    some (
      without_peer
        (bytes "k1")
        ((bytes "[Interface]" ∷ []) ++ block_lines_of (peer_one ∷ peer_two ∷ [])))
    ≡ kept
unfolding has_prefix trim_space trim_left trim_right without_peer block_lines_of last_block
    pass_lines peer_one peer_two pass_line contains
other_peer_stays = refl

abbrev vip : Text
vip = bytes "1.2.3.4"

abbrev web : ℕ
web = 80

abbrev backend : Text
backend = bytes "10.0.0.9:8080"

add_backend_vip_example :
    let ((m', h'), e) =
      add_backend_vip small_kernel no_ipv6 maps_before gateway vip 80 6 backend
        (bytes "ipip")
        []
        [] in
    (((e ≡ none)
        × ((a : ℕ) × ((ip : ℕ) × (ip_to_uint32 no_ipv6 vip ≡ Parsed.ok a)
              × (ip_to_uint32 no_ipv6 (backend_ip_of backend) ≡ Parsed.ok ip)
              × ((j : BackendKey)
                  → backend_at small_kernel m' j ≡ (
                      if backend_key_eq (backend_key a 80 6) j
                      then some (backend_info ip backend (bytes "ipip"))
                      else backend_at small_kernel maps_before j)))))
      ⊎ ((e ≢ none) × (m' ≡ maps_before)))
    × ((is_wireguard (bytes "ipip") ≡ true) ⊎ (h' ≡ gateway))
add_backend_vip_example =
    add_backend_vip_lem small_kernel (table-KeepsPut backend_key_eq backend_key_IsEq 8) no_ipv6
      maps_before gateway vip 80 6 backend (bytes "ipip") [] []

remove_backend_vip_example :
    let ((m', h'), e) =
      remove_backend_vip small_kernel no_ipv6 maps_before gateway vip 80 6 backend
        (bytes "ipip")
        [] in
    (((e ≡ none)
        × ((a : ℕ) × (ip_to_uint32 no_ipv6 vip ≡ Parsed.ok a)
            × (((web ≢ 0)
                  × ((j : BackendKey)
                      → backend_at small_kernel m' j ≡ (
                          if backend_key_eq (backend_key a 80 6) j
                          then none
                          else backend_at small_kernel maps_before j)))
                ⊎ (((web ≡ 0)
                      ⊎ (small_kernel.backend.delete (backend_key a 80 6) maps_before.backend_map
                          ≡ none))
                    × Wiped small_kernel a maps_before m'))))
      ⊎ ((e ≢ none) × (m' ≡ maps_before)))
    × ((is_wireguard (bytes "ipip") ≡ true) ⊎ (h' ≡ gateway))
remove_backend_vip_example =
    remove_backend_vip_lem small_kernel (table-IsMap backend_key_eq backend_key_IsEq 8) no_ipv6
      maps_before gateway vip 80 6 backend (bytes "ipip") []

routing_entry_example :
    routing_entry
      (backend_key (swap32 0x01020304) 80 6)
      (backend_info (swap32 0x0a000009) backend (bytes "ipip"))
    ≡ record {
      vip = print_ipv4 0x01020304;
      vport = 80;
      protocol = bytes "tcp";
      backend_ip = print_ipv4 0x0a000009;
      backend_port = backend_port_of backend;
      tunnel_type = if is_wireguard (bytes "ipip") then bytes "wireguard" else bytes "ipip";
    }
routing_entry_example =
    routing_entry-backend 0x01020304 0x0a000009 80 6 backend (bytes "ipip") (omega arith)
      (omega arith) (omega arith)

-- A database of two networks, of which one cannot be decoded.
abbrev countries : Text → Option (DbFile Text)
countries path =
    if text_eq path (bytes "c.mmdb")
    then some (record {
      file_size = 9;
      opened = some (record {
        database_type = bytes "GeoLite2-Country";
        major = 2;
        minor = 0;
        networks =
            record { subnet = bytes "1.0.0.0/24"; decode = λ v. some (bytes "VN") }
            ∷ record { subnet = bytes "2.0.0.0/24"; decode = λ v. none }
            ∷ [];
      });
    })
    else none

abbrev disk : Disk
disk = record { asn_files = λ p. none; country_files = countries }

cidrs_never_stale_example :
    let g =
      answer_all
        (init_geoip_manager disk 5 (bytes "a.mmdb") (bytes "c.mmdb"))
        (country_of (bytes "VN") ∷ []) in
    ((get_country_cidrs g (bytes "VN")).1 ≡ answer text_eq [] (bytes "VN") g.country)
    × ((get_asn_cidrs g 7).1 ≡ answer ◌==◌ 0 7 g.asn)
cidrs_never_stale_example =
    cidrs_never_stale disk 5 (bytes "a.mmdb") (bytes "c.mmdb") (country_of (bytes "VN") ∷ [])
      (bytes "VN") 7

one_network :
    (get_country_cidrs (init_geoip_manager disk 5 (bytes "a.mmdb") (bytes "c.mmdb")) (bytes "VN")).1
    ≡ some (bytes "1.0.0.0/24" ∷ [])
unfolding get_country_cidrs init_geoip_manager text_eq contains has_prefix get_cidrs reload unloaded
    to_lower
one_network = refl
