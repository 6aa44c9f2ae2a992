-- ===== src/Tests/Sweeps.antt =====
-- The two sweeps and the CIDR operations on small tables (src/control_plane/map_manager.go).
use shield_core.Prelude.{
  ℕ, ◌+◌, ◌^◌, ◌≤◌, ◌≡◌, ◌≢◌, ◌⊎◌, refl, true, false, ◌&&◌, ◌||◌, Option, none, some, [], ◌∷◌, Text,
  bytes, length, ltb, if◌then◌else◌, arith,
}
use shield_core.Float.Fraction.{fraction, fraction-IsOrdered}
use shield_core.Net.Lpm.{LpmTrieKey, format_lpm_key, swap32}
use shield_core.Net.Addr.{print_ipv4}
use shield_core.Kernel.{StatVal, key_eq}
use shield_core.Kernel.Table.{table-IsMap, key_IsEq, small_kernel}
use shield_core.Maps.{MapManager}
use shield_core.Maps.Cidr.Laws.{blocked_at, allowed_at}
use shield_core.Maps.Scan.{is_expired, clean_expired_blacklist, scan_and_mitigate}
use shield_core.Maps.Scan.Expiry.{
  keep_fresh, Refuses, clean_expired_blacklist_exact, is_expired_exact,
}
use shield_core.Maps.Scan.Offenders.{reported, offends, scan_and_mitigate_exact}
use shield_core.Maps.Health.{get_map_health, max_map_usage_of}
use shield_core.Maps.Health.Usage.{map_usage_never_seen}
use shield_core.Mitigation.Levels.{level_map, over}

abbrev pub no_ipv6 : Text → Option ℕ
no_ipv6 t = none

abbrev pub key : ℕ → LpmTrieKey
key bits = record { prefix_len = 32; bits = bits }

abbrev pub rate : ℕ → StatVal
rate pps = record { pps = pps; bps = 0; next_update = 0 }

-- Two blocks, of times 1000 and 5000, and two sources on two processors each.
abbrev pub maps_before : MapManager small_kernel
maps_before = record {
  config_map = none;
  cidr_blacklist = (key 7, 1000) ∷ (key 8, 5000) ∷ [];
  cidr_whitelist = [];
  ip_stats_map = (21, rate 400 ∷ rate 400 ∷ []) ∷ (22, rate 10 ∷ rate 10 ∷ []) ∷ [];
  backend_map = [];
  stats_map = [];
  vip_stats = none;
  ring_stats_map = none;
  active_countries = [];
  active_asns = [];
  whitelist_targets = [];
  blacklist_targets = [];
}

old_block_expires :
    (clean_expired_blacklist small_kernel 5100 3600 maps_before).1 ≡ bytes "7.0.0.0" ∷ []
unfolding clean_expired_blacklist format_lpm_key print_ipv4 swap32 key_eq
old_block_expires = refl

clean_expired_blacklist_example :
    let (m', out, e) = clean_expired_blacklist small_kernel 5100 3600 maps_before in
    ((j : LpmTrieKey)
      → (blocked_at small_kernel m' j
          ≡ keep_fresh 5100 3600 (blocked_at small_kernel maps_before j))
        ⊎ (((e ≢ none)
              ⊎ Refuses small_kernel 5100 3600
                  (small_kernel.lpm.iterate maps_before.cidr_blacklist).0
                  maps_before
                  j)
            × (blocked_at small_kernel m' j ≡ blocked_at small_kernel maps_before j)))
    × ((j : LpmTrieKey) → allowed_at small_kernel m' j ≡ allowed_at small_kernel maps_before j)
unfolding key_eq
clean_expired_blacklist_example =
    clean_expired_blacklist_exact small_kernel (table-IsMap key_eq key_IsEq 8) 5100 3600 maps_before

scan_and_mitigate_example :
    let (m', out, e) = scan_and_mitigate small_kernel no_ipv6 6000 500 1000 10 maps_before in
    (blocked_at small_kernel m' (key 21)
      ≡ (if reported out 21 then some 6000 else blocked_at small_kernel maps_before (key 21)))
    × ((reported out 21 ≡ false) ⊎ (offends 500 1000 10 0 maps_before.ip_stats_map 21 ≡ true))
    × ((◌≡◌ {A = ℕ} 10 0) ⊎ (length out ≤ 10))
unfolding key_eq
scan_and_mitigate_example =
    scan_and_mitigate_exact small_kernel (table-IsMap key_eq key_IsEq 8) no_ipv6 6000 500 1000 10
      maps_before (key 21) (ground arith) (omega arith)

is_expired_example :
    is_expired 5000 300 6000
    ≡ (ltb 1 6000 && (ltb (6000 + 300) 5000 || (ltb 5000 6000 && ltb (300 + 6000) (5000 + 2 ^ 64))))
is_expired_example = is_expired_exact 5000 300 6000 (omega arith) (omega arith)

abbrev pub capacities : Text → Option ℕ
capacities name = some 524288

map_usage_example :
    let seen =
      max_map_usage_of fraction (get_map_health fraction small_kernel capacities maps_before) in
    (seen ≡ (0, 0)) × (level_map fraction seen ≡ 0) × (over fraction seen 99 ≡ false)
map_usage_example =
    map_usage_never_seen fraction fraction-IsOrdered small_kernel capacities maps_before
