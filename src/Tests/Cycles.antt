-- ===== src/Tests/Cycles.antt =====
-- Cycles of the engine on small tables (src/control_plane/main.go, startAutoMitigation).
use shield_core.Prelude.{
  ℕ, ◌++◌, ◌∷◌, inl, inr, ◌==◌, ◌+◌, ◌-◌, ◌^◌, ◌≡◌, ◌≢◌, ◌⊎◌, if◌then◌else◌, Option, Text, refl,
  false, none, some, List, [], text_eq, true, All, ◌<◌, arith,
}
use shield_core.Float.Fraction.{fraction}
use shield_core.Kernel.{key_eq}
use shield_core.Kernel.Table.{table-IsMap, table-KeepsPut, nat_IsEq, key_IsEq, small_kernel}
use shield_core.Kernel.{delete_or_keep}
use shield_core.Net.Decimal.{dtoi, dtoi_from, is_digit, print_small}
use shield_core.Net.Addr.{print_ipv4, parse_ipv4, scan_byte, scan_end, scan_ipv4}
use shield_core.Net.Lpm.{parse_cidr, split_slash, swap32, first_mark, to4, parse_ip, parse_net}
use shield_core.Maps.{MapManager, MapError}
use shield_core.Maps.Config.{update_rate_limits, config_put, pps_key, bps_key}
use shield_core.Maps.Config.Laws.{config_at}
use shield_core.Maps.Cidr.{block_cidr, put_cidr, iterate_error, get_blacklist_count}
use shield_core.Maps.Scan.{
  clean_expired_blacklist, scan_and_mitigate, mitigate_one, is_offender, mitigate_blocked,
  mitigate_loop, total_bps, total_pps,
}
use shield_core.Maps.Scan.Offenders.{host, reported}
use shield_core.Maps.Scan.Offenders.Complete.{IsOver}
use shield_core.Engine.Blocks.Flood.{flood_blocked}
use shield_core.Maps.Scan.Expiry.{Refuses, keep_fresh}
use shield_core.Mitigation.Policy.{limits, scan_budget, base_budget, expiry_ttl}
use shield_core.Maps.Cidr.Laws.{blocked_at}
use shield_core.Server.{Server, missing}
use shield_core.Engine.{CpuStats, cpu_diffs, Machine, Engine, start_engine, enforce, cycle}
use shield_core.Engine.Limits.{cycle_imposes}
use shield_core.Tests.Rules.{loaded}
use shield_core.Engine.Usage.{cpu_diffs_exact}
use shield_core.Engine.Blocks.Exact.{enforce_exact}
use shield_core.Tests.Sweeps.{rate, maps_before, no_ipv6, key, capacities}

abbrev counters : ℕ → ℕ → CpuStats
counters busy idle = record {
  user = busy;
  nice = 0;
  system = 7;
  idle = idle;
  iowait = 0;
  irq = 0;
  softirq = 0;
  steal = 0;
  guest = 0;
  guestnice = 0;
}

cpu_diffs_exact_example :
    let (busy, total) = cpu_diffs (counters 100 500) (counters 130 570) in
    (busy ≡ (130 - 100) + (0 - 0) + (7 - 7) + (0 - 0) + (0 - 0) + (0 - 0))
    × (total ≡ busy + (570 - 500) + (0 - 0))
cpu_diffs_exact_example = cpu_diffs_exact (counters 100 500) (counters 130 570) (omega arith)

abbrev server : Server small_kernel
server = record {
  map_mgr = some maps_before;
  geoip_mgr = none;
  persistent = false;
  state_file = missing;
  can_save = false;
  events = [];
}

abbrev pub machine : Machine fraction
machine = record { cpu = some (counters 130 570); ram = none; queue = some (5, 5000) }

abbrev pub engine : Engine
engine = start_engine (some (counters 100 500)) none

-- The limits of level 4 on a configuration that is not loaded.
abbrev limited : MapManager small_kernel
limited =
    (update_rate_limits small_kernel maps_before (limits 4).pps_threshold
      (limits 4).bps_threshold).0

keys_fit : All (λ p. p.0 < 2 ^ 32) (small_kernel.ip_stats.iterate limited.ip_stats_map).0
unfolding update_rate_limits
keys_fit = (omega arith, (omega arith, tt))

source_reported :
    reported
      (scan_and_mitigate small_kernel no_ipv6 6000
        (limits 4).pps_threshold
        (limits 4).bps_threshold
        (scan_budget fraction 4 (fraction.lit 10 1))
        limited).1
      21
    ≡ true
unfolding reported scan_and_mitigate update_rate_limits scan_budget mitigate_one is_offender limits
    block_cidr put_cidr parse_cidr split_slash print_ipv4 swap32 first_mark parse_ipv4 to4 key_eq
    delete_or_keep iterate_error config_put mitigate_blocked mitigate_loop total_bps total_pps
    base_budget scan_byte scan_end scan_ipv4 dtoi dtoi_from is_digit print_small parse_ip parse_net
    text_eq
source_reported = refl

abbrev swept : MapManager small_kernel × List Text × Option MapError
swept =
    scan_and_mitigate small_kernel no_ipv6 6000 (limits 4).pps_threshold (limits 4).bps_threshold
      (scan_budget fraction 4 (fraction.lit 10 1)) limited

enforce_exact_example :
    let ttl = expiry_ttl 4 (get_blacklist_count small_kernel swept.0) in
    let hit =
      if reported swept.1 21 then some 6000 else blocked_at small_kernel maps_before (key 21) in
    (m' : MapManager small_kernel) × ((enforce fraction small_kernel capacities no_ipv6 6000 4
        (fraction.lit 10 1)
        maps_before
        server).map_mgr
      ≡ some m')
    × ((blocked_at small_kernel m' (key 21) ≡ keep_fresh 6000 ttl hit)
        ⊎ (((swept.2 ≢ none)
              ⊎ ((clean_expired_blacklist small_kernel 6000 ttl swept.0).2 ≢ none)
              ⊎ Refuses small_kernel 6000 ttl
                  (small_kernel.lpm.iterate swept.0.cidr_blacklist).0
                  swept.0
                  (key 21))
            × (blocked_at small_kernel m' (key 21) ≡ hit)))
enforce_exact_example =
    enforce_exact fraction small_kernel (table-IsMap key_eq key_IsEq 8) capacities no_ipv6 6000 4
      (fraction.lit 10 1) maps_before server (key 21) keys_fit refl (omega arith)

cycle_imposes_example :
    let (s', w') =
      cycle fraction small_kernel capacities no_ipv6 6000 machine engine loaded server in
    let l = limits s'.fsm.current_level in
    let refused =
      (update_rate_limits small_kernel loaded l.pps_threshold l.bps_threshold).1 ≢ none in
    (m' : MapManager small_kernel) × (w'.map_mgr ≡ some m')
    × (((key : ℕ)
          → config_at small_kernel m' key ≡ (
              if key == pps_key
              then some l.pps_threshold
              else if key == bps_key
              then some l.bps_threshold
              else config_at small_kernel loaded key))
        ⊎ (refused
            × ((key : ℕ) → config_at small_kernel m' key ≡ config_at small_kernel loaded key))
        ⊎ (refused
            × ((key : ℕ)
                → config_at small_kernel m' key ≡ (
                    if key == pps_key
                    then some l.pps_threshold
                    else config_at small_kernel loaded key))))
cycle_imposes_example =
    cycle_imposes fraction small_kernel (table-KeepsPut ◌==◌ nat_IsEq 8) capacities no_ipv6 6000
      machine engine loaded server

source-IsOver : IsOver (limits 4).pps_threshold (limits 4).bps_threshold (rate 400 ∷ rate 400 ∷ [])
unfolding limits
source-IsOver = inl (omega arith)

first_source :
    (small_kernel.ip_stats.iterate limited.ip_stats_map).0
    ≡ [] ++ (21, rate 400 ∷ rate 400 ∷ []) ∷ (22, rate 10 ∷ rate 10 ∷ []) ∷ []
unfolding update_rate_limits
first_source = refl

flood_blocked_example :
    ((m' : MapManager small_kernel) × ((enforce fraction small_kernel capacities no_ipv6 6000 4
          (fraction.lit 10 1)
          maps_before
          server).map_mgr
        ≡ some m')
      × (blocked_at small_kernel m' (key 21) ≡ some 6000))
    ⊎ (small_kernel.lpm.put
          (host 21)
          6000
          (mitigate_loop small_kernel no_ipv6 6000
            (limits 4).pps_threshold
            (limits 4).bps_threshold
            (scan_budget fraction 4 (fraction.lit 10 1))
            0
            []
            limited).0.cidr_blacklist
        ≡ none)
unfolding scan_budget base_budget
flood_blocked_example =
    flood_blocked fraction small_kernel (table-IsMap key_eq key_IsEq 8) capacities no_ipv6 6000 4
      (fraction.lit 10 1) maps_before server (key 21) [] (rate 400 ∷ rate 400 ∷ [])
      ((22, rate 10 ∷ rate 10 ∷ []) ∷ []) keys_fit refl (omega arith) first_source source-IsOver
      (inr (omega arith))
