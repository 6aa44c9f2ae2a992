-- ===== src/Engine/Blocks/Flood.antt =====
-- A source over the thresholds of the level is blocked within the cycle
-- (src/control_plane/main.go, startAutoMitigation).
use shield_core.Prelude.{
  arith, none, refl, List, ◌∷◌, ◌++◌, length, ℕ, ◌^◌, ◌<◌, ◌≡◌, ◌⊎◌, inl, inr, Option, some, Text,
  All,
}
use shield_core.Float.{Float64}
use shield_core.Net.Lpm.{LpmTrieKey}
use shield_core.Kernel.{StatVal, Kernel, IsMap, key_eq}
use shield_core.Maps.{MapManager}
use shield_core.Maps.Config.{update_rate_limits}
use shield_core.Maps.Cidr.Laws.{blocked_at}
use shield_core.Maps.Scan.{mitigate_loop, scan_and_mitigate}
use shield_core.Maps.Scan.Offenders.{host}
use shield_core.Maps.Scan.Offenders.Complete.{IsOver, over_offends, mitigate_loop_missed}
use shield_core.Mitigation.Policy.{limits, scan_budget}
use shield_core.Server.{Server}
use shield_core.Engine.{enforce}
use shield_core.Engine.Blocks.{enforce_blocks}

module _ (F : Float64) (K : Kernel) (L : IsMap key_eq K.lpm) (info : Text → Option ℕ)
    (parse_ipv6 : Text → Option ℕ) where
  -- A source whose packets or bytes per second, summed over its record in 64 bits, are over that
  -- threshold of the level, with fewer records before it in the iteration than the scan budget lets
  -- through, is blocked at the end of the cycle with its time, or the trie, as the scan of the
  -- records before it has left it, refuses the source's key. The source keys that the iteration
  -- yields are 32-bit.
  pub flood_blocked :
      (now level : ℕ) (cpu_percent : F.Carrier) (m : MapManager K) (w : Server K) (j : LpmTrieKey)
      (xs : List (ℕ × List StatVal)) (vals : List StatVal) (ys : List (ℕ × List StatVal))
      → let l = limits level in
        let m1 = (update_rate_limits K m l.pps_threshold l.bps_threshold).0 in
        let budget = scan_budget F level cpu_percent in
        let sources = (K.ip_stats.iterate m1.ip_stats_map).0 in
        All (λ p. p.0 < 2 ^ 32) sources
        → j.prefix_len ≡ 32
        → j.bits < 2 ^ 32
        → sources ≡ xs ++ (j.bits, vals) ∷ ys
        → IsOver l.pps_threshold l.bps_threshold vals
        → (budget ≡ 0) ⊎ (length xs < budget)
        → ((m' : MapManager K) × ((enforce F K info parse_ipv6 now level cpu_percent m w).map_mgr
              ≡ some m')
            × (blocked_at K m' j ≡ some now))
          ⊎ (K.lpm.put
                (host j.bits)
                now
                (mitigate_loop K parse_ipv6 now l.pps_threshold l.bps_threshold budget 0 xs
                  m1).0.cidr_blacklist
              ≡ none)
  unfolding scan_and_mitigate
  flood_blocked now level cpu_percent m w j xs vals ys keys is_host bits at over fits =
      let l = limits level in
      let m1 = (update_rate_limits K m l.pps_threshold l.bps_threshold).0 in
      let budget = scan_budget F level cpu_percent in
      let offends = over_offends l.pps_threshold l.bps_threshold vals over in
      elim (mitigate_loop_missed K L parse_ipv6 now l.pps_threshold l.bps_threshold budget 0 xs
        (j.bits, vals) ys m1 j.bits bits (ground (arith, fits)) refl offends) [
          | inr refused ↦ inr refused
          | inl hit ↦ inl (
              enforce_blocks F K L info parse_ipv6 now level cpu_percent m w j keys is_host bits
                (rw at hit))
        ]
