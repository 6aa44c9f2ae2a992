-- ===== src/Engine/Blocks/Exact.antt =====
-- The whole effect of one cycle on the blocks of hosts
-- (src/control_plane/main.go, startAutoMitigation).
use shield_core.Prelude.{
  ℕ, ◌^◌, ◌<◌, ◌≡◌, ◌≢◌, ◌⊎◌, ap, ◌∙◌, refl, Option, none, some, List, Text, All, arith,
  Option-cases, inl, inr, if◌then◌else◌,
}
use shield_core.Float.{Float64}
use shield_core.Net.Lpm.{LpmTrieKey}
use shield_core.Kernel.{Kernel, IsMap, key_eq}
use shield_core.Maps.{MapManager, MapError}
use shield_core.Maps.Config.{update_rate_limits, bps_after_pps, config_put, pps_key, bps_key}
use shield_core.Maps.Cidr.{get_blacklist_count}
use shield_core.Maps.Scan.{scan_and_mitigate, clean_expired_blacklist}
use shield_core.Maps.Cidr.Laws.{blocked_at}
use shield_core.Maps.Scan.Expiry.{keep_fresh, Refuses, clean_expired_blacklist_exact}
use shield_core.Maps.Scan.Offenders.{reported, scan_and_mitigate_exact}
use shield_core.Mitigation.Policy.{limits, scan_budget, expiry_ttl}
use shield_core.Server.{Server}
use shield_core.Engine.{tell_blocked, after_scan, enforce}
use shield_core.Engine.Blocks.{after_clean_blocks}

module _ (K : Kernel) where
  limits_blocks :
      (m : MapManager K) (pps bps : ℕ) (j : LpmTrieKey)
      → blocked_at K (update_rate_limits K m pps bps).0 j ≡ blocked_at K m j
  unfolding update_rate_limits bps_after_pps config_put
  limits_blocks m pps bps j = elim (Option-cases m.config_map) [
    | inl e ↦ ground arith
    | inr (c, e) ↦ elim (Option-cases (K.config.put pps_key pps c)) [
      | inl f ↦ ground arith
      | inr (t, f) ↦ elim (Option-cases (K.config.put bps_key bps t)) [
        | inl g ↦ ground arith
        | inr (u, g) ↦ ground arith
      ]
    ]
  ]

module _ (K : Kernel) (L : IsMap key_eq K.lpm) where
  -- What the cycle leaves of a block behind the scan: what has not expired, or, where an iteration
  -- ended in an error or the block could not be deleted, the block.
  after_scan_exact :
      (now level pps : ℕ) (m : MapManager K) (out : List Text) (e : Option MapError) (w : Server K)
      (j : LpmTrieKey)
      → let ttl = expiry_ttl level (get_blacklist_count K m) in
        (m' : MapManager K) × ((after_scan K now level pps m out e w).map_mgr ≡ some m')
        × ((blocked_at K m' j ≡ keep_fresh now ttl (blocked_at K m j))
            ⊎ (((e ≢ none)
                  ⊎ ((clean_expired_blacklist K now ttl m).2 ≢ none)
                  ⊎ Refuses K now ttl (K.lpm.iterate m.cidr_blacklist).0 m j)
                × (blocked_at K m' j ≡ blocked_at K m j)))
  unfolding after_scan
  after_scan_exact now level pps m out (some x) w j = (m, refl, inr (inl (ground arith), refl))
  after_scan_exact now level pps m out none w j =
      let ttl = expiry_ttl level (get_blacklist_count K m) in
      let (m1, expired, e1) = clean_expired_blacklist K now ttl m in
      let cleaned = (clean_expired_blacklist_exact K L now ttl m).0 j in
      let (m2, at, same) = after_clean_blocks K m1 expired e1 (tell_blocked K pps out w) in
      let kept : blocked_at K m2 j ≡ blocked_at K m1 j = ap (λ s. K.lpm.lookup j s) same in
      (m2, at, elim cleaned [ inl c ↦ inl (kept ∙ c) | inr (x, k) ↦ inr (inr x, kept ∙ k) ])

module _ (F : Float64) (K : Kernel) (L : IsMap key_eq K.lpm) (info : Text → Option ℕ)
    (parse_ipv6 : Text → Option ℕ) where
  -- At the end of a cycle a host is blocked exactly as follows: with the time of the cycle where
  -- the scan reports it, else with the time of its block before, and not at all where that block
  -- has expired under the life that the level and the number of blocks set; where an iteration
  -- ended in an error, or the trie refused to delete an expired block of the host, it may stay. The
  -- source keys that the iteration yields are 32-bit.
  pub enforce_exact :
      (now level : ℕ) (cpu_percent : F.Carrier) (m : MapManager K) (w : Server K) (j : LpmTrieKey)
      → let l = limits level in
        let m1 = (update_rate_limits K m l.pps_threshold l.bps_threshold).0 in
        let scanned =
          scan_and_mitigate K parse_ipv6 now l.pps_threshold l.bps_threshold
            (scan_budget F level cpu_percent)
            m1 in
        let ttl = expiry_ttl level (get_blacklist_count K scanned.0) in
        let hit = if reported scanned.1 j.bits then some now else blocked_at K m j in
        All (λ p. p.0 < 2 ^ 32) (K.ip_stats.iterate m1.ip_stats_map).0
        → j.prefix_len ≡ 32
        → j.bits < 2 ^ 32
        → (m' : MapManager K) × ((enforce F K info parse_ipv6 now level cpu_percent m w).map_mgr
            ≡ some m')
          × ((blocked_at K m' j ≡ keep_fresh now ttl hit)
              ⊎ (((scanned.2 ≢ none)
                    ⊎ ((clean_expired_blacklist K now ttl scanned.0).2 ≢ none)
                    ⊎ Refuses K now ttl (K.lpm.iterate scanned.0.cidr_blacklist).0 scanned.0 j)
                  × (blocked_at K m' j ≡ hit)))
  unfolding enforce
  enforce_exact now level cpu_percent m w j keys host bits =
      let l = limits level in
      let m1 = (update_rate_limits K m l.pps_threshold l.bps_threshold).0 in
      let limit = scan_budget F level cpu_percent in
      let (m2, out, e) =
        scan_and_mitigate K parse_ipv6 now l.pps_threshold l.bps_threshold limit m1 in
      let exact =
        scan_and_mitigate_exact K L parse_ipv6 now l.pps_threshold l.bps_threshold limit m1 j keys
          bits in
      let before = limits_blocks K m l.pps_threshold l.bps_threshold j in
      let scanned : blocked_at K m2 j
          ≡ (if reported out j.bits then some now else blocked_at K m j) =
        ground (arith, exact.0, host, before) in
      let (m', at, left) = after_scan_exact K L now level l.pps_threshold m2 out e w j in
      (m', at, rw⁻¹ scanned left)
