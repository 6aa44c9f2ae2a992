-- ===== src/Engine/Blocks.antt =====
-- What one cycle does to the sources that it reports
-- (src/control_plane/main.go, startAutoMitigation).
pub mod Exact
pub mod Flood
use shield_core.Prelude.{
  ℕ, ◌^◌, ◌<◌, ◌≡◌, ap, ◌∙◌, refl, true, false, Option, none, some, List, [], ◌∷◌, Text, All, arith,
  Option-cases, inl, inr,
}
use shield_core.Float.{Float64}
use shield_core.Net.Lpm.{LpmTrieKey}
use shield_core.Kernel.{Kernel, IsMap, key_eq}
use shield_core.Maps.{MapManager, MapError}
use shield_core.Maps.Targets.{remove_blacklist_target}
use shield_core.Maps.Config.{update_rate_limits}
use shield_core.Maps.Cidr.{get_blacklist_count}
use shield_core.Maps.Scan.{is_expired, age, scan_and_mitigate, clean_expired_blacklist}
use shield_core.Maps.Cidr.Laws.{blocked_at}
use shield_core.Maps.Scan.Expiry.{keep_fresh, clean_expired_blacklist_exact}
use shield_core.Maps.Scan.Offenders.{reported, scan_and_mitigate_exact}
use shield_core.Mitigation.Policy.{limits, scan_budget, expiry_ttl}
use shield_core.Server.{Server, save_rules_state}
use shield_core.Engine.{
  before_32, drop_target, tell_blocked, tell_expired, after_clean, after_scan, enforce,
}

-- A block of the present does not expire.
now_fresh : (now ttl : ℕ) → is_expired now ttl now ≡ false
unfolding is_expired age
now_fresh now ttl = ground arith

module _ (K : Kernel) where
  drop_target_blocks :
      (ip : Text) (m : MapManager K) → (drop_target K ip m).cidr_blacklist ≡ m.cidr_blacklist
  unfolding drop_target remove_blacklist_target
  drop_target_blocks ip m = elim (Option-cases (before_32 ip)) [
    | inl e ↦ ground (arith, e)
    | inr (t, e) ↦ ground (arith, e)
  ]

  tell_expired_blocks :
      (ips : List Text) (m : MapManager K) (w : Server K)
      → (tell_expired K ips m w).0.cidr_blacklist ≡ m.cidr_blacklist
  unfolding tell_expired
  tell_expired_blocks [] m w = refl
  tell_expired_blocks (ip ∷ ips) m w =
      tell_expired_blocks ips (drop_target K ip m) _ ∙ drop_target_blocks ip m

  pub save_keeps : (w : Server K) → (save_rules_state K w).map_mgr ≡ w.map_mgr
  unfolding save_rules_state
  save_keeps w = elim (Option-cases w.map_mgr) [
    | inl e ↦ ground (arith, e)
    | inr (m, e) ↦ ground (arith, e)
  ]

  -- What the clean-up leaves stays as it is when it is told of and saved.
  after_clean_blocks :
      (m : MapManager K) (out : List Text) (e : Option MapError) (w : Server K)
      → (m' : MapManager K) × ((after_clean K m out e w).map_mgr ≡ some m')
        × (m'.cidr_blacklist ≡ m.cidr_blacklist)
  unfolding after_clean
  after_clean_blocks m out (some e) w = (m, refl, refl)
  after_clean_blocks m [] none w = (m, refl, refl)
  after_clean_blocks m (ip ∷ ips) none w =
      let (m', w') = tell_expired K (ip ∷ ips) m w in
      (m', save_keeps (record w' { map_mgr = some m' }), tell_expired_blocks (ip ∷ ips) m w)

module _ (K : Kernel) (L : IsMap key_eq K.lpm) where
  -- A key whose block is of the present keeps it through what follows the scan.
  after_scan_keeps :
      (now level pps : ℕ) (m : MapManager K) (out : List Text) (e : Option MapError) (w : Server K)
      (j : LpmTrieKey)
      → blocked_at K m j ≡ some now
      → (m' : MapManager K) × ((after_scan K now level pps m out e w).map_mgr ≡ some m')
        × (blocked_at K m' j ≡ some now)
  unfolding after_scan
  after_scan_keeps now level pps m out (some e) w j h = (m, refl, h)
  after_scan_keeps now level pps m out none w j h =
      let ttl = expiry_ttl level (get_blacklist_count K m) in
      let (m1, expired, e1) = clean_expired_blacklist K now ttl m in
      let cleaned = (clean_expired_blacklist_exact K L now ttl m).0 j in
      let (m2, at, same) = after_clean_blocks K m1 expired e1 (tell_blocked K pps out w) in
      (
        m2,
        at,
        ap (λ s. K.lpm.lookup j s) same ∙ elim cleaned [
          | inl c ↦ c ∙ ap (keep_fresh now ttl) h ∙ ground (arith, now_fresh now ttl)
          | inr (x, k) ↦ k ∙ h
        ],
      )

module _ (F : Float64) (K : Kernel) (L : IsMap key_eq K.lpm) (info : Text → Option ℕ)
    (parse_ipv6 : Text → Option ℕ) where
  -- A source that the scan of a cycle reports is blocked at the end of the cycle, with its time.
  pub enforce_blocks :
      (now level : ℕ) (cpu_percent : F.Carrier) (m : MapManager K) (w : Server K) (j : LpmTrieKey)
      → let l = limits level in
        let m1 = (update_rate_limits K m l.pps_threshold l.bps_threshold).0 in
        let scanned =
          scan_and_mitigate K parse_ipv6 now l.pps_threshold l.bps_threshold
            (scan_budget F level cpu_percent)
            m1 in
        All (λ p. p.0 < 2 ^ 32) (K.ip_stats.iterate m1.ip_stats_map).0
        → j.prefix_len ≡ 32
        → j.bits < 2 ^ 32
        → reported scanned.1 j.bits ≡ true
        → (m' : MapManager K) × ((enforce F K info parse_ipv6 now level cpu_percent m w).map_mgr
            ≡ some m')
          × (blocked_at K m' j ≡ some now)
  unfolding enforce
  enforce_blocks now level cpu_percent m w j keys host bits hit =
      let l = limits level in
      let m1 = (update_rate_limits K m l.pps_threshold l.bps_threshold).0 in
      let limit = scan_budget F level cpu_percent in
      let exact =
        scan_and_mitigate_exact K L parse_ipv6 now l.pps_threshold l.bps_threshold limit m1 j keys
          bits in
      after_scan_keeps K L now level l.pps_threshold _ _ _ w j (ground (arith, exact.0, host, hit))
