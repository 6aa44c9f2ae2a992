-- ===== src/Engine/Saved.antt =====
-- A tick leaves the file with the rules in memory (src/control_plane/main.go, startAutoMitigation).
use shield_core.Prelude.{
  ℕ, ◌≡◌, ◌∙◌, refl, true, Option, none, some, List, [], ◌∷◌, Text, ltb, arith, Bool-cases, inl,
  inr, ◌==◌,
}
use shield_core.Float.{Float64}
use shield_core.Kernel.{Kernel, KeepsPut}
use shield_core.Maps.{MapManager, MapError}
use shield_core.Maps.Config.{update_rate_limits}
use shield_core.Maps.Cidr.{get_blacklist_count}
use shield_core.Maps.Scan.{clean_loop, clean_expired_blacklist, mitigate_loop, scan_and_mitigate}
use shield_core.Mitigation.Policy.{limits, scan_budget, expiry_ttl}
use shield_core.Server.{
  json_state, RulesState, Server, rules_state_of, save_rules_state, write_event,
}
use shield_core.Server.Rules.{Agrees}
use shield_core.Engine.{
  Machine, Engine, tell_blocked, tell_expired, after_clean, after_scan, enforce, cycle, tick,
}
use shield_core.Api.Saved.{IsSaved}
use shield_core.Engine.Rules.{
  rules_of_settings, settings-clean_loop, settings-mitigate_loop, limits_rules,
}

module _ (K : Kernel) where
  -- The part of a server that a save reads and writes.
  FiledAs : Server K → RulesState → Type 0
  FiledAs w state = (w.persistent ≡ true) × (w.can_save ≡ true) × Agrees w.state_file state

  map_mgr-IsSaved :
      (m : MapManager K) (w : Server K)
      → FiledAs w (rules_state_of K m)
      → IsSaved K (record w { map_mgr = some m })
  unfolding FiledAs IsSaved
  map_mgr-IsSaved m w (p, c, f) = (m, refl, p, c, f)

  tell_blocked-FiledAs :
      (pps : ℕ) (ips : List Text) (w : Server K) (state : RulesState)
      → FiledAs w state
      → FiledAs (tell_blocked K pps ips w) state
  unfolding tell_blocked write_event FiledAs
  tell_blocked-FiledAs pps [] w state h = h
  tell_blocked-FiledAs pps (ip ∷ ips) w state h = tell_blocked-FiledAs pps ips _ state h

  -- What is told of the expired blocks leaves the means of saving.
  tell_expired_means :
      (ips : List Text) (m : MapManager K) (w : Server K)
      → let w' = (tell_expired K ips m w).1 in
        (w'.persistent ≡ w.persistent) × (w'.can_save ≡ w.can_save)
  unfolding tell_expired write_event
  tell_expired_means [] m w = (refl, refl)
  tell_expired_means (ip ∷ ips) m w = tell_expired_means ips _ _

  save-IsSaved :
      (m : MapManager K) (w : Server K)
      → w.persistent ≡ true
      → w.can_save ≡ true
      → IsSaved K (save_rules_state K (record w { map_mgr = some m }))
  unfolding save_rules_state IsSaved
  save-IsSaved m w p c = (
    m,
    ground (arith, p, c),
    ground (arith, p, c),
    ground (arith, p, c),
    (json_state (rules_state_of K m), ground (arith, p, c), (refl, λ t. refl, λ t. refl)),
  )

  after_clean-IsSaved :
      (m : MapManager K) (out : List Text) (e : Option MapError) (w : Server K)
      → FiledAs w (rules_state_of K m)
      → IsSaved K (after_clean K m out e w)
  unfolding after_clean FiledAs
  after_clean-IsSaved m out (some e) w h = map_mgr-IsSaved m w h
  after_clean-IsSaved m [] none w h = map_mgr-IsSaved m w h
  after_clean-IsSaved m (ip ∷ ips) none w (p, c, f) =
      let (m', w') = tell_expired K (ip ∷ ips) m w in
      let (q, d) = tell_expired_means (ip ∷ ips) m w in save-IsSaved m' w' (q ∙ p) (d ∙ c)

  after_scan-IsSaved :
      (now level pps : ℕ) (m : MapManager K) (out : List Text) (e : Option MapError) (w : Server K)
      → FiledAs w (rules_state_of K m)
      → IsSaved K (after_scan K now level pps m out e w)
  unfolding after_scan clean_expired_blacklist
  after_scan-IsSaved now level pps m out (some e) w h = map_mgr-IsSaved m w h
  after_scan-IsSaved now level pps m out none w h =
      let ttl = expiry_ttl level (get_blacklist_count K m) in
      let l = (K.lpm.iterate m.cidr_blacklist).0 in
      let m' = (clean_loop K now ttl l m).0 in
      let same = rules_of_settings K m m' (settings-clean_loop K now ttl l m) in
      after_clean-IsSaved _ _ _ (tell_blocked K pps out w)
        (rw same (tell_blocked-FiledAs pps out w (rules_state_of K m) h))

module _ (F : Float64) (K : Kernel) (L : KeepsPut ◌==◌ K.config) (info : Text → Option ℕ)
    (parse_ipv6 : Text → Option ℕ) where
  enforce-IsSaved :
      (now level : ℕ) (cpu_percent : F.Carrier) (m : MapManager K) (w : Server K)
      → FiledAs K w (rules_state_of K m)
      → IsSaved K (enforce F K info parse_ipv6 now level cpu_percent m w)
  unfolding enforce scan_and_mitigate
  enforce-IsSaved now level cpu_percent m w h =
      let l = limits level in
      let m1 = (update_rate_limits K m l.pps_threshold l.bps_threshold).0 in
      let sources = (K.ip_stats.iterate m1.ip_stats_map).0 in
      let limit = scan_budget F level cpu_percent in
      let swept =
        settings-mitigate_loop K parse_ipv6 now l.pps_threshold l.bps_threshold limit 0 sources
          m1 in
      let m2 =
        (mitigate_loop K parse_ipv6 now l.pps_threshold l.bps_threshold limit 0 sources m1).0 in
      let same =
        rules_of_settings K m1 m2 swept ∙ limits_rules K L m l.pps_threshold l.bps_threshold in
      after_scan-IsSaved K now level l.pps_threshold _ _ _ w (rw same h)

  -- A tick keeps the rules on the file those in memory, whatever it reads, blocks and releases.
  pub tick-IsSaved :
      (now : ℕ) (machine : Machine F) (s : Engine) (w : Server K)
      → IsSaved K w
      → IsSaved K (tick F K info parse_ipv6 now machine (s, w)).1
  unfolding tick cycle IsSaved FiledAs
  tick-IsSaved now machine s w (m, e, p, c, f) = elim (Bool-cases (ltb 0 s.warmup_cycles)) [
    | inl y ↦ rw (e, y) (m, refl, p, c, f)
    | inr n ↦ rw (e, n) (enforce-IsSaved now _ _ m (record w { map_mgr = some m }) (p, c, f))
  ]
