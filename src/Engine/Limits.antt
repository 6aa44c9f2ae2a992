-- ===== src/Engine/Limits.antt =====
-- A cycle imposes the limits of its level (src/control_plane/main.go, startAutoMitigation:
-- currentLevel, UpdateRateLimits).
use shield_core.Prelude.{
  ℕ, ◌≡◌, ◌≢◌, ◌⊎◌, ◌∙◌, ap, refl, Option, none, some, List, [], ◌∷◌, Text, ◌==◌, if◌then◌else◌,
  arith, Option-cases, inl, inr,
}
use shield_core.Float.{Float64}
use shield_core.Kernel.{Kernel, KeepsPut}
use shield_core.Maps.{MapManager, MapError}
use shield_core.Maps.Targets.{remove_blacklist_target}
use shield_core.Maps.Config.{update_rate_limits, pps_key, bps_key}
use shield_core.Maps.Config.Laws.{config_at, update_rate_limits_lem}
use shield_core.Maps.Cidr.{get_blacklist_count}
use shield_core.Maps.Scan.{clean_loop, clean_expired_blacklist, mitigate_loop, scan_and_mitigate}
use shield_core.Mitigation.Policy.{limits, scan_budget, expiry_ttl}
use shield_core.Server.{Server}
use shield_core.Engine.{
  Machine, Engine, before_32, drop_target, tell_blocked, tell_expired, after_clean, after_scan,
  enforce, cycle,
}
use shield_core.Engine.Rules.{settings-clean_loop, settings-mitigate_loop}
use shield_core.Engine.Blocks.{save_keeps}

module _ (K : Kernel) where
  -- A server whose manager has a given configuration map.
  abbrev HasConfig : Server K → Option K.config.Store → Type 0
  HasConfig w c = (m : MapManager K) × (w.map_mgr ≡ some m) × (m.config_map ≡ c)

  drop_target_config :
      (ip : Text) (m : MapManager K) → (drop_target K ip m).config_map ≡ m.config_map
  unfolding drop_target remove_blacklist_target
  drop_target_config ip m = elim (Option-cases (before_32 ip)) [
    | inl e ↦ ground (arith, e)
    | inr (t, e) ↦ ground (arith, e)
  ]

  tell_expired_config :
      (ips : List Text) (m : MapManager K) (w : Server K)
      → (tell_expired K ips m w).0.config_map ≡ m.config_map
  unfolding tell_expired
  tell_expired_config [] m w = refl
  tell_expired_config (ip ∷ ips) m w =
      tell_expired_config ips (drop_target K ip m) _ ∙ drop_target_config ip m

  after_clean_config :
      (m : MapManager K) (out : List Text) (e : Option MapError) (w : Server K)
      → HasConfig (after_clean K m out e w) m.config_map
  unfolding after_clean
  after_clean_config m out (some e) w = (m, refl, refl)
  after_clean_config m [] none w = (m, refl, refl)
  after_clean_config m (ip ∷ ips) none w =
      let (m', w') = tell_expired K (ip ∷ ips) m w in
      (m', save_keeps K (record w' { map_mgr = some m' }), tell_expired_config (ip ∷ ips) m w)

  after_scan_config :
      (now level pps : ℕ) (m : MapManager K) (out : List Text) (e : Option MapError) (w : Server K)
      → HasConfig (after_scan K now level pps m out e w) m.config_map
  unfolding after_scan clean_expired_blacklist
  after_scan_config now level pps m out (some e) w = (m, refl, refl)
  after_scan_config now level pps m out none w =
      let ttl = expiry_ttl level (get_blacklist_count K m) in
      let l = (K.lpm.iterate m.cidr_blacklist).0 in
      let m' = (clean_loop K now ttl l m).0 in
      let (n, at, same) = after_clean_config m' _ _ (tell_blocked K pps out w) in
      (n, at, same ∙ ap (λ s. s.2) (settings-clean_loop K now ttl l m))

module _ (F : Float64) (K : Kernel) (L : KeepsPut ◌==◌ K.config) (info : Text → Option ℕ)
    (parse_ipv6 : Text → Option ℕ) where
  enforce_config :
      (now level : ℕ) (cpu_percent : F.Carrier) (m : MapManager K) (w : Server K)
      → let l = limits level in
        HasConfig K
          (enforce F K info parse_ipv6 now level cpu_percent m w)
          (update_rate_limits K m l.pps_threshold l.bps_threshold).0.config_map
  unfolding enforce scan_and_mitigate
  enforce_config now level cpu_percent m w =
      let l = limits level in
      let m1 = (update_rate_limits K m l.pps_threshold l.bps_threshold).0 in
      let sources = (K.ip_stats.iterate m1.ip_stats_map).0 in
      let limit = scan_budget F level cpu_percent in
      let m2 =
        (mitigate_loop K parse_ipv6 now l.pps_threshold l.bps_threshold limit 0 sources m1).0 in
      let (n, at, same) = after_scan_config K now level l.pps_threshold m2 _ _ w in
      (
        n,
        at,
        same
            ∙ ap (λ s. s.2)
                (settings-mitigate_loop K parse_ipv6 now l.pps_threshold l.bps_threshold limit 0
                  sources m1),
      )

  -- At the end of a cycle the configuration map holds the limits of the level that the cycle has
  -- chosen, and under its other keys what it held; or the map refused a limit, and then it is as it
  -- was, or has the packet limit alone.
  pub cycle_imposes :
      (now : ℕ) (machine : Machine F) (s : Engine) (m : MapManager K) (w : Server K)
      → let (s', w') = cycle F K info parse_ipv6 now machine s m w in
        let l = limits s'.fsm.current_level in
        let refused = (update_rate_limits K m l.pps_threshold l.bps_threshold).1 ≢ none in
        (m' : MapManager K) × (w'.map_mgr ≡ some m')
        × (((key : ℕ)
              → config_at K m' key ≡ (
                  if key == pps_key
                  then some l.pps_threshold
                  else if key == bps_key
                  then some l.bps_threshold
                  else config_at K m key))
            ⊎ (refused × ((key : ℕ) → config_at K m' key ≡ config_at K m key))
            ⊎ (refused
                × ((key : ℕ)
                    → config_at K m' key
                      ≡ (if key == pps_key then some l.pps_threshold else config_at K m key))))
  unfolding cycle
  cycle_imposes now machine s m w =
      let (s', w') = cycle F K info parse_ipv6 now machine s m w in
      let l = limits s'.fsm.current_level in
      let m1 = (update_rate_limits K m l.pps_threshold l.bps_threshold).0 in
      let (m', at, same) = enforce_config now s'.fsm.current_level _ m w in
      let read : (key : ℕ) → config_at K m' key ≡ config_at K m1 key =
        λ key. ap (λ c. elim c [ none ↦ none | some t ↦ K.config.lookup key t ]) same in
      (
        m',
        at,
        elim (update_rate_limits_lem K L m l.pps_threshold l.bps_threshold) [
          | inl (e, kept) ↦ inl (λ key. read key ∙ kept key)
          | inr (inl (e, kept)) ↦ inr (inl (e, λ key. read key ∙ ap (λ n. config_at K n key) kept))
          | inr (inr (e, kept)) ↦ inr (inr (e, λ key. read key ∙ kept key))
        ],
      )
