-- ===== src/Engine/Released.antt =====
-- What a tick does to the rules: it only drops targets of the blacklist
-- (src/control_plane/main.go, startAutoMitigation: RemoveBlacklistTarget).
use shield_core.Prelude.{
  ℕ, ◌≡◌, ◌∙◌, ap, refl, true, Option, none, some, List, [], ◌∷◌, Text, ltb, arith, Bool-cases,
  Option-cases, inl, inr, ◌==◌,
}
use shield_core.Float.{Float64}
use shield_core.Kernel.{Kernel, KeepsPut}
use shield_core.Maps.{MapManager, MapError}
use shield_core.Maps.Targets.{
  member, member-remove, remove, remove_blacklist_target, get_blacklist_targets,
  get_whitelist_targets,
}
use shield_core.Maps.Config.{get_geoip_policy, update_rate_limits}
use shield_core.Maps.Cidr.{get_blacklist_count}
use shield_core.Maps.Scan.{clean_loop, clean_expired_blacklist, mitigate_loop, scan_and_mitigate}
use shield_core.Mitigation.Policy.{limits, scan_budget, expiry_ttl}
use shield_core.Server.{RulesState, Server, rules_state_of}
use shield_core.Engine.{
  Machine, Engine, before_32, drop_target, tell_blocked, tell_expired, after_clean, after_scan,
  enforce, cycle, tick,
}
use shield_core.Engine.Rules.{
  state_of_settings, settings-clean_loop, settings-mitigate_loop, limits_rules, rules_of_settings,
}
use shield_core.Engine.Blocks.{save_keeps}

-- The same policy and whitelist, and no target of the blacklist that was not there.
abbrev pub Shrinks : RulesState → RulesState → Type 0
Shrinks a b =
    (b.geoip_policy ≡ a.geoip_policy)
    × ((t : Text) → member t b.whitelist_targets ≡ member t a.whitelist_targets)
    × ((t : Text) → member t b.blacklist_targets ≡ true → member t a.blacklist_targets ≡ true)

pub Shrinks-refl : (a : RulesState) → Shrinks a a
Shrinks-refl a = (refl, λ t. refl, λ t h. h)

pub Shrinks-trans : (a b c : RulesState) → Shrinks a b → Shrinks b c → Shrinks a c
Shrinks-trans a b c (p, w, l) (q, x, k) = (q ∙ p, λ t. x t ∙ w t, λ t h. l t (k t h))

module _ (K : Kernel) where
  Drops : MapManager K → MapManager K → Type 0
  Drops m m' =
      (m'.config_map ≡ m.config_map)
      × (m'.whitelist_targets ≡ m.whitelist_targets)
      × ((t : Text) → member t m'.blacklist_targets ≡ true → member t m.blacklist_targets ≡ true)

  drop_target-Drops : (ip : Text) (m : MapManager K) → Drops m (drop_target K ip m)
  unfolding Drops drop_target remove_blacklist_target
  drop_target-Drops ip m = elim (Option-cases (before_32 ip)) [
    | inl e ↦ (
      ground (arith, e),
      ground (arith, e),
      λ t h. ground (arith, e, h, member-remove ip t m.blacklist_targets),
    )
    | inr (host, e) ↦ (
      ground (arith, e),
      ground (arith, e),
      λ t h. ground (
        arith,
        e,
        h,
        member-remove ip t m.blacklist_targets,
        member-remove host t (remove ip m.blacklist_targets),
      ),
    )
  ]

  tell_expired-Drops :
      (ips : List Text) (m : MapManager K) (w : Server K) → Drops m (tell_expired K ips m w).0
  unfolding tell_expired Drops
  tell_expired-Drops [] m w = (refl, refl, λ t h. h)
  tell_expired-Drops (ip ∷ ips) m w =
      let (c, l, b) = drop_target-Drops ip m in
      let (c', l', b') = tell_expired-Drops ips (drop_target K ip m) _ in
      (c' ∙ c, l' ∙ l, λ t h. b t (b' t h))

  -- A manager behind a step of the cycle.
  abbrev LeavesDrops : MapManager K → Server K → Type 0
  LeavesDrops m w = (m' : MapManager K) × (w.map_mgr ≡ some m') × Drops m m'

  after_clean-Drops :
      (m : MapManager K) (out : List Text) (e : Option MapError) (w : Server K)
      → LeavesDrops m (after_clean K m out e w)
  unfolding after_clean Drops
  after_clean-Drops m out (some e) w = (m, refl, (refl, refl, λ t h. h))
  after_clean-Drops m [] none w = (m, refl, (refl, refl, λ t h. h))
  after_clean-Drops m (ip ∷ ips) none w =
      let (m', w') = tell_expired K (ip ∷ ips) m w in
      (m', save_keeps K (record w' { map_mgr = some m' }), tell_expired-Drops (ip ∷ ips) m w)

  -- The rules behind a manager that has dropped targets.
  Drops-Shrinks :
      (m m' : MapManager K) → Drops m m' → Shrinks (rules_state_of K m) (rules_state_of K m')
  unfolding Drops state_of_settings rules_state_of get_geoip_policy get_blacklist_targets
      get_whitelist_targets
  Drops-Shrinks m m' (c, l, b) =
      (ap (λ x. (state_of_settings K ([], [], x)).geoip_policy) c, λ t. ap (member t) l, b)

  -- A server whose rules are those of a manager, or fewer.
  abbrev pub Fewer : MapManager K → Server K → Type 0
  Fewer m w =
      (m' : MapManager K) × (w.map_mgr ≡ some m')
      × Shrinks (rules_state_of K m) (rules_state_of K m')

  after_scan-Fewer :
      (now level pps : ℕ) (m : MapManager K) (out : List Text) (e : Option MapError) (w : Server K)
      → Fewer m (after_scan K now level pps m out e w)
  unfolding after_scan clean_expired_blacklist
  after_scan-Fewer now level pps m out (some e) w = (m, refl, Shrinks-refl (rules_state_of K m))
  after_scan-Fewer now level pps m out none w =
      let ttl = expiry_ttl level (get_blacklist_count K m) in
      let l = (K.lpm.iterate m.cidr_blacklist).0 in
      let m' = (clean_loop K now ttl l m).0 in
      let same = rules_of_settings K m m' (settings-clean_loop K now ttl l m) in
      let (n, at, drops) = after_clean-Drops m' _ _ (tell_blocked K pps out w) in
      (n, at, rw⁻¹ same (Drops-Shrinks m' n drops))

module _ (F : Float64) (K : Kernel) (L : KeepsPut ◌==◌ K.config) (info : Text → Option ℕ)
    (parse_ipv6 : Text → Option ℕ) where
  enforce-Fewer :
      (now level : ℕ) (cpu_percent : F.Carrier) (m : MapManager K) (w : Server K)
      → Fewer K m (enforce F K info parse_ipv6 now level cpu_percent m w)
  unfolding enforce scan_and_mitigate
  enforce-Fewer now level cpu_percent m w =
      let l = limits level in
      let m1 = (update_rate_limits K m l.pps_threshold l.bps_threshold).0 in
      let sources = (K.ip_stats.iterate m1.ip_stats_map).0 in
      let limit = scan_budget F level cpu_percent in
      let m2 =
        (mitigate_loop K parse_ipv6 now l.pps_threshold l.bps_threshold limit 0 sources m1).0 in
      let swept =
        settings-mitigate_loop K parse_ipv6 now l.pps_threshold l.bps_threshold limit 0 sources
          m1 in
      let same : rules_state_of K m2 ≡ rules_state_of K m =
        rules_of_settings K m1 m2 swept ∙ limits_rules K L m l.pps_threshold l.bps_threshold in
      let (n, at, fewer) = after_scan-Fewer K now level l.pps_threshold m2 _ _ w in
      (n, at, rw⁻¹ same fewer)

  pub tick-Fewer :
      (now : ℕ) (machine : Machine F) (s : Engine) (w : Server K) (m : MapManager K)
      → w.map_mgr ≡ some m
      → Fewer K m (tick F K info parse_ipv6 now machine (s, w)).1
  unfolding tick cycle
  tick-Fewer now machine s w m e = elim (Bool-cases (ltb 0 s.warmup_cycles)) [
    | inl y ↦ rw (e, y) (m, refl, Shrinks-refl (rules_state_of K m))
    | inr n ↦ rw (e, n) (enforce-Fewer now _ _ m (record w { map_mgr = some m }))
  ]
