-- ===== src/Engine/Rules.antt =====
-- What the engine leaves of the rules in memory (src/control_plane/main.go, startAutoMitigation:
-- UpdateRateLimits, ScanAndMitigate, CleanExpiredBlacklist).
use shield_core.Prelude.{
  ℕ, ◌+◌, ◌≡◌, ◌∙◌, ap, sym, refl, ◌&&◌, Option, none, some, List, [], ◌∷◌, Text, ltb, arith,
  Bool-cases, Option-cases, inl, inr, ◌==◌,
}
use shield_core.Kernel.{Kernel, KeepsPut, StatVal, delete_or_keep}
use shield_core.Maps.{MapManager, MapError, ok, err, not_loaded}
use shield_core.Maps.Targets.{get_blacklist_targets, get_whitelist_targets}
use shield_core.Maps.Config.{get_geoip_policy, update_rate_limits, policy_key}
use shield_core.Maps.Config.Laws.{config_at, update_rate_limits_lem}
use shield_core.Maps.Cidr.{block_cidr}
use shield_core.Maps.Scan.{
  is_expired, is_offender, clean_loop, mitigate_blocked, mitigate_one, mitigate_loop,
}
use shield_core.Net.Addr.{print_ipv4}
use shield_core.Net.Lpm.{LpmTrieKey, swap32}
use shield_core.Server.{RulesState, policy_or_zero, rules_state_of}
use shield_core.Server.Restore.{Settings, settings}
use shield_core.Startup.Restored.{targets-update_rate_limits}

module _ (K : Kernel) where
  -- The rules are read from the settings alone.
  unfoldable pub state_of_settings : Settings K → RulesState
  state_of_settings (b, w, c) = record {
    geoip_policy = policy_or_zero K (elim c [
      | none ↦ err not_loaded
      | some s ↦ elim (K.config.lookup policy_key s) [ none ↦ ok 0 | some val ↦ ok val ]
    ]);
    blacklist_targets = b;
    whitelist_targets = w;
  }

  -- The sweeps write neither the target lists nor the configuration map.
  pub rules_of_settings :
      (m m' : MapManager K)
      → settings K m' ≡ settings K m
      → rules_state_of K m' ≡ rules_state_of K m
  unfolding rules_state_of get_geoip_policy get_blacklist_targets get_whitelist_targets
      state_of_settings
  rules_of_settings m m' e = ap state_of_settings e

  pub settings-clean_loop :
      (now ttl : ℕ) (l : List (LpmTrieKey × ℕ)) (m : MapManager K)
      → settings K (clean_loop K now ttl l m).0 ≡ settings K m
  unfolding clean_loop
  settings-clean_loop now ttl [] m = refl
  settings-clean_loop now ttl (p ∷ l) m = elim (Bool-cases (is_expired now ttl p.1)) [
    | inl y ↦ rw y (
        settings-clean_loop now ttl l
          (record m { cidr_blacklist = delete_or_keep K.lpm p.0 m.cidr_blacklist }))
    | inr n ↦ rw n (settings-clean_loop now ttl l m)
  ]

module _ (K : Kernel) (parse_ipv6 : Text → Option ℕ) (now pps bps : ℕ) where
  settings-mitigate_blocked :
      (key : ℕ) (m : MapManager K) (made : MapManager K × Option MapError)
      → settings K made.0 ≡ settings K m
      → settings K (mitigate_blocked K key made).0 ≡ settings K m
  unfolding mitigate_blocked
  settings-mitigate_blocked key m (m', none) h = h
  settings-mitigate_blocked key m (m', some e) h = h

  settings-mitigate_one :
      (key : ℕ) (vals : List StatVal) (m : MapManager K)
      → settings K (mitigate_one K parse_ipv6 now pps bps key vals m).0 ≡ settings K m
  unfolding mitigate_one block_cidr
  settings-mitigate_one key vals m = elim (Bool-cases (is_offender pps bps vals)) [
    | inl y ↦ rw y (
        settings-mitigate_blocked key m (block_cidr K parse_ipv6 now m (print_ipv4 (swap32 key)))
          refl)
    | inr n ↦ rw n refl
  ]

  pub settings-mitigate_loop :
      (limit count : ℕ) (l : List (ℕ × List StatVal)) (m : MapManager K)
      → settings K (mitigate_loop K parse_ipv6 now pps bps limit count l m).0 ≡ settings K m
  unfolding mitigate_loop
  settings-mitigate_loop limit count [] m = refl
  settings-mitigate_loop limit count (p ∷ l) m =
      let one = settings-mitigate_one p.0 p.1 m in
      let m' = (mitigate_one K parse_ipv6 now pps bps p.0 p.1 m).0 in
      let rest = settings-mitigate_loop limit (count + 1) l m' in
      elim (Bool-cases (ltb 0 limit && ltb limit (count + 1))) [
        | inl y ↦ rw y refl
        | inr n ↦ rw n (rest ∙ one)
      ]

module _ (K : Kernel) (L : KeepsPut ◌==◌ K.config) where
  policy_is :
      (m : MapManager K)
      → policy_or_zero K (get_geoip_policy K m)
        ≡ elim (config_at K m policy_key) [ none ↦ 0 | some val ↦ val ]
  unfolding get_geoip_policy policy_or_zero
  policy_is m = elim (Option-cases m.config_map) [
    | inl e ↦ ground (arith, e)
    | inr (c, e) ↦ ground (arith, e, Option-cases (K.config.lookup policy_key c))
  ]

  policy_at :
      (m m' : MapManager K)
      → config_at K m' policy_key ≡ config_at K m policy_key
      → policy_or_zero K (get_geoip_policy K m') ≡ policy_or_zero K (get_geoip_policy K m)
  policy_at m m' h =
      policy_is m' ∙ ap (λ v. elim v [ none ↦ 0 | some val ↦ val ]) h ∙ sym (policy_is m)

  -- The limits are written under keys of their own.
  pub limits_rules :
      (m : MapManager K) (pps bps : ℕ)
      → rules_state_of K (update_rate_limits K m pps bps).0 ≡ rules_state_of K m
  unfolding rules_state_of get_blacklist_targets get_whitelist_targets
  limits_rules m pps bps =
      let m' = (update_rate_limits K m pps bps).0 in
      let (b, w) = targets-update_rate_limits K m pps bps in
      let kept : config_at K m' policy_key ≡ config_at K m policy_key =
        elim (update_rate_limits_lem K L m pps bps) [
          | inl (e, at) ↦ at policy_key
          | inr (inl (e, same)) ↦ ap (λ n. config_at K n policy_key) same
          | inr (inr (e, at)) ↦ at policy_key
        ] in
      cc (policy_at m m' kept, b, w)
