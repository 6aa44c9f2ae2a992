-- ===== src/Server/Restore.antt =====
-- What a restart brings back (src/control_plane/persist.go).
use shield_core.Prelude.{
  map, ℕ, ◌≡◌, ◌≢◌, ◌⊎◌, inl, inr, ap, ◌∙◌, refl, Bool, true, false, ◌||◌, Option, none, some, List,
  [], ◌∷◌, Text, text_eq, arith, Bool-cases, Option-cases, ◌==◌,
}
use shield_core.Kernel.{Kernel, KeepsPut}
use shield_core.Maps.{MapManager, Outcome}
use shield_core.Maps.Targets.{
  member, member-insert, add_blacklist_target, add_whitelist_target, get_blacklist_targets,
  get_whitelist_targets,
}
use shield_core.Maps.Config.{get_geoip_policy, set_geoip_policy, config_put, policy_key}
use shield_core.Maps.Config.Laws.{get-set_geoip_policy}
use shield_core.Maps.Cidr.{block_cidr, add_whitelist_cidr}
use shield_core.Strings.Utf8.{json_text}
use shield_core.Geoip.{GeoIpManager}
use shield_core.Server.{
  json_state, RulesState, Server, saved, rules_state_of, policy_or_zero, is_country, network_of,
  resolve_country, apply_all, apply_target_to_map, restore_blacklist, restore_whitelist,
  restore_rules_state,
}

module _ (K : Kernel) where
  -- What the operations on the tries leave alone.
  abbrev pub Settings : Type 0
  Settings = List Text × List Text × Option K.config.Store

  abbrev pub settings : MapManager K → Settings
  settings m = (m.blacklist_targets, m.whitelist_targets, m.config_map)

or_move : (a b c : Bool) → (b || (a || c)) ≡ ((a || b) || c)
or_move a b c = ground arith

module _ (K : Kernel) (parse_ipv6 : Text → Option ℕ) (now : ℕ) where
  pub settings-apply_all :
      (w : Bool) (cs : List Text) (m : MapManager K)
      → settings K (apply_all K parse_ipv6 now w cs m) ≡ settings K m
  unfolding apply_all block_cidr add_whitelist_cidr
  settings-apply_all w [] m = refl
  settings-apply_all true (c ∷ cs) m =
      settings-apply_all true cs (add_whitelist_cidr K parse_ipv6 m c).0 ∙ refl
  settings-apply_all false (c ∷ cs) m =
      settings-apply_all false cs (block_cidr K parse_ipv6 now m c).0 ∙ refl

  settings-apply_target :
      (w : Bool) (t : Text) (g : Option GeoIpManager) (m : MapManager K)
      → settings K (apply_target_to_map K parse_ipv6 now w t g m).1 ≡ settings K m
  unfolding apply_target_to_map
  settings-apply_target w t g m = elim (Bool-cases (is_country t)) [
    | inl e ↦ rw e (settings-apply_all w (resolve_country g t).1 m)
    | inr e ↦ rw e (settings-apply_all w (network_of t ∷ []) m)
  ]

  restore_blacklist_lem :
      (ts : List Text) (g : Option GeoIpManager) (m : MapManager K) (u : Text)
      → let m' = (restore_blacklist K parse_ipv6 now ts g m).1 in
        (member u m'.blacklist_targets ≡ (member u ts || member u m.blacklist_targets))
        × (m'.whitelist_targets ≡ m.whitelist_targets)
        × (m'.config_map ≡ m.config_map)
  unfolding restore_blacklist member add_blacklist_target
  restore_blacklist_lem [] g m u = (refl, refl, refl)
  restore_blacklist_lem (t ∷ ts) g m u =
      let added = add_blacklist_target K m t in
      let next = apply_target_to_map K parse_ipv6 now false t g added in
      let same = settings-apply_target false t g added in
      let (b, w, c) = restore_blacklist_lem ts next.0 next.1 u in
      (
        b
            ∙ ap (λ x. member u ts || member u x.0) same
            ∙ ap (λ x. member u ts || x) (member-insert t u m.blacklist_targets)
            ∙ or_move (text_eq t u) (member u ts) (member u m.blacklist_targets),
        w ∙ ap (λ x. x.1) same,
        c ∙ ap (λ x. x.2) same,
      )

  restore_whitelist_lem :
      (ts : List Text) (g : Option GeoIpManager) (m : MapManager K) (u : Text)
      → let m' = (restore_whitelist K parse_ipv6 now ts g m).1 in
        (member u m'.whitelist_targets ≡ (member u ts || member u m.whitelist_targets))
        × (m'.blacklist_targets ≡ m.blacklist_targets)
        × (m'.config_map ≡ m.config_map)
  unfolding restore_whitelist member add_whitelist_target
  restore_whitelist_lem [] g m u = (refl, refl, refl)
  restore_whitelist_lem (t ∷ ts) g m u =
      let added = add_whitelist_target K m t in
      let next = apply_target_to_map K parse_ipv6 now true t g added in
      let same = settings-apply_target true t g added in
      let (b, w, c) = restore_whitelist_lem ts next.0 next.1 u in
      (
        b
            ∙ ap (λ x. member u ts || member u x.1) same
            ∙ ap (λ x. member u ts || x) (member-insert t u m.whitelist_targets)
            ∙ or_move (text_eq t u) (member u ts) (member u m.whitelist_targets),
        w ∙ ap (λ x. x.0) same,
        c ∙ ap (λ x. x.2) same,
      )

module _ (K : Kernel) where
  policy_of_config :
      (m m' : MapManager K)
      → m.config_map ≡ m'.config_map
      → get_geoip_policy K m ≡ get_geoip_policy K m'
  unfolding get_geoip_policy
  policy_of_config m m' e = rw e refl

  targets-set_geoip_policy :
      (m : MapManager K) (policy : ℕ)
      → let m' = (set_geoip_policy K m policy).0 in
        (m'.blacklist_targets ≡ m.blacklist_targets) × (m'.whitelist_targets ≡ m.whitelist_targets)
  unfolding set_geoip_policy config_put
  targets-set_geoip_policy m policy = elim (Option-cases m.config_map) [
    | inl e ↦ (ground arith, ground arith)
    | inr (c, e) ↦ elim (Option-cases (K.config.put policy_key policy c)) [
      | inl f ↦ (ground arith, ground arith)
      | inr (t, f) ↦ (ground arith, ground arith)
    ]
  ]

or_none : (t : Text) (b : Bool) → (b || member t []) ≡ b
unfolding member
or_none t b = ground arith

-- What is known of a server that restores rules into a manager without targets.
module _ (K : Kernel) (L : KeepsPut ◌==◌ K.config) (parse_ipv6 : Text → Option ℕ) (now : ℕ)
    (s : Server K) (m0 : MapManager K) where
  -- A start with empty target lists on a file of rules has exactly the targets of the file, and
  -- its policy or, where the configuration map takes no policy, an error of that write.
  pub restore-saved :
      (state : RulesState)
      → s.map_mgr ≡ some m0
      → m0.blacklist_targets ≡ []
      → m0.whitelist_targets ≡ []
      → s.persistent ≡ true
      → s.state_file ≡ saved state
      → let s' = restore_rules_state K parse_ipv6 now s in
        (m' : MapManager K) × (s'.map_mgr ≡ some m')
        × ((t : Text) → member t m'.blacklist_targets ≡ member t state.blacklist_targets)
        × ((t : Text) → member t m'.whitelist_targets ≡ member t state.whitelist_targets)
        × ((get_geoip_policy K m' ≡ Outcome.ok state.geoip_policy)
            ⊎ ((set_geoip_policy K m0 state.geoip_policy).1 ≢ none))
  unfolding restore_rules_state member
  restore-saved state a b w p f =
      let m1 = (set_geoip_policy K m0 state.geoip_policy).0 in
      let (g2, m2) = restore_blacklist K parse_ipv6 now state.blacklist_targets s.geoip_mgr m1 in
      let (g3, m3) = restore_whitelist K parse_ipv6 now state.whitelist_targets g2 m2 in
      let (kept_b, kept_w) = targets-set_geoip_policy K m0 state.geoip_policy in
      (
        m3,
        ground (arith, a, p, f),
        λ t.
            ap (member t) (restore_whitelist_lem K parse_ipv6 now state.whitelist_targets g2 m2 t).1
            ∙ (restore_blacklist_lem K parse_ipv6 now state.blacklist_targets s.geoip_mgr m1 t).0
            ∙ ap (λ x. member t state.blacklist_targets || member t x) (kept_b ∙ b)
            ∙ or_none t (member t state.blacklist_targets),
        λ t.
            (restore_whitelist_lem K parse_ipv6 now state.whitelist_targets g2 m2 t).0
            ∙ ap (λ x. member t state.whitelist_targets || member t x)
                ((restore_blacklist_lem K parse_ipv6 now state.blacklist_targets s.geoip_mgr m1 t).1
                  ∙ kept_w
                  ∙ w)
            ∙ or_none t (member t state.whitelist_targets),
        elim (get-set_geoip_policy K L m0 state.geoip_policy) [
          | inl (e, g, k) ↦ inl (
              policy_of_config K m3 m1 (
                (restore_whitelist_lem K parse_ipv6 now state.whitelist_targets g2 m2 []).2
                ∙ (restore_blacklist_lem K parse_ipv6 now state.blacklist_targets s.geoip_mgr m1
                    []).2)
              ∙ g)
          | inr (e, k) ↦ inr e
        ],
      )

  -- So of a file that was saved for a manager: its targets, as JSON writes them, and its policy.
  pub restore-save :
      (m : MapManager K)
      → s.map_mgr ≡ some m0
      → m0.blacklist_targets ≡ []
      → m0.whitelist_targets ≡ []
      → s.persistent ≡ true
      → s.state_file ≡ saved (json_state (rules_state_of K m))
      → let s' = restore_rules_state K parse_ipv6 now s in
        (m' : MapManager K) × (s'.map_mgr ≡ some m')
        × ((t : Text)
            → member t m'.blacklist_targets ≡ member t (map json_text m.blacklist_targets))
        × ((t : Text)
            → member t m'.whitelist_targets ≡ member t (map json_text m.whitelist_targets))
        × ((get_geoip_policy K m' ≡ Outcome.ok (policy_or_zero K (get_geoip_policy K m)))
            ⊎ ((set_geoip_policy K m0 (policy_or_zero K (get_geoip_policy K m))).1 ≢ none))
  unfolding json_state rules_state_of get_blacklist_targets get_whitelist_targets
  restore-save m a b w p f = restore-saved (json_state (rules_state_of K m)) a b w p f
