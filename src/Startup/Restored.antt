-- ===== src/Startup/Restored.antt =====
-- A start with the program brings the saved rules back (src/control_plane/main.go, main).
use shield_core.Prelude.{
  map, ℕ, ◌*◌, ◌≡◌, ◌≢◌, ◌∙◌, ◌⊎◌, ap, refl, true, false, Option, none, some, List, [], Text, arith,
  Option-cases, inl, inr, ◌==◌,
}
use shield_core.Kernel.{Kernel, KeepsPut}
use shield_core.Maps.{MapManager, Outcome}
use shield_core.Maps.Targets.{member, get_blacklist_targets, get_whitelist_targets}
use shield_core.Maps.Config.{
  update_rate_limits, bps_after_pps, config_put, get_geoip_policy, set_geoip_policy, pps_key,
  bps_key,
}
use shield_core.Strings.Utf8.{json_text}
use shield_core.Gate.{Config}
use shield_core.Geoip.{init_geoip_manager}
use shield_core.Cluster.{Cluster}
use shield_core.Server.{json_state, RulesState, saved, rules_state_of, policy_or_zero}
use shield_core.Server.Restore.{settings, settings-apply_all, restore-saved}
use shield_core.Server.Reputation.{ReputationItem, bad_networks, load_items_exact}
use shield_core.Startup.Loader.{Mode, attached_in}
use shield_core.Startup.{Found, new_map_manager, load_reputation, first_manager, server_with, start}

module _ (K : Kernel) where
  pub targets-update_rate_limits :
      (m : MapManager K) (pps bps : ℕ)
      → let m' = (update_rate_limits K m pps bps).0 in
        (m'.blacklist_targets ≡ m.blacklist_targets) × (m'.whitelist_targets ≡ m.whitelist_targets)
  unfolding update_rate_limits bps_after_pps config_put
  targets-update_rate_limits m pps bps = elim (Option-cases m.config_map) [
    | inl e ↦ (ground arith, ground arith)
    | inr (c, e) ↦ elim (Option-cases (K.config.put pps_key pps c)) [
      | inl f ↦ (ground arith, ground arith)
      | inr (t, f) ↦ elim (Option-cases (K.config.put bps_key bps t)) [
        | inl g ↦ (ground arith, ground arith)
        | inr (u, g) ↦ (ground arith, ground arith)
      ]
    ]
  ]

module _ (K : Kernel) (parse_ipv6 : Text → Option ℕ) (now : ℕ) where
  settings-load_reputation :
      (r : Option (List ReputationItem)) (m : MapManager K)
      → settings K (load_reputation K parse_ipv6 now r m) ≡ settings K m
  unfolding load_reputation
  settings-load_reputation none m = refl
  settings-load_reputation (some items) m =
      ap (settings K) (load_items_exact K parse_ipv6 now items m).0
      ∙ settings-apply_all K parse_ipv6 now false (bad_networks items) m

  first_manager-targets :
      (found : Found K)
      → ((first_manager K parse_ipv6 now found).blacklist_targets ≡ [])
        × ((first_manager K parse_ipv6 now found).whitelist_targets ≡ [])
  unfolding first_manager new_map_manager
  first_manager-targets found =
      let fresh = new_map_manager K found.maps in
      let limited = (update_rate_limits K fresh 5000 (10 * 1024 * 1024)).0 in
      let (b, w) = targets-update_rate_limits K fresh 5000 (10 * 1024 * 1024) in
      let same = settings-load_reputation found.reputation limited in
      (ap (λ x. x.0) same ∙ b, ap (λ x. x.1) same ∙ w)

module _ (K : Kernel) (L : KeepsPut ◌==◌ K.config) (parse_ipv6 : Text → Option ℕ) (now : ℕ) where
  -- A start that loads the program, on a file of rules, has exactly the targets of the file and
  -- its policy, or an error where it was set.
  pub start-saved :
      (config : Config) (mode : Mode) (found : Found K) (c : Cluster) (state : RulesState)
      → found.state_file ≡ saved state
      → let s = (start K parse_ipv6 now config (attached_in mode) found c).0 in
        (m' : MapManager K) × (s.map_mgr ≡ some m')
        × ((t : Text) → member t m'.blacklist_targets ≡ member t state.blacklist_targets)
        × ((t : Text) → member t m'.whitelist_targets ≡ member t state.whitelist_targets)
        × ((get_geoip_policy K m' ≡ Outcome.ok state.geoip_policy)
            ⊎ ((set_geoip_policy K (first_manager K parse_ipv6 now found) state.geoip_policy).1
                ≢ none))
  unfolding start server_with
  start-saved config mode found c state f =
      let m0 = first_manager K parse_ipv6 now found in
      let g = init_geoip_manager found.disk now config.asn_db_path config.country_db_path in
      let (b, w) = first_manager-targets K parse_ipv6 now found in
      restore-saved K L parse_ipv6 now (server_with K parse_ipv6 now (some m0) true g found) m0
        state refl b w refl f

  -- A start that loads the program, on the file that was saved for a manager, has exactly that
  -- manager's targets, with the replacement character for what is no UTF-8 in them, and its policy,
  -- or an error where it was set, whatever maps it finds and whatever the list of reputation holds.
  pub start_restores :
      (config : Config) (mode : Mode) (found : Found K) (c : Cluster) (m : MapManager K)
      → found.state_file ≡ saved (json_state (rules_state_of K m))
      → let s = (start K parse_ipv6 now config (attached_in mode) found c).0 in
        (m' : MapManager K) × (s.map_mgr ≡ some m')
        × ((t : Text)
            → member t m'.blacklist_targets ≡ member t (map json_text m.blacklist_targets))
        × ((t : Text)
            → member t m'.whitelist_targets ≡ member t (map json_text m.whitelist_targets))
        × ((get_geoip_policy K m' ≡ Outcome.ok (policy_or_zero K (get_geoip_policy K m)))
            ⊎ ((set_geoip_policy K
                  (first_manager K parse_ipv6 now found)
                  (policy_or_zero K (get_geoip_policy K m))).1
                ≢ none))
  unfolding json_state rules_state_of get_blacklist_targets get_whitelist_targets
  start_restores config mode found c m f =
      start-saved config mode found c (json_state (rules_state_of K m)) f
