-- ===== src/Api/Restart.antt =====
-- What a restart brings back of the rules that the handlers have set
-- (src/control_plane/main.go, src/control_plane/persist.go).
use shield_core.Prelude.{
  map, ℕ, ◌≡◌, ◌≢◌, ◌⊎◌, inl, inr, refl, ap, ◌∙◌, true, Option, none, some, List, [], ◌∷◌, Text,
  bytes, text_eq, arith, Bool-cases, ◌==◌,
}
use shield_core.Kernel.{Kernel, KeepsPut}
use shield_core.Maps.{MapManager, MapError, Outcome}
use shield_core.Maps.Targets.{member, get_blacklist_targets, get_whitelist_targets}
use shield_core.Maps.Config.{get_geoip_policy, set_geoip_policy}
use shield_core.Maps.Config.Laws.{get-set_geoip_policy}
use shield_core.Server.{json_state, Server, rules_state_of, policy_or_zero, restore_rules_state}
use shield_core.Server.Restore.{restore-saved}
use shield_core.Server.Rules.{Agrees}
use shield_core.Strings.Utf8.{json_text}
use shield_core.Api.{Request, handle_blacklist, handle_whitelist}
use shield_core.Api.Policy.{
  policy_of, policy_set, post_policy, show_policy, take_action, handle_rules_policy,
}
use shield_core.Api.Saved.{
  IsSaved, commit-IsSaved, handle_blacklist-IsSaved, handle_whitelist-IsSaved,
}

module _ (K : Kernel) (L : KeepsPut ◌==◌ K.config) where
  policy_set-IsSaved :
      (sync : Text) (n : ℕ) (m : MapManager K) (s : Server K) (e : Option MapError)
      → s.persistent ≡ true
      → s.can_save ≡ true
      → (e ≡ none) ⊎ Agrees s.state_file (rules_state_of K m)
      → IsSaved K (policy_set K sync n m s e).0
  unfolding policy_set IsSaved
  policy_set-IsSaved sync n m s none p c f = commit-IsSaved K sync _ _ _ s p c
  policy_set-IsSaved sync n m s (some x) p c (inl h) = absurd (ground (arith, h))
  policy_set-IsSaved sync n m s (some x) p c (inr f) = (m, refl, p, c, f)

  post_policy-IsSaved :
      (sync : Text) (n : ℕ) (m : MapManager K) (s : Server K)
      → s.map_mgr ≡ some m
      → s.persistent ≡ true
      → s.can_save ≡ true
      → Agrees s.state_file (rules_state_of K m)
      → IsSaved K (post_policy K sync n m s).0
  unfolding post_policy IsSaved
  post_policy-IsSaved sync n m s e p c f = elim (get-set_geoip_policy K L m n) [
    | inl (g, h, i) ↦ policy_set-IsSaved sync n (set_geoip_policy K m n).0 s _ p c (inl g)
    | inr (g, kept) ↦ policy_set-IsSaved sync n (set_geoip_policy K m n).0 s _ p c (inr (rw kept f))
  ]

  take_action-IsSaved :
      (sync : Text) (o : Option ℕ) (m : MapManager K) (s : Server K)
      → s.map_mgr ≡ some m
      → s.persistent ≡ true
      → s.can_save ≡ true
      → Agrees s.state_file (rules_state_of K m)
      → IsSaved K (take_action K sync m s o).0
  unfolding take_action IsSaved
  take_action-IsSaved sync none m s e p c f = (m, e, p, c, f)
  take_action-IsSaved sync (some n) m s e p c f = post_policy-IsSaved sync n m s e p c f

  show_policy-IsSaved :
      (o : Outcome ℕ) (s : Server K) → IsSaved K s → IsSaved K (show_policy K s o).0
  unfolding show_policy
  show_policy-IsSaved (Outcome.ok n) s h = h
  show_policy-IsSaved (Outcome.err x) s h = h

  pub handle_rules_policy-IsSaved :
      (s : Server K) (r : Request) → IsSaved K s → IsSaved K (handle_rules_policy K s r).0
  unfolding handle_rules_policy IsSaved
  handle_rules_policy-IsSaved s r (m, e, p, c, f) =
      let loaded : Server K = record s { map_mgr = some m } in
      elim (Bool-cases (text_eq r.method (bytes "GET"))) [
        | inl y ↦ rw (e, y) (show_policy-IsSaved (get_geoip_policy K m) loaded (m, refl, p, c, f))
        | inr n ↦ elim (Bool-cases (text_eq r.method (bytes "POST"))) [
          | inl y ↦
              rw (e, n, y) (take_action-IsSaved r.sync (policy_of K r.action) m loaded refl p c f)
          | inr k ↦ rw (e, n, k) (m, refl, p, c, f)
        ]
      ]

-- A request for the rules, at a time.
pub data Call : Type 0 where
  to_blacklist to_whitelist to_policy : ℕ → Request → Call

module _ (K : Kernel) (parse_ipv6 : Text → Option ℕ) where
  abbrev pub handle : Server K → Call → Server K
  handle s (to_blacklist now r) = (handle_blacklist K parse_ipv6 now s r).0
  handle s (to_whitelist now r) = (handle_whitelist K parse_ipv6 now s r).0
  handle s (to_policy now r) = (handle_rules_policy K s r).0

  abbrev pub handle_all : Server K → List Call → Server K
  handle_all s [] = s
  handle_all s (c ∷ cs) = handle_all (handle s c) cs

module _ (K : Kernel) (L : KeepsPut ◌==◌ K.config) (parse_ipv6 : Text → Option ℕ) where
  handle-IsSaved : (s : Server K) (c : Call) → IsSaved K s → IsSaved K (handle K parse_ipv6 s c)
  handle-IsSaved s (to_blacklist now r) h = handle_blacklist-IsSaved K parse_ipv6 now s r h
  handle-IsSaved s (to_whitelist now r) h = handle_whitelist-IsSaved K parse_ipv6 now s r h
  handle-IsSaved s (to_policy now r) h = handle_rules_policy-IsSaved K L s r h

  -- Where the state file can be written and holds the rules in memory, it holds them after any
  -- requests to the three handlers.
  pub handle_all-IsSaved :
      (s : Server K) (cs : List Call) → IsSaved K s → IsSaved K (handle_all K parse_ipv6 s cs)
  handle_all-IsSaved s [] h = h
  handle_all-IsSaved s (c ∷ cs) h =
      handle_all-IsSaved (handle K parse_ipv6 s c) cs (handle-IsSaved s c h)

  -- After any requests to the handlers, a start with empty target lists on the state file has
  -- exactly the targets that the server had, as JSON writes them, and its policy, or an error where
  -- it was set.
  pub restart_restores :
      (s : Server K) (cs : List Call) (now : ℕ) (s0 : Server K) (m0 : MapManager K)
      → IsSaved K s
      → s0.map_mgr ≡ some m0
      → m0.blacklist_targets ≡ []
      → m0.whitelist_targets ≡ []
      → s0.persistent ≡ true
      → s0.state_file ≡ (handle_all K parse_ipv6 s cs).state_file
      → (m : MapManager K) × (m' : MapManager K) × ((handle_all K parse_ipv6 s cs).map_mgr ≡ some m)
        × ((restore_rules_state K parse_ipv6 now s0).map_mgr ≡ some m')
        × ((t : Text)
            → member t m'.blacklist_targets ≡ member t (map json_text m.blacklist_targets))
        × ((t : Text)
            → member t m'.whitelist_targets ≡ member t (map json_text m.whitelist_targets))
        × ((get_geoip_policy K m' ≡ Outcome.ok (policy_or_zero K (get_geoip_policy K m)))
            ⊎ ((set_geoip_policy K m0 (policy_or_zero K (get_geoip_policy K m))).1 ≢ none))
  unfolding IsSaved json_state rules_state_of get_blacklist_targets get_whitelist_targets
  restart_restores s cs now s0 m0 h a b w p f =
      let (m, e, q, c, (held, g, (same, bs, ws))) = handle_all-IsSaved s cs h in
      let (m', e', b', w', o) = restore-saved K L parse_ipv6 now s0 m0 held a b w p (f ∙ g) in
      (
        m,
        m',
        e,
        e',
        λ t. b' t ∙ bs t,
        λ t. w' t ∙ ws t,
        elim o [ inl y ↦ inl (y ∙ ap Outcome.ok same) | inr n ↦ inr (rw⁻¹ same n) ],
      )
