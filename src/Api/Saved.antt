-- ===== src/Api/Saved.antt =====
-- The state file follows the rules in memory (src/control_plane/main.go: handleBlacklist,
-- handleWhitelist, handleRulesPolicy; src/control_plane/persist.go).
use shield_core.Prelude.{
  ℕ, ◌≡◌, inl, inr, refl, true, Option, some, List, [], ◌∷◌, Text, bytes, text_eq, arith,
  Bool-cases,
}
use shield_core.Kernel.{Kernel}
use shield_core.Maps.{MapManager}
use shield_core.Maps.Targets.{get_whitelist_targets}
use shield_core.Server.{
  json_state, Server, Event, sync_policy, rules_state_of, save_rules_state, write_event,
}
use shield_core.Server.Rules.{Agrees}
use shield_core.Api.{
  Request, Reply, Resolved, networks, unresolved, resolve_target, target_of, sync_unless, commit,
  post_blacklist, delete_blacklist, post_whitelist, delete_whitelist, fall_back, fallback_line,
  by_method, change_targets, handle_blacklist, handle_whitelist,
}

module _ (K : Kernel) where
  -- The file that can be written holds the rules of the manager, in any order.
  unfoldable pub IsSaved : Server K → Type 0
  IsSaved s =
      (m : MapManager K) × (s.map_mgr ≡ some m)
      × (s.persistent ≡ true)
      × (s.can_save ≡ true)
      × Agrees s.state_file (rules_state_of K m)

  pub sync_unless-IsSaved :
      (sync : Text) (e : Event) (s : Server K) → IsSaved s → IsSaved (sync_unless K sync e s)
  unfolding sync_unless write_event IsSaved
  sync_unless-IsSaved sync e s h = elim (Bool-cases (text_eq sync (bytes "true"))) [
    | inl t ↦ rw t h
    | inr f ↦ rw f h
  ]

  pub commit-IsSaved :
      (sync : Text) (line event : Event) (m : MapManager K) (s : Server K)
      → s.persistent ≡ true
      → s.can_save ≡ true
      → IsSaved (commit K sync line event m s)
  unfolding commit write_event save_rules_state IsSaved
  commit-IsSaved sync line event m s p c =
      let kept = save_rules_state K (record s { map_mgr = some m }) in
      sync_unless-IsSaved sync event (write_event K line kept) (
        m,
        ground (arith, p, c),
        ground (arith, p, c),
        ground (arith, p, c),
        (json_state (rules_state_of K m), ground (arith, p, c), (refl, λ t. refl, λ t. refl)),
      )

module _ (K : Kernel) (parse_ipv6 : Text → Option ℕ) (now : ℕ) where
  -- What a branch that changes the targets makes of a server whose file can be written.
  Saves : (Request → List Text → MapManager K → Server K → Server K × Reply) → Type 0
  Saves f =
      (r : Request) (cidrs : List Text) (m : MapManager K) (s : Server K)
      → s.persistent ≡ true
      → s.can_save ≡ true
      → IsSaved K (f r cidrs m s).0

  post_blacklist-Saves : Saves (post_blacklist K parse_ipv6 now)
  unfolding post_blacklist Saves
  post_blacklist-Saves r cidrs m s p c = commit-IsSaved K r.sync _ _ _ s p c

  delete_blacklist-Saves : Saves (delete_blacklist K parse_ipv6 now)
  unfolding delete_blacklist Saves
  delete_blacklist-Saves r cidrs m s p c = commit-IsSaved K r.sync _ _ _ s p c

  post_whitelist-Saves : Saves (post_whitelist K parse_ipv6 now)
  unfolding post_whitelist Saves
  post_whitelist-Saves r cidrs m s p c = commit-IsSaved K r.sync _ _ _ s p c

  fall_back-IsSaved :
      (sync : Text) (l : List Text) (fell plain : Server K)
      → IsSaved K fell
      → IsSaved K plain
      → IsSaved K (fall_back K sync l fell plain)
  unfolding fall_back
  fall_back-IsSaved sync [] fell plain h g =
      sync_unless-IsSaved K sync (sync_policy (bytes "0")) fell h
  fall_back-IsSaved sync (t ∷ ts) fell plain h g = g

  delete_whitelist-Saves : Saves (delete_whitelist K parse_ipv6 now)
  unfolding delete_whitelist Saves write_event
  delete_whitelist-Saves r cidrs m s p c =
      fall_back-IsSaved r.sync (get_whitelist_targets K _) _ _
        (commit-IsSaved K r.sync _ _ _ (write_event K fallback_line s) p c)
        (commit-IsSaved K r.sync _ _ _ s p c)

  by_method-IsSaved :
      (post delete : Request → List Text → MapManager K → Server K → Server K × Reply)
      → Saves post
      → Saves delete
      → (r : Request) (m : MapManager K) (s : Server K) (found : Resolved) → IsSaved K s
      → IsSaved K (by_method K parse_ipv6 now post delete r m s found).0
  unfolding by_method Saves IsSaved
  by_method-IsSaved post delete f g r m s (unresolved status) h = h
  by_method-IsSaved post delete f g r m s (networks cidrs) (m', e, p, c, h) =
      elim (Bool-cases (text_eq r.method (bytes "POST"))) [
        | inl y ↦ rw y (f r cidrs m s p c)
        | inr n ↦ elim (Bool-cases (text_eq r.method (bytes "DELETE"))) [
          | inl y ↦ rw (n, y) (g r cidrs m s p c)
          | inr k ↦ rw (n, k) (m', e, p, c, h)
        ]
      ]

  change_targets-IsSaved :
      (post delete : Request → List Text → MapManager K → Server K → Server K × Reply)
      → Saves post
      → Saves delete
      → (r : Request) (m : MapManager K) (s : Server K) → IsSaved K s
      → IsSaved K (change_targets K parse_ipv6 now post delete r m s).0
  unfolding change_targets IsSaved
  change_targets-IsSaved post delete f g r m s h =
      let (geo, found) = resolve_target s.geoip_mgr (target_of r) in
      elim (Bool-cases (text_eq (target_of r) [])) [
        | inl y ↦ rw y h
        | inr n ↦
            rw n (by_method-IsSaved post delete f g r m (record s { geoip_mgr = geo }) found h)
      ]

  -- The handlers keep the file in step.
  pub handle_blacklist-IsSaved :
      (s : Server K) (r : Request)
      → IsSaved K s
      → IsSaved K (handle_blacklist K parse_ipv6 now s r).0
  unfolding handle_blacklist IsSaved
  handle_blacklist-IsSaved s r (m, e, p, c, f) =
      let loaded : Server K = record s { map_mgr = some m } in
      let post = post_blacklist K parse_ipv6 now in
      let delete = delete_blacklist K parse_ipv6 now in
      elim (Bool-cases (text_eq r.method (bytes "GET"))) [
        | inl y ↦ rw (e, y) (m, refl, p, c, f)
        | inr n ↦
            rw (e, n)
              (change_targets-IsSaved post delete post_blacklist-Saves delete_blacklist-Saves r m
                loaded (m, refl, p, c, f))
      ]

  pub handle_whitelist-IsSaved :
      (s : Server K) (r : Request)
      → IsSaved K s
      → IsSaved K (handle_whitelist K parse_ipv6 now s r).0
  unfolding handle_whitelist IsSaved
  handle_whitelist-IsSaved s r (m, e, p, c, f) =
      let loaded : Server K = record s { map_mgr = some m } in
      let post = post_whitelist K parse_ipv6 now in
      let delete = delete_whitelist K parse_ipv6 now in
      elim (Bool-cases (text_eq r.method (bytes "GET"))) [
        | inl y ↦ rw (e, y) (m, refl, p, c, f)
        | inr n ↦
            rw (e, n)
              (change_targets-IsSaved post delete post_whitelist-Saves delete_whitelist-Saves r m
                loaded (m, refl, p, c, f))
      ]
