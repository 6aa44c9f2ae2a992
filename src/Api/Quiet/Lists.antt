-- ===== src/Api/Quiet/Lists.antt =====
-- The list handlers do not send a request of another node on (src/control_plane/main.go:
-- handleBlacklist, handleWhitelist).
use shield_core.Prelude.{
  ℕ, ◌≡◌, ◌∙◌, inl, inr, refl, true, Option, List, [], ◌∷◌, Text, bytes, text_eq, arith, Bool-cases,
  Option-cases, if◌then◌else◌,
}
use shield_core.Kernel.{Kernel}
use shield_core.Maps.{MapManager}
use shield_core.Maps.Targets.{get_whitelist_targets, get_blacklist_targets}
use shield_core.Server.{Server, sync_policy, write_event}
use shield_core.Api.{
  Request, Reply, targets, Resolved, networks, unresolved, resolve_target, target_of,
  post_blacklist, delete_blacklist, post_whitelist, delete_whitelist, fall_back, fallback_line,
  by_method, change_targets, handle_blacklist, handle_whitelist,
}
use shield_core.Api.Quiet.{sync_events_line, IsQuiet, commit-IsQuiet, sync_unless-quiet}

module _ (K : Kernel) (parse_ipv6 : Text → Option ℕ) (now : ℕ) where
  -- A branch adds no event for the other nodes to a request that one of them has sent.
  Quiets : (Request → List Text → MapManager K → Server K → Server K × Reply) → Type 0
  Quiets f =
      (r : Request) (cidrs : List Text) (m : MapManager K) (s : Server K)
      → text_eq r.sync (bytes "true") ≡ true
      → IsQuiet K s (f r cidrs m s).0

  post_blacklist-Quiets : Quiets (post_blacklist K parse_ipv6 now)
  unfolding post_blacklist Quiets
  post_blacklist-Quiets r cidrs m s h = commit-IsQuiet K r.sync _ _ _ _ _ _ s h

  delete_blacklist-Quiets : Quiets (delete_blacklist K parse_ipv6 now)
  unfolding delete_blacklist Quiets
  delete_blacklist-Quiets r cidrs m s h = commit-IsQuiet K r.sync _ _ _ _ _ _ s h

  post_whitelist-Quiets : Quiets (post_whitelist K parse_ipv6 now)
  unfolding post_whitelist Quiets
  post_whitelist-Quiets r cidrs m s h = commit-IsQuiet K r.sync _ _ _ _ _ _ s h

  fall_back-IsQuiet :
      (sync : Text) (l : List Text) (s fell plain : Server K)
      → text_eq sync (bytes "true") ≡ true
      → IsQuiet K s fell
      → IsQuiet K s plain
      → IsQuiet K s (fall_back K sync l fell plain)
  unfolding fall_back
  fall_back-IsQuiet sync [] s fell plain h g f =
      rw (sync_unless-quiet K sync (sync_policy (bytes "0")) fell h) g
  fall_back-IsQuiet sync (t ∷ ts) s fell plain h g f = f

  delete_whitelist-Quiets : Quiets (delete_whitelist K parse_ipv6 now)
  unfolding delete_whitelist Quiets write_event fallback_line
  delete_whitelist-Quiets r cidrs m s h =
      let noted : Server K = write_event K fallback_line s in
      fall_back-IsQuiet r.sync (get_whitelist_targets K _) s _ _ h
        (commit-IsQuiet K r.sync _ _ _ _ _ _ noted h ∙ sync_events_line s.events _ _ _ _)
        (commit-IsQuiet K r.sync _ _ _ _ _ _ s h)

  by_method-IsQuiet :
      (post delete : Request → List Text → MapManager K → Server K → Server K × Reply)
      → Quiets post
      → Quiets delete
      → (r : Request) (m : MapManager K) (s : Server K) (found : Resolved)
      → text_eq r.sync (bytes "true") ≡ true
      → IsQuiet K s (by_method K parse_ipv6 now post delete r m s found).0
  unfolding by_method Quiets
  by_method-IsQuiet post delete f g r m s (unresolved status) h = refl
  by_method-IsQuiet post delete f g r m s (networks cidrs) h =
      elim (Bool-cases (text_eq r.method (bytes "POST"))) [
        | inl y ↦ rw y (f r cidrs m s h)
        | inr n ↦ elim (Bool-cases (text_eq r.method (bytes "DELETE"))) [
          | inl y ↦ rw (n, y) (g r cidrs m s h)
          | inr k ↦ rw (n, k) refl
        ]
      ]

  change_targets-IsQuiet :
      (post delete : Request → List Text → MapManager K → Server K → Server K × Reply)
      → Quiets post
      → Quiets delete
      → (r : Request) (m : MapManager K) (s : Server K) → text_eq r.sync (bytes "true") ≡ true
      → IsQuiet K s (change_targets K parse_ipv6 now post delete r m s).0
  unfolding change_targets
  change_targets-IsQuiet post delete f g r m s h =
      let (geo, found) = resolve_target s.geoip_mgr (target_of r) in
      elim (Bool-cases (text_eq (target_of r) [])) [
        | inl y ↦ rw y refl
        | inr n ↦
            rw n (by_method-IsQuiet post delete f g r m (record s { geoip_mgr = geo }) found h)
      ]

  shown_or_changed-IsQuiet :
      (post delete : Request → List Text → MapManager K → Server K → Server K × Reply)
      → Quiets post
      → Quiets delete
      → (r : Request) (m : MapManager K) (s : Server K) (shown : Reply)
      → text_eq r.sync (bytes "true") ≡ true
      → IsQuiet K s
          (if text_eq r.method (bytes "GET")
            then (s, shown)
            else change_targets K parse_ipv6 now post delete r m s).0
  shown_or_changed-IsQuiet post delete f g r m s shown h =
      elim (Bool-cases (text_eq r.method (bytes "GET"))) [
        | inl y ↦ rw y refl
        | inr n ↦ rw n (change_targets-IsQuiet post delete f g r m s h)
      ]

  pub handle_blacklist-IsQuiet :
      (s : Server K) (r : Request)
      → text_eq r.sync (bytes "true") ≡ true
      → IsQuiet K s (handle_blacklist K parse_ipv6 now s r).0
  unfolding handle_blacklist
  handle_blacklist-IsQuiet s r h = elim (Option-cases s.map_mgr) [
    | inl e ↦ rw e refl
    | inr (m, e) ↦
        let post = post_blacklist K parse_ipv6 now in
        let delete = delete_blacklist K parse_ipv6 now in
        let shown = targets (get_blacklist_targets K m) in
        ground (
          arith,
          e,
          shown_or_changed-IsQuiet post delete post_blacklist-Quiets delete_blacklist-Quiets r m s
              shown h,
        )
  ]

  pub handle_whitelist-IsQuiet :
      (s : Server K) (r : Request)
      → text_eq r.sync (bytes "true") ≡ true
      → IsQuiet K s (handle_whitelist K parse_ipv6 now s r).0
  unfolding handle_whitelist
  handle_whitelist-IsQuiet s r h = elim (Option-cases s.map_mgr) [
    | inl e ↦ rw e refl
    | inr (m, e) ↦
        let post = post_whitelist K parse_ipv6 now in
        let delete = delete_whitelist K parse_ipv6 now in
        let shown = targets (get_whitelist_targets K m) in
        ground (
          arith,
          e,
          shown_or_changed-IsQuiet post delete post_whitelist-Quiets delete_whitelist-Quiets r m s
              shown h,
        )
  ]
