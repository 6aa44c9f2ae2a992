-- ===== src/Api/Quiet.antt =====
-- A request that another node has sent is not sent on (src/control_plane/main.go:
-- handleBlacklist, handleWhitelist, handleRulesPolicy, the test of `sync`).
pub mod Lists
use shield_core.Prelude.{
  ℕ, ◌≡◌, ◌∙◌, ap, false, inl, inr, refl, true, Option, none, some, List, [], ◌∷◌, ◌++◌, Text,
  bytes, text_eq, arith, Bool-cases, Option-cases, if◌then◌else◌,
}
use shield_core.Kernel.{Kernel}
use shield_core.Maps.{MapManager, MapError, Outcome}
use shield_core.Maps.Targets.{get_whitelist_targets, get_blacklist_targets}
use shield_core.Maps.Config.{get_geoip_policy}
use shield_core.Server.{
  Server, Event, mitigation, sync_ip, sync_policy, sync_routing, save_rules_state, write_event,
}
use shield_core.Api.{
  Request, Reply, targets, Resolved, networks, unresolved, resolve_target, target_of, sync_unless,
  commit, post_blacklist, delete_blacklist, post_whitelist, delete_whitelist, fall_back,
  fallback_line, by_method, change_targets, handle_blacklist, handle_whitelist,
}
use shield_core.Api.Policy.{
  policy_of, policy_set, post_policy, show_policy, take_action, handle_rules_policy,
}

-- The events that go to the other nodes.
abbrev pub sync_events : List Event → List Event
sync_events [] = []
sync_events (mitigation event ip reason value ∷ es) = sync_events es
sync_events (sync_ip endpoint method ip ∷ es) = sync_ip endpoint method ip ∷ sync_events es
sync_events (sync_policy action ∷ es) = sync_policy action ∷ sync_events es
sync_events (sync_routing method vip vport protocol backend tunnel ∷ es) =
    sync_routing method vip vport protocol backend tunnel ∷ sync_events es

pub sync_events_line :
    (es : List Event) (event ip reason : Text) (value : ℕ)
    → sync_events (es ++ mitigation event ip reason value ∷ []) ≡ sync_events es
sync_events_line [] event ip reason value = refl
sync_events_line (mitigation a b c d ∷ es) event ip reason value =
    sync_events_line es event ip reason value
sync_events_line (sync_ip a b c ∷ es) event ip reason value =
    cc (sync_events_line es event ip reason value)
sync_events_line (sync_policy a ∷ es) event ip reason value =
    cc (sync_events_line es event ip reason value)
sync_events_line (sync_routing a b c d e f ∷ es) event ip reason value =
    cc (sync_events_line es event ip reason value)

sync_events-append :
    (xs ys : List Event) → sync_events (xs ++ ys) ≡ sync_events xs ++ sync_events ys
sync_events-append [] ys = refl
sync_events-append (mitigation event ip reason value ∷ xs) ys = sync_events-append xs ys
sync_events-append (sync_ip endpoint method ip ∷ xs) ys = cc (sync_events-append xs ys)
sync_events-append (sync_policy action ∷ xs) ys = cc (sync_events-append xs ys)
sync_events-append (sync_routing method vip vport protocol backend tunnel ∷ xs) ys =
    cc (sync_events-append xs ys)

module _ (K : Kernel) where
  -- No event for the other nodes is added.
  abbrev pub IsQuiet : Server K → Server K → Type 0
  IsQuiet s s' = sync_events s'.events ≡ sync_events s.events

  pub sync_unless-quiet :
      (sync : Text) (e : Event) (s : Server K)
      → text_eq sync (bytes "true") ≡ true
      → sync_unless K sync e s ≡ s
  unfolding sync_unless
  sync_unless-quiet sync e s h = ground (arith, h)

  pub save-events : (s : Server K) → (save_rules_state K s).events ≡ s.events
  unfolding save_rules_state
  save-events s = elim (Option-cases s.map_mgr) [
    | inl e ↦ ground (arith, e)
    | inr (m, e) ↦ ground (arith, e)
  ]

  pub commit-IsQuiet :
      (sync event ip reason : Text) (value : ℕ) (e : Event) (m : MapManager K) (s : Server K)
      → text_eq sync (bytes "true") ≡ true
      → IsQuiet s (commit K sync (mitigation event ip reason value) e m s)
  unfolding commit write_event
  commit-IsQuiet sync event ip reason value e m s h =
      let started : Server K = record s { map_mgr = some m } in
      let saved = save-events started in
      let line = sync_events_line (save_rules_state K started).events event ip reason value in
      rw (sync_unless-quiet sync e _ h, line, saved) refl

module _ (K : Kernel) where
  pub sync_unless_told :
      (sync : Text) (e : Event) (s : Server K)
      → text_eq sync (bytes "true") ≡ false
      → sync_events (sync_unless K sync e s).events ≡ sync_events s.events ++ sync_events (e ∷ [])
  unfolding sync_unless write_event
  sync_unless_told sync e s h = rw h (sync_events-append s.events (e ∷ []))

  -- The event of a change that a client asks for is the one that is added.
  pub commit_told :
      (sync event ip reason : Text) (value : ℕ) (e : Event) (m : MapManager K) (s : Server K)
      → text_eq sync (bytes "true") ≡ false
      → sync_events (commit K sync (mitigation event ip reason value) e m s).events
        ≡ sync_events s.events ++ sync_events (e ∷ [])
  unfolding commit sync_unless write_event
  commit_told sync event ip reason value e m s h =
      rw (h, save-events K (record s { map_mgr = some m }))
        (sync_events-append (s.events ++ mitigation event ip reason value ∷ []) (e ∷ [])
          ∙ ap (λ es. es ++ sync_events (e ∷ [])) (sync_events_line s.events event ip reason value))

module _ (K : Kernel) where
  policy_set-IsQuiet :
      (sync : Text) (p : ℕ) (m : MapManager K) (s : Server K) (e : Option MapError)
      → text_eq sync (bytes "true") ≡ true
      → IsQuiet K s (policy_set K sync p m s e).0
  unfolding policy_set
  policy_set-IsQuiet sync p m s none h = commit-IsQuiet K sync _ _ _ _ _ m s h
  policy_set-IsQuiet sync p m s (some e) h = refl

  take_action-IsQuiet :
      (sync : Text) (m : MapManager K) (s : Server K) (p : Option ℕ)
      → text_eq sync (bytes "true") ≡ true
      → IsQuiet K s (take_action K sync m s p).0
  unfolding take_action post_policy
  take_action-IsQuiet sync m s none h = refl
  take_action-IsQuiet sync m s (some p) h = policy_set-IsQuiet sync p _ s _ h

  show_policy-IsQuiet : (s : Server K) (o : Outcome ℕ) → IsQuiet K s (show_policy K s o).0
  unfolding show_policy
  show_policy-IsQuiet s (Outcome.err e) = refl
  show_policy-IsQuiet s (Outcome.ok p) = refl

  pub handle_rules_policy-IsQuiet :
      (s : Server K) (r : Request)
      → text_eq r.sync (bytes "true") ≡ true
      → IsQuiet K s (handle_rules_policy K s r).0
  unfolding handle_rules_policy
  handle_rules_policy-IsQuiet s r h = elim (Option-cases s.map_mgr) [
    | inl e ↦ rw e refl
    | inr (m, e) ↦ ground (
      arith,
      e,
      take_action-IsQuiet r.sync m s (policy_of K r.action) h,
      show_policy-IsQuiet s (get_geoip_policy K m),
    )
  ]
