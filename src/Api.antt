-- ===== src/Api.antt =====
-- The handlers that read and change the rules (src/control_plane/main.go: handleBlacklist,
-- handleWhitelist).
pub mod Policy
pub mod Listed
pub mod Saved
pub mod Restart
pub mod Quiet
use shield_core.Prelude.{
  ℕ, ◌+◌, Bool, true, false, ◌||◌, not, Option, none, some, List, [], ◌∷◌, Text, bytes, text_eq,
  ◌==◌, if◌then◌else◌,
}
use shield_core.Strings.{to_upper}
use shield_core.Kernel.{Kernel}
use shield_core.Maps.{MapManager, MapError, Outcome}
use shield_core.Maps.Targets.{
  add_whitelist_target, add_blacklist_target, remove_whitelist_target, remove_blacklist_target,
  get_whitelist_targets, get_blacklist_targets,
}
use shield_core.Maps.Config.{get_geoip_policy, set_geoip_policy}
use shield_core.Maps.Cidr.{block_cidr, allow_cidr, add_whitelist_cidr, remove_whitelist_cidr}
use shield_core.Geoip.{GeoIpManager, get_country_cidrs}
use shield_core.Server.{
  Server, Event, mitigation, sync_ip, sync_policy, save_rules_state, write_event, is_country,
  network_of,
}

-- The method and the query of a request; what is not in the query is empty.
pub record Request : Type 0 where
  pub method : Text
  pub target : Text
  pub ip : Text
  pub action : Text
  pub sync : Text

-- Of an answer, the status of an error or what the body says.
pub data Reply : Type 0 where
  refused : ℕ → Reply
  targets : List Text → Reply
  changed : ℕ → Text → Reply
  policy : ℕ → Reply

-- What a target stands for, or the status of the error.
pub data Resolved : Type 0 where
  networks : List Text → Resolved
  unresolved : ℕ → Resolved

unfoldable pub resolved_country : Option (List Text) → Resolved
resolved_country none = unresolved 404
resolved_country (some []) = unresolved 404
resolved_country (some (c ∷ cs)) = networks (c ∷ cs)

unfoldable pub resolve_target : Option GeoIpManager → Text → Option GeoIpManager × Resolved
unfolding resolved_country
resolve_target none target =
    if is_country target then (none, unresolved 503) else (none, networks (network_of target ∷ []))
resolve_target (some g) target =
    let (g', out) = get_country_cidrs g (to_upper target) in
    if is_country target
    then (some g', resolved_country out)
    else (some g, networks (network_of target ∷ []))

unfoldable pub target_of : Request → Text
target_of r = if text_eq r.target [] then r.ip else r.target

-- A loop that counts the networks that are taken.
module _ {ℓ} {M : Type ℓ} (op : M → Text → M × Option MapError) where
  unfoldable pub count_ok : List Text → M → M × ℕ
  count_ok [] m = (m, 0)
  count_ok (c ∷ cs) m =
      let (m', e) = op m c in
      let (m'', n) = count_ok cs m' in (m'', elim e [ none ↦ n + 1 | some x ↦ n ])

module _ (K : Kernel) where
  unfoldable pub sync_unless : Text → Event → Server K → Server K
  sync_unless sync e s = if text_eq sync (bytes "true") then s else write_event K e s

  -- The targets in memory are changed, saved, and told of.
  unfoldable pub commit : Text → Event → Event → MapManager K → Server K → Server K
  unfolding sync_unless
  commit sync line event m s =
      sync_unless sync event
        (write_event K line (save_rules_state K (record s { map_mgr = some m })))

  -- What DELETE leaves: the policy of no targets is told of too.
  unfoldable pub fall_back : Text → List Text → Server K → Server K → Server K
  unfolding sync_unless
  fall_back sync [] fell plain = sync_unless sync (sync_policy (bytes "0")) fell
  fall_back sync (t ∷ ts) fell plain = plain

unfoldable pub fallback_line : Event
fallback_line =
    mitigation (bytes "POLICY_UPDATE") (bytes "0")
      (bytes "Auto fallback to blacklist (Default Pass) because whitelist is empty") 0

module _ (K : Kernel) (parse_ipv6 : Text → Option ℕ) (now : ℕ) where
  unfoldable pub post_blacklist : Request → List Text → MapManager K → Server K → Server K × Reply
  unfolding count_ok commit
  post_blacklist r cidrs m s =
      let target = target_of r in
      let (m', n) = count_ok (block_cidr K parse_ipv6 now) cidrs m in
      let line = mitigation (bytes "BLACKLIST_ADD") target (bytes "User manually blacklisted") 0 in
      let event = sync_ip (bytes "blacklist") (bytes "POST") target in
      (commit K r.sync line event (add_blacklist_target K m' target) s, changed n target)

  unfoldable pub delete_blacklist : Request → List Text → MapManager K → Server K → Server K × Reply
  unfolding count_ok commit
  delete_blacklist r cidrs m s =
      let target = target_of r in
      let (m', n) = count_ok (allow_cidr K parse_ipv6) cidrs m in
      let line =
        mitigation (bytes "BLACKLIST_REMOVE") target (bytes "User manually un-blacklisted") 0 in
      let event = sync_ip (bytes "blacklist") (bytes "DELETE") target in
      (commit K r.sync line event (remove_blacklist_target K m' target) s, changed n target)

  unfoldable pub post_whitelist : Request → List Text → MapManager K → Server K → Server K × Reply
  unfolding count_ok commit
  post_whitelist r cidrs m s =
      let target = target_of r in
      let (m', n) = count_ok (add_whitelist_cidr K parse_ipv6) cidrs m in
      let line = mitigation (bytes "WHITELIST_ADD") target (bytes "User added to whitelist") 0 in
      let event = sync_ip (bytes "whitelist") (bytes "POST") target in
      (commit K r.sync line event (add_whitelist_target K m' target) s, changed n target)

  -- Where no target is left, the policy falls back to 0; the error of that is dropped.
  unfoldable pub delete_whitelist : Request → List Text → MapManager K → Server K → Server K × Reply
  unfolding count_ok commit fallback_line fall_back
  delete_whitelist r cidrs m s =
      let target = target_of r in
      let (m', n) = count_ok (remove_whitelist_cidr K parse_ipv6) cidrs m in
      let left = remove_whitelist_target K m' target in
      let line =
        mitigation (bytes "WHITELIST_REMOVE") target (bytes "User removed from whitelist") 0 in
      let event = sync_ip (bytes "whitelist") (bytes "DELETE") target in
      let fallen = (set_geoip_policy K left 0).0 in
      let plain = commit K r.sync line event left s in
      let fell = commit K r.sync line event fallen (write_event K fallback_line s) in
      (fall_back K r.sync (get_whitelist_targets K left) fell plain, changed n target)

  -- The part that the two handlers share, with what POST and DELETE do of each.
  unfoldable pub by_method :
      (Request → List Text → MapManager K → Server K → Server K × Reply)
      → (Request → List Text → MapManager K → Server K → Server K × Reply)
      → Request
      → MapManager K
      → Server K
      → Resolved
      → Server K × Reply
  by_method post delete r m s (unresolved status) = (s, refused status)
  by_method post delete r m s (networks cidrs) =
      if text_eq r.method (bytes "POST")
      then post r cidrs m s
      else if text_eq r.method (bytes "DELETE")
      then delete r cidrs m s
      else (s, refused 405)

  unfoldable pub change_targets :
      (Request → List Text → MapManager K → Server K → Server K × Reply)
      → (Request → List Text → MapManager K → Server K → Server K × Reply)
      → Request
      → MapManager K
      → Server K
      → Server K × Reply
  unfolding resolve_target by_method
  change_targets post delete r m s =
      let target = target_of r in
      let (g, found) = resolve_target s.geoip_mgr target in
      if text_eq target []
      then (s, refused 400)
      else by_method post delete r m (record s { geoip_mgr = g }) found

  unfoldable pub handle_blacklist : Server K → Request → Server K × Reply
  unfolding change_targets
  handle_blacklist s r = elim s.map_mgr [
    | none ↦ (s, refused 503)
    | some m ↦
        if text_eq r.method (bytes "GET")
        then (s, targets (get_blacklist_targets K m))
        else change_targets post_blacklist delete_blacklist r m s
  ]

  unfoldable pub handle_whitelist : Server K → Request → Server K × Reply
  unfolding change_targets
  handle_whitelist s r = elim s.map_mgr [
    | none ↦ (s, refused 503)
    | some m ↦
        if text_eq r.method (bytes "GET")
        then (s, targets (get_whitelist_targets K m))
        else change_targets post_whitelist delete_whitelist r m s
  ]
