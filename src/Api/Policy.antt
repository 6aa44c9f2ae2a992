-- ===== src/Api/Policy.antt =====
-- The handler of the GeoIP policy (src/control_plane/main.go: handleRulesPolicy).
use shield_core.Prelude.{ℕ, ◌||◌, Option, none, some, Text, bytes, text_eq, ◌==◌, if◌then◌else◌}
use shield_core.Kernel.{Kernel}
use shield_core.Maps.{MapManager, MapError, Outcome}
use shield_core.Maps.Config.{get_geoip_policy, set_geoip_policy}
use shield_core.Server.{Server, mitigation, sync_policy}
use shield_core.Api.{Request, Reply, refused, policy, commit}

module _ (K : Kernel) where
  -- `action`: the policy that is asked for.
  unfoldable pub policy_of : Text → Option ℕ
  policy_of action =
      if text_eq action (bytes "1") || text_eq action (bytes "drop")
      then some 1
      else if text_eq action (bytes "0") || text_eq action (bytes "pass")
      then some 0
      else none

  unfoldable pub policy_set :
      Text → ℕ → MapManager K → Server K → Option MapError → Server K × Reply
  unfolding commit
  policy_set sync p m s (some e) = (record s { map_mgr = some m }, refused 500)
  policy_set sync p m s none =
      let digit = if p == 1 then bytes "1" else bytes "0" in
      let line = mitigation (bytes "POLICY_UPDATE") digit (bytes "User updated GeoIP Policy") 0 in
      (commit K sync line (sync_policy digit) m s, policy p)

  unfoldable pub post_policy : Text → ℕ → MapManager K → Server K → Server K × Reply
  unfolding policy_set
  post_policy sync p m s = let (m', e) = set_geoip_policy K m p in policy_set sync p m' s e

  unfoldable pub show_policy : Server K → Outcome ℕ → Server K × Reply
  show_policy s (Outcome.err e) = (s, refused 500)
  show_policy s (Outcome.ok p) = (s, policy p)

  unfoldable pub take_action : Text → MapManager K → Server K → Option ℕ → Server K × Reply
  unfolding post_policy
  take_action sync m s none = (s, refused 400)
  take_action sync m s (some p) = post_policy sync p m s

  unfoldable pub handle_rules_policy : Server K → Request → Server K × Reply
  unfolding policy_of take_action show_policy
  handle_rules_policy s r = elim s.map_mgr [
    | none ↦ (s, refused 503)
    | some m ↦
        if text_eq r.method (bytes "GET")
        then show_policy s (get_geoip_policy K m)
        else if text_eq r.method (bytes "POST")
        then take_action r.sync m s (policy_of r.action)
        else (s, refused 405)
  ]
