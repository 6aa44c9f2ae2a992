-- ===== src/Server.antt =====
-- The control plane's state behind its handlers, and how the rules are kept on disk
-- (src/control_plane/persist.go: RulesState, saveRulesState, applyTargetToMap,
-- restoreRulesState; src/control_plane/main.go: mapMgr, geoIPMgr, writeMitigationLog).
pub mod Restore
pub mod Json
pub mod Rules
pub mod Reputation
use shield_core.Prelude.{
  ℕ, ◌+◌, Bool, true, false, ◌&&◌, not, Option, none, some, List, [], ◌∷◌, ◌++◌, Text, bytes,
  contains, ◌==◌, length, map, if◌then◌else◌,
}
use shield_core.Strings.{to_upper}
use shield_core.Strings.Utf8.{json_text}
use shield_core.Kernel.{Kernel}
use shield_core.Maps.{MapManager, MapError, Outcome}
use shield_core.Maps.Targets.{
  add_whitelist_target, add_blacklist_target, get_whitelist_targets, get_blacklist_targets,
}
use shield_core.Maps.Config.{get_geoip_policy, set_geoip_policy}
use shield_core.Maps.Cidr.{block_cidr, add_whitelist_cidr}
use shield_core.Geoip.{GeoIpManager, get_country_cidrs}

pub record RulesState : Type 0 where
  pub geoip_policy : ℕ  -- uint64
  pub blacklist_targets : List Text
  pub whitelist_targets : List Text

-- The state that the JSON of a state decodes to.
unfoldable pub json_state : RulesState → RulesState
unfolding json_text
json_state state = record state {
  blacklist_targets = map json_text state.blacklist_targets;
  whitelist_targets = map json_text state.whitelist_targets;
}

-- conf/rules_state.json, by the state that it decodes to.
pub data StateFile : Type 0 where
  missing unparsable : StateFile
  saved : RulesState → StateFile

-- What a handler leaves outside of the maps: lines of mitigation.log and events for the nodes.
pub data Event : Type 0 where
  mitigation : Text → Text → Text → ℕ → Event  -- event, ip, reason, value
  sync_ip : Text → Text → Text → Event  -- endpoint, method, ip
  sync_policy : Text → Event
  sync_routing : Text → Text → ℕ → ℕ → Text → Text → Event  -- method and the arguments

-- `can_save` says whether the state file can be written, `persistent` that its path is set.
pub record Server (K : Kernel) : Type 0 where
  pub map_mgr : Option (MapManager K)
  pub geoip_mgr : Option GeoIpManager
  pub persistent : Bool
  pub state_file : StateFile
  pub can_save : Bool
  pub events : List Event

module _ (K : Kernel) where
  unfoldable pub policy_or_zero : Outcome ℕ → ℕ
  policy_or_zero (Outcome.ok v) = v
  policy_or_zero (Outcome.err e) = 0

  unfoldable pub rules_state_of : MapManager K → RulesState
  unfolding policy_or_zero
  rules_state_of m = record {
    geoip_policy = policy_or_zero (get_geoip_policy K m);
    blacklist_targets = get_blacklist_targets K m;
    whitelist_targets = get_whitelist_targets K m;
  }

  unfoldable pub save_rules_state : Server K → Server K
  unfolding json_state
  save_rules_state s = elim s.map_mgr [
    | none ↦ s
    | some m ↦
        if s.persistent && s.can_save
        then record s { state_file = saved (json_state (rules_state_of m)) }
        else s
  ]

  unfoldable pub write_event : Event → Server K → Server K
  write_event e s = record s { events = s.events ++ e ∷ [] }

-- A target of two characters without a dot is a country.
unfoldable pub is_country : Text → Bool
is_country target = length target == 2 && not (contains target (bytes "."))

-- A target that is no country, as a network.
unfoldable pub network_of : Text → Text
network_of target = if contains target (bytes "/") then target else target ++ bytes "/32"

-- The networks of a country, and the manager after the lookup; none where there is no manager, no
-- database or no network.
unfoldable pub resolve_country : Option GeoIpManager → Text → Option GeoIpManager × List Text
resolve_country none target = (none, [])
resolve_country (some g) target =
    let (g', out) = get_country_cidrs g (to_upper target) in
    (some g', elim out [ none ↦ [] | some l ↦ l ])

module _ (K : Kernel) (parse_ipv6 : Text → Option ℕ) (now : ℕ) where
  -- The errors of the single networks are dropped.
  unfoldable pub apply_all : Bool → List Text → MapManager K → MapManager K
  apply_all is_whitelist [] m = m
  apply_all is_whitelist (c ∷ cs) m =
      let added = add_whitelist_cidr K parse_ipv6 m c in
      let blocked = block_cidr K parse_ipv6 now m c in
      apply_all is_whitelist cs (if is_whitelist then added.0 else blocked.0)

  unfoldable pub apply_target_to_map :
      Bool → Text → Option GeoIpManager → MapManager K → Option GeoIpManager × MapManager K
  unfolding resolve_country is_country network_of
  apply_target_to_map is_whitelist target g m =
      let (g', cidrs) = resolve_country g target in
      if is_country target
      then (g', apply_all is_whitelist cidrs m)
      else (g, apply_all is_whitelist (network_of target ∷ []) m)

  unfoldable pub restore_blacklist :
      List Text → Option GeoIpManager → MapManager K → Option GeoIpManager × MapManager K
  restore_blacklist [] g m = (g, m)
  restore_blacklist (t ∷ ts) g m =
      let (g', m') = apply_target_to_map false t g (add_blacklist_target K m t) in
      restore_blacklist ts g' m'

  unfoldable pub restore_whitelist :
      List Text → Option GeoIpManager → MapManager K → Option GeoIpManager × MapManager K
  restore_whitelist [] g m = (g, m)
  restore_whitelist (t ∷ ts) g m =
      let (g', m') = apply_target_to_map true t g (add_whitelist_target K m t) in
      restore_whitelist ts g' m'

  unfoldable pub restore_rules_state : Server K → Server K
  restore_rules_state s = elim s.map_mgr [
    | none ↦ s
    | some m ↦ if not s.persistent then s else elim s.state_file [
      | missing ↦ s
      | unparsable ↦ s
      | saved state ↦
          let m1 = (set_geoip_policy K m state.geoip_policy).0 in
          let (g2, m2) = restore_blacklist state.blacklist_targets s.geoip_mgr m1 in
          let (g3, m3) = restore_whitelist state.whitelist_targets g2 m2 in
          record s { map_mgr = some m3; geoip_mgr = g3 }
    ]
  ]
