-- ===== src/Tests/Nodes.antt =====
-- Events between concrete nodes (src/control_plane/main.go: syncGeoPolicyEvent,
-- syncIPEvent, handleRulesPolicy, handleBlacklist).
use shield_core.Prelude.{
  true, [], ◌∷◌, ◌++◌, All, text_eq, ◌≡◌, ◌≢◌, ◌⊎◌, refl, none, some, bytes, contains, has_prefix,
  ◌==◌,
}
use shield_core.Kernel.Table.{table-KeepsPut, nat_IsEq, small_kernel}
use shield_core.Maps.{MapManager, Outcome}
use shield_core.Maps.Config.{get_geoip_policy, set_geoip_policy}
use shield_core.Api.Quiet.{sync_events}
use shield_core.Cluster.Policy.{digit_of}
use shield_core.Cluster.Policy.Spread.{Tells, policy_spreads}
use shield_core.Cluster.Events.{sync_geo_policy_event, sync_ip_event}
use shield_core.Cluster.Delivery.Spread.{Lists, TellsBlock, block_spreads}
use shield_core.Api.{Request, target_of, handle_blacklist}
use shield_core.Api.Policy.{handle_rules_policy, policy_of}
use shield_core.Server.{sync_policy, sync_ip, is_country}
use shield_core.Tests.Sweeps.{no_ipv6}
use shield_core.Tests.Rules.{loaded, running, ask}
use shield_core.Tests.Cluster.{
  calls, disk, log, cluster, cluster_nodes, schemes, scheme_nodes, target, target-IsBytes,
}

abbrev to_drop : Request
to_drop = ask (bytes "POST") [] (bytes "drop")

policy_spreads_example :
    let s' = (handle_rules_policy small_kernel running to_drop).0 in
    (((set_geoip_policy small_kernel loaded 1).1 ≢ none)
      × (sync_events s'.events ≡ sync_events running.events))
    ⊎ (((m' : MapManager small_kernel) × (s'.map_mgr ≡ some m')
          × (get_geoip_policy small_kernel m' ≡ Outcome.ok 1))
        × (sync_events s'.events ≡ sync_events running.events ++ sync_policy (digit_of 1) ∷ [])
        × All
            (Tells small_kernel (table-KeepsPut ◌==◌ nat_IsEq 8) no_ipv6 calls disk log 1)
            (sync_geo_policy_event schemes (digit_of 1)))
unfolding policy_of text_eq contains has_prefix
policy_spreads_example =
    policy_spreads small_kernel (table-KeepsPut ◌==◌ nat_IsEq 8) no_ipv6 calls disk log schemes
      running to_drop loaded 1 refl refl refl refl scheme_nodes

abbrev to_block : Request
to_block = ask (bytes "POST") target []

block_spreads_example :
    let s' = (handle_blacklist small_kernel no_ipv6 7000 running to_block).0 in
    Lists small_kernel no_ipv6 7000 true target loaded s'
    × (sync_events s'.events
        ≡ sync_events running.events ++ sync_ip (bytes "blacklist") (bytes "POST") target ∷ [])
    × All
        (TellsBlock small_kernel no_ipv6 calls disk log true target)
        (sync_ip_event cluster (bytes "blacklist") (bytes "POST") target)
unfolding text_eq contains has_prefix is_country target_of
block_spreads_example =
    block_spreads small_kernel no_ipv6 calls disk log cluster true 7000 running to_block loaded refl
      refl refl refl refl target-IsBytes cluster_nodes
