-- ===== src/Tests/System.antt =====
-- A history of the daemon: a policy is set, the engine ticks, the daemon ends and starts again
-- (src/control_plane/main.go).
use shield_core.Prelude.{
  text_eq, arith, ◌≡◌, refl, true, none, some, List, [], ◌∷◌, Text, bytes, ◌==◌,
}
use shield_core.Float.Fraction.{fraction}
use shield_core.Kernel.Table.{table-KeepsPut, nat_IsEq, small_kernel}
use shield_core.Maps.{MapManager}
use shield_core.Engine.Released.{Shrinks}
use shield_core.System.Keyless.{keyless_history}
use shield_core.Maps.Config.{set_geoip_policy, update_rate_limits}
use shield_core.Mitigation.Hysteresis.Valid.{IsValid, initial-IsValid}
use shield_core.Server.{rules_state_of, RulesState}
use shield_core.Server.Json.{IsUtf8}
use shield_core.Maps.Targets.{member, get_blacklist_targets, get_whitelist_targets}
use shield_core.Server.Rules.{rules_on_file, rules_in_memory, rules_as_json}
use shield_core.Engine.{start_engine}
use shield_core.Startup.{Found, first_manager, new_map_manager, load_reputation}
use shield_core.Startup.Loader.{generic}
use shield_core.System.{
  System, Finds, Reach, here, later, request, second, restart, served, ticked, restarted,
}
use shield_core.System.Requests.{KeepsRules}
use shield_core.System.Restarts.{IsSound, reached_rules, restart_keeps_rules}
use shield_core.Tests.Sweeps.{no_ipv6, capacities}
use shield_core.Tests.Rules.{loaded, running-IsSaved}
use shield_core.Tests.Cycles.{machine, engine}
use shield_core.Tests.Cluster.{calls, disk, world, log, cluster, incoming}
use shield_core.Tests.Startup.{config}

abbrev before : System small_kernel
before = record { world = world; engine = engine }

abbrev drop : List (Text × Text)
drop = (bytes "action", bytes "drop") ∷ []

abbrev asked : System small_kernel
asked =
    served fraction small_kernel capacities no_ipv6 calls disk log (bytes "k")
      (incoming (bytes "/api/rules/policy") (bytes "k") drop) before

abbrev after : System small_kernel
after = ticked fraction small_kernel capacities no_ipv6 calls 7001 machine asked

abbrev found_after : Found small_kernel
found_after = record {
  maps = loaded;
  reputation = none;
  nodes = none;
  state_file = after.world.server.state_file;
  can_save = true;
  disk = disk;
}

calls-KeepsRules : KeepsRules small_kernel calls
calls-KeepsRules = record {
  adds = λ vip vport protocol backend tunnel m h. refl;
  removes = λ vip vport protocol backend tunnel m h. refl;
}

before-IsSound :
    IsSound fraction small_kernel
      (table-KeepsPut ◌==◌ nat_IsEq 8)
      capacities
      no_ipv6
      calls
      calls-KeepsRules
      before
unfolding start_engine
before-IsSound = (running-IsSaved, initial-IsValid)

takes_policy :
    (state : RulesState)
    → (set_geoip_policy small_kernel
        (first_manager small_kernel no_ipv6 7100 found_after)
        state.geoip_policy).1
      ≡ none
unfolding set_geoip_policy first_manager new_map_manager load_reputation update_rate_limits
takes_policy state = refl

after-Finds : Finds fraction small_kernel capacities no_ipv6 calls 7100 after found_after
after-Finds = record {
  same_file = refl;
  writable = refl;
  takes_policy = λ state h. takes_policy state;
}

after_reached : Reach fraction small_kernel capacities no_ipv6 calls before after
after_reached =
    later
      (later here
        (request disk log (bytes "k") (incoming (bytes "/api/rules/policy") (bytes "k") drop)))
      (second 7001 machine)

abbrev again : System small_kernel
again =
    restarted fraction small_kernel capacities no_ipv6 calls 7100 config generic found_after cluster
      none none after

reached_rules_example :
    (rules_on_file again.world.server.state_file ≡ rules_as_json small_kernel again.world.server)
    × IsValid again.engine.fsm
reached_rules_example =
    reached_rules fraction small_kernel (table-KeepsPut ◌==◌ nat_IsEq 8) capacities no_ipv6 calls
      calls-KeepsRules before-IsSound
      (later after_reached (restart 7100 config generic found_after cluster none none after-Finds))

restart_keeps_rules_example :
    rules_in_memory small_kernel again.world.server ≡ rules_as_json small_kernel after.world.server
restart_keeps_rules_example =
    restart_keeps_rules fraction small_kernel (table-KeepsPut ◌==◌ nat_IsEq 8) capacities no_ipv6
      calls calls-KeepsRules before-IsSound after_reached 7100 config generic found_after cluster
      none none after-Finds

abbrev by_stranger : System small_kernel
by_stranger =
    served fraction small_kernel capacities no_ipv6 calls disk log (bytes "k")
      (incoming (bytes "/api/rules/policy") (bytes "x") drop) before

abbrev stranger_reached :
    Reach fraction small_kernel capacities no_ipv6 calls before
      (ticked fraction small_kernel capacities no_ipv6 calls 7001 machine by_stranger)
stranger_reached =
    later
      (later here
        (request disk log (bytes "k") (incoming (bytes "/api/rules/policy") (bytes "x") drop)))
      (second 7001 machine)

loaded-IsUtf8 : IsUtf8 (rules_state_of small_kernel loaded)
unfolding rules_state_of get_blacklist_targets get_whitelist_targets member
loaded-IsUtf8 = (λ t h. absurd (ground (arith, h)), λ t h. absurd (ground (arith, h)))

keyless_history_example :
    (m' : MapManager small_kernel) × ((ticked fraction small_kernel capacities no_ipv6 calls 7001
        machine by_stranger).world.server.map_mgr
      ≡ some m')
    × Shrinks (rules_state_of small_kernel loaded) (rules_state_of small_kernel m')
unfolding text_eq
keyless_history_example =
    keyless_history fraction small_kernel (table-KeepsPut ◌==◌ nat_IsEq 8) capacities no_ipv6 calls
      calls-KeepsRules stranger_reached loaded before-IsSound refl loaded-IsUtf8 ((tt, refl), tt)
