-- ===== src/System/Restarts.antt =====
-- What holds in every state that the daemon reaches, across its restarts
-- (src/control_plane/main.go: main, startAutoMitigation and the handlers;
-- src/control_plane/persist.go).
use mathlib.Core.Quot
use mathlib.Core.Quot.{Quot}
use shield_core.Prelude.{
  ℕ, ◌≡◌, ◌∙◌, sym, ap, refl, true, Option, none, some, Text, ◌==◌, inl, inr, arith,
}
use shield_core.Float.{Float64}
use shield_core.Kernel.{Kernel, KeepsPut}
use shield_core.Maps.{MapManager, ok}
use shield_core.Maps.Config.{get_geoip_policy, set_geoip_policy}
use shield_core.Maps.Targets.{get_blacklist_targets, get_whitelist_targets}
use shield_core.Geoip.{init_geoip_manager}
use shield_core.Gate.{Config}
use shield_core.Cluster.{Cluster}
use shield_core.Server.{
  json_state, RulesState, saved, Server, rules_state_of, policy_or_zero, restore_rules_state,
}
use shield_core.Server.Rules.{
  written-SameRules, json_state-SameRules, rules_as_json, SameRules, SameRules-sym, SameRules-trans,
  rules_on_file, rules_in_memory, Agrees,
}
use shield_core.Mitigation.Hysteresis.Valid.{IsValid, initial-IsValid}
use shield_core.Engine.{CpuStats, start_engine}
use shield_core.Engine.Cycles.{tick-IsValid}
use shield_core.Engine.Saved.{tick-IsSaved}
use shield_core.Api.Saved.{IsSaved}
use shield_core.Startup.{Found, first_manager, server_with, start}
use shield_core.Startup.Loader.{Mode, attached_in}
use shield_core.Startup.Restored.{start-saved}
use shield_core.Routes.{RoutingCalls}
use shield_core.System.{
  System, Finds, Step, request, second, restart, Reach, here, later, served, ticked, restarted,
}
use shield_core.System.Requests.{KeepsRules, serve-IsSaved}

module _ (K : Kernel) (parse_ipv6 : Text → Option ℕ) (now : ℕ) where
  -- Restoring leaves the means of saving, and the file.
  restore_means :
      (s : Server K) (m : MapManager K) (state : RulesState)
      → s.map_mgr ≡ some m
      → s.persistent ≡ true
      → s.state_file ≡ saved state
      → let s' = restore_rules_state K parse_ipv6 now s in
        (s'.persistent ≡ true) × (s'.can_save ≡ s.can_save) × (s'.state_file ≡ s.state_file)
  unfolding restore_rules_state
  restore_means s m state e p f =
      (ground (arith, e, p, f), ground (arith, e, p, f), ground (arith, e, p, f))

module _ (K : Kernel) where
  memory_rules :
      (s : Server K) (m : MapManager K)
      → s.map_mgr ≡ some m
      → rules_in_memory K s ≡ some (Quot.mk (rules_state_of K m))
  memory_rules s m e = rw e refl

  json_rules :
      (s : Server K) (m : MapManager K)
      → s.map_mgr ≡ some m
      → rules_as_json K s ≡ some (Quot.mk (json_state (rules_state_of K m)))
  json_rules s m e = rw e refl

  saved_rules :
      (s : Server K) (m : MapManager K)
      → s.map_mgr ≡ some m
      → Agrees s.state_file (rules_state_of K m)
      → rules_on_file s.state_file ≡ rules_as_json K s
  saved_rules s m e (held, f, same) = rw (f, e) (ap some (Quot.sound same))

  IsSaved-rules : (s : Server K) → IsSaved K s → rules_on_file s.state_file ≡ rules_as_json K s
  unfolding IsSaved
  IsSaved-rules s (m, e, p, w, f) = saved_rules s m e f

module _ (K : Kernel) (L : KeepsPut ◌==◌ K.config) (parse_ipv6 : Text → Option ℕ) where
  -- A start on the file that a daemon has left has the rules of that daemon, and they are the ones
  -- on the file.
  pub start-IsSaved :
      (now : ℕ) (config : Config) (mode : Mode) (found : Found K) (c : Cluster) (state : RulesState)
      → (b : RulesState) → SameRules state (json_state b)
      → found.state_file ≡ saved state
      → found.can_save ≡ true
      → (set_geoip_policy K (first_manager K parse_ipv6 now found) state.geoip_policy).1 ≡ none
      → let s = (start K parse_ipv6 now config (attached_in mode) found c).0 in
        (m : MapManager K) × (s.map_mgr ≡ some m)
        × IsSaved K s
        × SameRules state (rules_state_of K m)
  unfolding start server_with IsSaved rules_state_of get_blacklist_targets get_whitelist_targets
      policy_or_zero
  start-IsSaved now config mode found c state b0 j f w t =
      let (m, e, b, l, o) = start-saved K L parse_ipv6 now config mode found c state f in
      let g = init_geoip_manager found.disk now config.asn_db_path config.country_db_path in
      let m0 = first_manager K parse_ipv6 now found in
      let (p, d, same) =
        restore_means K parse_ipv6 now (server_with K parse_ipv6 now (some m0) true g found) m0
          state refl refl f in
      let policy : get_geoip_policy K m ≡ ok state.geoip_policy = elim o [
        | inl y ↦ y
        | inr n ↦ absurd (n t)
      ] in
      let rules : SameRules state (rules_state_of K m) =
        (ap (policy_or_zero K) (sym policy), λ u. sym (b u), λ u. sym (l u)) in
      let held =
        SameRules-trans state (json_state state) (json_state (rules_state_of K m))
          (written-SameRules state b0 j) (json_state-SameRules state (rules_state_of K m) rules) in
      (m, e, (m, e, p, d ∙ w, (state, same ∙ f, held)), rules)

module _ (F : Float64) (K : Kernel) (L : KeepsPut ◌==◌ K.config) (info : Text → Option ℕ)
    (parse_ipv6 : Text → Option ℕ) (calls : RoutingCalls K) (B : KeepsRules K calls) where
  -- The file holds the rules in memory, and the state of the defence level is valid.
  abbrev pub IsSound : System K → Type 0
  IsSound s = IsSaved K s.world.server × IsValid s.engine.fsm

  restarted-IsSound :
      (now : ℕ) (config : Config) (mode : Mode) (found : Found K) (c : Cluster)
      (cpu : Option CpuStats) (queue : Option (ℕ × ℕ)) (s : System K)
      → Finds F K info parse_ipv6 calls now s found
      → IsSound s
      → IsSound (restarted F K info parse_ipv6 calls now config mode found c cpu queue s)
  unfolding restarted start_engine IsSaved
  restarted-IsSound now config mode found c cpu queue s g ((m, e, p, w, (state, f, same)), v) =
      let file = g.same_file ∙ f in
      (
        (start-IsSaved K L parse_ipv6 now config mode found c state (rules_state_of K m) same file
            g.writable (g.takes_policy state file)).2,
        initial-IsValid,
      )

  sound_manager :
      (s : System K) → IsSound s → (m : MapManager K) × (s.world.server.map_mgr ≡ some m)
  unfolding IsSaved
  sound_manager s ((m, e, p, w, held), v) = (m, e)

  -- A restart on the file that a sound daemon has left brings its rules back.
  pub restarted_rules :
      (now : ℕ) (config : Config) (mode : Mode) (found : Found K) (c : Cluster)
      (cpu : Option CpuStats) (queue : Option (ℕ × ℕ)) (s : System K)
      → Finds F K info parse_ipv6 calls now s found
      → IsSound s
      → (m : MapManager K) → s.world.server.map_mgr ≡ some m
      → let u = restarted F K info parse_ipv6 calls now config mode found c cpu queue s in
        (m' : MapManager K) × (u.world.server.map_mgr ≡ some m')
        × SameRules (json_state (rules_state_of K m)) (rules_state_of K m')
  unfolding restarted IsSaved
  restarted_rules now config mode found c cpu queue s g ((n, at, p, w, (state, f, held)), v) m e =
      let file = g.same_file ∙ f in
      let same : n ≡ m = ground (arith, at, e) in
      let (m', e', saved', back) =
        start-IsSaved K L parse_ipv6 now config mode found c state (rules_state_of K n) held file
          g.writable (g.takes_policy state file) in
      (
        m',
        e',
        SameRules-trans (json_state (rules_state_of K m)) state (rules_state_of K m')
            (SameRules-sym state (json_state (rules_state_of K m)) (rw⁻¹ same held)) back,
      )

  Step-IsSound : {s t : System K} → Step F K info parse_ipv6 calls s t → IsSound s → IsSound t
  unfolding served ticked
  Step-IsSound {s} (request disk log api_key r) (f, v) =
      (serve-IsSaved K L parse_ipv6 calls B disk log api_key s.world r f, v)
  Step-IsSound {s} (second now machine) (f, v) = (
    tick-IsSaved F K L info parse_ipv6 now machine s.engine s.world.server f,
    tick-IsValid F K info parse_ipv6 now machine s.engine s.world.server v,
  )
  Step-IsSound {s} (restart now config mode found c cpu queue g) h =
      restarted-IsSound now config mode found c cpu queue s g h

  pub Reach-IsSound : {s t : System K} → IsSound s → Reach F K info parse_ipv6 calls s t → IsSound t
  Reach-IsSound h here = h
  Reach-IsSound h (later r st) = Step-IsSound st (Reach-IsSound h r)

  -- From a state where the file can be written and holds the rules in memory as JSON writes them
  -- (in any order, with the replacement character for what is no UTF-8), and the defence level is
  -- valid, whatever requests, ticks and restarts follow in whatever order, the file that is there
  -- holds the rules in memory as JSON writes them, and the defence level is valid; where every
  -- restart loads the program, finds the file, can write it and can set its policy, and the calls
  -- that write a backend leave the rules alone.
  pub reached_rules :
      {s t : System K}
      → IsSound s
      → Reach F K info parse_ipv6 calls s t
      → (rules_on_file t.world.server.state_file ≡ rules_as_json K t.world.server)
        × IsValid t.engine.fsm
  reached_rules {s} {t} h r =
      let (f, v) = Reach-IsSound h r in (IsSaved-rules K t.world.server f, v)

  -- A daemon that ends in any state that it reaches from one where the file holds the rules in
  -- memory as JSON writes them, and is started again on the file it has left, has the rules that it
  -- had as JSON writes them, whatever maps and list of reputation it finds; where this restart and
  -- those before load the program, the file can be written, the policy can be set, and the calls
  -- that write a backend leave the rules alone.
  pub restart_keeps_rules :
      {s t : System K}
      → IsSound s
      → Reach F K info parse_ipv6 calls s t
      → (now : ℕ) (config : Config) (mode : Mode) (found : Found K) (c : Cluster)
      → (cpu : Option CpuStats) (queue : Option (ℕ × ℕ))
      → Finds F K info parse_ipv6 calls now t found
      → let u = restarted F K info parse_ipv6 calls now config mode found c cpu queue t in
        rules_in_memory K u.world.server ≡ rules_as_json K t.world.server
  restart_keeps_rules {s} {t} h r now config mode found c cpu queue g =
      let v = Reach-IsSound h r in
      let (m, e) = sound_manager t v in
      let (m', e', same) = restarted_rules now config mode found c cpu queue t g v m e in
      let u = restarted F K info parse_ipv6 calls now config mode found c cpu queue t in
      memory_rules K u.world.server m' e'
      ∙ ap some (sym (Quot.sound same))
      ∙ sym (json_rules K t.world.server m e)
