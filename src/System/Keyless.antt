-- ===== src/System/Keyless.antt =====
-- What a daemon can become without its key (src/control_plane/main.go: the middleware in main,
-- startAutoMitigation; src/control_plane/persist.go).
use shield_core.Prelude.{ℕ, ◌≡◌, ◌∙◌, sym, ap, false, Option, some, [], ◌∷◌, Text, text_eq, ◌==◌}
use shield_core.Float.{Float64}
use shield_core.Kernel.{Kernel, KeepsPut}
use shield_core.Maps.{MapManager}
use shield_core.Server.{RulesState, rules_state_of}
use shield_core.Maps.Targets.{member}
use shield_core.Server.Json.{IsUtf8, json_state_utf8}
use shield_core.Engine.Released.{Shrinks, Shrinks-refl, Shrinks-trans, Fewer, tick-Fewer}
use shield_core.Routes.{RoutingCalls}
use shield_core.Routes.Serve.{serve_all}
use shield_core.Routes.Guard.{serve_all_keyless}
use shield_core.System.{
  System, Step, request, second, restart, Reach, here, later, served, ticked, restarted,
}
use shield_core.System.Requests.{KeepsRules}
use shield_core.System.Restarts.{IsSound, Reach-IsSound, restarted_rules}

module _ (F : Float64) (K : Kernel) (L : KeepsPut ◌==◌ K.config) (info : Text → Option ℕ)
    (parse_ipv6 : Text → Option ℕ) (calls : RoutingCalls K) (B : KeepsRules K calls) where
  -- A move that is no request with the key.
  abbrev pub IsKeyless : {s t : System K} → Step F K info parse_ipv6 calls s t → Type 0
  IsKeyless (request disk log api_key r) = text_eq r.api_key api_key ≡ false
  IsKeyless (second now machine) = Unit
  IsKeyless (restart now config mode found c cpu queue g) = Unit

  abbrev pub AllKeyless : {s t : System K} → Reach F K info parse_ipv6 calls s t → Type 0
  AllKeyless here = Unit
  AllKeyless (later r st) = AllKeyless r × IsKeyless st

  Shrinks-IsUtf8 : (a b : RulesState) → Shrinks a b → IsUtf8 a → IsUtf8 b
  Shrinks-IsUtf8 a b (p, w, l) (x, y) = (λ t h. x t (l t h), λ t h. y t (sym (w t) ∙ h))

  Step-Fewer :
      {s t : System K} (st : Step F K info parse_ipv6 calls s t) (m : MapManager K)
      → IsSound F K L info parse_ipv6 calls B s
      → s.world.server.map_mgr ≡ some m
      → IsUtf8 (rules_state_of K m)
      → IsKeyless st
      → Fewer K m t.world.server
  unfolding served ticked restarted serve_all
  Step-Fewer {s} (request disk log api_key r) m v e x h =
      let (same, host) =
        serve_all_keyless K parse_ipv6 calls disk log api_key (r ∷ []) s.world (h, tt) in
      (m, ap (λ w. w.map_mgr) (sym same) ∙ e, Shrinks-refl (rules_state_of K m))
  Step-Fewer {s} (second now machine) m v e x h =
      tick-Fewer F K L info parse_ipv6 now machine s.engine s.world.server m e
  Step-Fewer {s} (restart now config mode found c cpu queue g) m v e x h =
      let (m', at, (p, b, l)) =
        restarted_rules F K L info parse_ipv6 calls B now config mode found c cpu queue s g v m e in
      let kept = json_state_utf8 (rules_state_of K m) x in
      (
        m',
        at,
        (
          sym p ∙ ap (λ a. a.geoip_policy) kept,
          λ t. sym (l t) ∙ ap (λ a. member t a.whitelist_targets) kept,
          λ t k. ap (λ a. member t a.blacklist_targets) (sym kept) ∙ b t ∙ k,
        ),
      )

  -- From a state where the file can be written and holds the rules in memory, whose targets are
  -- UTF-8 texts, no history of the daemon without its key, ticks and restarts that load the program
  -- included, changes its policy or whitelist or adds a target to its blacklist; where every
  -- restart finds the file, can write it and can set its policy, and the calls that write a backend
  -- leave the rules alone.
  pub keyless_history :
      {s t : System K} (r : Reach F K info parse_ipv6 calls s t) (m : MapManager K)
      → IsSound F K L info parse_ipv6 calls B s
      → s.world.server.map_mgr ≡ some m
      → IsUtf8 (rules_state_of K m)
      → AllKeyless r
      → (m' : MapManager K) × (t.world.server.map_mgr ≡ some m')
        × Shrinks (rules_state_of K m) (rules_state_of K m')
  keyless_history here m v e x h = (m, e, Shrinks-refl (rules_state_of K m))
  keyless_history (later r st) m v e x (h, k) =
      let (m1, e1, f1) = keyless_history r m v e x h in
      let y = Shrinks-IsUtf8 (rules_state_of K m) (rules_state_of K m1) f1 x in
      let (m2, e2, f2) =
        Step-Fewer st m1 (Reach-IsSound F K L info parse_ipv6 calls B v r) e1 y k in
      (m2, e2, Shrinks-trans (rules_state_of K m) (rules_state_of K m1) (rules_state_of K m2) f1 f2)
