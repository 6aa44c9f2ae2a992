-- ===== src/Engine/Cycles.antt =====
-- What any number of ticks keeps, and what one cycle does to the blocks
-- (src/control_plane/main.go, startAutoMitigation).
use shield_core.Prelude.{
  ℕ, ◌+◌, ◌≤◌, ◌≡◌, ◌∙◌, refl, Option, List, [], ◌∷◌, Text, length, ltb, arith, Bool-cases,
  Option-cases, inl, inr,
}
use shield_core.Float.{Float64}
use shield_core.Kernel.{Kernel}
use shield_core.Mitigation.Levels.{Readings, assess, is_emergency}
use shield_core.Mitigation.Levels.Emergency.{target_level-le}
use shield_core.Mitigation.Hysteresis.Valid.{IsAssessed, IsValid, fsm_step-IsValid}
use shield_core.Server.{Server}
use shield_core.Engine.{Machine, Engine, readings_of, advance, cycle, tick, run_ticks}

assess-IsAssessed : (F : Float64) (r : Readings F) → IsAssessed (assess F r)
unfolding assess
assess-IsAssessed F r = elim (Bool-cases (is_emergency F r)) [
  | inl e ↦ rw e (record { capped = omega arith; forced = λ f. refl })
  | inr e ↦ record { capped = target_level-le F r; forced = λ f. absurd (ground (arith, e, f)) }
]

module _ (F : Float64) (K : Kernel) (info : Text → Option ℕ) (parse_ipv6 : Text → Option ℕ) where
  pub tick-IsValid :
      (now : ℕ) (machine : Machine F) (s : Engine) (w : Server K)
      → IsValid s.fsm
      → IsValid (tick F K info parse_ipv6 now machine (s, w)).0.fsm
  unfolding tick cycle advance
  tick-IsValid now machine s w h = elim (Option-cases w.map_mgr) [
    | inl e ↦ rw e h
    | inr (m, e) ↦ elim (Bool-cases (ltb 0 s.warmup_cycles)) [
      | inl y ↦ rw (e, y) h
      | inr n ↦
          let a = assess F (readings_of F K info s machine m) in
          rw (e, n) (fsm_step-IsValid s.fsm a (assess-IsAssessed F _) h)
    ]
  ]

  -- Any number of ticks, whatever is read and whatever the maps do, keeps the state of the defence
  -- level valid.
  pub run_ticks-IsValid :
      (ts : List (ℕ × Machine F)) (s : Engine) (w : Server K)
      → IsValid s.fsm
      → IsValid (run_ticks F K info parse_ipv6 ts (s, w)).0.fsm
  unfolding run_ticks
  run_ticks-IsValid [] s w h = h
  run_ticks-IsValid (t ∷ ts) s w h =
      let (s', w') = tick F K info parse_ipv6 t.0 t.1 (s, w) in
      run_ticks-IsValid ts s' w' (tick-IsValid t.0 t.1 s w h)

  tick_warm :
      (now : ℕ) (machine : Machine F) (s : Engine) (w : Server K)
      → 1 ≤ s.warmup_cycles
      → let (s', w') = tick F K info parse_ipv6 now machine (s, w) in
        (w' ≡ w) × (s'.fsm ≡ s.fsm) × (s.warmup_cycles ≤ s'.warmup_cycles + 1)
  unfolding tick
  tick_warm now machine s w h = elim (Option-cases w.map_mgr) [
    | inl e ↦ (ground (arith, e), ground (arith, e), ground (arith, e))
    | inr (m, e) ↦ (ground (arith, e), ground (arith, e), ground (arith, e))
  ]

  -- The warm-up: ticks that are no more than are left of it change no more than the counters that
  -- the next reading of the queue is compared with.
  pub run_ticks_warm :
      (ts : List (ℕ × Machine F)) (s : Engine) (w : Server K)
      → length ts ≤ s.warmup_cycles
      → let (s', w') = run_ticks F K info parse_ipv6 ts (s, w) in (w' ≡ w) × (s'.fsm ≡ s.fsm)
  unfolding run_ticks
  run_ticks_warm [] s w h = (refl, refl)
  run_ticks_warm (t ∷ ts) s w h =
      let (s', w') = tick F K info parse_ipv6 t.0 t.1 (s, w) in
      let (same, level, left) = tick_warm t.0 t.1 s w (omega arith) in
      let (rest, levels) = run_ticks_warm ts s' w' (omega arith) in (rest ∙ same, levels ∙ level)
