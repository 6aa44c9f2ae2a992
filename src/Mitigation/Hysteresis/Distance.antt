-- ===== src/Mitigation/Hysteresis/Distance.antt =====
-- How many cycles lie between a state of the machine and the Normal level
-- (src/control_plane/main.go, startAutoMitigation).
use shield_core.Prelude.{
  ℕ, zero, suc, ◌+◌, ◌-◌, ◌≤◌, ◌≡◌, ◌↔◌, false, List, [], ◌∷◌, ◌==◌, leb, if◌then◌else◌, All,
  length, replicate, arith,
}
use shield_core.Mitigation.Levels.{Assessment}
use shield_core.Mitigation.Hysteresis.{Fsm, fsm_step, fsm_run}
use shield_core.Mitigation.Hysteresis.Valid.{IsAssessed, IsValid, fsm_step-IsValid}

-- Out of a raised level: the hold, one cycle into Recovery, its 60 cycles and one more.
unfoldable pub distance : Fsm → ℕ
distance s =
    if s.current_level == 0
    then 0
    else if s.current_level == 5
    then s.level_hold_time + 1
    else s.level_hold_time + 62

abbrev pub calm : Assessment
calm = record { target_level = 0; emergency = false }

distance_step :
    (s : Fsm) (a : Assessment) → IsAssessed a → IsValid s → distance s ≤ distance (fsm_step s a) + 1
unfolding fsm_step distance
distance_step s a ha hs = ground arith

distance-calm : (s : Fsm) → IsValid s → distance (fsm_step s calm) ≡ distance s - 1
unfolding fsm_step distance
distance-calm s hs = ground arith

distance_zero : (s : Fsm) → (distance s ≡ 0) ↔ (s.current_level ≡ 0)
unfolding distance
distance_zero s = ground arith

distance_run :
    (s : Fsm) (l : List Assessment)
    → All IsAssessed l
    → IsValid s
    → distance s ≤ distance (fsm_run s l) + length l
unfolding fsm_run
distance_run s [] h v = omega arith
distance_run s (a ∷ l) h v =
    omega (
      arith,
      distance_step s a h.0 v,
      distance_run (fsm_step s a) l h.1 (fsm_step-IsValid s a h.0 v),
    )

-- Whatever the readings, Normal is not reached in fewer cycles than the distance.
pub normal_not_before :
    (s : Fsm) (l : List Assessment)
    → All IsAssessed l
    → IsValid s
    → (fsm_run s l).current_level ≡ 0
    → distance s ≤ length l
normal_not_before s l h v n = omega (arith, distance_run s l h v, (distance_zero (fsm_run s l)).1 n)

distance-calm_run :
    (n : ℕ) (s : Fsm) → IsValid s → distance (fsm_run s (replicate n calm)) ≡ distance s - n
unfolding fsm_run
distance-calm_run zero s v = omega arith
distance-calm_run (suc n) s v = omega (
  arith,
  distance-calm s v,
  distance-calm_run n (fsm_step s calm) (fsm_step-IsValid s calm (ground arith) v),
)

-- In calm readings Normal is reached after exactly as many cycles as the distance says.
pub normal_after_calm :
    (n : ℕ) (s : Fsm)
    → IsValid s
    → ((fsm_run s (replicate n calm)).current_level == 0) ≡ leb (distance s) n
normal_after_calm n s v =
    let z = distance_zero (fsm_run s (replicate n calm)) in
    let d = distance-calm_run n s v in ground (arith, z.0, z.1, d)
