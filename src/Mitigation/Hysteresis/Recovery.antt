-- ===== src/Mitigation/Hysteresis/Recovery.antt =====
-- The emergency, the hold before a promotion, and the countdown of Recovery
-- (src/control_plane/main.go, startAutoMitigation).
use shield_core.Prelude.{
  ℕ, zero, suc, ◌+◌, ◌-◌, ◌≤◌, ◌<◌, ◌≡◌, ◌≢◌, true, false, List, [], ◌∷◌, All, length, replicate,
  ltb, ◌==◌, if◌then◌else◌, refl, arith,
}
use shield_core.Mitigation.Levels.{Assessment}
use shield_core.Mitigation.Hysteresis.{Fsm, fsm_step, fsm_run}
use shield_core.Mitigation.Hysteresis.Valid.{IsAssessed}

-- An emergency cycle ends in Survival: where the level was another one it is held for 30 cycles and
-- the entry is counted, and where it was Survival already nothing changes.
pub emergency-survival :
    (s : Fsm) (a : Assessment)
    → IsAssessed a
    → a.emergency ≡ true
    → fsm_step s a ≡ (
        if s.current_level == 4 then s else record {
          current_level = 4;
          level_hold_time = 30;
          survival_activations = s.survival_activations + 1;
        })
unfolding fsm_step
emergency-survival s a h e = ground arith

abbrev pub IsOrdinary : Assessment → Type 0
IsOrdinary a = IsAssessed a × (a.emergency ≡ false)

-- Without an emergency a cycle of Recovery takes one off the hold, and with no hold left ends it.
recovery_step :
    (s : Fsm) (a : Assessment)
    → IsOrdinary a
    → s.current_level ≡ 5
    → fsm_step s a ≡ (
        if ltb 0 s.level_hold_time
        then record s { level_hold_time = s.level_hold_time - 1 }
        else record s { current_level = 0; level_hold_time = 0 })
unfolding fsm_step
recovery_step s a h l = ground arith

-- While Recovery counts down, readings below an emergency change nothing, whatever their target.
pub recovery_counts_down :
    (s : Fsm) (l : List Assessment)
    → All IsOrdinary l
    → s.current_level ≡ 5
    → length l ≤ s.level_hold_time
    → fsm_run s l ≡ record s { level_hold_time = s.level_hold_time - length l }
unfolding fsm_run
recovery_counts_down s [] h v n = ground arith
recovery_counts_down s (a ∷ l) h v n =
    ground (arith, recovery_step s a h.0 v, recovery_counts_down (fsm_step s a) l h.1)

hold_step :
    (n : ℕ) (s : Fsm) (a : Assessment)
    → a.emergency ≡ false
    → s.current_level < a.target_level
    → s.current_level ≢ 5
    → s.level_hold_time ≡ suc n
    → fsm_step s a ≡ record s { level_hold_time = n }
unfolding fsm_step
hold_step n s a e l k h = ground arith

-- A steady target above the level is followed only when the hold has run out.
pub promotion_waits :
    (n : ℕ) (s : Fsm) (a : Assessment)
    → a.emergency ≡ false
    → s.current_level < a.target_level
    → s.current_level ≢ 5
    → s.level_hold_time ≡ n
    → (fsm_run s (replicate n a) ≡ record s { level_hold_time = 0 })
      × (fsm_run s (replicate (suc n) a)
          ≡ record s { current_level = a.target_level; level_hold_time = 5 })
unfolding fsm_run
promotion_waits zero s a e l k h = (ground arith, unfold fsm_step in ground arith)
promotion_waits (suc n) s a e l k h =
    rw (fsm_run, hold_step n s a e l k h)
      (promotion_waits n (record s { level_hold_time = n }) a e l k refl)
