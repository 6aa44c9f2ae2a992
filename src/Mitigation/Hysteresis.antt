-- ===== src/Mitigation/Hysteresis.antt =====
-- The defence level and its hold time (src/control_plane/main.go, startAutoMitigation,
-- "Cơ chế Asymmetric Hysteresis & Recovery"). The log lines are left out.
pub mod Valid
pub mod Distance
pub mod Recovery
use shield_core.Prelude.{
  ℕ, ◌+◌, ◌-◌, Bool, true, false, not, ◌&&◌, List, [], ◌∷◌, ltb, leb, ◌==◌, if◌then◌else◌,
}
use shield_core.Mitigation.Levels.{Assessment}

-- Levels 0 to 4 are Normal to Survival, 5 is Recovery. The counter is the Prometheus one.
pub record Fsm : Type 0 where
  pub current_level : ℕ
  pub level_hold_time : ℕ
  pub survival_activations : ℕ

unfoldable pub initial : Fsm
initial = record { current_level = 0; level_hold_time = 0; survival_activations = 0 }

-- `if levelHoldTime > 0 { levelHoldTime-- } else { … }`
unfoldable pub hold_or : Fsm → Fsm → Fsm
hold_or s next =
    if ltb 0 s.level_hold_time then record s { level_hold_time = s.level_hold_time - 1 } else next

unfoldable pub promote : Fsm → ℕ → Fsm
unfolding hold_or
promote s target =
    if s.current_level == 5
    then record s { current_level = target; level_hold_time = 5 }
    else hold_or s (record s { current_level = target; level_hold_time = 5 })

unfoldable pub demote : Fsm → ℕ → Fsm
unfolding hold_or
demote s target = hold_or s (
    if ltb 0 s.current_level && leb s.current_level 4 && target == 0
    then record s { current_level = 5; level_hold_time = 60 }
    else if s.current_level == 5
    then record s { current_level = 0; level_hold_time = 0 }
    else record s { current_level = target; level_hold_time = 30 })

unfoldable pub fsm_step : Fsm → Assessment → Fsm
unfolding promote demote
fsm_step s a =
    if a.emergency && not (s.current_level == 4)
    then record {
      current_level = 4;
      level_hold_time = 30;
      survival_activations = s.survival_activations + 1;
    }
    else if ltb s.current_level a.target_level
    then promote s a.target_level
    else if ltb a.target_level s.current_level
    then demote s a.target_level
    else s

-- One assessment for each pass of the loop that reaches the machine.
unfoldable pub fsm_run : Fsm → List Assessment → Fsm
fsm_run s [] = s
fsm_run s (a ∷ rest) = fsm_run (fsm_step s a) rest
