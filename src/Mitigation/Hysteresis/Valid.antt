-- ===== src/Mitigation/Hysteresis/Valid.antt =====
-- What holds of the machine between two cycles, and the level changes that it can make
-- (src/control_plane/main.go, startAutoMitigation).
use shield_core.Prelude.{ℕ, ◌≤◌, ◌<◌, ◌≡◌, true, List, [], ◌∷◌, All, arith}
use shield_core.Mitigation.Levels.{Assessment}
use shield_core.Mitigation.Hysteresis.{Fsm, initial, fsm_step, fsm_run}

-- What `assess` hands over: a target of at most 4, and 4 in an emergency.
pub record IsAssessed (a : Assessment) : Type 0 where
  pub capped : a.target_level ≤ 4
  pub forced : a.emergency ≡ true → a.target_level ≡ 4

pub record IsValid (s : Fsm) : Type 0 where
  pub level_capped : s.current_level ≤ 5
  pub normal_free : s.current_level ≡ 0 → s.level_hold_time ≡ 0
  pub hold_capped : s.current_level ≤ 4 → s.level_hold_time ≤ 30
  pub recovery_capped : s.level_hold_time ≤ 60

pub initial-IsValid : IsValid initial
unfolding initial
initial-IsValid = omega arith

pub fsm_step-IsValid :
    (s : Fsm) (a : Assessment) → IsAssessed a → IsValid s → IsValid (fsm_step s a)
unfolding fsm_step
fsm_step-IsValid s a ha hs = ground arith

pub fsm_run-IsValid :
    (s : Fsm) (l : List Assessment) → All IsAssessed l → IsValid s → IsValid (fsm_run s l)
unfolding fsm_run
fsm_run-IsValid s [] h v = v
fsm_run-IsValid s (a ∷ l) h v = fsm_run-IsValid (fsm_step s a) l h.1 (fsm_step-IsValid s a h.0 v)

-- The level changes that one cycle can make.
pub data Change (l m : ℕ) : Type 0 where
  stay : m ≡ l → Change l m
  rise : l < m → m ≤ 4 → Change l m
  ease : 0 < m → m < l → l ≤ 4 → Change l m
  recover : 0 < l → l ≤ 4 → m ≡ 5 → Change l m
  relapse : l ≡ 5 → m ≡ 4 → Change l m
  resume : l ≡ 5 → m ≡ 0 → Change l m

pub fsm_step-Change :
    (s : Fsm) (a : Assessment)
    → IsAssessed a
    → IsValid s
    → Change s.current_level (fsm_step s a).current_level
unfolding fsm_step
fsm_step-Change s a ha hs = grind (arith, stay, rise, ease, recover, relapse, resume)
