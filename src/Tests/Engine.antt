-- ===== src/Tests/Engine.antt =====
-- Runs of the mitigation state machine (src/control_plane/main.go, startAutoMitigation).
use shield_core.Prelude.{
  ℕ, ◌≤◌, ◌≡◌, ◌⊎◌, refl, inl, true, false, replicate, All-replicate, inr, leb, ◌==◌, arith,
}
use shield_core.Float.Fraction.{fraction, fraction-IsOrdered}
use shield_core.Mitigation.Levels.{Readings, Assessment, is_emergency, assess}
use shield_core.Mitigation.Levels.Emergency.{assess_mono}
use shield_core.Mitigation.Hysteresis.{Fsm, initial, fsm_step, fsm_run}
use shield_core.Mitigation.Hysteresis.Valid.{IsAssessed}
use shield_core.Mitigation.Hysteresis.Distance.{
  distance, calm, normal_not_before, normal_after_calm,
}
use shield_core.Mitigation.Hysteresis.Recovery.{promotion_waits}

abbrev alarm : Assessment
alarm = record { target_level = 4; emergency = true }

abbrev raised : ℕ → Assessment
raised level = record { target_level = level; emergency = false }

abbrev survival : Fsm
survival = record { current_level = 4; level_hold_time = 30; survival_activations = 1 }

abbrev recovery : Fsm
recovery = record { current_level = 5; level_hold_time = 60; survival_activations = 1 }

abbrev elevated : Fsm
elevated = record { current_level = 1; level_hold_time = 5; survival_activations = 0 }

alarm_enters_survival : fsm_step initial alarm ≡ survival
unfolding fsm_step initial
alarm_enters_survival = refl

survival_to_normal : (fsm_run survival (replicate 92 calm)).current_level ≡ 0
unfolding fsm_run fsm_step
survival_to_normal = refl

normal_not_before_example : distance survival ≤ 92
normal_not_before_example =
    normal_not_before survival (replicate 92 calm) (All-replicate IsAssessed 92 calm (ground arith))
      (omega arith) survival_to_normal

normal_after_calm_example :
    ((fsm_run survival (replicate 91 calm)).current_level == 0) ≡ leb (distance survival) 91
normal_after_calm_example = normal_after_calm 91 survival (omega arith)

promotion_waits_example :
    (fsm_run elevated (replicate 5 (raised 3)) ≡ record elevated { level_hold_time = 0 })
    × (fsm_run elevated (replicate 6 (raised 3))
        ≡ record elevated { current_level = 3; level_hold_time = 5 })
promotion_waits_example =
    promotion_waits 5 elevated (raised 3) refl (omega arith) (omega arith) refl

abbrev quiet : Readings fraction
quiet = record {
  cpu_percent = (40, 0);
  ram_percent = (50, 0);
  queue_drop_ratio = (0, 0);
  max_map_usage = (0, 0);
  max_ring_pct = 10;
}

abbrev busy : Readings fraction
busy = record quiet { cpu_percent = (99, 0); max_ring_pct = 70 }

busy_is_emergency : assess fraction busy ≡ alarm
unfolding assess is_emergency
busy_is_emergency = refl

assess_mono_example :
    ((assess fraction quiet).target_level ≤ (assess fraction busy).target_level)
    × (((assess fraction quiet).emergency ≡ false) ⊎ ((assess fraction busy).emergency ≡ true))
assess_mono_example = assess_mono fraction fraction-IsOrdered quiet busy (record {
  cpu = inr refl;
  ram = inl refl;
  queue = inl refl;
  maps = inl refl;
  ring = omega arith;
})
