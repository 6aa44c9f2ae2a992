-- ===== src/Mitigation/Policy/Order.antt =====
-- How what a level imposes grows with the level (src/control_plane/main.go, startAutoMitigation).
use shield_core.Prelude.{ℕ, ◌≤◌, ◌<◌, ◌≡◌, ◌||◌, ltb, leb, ◌==◌, if◌then◌else◌, arith}
use shield_core.Float.{Float64}
use shield_core.Mitigation.Policy.{limits, base_budget, scan_budget, expiry_ttl}

-- From one level to a higher one, up to Survival, the thresholds fall and the budget grows.
pub limits_antitone :
    (l m : ℕ)
    → l ≤ m
    → m ≤ 4
    → ((limits m).pps_threshold ≤ (limits l).pps_threshold)
      × ((limits m).bps_threshold ≤ (limits l).bps_threshold)
      × (base_budget l ≤ base_budget m)
unfolding limits base_budget
limits_antitone l m h k = ground arith

-- The life of a block that the clean-up enforces: five minutes at level 3 and 4, in Recovery and
-- when the blacklist is nearly full, four hours at level 2, and otherwise one hour.
pub expiry_ttl_cases :
    (level count : ℕ)
    → expiry_ttl level count
      ≡ (if leb 3 level || ltb 58982 count then 300 else if level == 2 then 14400 else 3600)
unfolding expiry_ttl
expiry_ttl_cases level count = ground arith

-- The budget is never 0, which would mean no limit, is at most 10000, and at most 3000 on a busy
-- processor.
pub scan_budget_bounds :
    (F : Float64) (level : ℕ) (cpu : F.Carrier)
    → (0 < scan_budget F level cpu)
      × (scan_budget F level cpu ≤ (if F.flt (F.lit 90 1) cpu then 3000 else 10000))
unfolding scan_budget
scan_budget_bounds F level cpu = ground arith
