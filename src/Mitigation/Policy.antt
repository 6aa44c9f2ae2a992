-- ===== src/Mitigation/Policy.antt =====
-- What a defence level imposes (src/control_plane/main.go, startAutoMitigation, from
-- "Áp dụng chính sách" on): the rate limits, the scan budget and the life of a block.
pub mod Order
use shield_core.Prelude.{ℕ, ◌*◌, Bool, true, false, ◌&&◌, ltb, leb, ◌==◌, if◌then◌else◌}
use shield_core.Float.{Float64}

pub record Limits : Type 0 where
  pub pps_threshold : ℕ
  pub bps_threshold : ℕ
  pub ttl : ℕ

-- The `switch currentLevel` over the thresholds; the last value is what they start from.
unfoldable pub limits : ℕ → Limits
limits level =
    if level == 1
    then record { pps_threshold = 3000; bps_threshold = 5 * 1024 * 1024; ttl = 3600 }
    else if level == 2
    then record { pps_threshold = 1000; bps_threshold = 2 * 1024 * 1024; ttl = 14400 }
    else if level == 3
    then record { pps_threshold = 500; bps_threshold = 1 * 1024 * 1024; ttl = 86400 }
    else if level == 4
    then record { pps_threshold = 300; bps_threshold = 500 * 1024; ttl = 86400 }
    else if level == 5
    then record { pps_threshold = 3000; bps_threshold = 5 * 1024 * 1024; ttl = 3600 }
    else record { pps_threshold = 5000; bps_threshold = 10 * 1024 * 1024; ttl = 3600 }

unfoldable pub base_budget : ℕ → ℕ
base_budget level =
    if level == 1
    then 1000
    else if level == 2
    then 2500
    else if level == 3
    then 5000
    else if level == 4
    then 10000
    else if level == 5
    then 2000
    else 500

module _ (F : Float64) where
  -- The budget is cut where the processor is busy already.
  unfoldable pub scan_budget : ℕ → F.Carrier → ℕ
  unfolding base_budget
  scan_budget level cpu_percent =
      if F.flt (F.lit 90 1) cpu_percent && ltb 3000 (base_budget level)
      then 3000
      else base_budget level

-- The two overrides before the clean-up: a raised level, and a blacklist at 90% of its capacity.
unfoldable pub expiry_ttl : ℕ → ℕ → ℕ
unfolding limits
expiry_ttl level blacklist_count =
    let by_level = if leb 3 level then 300 else (limits level).ttl in
    if ltb 58982 blacklist_count then 300 else by_level
