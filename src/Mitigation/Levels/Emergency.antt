-- ===== src/Mitigation/Levels/Emergency.antt =====
-- Bounds of a grade, and what an emergency adds to it (src/control_plane/main.go,
-- startAutoMitigation).
use shield_core.Prelude.{
  ◌^◌, ℕ, ◌≤◌, ◌<◌, ◌*◌, ◌≡◌, ◌⊎◌, inl, inr, Bool, true, false, ltb, arith, sym, Bool-cases,
}
use shield_core.Float.{Float64, IsOrdered}
use shield_core.Mitigation.Levels.{
  Readings, grade, over, over_pct, level_cpu, level_ram, level_queue, level_map, level_ring,
  raise_to, max_level, graded, is_emergency, assess,
}
use shield_core.Mitigation.Levels.Order.{Follows, NoWorse, flt-AtMost, flt-lit, graded_mono}

raise_to-le : (n a b : ℕ) → a ≤ n → b ≤ n → raise_to a b ≤ n
unfolding raise_to
raise_to-le n a b h k = ground arith

raise_to-ge : (a b : ℕ) → (a ≤ raise_to a b) × (b ≤ raise_to a b)
unfolding raise_to
raise_to-ge a b = ground arith

max_level-le : (n a b c d e : ℕ) → a ≤ n → b ≤ n → c ≤ n → d ≤ n → e ≤ n → max_level a b c d e ≤ n
unfolding max_level
max_level-le n a b c d e ha hb hc hd he =
    raise_to-le n _ e (raise_to-le n _ d (raise_to-le n _ c (raise_to-le n a b ha hb) hc) hd) he

max_level-ge :
    (a b c d e : ℕ)
    → (a ≤ max_level a b c d e)
      × (b ≤ max_level a b c d e)
      × (c ≤ max_level a b c d e)
      × (d ≤ max_level a b c d e)
      × (e ≤ max_level a b c d e)
unfolding max_level
max_level-ge a b c d e =
    let p = raise_to-ge a b in
    let q = raise_to-ge (raise_to a b) c in
    let r = raise_to-ge (raise_to (raise_to a b) c) d in
    let s = raise_to-ge (raise_to (raise_to (raise_to a b) c) d) e in
    (omega arith, omega arith, omega arith, omega arith, omega arith)

grade-le : (a b c d : Bool) → grade a b c d ≤ 4
grade-le a b c d = ground arith

module _ (F : Float64) where
  graded-le : (r : Readings F) → graded F r ≤ 4
  unfolding graded level_cpu level_ram level_queue level_map level_ring
  graded-le r =
      max_level-le 4 (level_cpu F r.cpu_percent) (level_ram F r.ram_percent)
        (level_queue F r.queue_drop_ratio) (level_map F r.max_map_usage) (level_ring r.max_ring_pct)
        (grade-le _ _ _ _) (grade-le _ _ _ _) (grade-le _ _ _ _) (grade-le _ _ _ _)
        (grade-le _ _ _ _)

  pub target_level-le : (r : Readings F) → (assess F r).target_level ≤ 4
  unfolding assess
  target_level-le r = elim (Bool-cases (is_emergency F r)) [
    | inl e ↦ rw e (omega arith)
    | inr n ↦ rw n (graded-le r)
  ]

grade_over : (a b c d : Bool) → a ≡ true → grade a b c d ≡ 4
grade_over a b c d h = ground arith

level_ring_over : (x : ℕ) → ltb 98 x ≡ true → level_ring x ≡ 4
unfolding level_ring
level_ring_over x h = ground arith

module _ (F : Float64) (O : IsOrdered F) where
  ladder_over :
      (n n4 n3 n2 n1 d : ℕ) (x : F.Carrier)
      → 0 < d
      → n4 * d < n * d
      → (n4 < 2 ^ 16) × (d < 2 ^ 16) × (n < 2 ^ 16) × (d < 2 ^ 16)
      → F.flt (F.lit n d) x ≡ true
      → grade
          (F.flt (F.lit n4 d) x)
          (F.flt (F.lit n3 d) x)
          (F.flt (F.lit n2 d) x)
          (F.flt (F.lit n1 d) x)
        ≡ 4
  ladder_over n n4 n3 n2 n1 d x z l b h = grade_over _ _ _ _ (flt-lit F O n4 n d x z l b h)

  level_cpu-over : (x : F.Carrier) → over F x 98 ≡ true → level_cpu F x ≡ 4
  unfolding level_cpu
  level_cpu-over x h = ladder_over 98 95 90 80 60 1 x (omega arith) (omega arith) (omega arith) h

  level_ram-over : (x : F.Carrier) → over F x 98 ≡ true → level_ram F x ≡ 4
  unfolding level_ram
  level_ram-over x h = ladder_over 98 95 92 85 70 1 x (omega arith) (omega arith) (omega arith) h

  level_map-over : (x : F.Carrier) → over F x 99 ≡ true → level_map F x ≡ 4
  unfolding level_map
  level_map-over x h = ladder_over 99 95 90 80 60 1 x (omega arith) (omega arith) (omega arith) h

  level_queue_over : (x : F.Carrier) → over_pct F x 50 ≡ true → level_queue F x ≡ 4
  unfolding level_queue
  level_queue_over x h = ladder_over 50 10 5 3 1 100 x (omega arith) (omega arith) (omega arith) h

  -- An emergency reading already grades to level 4.
  emergency-graded : (r : Readings F) → is_emergency F r ≡ true → graded F r ≡ 4
  unfolding is_emergency graded
  emergency-graded r h =
      let ge =
        max_level-ge (level_cpu F r.cpu_percent) (level_ram F r.ram_percent)
          (level_queue F r.queue_drop_ratio) (level_map F r.max_map_usage)
          (level_ring r.max_ring_pct) in
      let le = graded-le F r in
      ground (
        arith,
        level_cpu-over r.cpu_percent,
        level_ram-over r.ram_percent,
        level_map-over r.max_map_usage,
        level_queue_over r.queue_drop_ratio,
        level_ring_over r.max_ring_pct,
      )

  emergency_mono :
      (r s : Readings F) → NoWorse F O r s → Follows (is_emergency F r) (is_emergency F s)
  unfolding is_emergency
  emergency_mono r s h e = ground (
    arith,
    flt-AtMost F O (F.lit 98 1) r.cpu_percent s.cpu_percent h.cpu,
    flt-AtMost F O (F.lit 98 1) r.ram_percent s.ram_percent h.ram,
    flt-AtMost F O (F.lit 99 1) r.max_map_usage s.max_map_usage h.maps,
    flt-AtMost F O (F.lit 50 100) r.queue_drop_ratio s.queue_drop_ratio h.queue,
  )

  -- The target level of a reading is its grade: forcing level 4 in an emergency changes nothing.
  target_level-eq-graded : (r : Readings F) → (assess F r).target_level ≡ graded F r
  unfolding assess
  target_level-eq-graded r = elim (Bool-cases (is_emergency F r)) [
    | inl e ↦ rw e (sym (emergency-graded r e))
    | inr n ↦ rw n
  ]

  emergency-assess : (r : Readings F) → (assess F r).emergency ≡ is_emergency F r
  unfolding assess
  emergency-assess r = ground arith

  -- Readings that are nowhere lower give no lower target, and an emergency stays one.
  pub assess_mono :
      (r s : Readings F)
      → NoWorse F O r s
      → ((assess F r).target_level ≤ (assess F s).target_level)
        × (((assess F r).emergency ≡ false) ⊎ ((assess F s).emergency ≡ true))
  assess_mono r s h = (
    rw (target_level-eq-graded r, target_level-eq-graded s) (graded_mono F O r s h),
    rw (emergency-assess r, emergency-assess s) (ground (arith, emergency_mono r s h)),
  )
