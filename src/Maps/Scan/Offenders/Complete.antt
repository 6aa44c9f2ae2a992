-- ===== src/Maps/Scan/Offenders/Complete.antt =====
-- A sweep misses no offender (src/control_plane/map_manager.go, ScanAndMitigate).
use shield_core.Prelude.{
  ◌∙◌, ◌%◌, ◌++◌, length, ℕ, ◌+◌, ◌^◌, ◌<◌, ◌≡◌, true, false, ◌&&◌, Option, none, some, List, [],
  ◌∷◌, Text, ltb, ◌⊎◌, arith, Option-cases, inl, inr,
}
use shield_core.Kernel.{Kernel, IsMap, StatVal, key_eq}
use shield_core.Maps.{MapManager}
use shield_core.Maps.Cidr.{block_cidr, put_cidr}
use shield_core.Maps.Scan.{
  total_pps, total_bps, is_offender, mitigate_blocked, mitigate_one, mitigate_loop,
}
use shield_core.Maps.Scan.Offenders.{host, report, reported, parse_report, same_report}

module _ (K : Kernel) (L : IsMap key_eq K.lpm) (parse_ipv6 : Text → Option ℕ)
    (now pps bps : ℕ) where
  offender_hit :
      (key : ℕ) (vals : List StatVal) (m : MapManager K) (t : K.lpm.Store)
      → K.lpm.put (host key) now m.cidr_blacklist ≡ some t
      → key < 2 ^ 32
      → is_offender pps bps vals ≡ true
      → (mitigate_one K parse_ipv6 now pps bps key vals m).1 ≡ some (report key)
  unfolding mitigate_one block_cidr put_cidr mitigate_blocked
  offender_hit key vals m t ok h bad =
      ground (arith, bad, parse_report K L parse_ipv6 now pps bps key h, ok)

  -- The pair that a sweep has come to.
  first_pair :
      (limit count : ℕ) (p : ℕ × List StatVal) (l : List (ℕ × List StatVal)) (m : MapManager K)
      (source : ℕ)
      → source < 2 ^ 32
      → (ltb 0 limit && ltb limit (count + 1)) ≡ false
      → p.0 ≡ source
      → is_offender pps bps p.1 ≡ true
      → (reported (mitigate_loop K parse_ipv6 now pps bps limit count (p ∷ l) m).1 source ≡ true)
        ⊎ (K.lpm.put (host source) now m.cidr_blacklist ≡ none)
  unfolding mitigate_loop reported
  first_pair limit count p l m source b g same over =
      let h : p.0 < 2 ^ 32 = omega (arith, same, b) in
      elim (Option-cases (K.lpm.put (host p.0) now m.cidr_blacklist)) [
        | inl e ↦ inr (rw⁻¹ same e)
        | inr (t, e) ↦ inl (
            ground (
              arith,
              g,
              offender_hit p.0 p.1 m t e h over,
              same_report K L parse_ipv6 now pps bps p.0 source h b,
              same,
            ))
      ]

  -- An offender behind pairs that the limit lets through is reported, or the trie refuses its key
  -- as those pairs have left it.
  pub mitigate_loop_missed :
      (limit count : ℕ) (xs : List (ℕ × List StatVal)) (p : ℕ × List StatVal)
      (ys : List (ℕ × List StatVal)) (m : MapManager K) (source : ℕ)
      → source < 2 ^ 32
      → (limit ≡ 0) ⊎ (count + length xs < limit)
      → p.0 ≡ source
      → is_offender pps bps p.1 ≡ true
      → (reported (mitigate_loop K parse_ipv6 now pps bps limit count (xs ++ p ∷ ys) m).1 source
          ≡ true)
        ⊎ (K.lpm.put
              (host source)
              now
              (mitigate_loop K parse_ipv6 now pps bps limit count xs m).0.cidr_blacklist
            ≡ none)
  unfolding mitigate_loop reported
  mitigate_loop_missed limit count [] p ys m source b g same over =
      first_pair limit count p ys m source b (ground (arith, g)) same over
  mitigate_loop_missed limit count (q ∷ xs) p ys m source b g same over =
      let (m', hit) = mitigate_one K parse_ipv6 now pps bps q.0 q.1 m in
      let passed : (ltb 0 limit && ltb limit (count + 1)) ≡ false = ground (arith, g) in
      let behind : (limit ≡ 0) ⊎ ((count + 1) + length xs < limit) = ground (arith, g) in
      elim (mitigate_loop_missed limit (count + 1) xs p ys m' source b behind same over) [
        | inr refused ↦ inr (rw passed refused)
        | inl found ↦ inl (elim (Option-cases hit) [
          | inl e ↦ ground (arith, passed, found, e)
          | inr (t, e) ↦ ground (arith, passed, found, e)
        ])
      ]

-- The packets and bytes per second of a source, over the processors' records.
abbrev pub sum_pps : List StatVal → ℕ
sum_pps [] = 0
sum_pps (v ∷ vals) = v.pps + sum_pps vals

abbrev pub sum_bps : List StatVal → ℕ
sum_bps [] = 0
sum_bps (v ∷ vals) = v.bps + sum_bps vals

total_pps-sum :
    (acc : ℕ) (vals : List StatVal)
    → acc < 2 ^ 64
    → total_pps acc vals ≡ (acc + sum_pps vals) % 2 ^ 64
unfolding total_pps
total_pps-sum acc [] h = omega (arith, h)
total_pps-sum acc (v ∷ vals) h =
    total_pps-sum ((acc + v.pps) % 2 ^ 64) vals (omega arith) ∙ omega arith

total_bps-sum :
    (acc : ℕ) (vals : List StatVal)
    → acc < 2 ^ 64
    → total_bps acc vals ≡ (acc + sum_bps vals) % 2 ^ 64
unfolding total_bps
total_bps-sum acc [] h = omega (arith, h)
total_bps-sum acc (v ∷ vals) h =
    total_bps-sum ((acc + v.bps) % 2 ^ 64) vals (omega arith) ∙ omega arith

-- A source over one of the two thresholds, in 64 bits.
abbrev pub IsOver : ℕ → ℕ → List StatVal → Type 0
IsOver pps bps vals = (pps < sum_pps vals % 2 ^ 64) ⊎ (bps < sum_bps vals % 2 ^ 64)

pub over_offends :
    (pps bps : ℕ) (vals : List StatVal) → IsOver pps bps vals → is_offender pps bps vals ≡ true
unfolding is_offender
over_offends pps bps vals (inl h) = ground (arith, h, total_pps-sum 0 vals (omega arith))
over_offends pps bps vals (inr h) = ground (arith, h, total_bps-sum 0 vals (omega arith))
