-- ===== src/Maps/Scan/Offenders.antt =====
-- Which sources the sweep blocks (src/control_plane/map_manager.go, ScanAndMitigate).
pub mod Complete
use mathlib.Core.Option.{some-injective}
use shield_core.Prelude.{
  ℕ, ◌+◌, ◌^◌, ◌<◌, ◌≤◌, ◌≡◌, ◌≢◌, ◌⊎◌, ap, sym, ◌∙◌, Bool, true, false, ◌&&◌, ◌||◌, Option, none,
  some, List, [], ◌∷◌, Text, text_eq, text_eq_iff, All, length, ltb, ◌==◌, if◌then◌else◌, arith,
  Option-cases, Bool-cases, inl, inr,
}
use shield_core.Net.Addr.{print_ipv4, parse_ipv4}
use shield_core.Net.Addr.RoundTrip.{parse_ipv4-print_ipv4}
use shield_core.Net.Lpm.{LpmTrieKey, Parsed, swap32, parse_cidr}
use shield_core.Net.Lpm.RoundTrip.{parse_cidr_host, swap32_involutive, swap32-lt}
use shield_core.Kernel.{Kernel, StatVal, IsMap, key_eq}
use shield_core.Maps.{MapManager}
use shield_core.Maps.Cidr.{block_cidr}
use shield_core.Maps.Cidr.Laws.{blocked_at, block_cidr_lem}
use shield_core.Maps.Scan.{is_offender, mitigate_one, mitigate_loop, scan_and_mitigate}

abbrev pub host : ℕ → LpmTrieKey
host source = record { prefix_len = 32; bits = source }

-- The text that a source is reported by.
abbrev pub report : ℕ → Text
report source = print_ipv4 (swap32 source)

report_injective : (j k : ℕ) → j < 2 ^ 32 → k < 2 ^ 32 → report j ≡ report k → j ≡ k
report_injective j k hj hk e =
    let same : swap32 j ≡ swap32 k = some-injective _ _ (
      sym (parse_ipv4-print_ipv4 (swap32 j) (swap32-lt j))
      ∙ ap parse_ipv4 e
      ∙ parse_ipv4-print_ipv4 (swap32 k) (swap32-lt k)) in
    sym (swap32_involutive j hj) ∙ ap swap32 same ∙ swap32_involutive k hk

unfoldable pub reported : List Text → ℕ → Bool
reported [] source = false
reported (t ∷ out) source = text_eq t (report source) || reported out source

-- Whether the first pairs of an iteration, as many as the limit lets through, hold an offender.
unfoldable pub offends : ℕ → ℕ → ℕ → ℕ → List (ℕ × List StatVal) → ℕ → Bool
offends pps bps limit count [] source = false
offends pps bps limit count (p ∷ l) source =
    if ltb 0 limit && ltb limit (count + 1)
    then false
    else p.0 == source && is_offender pps bps p.1 || offends pps bps limit (count + 1) l source

module _ (K : Kernel) (L : IsMap key_eq K.lpm) (parse_ipv6 : Text → Option ℕ)
    (now pps bps : ℕ) where
  parse_report :
      (key : ℕ) → key < 2 ^ 32 → parse_cidr parse_ipv6 (report key) ≡ Parsed.ok (host key)
  parse_report key h =
      parse_cidr_host parse_ipv6 (swap32 key) (swap32-lt key)
      ∙ ap (λ b. Parsed.ok (host b)) (swap32_involutive key h)

  -- Blocking a reported source either writes its host key or changes nothing.
  block_report :
      (key : ℕ) (m : MapManager K)
      → key < 2 ^ 32
      → let (m', e) = block_cidr K parse_ipv6 now m (report key) in
        (e ≡ none
          → (j : LpmTrieKey)
          → blocked_at K m' j ≡ (if key_eq (host key) j then some now else blocked_at K m j))
        × (e ≢ none → m' ≡ m)
  block_report key m h = elim (block_cidr_lem K L parse_ipv6 m now (report key)).0 [
    | inl (e, (k, p, at)) ↦ (λ f j. ground (arith, parse_report key h, at j), λ f. absurd (f e))
    | inr (e, kept) ↦ (λ f. absurd (e f), λ f. kept)
  ]

  mitigate_one_lem :
      (key : ℕ) (vals : List StatVal) (m : MapManager K)
      → key < 2 ^ 32
      → let (m', hit) = mitigate_one K parse_ipv6 now pps bps key vals m in
        (hit ≢ none
          → (hit ≡ some (report key))
            × (is_offender pps bps vals ≡ true)
            × ((j : LpmTrieKey)
                → blocked_at K m' j ≡ (if key_eq (host key) j then some now else blocked_at K m j)))
        × (hit ≡ none → (j : LpmTrieKey) → blocked_at K m' j ≡ blocked_at K m j)
  unfolding mitigate_one
  mitigate_one_lem key vals m h =
      let (written, kept) = block_report key m h in
      elim (Bool-cases (is_offender pps bps vals)) [
        | inr e ↦ (λ n. absurd (ground arith), λ n j. ground arith)
        | inl e ↦ elim (Option-cases (block_cidr K parse_ipv6 now m (report key)).1) [
          | inl f ↦
              (λ n. (ground arith, e, λ j. ground (arith, written f j)), λ n. absurd (ground arith))
          | inr (x, f) ↦ (λ n. absurd (ground arith), λ n j. ground (arith, kept))
        ]
      ]

  same_report : (j k : ℕ) → j < 2 ^ 32 → k < 2 ^ 32 → text_eq (report j) (report k) ≡ (j == k)
  same_report j k hj hk = ground (
    arith,
    text_eq_iff (report j) (report k),
    λ (e : report j ≡ report k). report_injective j k hj hk e,
    λ (e : j ≡ k). ap report e,
  )

  mitigate_loop_blocked :
      (limit count : ℕ) (l : List (ℕ × List StatVal)) (m : MapManager K) (j : LpmTrieKey)
      → All (λ p. p.0 < 2 ^ 32) l
      → j.bits < 2 ^ 32
      → let (m', out) = mitigate_loop K parse_ipv6 now pps bps limit count l m in
        blocked_at K m' j
        ≡ (if j.prefix_len == 32 && reported out j.bits then some now else blocked_at K m j)
  unfolding mitigate_loop reported key_eq
  mitigate_loop_blocked limit count [] m j h b = ground arith
  mitigate_loop_blocked limit count (p ∷ l) m j h b =
      let (m', hit) = mitigate_one K parse_ipv6 now pps bps p.0 p.1 m in
      let rest = mitigate_loop_blocked limit (count + 1) l m' j h.1 b in
      elim (Option-cases hit) [
        | inl e ↦ ground (arith, rest, (mitigate_one_lem p.0 p.1 m h.0).1 e j)
        | inr (t, e) ↦
            let (name, _, at) = (mitigate_one_lem p.0 p.1 m h.0).0 (λ n. cc) in
            ground (arith, rest, name, at j, same_report p.0 j.bits h.0 b)
      ]

  -- Only offenders among the pairs that the limit lets through are reported.
  mitigate_loop-reported :
      (limit count : ℕ) (l : List (ℕ × List StatVal)) (m : MapManager K) (source : ℕ)
      → All (λ p. p.0 < 2 ^ 32) l
      → source < 2 ^ 32
      → reported (mitigate_loop K parse_ipv6 now pps bps limit count l m).1 source ≡ true
      → offends pps bps limit count l source ≡ true
  unfolding mitigate_loop reported offends
  mitigate_loop-reported limit count [] m source h b r = ground arith
  mitigate_loop-reported limit count (p ∷ l) m source h b r =
      let (m', hit) = mitigate_one K parse_ipv6 now pps bps p.0 p.1 m in
      let rest = mitigate_loop-reported limit (count + 1) l m' source h.1 b in
      elim (Option-cases hit) [
        | inl e ↦ ground (arith, rest)
        | inr (t, e) ↦
            let (name, bad, _) = (mitigate_one_lem p.0 p.1 m h.0).0 (λ n. cc) in
            ground (arith, rest, name, bad, same_report p.0 source h.0 b)
      ]

  length-mitigate_loop :
      (limit count : ℕ) (l : List (ℕ × List StatVal)) (m : MapManager K)
      → 0 < limit
      → count ≤ limit
      → length (mitigate_loop K parse_ipv6 now pps bps limit count l m).1 + count ≤ limit
  unfolding mitigate_loop
  length-mitigate_loop limit count [] m h c = omega arith
  length-mitigate_loop limit count (p ∷ l) m h c =
      let (m', hit) = mitigate_one K parse_ipv6 now pps bps p.0 p.1 m in
      let rest = length-mitigate_loop limit (count + 1) l m' h in ground (arith, rest)

  -- After a sweep the host keys of the reported sources, and no others, are blocked anew, with
  -- the time of the sweep. What is reported are offenders within the scan limit, at most as many
  -- as the limit where there is one.
  pub scan_and_mitigate_exact :
      (limit : ℕ) (m : MapManager K) (j : LpmTrieKey)
      → All (λ p. p.0 < 2 ^ 32) (K.ip_stats.iterate m.ip_stats_map).0
      → j.bits < 2 ^ 32
      → let (m', out, e) = scan_and_mitigate K parse_ipv6 now pps bps limit m in
        (blocked_at K m' j
          ≡ (if j.prefix_len == 32 && reported out j.bits then some now else blocked_at K m j))
        × ((reported out j.bits ≡ false)
            ⊎ (offends pps bps limit 0 (K.ip_stats.iterate m.ip_stats_map).0 j.bits ≡ true))
        × ((limit ≡ 0) ⊎ (length out ≤ limit))
  unfolding scan_and_mitigate
  scan_and_mitigate_exact limit m j h b =
      let l = (K.ip_stats.iterate m.ip_stats_map).0 in
      (
        mitigate_loop_blocked limit 0 l m j h b,
        ground (arith, mitigate_loop-reported limit 0 l m j.bits h b),
        ground (arith, length-mitigate_loop limit 0 l m),
      )
