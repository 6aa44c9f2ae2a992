-- ===== src/Maps/Scan/Expiry.antt =====
-- Which blocks the clean-up removes (src/control_plane/map_manager.go, CleanExpiredBlacklist).
use mathlib.Core.Option.{some-injective}
use shield_core.Prelude.{
  ℕ, ◌+◌, ◌^◌, ◌<◌, ◌⊎◌, ◌≡◌, ◌≢◌, ltb, refl, ap, sym, ◌∙◌, Bool, true, false, ◌&&◌, ◌||◌, Option,
  none, some, List, [], ◌∷◌, ◌++◌, All, if◌then◌else◌, arith, Option-cases, Bool-cases, inl, inr,
}
use shield_core.Net.Lpm.{LpmTrieKey}
use shield_core.Kernel.{Kernel, IsMap, key_eq, yields, delete_or_keep}
use shield_core.Kernel.Deletes.{delete_or_keep_lem}
use shield_core.Maps.{MapManager}
use shield_core.Maps.Cidr.{iterate_error}
use shield_core.Maps.Cidr.Laws.{blocked_at, allowed_at}
use shield_core.Maps.Scan.{is_expired, clean_loop, clean_expired_blacklist}

pub iterate_error_some : (K : Kernel) (b : Bool) → b ≡ false → iterate_error K b ≢ none
unfolding iterate_error
iterate_error_some K true h = absurd (ground arith)
iterate_error_some K false h = λ e. cc

-- Whether some pair of the list is an expired block of the key.
expires : ℕ → ℕ → List (LpmTrieKey × ℕ) → LpmTrieKey → Bool
expires now ttl [] j = false
expires now ttl (p ∷ l) j = key_eq p.0 j && is_expired now ttl p.1 || expires now ttl l j

abbrev pub keep_fresh : ℕ → ℕ → Option ℕ → Option ℕ
keep_fresh now ttl none = none
keep_fresh now ttl (some val) = if is_expired now ttl val then none else some val

module _ (K : Kernel) (now ttl : ℕ) where
  -- The trie refuses to delete an expired block of the key, as it is when the clean-up has come
  -- to it.
  abbrev pub Refuses : List (LpmTrieKey × ℕ) → MapManager K → LpmTrieKey → Type 0
  Refuses l m j =
      (xs : List (LpmTrieKey × ℕ)) × (p : LpmTrieKey × ℕ) × (ys : List (LpmTrieKey × ℕ)) × (l
        ≡ xs ++ p ∷ ys)
      × (p.0 ≡ j)
      × (is_expired now ttl p.1 ≡ true)
      × (K.lpm.delete p.0 (clean_loop K now ttl xs m).0.cidr_blacklist ≡ none)

  -- What is behind the first pair.
  Refuses-later :
      (p : LpmTrieKey × ℕ) (l : List (LpmTrieKey × ℕ)) (m m1 : MapManager K) (j : LpmTrieKey)
      → (if is_expired now ttl p.1
          then record m { cidr_blacklist = delete_or_keep K.lpm p.0 m.cidr_blacklist }
          else m)
        ≡ m1
      → Refuses l m1 j
      → Refuses (p ∷ l) m j
  unfolding clean_loop
  Refuses-later p l m m1 j h (xs, q, ys, e, same, old, f) =
      (p ∷ xs, q, ys, ap (λ k. p ∷ k) e, same, old, rw h f)

module _ (K : Kernel) (L : IsMap key_eq K.lpm) (now ttl : ℕ) where
  clean_loop_blocked :
      (l : List (LpmTrieKey × ℕ)) (m : MapManager K) (j : LpmTrieKey)
      → (blocked_at K (clean_loop K now ttl l m).0 j
          ≡ (if expires now ttl l j then none else blocked_at K m j))
        ⊎ (Refuses K now ttl l m j
            × (blocked_at K (clean_loop K now ttl l m).0 j ≡ blocked_at K m j))
  unfolding clean_loop expires
  clean_loop_blocked [] m j = inl refl
  clean_loop_blocked (p ∷ l) m j = elim (Bool-cases (is_expired now ttl p.1)) [
    | inl e ↦
        let m1 : MapManager K = record m {
          cidr_blacklist = delete_or_keep K.lpm p.0 m.cidr_blacklist;
        } in
        elim (delete_or_keep_lem K.lpm L p.0 m.cidr_blacklist) [
          | inl gone ↦ elim (clean_loop_blocked l m1 j) [
            | inl h ↦ inl (ground (arith, e, h, gone j))
            | inr (r, h) ↦ elim (Bool-cases (key_eq p.0 j)) [
              | inl y ↦ inl (ground (arith, e, h, gone j, y))
              | inr n ↦ inr (
                Refuses-later K now ttl p l m m1 j (rw e refl) r,
                ground (arith, e, h, gone j, n),
              )
            ]
          ]
          | inr (f, kept) ↦ elim (clean_loop_blocked l m1 j) [
            | inr (r, h) ↦ inr (
              Refuses-later K now ttl p l m m1 j (rw e refl) r,
              rw e (h ∙ ap (λ s. K.lpm.lookup j s) kept),
            )
            | inl h ↦ elim (Bool-cases (key_eq p.0 j)) [
              | inr n ↦ inl (ground (arith, e, h, kept, n))
              | inl y ↦ elim (Bool-cases (expires now ttl l j)) [
                | inl x ↦ inl (ground (arith, e, h, x))
                | inr x ↦
                    inr (([], p, l, refl, L.eq_sound p.0 j y, e, f), ground (arith, e, h, x, kept))
              ]
            ]
          ]
        ]
    | inr e ↦ elim (clean_loop_blocked l m j) [
      | inl h ↦ inl (ground (arith, e, h))
      | inr (r, h) ↦ inr (Refuses-later K now ttl p l m m j (rw e refl) r, ground (arith, e, h))
    ]
  ]

  expires_of_sound :
      (l : List (LpmTrieKey × ℕ)) (s : K.lpm.Store) (j : LpmTrieKey) (v : ℕ)
      → All (λ p. K.lpm.lookup p.0 s ≡ some p.1) l
      → K.lpm.lookup j s ≡ some v
      → expires now ttl l j ≡ (yields key_eq j l && is_expired now ttl v)
  unfolding expires
  expires_of_sound [] s j v h e = refl
  expires_of_sound (p ∷ l) s j v h e = elim (Bool-cases (key_eq p.0 j)) [
    | inl same ↦
        let one : p.1 ≡ v =
          some-injective p.1 v (sym h.0 ∙ ap (λ i. K.lpm.lookup i s) (L.eq_sound p.0 j same) ∙ e) in
        ground (arith, ap (is_expired now ttl) one, expires_of_sound l s j v h.1 e)
    | inr differ ↦ ground (arith, expires_of_sound l s j v h.1 e)
  ]

  expires_missing :
      (l : List (LpmTrieKey × ℕ)) (m : MapManager K) (j : LpmTrieKey)
      → blocked_at K m j ≡ none
      → blocked_at K (clean_loop K now ttl l m).0 j ≡ none
  expires_missing l m j e = elim (clean_loop_blocked l m j) [
    | inl h ↦ h ∙ rw e (ground arith)
    | inr (r, h) ↦ h ∙ e
  ]

  clean_loop_allowed :
      (l : List (LpmTrieKey × ℕ)) (m : MapManager K)
      → (clean_loop K now ttl l m).0.cidr_whitelist ≡ m.cidr_whitelist
  unfolding clean_loop
  clean_loop_allowed [] m = refl
  clean_loop_allowed (p ∷ l) m = elim (Bool-cases (is_expired now ttl p.1)) [
    | inl e ↦ ground (
      arith,
      clean_loop_allowed l
          (record m { cidr_blacklist = delete_or_keep K.lpm p.0 m.cidr_blacklist }),
    )
    | inr e ↦ ground (arith, clean_loop_allowed l m)
  ]

  -- After a clean-up each key of the blacklist holds the block that it held before where that has
  -- not expired, and nothing otherwise; unless the iteration ended in an error, or the trie refused
  -- to delete an expired block of that key: then it may hold what it held before. No whitelist
  -- entry is touched.
  pub clean_expired_blacklist_exact :
      (m : MapManager K)
      → let (m', out, e) = clean_expired_blacklist K now ttl m in
        ((j : LpmTrieKey)
          → (blocked_at K m' j ≡ keep_fresh now ttl (blocked_at K m j))
            ⊎ (((e ≢ none) ⊎ Refuses K now ttl (K.lpm.iterate m.cidr_blacklist).0 m j)
                × (blocked_at K m' j ≡ blocked_at K m j)))
        × ((j : LpmTrieKey) → allowed_at K m' j ≡ allowed_at K m j)
  unfolding clean_expired_blacklist
  clean_expired_blacklist_exact m =
      let (l, done) = K.lpm.iterate m.cidr_blacklist in
      let sound = L.iterate_sound m.cidr_blacklist in
      (
        λ j. elim (Option-cases (blocked_at K m j)) [
          | inl n ↦ inl (rw (expires_missing l m j n, n))
          | inr (v, h) ↦
              let hit = expires_of_sound l m.cidr_blacklist j v sound h in
              elim (clean_loop_blocked l m j) [
                | inr (refused, same) ↦ inr (inr refused, same)
                | inl cleaned ↦ elim (Bool-cases done) [
                  | inl e ↦ inl (
                      rw (cleaned, hit, L.iterate_complete m.cidr_blacklist j v e h, h)
                        (ground arith))
                  | inr e ↦ elim (Bool-cases (expires now ttl l j)) [
                    | inl x ↦ inl (ground (arith, cleaned, hit, h, x))
                    | inr x ↦ inr (inl (iterate_error_some K done e), ground (arith, cleaned, x))
                  ]
                ]
              ]
        ],
        λ j. ap (λ s. K.lpm.lookup j s) (clean_loop_allowed l m),
      )

-- For times in 64 bits a block has expired exactly if it is older than its life; a block dated
-- after the present, as after the clock was set back, counts as expired too, unless the life is
-- close to 2^64 seconds.
pub is_expired_exact :
    (now ttl val : ℕ)
    → now < 2 ^ 64
    → val < 2 ^ 64
    → is_expired now ttl val
      ≡ (ltb 1 val && (ltb (val + ttl) now || (ltb now val && ltb (ttl + val) (now + 2 ^ 64))))
unfolding is_expired
is_expired_exact now ttl val h k = ground arith
