-- ===== src/Maps/Cidr/Laws.antt =====
-- What a CIDR operation does to the entries of the tries (src/control_plane/map_manager.go).
use shield_core.Prelude.{
  ℕ, ◌≡◌, ◌≢◌, ◌⊎◌, inl, inr, refl, Option, none, some, Text, if◌then◌else◌, arith, Option-cases,
}
use shield_core.Net.Lpm.{LpmTrieKey, AddrError, Parsed, Parsed-cases, parse_cidr}
use shield_core.Kernel.{Kernel, IsMap, key_eq}
use shield_core.Maps.{MapManager}
use shield_core.Maps.Cidr.{put_cidr, delete_cidr, block_cidr, allow_cidr}

module _ (K : Kernel) where
  abbrev pub blocked_at : MapManager K → LpmTrieKey → Option ℕ
  blocked_at m key = K.lpm.lookup key m.cidr_blacklist

  abbrev pub allowed_at : MapManager K → LpmTrieKey → Option ℕ
  allowed_at m key = K.lpm.lookup key m.cidr_whitelist

module _ (K : Kernel) (L : IsMap key_eq K.lpm) (parse_ipv6 : Text → Option ℕ) where
  -- `Put` and `Delete` through a text, on a trie of either list.
  put_cidr_lem :
      (s : K.lpm.Store) (t : Text) (val : ℕ)
      → let (s', e) = put_cidr K parse_ipv6 s t val in
        ((e ≡ none)
          × ((key : LpmTrieKey) × (parse_cidr parse_ipv6 t ≡ Parsed.ok key)
              × ((j : LpmTrieKey)
                  → K.lpm.lookup j s' ≡ (if key_eq key j then some val else K.lpm.lookup j s))))
        ⊎ ((e ≢ none) × (s' ≡ s))
  unfolding put_cidr
  put_cidr_lem s t val = elim (Parsed-cases (parse_cidr parse_ipv6 t)) [
    | inl (e, p) ↦ inr (ground arith, ground arith)
    | inr (key, p) ↦ elim (Option-cases (K.lpm.put key val s)) [
      | inl f ↦ inr (ground arith, ground arith)
      | inr (u, f) ↦ inl (ground arith, (key, p, λ j. ground (arith, L.lookup-put key j val s u f)))
    ]
  ]

  delete_cidr_lem :
      (s : K.lpm.Store) (t : Text)
      → let (s', e) = delete_cidr K parse_ipv6 s t in
        ((e ≡ none)
          × ((key : LpmTrieKey) × (parse_cidr parse_ipv6 t ≡ Parsed.ok key)
              × ((j : LpmTrieKey)
                  → K.lpm.lookup j s' ≡ (if key_eq key j then none else K.lpm.lookup j s))))
        ⊎ ((e ≢ none)
            × (s' ≡ s)
            × (((x : AddrError) × (parse_cidr parse_ipv6 t ≡ Parsed.err x))
                ⊎ ((key : LpmTrieKey) × (parse_cidr parse_ipv6 t ≡ Parsed.ok key)
                    × (K.lpm.delete key s ≡ none))))
  unfolding delete_cidr
  delete_cidr_lem s t = elim (Parsed-cases (parse_cidr parse_ipv6 t)) [
    | inl (x, p) ↦ inr (ground arith, ground arith, inl (x, p))
    | inr (key, p) ↦ elim (Option-cases (K.lpm.delete key s)) [
      | inl f ↦ inr (ground arith, ground arith, inr (key, p, f))
      | inr (u, f) ↦ inl (ground arith, (key, p, λ j. ground (arith, L.lookup-delete key j s u f)))
    ]
  ]

module _ (K : Kernel) (L : IsMap key_eq K.lpm) (parse_ipv6 : Text → Option ℕ)
    (m : MapManager K) where
  -- A block that succeeds writes the time under the key of its text and under no other; one that
  -- fails leaves the manager as it was. The whitelist is not touched.
  pub block_cidr_lem :
      (now : ℕ) (t : Text)
      → let (m', e) = block_cidr K parse_ipv6 now m t in
        (((e ≡ none)
            × ((key : LpmTrieKey) × (parse_cidr parse_ipv6 t ≡ Parsed.ok key)
                × ((j : LpmTrieKey)
                    → blocked_at K m' j ≡ (if key_eq key j then some now else blocked_at K m j))))
          ⊎ ((e ≢ none) × (m' ≡ m)))
        × ((j : LpmTrieKey) → allowed_at K m' j ≡ allowed_at K m j)
  unfolding block_cidr
  block_cidr_lem now t = elim (put_cidr_lem K L parse_ipv6 m.cidr_blacklist t now) [
    | inl written ↦ (inl written, λ j. refl)
    | inr (e, kept) ↦ (inr (e, ground arith), λ j. refl)
  ]

  -- An unblock that succeeds removes the key of its text and no other; one that fails leaves the
  -- manager as it was, and was given no address or a key whose deletion the trie refused. The
  -- whitelist is not touched.
  pub allow_cidr_lem :
      (t : Text)
      → let (m', e) = allow_cidr K parse_ipv6 m t in
        (((e ≡ none)
            × ((key : LpmTrieKey) × (parse_cidr parse_ipv6 t ≡ Parsed.ok key)
                × ((j : LpmTrieKey)
                    → blocked_at K m' j ≡ (if key_eq key j then none else blocked_at K m j))))
          ⊎ ((e ≢ none)
              × (m' ≡ m)
              × (((x : AddrError) × (parse_cidr parse_ipv6 t ≡ Parsed.err x))
                  ⊎ ((key : LpmTrieKey) × (parse_cidr parse_ipv6 t ≡ Parsed.ok key)
                      × (K.lpm.delete key m.cidr_blacklist ≡ none)))))
        × ((j : LpmTrieKey) → allowed_at K m' j ≡ allowed_at K m j)
  unfolding allow_cidr
  allow_cidr_lem t = elim (delete_cidr_lem K L parse_ipv6 m.cidr_blacklist t) [
    | inl written ↦ (inl written, λ j. refl)
    | inr (e, kept, why) ↦ (inr (e, ground arith, why), λ j. refl)
  ]
