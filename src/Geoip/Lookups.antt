-- ===== src/Geoip/Lookups.antt =====
-- Lookups answer as the loaded database does (src/control_plane/geoip.go).
use shield_core.Prelude.{
  ◌≡◌, ◌⊎◌, inl, inr, refl, ap, sym, ◌∙◌, Bool, true, false, Option, none, some, List, [], ◌∷◌,
  Text, if◌then◌else◌, arith, Bool-cases, Option-cases,
}
use mathlib.Core.Path.{subst}
use shield_core.Geoip.{
  Database, Reader, DbFile, resolve_path, found, cached, collect, hit, made, get_cidrs,
  reload_database,
}

module _ {Key : Type 0} (eq : Key → Key → Bool) (zero_value : Key) where
  -- What the database itself answers.
  abbrev pub answer : Key → Database Key → Option (List Text)
  answer k d =
      if d.loaded
      then elim d.reader [ none ↦ none | some r ↦ some (collect eq k zero_value r.networks) ]
      else none

  -- Every cached entry is the answer of the database.
  abbrev pub IsFresh : Database Key → Type 0
  IsFresh d = (k : Key) → (hit eq k d.cache ≡ none) ⊎ (hit eq k d.cache ≡ answer k d)

module _ {Key : Type 0} (eq : Key → Key → Bool) (zero_value : Key)
    (sound : (j k : Key) → eq j k ≡ true → j ≡ k) where
  loaded_of_answer :
      (k : Key) (d : Database Key) (c : List Text)
      → answer eq zero_value k d ≡ some c
      → (d.loaded ≡ true)
        × ((r : Reader Key) × (d.reader ≡ some r) × (c ≡ collect eq k zero_value r.networks))
  loaded_of_answer k d c a = elim (Option-cases d.reader) [
    | inl f ↦ absurd (ground (arith, f, a))
    | inr (r, f) ↦ (ground (arith, f, a), (r, f, ground (arith, f, a)))
  ]

  cached-made :
      (j : Key) (c : Option (List (Key × List Text))) → cached eq j (made eq c) ≡ hit eq j c
  unfolding hit cached made
  cached-made j none = refl
  cached-made j (some l) = refl

  -- A cache with one more answer.
  IsFresh-cons :
      (k : Key) (d : Database Key) (c : List Text)
      → answer eq zero_value k d ≡ some c
      → IsFresh eq zero_value d
      → IsFresh eq zero_value (record d { cache = some ((k, c) ∷ made eq d.cache) })
  unfolding hit cached made
  IsFresh-cons k d c a fresh j = elim (Bool-cases (eq k j)) [
    | inl s ↦ inr (rw s (sym a ∙ ap (λ i. answer eq zero_value i d) (sound k j s)))
    | inr n ↦ rw (n, cached-made j d.cache) (fresh j)
  ]

  -- A lookup in fresh caches gives the database's answer and keeps the caches fresh.
  get_hit :
      (k : Key) (d : Database Key) (c : List Text)
      → hit eq k d.cache ≡ some c
      → get_cidrs eq zero_value k d ≡ ((d, true), some c)
  unfolding get_cidrs
  get_hit k d c e = ground (arith, e)

  -- A key that the cache lacks, with a database.
  get_miss :
      (k : Key) (d : Database Key) (r : Reader Key)
      → hit eq k d.cache ≡ none
      → d.loaded ≡ true
      → d.reader ≡ some r
      → let cidrs = collect eq k zero_value r.networks in
        get_cidrs eq zero_value k d
        ≡ ((record d { cache = some ((k, cidrs) ∷ made eq d.cache) }, false), some cidrs)
  unfolding get_cidrs
  get_miss k d r e l f = ground (arith, e, l, f)

  get_nothing :
      (k : Key) (d : Database Key)
      → hit eq k d.cache ≡ none
      → answer eq zero_value k d ≡ none
      → get_cidrs eq zero_value k d ≡ ((d, false), none)
  unfolding get_cidrs
  get_nothing k d e a = elim (Option-cases d.reader) [
    | inl f ↦ ground (arith, e, f)
    | inr (r, f) ↦ ground (arith, e, f, a)
  ]

  pub get_cidrs_lem :
      (k : Key) (d : Database Key)
      → IsFresh eq zero_value d
      → let ((d', was_hit), out) = get_cidrs eq zero_value k d in
        (out ≡ answer eq zero_value k d) × IsFresh eq zero_value d'
  unfolding get_cidrs made hit cached
  get_cidrs_lem k d fresh = elim (Option-cases (hit eq k d.cache)) [
    | inr (c, e) ↦ (
      elim (fresh k) [
        | inl n ↦ absurd (ground (arith, e, n))
        | inr same ↦ ground (arith, get_hit k d c e, sym e ∙ same)
      ],
      subst (λ g. IsFresh eq zero_value g.0.0) (sym (get_hit k d c e)) fresh,
    )
    | inl e ↦ elim (Option-cases (answer eq zero_value k d)) [
      | inl a ↦ (
        ground (arith, get_nothing k d e a, a),
        subst (λ g. IsFresh eq zero_value g.0.0) (sym (get_nothing k d e a)) fresh,
      )
      | inr (c, a) ↦
          let (l, (r, f, g)) = loaded_of_answer k d c a in
          let miss = get_miss k d r e l f in
          let now = collect eq k zero_value r.networks in
          (
            ap (λ p. p.1) miss ∙ ap some (sym g) ∙ sym a,
            subst (λ p. IsFresh eq zero_value p.0.0) (sym miss)
                (IsFresh-cons k d now (a ∙ ap some g) fresh),
          )
    ]
  ]

  reload_empties :
      (kind other : Text) (files : Text → Option (DbFile Key)) (d : Database Key)
      → (reload_database kind other files d).cache ≡ some []
  unfolding reload_database
  reload_empties kind other files d =
      elim (Option-cases (files (resolve_path (λ p. found (files p)) d.path))) [
        | inl e ↦ ground (arith, e)
        | inr (file, e) ↦ elim (Option-cases file.opened) [
          | inl f ↦ ground (arith, e, f)
          | inr (r, f) ↦ ground (arith, e, f)
        ]
      ]

  pub reload_database_lem :
      (kind other : Text) (files : Text → Option (DbFile Key)) (d : Database Key)
      → IsFresh eq zero_value (reload_database kind other files d)
  unfolding reload_database hit cached
  reload_database_lem kind other files d =
      λ k. inl (ap (hit eq k) (reload_empties kind other files d))
