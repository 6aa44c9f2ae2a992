-- ===== src/Kernel/Table.antt =====
-- A bounded table that keeps the laws of a map: the instance at which the examples run.
use shield_core.Prelude.{
  ℕ, ◌≡◌, refl, Bool, true, false, Option, none, some, List, [], ◌∷◌, length, ltb, ◌==◌,
  if◌then◌else◌, All, Bool-cases, inl, inr, arith, ==_refl,
}
use shield_core.Kernel.{MapOps, KeepsPut, IsMap, yields, key_eq, backend_key_eq, Kernel}

module _ {K V : Type 0} (eq : K → K → Bool) where
  abbrev pub find : K → List (K × V) → Option V
  find k [] = none
  find k (p ∷ l) = if eq p.0 k then some p.1 else find k l

  abbrev pub without : K → List (K × V) → List (K × V)
  without k [] = []
  without k (p ∷ l) = let rest = without k l in if eq p.0 k then rest else p ∷ rest

  abbrev pub table_put : ℕ → K → V → List (K × V) → Option (List (K × V))
  table_put cap k v l = if ltb (length (without k l)) cap then some ((k, v) ∷ without k l) else none

  abbrev pub table_delete : K → List (K × V) → Option (List (K × V))
  table_delete k l = elim (find k l) [ none ↦ none | some _ ↦ some (without k l) ]

  -- The pairs that `find` can see.
  abbrev pub visible : List (K × V) → List (K × V)
  visible [] = []
  visible (p ∷ l) = p ∷ without p.0 (visible l)

  abbrev pub table : ℕ → MapOps K V
  table cap = record {
    Store = List (K × V);
    put = table_put cap;
    delete = table_delete;
    lookup = find;
    iterate = λ l. (visible l, true);
  }

pub record IsEq {K : Type 0} (eq : K → K → Bool) : Type 0 where
  pub sound : (j k : K) → eq j k ≡ true → j ≡ k
  pub self : (k : K) → eq k k ≡ true

module _ {K : Type 0} (eq : K → K → Bool) (E : IsEq eq) where
  eq_flip : (j k : K) → eq j k ≡ false → eq k j ≡ false
  eq_flip j k h = elim (Bool-cases (eq k j)) [ inl e ↦ cc (E.sound k j e) | inr n ↦ n ]

module _ {K V : Type 0} (eq : K → K → Bool) (E : IsEq eq) where
  find-without :
      (k j : K) (l : List (K × V))
      → find eq j (without eq k l) ≡ (if eq k j then none else find eq j l)
  find-without k j [] = ground arith
  find-without k j (p ∷ l) = ground (
    arith,
    find-without k j l,
    E.sound p.0 k,
    E.sound p.0 j,
    E.sound k j,
    eq_flip eq E k j,
    eq_flip eq E p.0 k,
    E.self k,
    E.self j,
    E.self p.0,
  )

  find-table_put :
      (cap : ℕ) (k j : K) (v : V) (l m : List (K × V))
      → table_put eq cap k v l ≡ some m
      → find eq j m ≡ (if eq k j then some v else find eq j l)
  find-table_put cap k j v l m h = ground (arith, find-without k j l)

  find-table_delete :
      (k j : K) (l m : List (K × V))
      → table_delete eq k l ≡ some m
      → find eq j m ≡ (if eq k j then none else find eq j l)
  find-table_delete k j l m h = ground (arith, find-without k j l)

  All-without :
      (P : K × V → Type 0) (k : K) (l : List (K × V))
      → All P l
      → All (λ q. P q × (eq k q.0 ≡ false)) (without eq k l)
  All-without P k [] h = tt
  All-without P k (p ∷ l) h = elim (Bool-cases (eq p.0 k)) [
    | inl e ↦ rw e (All-without P k l h.1)
    | inr n ↦ rw n ((h.0, eq_flip eq E p.0 k n), All-without P k l h.1)
  ]

  All-map :
      (P Q : K × V → Type 0) (l : List (K × V)) → ((q : K × V) → P q → Q q) → All P l → All Q l
  All-map P Q [] f h = tt
  All-map P Q (p ∷ l) f h = (f p h.0, All-map P Q l f h.1)

  visible_sound : (l : List (K × V)) → All (λ p. find eq p.0 l ≡ some p.1) (visible eq l)
  visible_sound [] = tt
  visible_sound (p ∷ l) = (
    rw (E.self p.0),
    All-map (λ q. (find eq q.0 l ≡ some q.1) × (eq p.0 q.0 ≡ false))
        (λ q. find eq q.0 (p ∷ l) ≡ some q.1) (without eq p.0 (visible eq l)) (λ q h. rw h.1 h.0)
        (All-without (λ q. find eq q.0 l ≡ some q.1) p.0 (visible eq l) (visible_sound l)),
  )

  yields-without :
      (k j : K) (l : List (K × V)) → eq k j ≡ false → yields eq j (without eq k l) ≡ yields eq j l
  yields-without k j [] h = refl
  yields-without k j (p ∷ l) h =
      ground (arith, yields-without k j l h, E.sound p.0 k, E.sound p.0 j, E.self p.0)

  visible_complete :
      (l : List (K × V)) (k : K) (v : V) → find eq k l ≡ some v → yields eq k (visible eq l) ≡ true
  visible_complete [] k v h = cc
  visible_complete (p ∷ l) k v h = elim (Bool-cases (eq p.0 k)) [
    | inl e ↦ rw e
    | inr n ↦ rw (n, yields-without p.0 k (visible eq l) n) (visible_complete l k v (ground arith))
  ]

  pub table-KeepsPut : (cap : ℕ) → KeepsPut eq (table {V = V} eq cap)
  table-KeepsPut cap = record {
    eq_sound = E.sound;
    eq_refl = E.self;
    lookup-put = find-table_put cap;
  }

  pub table-IsMap : (cap : ℕ) → IsMap eq (table {V = V} eq cap)
  table-IsMap cap = record {
    puts = table-KeepsPut cap;
    lookup-delete = find-table_delete;
    iterate_sound = visible_sound;
    iterate_complete = λ s k v h. visible_complete s k v;
  }

pub nat_IsEq : IsEq ◌==◌
nat_IsEq = record { sound = λ j k h. ground arith; self = ==_refl }

pub key_IsEq : IsEq key_eq
unfolding key_eq
key_IsEq = record { sound = λ j k h. ground arith; self = λ k. ground arith }

pub backend_key_IsEq : IsEq backend_key_eq
backend_key_IsEq = record { sound = λ j k h. ground arith; self = λ k. ground arith }

-- The maps at the capacities of a small machine.
abbrev pub small_kernel : Kernel
small_kernel = record {
  lpm = table key_eq 8;
  config = table ◌==◌ 8;
  ip_stats = table ◌==◌ 8;
  backend = table backend_key_eq 8;
  stats = table ◌==◌ 8;
  vip_stats = table ◌==◌ 8;
  ring_stats = table ◌==◌ 8;
}
