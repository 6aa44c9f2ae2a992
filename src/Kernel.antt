-- ===== src/Kernel.antt =====
-- The BPF maps that the control plane drives through cilium/ebpf (src/control_plane/loader.go,
-- bpfObjects): their operations are parameters of the model, with the documented laws as a
-- record of hypotheses.
pub mod Table
pub mod Deletes
use shield_core.Prelude.{
  ℕ, ◌≡◌, Bool, true, false, ◌&&◌, ◌||◌, Option, none, some, List, [], ◌∷◌, ◌==◌, if◌then◌else◌,
  All,
}
use shield_core.Net.Lpm.{LpmTrieKey}

-- One map. An operation that fails returns `none` and leaves the map alone.
pub record MapOps (K V : Type 0) : Type 1 where
  pub Store : Type 0
  pub put : K → V → Store → Option Store
  pub delete : K → Store → Option Store
  pub lookup : K → Store → Option V
  -- what `Iterate` yields when it starts on a store, and whether its `Err` is nil at the end
  pub iterate : Store → List (K × V) × Bool

-- The map after a call whose error the program drops.
module _ {K V : Type 0} (M : MapOps K V) where
  unfoldable pub put_or_keep : K → V → M.Store → M.Store
  put_or_keep k v s = elim (M.put k v s) [ none ↦ s | some t ↦ t ]

  unfoldable pub delete_or_keep : K → M.Store → M.Store
  delete_or_keep k s = elim (M.delete k s) [ none ↦ s | some t ↦ t ]

-- Whether a key is among the pairs that an iteration yields.
abbrev pub yields {ℓ} : {K V : Type ℓ} → (K → K → Bool) → K → List (K × V) → Bool
yields eq k [] = false
yields eq k (p ∷ l) = eq p.0 k || yields eq k l

-- What the documentation of every map with these operations promises of a successful `Put`.
pub record KeepsPut {K V : Type 0} (eq : K → K → Bool) (M : MapOps K V) : Type 0 where
  pub eq_sound : (j k : K) → eq j k ≡ true → j ≡ k
  pub eq_refl : (k : K) → eq k k ≡ true
  pub lookup-put :
      (k j : K) (v : V) (s t : M.Store)
      → M.put k v s ≡ some t
      → M.lookup j t ≡ (if eq k j then some v else M.lookup j s)

-- What it promises of a hash map or an LPM trie, for exact keys.
pub record IsMap {K V : Type 0} (eq : K → K → Bool) (M : MapOps K V) : Type 0 where
  pub puts : KeepsPut eq M
  pub open puts use *
  pub lookup-delete :
      (k j : K) (s t : M.Store)
      → M.delete k s ≡ some t
      → M.lookup j t ≡ (if eq k j then none else M.lookup j s)
  pub iterate_sound : (s : M.Store) → All (λ p. M.lookup p.0 s ≡ some p.1) (M.iterate s).0
  pub iterate_complete :
      (s : M.Store) (k : K) (v : V)
      → (M.iterate s).1 ≡ true
      → M.lookup k s ≡ some v
      → yields eq k (M.iterate s).0 ≡ true

unfoldable pub key_eq : LpmTrieKey → LpmTrieKey → Bool
key_eq a b = a.prefix_len == b.prefix_len && a.bits == b.bits

-- The keys and values of the other maps.
pub record BackendKey : Type 0 where
  pub vip : ℕ  -- uint32
  pub vport : ℕ  -- uint16
  pub protocol : ℕ  -- uint8
  pub pad : ℕ  -- uint8

abbrev pub backend_key_eq : BackendKey → BackendKey → Bool
backend_key_eq a b =
    a.vip == b.vip && a.vport == b.vport && a.protocol == b.protocol && a.pad == b.pad

pub record BackendInfo : Type 0 where
  pub ip : ℕ  -- uint32
  pub port : ℕ  -- uint16
  pub tunnel : ℕ  -- uint8
  pub pad : ℕ  -- uint8

pub record StatVal : Type 0 where
  pub pps : ℕ  -- uint64
  pub bps : ℕ  -- uint64
  pub next_update : ℕ  -- uint64

pub record VipStatsVal : Type 0 where
  pub passed : ℕ  -- uint64
  pub dropped : ℕ  -- uint64

pub record RingStatsVal : Type 0 where
  pub rx_fill_pct : ℕ  -- uint32
  pub tx_fill_pct : ℕ  -- uint32
  pub fill_ring_pct : ℕ  -- uint32
  pub completion_ring_pct : ℕ  -- uint32
  pub timestamp_ns : ℕ  -- uint64

-- The maps of one loaded program; the two tries are of one kind.
pub record Kernel : Type 1 where
  pub lpm : MapOps LpmTrieKey ℕ
  pub config : MapOps ℕ ℕ
  pub ip_stats : MapOps ℕ (List StatVal)
  pub backend : MapOps BackendKey BackendInfo
  pub stats : MapOps ℕ (List ℕ)
  pub vip_stats : MapOps ℕ VipStatsVal
  pub ring_stats : MapOps ℕ RingStatsVal
