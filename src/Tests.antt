-- ===== src/Tests.antt =====
-- Test data: a small geometry, an allocator, and trees in memory.
mod Keys
mod Nodes
mod Trees
mod Caches
mod Failures
mod Clocks
mod Monitors
mod Allocs
mod Loops
mod Splits
mod Drivers
mod Again
mod Removals
use btree_profiling.Common.{
  ℕ, zero, suc, ◌+◌, ◌≤◌, ◌<◌, ◌≡◌, ◌≢◌, refl, true, false, List, [], ◌∷◌, arith, ◌==◌,
  if◌then◌else◌,
}
use btree_profiling.Memory.{Addr, null, Words, State, Env}
use btree_profiling.Words.{word_mod}
use btree_profiling.Words.Order.{value, IsWords}
use btree_profiling.Node.{Geo, bval}
use btree_profiling.Node.Slots.{IsGeo, key_num, pair}
use btree_profiling.Node.Search.{IsNode}

-- The words of a list, and 0 behind them.
abbrev pub row : List ℕ → Words
row [] i = 0
row (x ∷ xs) zero = x
row (x ∷ xs) (suc i) = row xs i

abbrev pub AllLt : ℕ → List ℕ → Type 0
AllLt b [] = Unit {0}
AllLt b (x ∷ xs) = (x < b) × AllLt b xs

pub row-IsWords : (xs : List ℕ) (n : ℕ) → AllLt word_mod xs → IsWords (row xs) n
row-IsWords [] n h i p = omega arith
row-IsWords (x ∷ xs) n h zero p = h.0
row-IsWords (x ∷ xs) n h (suc i) p = row-IsWords xs (suc i) h.1 i (omega arith)

-- A statement at every index below a small bound.
pub below_two : (P : ℕ → Type 0) → P 0 → P 1 → (i : ℕ) → i < 2 → P i
below_two P p0 p1 zero h = p0
below_two P p0 p1 (suc zero) h = p1
below_two P p0 p1 (suc (suc i)) h = absurd (omega arith)

pub below_four : (P : ℕ → Type 0) → P 0 → P 1 → P 2 → P 3 → (i : ℕ) → i < 4 → P i
below_four P p0 p1 p2 p3 zero h = p0
below_four P p0 p1 p2 p3 (suc zero) h = p1
below_four P p0 p1 p2 p3 (suc (suc zero)) h = p2
below_four P p0 p1 p2 p3 (suc (suc (suc zero))) h = p3
below_four P p0 p1 p2 p3 (suc (suc (suc (suc i)))) h = absurd (omega arith)

abbrev pub geo4 : Geo
geo4 = record { keylen = 1; no_pairs = 4; no_longs = 4 }

pub geo4-IsGeo : IsGeo geo4
geo4-IsGeo = omega arith

-- The lowest free address from `a` on.
unfoldable pub first_free : ℕ → ℕ → State → Addr
first_free zero a s = null
first_free (suc k) a s = elim (s.size a == 0) [ true ↦ a | false ↦ first_free k (a + 1) s ]

abbrev pub env : Env
env = record {
  node_words = 16;
  kmalloc = λ s n. first_free 200 2 s;
  mempool_alloc = λ s. first_free 200 2 s;
  mempool_create = λ s. 1;
}

-- A node of two pairs.
pub pairs-IsNode :
    (k0 k1 v0 v1 : ℕ)
    → k0 < word_mod
    → k1 < word_mod
    → v0 ≢ 0
    → v1 ≢ 0
    → IsNode geo4 (row (k0 ∷ k1 ∷ 0 ∷ 0 ∷ v0 ∷ v1 ∷ [])) 2
unfolding bval pair key_num value
pairs-IsNode k0 k1 v0 v1 h0 h1 n0 n1 = record {
  words = λ i p.
      below_four (λ i. row (k0 ∷ k1 ∷ 0 ∷ 0 ∷ v0 ∷ v1 ∷ []) i < word_mod) h0 h1 (omega arith)
        (omega arith) i p;
  within = omega arith;
  used = below_two (λ i. bval geo4 (row (k0 ∷ k1 ∷ 0 ∷ 0 ∷ v0 ∷ v1 ∷ [])) i ≢ 0) n0 n1;
  unused = λ i p q.
      below_four (λ i. 2 ≤ i → pair geo4 (row (k0 ∷ k1 ∷ 0 ∷ 0 ∷ v0 ∷ v1 ∷ [])) i ≡ (0, 0))
        (λ h. absurd (omega arith)) (λ h. absurd (omega arith)) (λ h. refl) (λ h. refl) i q p;
}
