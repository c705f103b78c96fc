-- ===== src/Tests/Allocs.antt =====
-- Concrete inputs for the allocation of nodes and caches.
use btree_profiling.Common.{
  ℕ, zero, suc, ◌+◌, ◌<◌, ◌≤◌, ◌≡◌, ◌≢◌, refl, ◌∙◌, inl, inr, true, false, Bool-cases, [], ◌∷◌,
  arith, ◌==◌,
}
use btree_profiling.Memory.{Addr, null, State, ok, ptr, update}
use btree_profiling.Cache.{init_queue}
use btree_profiling.Cache.Init.{HasMemory}
use btree_profiling.Cache.Init.Ring.{IsInit, init_queue-IsInit}
use btree_profiling.Words.Order.{value}
use btree_profiling.Tree.{success}
use btree_profiling.Tree.Shape.{IsCbtree}
use btree_profiling.Tree.Alloc.{HasNode}
use btree_profiling.Tree.Insert.{cbtree_insert}
use btree_profiling.Tree.Insert.Walk.{HoldsKey, key_at}
use btree_profiling.Tree.Insert.Empty.{Spares, cbtree_insert-empty}
use btree_profiling.Tests.{row, row-IsWords, geo4, geo4-IsGeo, env, first_free}

-- No block lives at `m` or above it.
abbrev pub IsBelow : ℕ → State → Type 0
IsBelow m s = (a : Addr) → m ≤ a → s.size a ≡ 0

pub first_free-IsBelow :
    (k a m : ℕ) (s : State)
    → IsBelow m s
    → 0 < a
    → a ≤ m
    → m < a + k
    → (first_free k a s ≢ null) × (s.size (first_free k a s) ≡ 0) × (first_free k a s ≤ m)
unfolding first_free
first_free-IsBelow zero a m s h pos low high = absurd (omega arith)
first_free-IsBelow (suc k) a m s h pos low high = elim (Bool-cases (s.size a == 0)) [
  | inl e ↦ rw (first_free, e) (λ z. omega arith, ground arith, low)
  | inr e ↦
      rw (first_free, e)
        (first_free-IsBelow k (a + 1) m s h (omega arith) (ground (arith, h a)) (omega arith))
]

pub env-HasMemory : (k m : ℕ) (s : State) → IsBelow m s → 2 ≤ m → m + k < 202 → HasMemory env k s
unfolding HasMemory update
env-HasMemory zero m s h low high = tt
env-HasMemory (suc k) m s h low high = λ s' n same.
    let (ne, free, le) =
      first_free-IsBelow 200 2 m s' (λ a p. same a ∙ h a p) (omega arith) low (omega arith) in
    (
      ne,
      free,
      env-HasMemory k (suc m) _ (λ a p. ground (arith, same a, h a, le)) (omega arith)
          (omega arith),
    )

-- A state of one block of 16 words and one of one word, the caller's key 7, and no tree.
abbrev blocks : State
blocks = record {
  size = λ a. elim (a == 1) [ true ↦ 1 | false ↦ elim (a == 2) [ true ↦ 16 | false ↦ 0 ] ];
  word = λ a. row (7 ∷ []);
  head = record { node = 0; mempool = 1; height = 0 };
}

init_queue-IsInit_example :
    (s' : State) × (init_queue env (ptr 2 8) blocks ≡ ok tt s') × IsInit blocks (ptr 2 8) s'
init_queue-IsInit_example =
    init_queue-IsInit env (ptr 2 8) blocks
      (env-HasMemory 9 3 blocks (λ a p. ground arith) (omega arith) (omega arith))
      (λ e. omega arith) (omega arith)

first_two :
    (first_free 200 2 blocks ≢ null)
    × (blocks.size (first_free 200 2 blocks) ≡ 0)
    × (first_free 200 2 blocks ≤ 3)
first_two =
    first_free-IsBelow 200 2 3 blocks (λ a p. ground arith) (omega arith) (omega arith)
      (omega arith)

blocks-HasNode : HasNode env geo4 blocks
unfolding update
blocks-HasNode = record {
  ne_null = first_two.0;
  free = first_two.1;
  cache_memory =
      env-HasMemory 9 4 _ (λ a p. ground (arith, first_two.2)) (omega arith) (omega arith);
  cache_inside = omega arith;
}

blocks-HoldsKey : HoldsKey geo4 blocks (ptr 1 0)
blocks-HoldsKey = record {
  ne_null = λ e. omega arith;
  live = omega arith;
  words = λ i p. ground (arith, row-IsWords (7 ∷ []) 1 (omega arith) i p);
}

cbtree_insert-empty_example :
    (a : Addr) × (s' : State) × (cbtree_insert 2 env geo4 (ptr 1 0) 107 blocks ≡ ok success s')
    × IsCbtree geo4 s' 0 ((value (key_at blocks (ptr 1 0)) 1, 107) ∷ []) (a ∷ [])
    × (blocks.size a ≡ 0)
    × Spares blocks s'
cbtree_insert-empty_example =
    cbtree_insert-empty geo4-IsGeo 0 env (ptr 1 0) 107 blocks refl refl blocks-HasNode
      blocks-HoldsKey (λ e. omega arith) (omega arith)
