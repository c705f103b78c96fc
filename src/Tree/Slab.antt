-- ===== src/Tree/Slab.antt =====
-- `cbtree_alloc` and `cbtree_free` of cbtree_base.c, which a memory pool of the tree takes its nodes from
-- and gives them back to. The slab allocator of the kernel is a parameter: `answer` is the address that
-- it gives in a state.
use btree_profiling.Common.{ℕ, ◌≡◌, ◌≢◌, refl, ap, arith, ◌==◌, Bool-cases, inl, inr}
use btree_profiling.Memory.{Addr, null, State, Cmd, ok, Env, place, release, update, ◌>>=◌}

unfoldable pub cbtree_alloc : Env → (State → Addr) → ℕ → Cmd Addr
unfolding place
cbtree_alloc env answer pool_data s = place (answer s) env.node_words s

unfoldable pub cbtree_free : Addr → ℕ → Cmd (Unit {0})
unfolding release
cbtree_free element pool_data = release element

-- An element that is taken and given back leaves every word, and every block as long as it was.
pub cbtree_free-cbtree_alloc :
    (env : Env) (answer : State → Addr) (pool_data : ℕ) (s : State)
    → env.node_words ≢ 0
    → s.size (answer s) ≡ 0
    → (s' : State) × ((cbtree_alloc env answer pool_data
            >>= (λ element. cbtree_free element pool_data))
          s
        ≡ ok tt s')
      × ((a : Addr) → s'.word a ≡ s.word a)
      × ((a : Addr) → s'.size a ≡ s.size a)
unfolding cbtree_alloc cbtree_free update
cbtree_free-cbtree_alloc env answer pool_data s pos free = elim (Bool-cases (answer s == null)) [
  | inl e ↦ (s, ground (arith, e), λ a. refl, λ a. refl)
  | inr e ↦ (
    record s { size = update (update s.size (answer s) env.node_words) (answer s) 0 },
    ground (arith, e, pos),
    λ a. refl,
    λ a. ground (arith, free, ap s.size {x = a} {y = answer s}),
  )
]
