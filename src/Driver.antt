-- ===== src/Driver.antt =====
-- The benchmark of btree_profiling.c: the same keys into a tree of the kernel and into the cached one,
-- then random lookups in both, under the clock.
pub mod Count
pub mod Rounds
use btree_profiling.Common.{
  ℕ, zero, suc, ◌+◌, ◌*◌, ◌%◌, ◌^◌, ◌≤◌, ◌<◌, Option, none, some, List, [], ◌∷◌, ltb, ◌==◌,
  if◌then◌else◌,
}
use btree_profiling.Memory.{
  Addr, null, State, Run, ok, bug, fault, out_of_fuel, Cmd, Env, kmalloc, update,
}
use btree_profiling.Words.{word_mod}
use btree_profiling.Node.{Geo, cbtree_geo32}
use btree_profiling.Tree.{Status, cbtree_init, cbtree_destroy}
use btree_profiling.Tree.Lookup.{cbtree_lookup}
use btree_profiling.Tree.Insert.{cbtree_insert}
use btree_profiling.Typed.{Stack, with_local, one_long}
use btree_profiling.Clock.Timing.{Ktime, Calclock, ClockLine, ktput, ktprint}

-- What the program uses of the kernel besides memory: `K` is the rest of its state, the kernel's own
-- B+ tree among it. The raw clock does not go back, and a reading is a time.
pub record Kernel (K : Type 0) : Type 0 where
  pub ktime : Ktime
  pub ktime_get_raw : K → ℕ × K
  pub this_cpu : K → ℕ
  pub get_random_bytes : K → ℕ × K
  pub kmem_cache_create : K → Addr × K
  pub kmem_cache_destroy : Addr → K → K
  pub btree_init : K → K
  pub btree_insert : ℕ → Addr → K → K
  pub btree_lookup : ℕ → K → Addr
  pub btree_destroy : K → K
  pub env : Env
  pub stack : Stack
  pub online : List ℕ
  pub digits : ℕ → List ℕ
  pub num_online_cpus : ℕ
  pub nodesize : ℕ
  pub small : (k : K) → (ktime_get_raw k).0 < 2 ^ 63
  pub forward : (k : K) → (ktime_get_raw k).0 ≤ (ktime_get_raw (ktime_get_raw k).1).0

-- The globals of the program, with `State.head` for `cbtree`, the clocks of the four functions, and the
-- `static` largest time of `__ktprint`.
pub record World (K : Type 0) : Type 0 where
  pub mem : State
  pub kernel : K
  pub search_counts : ℕ → ℕ
  pub btree_cachep : Addr
  pub cbtree_cachep : Addr
  pub btree_insert_clock : ℕ → Calclock
  pub btree_lookup_clock : ℕ → Calclock
  pub cbtree_insert_clock : ℕ → Calclock
  pub cbtree_lookup_clock : ℕ → Calclock
  pub totaltime : ℕ

-- A run of the program: it ends, or stops as `Run` says.
pub data Out (K A : Type 0) : Type 0 where
  done : A → World K → Out K A
  by_bug : Out K A
  by_fault : Out K A
  by_fuel : Out K A

abbrev pub Act : Type 0 → Type 0 → Type 0
Act K A = World K → Out K A

module _ {K : Type 0} where
  abbrev pub give : {A : Type 0} → A → Act K A
  give a = done a

  abbrev pub after : {A B : Type 0} → Out K A → (A → Act K B) → Out K B
  after (done a w) f = f a w
  after by_bug f = by_bug
  after by_fault f = by_fault
  after by_fuel f = by_fuel

  infixl 5 ◌>>=◌ ◌>>◌
  abbrev pub ◌>>=◌ : {A B : Type 0} → Act K A → (A → Act K B) → Act K B
  m >>= f = λ w. after (m w) f

  abbrev pub ◌>>◌ : {A B : Type 0} → Act K A → Act K B → Act K B
  m >> n = m >>= λ _. n

  -- A command on memory, in the world around it.
  abbrev pub around : {A : Type 0} → Run A → World K → Out K A
  around (ok a s) w = done a (record w { mem = s })
  around bug w = by_bug
  around fault w = by_fault
  around out_of_fuel w = by_fuel

  unfoldable pub on_memory : {A : Type 0} → Cmd A → Act K A
  on_memory m w = around (m w.mem) w

  -- A change of the kernel's own state.
  unfoldable pub on_kernel : {A : Type 0} → (K → A × K) → Act K A
  on_kernel f w = done (f w.kernel).0 (record w { kernel = (f w.kernel).1 })

  -- The key is below `tree_size`, the `TREE_SIZE` of the source.
  unfoldable pub update_search_count : ℕ → ℕ → Act K (Unit {0})
  unfolding update
  update_search_count tree_size key w =
      if ltb key tree_size
      then done tt (record w {
        search_counts = update w.search_counts key ((w.search_counts key + 1) % word_mod);
      })
      else done tt w

module _ {K : Type 0} (kn : Kernel K) (fuel : ℕ) where
  abbrev pub geo : Geo
  geo = cbtree_geo32 kn.nodesize 8

  unfoldable pub ktget : Act K ℕ
  unfolding on_kernel
  ktget = on_kernel kn.ktime_get_raw

  unfoldable pub create_tree : Act K Status
  unfolding on_kernel on_memory
  create_tree = do on_kernel (λ k. (tt {0}, kn.btree_init k)); on_memory (cbtree_init kn.env)

  -- A call of `ktput` whose `BUG_ON` failed.
  abbrev pub or_bug : Option (ℕ → Calclock) → ((ℕ → Calclock) → World K) → Out K (Unit {0})
  or_bug none set = by_bug
  or_bug (some clocks) set = done tt (set clocks)

  unfoldable pub insert_element : ℕ → Act K (Unit {0})
  unfolding ktget on_memory on_kernel
  insert_element key = do
    val_b ← on_memory (kmalloc kn.env 1)
    b0 ← ktget
    on_kernel (λ k. (tt {0}, kn.btree_insert key val_b k))
    b1 ← ktget
    λ w.
        or_bug (ktput kn.ktime (kn.this_cpu w.kernel) b0 b1 w.btree_insert_clock)
          (λ c. record w { btree_insert_clock = c })
    val_cb ← on_memory (kmalloc kn.env 1)
    cb0 ← ktget
    on_memory (with_local kn.stack 1 (one_long key) (λ p. cbtree_insert fuel kn.env geo p val_cb))
    cb1 ← ktget
    λ w.
        or_bug (ktput kn.ktime (kn.this_cpu w.kernel) cb0 cb1 w.cbtree_insert_clock)
          (λ c. record w { cbtree_insert_clock = c })

  -- `for (i = 1; i <= TREE_SIZE; i++)`, with the rounds left
  unfoldable pub fill_loop : ℕ → ℕ → Act K (Unit {0})
  unfolding insert_element
  fill_loop zero i = give tt
  fill_loop (suc n) i = do insert_element i; fill_loop n (i + 1)

  unfoldable pub fill_tree : ℕ → Act K (Unit {0})
  unfolding fill_loop
  fill_tree tree_size = fill_loop tree_size 1

  unfoldable pub find_element : ℕ → Act K Addr
  unfolding ktget on_memory
  find_element key = do
    b0 ← ktget
    result_b ← λ w. done (kn.btree_lookup key w.kernel) w
    b1 ← ktget
    λ w.
        or_bug (ktput kn.ktime (kn.this_cpu w.kernel) b0 b1 w.btree_lookup_clock)
          (λ c. record w { btree_lookup_clock = c })
    cb0 ← ktget
    result_cb ← on_memory (with_local kn.stack 1 (one_long key) (λ p. cbtree_lookup fuel geo p))
    cb1 ← ktget
    λ w.
        or_bug (ktput kn.ktime (kn.this_cpu w.kernel) cb0 cb1 w.cbtree_lookup_clock)
          (λ c. record w { cbtree_lookup_clock = c })
    give result_cb

  -- `for (i = 1; i <= TREE_SIZE * 10; i++)`, with the rounds left
  unfoldable pub find_rounds : ℕ → ℕ → Act K (Unit {0})
  unfolding find_element update_search_count on_kernel
  find_rounds tree_size zero = give tt
  find_rounds tree_size (suc n) = do
    bytes ← on_kernel kn.get_random_bytes
    update_search_count tree_size (bytes % (tree_size + 1))
    find_element (bytes % (tree_size + 1))
    find_rounds tree_size n

  unfoldable pub find_tree : ℕ → Act K (Unit {0})
  unfolding find_rounds
  find_tree tree_size = find_rounds tree_size (tree_size * 10)

  unfoldable pub bplus_module_init : ℕ → Act K (Unit {0})
  unfolding create_tree fill_tree find_tree on_kernel
  bplus_module_init tree_size = do
    btree_cachep ← on_kernel kn.kmem_cache_create
    cbtree_cachep ← on_kernel kn.kmem_cache_create
    λ w. done (tt {0}) (record w { btree_cachep = btree_cachep; cbtree_cachep = cbtree_cachep })
    create_tree
    fill_tree tree_size
    find_tree tree_size

  -- `ktprint(0, ...)`
  unfoldable pub print_times : (World K → ℕ → Calclock) → Act K ClockLine
  unfolding ktprint
  print_times clock w =
      let printed =
        ktprint kn.ktime kn.digits kn.num_online_cpus kn.online w.totaltime 0 (clock w) in
      done printed.1 (record w { totaltime = printed.0 })

  -- The lines printed are the result.
  unfoldable pub bplus_module_exit : Act K (List ClockLine)
  unfolding print_times on_kernel on_memory
  bplus_module_exit = do
    λ w. done (tt {0}) (record w { kernel = kn.kmem_cache_destroy w.btree_cachep w.kernel })
    λ w. done (tt {0}) (record w { kernel = kn.kmem_cache_destroy w.cbtree_cachep w.kernel })
    l1 ← print_times (λ w. w.cbtree_insert_clock)
    l2 ← print_times (λ w. w.cbtree_lookup_clock)
    l3 ← print_times (λ w. w.btree_insert_clock)
    l4 ← print_times (λ w. w.btree_lookup_clock)
    on_kernel (λ k. (tt {0}, kn.btree_destroy k))
    on_memory cbtree_destroy
    give (l1 ∷ l2 ∷ l3 ∷ l4 ∷ [])
