-- ===== src/Cache/Init.antt =====
-- `initQueue` of cbtree_cache.c when memory suffices: which blocks it leaves alone.
pub mod Links
pub mod Ring
pub mod Lookup
use btree_profiling.Common.{
  ℕ, zero, suc, ◌+◌, ◌*◌, ◌%◌, ◌<◌, ◌≤◌, ◌≡◌, ◌≢◌, refl, ap, sym, ◌∙◌, arith, ◌==◌, if◌then◌else◌,
}
use btree_profiling.Memory.{
  Addr, null, Words, State, Env, ok, Ptr, ptr, load, store, deref, update, place, kmalloc,
}
use btree_profiling.Cache.Lookup.{Entry, Queue}
use btree_profiling.Cache.{init_queue, make_entries}
use btree_profiling.Memory.Put.{Put, store-Put, load-is}

-- Memory for `k` more blocks, whatever is written in between: each is at a free address.
unfoldable pub HasMemory : Env → ℕ → State → Type 0
HasMemory env zero s = Unit {0}
HasMemory env (suc k) s =
    (s' : State) (n : ℕ)
    → ((a : Addr) → s'.size a ≡ s.size a)
    → (env.kmalloc s' n ≢ null)
      × (s'.size (env.kmalloc s' n) ≡ 0)
      × HasMemory env k (record s' { size = update s'.size (env.kmalloc s' n) n })

-- The blocks that lived in `s0` are as they were, and so is the head.
pub record Frame (s0 s : State) : Type 0 where
  pub words : (b : Addr) → s0.size b ≢ 0 → s.word b ≡ s0.word b
  pub sizes : (b : Addr) → s0.size b ≢ 0 → s.size b ≡ s0.size b
  pub head : s.head ≡ s0.head

-- A block that is free now was free before.
pub free_before : {s0 s : State} (a : Addr) → Frame s0 s → s.size a ≡ 0 → s0.size a ≡ 0
free_before a f e = ground (arith, f.sizes a, e)

-- A write to a block that is new.
pub Put-Frame :
    {s0 s s' : State} (a i v : ℕ) → Frame s0 s → s0.size a ≡ 0 → Put s a i v s' → Frame s0 s'
Put-Frame {s0} a i v f new p = record {
  words = λ b h. p.others b (λ e. h (ap s0.size e ∙ new)) ∙ f.words b h;
  sizes = λ b h. p.sizes b ∙ f.sizes b h;
  head = p.head ∙ f.head;
}

-- A new block.
pub kmalloc_run :
    (env : Env) (k n : ℕ) {s0 s : State}
    → Frame s0 s
    → HasMemory env (suc k) s
    → (a : Addr) × (s' : State) × (kmalloc env n s ≡ ok a s')
      × Frame s0 s'
      × HasMemory env k s'
      × (a ≢ null)
      × (s'.size a ≡ n)
      × (s0.size a ≡ 0)
      × ((b : Addr) → b ≢ a → s'.size b ≡ s.size b)
      × (s.size a ≡ 0)
      × ((b : Addr) → s'.word b ≡ s.word b)
unfolding kmalloc place update HasMemory
kmalloc_run env k n {s0} {s} f m =
    let (ne, free, m') = m s n (λ a. refl) in
    let new : s0.size (env.kmalloc s n) ≡ 0 = free_before (env.kmalloc s n) f free in
    (
      env.kmalloc s n,
      record s { size = update s.size (env.kmalloc s n) n },
      ground (arith, ne),
      record {
        words = f.words;
        sizes = λ b h. ground (arith, f.sizes b h, new, ap s0.size {x = b} {y = env.kmalloc s n});
        head = f.head;
      },
      m',
      ne,
      ground arith,
      new,
      λ b o. ground arith,
      free,
      λ b. refl,
    )

pub HasMemory-sizes :
    (env : Env) (k : ℕ) (s s' : State)
    → ((a : Addr) → s'.size a ≡ s.size a)
    → HasMemory env k s
    → HasMemory env k s'
unfolding HasMemory
HasMemory-sizes env zero s s' e m = tt
HasMemory-sizes env (suc k) s s' e m = λ s2 n e2. m s2 n (λ a. e2 a ∙ e a)
