-- ===== src/Cache/Init/Lookup.antt =====
-- `initQueue` and then `findNode` of cbtree_cache.c.
use btree_profiling.Common.{ℕ, ◌<◌, ◌≡◌, ◌≢◌, ap, arith}
use btree_profiling.Memory.{Addr, null, State, Env, ok, Ptr, update, set_words}
use btree_profiling.Cache.{init_queue, find_node}
use btree_profiling.Cache.Lookup.{find_node-empty}
use btree_profiling.Cache.Init.{HasMemory}
use btree_profiling.Cache.Init.Ring.{Ring, init_queue-IsInit}

module _ {s : State} {nodep : Ptr} (arr_len : ℕ) (key : Ptr) where
  pub find_node-Ring :
      (r : Ring s nodep)
      → find_node nodep key arr_len s ≡ ok null (set_words s r.q (update (s.word r.q) 0 r.c2))
  find_node-Ring r = find_node-empty r.queue arr_len key r.entry1 r.entry2 r.entry3 r.entry4

-- In a queue that `initQueue` has just made `findNode` finds nothing, whatever the key, and no
-- block that lived before is changed but the one that holds the queue. Memory suffices for nine
-- blocks.
pub find_node-init_queue :
    (env : Env) (nodep : Ptr) (s : State) (arr_len : ℕ) (key : Ptr)
    → HasMemory env 9 s
    → nodep.block ≢ null
    → nodep.offset < s.size nodep.block
    → (s1 : State) × (s2 : State) × (init_queue env nodep s ≡ ok tt s1)
      × (find_node nodep key arr_len s1 ≡ ok null s2)
      × ((b : Addr) → s.size b ≢ 0 → b ≢ nodep.block → s2.word b ≡ s.word b)
unfolding set_words update
find_node-init_queue env nodep s arr_len key m ne inside =
    let (s1, run, is) = init_queue-IsInit env nodep s m ne inside in
    let r = is.ring in
    (
      s1,
      set_words s1 r.q (update (s1.word r.q) 0 r.c2),
      run,
      find_node-Ring arr_len key r,
      λ b live other. ground (arith, is.others b live other, is.fresh, ap s.size {x = b} {y = r.q}),
    )
