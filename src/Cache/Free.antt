-- ===== src/Cache/Free.antt =====
-- `freeQueue` of cbtree_cache.c.
use btree_profiling.Common.{ℕ, suc, ◌+◌, ◌≡◌, refl, arith}
use btree_profiling.Memory.{Addr, null, State, fault, Ptr, deref, load}
use btree_profiling.Cache.{free_queue, free_ring, count_at}
use btree_profiling.Cache.Lookup.{Queue, Entry, load-ok, load-node, load-next}

load-null : (i : ℕ) (s : State) → load null i s ≡ fault
unfolding load
load-null i s = refl

-- `freeQueue` reads through the node of the entry behind the head without a test: a queue in
-- which that entry holds no node, as in every new queue, is a fault.
pub free_queue-null :
    {s : State} {nodep : Ptr} {q curr node key k1 c1 c2 : Addr} (f arr_len : ℕ)
    → Queue s nodep q curr
    → Entry s curr node key c1
    → Entry s c1 null k1 c2
    → free_queue (suc (suc f)) arr_len nodep s ≡ fault
unfolding free_queue free_ring deref
free_queue-null {s} {nodep} {q} f arr_len ring e0 e1 = ground (
  arith,
  load-ok nodep.block (nodep.offset + 0) s ring.at_node ring.in_node,
  load-ok q 0 s ring.ne_null ring.live,
  ring.points,
  ring.head,
  e0.ne_null,
  e1.ne_null,
  load-next e0,
  load-node e1,
  load-null (count_at arr_len) s,
)
