-- ===== src/Cache/Lookup.antt =====
-- `findNode` of cbtree_cache.c: which entry of the ring answers.
use btree_profiling.Common.{ℕ, ◌+◌, ◌≤◌, ◌<◌, ◌≡◌, ◌≢◌, refl, arith, false, ◌==◌, if◌then◌else◌}
use btree_profiling.Memory.{
  Addr, null, State, Cmd, pure, ◌>>=◌, ◌>>◌, ok, fault, Ptr, load, deref, update, set_words, store,
}
use btree_profiling.Cache.{
  find_node, find_loop, entry_hits, queue_head, node_field, key_field, next_field, deleted_at,
}

pub load-ok : (a i : ℕ) (s : State) → a ≢ null → i < s.size a → load a i s ≡ ok (s.word a i) s
unfolding load
load-ok a i s ne h = ground arith

pub load-fault : (a i : ℕ) (s : State) → s.size a ≤ i → load a i s ≡ fault
unfolding load
load-fault a i s h = ground arith

-- At `nodep` stands a queue whose head is the entry `curr`.
pub record Queue (s : State) (nodep : Ptr) (q curr : Addr) : Type 0 where
  pub at_node : nodep.block ≢ null
  pub in_node : nodep.offset + 0 < s.size nodep.block
  pub points : s.word nodep.block (nodep.offset + 0) ≡ q
  pub ne_null : q ≢ null
  pub live : 0 < s.size q
  pub head : s.word q 0 ≡ curr

-- An entry of the ring, with its fields.
pub record Entry (s : State) (curr node key next : Addr) : Type 0 where
  pub ne_null : curr ≢ null
  pub live : 3 ≤ s.size curr
  pub node_is : s.word curr 0 ≡ node
  pub key_is : s.word curr 1 ≡ key
  pub next_is : s.word curr 2 ≡ next
  pub key_ne_null : key ≢ null
  pub key_live : s.size key ≡ 2

-- What `findNode` does with the result of its loop.
found_or_next : Addr → Addr → Cmd Addr
found_or_next q found =
    if found == null
    then (do
      head ← load q queue_head
      next ← load head next_field
      store q queue_head next
      pure null)
    else pure found

module _ {s : State} {curr node ckey next : Addr} (e : Entry s curr node ckey next) where
  pub load-node : load curr node_field s ≡ ok node s
  load-node = ground (arith, load-ok curr 0 s e.ne_null (omega (arith, e.live)), e.node_is)

  pub load-key : load curr key_field s ≡ ok ckey s
  load-key = ground (arith, load-ok curr 1 s e.ne_null (omega (arith, e.live)), e.key_is)

  pub load-next : load curr next_field s ≡ ok next s
  load-next = ground (arith, load-ok curr 2 s e.ne_null (omega (arith, e.live)), e.next_is)

  -- An entry with no node does not answer.
  pub entry_hits-empty :
      (arr_len : ℕ) (key : Ptr) → node ≡ null → entry_hits arr_len key curr s ≡ ok false s
  unfolding entry_hits
  entry_hits-empty arr_len key h = ground (arith, load-node)

  -- An entry whose node ends before the mark of deleted nodes: the mark is read past the node.
  entry_hits-past :
      (arr_len : ℕ) (key : Ptr)
      → node ≢ null
      → s.size node ≤ deleted_at arr_len
      → entry_hits arr_len key curr s ≡ fault
  unfolding entry_hits
  entry_hits-past arr_len key ne ends =
      ground (arith, load-node, ne, load-fault node (deleted_at arr_len) s ends)

module _ {s : State} {nodep : Ptr} {q curr : Addr} (ring : Queue s nodep q curr) where
  find_node-head :
      (arr_len : ℕ) (key : Ptr)
      → find_node nodep key arr_len s ≡ (find_loop 4 arr_len key curr >>= found_or_next q) s
  unfolding find_node found_or_next deref
  find_node-head arr_len key = ground (
    arith,
    load-ok nodep.block (nodep.offset + 0) s ring.at_node ring.in_node,
    load-ok q 0 s ring.ne_null ring.live,
    ring.points,
    ring.head,
  )

  -- In a ring of four entries with no nodes `findNode` finds nothing and moves the head on.
  pub find_node-empty :
      {k0 k1 k2 k3 c1 c2 c3 : Addr} (arr_len : ℕ) (key : Ptr)
      → Entry s curr null k0 c1
      → Entry s c1 null k1 c2
      → Entry s c2 null k2 c3
      → Entry s c3 null k3 curr
      → find_node nodep key arr_len s ≡ ok null (set_words s q (update (s.word q) 0 c1))
  unfolding find_loop found_or_next store
  find_node-empty arr_len key e0 e1 e2 e3 = ground (
    arith,
    find_node-head arr_len key,
    entry_hits-empty e0 arr_len key refl,
    entry_hits-empty e1 arr_len key refl,
    entry_hits-empty e2 arr_len key refl,
    entry_hits-empty e3 arr_len key refl,
    load-next e0,
    load-next e1,
    load-next e2,
    load-next e3,
    load-ok q 0 s ring.ne_null ring.live,
    ring.ne_null,
    ring.live,
    ring.head,
  )

  -- In a ring whose last entry alone has a node, which ends before the mark, no key is found: the
  -- lookup is a fault.
  pub find_node-past :
      {k0 k1 k2 k3 c1 c2 c3 node : Addr} (arr_len : ℕ) (key : Ptr)
      → Entry s curr null k0 c1
      → Entry s c1 null k1 c2
      → Entry s c2 null k2 c3
      → Entry s c3 node k3 curr
      → node ≢ null
      → s.size node ≤ deleted_at arr_len
      → find_node nodep key arr_len s ≡ fault
  unfolding find_loop
  find_node-past arr_len key e0 e1 e2 e3 ne ends = ground (
    arith,
    find_node-head arr_len key,
    entry_hits-empty e0 arr_len key refl,
    entry_hits-empty e1 arr_len key refl,
    entry_hits-empty e2 arr_len key refl,
    entry_hits-past e3 arr_len key ne ends,
    load-next e0,
    load-next e1,
    load-next e2,
  )
