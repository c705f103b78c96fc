-- ===== src/Cache/Refill.antt =====
-- `findNode`, `setcache` and `findNode` of cbtree_cache.c after one another, on a ring with no nodes.
use btree_profiling.Common.{ℕ, ◌+◌, ◌<◌, ◌≤◌, ◌≡◌, ◌≢◌, refl, ap, sym, ◌∙◌, arith}
use btree_profiling.Memory.{Addr, null, State, fault, Ptr, ptr, update, set_words}
use btree_profiling.Cache.{find_node, count_at, deleted_at}
use btree_profiling.Cache.Lookup.{Queue, Entry, find_node-past}
use btree_profiling.Cache.Fill.{Fillable, Filled, setcache-Filled}
use btree_profiling.Cache.Init.Ring.{Ring}

-- An address that none of the blocks of a ring has.
pub record Outside {s : State} {nodep : Ptr} (r : Ring s nodep) (a : Addr) : Type 0 where
  pub q : a ≢ r.q
  pub c1 : a ≢ r.c1
  pub c2 : a ≢ r.c2
  pub c3 : a ≢ r.c3
  pub c4 : a ≢ r.c4
  pub k2 : a ≢ r.k2

-- The block of the queue and the second entry with its key, apart from the other entries.
pub record Apart {s : State} {nodep : Ptr} (r : Ring s nodep) : Type 0 where
  pub q_c1 : r.q ≢ r.c1
  pub q_c2 : r.q ≢ r.c2
  pub q_c3 : r.q ≢ r.c3
  pub q_c4 : r.q ≢ r.c4
  pub q_k2 : r.q ≢ r.k2
  pub k2_c1 : r.k2 ≢ r.c1
  pub k2_c2 : r.k2 ≢ r.c2
  pub k2_c3 : r.k2 ≢ r.c3
  pub k2_c4 : r.k2 ≢ r.c4
  pub c2_c1 : r.c2 ≢ r.c1
  pub c2_c3 : r.c2 ≢ r.c3
  pub c2_c4 : r.c2 ≢ r.c4

-- An entry survives where its words do.
Entry-frame :
    {s s' : State} {curr node key next : Addr}
    → Entry s curr node key next
    → s'.word curr ≡ s.word curr
    → ((b : Addr) → s'.size b ≡ s.size b)
    → Entry s' curr node key next
Entry-frame {s} {s'} {curr} {key} e words sizes = record {
  ne_null = e.ne_null;
  live = omega (arith, e.live, sizes curr);
  node_is = ap (λ w. w 0) words ∙ e.node_is;
  key_is = ap (λ w. w 1) words ∙ e.key_is;
  next_is = ap (λ w. w 2) words ∙ e.next_is;
  key_ne_null = e.key_ne_null;
  key_live = sizes key ∙ e.key_live;
}

-- A leaf and a caller's key that `setcache` can take, apart from the ring.
pub record Taken {s : State} {call : Addr} {arr_len : ℕ} (r : Ring s (ptr call arr_len))
    (leaf : Addr) (key : Ptr) : Type 0 where
  pub call_outside : Outside r call
  pub leaf_outside : Outside r leaf
  pub key_outside : Outside r key.block
  pub call_leaf : call ≢ leaf
  pub leaf_key : leaf ≢ key.block
  pub leaf_ne_null : leaf ≢ null
  pub leaf_live : count_at arr_len < s.size leaf
  pub key_ne_null : key.block ≢ null
  pub key_live : key.offset < s.size key.block

-- The state once `findNode` has moved the head of the queue on.
abbrev pub moved : {s : State} {nodep : Ptr} → Ring s nodep → State
moved {s} r = set_words s r.q (update (s.word r.q) 0 r.c2)

module _ {s : State} {call : Addr} {arr_len : ℕ} (r : Ring s (ptr call arr_len)) (apart : Apart r)
    (call_q : call ≢ r.q) where
  pub moved-other : (a : Addr) → a ≢ r.q → (moved r).word a ≡ s.word a
  unfolding set_words update
  moved-other a ne = ground arith

  moved-Queue : Queue (moved r) (ptr call arr_len) r.q r.c2
  unfolding set_words update
  moved-Queue = record {
    at_node = r.queue.at_node;
    in_node = r.queue.in_node;
    points = ap (λ w. w (arr_len + 0)) (moved-other call call_q) ∙ r.queue.points;
    ne_null = r.queue.ne_null;
    live = r.queue.live;
    head = ground arith;
  }

  moved-Entry :
      {c node k next : Addr} → r.q ≢ c → Entry s c node k next → Entry (moved r) c node k next
  unfolding set_words
  moved-Entry {c} ne e = Entry-frame e (moved-other c (λ h. ne (sym h))) (λ b. refl)

module _ {s : State} {call leaf : Addr} {arr_len : ℕ} (r : Ring s (ptr call arr_len))
    (apart : Apart r) (key : Ptr) (t : Taken r leaf key) where
  taken-Fillable : Fillable (moved r) arr_len leaf call r.q r.c2 r.k2 key
  unfolding set_words
  taken-Fillable = record {
    leaf_ne_null = t.leaf_ne_null;
    counter = t.leaf_live;
    key_ne_null = t.key_ne_null;
    key_live = t.key_live;
    call_leaf = t.call_leaf;
    call_q = t.call_outside.q;
    call_curr = t.call_outside.c2;
    call_ckey = t.call_outside.k2;
    leaf_q = t.leaf_outside.q;
    leaf_curr = t.leaf_outside.c2;
    leaf_ckey = t.leaf_outside.k2;
    leaf_key = t.leaf_key;
    q_curr = apart.q_c2;
    q_ckey = apart.q_k2;
    curr_ckey = λ h. apart.k2_c2 (sym h);
    curr_key = λ h. t.key_outside.c2 (sym h);
  }

  pub refilled : (fuel : ℕ) → Filled (moved r) fuel arr_len leaf call r.q r.c2 r.k2 r.c3 key
  refilled fuel =
      setcache-Filled fuel arr_len key (moved-Queue r apart t.call_outside.q)
        (moved-Entry r apart t.call_outside.q apart.q_c2 r.entry2) taken-Fillable

  module _ (fuel : ℕ) where
    -- What the writes spare.
    refilled-other :
        (a : Addr) → a ≢ leaf → a ≢ r.q → a ≢ r.c2 → a ≢ r.k2 → (refilled fuel).s4.word a ≡ s.word a
    refilled-other a ne_leaf ne_q ne_c2 ne_k2 =
        let f = refilled fuel in
        f.put4.others a ne_q
        ∙ f.put3.others a ne_k2
        ∙ f.put2.others a ne_c2
        ∙ f.put1.others a ne_leaf
        ∙ moved-other r apart t.call_outside.q a ne_q

    refilled-size : (a : Addr) → (refilled fuel).s4.size a ≡ s.size a
    unfolding set_words
    refilled-size a =
        let f = refilled fuel in f.put4.sizes a ∙ f.put3.sizes a ∙ f.put2.sizes a ∙ f.put1.sizes a

    pub refilled-head : (refilled fuel).s4.head ≡ s.head
    unfolding set_words
    refilled-head = let f = refilled fuel in f.put4.head ∙ f.put3.head ∙ f.put2.head ∙ f.put1.head

    refilled-Entry :
        {c k next : Addr}
        → Entry s c null k next
        → leaf ≢ c
        → r.q ≢ c
        → r.c2 ≢ c
        → r.k2 ≢ c
        → Entry (refilled fuel).s4 c null k next
    refilled-Entry {c} e ne_leaf ne_q ne_c2 ne_k2 =
        Entry-frame e
          (refilled-other c (λ h. ne_leaf (sym h)) (λ h. ne_q (sym h)) (λ h. ne_c2 (sym h))
            (λ h. ne_k2 (sym h)))
          refilled-size

    -- The next lookup of any key reads the mark of the leaf past its end.
    pub find_node-refilled :
        (key2 : Ptr)
        → s.size leaf ≤ deleted_at arr_len
        → find_node (ptr call arr_len) key2 arr_len (refilled fuel).s4 ≡ fault
    find_node-refilled key2 ends =
        let f = refilled fuel in
        find_node-past f.queue arr_len key2
          (refilled-Entry r.entry3 t.leaf_outside.c3 apart.q_c3 apart.c2_c3 apart.k2_c3)
          (refilled-Entry r.entry4 t.leaf_outside.c4 apart.q_c4 apart.c2_c4 apart.k2_c4)
          (refilled-Entry r.entry1 t.leaf_outside.c1 apart.q_c1 apart.c2_c1 apart.k2_c1) f.entry
          t.leaf_ne_null (omega (arith, ends, refilled-size leaf))
