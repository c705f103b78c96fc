-- ===== src/Cache/Fill.antt =====
-- `setcache` of cbtree_cache.c on an entry that holds no node yet.
use btree_profiling.Common.{ℕ, ◌+◌, ◌%◌, ◌<◌, ◌≡◌, ◌≢◌, refl, ap, sym, ◌∙◌, arith}
use btree_profiling.Memory.{Addr, null, State, ok, Ptr, ptr, store, deref}
use btree_profiling.Memory.Put.{Put, store-Put, load-is}
use btree_profiling.Words.{word_mod}
use btree_profiling.Cache.{setcache, drop_entry, copy_key, count_at}
use btree_profiling.Cache.Lookup.{Queue, Entry, load-node}

-- Where `setcache` finds its arguments: a leaf whose counter can be written, and a caller's key of one
-- word. No two of the blocks are the same.
pub record Fillable (s : State) (arr_len : ℕ) (leaf call q curr ckey : Addr) (key : Ptr)
    : Type 0 where
  pub leaf_ne_null : leaf ≢ null
  pub counter : count_at arr_len < s.size leaf
  pub key_ne_null : key.block ≢ null
  pub key_live : key.offset < s.size key.block
  pub call_leaf : call ≢ leaf
  pub call_q : call ≢ q
  pub call_curr : call ≢ curr
  pub call_ckey : call ≢ ckey
  pub leaf_q : leaf ≢ q
  pub leaf_curr : leaf ≢ curr
  pub leaf_ckey : leaf ≢ ckey
  pub leaf_key : leaf ≢ key.block
  pub q_curr : q ≢ curr
  pub q_ckey : q ≢ ckey
  pub curr_ckey : curr ≢ ckey
  pub curr_key : curr ≢ key.block

module _ {s s1 s2 s3 s4 : State} {call q curr ckey next leaf : Addr} {arr_len word : ℕ} {key : Ptr}
    (ring : Queue s (ptr call arr_len) q curr) (e : Entry s curr null ckey next)
    (f : Fillable s arr_len leaf call q curr ckey key)
    (p1 : Put s leaf (count_at arr_len) ((s.word leaf (count_at arr_len) + 1) % word_mod) s1)
    (p2 : Put s1 curr 0 leaf s2) (p3 : Put s2 ckey 0 word s3) (p4 : Put s3 q 0 next s4) where
  filled-Queue : Queue s4 (ptr call arr_len) q next
  filled-Queue = record {
    at_node = ring.at_node;
    in_node =
        omega (arith, ring.in_node, p1.sizes call, p2.sizes call, p3.sizes call, p4.sizes call);
    points =
        p4.elsewhere call (arr_len + 0) f.call_q
        ∙ p3.elsewhere call (arr_len + 0) f.call_ckey
        ∙ p2.elsewhere call (arr_len + 0) f.call_curr
        ∙ p1.elsewhere call (arr_len + 0) f.call_leaf
        ∙ ring.points;
    ne_null = ring.ne_null;
    live = omega (arith, ring.live, p1.sizes q, p2.sizes q, p3.sizes q, p4.sizes q);
    head = p4.at;
  }

  -- A field of the entry that is not written.
  field_kept : (i : ℕ) → i ≢ 0 → s3.word curr i ≡ s.word curr i
  field_kept i ne =
      p3.elsewhere curr i f.curr_ckey
      ∙ p2.beside i ne
      ∙ p1.elsewhere curr i (λ h. f.leaf_curr (sym h))

  filled-Entry : Entry s4 curr leaf ckey next
  filled-Entry = record {
    ne_null = e.ne_null;
    live = omega (arith, e.live, p1.sizes curr, p2.sizes curr, p3.sizes curr, p4.sizes curr);
    node_is = p4.elsewhere curr 0 (λ h. f.q_curr (sym h)) ∙ p3.elsewhere curr 0 f.curr_ckey ∙ p2.at;
    key_is =
        p4.elsewhere curr 1 (λ h. f.q_curr (sym h)) ∙ field_kept 1 (λ h. omega arith) ∙ e.key_is;
    next_is =
        p4.elsewhere curr 2 (λ h. f.q_curr (sym h)) ∙ field_kept 2 (λ h. omega arith) ∙ e.next_is;
    key_ne_null = e.key_ne_null;
    key_live =
        omega (arith, e.key_live, p1.sizes ckey, p2.sizes ckey, p3.sizes ckey, p4.sizes ckey);
  }

  filled_count : s4.word leaf (count_at arr_len) ≡ (s.word leaf (count_at arr_len) + 1) % word_mod
  filled_count =
      p4.elsewhere leaf (count_at arr_len) f.leaf_q
      ∙ p3.elsewhere leaf (count_at arr_len) f.leaf_ckey
      ∙ p2.elsewhere leaf (count_at arr_len) f.leaf_curr
      ∙ p1.at

  filled_key : s4.word ckey 0 ≡ word
  filled_key = p4.elsewhere ckey 0 (λ h. f.q_ckey (sym h)) ∙ p3.at

  filled_run :
      (fuel : ℕ)
      → word ≡ s.word key.block (key.offset + 0)
      → store leaf (count_at arr_len) ((s.word leaf (count_at arr_len) + 1) % word_mod) s ≡ ok tt s1
      → store curr 0 leaf s1 ≡ ok tt s2
      → store ckey 0 word s2 ≡ ok tt s3
      → store q 0 next s3 ≡ ok tt s4
      → setcache fuel leaf call key arr_len 1 s ≡ ok tt s4
  unfolding setcache drop_entry copy_key deref
  filled_run fuel we w1 w2 w3 w4 = ground (
    arith,
    load-is call arr_len q s ring.at_node (omega (arith, ring.in_node))
        (ap (s.word call) (omega arith) ∙ ring.points),
    load-is q 0 curr s ring.ne_null ring.live ring.head,
    load-node e,
    load-is leaf (count_at arr_len) (s.word leaf (count_at arr_len)) s f.leaf_ne_null f.counter
        refl,
    w1,
    load-is q 0 curr s1 ring.ne_null (omega (arith, ring.live, p1.sizes q))
        (p1.elsewhere q 0 (λ h. f.leaf_q (sym h)) ∙ ring.head),
    w2,
    load-is curr 1 ckey s2 e.ne_null (omega (arith, e.live, p1.sizes curr, p2.sizes curr)) (
        p2.beside 1 (λ h. omega arith) ∙ p1.elsewhere curr 1 (λ h. f.leaf_curr (sym h)) ∙ e.key_is),
    load-is key.block (key.offset + 0) word s2 f.key_ne_null
        (omega (arith, f.key_live, p1.sizes key.block, p2.sizes key.block))
        (p2.elsewhere key.block (key.offset + 0) (λ h. f.curr_key (sym h))
          ∙ p1.elsewhere key.block (key.offset + 0) (λ h. f.leaf_key (sym h))
          ∙ sym we),
    w3,
    load-is curr 2 next s3 e.ne_null
        (omega (arith, e.live, p1.sizes curr, p2.sizes curr, p3.sizes curr))
        (field_kept 2 (λ h. omega arith) ∙ e.next_is),
    w4,
  )

-- The four writes of `setcache`: the leaf's counter, the node and the key of the entry, and the head of
-- the queue.
pub record Filled (s : State) (fuel arr_len : ℕ) (leaf call q curr ckey next : Addr) (key : Ptr)
    : Type 0 where
  pub s1 : State
  pub s2 : State
  pub s3 : State
  pub s4 : State
  pub run : setcache fuel leaf call key arr_len 1 s ≡ ok tt s4
  pub put1 : Put s leaf (count_at arr_len) ((s.word leaf (count_at arr_len) + 1) % word_mod) s1
  pub put2 : Put s1 curr 0 leaf s2
  pub put3 : Put s2 ckey 0 (s.word key.block (key.offset + 0)) s3
  pub put4 : Put s3 q 0 next s4
  pub queue : Queue s4 (ptr call arr_len) q next
  pub entry : Entry s4 curr leaf ckey next

pub setcache-Filled :
    {s : State} {call q curr ckey next leaf : Addr} (fuel arr_len : ℕ) (key : Ptr)
    → Queue s (ptr call arr_len) q curr
    → Entry s curr null ckey next
    → Fillable s arr_len leaf call q curr ckey key
    → Filled s fuel arr_len leaf call q curr ckey next key
setcache-Filled {s} {call} {q} {curr} {ckey} {next} {leaf} fuel arr_len key ring e f =
    let word = s.word key.block (key.offset + 0) in
    let (s1, w1, p1) =
      store-Put leaf (count_at arr_len) ((s.word leaf (count_at arr_len) + 1) % word_mod) s
        f.leaf_ne_null f.counter in
    let (s2, w2, p2) = store-Put curr 0 leaf s1 e.ne_null (omega (arith, e.live, p1.sizes curr)) in
    let (s3, w3, p3) =
      store-Put ckey 0 word s2 e.key_ne_null
        (omega (arith, e.key_live, p1.sizes ckey, p2.sizes ckey)) in
    let (s4, w4, p4) =
      store-Put q 0 next s3 ring.ne_null
        (omega (arith, ring.live, p1.sizes q, p2.sizes q, p3.sizes q)) in
    record {
      s1 = s1;
      s2 = s2;
      s3 = s3;
      s4 = s4;
      run = filled_run ring e f p1 p2 p3 p4 fuel refl w1 w2 w3 w4;
      put1 = p1;
      put2 = p2;
      put3 = p3;
      put4 = p4;
      queue = filled-Queue ring e f p1 p2 p3 p4;
      entry = filled-Entry ring e f p1 p2 p3 p4;
    }

-- `setcache` for a key of one word, when the head of the queue is an entry with no node, puts the
-- leaf and a copy of the key into that entry, adds one to the leaf's counter with wrap-around,
-- and moves the head on to the next entry. The counter can be written, the key can be read, and
-- the blocks involved are distinct.
pub setcache-fill :
    {s : State} {call q curr ckey next leaf : Addr} (fuel arr_len : ℕ) (key : Ptr)
    → Queue s (ptr call arr_len) q curr
    → Entry s curr null ckey next
    → Fillable s arr_len leaf call q curr ckey key
    → (s' : State) × (setcache fuel leaf call key arr_len 1 s ≡ ok tt s')
      × Queue s' (ptr call arr_len) q next
      × Entry s' curr leaf ckey next
      × (s'.word ckey 0 ≡ s.word key.block key.offset)
      × (s'.word leaf (count_at arr_len) ≡ (s.word leaf (count_at arr_len) + 1) % word_mod)
setcache-fill {s} fuel arr_len key ring e f =
    let r = setcache-Filled fuel arr_len key ring e f in
    (
      r.s4,
      r.run,
      r.queue,
      r.entry,
      filled_key ring e f r.put1 r.put2 r.put3 r.put4 ∙ ap (s.word key.block) (omega arith),
      filled_count ring e f r.put1 r.put2 r.put3 r.put4,
    )
