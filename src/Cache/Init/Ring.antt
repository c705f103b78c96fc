-- ===== src/Cache/Init/Ring.antt =====
-- `initQueue` of cbtree_cache.c when memory suffices: the ring that it makes.
use btree_profiling.Common.{ℕ, List, [], ◌∷◌, ◌+◌, ◌<◌, ◌≡◌, ◌≢◌, refl, ap, sym, ◌∙◌, arith}
use btree_profiling.Memory.{Addr, null, Words, State, Env, ok, Ptr, store, kmalloc}
use btree_profiling.Memory.Put.{Put, store-Put}
use btree_profiling.Cache.Lookup.{Entry, Queue}
use btree_profiling.Cache.{init_queue, make_entries}
use btree_profiling.Cache.Init.{HasMemory, Frame, free_before, kmalloc_run}
use btree_profiling.Cache.Init.Links.{
  NewEntry, new_entry, make_first, Except, Entry-Except, Entry-link, NextEntry, next_entry,
}

Frame-Except :
    {s0 s s' : State} {a : Addr} → Frame s0 s → Except a s s' → s0.size a ≡ 0 → Frame s0 s'
Frame-Except {s0} {s} {s'} {a} f e new = record {
  words = λ b h.
      e.words b (λ z. h (sym (f.sizes b h) ∙ z)) (λ same. h (ap s0.size same ∙ new)) ∙ f.words b h;
  sizes = λ b h. e.sizes b (λ z. h (sym (f.sizes b h) ∙ z)) ∙ f.sizes b h;
  head = e.head ∙ f.head;
}

Frame-Frame : {s0 s s' : State} → Frame s0 s → Frame s s' → Frame s0 s'
Frame-Frame {s0} {s} {s'} f e = record {
  words = λ b h. e.words b (λ z. h (sym (f.sizes b h) ∙ z)) ∙ f.words b h;
  sizes = λ b h. e.sizes b (λ z. h (sym (f.sizes b h) ∙ z)) ∙ f.sizes b h;
  head = e.head ∙ f.head;
}

Put-Except : {s s' : State} {a i v : ℕ} → Put s a i v s' → Except a s s'
Put-Except p = record { words = λ b h o. p.others b o; sizes = λ b h. p.sizes b; head = p.head }

live_ne_new :
    {s : State} {x node key next y : Addr} → Entry s x node key next → s.size y ≡ 0 → x ≢ y
live_ne_new {s} e free h = omega (arith, e.live, free, ap s.size h)

-- The same for the key of an entry.
key_ne_new :
    {s : State} {x node key next y : Addr} → Entry s x node key next → s.size y ≡ 0 → key ≢ y
key_ne_new {s} e free h = omega (arith, e.key_live, free, ap s.size h)

-- Blocks that were not live.
abbrev pub New : State → List Addr → Type 0
New s [] = Unit
New s (a ∷ rest) = (s.size a ≡ 0) × New s rest

-- An address that is none of a row, and a row with no address twice.
abbrev pub Beside : Addr → List Addr → Type 0
Beside a [] = Unit
Beside a (b ∷ rest) = (a ≢ b) × Beside a rest

abbrev pub Distinct : List Addr → Type 0
Distinct [] = Unit
Distinct (a ∷ rest) = Beside a rest × Distinct rest

-- A ring of four entries with no nodes.
pub record Ring (s : State) (nodep : Ptr) : Type 0 where
  pub q : Addr
  pub c1 : Addr
  pub c2 : Addr
  pub c3 : Addr
  pub c4 : Addr
  pub k1 : Addr
  pub k2 : Addr
  pub k3 : Addr
  pub k4 : Addr
  pub queue : Queue s nodep q c1
  pub entry1 : Entry s c1 null k1 c2
  pub entry2 : Entry s c2 null k2 c3
  pub entry3 : Entry s c3 null k3 c4
  pub entry4 : Entry s c4 null k4 c1

-- The four entries once the last is linked to the first.
module _ {env : Env} {s : State} (e1 : NewEntry env 6 s) (e2 : NextEntry env 4 e1.s' e1.curr e1.key)
    (e3 : NextEntry env 2 e2.s' e2.curr e2.key) (e4 : NextEntry env 0 e3.s' e3.curr e3.key)
    {s5 : State} (p5 : Put e4.s' e4.curr 2 e1.curr s5) where
  ring1 : Entry s5 e1.curr null e1.key e2.curr
  ring1 =
      let a = Entry-Except e3.except e2.linked (live_ne_new e1.entry e2.new) in
      let b = Entry-Except e4.except a (live_ne_new e2.linked e3.new) in
      Entry-Except (Put-Except p5) b (live_ne_new a e4.new)

  ring2 : Entry s5 e2.curr null e2.key e3.curr
  ring2 =
      let b = Entry-Except e4.except e3.linked (live_ne_new e2.entry e3.new) in
      Entry-Except (Put-Except p5) b (live_ne_new e3.linked e4.new)

  ring3 : Entry s5 e3.curr null e3.key e4.curr
  ring3 = Entry-Except (Put-Except p5) e4.linked (live_ne_new e3.entry e4.new)

  ring4 : Entry s5 e4.curr null e4.key e1.curr
  ring4 = Entry-link e4.entry p5

  -- The entries and their keys are not the same block twice: each was new beside the ones before.
  ring_entries-Distinct : Distinct (e1.curr ∷ e2.curr ∷ e3.curr ∷ e4.curr ∷ [])
  ring_entries-Distinct =
      let a = Entry-Except e3.except e2.linked (live_ne_new e1.entry e2.new) in
      (
        (live_ne_new e1.entry e2.new, (live_ne_new e2.linked e3.new, (live_ne_new a e4.new, tt))),
        (
          (live_ne_new e2.entry e3.new, (live_ne_new e3.linked e4.new, tt)),
          ((live_ne_new e3.entry e4.new, tt), (tt, tt)),
        ),
      )

  ring_keys-Distinct : Distinct (e1.key ∷ e2.key ∷ e3.key ∷ e4.key ∷ [])
  ring_keys-Distinct =
      let a = Entry-Except e3.except e2.linked (live_ne_new e1.entry e2.new) in
      (
        (
          key_ne_new e1.entry e2.key_new,
          (key_ne_new e2.linked e3.key_new, (key_ne_new a e4.key_new, tt)),
        ),
        (
          (key_ne_new e2.entry e3.key_new, (key_ne_new e3.linked e4.key_new, tt)),
          ((key_ne_new e3.entry e4.key_new, tt), (tt, tt)),
        ),
      )

  -- None of the keys was live before.
  ring_keys-New : New s (e1.key ∷ e2.key ∷ e3.key ∷ e4.key ∷ [])
  ring_keys-New =
      let f2 = Frame-Except e1.frame e2.except e1.new in
      let new2 = free_before e2.curr e1.frame e2.new in
      let f3 = Frame-Except f2 e3.except new2 in
      (
        e1.key_new,
        (
          free_before e2.key e1.frame e2.key_new,
          (free_before e3.key f2 e3.key_new, (free_before e4.key f3 e4.key_new, tt)),
        ),
      )

  -- What lived before is as it was.
  ring-Frame : Frame s s5
  ring-Frame =
      let f2 = Frame-Except e1.frame e2.except e1.new in
      let new2 = free_before e2.curr e1.frame e2.new in
      let f3 = Frame-Except f2 e3.except new2 in
      let new3 = free_before e3.curr f2 e3.new in
      let f4 = Frame-Except f3 e4.except new3 in
      Frame-Except f4 (Put-Except p5) (free_before e4.curr f3 e4.new)

  -- The loop of `initQueue`.
  ring_run : make_entries env 4 null null s ≡ ok (e1.curr, e4.curr) e4.s'
  unfolding make_entries
  ring_run =
      make_first 3 e1
      ∙ e2.run 2 e1.curr e1.entry.ne_null
      ∙ e3.run 1 e1.curr e1.entry.ne_null
      ∙ e4.run 0 e1.curr e1.entry.ne_null

-- What `initQueue` leaves: a ring of nine blocks that were not live, which are four entries of three
-- words, their keys of two and a queue of one word, and nothing else changed but the word for the queue.
pub record IsInit (s : State) (nodep : Ptr) (s' : State) : Type 0 where
  pub ring : Ring s' nodep
  pub fresh : s.size ring.q ≡ 0
  pub entries_new : New s (ring.c1 ∷ ring.c2 ∷ ring.c3 ∷ ring.c4 ∷ [])
  pub keys_new : New s (ring.k1 ∷ ring.k2 ∷ ring.k3 ∷ ring.k4 ∷ [])
  pub entries_distinct : Distinct (ring.c1 ∷ ring.c2 ∷ ring.c3 ∷ ring.c4 ∷ [])
  pub keys_distinct : Distinct (ring.k1 ∷ ring.k2 ∷ ring.k3 ∷ ring.k4 ∷ [])
  pub queue_size : s'.size ring.q ≡ 1
  pub others : (b : Addr) → s.size b ≢ 0 → b ≢ nodep.block → s'.word b ≡ s.word b
  pub beside : (j : ℕ) → j ≢ nodep.offset → s'.word nodep.block j ≡ s.word nodep.block j
  pub sizes : (b : Addr) → s.size b ≢ 0 → s'.size b ≡ s.size b
  pub head : s'.head ≡ s.head

-- The queue written over a finished ring.
module _ {s s1 s5 s6 s7 : State} {nodep : Ptr} {q c1 c2 c3 c4 k1 k2 k3 k4 : Addr} (f1 : Frame s s1)
    (q_new : s.size q ≡ 0) (q_ne : q ≢ null) (q_size : s1.size q ≡ 1) (f5 : Frame s1 s5)
    (free1 : s1.size c1 ≡ 0) (free2 : s1.size c2 ≡ 0) (free3 : s1.size c3 ≡ 0)
    (free4 : s1.size c4 ≡ 0) (e1 : Entry s5 c1 null k1 c2) (e2 : Entry s5 c2 null k2 c3)
    (e3 : Entry s5 c3 null k3 c4) (e4 : Entry s5 c4 null k4 c1) (p6 : Put s5 q 0 c1 s6)
    (block_ne : nodep.block ≢ null) (inside : nodep.offset < s.size nodep.block)
    (new_keys : New s (k1 ∷ k2 ∷ k3 ∷ k4 ∷ [])) (entries : Distinct (c1 ∷ c2 ∷ c3 ∷ c4 ∷ []))
    (keys : Distinct (k1 ∷ k2 ∷ k3 ∷ k4 ∷ [])) (p7 : Put s6 nodep.block nodep.offset q s7) where
  kept :
      {c node key next : Addr} → s1.size c ≡ 0 → Entry s5 c node key next → Entry s7 c node key next
  kept {c} free e =
      Entry-Except (Put-Except p7)
        (Entry-Except (Put-Except p6) e (λ h. omega (arith, free, q_size, ap s1.size h)))
        (λ h.
          omega (arith, free, f1.sizes nodep.block (omega (arith, inside)), inside, ap s1.size h))

  q_other : q ≢ nodep.block
  q_other h = omega (arith, inside, q_new, ap s.size h)

  block_size : s6.size nodep.block ≡ s.size nodep.block
  block_size =
      p6.sizes nodep.block
      ∙ f5.sizes nodep.block (omega (arith, inside, f1.sizes nodep.block (omega (arith, inside))))
      ∙ f1.sizes nodep.block (omega (arith, inside))

  ring-IsInit : IsInit s nodep s7
  ring-IsInit = record {
    ring = record {
      q = q;
      c1 = c1;
      c2 = c2;
      c3 = c3;
      c4 = c4;
      k1 = k1;
      k2 = k2;
      k3 = k3;
      k4 = k4;
      queue = record {
        at_node = block_ne;
        in_node = omega (arith, inside, block_size, p7.sizes nodep.block);
        points =
            ap (s7.word nodep.block) {x = nodep.offset + 0} {y = nodep.offset} (omega arith)
            ∙ p7.at;
        ne_null = q_ne;
        live = omega (arith, q_size, f5.sizes q (omega (arith, q_size)), p6.sizes q, p7.sizes q);
        head = p7.elsewhere q 0 q_other ∙ p6.at;
      };
      entry1 = kept free1 e1;
      entry2 = kept free2 e2;
      entry3 = kept free3 e3;
      entry4 = kept free4 e4;
    };
    fresh = q_new;
    entries_new = (
      free_before c1 f1 free1,
      (free_before c2 f1 free2, (free_before c3 f1 free3, (free_before c4 f1 free4, tt))),
    );
    keys_new = new_keys;
    entries_distinct = entries;
    keys_distinct = keys;
    queue_size = p7.sizes q ∙ p6.sizes q ∙ f5.sizes q (omega (arith, q_size)) ∙ q_size;
    others = λ b h o.
        p7.others b o
        ∙ p6.others b (λ same. h (ap s.size same ∙ q_new))
        ∙ f5.words b (λ z. h (sym (f1.sizes b h) ∙ z))
        ∙ f1.words b h;
    beside = λ j h.
        p7.beside j h
        ∙ p6.elsewhere nodep.block j (λ same. q_other (sym same))
        ∙ ap (λ (w : Words). w j)
            (f5.words nodep.block
                (omega (arith, inside, f1.sizes nodep.block (omega (arith, inside))))
              ∙ f1.words nodep.block (omega (arith, inside)));
    sizes = λ b h.
        p7.sizes b ∙ p6.sizes b ∙ f5.sizes b (λ z. h (sym (f1.sizes b h) ∙ z)) ∙ f1.sizes b h;
    head = p7.head ∙ p6.head ∙ f5.head ∙ f1.head;
  }

init_run :
    (env : Env) (nodep : Ptr) (s : State) {s1 s4 s5 s6 s7 : State} {q first last : Addr}
    → kmalloc env 1 s ≡ ok q s1
    → make_entries env 4 null null s1 ≡ ok (first, last) s4
    → first ≢ null
    → store last 2 first s4 ≡ ok tt s5
    → store q 0 first s5 ≡ ok tt s6
    → store nodep.block nodep.offset q s6 ≡ ok tt s7
    → init_queue env nodep s ≡ ok tt s7
unfolding init_queue
init_run env nodep s r1 r4 ne w5 w6 w7 = ground (arith, r1, r4, ne, w5, w6, w7)

-- The runs put together, over the states that the allocations leave.
module _ {env : Env} {s s1 : State} {nodep : Ptr} {q : Addr} (run1 : kmalloc env 1 s ≡ ok q s1)
    (f1 : Frame s s1) (q_new : s.size q ≡ 0) (q_ne : q ≢ null) (q_size : s1.size q ≡ 1)
    (block_ne : nodep.block ≢ null) (inside : nodep.offset < s.size nodep.block)
    (e1 : NewEntry env 6 s1) (e2 : NextEntry env 4 e1.s' e1.curr e1.key)
    (e3 : NextEntry env 2 e2.s' e2.curr e2.key) (e4 : NextEntry env 0 e3.s' e3.curr e3.key) where
  queue-Put :
      {s5 s6 : State}
      → store e4.curr 2 e1.curr e4.s' ≡ ok tt s5
      → Put e4.s' e4.curr 2 e1.curr s5
      → store q 0 e1.curr s5 ≡ ok tt s6
      → Put s5 q 0 e1.curr s6
      → (s' : State) × (init_queue env nodep s ≡ ok tt s') × IsInit s nodep s'
  queue-Put {s5} {s6} w5 p5 w6 p6 =
      let f5 = ring-Frame e1 e2 e3 e4 p5 in
      let room : nodep.offset < s6.size nodep.block = omega (
        arith,
        inside,
        p6.sizes nodep.block,
        f5.sizes nodep.block (omega (arith, inside, f1.sizes nodep.block (omega (arith, inside)))),
        f1.sizes nodep.block (omega (arith, inside)),
      ) in
      let (s7, w7, p7) = store-Put nodep.block nodep.offset q s6 block_ne room in
      let new2 = free_before e2.curr e1.frame e2.new in
      let f2 = Frame-Except e1.frame e2.except e1.new in
      let new3 = free_before e3.curr f2 e3.new in
      let f3 = Frame-Except f2 e3.except new2 in
      let news = ring_keys-New e1 e2 e3 e4 p5 in
      (
        s7,
        init_run env nodep s run1 (ring_run e1 e2 e3 e4 p5) e1.entry.ne_null w5 w6 w7,
        ring-IsInit f1 q_new q_ne q_size f5 e1.new new2 new3 (free_before e4.curr f3 e4.new)
            (ring1 e1 e2 e3 e4 p5) (ring2 e1 e2 e3 e4 p5) (ring3 e1 e2 e3 e4 p5)
            (ring4 e1 e2 e3 e4 p5) p6 block_ne inside
            (
              free_before e1.key f1 news.0,
              (
                free_before e2.key f1 news.1.0,
                (free_before e3.key f1 news.1.1.0, (free_before e4.key f1 news.1.1.1.0, tt)),
              ),
            )
            (ring_entries-Distinct e1 e2 e3 e4 p5) (ring_keys-Distinct e1 e2 e3 e4 p5) p7,
      )

  -- The head is written, then the word for the queue.
  states-IsInit :
      {s5 : State}
      → store e4.curr 2 e1.curr e4.s' ≡ ok tt s5
      → Put e4.s' e4.curr 2 e1.curr s5
      → (s' : State) × (init_queue env nodep s ≡ ok tt s') × IsInit s nodep s'
  states-IsInit {s5} w5 p5 =
      let f5 = ring-Frame e1 e2 e3 e4 p5 in
      let (s6, w6, p6) =
        store-Put q 0 e1.curr s5 q_ne (omega (arith, q_size, f5.sizes q (omega (arith, q_size)))) in
      queue-Put w5 p5 w6 p6

ring_entries :
    {env : Env} {s s1 : State} {nodep : Ptr} {q : Addr}
    → kmalloc env 1 s ≡ ok q s1
    → Frame s s1
    → s.size q ≡ 0
    → q ≢ null
    → s1.size q ≡ 1
    → nodep.block ≢ null
    → nodep.offset < s.size nodep.block
    → NewEntry env 6 s1
    → (s' : State) × (init_queue env nodep s ≡ ok tt s') × IsInit s nodep s'
ring_entries run1 f1 q_new q_ne q_size block_ne inside e1 =
    let e2 = next_entry e1.memory e1.entry in
    let e3 = next_entry e2.memory e2.entry in
    let e4 = next_entry e3.memory e3.entry in
    let (s5, w5, p5) =
      store-Put e4.curr 2 e1.curr e4.s' e4.entry.ne_null (omega (arith, e4.entry.live)) in
    states-IsInit run1 f1 q_new q_ne q_size block_ne inside e1 e2 e3 e4 w5 p5

-- Where memory suffices for nine blocks, `initQueue` links four entries without nodes, no two the
-- same, into a ring under a queue, whose address it writes to its argument, a word of a live
-- block. The entries have three words or more, their keys, no two the same, have two words and
-- the queue has one; none of the nine blocks was live before. No other word of a live block
-- changes.
pub init_queue-IsInit :
    (env : Env) (nodep : Ptr) (s : State)
    → HasMemory env 9 s
    → nodep.block ≢ null
    → nodep.offset < s.size nodep.block
    → (s' : State) × (init_queue env nodep s ≡ ok tt s') × IsInit s nodep s'
init_queue-IsInit env nodep s m ne inside =
    let (q, s1, run1, f1, m1, q_ne, q_size, q_new, sizes1, free1, words1) =
      kmalloc_run env 8 1 (record { words = λ b h. refl; sizes = λ b h. refl; head = refl }) m in
    ring_entries run1 f1 q_new q_ne q_size ne inside (new_entry env 6 s1 m1)
