-- ===== src/Tree/Alloc.antt =====
-- `cbtree_node_alloc` of cbtree_base.c when memory suffices: an empty node with a ring of empty entries.
use btree_profiling.Common.{ℕ, ◌+◌, ◌*◌, ◌<◌, ◌≤◌, ◌≡◌, ◌≢◌, refl, ap, ◌∙◌, arith}
use btree_profiling.Memory.{
  Addr, null, Words, State, Env, ok, ptr, update, set_words, place, mempool_alloc,
}
use btree_profiling.Words.{longset}
use btree_profiling.Words.Copy.{longset_lem}
use btree_profiling.Cache.{init_queue}
use btree_profiling.Cache.Init.{HasMemory, HasMemory-sizes, Frame}
use btree_profiling.Cache.Init.Ring.{Ring, IsInit, init_queue-IsInit}
use btree_profiling.Node.{Geo, cache_start, bkey, bval}
use btree_profiling.Node.Slots.{IsGeo, pair, key_num, value-zero, slot_le}
use btree_profiling.Node.Search.{IsNode}
use btree_profiling.Tree.{cbtree_node_alloc, write_node, block_words}

-- The keys and values of an array of zeros are those of an empty node.
pub zeros-IsNode :
    (geo : Geo) (w : Words)
    → IsGeo geo
    → ((j : ℕ) → j < geo.no_longs + geo.no_pairs → w j ≡ 0)
    → IsNode geo w 0
unfolding pair key_num bkey bval
zeros-IsNode geo w g zeros = record {
  words = λ i p. omega (arith, zeros i);
  within = omega arith;
  used = λ i p. absurd (omega arith);
  unused = λ i p q. λ j. (
    value-zero _ geo.keylen
        (λ l r.
          zeros (i * geo.keylen + l) (grind (arith, slot_le i geo.no_pairs geo.keylen, g.longs)))
        j,
    zeros (geo.no_longs + i) (omega arith) j,
  );
}

-- The word for the queue lies behind the values.
start_le : (geo : Geo) → IsGeo geo → geo.no_longs + geo.no_pairs ≤ cache_start geo
start_le geo g =
    let some_key = g.some_key in
    let more : geo.no_pairs ≤ geo.keylen * geo.no_pairs = grind arith in omega arith

-- Memory for a node of `geo` and for its cache, with the words of the cache inside the node.
pub record HasNode (env : Env) (geo : Geo) (s : State) : Type 0 where
  pub ne_null : env.mempool_alloc s ≢ null
  pub free : s.size (env.mempool_alloc s) ≡ 0
  pub cache_memory :
      HasMemory env 9 (record s { size = update s.size (env.mempool_alloc s) env.node_words })
  pub cache_inside : cache_start geo < env.node_words

-- A new node at `a`.
pub record IsNew (geo : Geo) (s : State) (a : Addr) (s' : State) : Type 0 where
  pub ne_null : a ≢ null
  pub new : s.size a ≡ 0
  pub live : geo.no_longs + geo.no_pairs ≤ s'.size a
  pub node : IsNode geo (s'.word a) 0
  pub ring : Ring s' (ptr a (cache_start geo))
  pub frame : Frame s s'

module _ (env : Env) {geo : Geo} {s : State} (g : IsGeo geo) (h : HasNode env geo s) where
  -- The state in which the cache is made.
  unfoldable cleared : State
  cleared =
      let a = env.mempool_alloc s in
      record s {
        size = update s.size a env.node_words;
        word = update s.word a (longset (s.word a) 0 0 env.node_words);
      }

  cleared-HasMemory : HasMemory env 9 cleared
  unfolding cleared
  cleared-HasMemory = HasMemory-sizes env 9 _ _ (λ a. refl) h.cache_memory

  cleared-size : cleared.size (env.mempool_alloc s) ≡ env.node_words
  unfolding cleared update
  cleared-size = ground arith

  cleared-zero : (j : ℕ) → j < env.node_words → cleared.word (env.mempool_alloc s) j ≡ 0
  unfolding cleared update
  cleared-zero j p = ground (arith, longset_lem (s.word (env.mempool_alloc s)) 0 0 env.node_words j)

  cleared-Frame : Frame s cleared
  unfolding cleared update
  cleared-Frame = record {
    words = λ b p. ground (arith, h.free, ap s.size {x = b} {y = env.mempool_alloc s});
    sizes = λ b p. ground (arith, h.free, ap s.size {x = b} {y = env.mempool_alloc s});
    head = refl;
  }

  alloc_run :
      {s' : State}
      → init_queue env (ptr (env.mempool_alloc s) (cache_start geo)) cleared ≡ ok tt s'
      → cbtree_node_alloc env geo s ≡ ok (env.mempool_alloc s) s'
  unfolding cbtree_node_alloc mempool_alloc place write_node block_words set_words update cleared
  alloc_run run = ground (arith, run, h.ne_null)

  cleared-IsNew :
      {s' : State}
      → IsInit cleared (ptr (env.mempool_alloc s) (cache_start geo)) s'
      → IsNew geo s (env.mempool_alloc s) s'
  cleared-IsNew {s'} is =
      let a = env.mempool_alloc s in
      let inside = h.cache_inside in
      let live : cleared.size a ≢ 0 = omega (arith, cleared-size, inside) in
      let f = cleared-Frame in
      let room = start_le geo g in
      let other : (b : Addr) → s.size b ≢ 0 → b ≢ a = λ b p e. p (ap s.size e ∙ h.free) in
      record {
        ne_null = h.ne_null;
        new = h.free;
        live = omega (arith, cleared-size, is.sizes a live, inside, room);
        node =
            zeros-IsNode geo (s'.word a) g
              (λ j p. is.beside j (omega arith) ∙ cleared-zero j (omega arith));
        ring = is.ring;
        frame = record {
          words = λ b p. is.others b (omega (arith, p, f.sizes b p)) (other b p) ∙ f.words b p;
          sizes = λ b p. is.sizes b (omega (arith, p, f.sizes b p)) ∙ f.sizes b p;
          head = is.head ∙ f.head;
        };
      }

-- Where memory suffices, `cbtree_node_alloc` gives a new node with no entries and a ring of four empty
-- cache entries, and changes no block that lived before.
pub cbtree_node_alloc-IsNew :
    (env : Env) (geo : Geo) (s : State)
    → IsGeo geo
    → HasNode env geo s
    → (a : Addr) × (s' : State) × (cbtree_node_alloc env geo s ≡ ok a s') × IsNew geo s a s'
cbtree_node_alloc-IsNew env geo s g h =
    let (s', run, is) =
      init_queue-IsInit env (ptr (env.mempool_alloc s) (cache_start geo)) (cleared env g h)
        (cleared-HasMemory env g h) h.ne_null
        (omega (arith, cleared-size env g h, h.cache_inside)) in
    (env.mempool_alloc s, s', alloc_run env g h run, cleared-IsNew env g h is)
