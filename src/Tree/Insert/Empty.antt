-- ===== src/Tree/Insert/Empty.antt =====
-- `cbtree_insert` of cbtree_base.c into an empty tree: the tree grows its first node.
use btree_profiling.Common.{ℕ, suc, ◌+◌, ◌<◌, ◌≡◌, ◌≢◌, refl, ap, sym, subst, ◌∙◌, [], ◌∷◌, arith}
use btree_profiling.Memory.{
  Addr, null, Words, State, ok, Env, Ptr, update, set_words, get_head, set_head, bug_on,
}
use btree_profiling.Words.Order.{value}
use btree_profiling.Node.{Geo}
use btree_profiling.Node.Slots.{IsGeo, entries}
use btree_profiling.Node.Search.{IsNode}
use btree_profiling.Tree.{
  success, read_node, find_level, adopt_root, cbtree_grow, cbtree_node_alloc,
}
use btree_profiling.Tree.Shape.{IsCbtree, IsTree, leaf}
use btree_profiling.Tree.Alloc.{HasNode, IsNew, cbtree_node_alloc-IsNew}
use btree_profiling.Tree.Insert.{cbtree_insert_level, cbtree_insert}
use btree_profiling.Tree.Insert.Walk.{HoldsKey, key_at, HoldsKey-frame}
use btree_profiling.Tree.Insert.Room.{leaf_words, leaf_insert, retry_room}

-- The blocks that lived in `s` are the same in `s'`.
pub record Spares (s s' : State) : Type 0 where
  pub words : (b : Addr) → s.size b ≢ 0 → s'.word b ≡ s.word b
  pub sizes : (b : Addr) → s.size b ≢ 0 → s'.size b ≡ s.size b

-- The tree with its first node.
unfoldable with_root : State → Addr → State
with_root s a = record s { head = record s.head { node = a; height = 1 } }

-- The node with the pair in it.
unfoldable with_pair : {geo : Geo} → IsGeo geo → State → Addr → Ptr → ℕ → State
with_pair g s a p v = set_words s a (leaf_words g (s.word a) (key_at s p) 0 v)

module _ {geo : Geo} (g : IsGeo geo) (env : Env) {s s1 : State} {a : Addr}
    (height : s.head.height ≡ 0) (none : s.head.node ≡ null)
    (run : cbtree_node_alloc env geo s ≡ ok a s1) (new : IsNew geo s a s1) where
  grow_run : cbtree_grow env geo s ≡ ok success (with_root s1 a)
  unfolding cbtree_grow adopt_root get_head set_head with_root
  grow_run = ground (arith, run, new.ne_null, height, none, new.frame.head)

  found : (p : Ptr) → find_level geo p 1 (with_root s1 a) ≡ ok a (with_root s1 a)
  unfolding find_level get_head bug_on with_root
  found p = ground (arith, new.ne_null)

  read_new : read_node geo a (with_root s1 a) ≡ ok ((with_root s1 a).word a) (with_root s1 a)
  unfolding read_node with_root
  read_new = ground (arith, new.ne_null, new.live)

  module _ {p : Ptr} (hk : HoldsKey geo s p) (v : ℕ) (ne : v ≢ 0) (room : 0 < geo.no_pairs) where
    node : IsNode geo ((with_root s1 a).word a) 0
    unfolding with_root
    node = new.node

    key_live : s.size p.block ≢ 0
    key_live = omega (arith, hk.live, g.some_key)

    key_kept : (with_root s1 a).word p.block ≡ s.word p.block
    unfolding with_root
    key_kept = new.frame.words p.block key_live

    grown_key : HoldsKey geo (with_root s1 a) p
    unfolding with_root
    grown_key = HoldsKey-frame (with_root s1 a) hk key_kept (new.frame.sizes p.block key_live)

    insert_run :
        (f : ℕ)
        → cbtree_insert (suc (suc f)) env geo p v s
          ≡ ok success (with_pair g (with_root s1 a) a p v)
    unfolding cbtree_insert cbtree_insert_level bug_on get_head with_pair
    insert_run f =
        let retry =
          retry_room g f env p v 1 (with_root s1 a) (found p) read_new node grown_key refl room in
        ground (arith, retry, height, grow_run, ne)

    one_entry :
        (w : Words)
        → IsNode geo w 1
        → entries geo w 1 ≡ (value (key_at s p) geo.keylen, v) ∷ []
        → (with_pair g (with_root s1 a) a p v).word a ≡ w
        → IsCbtree geo
            (with_pair g (with_root s1 a) a p v)
            0
            ((value (key_at s p) geo.keylen, v) ∷ [])
            (a ∷ [])
    unfolding with_pair with_root set_words
    one_entry w is es same = record {
      height = refl;
      tree =
          subst (λ l. IsTree geo (with_pair g (with_root s1 a) a p v) 0 a l (a ∷ []))
            (ap (λ u. entries geo u 1) same ∙ es)
            (leaf (record {
              ne_null = new.ne_null;
              live = new.live;
              node = subst (λ u. IsNode geo u 1) (sym same) is;
              some_pair = omega arith;
            }));
    }

    finished-IsCbtree :
        IsCbtree geo
          (with_pair g (with_root s1 a) a p v)
          0
          ((value (key_at s p) geo.keylen, v) ∷ [])
          (a ∷ [])
    unfolding with_pair set_words update
    finished-IsCbtree =
        let (is, es) =
          leaf_insert g ((with_root s1 a).word a) (key_at (with_root s1 a) p) 0 v node
            grown_key.words room ne in
        let key_same : value (key_at (with_root s1 a) p) geo.keylen
            ≡ value (key_at s p) geo.keylen =
          ap (λ (w : Words). value (λ i. w (p.offset + i)) geo.keylen) key_kept in
        one_entry _ is (es ∙ ap (λ k. (k, v) ∷ []) key_same) (ground arith)

    finished-Spares : Spares s (with_pair g (with_root s1 a) a p v)
    unfolding with_pair set_words update with_root
    finished-Spares = record {
      words = λ b h. ground (arith, new.frame.words b h, new.new, ap s.size {x = b} {y = a});
      sizes = λ b h. new.frame.sizes b h;
    }

module _ {geo : Geo} (g : IsGeo geo) where
  -- `cbtree_insert` into an empty tree succeeds where memory suffices: the tree then is one new
  -- leaf that holds the key with the value and no other entry, and no block that lived before is
  -- changed or freed. The geometry's keys fill their words and it has a slot, the caller's key
  -- can be read, the value is not `NULL`, the pool has a new node whose words reach past the
  -- start of its cache, the allocator has nine new blocks, and there are two units of fuel.
  pub cbtree_insert-empty :
      (f : ℕ) (env : Env) (p : Ptr) (v : ℕ) (s : State)
      → s.head.height ≡ 0
      → s.head.node ≡ null
      → HasNode env geo s
      → HoldsKey geo s p
      → v ≢ null
      → 0 < geo.no_pairs
      → (a : Addr) × (s' : State) × (cbtree_insert (suc (suc f)) env geo p v s ≡ ok success s')
        × IsCbtree geo s' 0 ((value (key_at s p) geo.keylen, v) ∷ []) (a ∷ [])
        × (s.size a ≡ 0)
        × Spares s s'
  cbtree_insert-empty f env p v s height none h hk ne room =
      let (a, s1, run, new) = cbtree_node_alloc-IsNew env geo s g h in
      (
        a,
        with_pair g (with_root s1 a) a p v,
        insert_run g env height none run new hk v ne room f,
        finished-IsCbtree g env height none run new hk v ne room,
        new.new,
        finished-Spares g env height none run new hk v ne room,
      )
