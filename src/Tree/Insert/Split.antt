-- ===== src/Tree/Insert/Split.antt =====
-- `cbtree_insert` of cbtree_base.c into a tree of one full leaf: the root that takes the new node's key.
pub mod Leaf
pub mod Full
use btree_profiling.Common.{
  ℕ, zero, suc, ◌+◌, ◌-◌, ◌*◌, ◌/◌, ◌<◌, ◌≤◌, ◌≡◌, ◌≢◌, refl, ap, ap₂, sym, subst, ◌∙◌, false, List,
  [], ◌∷◌, ◌++◌, tabulate, arith, ltb, ◌==◌, if◌then◌else◌,
}
use btree_profiling.Memory.{
  Addr, null, Head, Words, State, ok, Env, Ptr, ptr, update, set_words, get_head, set_head, bug_on,
}
use btree_profiling.Words.Order.{value, IsWords}
use btree_profiling.Entries.{has_key, insert, IsFalling, AllBelow, AllAtLeast}
use btree_profiling.Node.{Geo, bkey, getfill, insert_pair, shift_up, setval, setkey}
use btree_profiling.Node.Slots.{IsGeo, entries, key_num, pair, slot_le, value_congr}
use btree_profiling.Node.Search.{IsNode, getfill-fill}
use btree_profiling.Node.Insert.{insert_pair-IsNode, insert_pair-insert_at, bkey-IsWords}
use btree_profiling.Tree.{
  success, read_node, write_node, key_slot, find_level, adopt_root, cbtree_grow, cbtree_node_alloc,
}
use btree_profiling.Tree.Shape.{Holds, read_node-Holds}
use btree_profiling.Tree.Alloc.{HasNode, IsNew, cbtree_node_alloc-IsNew}
use btree_profiling.Tree.Insert.{cbtree_insert_level, insert_retry}
use btree_profiling.Tree.Insert.Walk.{HoldsKey, key_at}
use btree_profiling.Tree.Insert.Room.{leaf_words, leaf_insert, retry_room}

pub set_words-here : (s : State) (a : Addr) (w : Words) → (set_words s a w).word a ≡ w
unfolding set_words update
set_words-here s a w = ground arith

-- A root `c` over the old one `a`, which holds the words `w`.
unfoldable with_root : Geo → State → Addr → Addr → Words → ℕ → State
with_root geo s c a w fill =
    record (set_words s c (insert_pair geo (s.word c) 0 0 (bkey geo w (fill - 1)) a)) {
      head = record s.head { node = c; height = 2 };
    }

module _ {geo : Geo} (g : IsGeo geo) (env : Env) {s s2 : State} {a c : Addr} {n : ℕ}
    (height : s.head.height ≡ 1) (root : s.head.node ≡ a) (h : Holds geo s a n)
    (run : cbtree_node_alloc env geo s ≡ ok c s2) (new : IsNew geo s c s2) where
  a_live : s.size a ≢ 0
  a_live e = omega (arith, e, h.live, h.some_pair, h.node.within)

  c_other : a ≢ c
  c_other e = a_live (ap s.size e ∙ new.new)

  a_kept : s2.word a ≡ s.word a
  a_kept = new.frame.words a a_live

  old_root : Holds geo s2 a n
  old_root = record {
    ne_null = h.ne_null;
    live = omega (arith, h.live, new.frame.sizes a a_live);
    node = subst (λ w. IsNode geo w n) (sym a_kept) h.node;
    some_pair = h.some_pair;
  }

  grow_run : cbtree_grow env geo s ≡ ok success (with_root geo s2 c a (s2.word a) n)
  unfolding cbtree_grow adopt_root get_head set_head with_root read_node write_node insert_pair
      shift_up set_words update
  grow_run = ground (
    arith,
    run,
    new.ne_null,
    new.live,
    height,
    root,
    new.frame.head,
    read_node-Holds old_root,
    old_root.some_pair,
    getfill-fill geo g (s2.word a) n old_root.node 0 (omega arith),
  )

  -- The root's one pair.
  root_words :
      (with_root geo s2 c a (s2.word a) n).word c
      ≡ insert_pair geo (s2.word c) 0 0 (bkey geo (s2.word a) (n - 1)) a
  unfolding with_root set_words update
  root_words = ground arith

  root_pair :
      IsNode geo ((with_root geo s2 c a (s2.word a) n).word c) 1
      × (entries geo ((with_root geo s2 c a (s2.word a) n).word c) 1
          ≡ (key_num geo (s2.word a) (n - 1), a) ∷ [])
  unfolding key_num
  root_pair =
      let key = bkey geo (s2.word a) (n - 1) in
      let within = old_root.node.within in
      let some_pair = h.some_pair in
      let room : 0 < geo.no_pairs = omega arith in
      let wk = bkey-IsWords geo g (s2.word a) (n - 1) old_root.node.words (omega arith) in
      (
        subst (λ w. IsNode geo w 1) (sym root_words)
            (insert_pair-IsNode geo g (s2.word c) 0 0 key a new.node wk (omega arith) room
              h.ne_null),
        ap (λ w. entries geo w 1) root_words
            ∙ insert_pair-insert_at geo g (s2.word c) 0 0 key a (omega arith) room,
      )

  a_words : (with_root geo s2 c a (s2.word a) n).word a ≡ s2.word a
  unfolding with_root set_words update
  a_words = ground (arith, c_other)

  -- The key of a slot of the old root, in place.
  module _ {i : ℕ} (inside : i < n) where
    slot_key : HoldsKey geo (with_root geo s2 c a (s2.word a) n) (key_slot geo a i)
    unfolding with_root set_words update key_slot bkey
    slot_key = record {
      ne_null = h.ne_null;
      live =
          grind (
            arith,
            slot_le i geo.no_pairs geo.keylen,
            g.longs,
            old_root.live,
            h.node.within,
            inside,
          );
      words =
          subst (λ w. IsWords (bkey geo w i) geo.keylen) (sym a_words)
            (bkey-IsWords geo g (s2.word a) i old_root.node.words
              (omega (arith, h.node.within, inside)));
    }

    slot_value :
        value (key_at (with_root geo s2 c a (s2.word a) n) (key_slot geo a i)) geo.keylen
        ≡ key_num geo (s2.word a) i
    unfolding key_slot key_num bkey
    slot_value = ap (λ (w : Words). value (bkey geo w i) geo.keylen) a_words

    module _ (f : ℕ) (v : ℕ) (ne : v ≢ null) (two : 1 < geo.no_pairs)
        (above : key_num geo (s2.word a) (n - 1) < key_num geo (s2.word a) i) where
      root_words2 : Words
      root_words2 =
          leaf_words g ((with_root geo s2 c a (s2.word a) n).word c)
            (key_at (with_root geo s2 c a (s2.word a) n) (key_slot geo a i)) 1 v

      root_found :
          find_level geo (key_slot geo a i) 2 (with_root geo s2 c a (s2.word a) n)
          ≡ ok c (with_root geo s2 c a (s2.word a) n)
      unfolding find_level get_head bug_on with_root
      root_found = ground (arith, new.ne_null)

      root_read :
          read_node geo c (with_root geo s2 c a (s2.word a) n)
          ≡ ok ((with_root geo s2 c a (s2.word a) n).word c) (with_root geo s2 c a (s2.word a) n)
      unfolding read_node with_root set_words
      root_read = ground (arith, new.ne_null, new.live)

      -- The key of the new node goes into the root.
      root_run :
          insert_retry (suc f) env geo (key_slot geo a i) v 2 (with_root geo s2 c a (s2.word a) n)
          ≡ ok success (set_words (with_root geo s2 c a (s2.word a) n) c root_words2)
      unfolding root_words2
      root_run =
          retry_room g f env (key_slot geo a i) v 2 (with_root geo s2 c a (s2.word a) n) root_found
            root_read root_pair.0 slot_key (ap₂ has_key slot_value root_pair.1 ∙ ground arith) two

      level_run :
          cbtree_insert_level (suc (suc f)) env geo (key_slot geo a i) v 2 s
          ≡ ok success (set_words (with_root geo s2 c a (s2.word a) n) c root_words2)
      unfolding cbtree_insert_level bug_on get_head
      level_run = ground (arith, ne, height, grow_run, root_run)

      root_pairs :
          IsNode geo root_words2 2
          × (entries geo root_words2 2
              ≡ (key_num geo (s2.word a) i, v) ∷ (key_num geo (s2.word a) (n - 1), a) ∷ [])
      unfolding root_words2
      root_pairs =
          let (is, es) =
            leaf_insert g ((with_root geo s2 c a (s2.word a) n).word c)
              (key_at (with_root geo s2 c a (s2.word a) n) (key_slot geo a i)) 1 v root_pair.0
              slot_key.words two ne in
          (is, es ∙ ap₂ (λ k l. insert k v l) slot_value root_pair.1 ∙ ground arith)

-- A new root over the old one `a` and a new node `b`.
pub record Rooted (geo : Geo) (s : State) (a b : Addr) (kb ka : ℕ) (s' : State) : Type 0 where
  pub c : Addr
  pub fresh : s.size c ≡ 0
  pub root : Holds geo s' c 2
  pub pairs : entries geo (s'.word c) 2 ≡ (kb, b) ∷ (ka, a) ∷ []
  pub words : (x : Addr) → s.size x ≢ 0 → s'.word x ≡ s.word x
  pub sizes : (x : Addr) → s.size x ≢ 0 → s'.size x ≡ s.size x
  pub node : s'.head.node ≡ c
  pub height : s'.head.height ≡ 2

-- The insertion of a new node at the level above a single leaf grows a root.
pub cbtree_insert_level-Rooted :
    {geo : Geo} (g : IsGeo geo) (env : Env) {s : State} {a b : Addr} {n i : ℕ} (f : ℕ)
    → s.head.height ≡ 1
    → s.head.node ≡ a
    → Holds geo s a n
    → HasNode env geo s
    → i < n
    → b ≢ null
    → 1 < geo.no_pairs
    → key_num geo (s.word a) (n - 1) < key_num geo (s.word a) i
    → (s' : State) × (cbtree_insert_level (suc (suc f)) env geo (key_slot geo a i) b 2 s
        ≡ ok success s')
      × Rooted geo s a b (key_num geo (s.word a) i) (key_num geo (s.word a) (n - 1)) s'
unfolding with_root set_words update
cbtree_insert_level-Rooted {geo} g env {s} {a} {b} {n} {i} f height root h hn inside ne two above =
    let (c, s2, run, new) = cbtree_node_alloc-IsNew env geo s g hn in
    let kept = a_kept g env height root h run new in
    let above2 = subst (λ w. key_num geo w (n - 1) < key_num geo w i) (sym kept) above in
    let (is, es) = root_pairs g env height root h run new inside f b ne two above2 in
    (
      _,
      level_run g env height root h run new inside f b ne two above2,
      record {
        c = c;
        fresh = new.new;
        root = record {
          ne_null = new.ne_null;
          live = new.live;
          node =
              subst (λ w. IsNode geo w 2)
                (sym (set_words-here (with_root geo s2 c a (s2.word a) n) c _)) is;
          some_pair = omega arith;
        };
        pairs =
            ap (λ w. entries geo w 2) (set_words-here (with_root geo s2 c a (s2.word a) n) c _)
            ∙ es
            ∙ ap (λ w. (key_num geo w i, b) ∷ (key_num geo w (n - 1), a) ∷ []) kept;
        words =
            λ x live. ground (arith, new.frame.words x live, new.new, ap s.size {x = x} {y = c});
        sizes = λ x live. new.frame.sizes x live;
        node = refl;
        height = refl;
      },
    )
