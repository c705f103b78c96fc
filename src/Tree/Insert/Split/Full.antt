-- ===== src/Tree/Insert/Split/Full.antt =====
-- `cbtree_insert` of cbtree_base.c into a tree of one full leaf, which it splits.
use btree_profiling.Common.{
  ℕ, zero, suc, ◌+◌, ◌-◌, ◌/◌, ◌<◌, ◌≤◌, ◌≡◌, ◌≢◌, ◌⊎◌, inl, inr, refl, ap, sym, subst, ◌∙◌, false,
  [], ◌∷◌, tabulate, arith,
}
use btree_profiling.Memory.{
  Addr, null, Head, Words, State, ok, Env, Ptr, update, set_words, get_head, bug_on,
}
use btree_profiling.Words.Order.{value}
use btree_profiling.Entries.{has_key, insert, IsFalling, AllBelow}
use btree_profiling.Node.{Geo, bval, getpos, getfill}
use btree_profiling.Node.Slots.{IsGeo, entries, key_num, pair}
use btree_profiling.Node.Search.{IsNode, getpos-le-fill, getfill-fill, key_eq_absent}
use btree_profiling.Tree.{
  success, read_node, key_slot, find_level, find_loop, descend, cbtree_node_alloc,
}
use btree_profiling.Tree.Shape.{has, Holds, IsCbtree, read_node-Holds}
use btree_profiling.Tree.Alloc.{HasNode, IsNew, cbtree_node_alloc-IsNew}
use btree_profiling.Tree.Lookup.Leaf.{IsLeaf}
use btree_profiling.Tree.Insert.{split_node, cbtree_insert_level, insert_retry, cbtree_insert}
use btree_profiling.Tree.Insert.Walk.{HoldsKey, key_at, read_key-HoldsKey, HoldsKey-frame}
use btree_profiling.Tree.Insert.Step.{Step, descend-Step}
use btree_profiling.Tree.Insert.Room.{leaf_fill, insert_retry-room}
use btree_profiling.Tree.Insert.Split.{Rooted, cbtree_insert_level-Rooted}
use btree_profiling.Tree.Insert.Split.Leaf.{
  split_words, split_node_run, left_leaf, right_leaf, split-IsCbtree, split_root, split_slots,
  split_head,
}

-- One round of `retry` at a full leaf: the new node goes to the level above, the leaf is split, and the
-- insertion is tried again.
full_run :
    {geo : Geo} (g : IsGeo geo) (f : ℕ) (env : Env) (p : Ptr) (v : ℕ) {s s1 s4 : State} {a b : Addr}
    {s5 : State}
    → find_level geo p 1 s ≡ ok a s
    → Holds geo s a geo.no_pairs
    → HoldsKey geo s p
    → has_key (value (key_at s p) geo.keylen) (entries geo (s.word a) geo.no_pairs) ≡ false
    → 1 < geo.no_pairs
    → cbtree_node_alloc env geo s ≡ ok b s1
    → b ≢ null
    → cbtree_insert_level f env geo (key_slot geo a (geo.no_pairs / 2 - 1)) b 2 s1 ≡ ok success s4
    → split_node geo b a geo.no_pairs s4 ≡ ok tt s5
    → insert_retry (suc f) env geo p v 1 s ≡ insert_retry f env geo p v 1 s5
unfolding insert_retry bug_on key_slot
full_run {geo} g f env p v {s} {s1} {s4} {a} {b} {s5} found h hk absent two alloc b_ne above
      halves =
    let w = s.word a in
    let k = key_at s p in
    let low = getpos-le-fill geo g w geo.no_pairs h.node k hk.words in
    let full = getfill-fill geo g w geo.no_pairs h.node (getpos geo w k) low in
    let fresh = key_eq_absent geo g w geo.no_pairs h.node k hk.words absent in
    ground (
      arith,
      found,
      read_node-Holds h,
      read_key-HoldsKey hk,
      full,
      fresh,
      alloc,
      b_ne,
      above,
      halves,
    )

module _ {geo : Geo} (g : IsGeo geo) {s : State} {p : Ptr} {c : Addr} (height : s.head.height ≡ 2)
    (at : s.head.node ≡ c) (root : Holds geo s c 2) (hk : HoldsKey geo s p) where
  via_child :
      (st : Step geo s p c 2) {x : Addr} {m : ℕ}
      → bval geo (s.word c) st.c ≡ x
      → Holds geo s x m
      → x ≢ c
      → m < geo.no_pairs
      → leaf_fill geo (find_level geo p 1 s) < geo.no_pairs
  unfolding find_level find_loop get_head bug_on
  via_child st {x} {m} here h other room =
      let found : find_level geo p 1 s ≡ ok x st.s' =
        ground (arith, height, ap (λ n. descend geo n p s) at, st.run, here, h.ne_null) in
      let fill = getfill-fill geo g (s.word x) m h.node 0 (omega arith) in
      let same = ap (λ w. getfill geo w 0) (st.same x other) in
      omega (arith, ap (leaf_fill geo) found, same, fill, room)

  -- The child that takes a key has as many pairs as one of the two leaves.
  child_fill :
      {l r : Addr} {nl nr : ℕ}
      → bval geo (s.word c) 0 ≡ l
      → bval geo (s.word c) 1 ≡ r
      → Holds geo s l nl
      → Holds geo s r nr
      → l ≢ c
      → r ≢ c
      → nl < geo.no_pairs
      → nr < geo.no_pairs
      → leaf_fill geo (find_level geo p 1 s) < geo.no_pairs
  child_fill left right hl hr lc rc room_l room_r =
      let st = descend-Step g hk root in
      let inside = st.inside in
      let which : (st.c ≡ 0) ⊎ (st.c ≡ 1) = omega arith in
      elim which [
        | inl e ↦ via_child st (ap (bval geo (s.word c)) e ∙ left) hl lc room_l
        | inr e ↦ via_child st (ap (bval geo (s.word c)) e ∙ right) hr rc room_r
      ]

AllBelow-tabulate :
    (f : ℕ → ℕ × ℕ) (n j : ℕ) {b : ℕ} → AllBelow b (tabulate f n) → j < n → (f j).0 < b
AllBelow-tabulate f zero j h p = absurd (omega arith)
AllBelow-tabulate f (suc n) zero h p = h.0
AllBelow-tabulate f (suc n) (suc j) h p = AllBelow-tabulate (λ i. f (suc i)) n j h.1 (omega arith)

falling_order :
    (f : ℕ → ℕ × ℕ) (n i j : ℕ) → IsFalling (tabulate f n) → i < j → j < n → (f j).0 < (f i).0
falling_order f zero i j h p q = absurd (omega arith)
falling_order f (suc n) i zero h p q = absurd (omega arith)
falling_order f (suc n) zero (suc j) h p q =
    AllBelow-tabulate (λ i. f (suc i)) n j h.0 (omega arith)
falling_order f (suc n) (suc i) (suc j) h p q =
    falling_order (λ i. f (suc i)) n i j h.1 (omega arith) (omega arith)

read_live :
    (geo : Geo) (s : State) (x : Addr)
    → x ≢ null
    → geo.no_longs + geo.no_pairs ≤ s.size x
    → read_node geo x s ≡ ok (s.word x) s
unfolding read_node
read_live geo s x ne live = ground (arith, ne, live)

split_words-others :
    (geo : Geo) (s : State) (b a : Addr) (n : ℕ) (x : Addr)
    → x ≢ a
    → x ≢ b
    → (split_words geo s b a n).word x ≡ s.word x
unfolding split_words set_words update
split_words-others geo s b a n x xa xb = ground (arith, xa, xb)

split_words-sizes :
    (geo : Geo) (s : State) (b a : Addr) (n : ℕ) (x : Addr)
    → (split_words geo s b a n).size x ≡ s.size x
unfolding split_words set_words
split_words-sizes geo s b a n x = refl

-- After the new node was put over the old one.
module _ {geo : Geo} (g : IsGeo geo) {s s1 s4 : State} {b : Addr} (t : IsLeaf geo s geo.no_pairs)
    (falling : IsFalling (entries geo (s.word s.head.node) geo.no_pairs)) (two : 1 < geo.no_pairs)
    (new : IsNew geo s b s1)
    (top : Rooted geo s1 s.head.node b
      (key_num geo (s1.word s.head.node) (geo.no_pairs / 2 - 1))
      (key_num geo (s1.word s.head.node) (geo.no_pairs - 1))
      s4) where
  live_a : s.size s.head.node ≢ 0
  live_a e = omega (arith, e, t.root.live, two)

  live1_a : s1.size s.head.node ≢ 0
  live1_a e = live_a (sym (new.frame.sizes s.head.node live_a) ∙ e)

  live1_b : s1.size b ≢ 0
  live1_b e = omega (arith, e, new.live, two)

  ab : s.head.node ≢ b
  ab e = live_a (ap s.size e ∙ new.new)

  ac : s.head.node ≢ top.c
  ac e = live1_a (ap s1.size e ∙ top.fresh)

  bc : b ≢ top.c
  bc e = live1_b (ap s1.size e ∙ top.fresh)

  word_a : s4.word s.head.node ≡ s.word s.head.node
  word_a = top.words s.head.node live1_a ∙ new.frame.words s.head.node live_a

  size_a : geo.no_longs + geo.no_pairs ≤ s4.size s.head.node
  size_a =
      omega (arith, top.sizes s.head.node live1_a, new.frame.sizes s.head.node live_a, t.root.live)

  size_b : geo.no_longs + geo.no_pairs ≤ s4.size b
  size_b = omega (arith, top.sizes b live1_b, new.live)

  split_run :
      split_node geo b s.head.node geo.no_pairs s4
      ≡ ok tt (split_words geo s4 b s.head.node geo.no_pairs)
  split_run =
      split_node_run geo s4 s.head.node b geo.no_pairs (read_live geo s4 b new.ne_null size_b)
        (read_live geo s4 s.head.node t.root.ne_null size_a)

  word_b : s4.word b ≡ s1.word b
  word_b = top.words b live1_b

  node_a : IsNode geo (s4.word s.head.node) geo.no_pairs
  node_a = subst (λ w. IsNode geo w geo.no_pairs) (sym word_a) t.root.node

  node_b : IsNode geo (s4.word b) 0
  node_b = subst (λ w. IsNode geo w 0) (sym word_b) new.node

  pairs4 :
      entries geo (s4.word top.c) 2
      ≡ (key_num geo (s4.word s.head.node) (geo.no_pairs / 2 - 1), b)
        ∷ (key_num geo (s4.word s.head.node) (geo.no_pairs - 1), s.head.node)
        ∷ []
  pairs4 =
      top.pairs
      ∙ ap
          (λ (w : Words).
            (key_num geo w (geo.no_pairs / 2 - 1), b)
            ∷ (key_num geo w (geo.no_pairs - 1), s.head.node)
            ∷ [])
          (sym (top.words s.head.node live1_a))

  falling4 : IsFalling (entries geo (s4.word s.head.node) geo.no_pairs)
  falling4 = subst (λ w. IsFalling (entries geo w geo.no_pairs)) (sym word_a) falling

  split_tree :
      IsCbtree geo
        (split_words geo s4 b s.head.node geo.no_pairs)
        1
        (entries geo (s.word s.head.node) geo.no_pairs)
        (top.c ∷ b ∷ s.head.node ∷ [])
  split_tree =
      subst
        (λ w.
          IsCbtree geo (split_words geo s4 b s.head.node geo.no_pairs) 1
            (entries geo w geo.no_pairs) (top.c ∷ b ∷ s.head.node ∷ []))
        word_a
        (split-IsCbtree g ab ac bc two falling4 node_a node_b t.root.ne_null new.ne_null size_a
          size_b top.root top.node top.height pairs4)

  -- A block that lived before and is not the leaf.
  other_kept :
      (x : Addr)
      → s.size x ≢ 0
      → x ≢ s.head.node
      → ((split_words geo s4 b s.head.node geo.no_pairs).word x ≡ s.word x)
        × ((split_words geo s4 b s.head.node geo.no_pairs).size x ≡ s.size x)
  other_kept x live xa =
      let live1 : s1.size x ≢ 0 = λ e. live (sym (new.frame.sizes x live) ∙ e) in
      let xb : x ≢ b = λ e. live (ap s.size e ∙ new.new) in
      (
        split_words-others geo s4 b s.head.node geo.no_pairs x xa xb
            ∙ top.words x live1
            ∙ new.frame.words x live,
        split_words-sizes geo s4 b s.head.node geo.no_pairs x
            ∙ top.sizes x live1
            ∙ new.frame.sizes x live,
      )

  not_new :
      (x : Addr) → s.size x ≢ 0 → x ≢ s.head.node → has x (top.c ∷ b ∷ s.head.node ∷ []) ≡ false
  not_new x live xa =
      let xb : x ≢ b = λ e. live (ap s.size e ∙ new.new) in
      let live1 : s1.size x ≢ 0 = λ e. live (sym (new.frame.sizes x live) ∙ e) in
      let xc : x ≢ top.c = λ e. live1 (ap s1.size e ∙ top.fresh) in ground (arith, xa, xb, xc)

  room_left :
      {p : Ptr}
      → HoldsKey geo (split_words geo s4 b s.head.node geo.no_pairs) p
      → leaf_fill geo (find_level geo p 1 (split_words geo s4 b s.head.node geo.no_pairs))
        < geo.no_pairs
  room_left hk =
      let head =
        split_head g ab ac bc two falling4 node_a node_b t.root.ne_null new.ne_null size_a size_b
          top.root top.node top.height pairs4 in
      let slots =
        split_slots g ab ac bc two falling4 node_a node_b t.root.ne_null new.ne_null size_a size_b
          top.root top.node top.height pairs4 in
      child_fill g (ap (λ (h : Head). h.height) head ∙ top.height)
        (ap (λ (h : Head). h.node) head ∙ top.node)
        (split_root g ab ac bc two falling4 node_a node_b t.root.ne_null new.ne_null size_a size_b
          top.root top.node top.height pairs4)
        hk slots.0 slots.1
        (left_leaf g ab ac bc two falling4 node_a node_b t.root.ne_null new.ne_null size_a size_b
          top.root top.node top.height pairs4)
        (right_leaf g ab ac bc two falling4 node_a node_b t.root.ne_null new.ne_null size_a size_b
          top.root top.node top.height pairs4)
        bc ac (omega (arith, two)) (omega (arith, two))

key_order :
    {geo : Geo} (g : IsGeo geo) (w : Words)
    → IsFalling (entries geo w geo.no_pairs)
    → 1 < geo.no_pairs
    → key_num geo w (geo.no_pairs - 1) < key_num geo w (geo.no_pairs / 2 - 1)
unfolding pair
key_order {geo} g w falling two =
    falling_order (pair geo w) geo.no_pairs (geo.no_pairs / 2 - 1) (geo.no_pairs - 1) falling
      (omega arith) (omega arith)

-- What a split leaves: a tree over the old leaf, a new one and a new root.
pub record IsSplit (geo : Geo) (s : State) (k v : ℕ) (s' : State) : Type 0 where
  pub b : Addr
  pub c : Addr
  pub fresh : s.size b ≡ 0
  pub tree :
      IsCbtree geo s' 1
        (insert k v (entries geo (s.word s.head.node) geo.no_pairs))
        (c ∷ b ∷ s.head.node ∷ [])
  pub words : (x : Addr) → s.size x ≢ 0 → x ≢ s.head.node → s'.word x ≡ s.word x
  pub sizes : (x : Addr) → s.size x ≢ 0 → x ≢ s.head.node → s'.size x ≡ s.size x

-- Where memory suffices for one node, and again for another once that is made.
pub record HasTwo (env : Env) (geo : Geo) (s : State) : Type 0 where
  pub one : HasNode env geo s
  pub more : (b : Addr) (s1 : State) → cbtree_node_alloc env geo s ≡ ok b s1 → HasNode env geo s1

module _ {geo : Geo} (g : IsGeo geo) {s s1 s4 : State} {b : Addr} (f : ℕ) (env : Env) (p : Ptr)
    (v : ℕ) (t : IsLeaf geo s geo.no_pairs)
    (falling : IsFalling (entries geo (s.word s.head.node) geo.no_pairs)) (two : 1 < geo.no_pairs)
    (hk : HoldsKey geo s p) (out : p.block ≢ s.head.node)
    (absent : has_key
        (value (key_at s p) geo.keylen)
        (entries geo (s.word s.head.node) geo.no_pairs)
      ≡ false)
    (ne : v ≢ null) (alloc : cbtree_node_alloc env geo s ≡ ok b s1) (new : IsNew geo s b s1)
    (above : cbtree_insert_level
        (suc (suc f))
        env
        geo
        (key_slot geo s.head.node (geo.no_pairs / 2 - 1))
        b
        2
        s1
      ≡ ok success s4)
    (top : Rooted geo s1 s.head.node b
      (key_num geo (s1.word s.head.node) (geo.no_pairs / 2 - 1))
      (key_num geo (s1.word s.head.node) (geo.no_pairs - 1))
      s4) where
  -- The second try finds room.
  IsSplit-insert :
      (s' : State) × (cbtree_insert (suc (suc (suc (suc f)))) env geo p v s ≡ ok success s')
      × IsSplit geo s (value (key_at s p) geo.keylen) v s'
  unfolding cbtree_insert cbtree_insert_level bug_on get_head find_level find_loop
  IsSplit-insert =
      let key_live : s.size p.block ≢ 0 = λ e. omega (arith, e, hk.live, g.some_key) in
      let (word_p, size_p) = other_kept g t falling two new top p.block key_live out in
      let hk5 = HoldsKey-frame _ hk word_p size_p in
      let ke = ap (λ (w : Words). value (λ i. w (p.offset + i)) geo.keylen) word_p in
      let es = entries geo (s.word s.head.node) geo.no_pairs in
      let (s', again, t', same) =
        insert_retry-room g (suc f) env p v (split_tree g t falling two new top) hk5
          (not_new g t falling two new top p.block key_live out)
          (ap (λ k. has_key k es) ke ∙ absent) ne (room_left g t falling two new top hk5) in
      let found : find_level geo p 1 s ≡ ok s.head.node s =
        ground (arith, t.height, t.root.ne_null) in
      let run =
        full_run g (suc (suc f)) env p v found t.root hk absent two alloc new.ne_null above
          (split_run g t falling two new top) in
      (
        s',
        ground (arith, ne, t.height, run ∙ again),
        record {
          b = b;
          c = top.c;
          fresh = new.new;
          tree =
              subst (λ k. IsCbtree geo s' 1 (insert k v es) (top.c ∷ b ∷ s.head.node ∷ [])) ke t';
          words = λ x live xa.
              same.words x (not_new g t falling two new top x live xa)
              ∙ (other_kept g t falling two new top x live xa).0;
          sizes = λ x live xa. same.sizes x ∙ (other_kept g t falling two new top x live xa).1;
        },
      )

module _ {geo : Geo} (g : IsGeo geo) where
  -- `cbtree_insert` of a new key into a tree of a single full leaf, its entries in falling order,
  -- is insertion into the entries: it succeeds, and the tree is one level higher, a new root over
  -- a new leaf and the old one. No other block that lived before is changed or freed. The
  -- geometry's keys fill their words and it has two slots at least, memory suffices for a node
  -- and for a second one after it, the caller's key can be read and lies outside the leaf, the
  -- value is not `NULL`, and there are four units of fuel.
  pub cbtree_insert-IsSplit :
      (f : ℕ) (env : Env) (p : Ptr) (v : ℕ) (s : State)
      → IsLeaf geo s geo.no_pairs
      → IsFalling (entries geo (s.word s.head.node) geo.no_pairs)
      → 1 < geo.no_pairs
      → HasTwo env geo s
      → HoldsKey geo s p
      → p.block ≢ s.head.node
      → has_key (value (key_at s p) geo.keylen) (entries geo (s.word s.head.node) geo.no_pairs)
        ≡ false
      → v ≢ null
      → (s' : State) × (cbtree_insert (suc (suc (suc (suc f)))) env geo p v s ≡ ok success s')
        × IsSplit geo s (value (key_at s p) geo.keylen) v s'
  cbtree_insert-IsSplit f env p v s t falling two memory hk out absent ne =
      let (b, s1, alloc, new) = cbtree_node_alloc-IsNew env geo s g memory.one in
      let a_live : s.size s.head.node ≢ 0 = λ e. omega (arith, e, t.root.live, two) in
      let kept = new.frame.words s.head.node a_live in
      let h1 : Holds geo s1 s.head.node geo.no_pairs = record {
        ne_null = t.root.ne_null;
        live = omega (arith, t.root.live, new.frame.sizes s.head.node a_live);
        node = subst (λ w. IsNode geo w geo.no_pairs) (sym kept) t.root.node;
        some_pair = omega arith;
      } in
      let order =
        subst (λ w. key_num geo w (geo.no_pairs - 1) < key_num geo w (geo.no_pairs / 2 - 1))
          (sym kept) (key_order g (s.word s.head.node) falling two) in
      let (s4, above, top) =
        cbtree_insert_level-Rooted g env f (ap (λ (h : Head). h.height) new.frame.head ∙ t.height)
          (ap (λ (h : Head). h.node) new.frame.head) h1 (memory.more b s1 alloc) (omega arith)
          new.ne_null two order in
      IsSplit-insert g f env p v t falling two hk out absent ne alloc new above top
