-- ===== src/Tree/Lookup/Again.antt =====
-- Two lookups of cbtree_base.c after one another in a tree of two levels whose root has an empty cache.
use btree_profiling.Common.{
  ℕ, ◌+◌, ◌*◌, ◌/◌, ◌<◌, ◌≤◌, ◌≡◌, ◌≢◌, refl, ap, sym, ◌∙◌, true, false, ltb, List, ◌∷◌, arith,
  Bool-cases, inl, inr,
}
use btree_profiling.Memory.{Addr, State, ok, fault, Ptr, ptr, get_head, set_words}
use btree_profiling.Words.Order.{value}
use btree_profiling.Entries.{has_key, has_key-append, has_key-AllBelow}
use btree_profiling.Node.{Geo, cbtree_geo32, cache_start, bval, getpos}
use btree_profiling.Node.Slots.{IsGeo, key_num, entries}
use btree_profiling.Node.Geometry.{geometry-Fits, cache_outside_node}
use btree_profiling.Node.Search.{getpos_above, getpos_here, findkey-has_key}
use btree_profiling.Cache.{setcache, deleted_at}
use btree_profiling.Cache.Init.Ring.{Ring}
use btree_profiling.Cache.Init.Lookup.{find_node-Ring}
use btree_profiling.Cache.Refill.{
  Outside, Apart, Taken, moved, moved-other, refilled, refilled-head, find_node-refilled,
}
use btree_profiling.Tree.Shape.{
  root_inside, has, Holds, IsTree, IsForest, IsCbtree, leaf, inner, Holds-frame, read_node-Holds,
}
use btree_profiling.Tree.Insert.Walk.{HoldsKey, HoldsKey-frame, key_at, read_key-HoldsKey}
use btree_profiling.Tree.Prev.Walk.{forest-Child, forest_absent}
use btree_profiling.Tree.Prev.Frame.{forest-Slot}
use btree_profiling.Tree.Lookup.{cbtree_lookup, cbtree_lookup_node, scan_leaf, next_child}

-- The root's cache is a ring with no nodes, apart from the tree's nodes. Every node has the same number
-- of words.
pub record HasCache (geo : Geo) (words : ℕ) (s : State) (fp : List Addr) : Type 0 where
  pub ring : Ring s (ptr s.head.node (cache_start geo))
  pub apart : Apart ring
  pub outside : (a : Addr) → has a fp ≡ true → Outside ring a
  pub sized : (a : Addr) → has a fp ≡ true → s.size a ≡ words

-- The leaf in which the walk for a key that is in the tree ends.
record Home (geo : Geo) (s : State) (a : Addr) (l i : ℕ) (fp : List Addr) : Type 0 where
  pub fill : ℕ
  pub holds : Holds geo s (bval geo (s.word a) i) fill
  pub there : has_key l (entries geo (s.word (bval geo (s.word a) i)) fill) ≡ true
  pub inside : has (bval geo (s.word a) i) fp ≡ true
  pub room : i < geo.no_pairs

leaf_home :
    {geo : Geo} {s : State} {a : Addr} {es : List (ℕ × ℕ)} {nodes : List Addr} (l : ℕ)
    → IsTree geo s 0 a es nodes
    → has_key l es ≡ true
    → (fill : ℕ) × Holds geo s a fill × (has_key l (entries geo (s.word a) fill) ≡ true)
leaf_home l (leaf {fill} h) there = (fill, h, there)

module _ {geo : Geo} (g : IsGeo geo) {s : State} {p : Ptr} (hk : HoldsKey geo s p) where
  root-Home :
      {a : Addr} {fill : ℕ} {es : List (ℕ × ℕ)} {fp : List Addr}
      → Holds geo s a fill
      → IsForest geo s 0 (s.word a) 0 fill es fp
      → has_key (value (key_at s p) geo.keylen) es ≡ true
      → Home geo s a (value (key_at s p) geo.keylen) (getpos geo (s.word a) (key_at s p)) fp
  root-Home {a} {fill} {es} h f there =
      let w = s.word a in
      let key = key_at s p in
      let l = value key geo.keylen in
      let i = getpos geo w key in
      let front : (j : ℕ) → j < i → l < key_num geo w j =
        λ j q. getpos_above geo g w key j h.node.words hk.words q in
      let inside : i < fill = elim (Bool-cases (ltb i fill)) [
        | inl less ↦ ground (arith, less)
        | inr more ↦
            absurd
              (ground (arith, there, forest_absent l f (λ j q. front j (ground (arith, more)))))
      ] in
      let room : i < geo.no_pairs = omega (arith, h.node.within) in
      let ch = forest-Child l i fill f (omega arith) (omega arith) inside front in
      let low = getpos_here geo g w key h.node.words hk.words room in
      let found : has_key l ch.here ≡ true = ground (
        arith,
        there,
        ch.there,
        has_key-append l ch.here ch.behind,
        has_key-AllBelow l (key_num geo w i) ch.behind low ch.high,
      ) in
      let (n, holds, at_home) = leaf_home l ch.tree found in
      let slot = forest-Slot i f (omega arith) (omega arith) in
      record {
        fill = n;
        holds = holds;
        there = at_home;
        inside = slot.inside (bval geo w i) (root_inside slot.tree);
        room = room;
      }

  scan_leaf-has_key :
      {a : Addr} {fill : ℕ}
      → Holds geo s a fill
      → value (key_at s p) geo.keylen ≢ 0
      → has_key (value (key_at s p) geo.keylen) (entries geo (s.word a) fill) ≡ true
      → scan_leaf geo a p s ≡ ok a s
  unfolding scan_leaf
  scan_leaf-has_key {a} {fill} h ne there = ground (
    arith,
    read_node-Holds h,
    read_key-HoldsKey hk,
    findkey-has_key geo g (s.word a) fill h.node (key_at s p) hk.words ne,
    there,
  )

  next_child-bval :
      {a : Addr} {fill : ℕ}
      → Holds geo s a fill
      → getpos geo (s.word a) (key_at s p) < geo.no_pairs
      → next_child geo a p s ≡ ok (bval geo (s.word a) (getpos geo (s.word a) (key_at s p))) s
  unfolding next_child
  next_child-bval h room = ground (arith, read_node-Holds h, read_key-HoldsKey hk, room)

-- A caller's key that can be read, outside the tree and the ring of its root.
pub record CallerKey (geo : Geo) (words : ℕ) (s : State) (fp : List Addr)
    (cache : HasCache geo words s fp) (p : Ptr) : Type 0 where
  pub holds : HoldsKey geo s p
  pub outside_tree : has p.block fp ≡ false
  pub outside_ring : Outside cache.ring p.block

-- The nodes end at the mark of deleted nodes.
module _ {geo : Geo} (g : IsGeo geo) (one : geo.keylen ≡ 1) {words : ℕ}
    (ends : deleted_at (cache_start geo) ≡ words) {s : State} {fill : ℕ} {fp : List Addr}
    (high : s.head.height ≡ 2) (h : Holds geo s s.head.node fill)
    (root_in : has s.head.node fp ≡ true) (cache : HasCache geo words s fp) {p : Ptr}
    (ck : CallerKey geo words s fp cache p) (ne : value (key_at s p) geo.keylen ≢ 0)
    (home : Home geo s s.head.node
      (value (key_at s p) geo.keylen)
      (getpos geo (s.word s.head.node) (key_at s p))
      fp)
    (apart_root : s.head.node
      ≢ bval geo (s.word s.head.node) (getpos geo (s.word s.head.node) (key_at s p))) where
  abbrev slot : ℕ
  slot = getpos geo (s.word s.head.node) (key_at s p)

  abbrev target : Addr
  target = bval geo (s.word s.head.node) slot

  abbrev on : State
  on = moved cache.ring

  on-word : (a : Addr) → a ≢ cache.ring.q → on.word a ≡ s.word a
  on-word = moved-other cache.ring cache.apart (cache.outside s.head.node root_in).q

  on_root : on.word s.head.node ≡ s.word s.head.node
  on_root = on-word s.head.node (cache.outside s.head.node root_in).q

  on_target : on.word target ≡ s.word target
  on_target = on-word target (cache.outside target home.inside).q

  on_key : on.word p.block ≡ s.word p.block
  on_key = on-word p.block ck.outside_ring.q

  on-HoldsKey : HoldsKey geo on p
  unfolding set_words
  on-HoldsKey = HoldsKey-frame on ck.holds on_key refl

  on-key_at : key_at on p ≡ key_at s p
  on-key_at = ap (λ w (i : ℕ). w (p.offset + i)) on_key

  -- The way down, in the state that `findNode` leaves.
  on-next_child : next_child geo s.head.node p on ≡ ok target on
  unfolding set_words
  on-next_child =
      let here = Holds-frame {s = s} {s' = on} h on_root refl in
      let same : getpos geo (on.word s.head.node) (key_at on p) ≡ slot =
        ap (λ w. getpos geo w (key_at on p)) on_root
        ∙ ap (getpos geo (s.word s.head.node)) on-key_at in
      next_child-bval g on-HoldsKey here (omega (arith, same, home.room))
      ∙ ap (λ a. ok a on)
          (ap (λ w. bval geo w (getpos geo w (key_at on p))) on_root
            ∙ ap (λ k. bval geo (s.word s.head.node) (getpos geo (s.word s.head.node) k)) on-key_at)

  on-scan_leaf : scan_leaf geo target p on ≡ ok target on
  unfolding set_words
  on-scan_leaf =
      let k : value (key_at on p) geo.keylen ≡ value (key_at s p) geo.keylen =
        ap (λ k. value k geo.keylen) on-key_at in
      scan_leaf-has_key g on-HoldsKey (Holds-frame {s = s} {s' = on} home.holds on_target refl)
        (λ e. ne (sym k ∙ e))
        (ap (λ w. has_key (value (key_at on p) geo.keylen) (entries geo w home.fill)) on_target
          ∙ ap (λ n. has_key n (entries geo (s.word target) home.fill)) k
          ∙ home.there)

  target-Taken : Taken cache.ring target p
  target-Taken = record {
    call_outside = cache.outside s.head.node root_in;
    leaf_outside = cache.outside target home.inside;
    key_outside = ck.outside_ring;
    call_leaf = apart_root;
    leaf_key = λ e. absurd (ground (arith, ap (λ x. has x fp) e, home.inside, ck.outside_tree));
    leaf_ne_null = home.holds.ne_null;
    leaf_live = omega (arith, ends, cache.sized target home.inside);
    key_ne_null = ck.holds.ne_null;
    key_live = omega (arith, ck.holds.live, one);
  }

  abbrev filled : ℕ → State
  filled fuel = (refilled cache.ring cache.apart p target-Taken fuel).s4

  first_lookup : (fuel : ℕ) → cbtree_lookup fuel geo p s ≡ ok target (filled fuel)
  unfolding cbtree_lookup cbtree_lookup_node get_head
  first_lookup fuel =
      let f = refilled cache.ring cache.apart p target-Taken fuel in
      let fill_run : setcache fuel target s.head.node p (cache_start geo) geo.keylen on
          ≡ ok tt f.s4 =
        ap (λ n. setcache fuel target s.head.node p (cache_start geo) n on) one ∙ f.run in
      ground (
        arith,
        high,
        find_node-Ring (cache_start geo) p cache.ring,
        on-next_child,
        on-scan_leaf,
        home.holds.ne_null,
        fill_run,
      )

  -- The second entry of the ring then names the leaf.
  filled_entry : (fuel : ℕ) → (filled fuel).word cache.ring.c2 0 ≡ target
  filled_entry fuel = (refilled cache.ring cache.apart p target-Taken fuel).entry.node_is

  second_lookup : (fuel : ℕ) (p2 : Ptr) → cbtree_lookup fuel geo p2 (filled fuel) ≡ fault
  unfolding cbtree_lookup cbtree_lookup_node get_head
  second_lookup fuel p2 =
      let past =
        find_node-refilled cache.ring cache.apart p target-Taken fuel p2
          (omega (arith, ends, cache.sized target home.inside)) in
      ground (arith, refilled-head cache.ring cache.apart p target-Taken fuel, high, past)

-- Two lookups, in any geometry whose nodes end at the mark.
lookup_twice :
    {geo : Geo} {words : ℕ} {s : State} {es : List (ℕ × ℕ)} {fp : List Addr} {p : Ptr}
    → IsGeo geo
    → geo.keylen ≡ 1
    → deleted_at (cache_start geo) ≡ words
    → s.head.height ≡ 2
    → IsTree geo s 1 s.head.node es fp
    → (cache : HasCache geo words s fp) → CallerKey geo words s fp cache p
    → has_key (value (key_at s p) geo.keylen) es ≡ true
    → value (key_at s p) geo.keylen ≢ 0
    → (p2 : Ptr) (fuel : ℕ)
    → (found : Addr) × (fill : ℕ) × (s' : State) × (cbtree_lookup fuel geo p s ≡ ok found s')
      × (has_key (value (key_at s p) geo.keylen) (entries geo (s.word found) fill) ≡ true)
      × Holds geo s found fill
      × (s'.word cache.ring.c2 0 ≡ found)
      × (cbtree_lookup fuel geo p2 s' ≡ fault)
lookup_twice {geo} {words} {s} {p = p} g one ends high (inner {a} {fp} h out f) cache ck there ne p2
      fuel =
    let home = root-Home g ck.holds h f there in
    let i = getpos geo (s.word s.head.node) (key_at s p) in
    let child = bval geo (s.word s.head.node) i in
    let at_home : Home geo s s.head.node (value (key_at s p) geo.keylen) i (s.head.node ∷ fp) =
      record {
        fill = home.fill;
        holds = home.holds;
        there = home.there;
        inside = ground (arith, home.inside);
        room = home.room;
      } in
    let other : s.head.node ≢ child =
      λ e. absurd (ground (arith, home.inside, out, ap (λ x. has x fp) e)) in
    let root_in : has s.head.node (s.head.node ∷ fp) ≡ true = ground arith in
    (
      child,
      home.fill,
      filled g one ends high h root_in cache ck ne at_home other fuel,
      first_lookup g one ends high h root_in cache ck ne at_home other fuel,
      home.there,
      home.holds,
      filled_entry g one ends high h root_in cache ck ne at_home other fuel,
      second_lookup g one ends high h root_in cache ck ne at_home other fuel p2,
    )

-- In a tree of two levels whose root has an empty cache, in the geometry of 32-bit keys on longs
-- of eight bytes and with every node as long as the geometry's node size, `cbtree_lookup` of a
-- key that is in the tree, other than 0, returns the leaf that holds it, and the second entry of
-- the cache then names the leaf; the next lookup, of whatever key, is a fault, since `findNode`
-- reads the mark of deleted nodes past the end of the leaf. The node size is a multiple of 16 and
-- at least 128; the key can be read; the blocks of the cache are distinct and apart from those of
-- the tree and the key.
pub cbtree_lookup-again :
    (m : ℕ) {s : State} {es : List (ℕ × ℕ)} {fp : List Addr} {p : Ptr}
    → 8 ≤ m
    → IsCbtree (cbtree_geo32 (16 * m) 8) s 1 es fp
    → (cache : HasCache (cbtree_geo32 (16 * m) 8) (16 * m / 8) s fp)
    → CallerKey (cbtree_geo32 (16 * m) 8) (16 * m / 8) s fp cache p
    → has_key (value (key_at s p) 1) es ≡ true
    → value (key_at s p) 1 ≢ 0
    → (p2 : Ptr) (fuel : ℕ)
    → (found : Addr) × (fill : ℕ) × (s' : State) × (cbtree_lookup fuel (cbtree_geo32 (16 * m) 8) p s
        ≡ ok found s')
      × (has_key (value (key_at s p) 1) (entries (cbtree_geo32 (16 * m) 8) (s.word found) fill)
          ≡ true)
      × Holds (cbtree_geo32 (16 * m) 8) s found fill
      × (s'.word cache.ring.c2 0 ≡ found)
      × (cbtree_lookup fuel (cbtree_geo32 (16 * m) 8) p2 s' ≡ fault)
unfolding cbtree_geo32
cbtree_lookup-again m {s} {p = p} large t cache ck there ne p2 fuel =
    lookup_twice (geometry-Fits (16 * m) 8 (inr refl)).0.0 refl (cache_outside_node m large).0
      t.height t.tree cache ck there ne p2 fuel
