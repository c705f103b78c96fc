-- ===== src/Tree/Remove/Room.antt =====
-- `cbtree_remove` of cbtree_base.c from a leaf that keeps half of its slots used, in a tree of any
-- height.
use btree_profiling.Common.{
  ℕ, suc, ◌-◌, ◌/◌, ◌<◌, ◌≤◌, ◌≡◌, refl, ap, sym, subst, ◌∙◌, true, false, arith, ltb, some, List,
  remove_at,
}
use btree_profiling.Memory.{Addr, Words, State, ok, Ptr, get_head, update, set_words, bug_on}
use btree_profiling.Words.Order.{value, IsWords}
use btree_profiling.Entries.{
  has_key, place, lookup, erase, IsFalling, remove_at-place, lookup-place,
}
use btree_profiling.Node.{Geo, bval, getpos, getfill, key_eq, remove_pair}
use btree_profiling.Node.Slots.{IsGeo, key_num, pair, entries}
use btree_profiling.Node.Search.{IsNode, getpos-place, getfill-fill, key_eq_present}
use btree_profiling.Node.Remove.{remove_pair-remove_at, remove_pair-IsNode}
use btree_profiling.Tree.{write_node, find_level}
use btree_profiling.Tree.Shape.{IsCbtree, Holds, read_node-Holds}
use btree_profiling.Tree.Insert.Room.{SameOutside, leaf_fill}
use btree_profiling.Tree.Insert.Walk.{HoldsKey, key_at, read_key-HoldsKey}
use btree_profiling.Tree.Remove.{cbtree_remove, cbtree_remove_level}
use btree_profiling.Tree.Prev.Walk.{ParentKeys}
use btree_profiling.Tree.Prev.Leaves.{ParentKeys-leaf}
use btree_profiling.Tree.Remove.Find.{Spot, find_loop-Spot}

module _ {geo : Geo} (g : IsGeo geo) (node : Words) (fill : ℕ) (is : IsNode geo node (suc fill))
    (key : Words) (wk : IsWords key geo.keylen) (falling : IsFalling (entries geo node (suc fill)))
    (there : has_key (value key geo.keylen) (entries geo node (suc fill)) ≡ true) where
  -- The pair that a removal takes out of a node that holds the key.
  pub removed :
      (getpos geo node key < suc fill)
      × (key_eq geo node (getpos geo node key) key ≡ true)
      × (lookup (value key geo.keylen) (entries geo node (suc fill))
          ≡ some (bval geo node (getpos geo node key)))
      × (entries geo (remove_pair geo node (getpos geo node key) (suc fill)) fill
          ≡ erase (value key geo.keylen) (entries geo node (suc fill)))
      × IsNode geo (remove_pair geo node (getpos geo node key) (suc fill)) fill
  unfolding pair
  removed =
      let k = value key geo.keylen in
      let pos = getpos geo node key in
      let es = entries geo node (suc fill) in
      let at : pos ≡ place k es = getpos-place geo g node (suc fill) is key wk in
      let (low, same, value_there) = lookup-place k (pair geo node) (suc fill) falling there in
      let inside : pos < suc fill = omega (arith, at, low) in
      (
        inside,
        key_eq_present geo g node (suc fill) is key wk inside (ap (key_num geo node) at ∙ same),
        value_there ∙ ap (λ i. some (bval geo node i)) (sym at),
        (remove_pair-remove_at geo g node pos fill (omega arith) is.within).0
            ∙ ap (λ i. remove_at i es) at
            ∙ remove_at-place k es falling there,
        remove_pair-IsNode geo g node pos fill is (omega arith),
      )

module _ {geo : Geo} (g : IsGeo geo) {s : State} {p : Ptr} (hk : HoldsKey geo s p) where
  remove_level-room :
      (f : ℕ) {d b fill : ℕ}
      → s.head.height ≡ suc d
      → find_level geo p 1 s ≡ ok b s
      → Holds geo s b (suc fill)
      → getpos geo (s.word b) (key_at s p) < suc fill
      → key_eq geo (s.word b) (getpos geo (s.word b) (key_at s p)) (key_at s p) ≡ true
      → geo.no_pairs / 2 ≤ fill
      → cbtree_remove_level (suc f) geo p 1 s
        ≡ ok (bval geo (s.word b) (getpos geo (s.word b) (key_at s p))) (
            set_words s b
              (remove_pair geo (s.word b) (getpos geo (s.word b) (key_at s p)) (suc fill)))
  unfolding cbtree_remove_level get_head write_node
  remove_level-room f {b} {fill} high found h inside equal room =
      let w = s.word b in
      let k = key_at s p in
      let full : getfill geo w (getpos geo w k) ≡ suc fill =
        getfill-fill geo g w (suc fill) h.node (getpos geo w k) (omega arith) in
      let tall : ltb s.head.height 1 ≡ false = ground (arith, high) in
      let enough : ltb (suc fill - 1) (geo.no_pairs / 2) ≡ false = ground (arith, room) in
      rw (tall, found, read_node-Holds h, read_key-HoldsKey hk, equal, full, enough) (ground arith)

module _ {geo : Geo} (g : IsGeo geo) {s : State} {d : ℕ} {es : List (ℕ × ℕ)} {fp : List Addr} where
  find_level-Spot :
      {p : Ptr} {k : ℕ}
      → IsCbtree geo s d es fp
      → (r : Spot geo s p d s.head.node es fp k) → find_level geo p 1 s ≡ ok r.b s
  unfolding find_level get_head bug_on
  find_level-Spot t r = ground (arith, t.height, r.run, r.holds.ne_null)

  -- The removal from the leaf that holds the key.
  remove_at-Spot :
      {p : Ptr} (f n : ℕ)
      → IsCbtree geo s d es fp
      → (hk : HoldsKey geo s p) → IsFalling es
      → (r : Spot geo s p d s.head.node es fp (value (key_at s p) geo.keylen)) → r.fill ≡ suc n
      → 0 < n
      → geo.no_pairs / 2 ≤ n
      → (v : ℕ) × (s' : State) × (cbtree_remove (suc f) geo p s ≡ ok v s')
        × (lookup (value (key_at s p) geo.keylen) es ≡ some v)
        × IsCbtree geo s' d (erase (value (key_at s p) geo.keylen) es) fp
        × SameOutside fp s s'
        × ((b : ℕ) → ParentKeys geo s b d s.head.node → ParentKeys geo s' b d s'.head.node)
  unfolding cbtree_remove get_head set_words update
  remove_at-Spot {p} f n t hk falling r e pos half =
      let w = s.word r.b in
      let key = key_at s p in
      let k = value key geo.keylen in
      let h = subst (Holds geo s r.b) e r.holds in
      let own = ap (entries geo w) e in
      let (inside, equal, found_value, left_over, is) =
        removed g w n h.node key hk.words (subst IsFalling own (r.falling falling))
          (sym (ap (has_key k) own) ∙ r.there) in
      let run = remove_level-room g hk f t.height (find_level-Spot t r) h inside equal half in
      (
        bval geo w (getpos geo w key),
        set_words s r.b (remove_pair geo w (getpos geo w key) (suc n)),
        ground (arith, t.height, run),
        r.same ∙ ap (lookup k) own ∙ found_value,
        record { height = t.height; tree = r.plug _ n is pos (left_over ∙ ap (erase k) (sym own)) },
        record { words = λ a o. ground (arith, r.inside); sizes = λ a. refl },
        λ b keys.
            ParentKeys-leaf g d b (set_words s r.b (remove_pair geo w (getpos geo w key) (suc n)))
              t.tree r.leaf (λ x ne. ground arith) (λ x. refl) keys,
      )

  -- What a removal does, and that it keeps the bounds on the parent keys.
  pub cbtree_remove-ParentKeys :
      {p : Ptr}
      → IsCbtree geo s d es fp
      → HoldsKey geo s p
      → IsFalling es
      → has_key (value (key_at s p) geo.keylen) es ≡ true
      → geo.no_pairs / 2 < leaf_fill geo (find_level geo p 1 s)
      → 1 < leaf_fill geo (find_level geo p 1 s)
      → (f : ℕ)
      → (v : ℕ) × (s' : State) × (cbtree_remove (suc f) geo p s ≡ ok v s')
        × (lookup (value (key_at s p) geo.keylen) es ≡ some v)
        × IsCbtree geo s' d (erase (value (key_at s p) geo.keylen) es) fp
        × SameOutside fp s s'
        × ((b : ℕ) → ParentKeys geo s b d s.head.node → ParentKeys geo s' b d s'.head.node)
  unfolding cbtree_remove get_head set_words update
  cbtree_remove-ParentKeys {p} t hk falling there half two f =
      let r = find_loop-Spot g hk d t.tree there in
      let found = find_level-Spot t r in
      let fill_is : leaf_fill geo (find_level geo p 1 s) ≡ r.fill =
        ap (leaf_fill geo) found
        ∙ getfill-fill geo g (s.word r.b) r.fill r.holds.node 0 (omega arith) in
      remove_at-Spot f (r.fill - 1) t hk falling r (omega (arith, fill_is)) (omega (arith, fill_is))
        (omega (arith, fill_is))

  -- In a tree of any height, its entries in falling order, `cbtree_remove` of a key that the tree
  -- holds, in a leaf that `find_level` reaches with more than half of its slots and more than one
  -- of them used, returns the value of the key and takes its entry out. The tree has the same
  -- nodes and height, and no other block changes. The geometry's keys fill their words, the
  -- caller's key can be read, and there is one unit of fuel.
  pub cbtree_remove-room :
      {p : Ptr}
      → IsCbtree geo s d es fp
      → HoldsKey geo s p
      → IsFalling es
      → has_key (value (key_at s p) geo.keylen) es ≡ true
      → geo.no_pairs / 2 < leaf_fill geo (find_level geo p 1 s)
      → 1 < leaf_fill geo (find_level geo p 1 s)
      → (f : ℕ)
      → (v : ℕ) × (s' : State) × (cbtree_remove (suc f) geo p s ≡ ok v s')
        × (lookup (value (key_at s p) geo.keylen) es ≡ some v)
        × IsCbtree geo s' d (erase (value (key_at s p) geo.keylen) es) fp
        × SameOutside fp s s'
  cbtree_remove-room t hk falling there half two f =
      let (v, s', run, found, t', same, keys) =
        cbtree_remove-ParentKeys t hk falling there half two f in
      (v, s', run, found, t', same)
