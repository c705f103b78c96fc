-- ===== src/Tree/Remove/Leaf.antt =====
-- `cbtree_remove` of cbtree_base.c on a tree of one leaf.
use btree_profiling.Common.{
  ℕ, suc, ◌<◌, ◌≡◌, ◌≢◌, refl, ap, ◌∙◌, true, false, arith, ◌==◌, ltb, some, Bool-cases, inl, inr,
  [], ◌∷◌, remove_at,
}
use btree_profiling.Memory.{null, Words, State, ok, Ptr, get_head, update, set_words, bug_on}
use btree_profiling.Words.Order.{value}
use btree_profiling.Entries.{has_key, lookup, ne_of_has_key, erase, IsFalling}
use btree_profiling.Node.{Geo, bval, getpos, getfill, key_eq, remove_pair}
use btree_profiling.Node.Slots.{IsGeo, pair, entries}
use btree_profiling.Node.Search.{
  IsNode, getpos-le-fill, getfill-fill, key_eq_absent, key_eq_empty, getpos_here, bval_unused,
}
use btree_profiling.Node.Remove.{remove_pair-remove_at, remove_pair-IsNode, remove_pair_behind}
use btree_profiling.Tree.{read_node, read_key, write_node, find_level, find_loop, cbtree_shrink}
use btree_profiling.Tree.Shape.{read_node-Holds}
use btree_profiling.Tree.Insert.Room.{SameOutside}
use btree_profiling.Tree.Insert.Walk.{HoldsKey, key_at, read_key-HoldsKey}
use btree_profiling.Tree.Lookup.Leaf.{IsLeaf}
use btree_profiling.Tree.Remove.{cbtree_remove, cbtree_remove_level}
use btree_profiling.Tree.Remove.Room.{removed}

module _ {geo : Geo} (g : IsGeo geo) {s : State} {p : Ptr} {fill : ℕ} (t : IsLeaf geo s (suc fill))
    (hk : HoldsKey geo s p) where
  found_leaf : find_level geo p 1 s ≡ ok s.head.node s
  unfolding find_level find_loop get_head bug_on
  found_leaf = ground (arith, t.height, t.root.ne_null)

  shrink_leaf :
      (f : ℕ) (w : Words)
      → cbtree_shrink f geo (set_words s s.head.node w) ≡ ok tt (set_words s s.head.node w)
  unfolding cbtree_shrink get_head set_words
  shrink_leaf f w = ground (arith, t.height)

  -- The run of a removal whose key compares equal at its place.
  remove_level_run :
      (f : ℕ) (w k : Words) (pos : ℕ)
      → read_node geo s.head.node s ≡ ok w s
      → read_key geo p s ≡ ok k s
      → getpos geo w k ≡ pos
      → getfill geo w pos ≡ suc fill
      → key_eq geo w pos k ≡ true
      → cbtree_remove_level (suc f) geo p 1 s
        ≡ ok (bval geo w pos) (set_words s s.head.node (remove_pair geo w pos (suc fill)))
  unfolding cbtree_remove_level get_head write_node
  remove_level_run f w k pos node key at full same =
      let h : ltb s.head.height 1 ≡ false = ground (arith, t.height) in
      let h' : ltb 1 s.head.height ≡ false = ground (arith, t.height) in
      rw (h, found_leaf, node, key, at, full, same, h')
        (ground (arith, shrink_leaf f (remove_pair geo w pos (suc fill))))

  remove_run :
      (f : ℕ)
      → key_eq geo (s.word s.head.node) (getpos geo (s.word s.head.node) (key_at s p)) (key_at s p)
        ≡ true
      → cbtree_remove (suc f) geo p s
        ≡ ok (bval geo (s.word s.head.node) (getpos geo (s.word s.head.node) (key_at s p))) (
            set_words s s.head.node (
              remove_pair geo
                (s.word s.head.node)
                (getpos geo (s.word s.head.node) (key_at s p))
                (suc fill)))
  unfolding cbtree_remove get_head
  remove_run f same =
      let w = s.word s.head.node in
      let k = key_at s p in
      let low = getpos-le-fill geo g w (suc fill) t.root.node k hk.words in
      let run =
        remove_level_run f w k (getpos geo w k) (read_node-Holds t.root) (read_key-HoldsKey hk) refl
          (getfill-fill geo g w (suc fill) t.root.node (getpos geo w k) low) same in
      ground (arith, t.height, run)

  remove_miss :
      (f : ℕ)
      → key_eq geo (s.word s.head.node) (getpos geo (s.word s.head.node) (key_at s p)) (key_at s p)
        ≡ false
      → cbtree_remove (suc f) geo p s ≡ ok null s
  unfolding cbtree_remove cbtree_remove_level get_head
  remove_miss f differs =
      let h : ltb s.head.height 1 ≡ false = ground (arith, t.height) in
      let h' : (s.head.height == 0) ≡ false = ground (arith, t.height) in
      rw (h', h, found_leaf, read_node-Holds t.root, read_key-HoldsKey hk, differs) refl

  -- In a tree of a single leaf, its entries in falling order, `cbtree_remove` of a key that the
  -- leaf holds returns the value of the key, takes its entry out and changes no other block, nor
  -- the head. The caller's key can be read, and there is one unit of fuel.
  pub cbtree_remove-leaf :
      (f : ℕ)
      → IsFalling (entries geo (s.word s.head.node) (suc fill))
      → has_key (value (key_at s p) geo.keylen) (entries geo (s.word s.head.node) (suc fill)) ≡ true
      → (v : ℕ) × (s' : State) × (cbtree_remove (suc f) geo p s ≡ ok v s')
        × (lookup (value (key_at s p) geo.keylen) (entries geo (s.word s.head.node) (suc fill))
            ≡ some v)
        × IsNode geo (s'.word s.head.node) fill
        × (entries geo (s'.word s.head.node) fill
            ≡ erase (value (key_at s p) geo.keylen) (entries geo (s.word s.head.node) (suc fill)))
        × SameOutside (s.head.node ∷ []) s s'
        × (s'.head ≡ s.head)
  unfolding set_words update pair
  cbtree_remove-leaf f falling there =
      let w = s.word s.head.node in
      let key = key_at s p in
      let pos = getpos geo w key in
      let (inside, equal, found_value, left_over, is) =
        removed g w fill t.root.node key hk.words falling there in
      let w' = remove_pair geo w pos (suc fill) in
      let s' : State = set_words s s.head.node w' in
      let here : s'.word s.head.node ≡ w' = ground arith in
      (
        bval geo w pos,
        s',
        remove_run f equal,
        found_value,
        rw here is,
        ap (λ u. entries geo u fill) here ∙ left_over,
        record { words = λ a o. ground arith; sizes = λ a. refl },
        refl,
      )

  -- In a tree of a single leaf that is not full, `cbtree_remove` of a key other than 0 that is
  -- not among its entries returns `NULL` and changes nothing. The key can be read, and there is
  -- one unit of fuel.
  pub cbtree_remove-absent :
      (f : ℕ)
      → value (key_at s p) geo.keylen ≢ 0
      → has_key (value (key_at s p) geo.keylen) (entries geo (s.word s.head.node) (suc fill))
        ≡ false
      → suc fill < geo.no_pairs
      → cbtree_remove (suc f) geo p s ≡ ok null s
  cbtree_remove-absent f ne absent room =
      let w = s.word s.head.node in
      let key = key_at s p in
      let pos = getpos geo w key in
      let low = getpos-le-fill geo g w (suc fill) t.root.node key hk.words in
      remove_miss f (elim (Bool-cases (ltb pos (suc fill))) [
        | inl inside ↦
            key_eq_absent geo g w (suc fill) t.root.node key hk.words absent (ground arith)
        | inr behind ↦
            key_eq_empty geo g w (suc fill) t.root.node key pos hk.words (ground arith)
              (omega arith)
            ∙ ground arith
      ])

  -- In a tree of a single leaf that is not full, `cbtree_remove` of the key 0, which is not among
  -- its entries, returns `NULL` and yet takes the last entry out.
  pub cbtree_remove-zero :
      (f : ℕ)
      → value (key_at s p) geo.keylen ≡ 0
      → has_key 0 (entries geo (s.word s.head.node) (suc fill)) ≡ false
      → suc fill < geo.no_pairs
      → (s' : State) × (cbtree_remove (suc f) geo p s ≡ ok null s')
        × (entries geo (s'.word s.head.node) fill
            ≡ remove_at fill (entries geo (s.word s.head.node) (suc fill)))
        × IsNode geo (s'.word s.head.node) fill
  unfolding set_words update pair
  cbtree_remove-zero f zero_key absent room =
      let w = s.word s.head.node in
      let key = key_at s p in
      let pos = getpos geo w key in
      let is = t.root.node in
      let low = getpos-le-fill geo g w (suc fill) is key hk.words in
      let behind : pos ≡ suc fill = elim (Bool-cases (ltb pos (suc fill))) [
        | inl inside ↦ absurd (
            ne_of_has_key 0 (pair geo w) (suc fill) pos absent (ground arith)
              (omega (arith, getpos_here geo g w key is.words hk.words (ground arith))))
        | inr o ↦ ground arith
      ] in
      let equal : key_eq geo w pos key ≡ true =
        key_eq_empty geo g w (suc fill) is key pos hk.words (omega arith) (omega arith)
        ∙ ground arith in
      let w' = remove_pair geo w pos (suc fill) in
      let s' : State = set_words s s.head.node w' in
      let here : s'.word s.head.node ≡ remove_pair geo w fill (suc fill) =
        ground (
          arith,
          ap (λ i. remove_pair geo w i (suc fill)) behind,
          remove_pair_behind geo g w fill,
        ) in
      (
        s',
        remove_run f equal
            ∙ ap (λ v. ok v s')
                (ap (bval geo w) behind
                  ∙ bval_unused geo g w (suc fill) is (suc fill) (omega arith) room),
        ap (λ u. entries geo u fill) here
            ∙ (remove_pair-remove_at geo g w fill fill (omega arith) is.within).0,
        rw here (remove_pair-IsNode geo g w fill fill is (omega arith)),
      )
