-- ===== src/Tree/Roundtrip.antt =====
-- The operations of cbtree_base.c after one another, on a tree of one leaf.
use btree_profiling.Common.{
  ℕ, zero, suc, ◌+◌, ◌<◌, ◌≡◌, ◌≢◌, refl, ap, sym, ◌∙◌, true, false, List, [], ◌∷◌, arith, some,
  none, subst, if◌then◌else◌, length, length-tabulate,
}
use btree_profiling.Memory.{Addr, null, Words, Head, State, ok, Env, Ptr}
use btree_profiling.Words.Order.{value}
use btree_profiling.Entries.{
  has_key, insert, erase, lookup, IsFalling, insert-IsFalling, has_key-insert, erase-insert,
  lookup-insert, has_key-erase, length-erase,
}
use btree_profiling.Node.{Geo}
use btree_profiling.Node.Slots.{IsGeo, entries, pair}
use btree_profiling.Node.Search.{IsNode}
use btree_profiling.Tree.{success, find_level}
use btree_profiling.Tree.Shape.{has, Holds, IsTree, IsCbtree, leaf}
use btree_profiling.Tree.Lookup.{cbtree_lookup}
use btree_profiling.Tree.Lookup.Leaf.{cbtree_lookup-leaf}
use btree_profiling.Tree.Insert.{cbtree_insert}
use btree_profiling.Tree.Insert.Walk.{HoldsKey, key_at, HoldsKey-frame}
use btree_profiling.Tree.Insert.Room.{SameOutside, leaf_fill, cbtree_insert-room}
use btree_profiling.Tree.Remove.{cbtree_remove}
use btree_profiling.Tree.Remove.Leaf.{cbtree_remove-leaf}

same_some : {x y : ℕ} → some x ≡ some y → x ≡ y
same_some e = ap (λ o. elim o [ some x ↦ x | none ↦ 0 ]) e

module _ {geo : Geo} {s : State} where
  -- A tree without inner nodes is a leaf.
  tree_leaf :
      {a : Addr} {es : List (ℕ × ℕ)} {fp : List Addr}
      → IsTree geo s 0 a es fp
      → (n : ℕ) × Holds geo s a (suc n) × (es ≡ entries geo (s.word a) (suc n)) × (fp ≡ a ∷ [])
  tree_leaf (leaf {fill = zero} h) = absurd (omega (arith, h.some_pair))
  tree_leaf (leaf {fill = suc n} h) = (n, h, refl, refl)

  some_entry :
      {a : Addr} {es : List (ℕ × ℕ)} {fp : List Addr} → IsTree geo s 0 a es fp → 0 < length es
  some_entry t =
      let (n, holds, e, nodes) = tree_leaf t in subst (λ l. 0 < length l) (sym e) (omega arith)

  -- A state whose leaf holds the entries of a tree of the same nodes.
  leaf_tree :
      {a : Addr} {n m : ℕ} {es : List (ℕ × ℕ)} {s' : State}
      → s.head.height ≡ 1
      → s.head.node ≡ a
      → s'.head ≡ s.head
      → Holds geo s a (suc n)
      → (s'.size a ≡ s.size a)
      → IsNode geo (s'.word a) m
      → entries geo (s'.word a) m ≡ es
      → 0 < length es
      → IsCbtree geo s' 0 es (a ∷ [])
  leaf_tree {a} {n} {m} {es} {s'} height at same h size is entries_are some_entry = record {
    height = ap (λ (h : Head). h.height) same ∙ height;
    tree =
        subst (λ b. IsTree geo s' 0 b es (a ∷ [])) (sym (ap (λ (h : Head). h.node) same ∙ at))
          (subst (λ l. IsTree geo s' 0 a l (a ∷ [])) entries_are
            (leaf (record {
              ne_null = h.ne_null;
              live = omega (arith, h.live, size);
              node = is;
              some_pair = omega (
                arith,
                some_entry,
                ap length entries_are,
                length-tabulate (pair geo (s'.word a)) m,
              );
            })));
  }

module _ {geo : Geo} (g : IsGeo geo) {s : State} {es : List (ℕ × ℕ)} {fp : List Addr} where
  -- Removal from a leaf that keeps an entry.
  remove_one :
      (f : ℕ) (p : Ptr)
      → IsCbtree geo s 0 es fp
      → IsFalling es
      → HoldsKey geo s p
      → has_key (value (key_at s p) geo.keylen) es ≡ true
      → 0 < length (erase (value (key_at s p) geo.keylen) es)
      → (v : ℕ) × (s' : State) × (cbtree_remove (suc f) geo p s ≡ ok v s')
        × (lookup (value (key_at s p) geo.keylen) es ≡ some v)
        × IsCbtree geo s' 0 (erase (value (key_at s p) geo.keylen) es) fp
        × SameOutside fp s s'
  remove_one f p t falling hk there left =
      let k = value (key_at s p) geo.keylen in
      let (n, holds, e, nodes) = tree_leaf t.tree in
      let (v, s', run, found, is, e', same, head) =
        cbtree_remove-leaf g {fill = n} (record { height = t.height; root = holds }) hk f
          (subst IsFalling e falling) (subst (λ l. has_key k l ≡ true) e there) in
      (
        v,
        s',
        run,
        subst (λ l. lookup k l ≡ some v) (sym e) found,
        subst (IsCbtree geo s' 0 (erase k es)) (sym nodes) (
            leaf_tree t.height refl head holds (same.sizes s.head.node) is
              (e' ∙ ap (erase k) (sym e)) left),
        subst (λ l. SameOutside l s s') (sym nodes) same,
      )

  lookup_one :
      (fuel : ℕ) (p : Ptr)
      → IsCbtree geo s 0 es fp
      → HoldsKey geo s p
      → value (key_at s p) geo.keylen ≢ 0
      → cbtree_lookup fuel geo p s
        ≡ ok (if has_key (value (key_at s p) geo.keylen) es then s.head.node else null) s
  lookup_one fuel p t hk ne =
      let (n, holds, e, nodes) = tree_leaf t.tree in
      cbtree_lookup-leaf g (record { height = t.height; root = holds }) hk fuel ne
      ∙ ap (λ l. ok (if has_key (value (key_at s p) geo.keylen) l then s.head.node else null) s)
          (sym e)

offset_words : ℕ → Words → Words
offset_words n w i = w (n + i)

module _ {geo : Geo} {s : State} {fp : List Addr} (p : Ptr) (hk : HoldsKey geo s p)
    (out : has p.block fp ≡ false) where
  -- What another state with the same blocks outside the tree holds at the caller's pointer.
  same_key : (s' : State) → SameOutside fp s s' → HoldsKey geo s' p × (key_at s' p ≡ key_at s p)
  unfolding offset_words
  same_key s' same =
      let kept = same.words p.block out in
      (HoldsKey-frame s' hk kept (same.sizes p.block), ap (offset_words p.offset) kept)

module _ {geo : Geo} (g : IsGeo geo) {s : State} {es : List (ℕ × ℕ)} {fp : List Addr} (p : Ptr)
    (hk : HoldsKey geo s p) (out : has p.block fp ≡ false) where
  -- In a tree of a single leaf with room, its entries in falling order, removing a new key just
  -- after its insertion returns the value that was inserted and restores the tree: its entries
  -- are what they were, and no block outside it changes. The geometry's keys fill their words,
  -- the caller's key can be read and lies outside the tree, and the value is not `NULL`.
  pub cbtree_remove-cbtree_insert :
      (f : ℕ) (env : Env) (v : ℕ)
      → IsCbtree geo s 0 es fp
      → IsFalling es
      → has_key (value (key_at s p) geo.keylen) es ≡ false
      → v ≢ null
      → leaf_fill geo (find_level geo p 1 s) < geo.no_pairs
      → (s1 : State) × (s2 : State) × (cbtree_insert (suc (suc f)) env geo p v s ≡ ok success s1)
        × (cbtree_remove (suc f) geo p s1 ≡ ok v s2)
        × IsCbtree geo s2 0 es fp
        × SameOutside fp s s2
  cbtree_remove-cbtree_insert f env v t falling absent ne room =
      let k = value (key_at s p) geo.keylen in
      let (s1, run1, t1, same1) = cbtree_insert-room g f env p v t hk out absent ne room in
      let (hk1, key_kept) = same_key p hk out s1 same1 in
      let k1 = value (key_at s1 p) geo.keylen in
      let ke : k1 ≡ k = ap (λ w. value w geo.keylen) key_kept in
      let gone : erase k1 (insert k v es) ≡ es =
        ap (λ j. erase j (insert k v es)) ke ∙ erase-insert k v es absent in
      let (v', s2, run2, found, t2, same2) =
        remove_one g f p t1 (insert-IsFalling k v es falling absent) hk1
          (subst (λ j. has_key j (insert k v es) ≡ true) (sym ke) (has_key-insert k v es))
          (subst (λ l. 0 < length l) (sym gone) (some_entry t.tree)) in
      let same_value : v' ≡ v = same_some (
        sym found
        ∙ ap (λ j. lookup j (insert k v es)) ke
        ∙ lookup-insert k k v es absent
        ∙ ground arith) in
      (
        s1,
        s2,
        run1,
        subst (λ u. cbtree_remove (suc f) geo p s1 ≡ ok u s2) same_value run2,
        subst (λ l. IsCbtree geo s2 0 l fp) gone t2,
        record {
          words = λ a o. same2.words a o ∙ same1.words a o;
          sizes = λ a. same2.sizes a ∙ same1.sizes a;
        },
      )

  -- In a tree of a single leaf with room a key other than 0 that is not among the entries is not
  -- found before `cbtree_insert` and is found in the root after it. The geometry's keys fill
  -- their words, the caller's key can be read and lies outside the tree, and the value is not
  -- `NULL`.
  pub cbtree_lookup-cbtree_insert :
      (fuel f : ℕ) (env : Env) (v : ℕ)
      → IsCbtree geo s 0 es fp
      → value (key_at s p) geo.keylen ≢ 0
      → has_key (value (key_at s p) geo.keylen) es ≡ false
      → v ≢ null
      → leaf_fill geo (find_level geo p 1 s) < geo.no_pairs
      → (cbtree_lookup fuel geo p s ≡ ok null s)
        × ((s' : State) × (cbtree_insert (suc (suc f)) env geo p v s ≡ ok success s')
            × (cbtree_lookup fuel geo p s' ≡ ok s'.head.node s'))
  cbtree_lookup-cbtree_insert fuel f env v t positive absent ne room =
      let k = value (key_at s p) geo.keylen in
      let (s', run, t', same) = cbtree_insert-room g f env p v t hk out absent ne room in
      let (hk', key_kept) = same_key p hk out s' same in
      let ke : value (key_at s' p) geo.keylen ≡ k = ap (λ w. value w geo.keylen) key_kept in
      let there : has_key (value (key_at s' p) geo.keylen) (insert k v es) ≡ true =
        ap (λ j. has_key j (insert k v es)) ke ∙ has_key-insert k v es in
      (
        lookup_one g fuel p t hk positive ∙ ap (λ b. ok (if b then s.head.node else null) s) absent,
        (
          s',
          run,
          lookup_one g fuel p t' hk' (subst (λ j. j ≢ 0) (sym ke) positive)
              ∙ ap (λ b. ok (if b then s'.head.node else null) s') there,
        ),
      )

  -- In a tree of a single leaf of two or more entries in falling order, a key other than 0 that
  -- is among them is found before `cbtree_remove` and is not found after it. The geometry's keys
  -- fill their words, and the caller's key can be read and lies outside the tree.
  pub cbtree_lookup-cbtree_remove :
      (fuel f : ℕ)
      → IsCbtree geo s 0 es fp
      → IsFalling es
      → value (key_at s p) geo.keylen ≢ 0
      → has_key (value (key_at s p) geo.keylen) es ≡ true
      → 1 < length es
      → (cbtree_lookup fuel geo p s ≡ ok s.head.node s)
        × ((v : ℕ) × (s' : State) × (cbtree_remove (suc f) geo p s ≡ ok v s')
            × (cbtree_lookup fuel geo p s' ≡ ok null s'))
  cbtree_lookup-cbtree_remove fuel f t falling positive there two =
      let k = value (key_at s p) geo.keylen in
      let (v, s', run, found, t', same) =
        remove_one g f p t falling hk there (omega (arith, two, length-erase k es there)) in
      let (hk', key_kept) = same_key p hk out s' same in
      let ke : value (key_at s' p) geo.keylen ≡ k = ap (λ w. value w geo.keylen) key_kept in
      let gone : has_key (value (key_at s' p) geo.keylen) (erase k es) ≡ false =
        ap (λ j. has_key j (erase k es)) ke ∙ has_key-erase k es falling in
      (
        lookup_one g fuel p t hk positive ∙ ap (λ b. ok (if b then s.head.node else null) s) there,
        (
          v,
          s',
          run,
          lookup_one g fuel p t' hk' (subst (λ j. j ≢ 0) (sym ke) positive)
              ∙ ap (λ b. ok (if b then s'.head.node else null) s') gone,
        ),
      )
