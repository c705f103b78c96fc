-- ===== src/Tree/Lookup/Update.antt =====
-- `cbtree_update` of cbtree_base.c on a tree of one leaf.
use btree_profiling.Common.{
  ℕ, ◌<◌, ◌≡◌, ◌≢◌, refl, ap, ◌∙◌, true, false, arith, ◌==◌, if◌then◌else◌, [], ◌∷◌,
}
use btree_profiling.Memory.{null, Words, State, ok, Ptr, get_head, update, set_words}
use btree_profiling.Words.Order.{value, IsWords}
use btree_profiling.Entries.{has_key, update_value, update_value-tabulate}
use btree_profiling.Node.{Geo, setval, findkey}
use btree_profiling.Node.Slots.{IsGeo, key_num, pair, entries, key_num-setval, bval-setval}
use btree_profiling.Node.Insert.{setval-IsWords}
use btree_profiling.Node.Search.{IsNode, findkey-has_key, findkey-find_key}
use btree_profiling.Tree.{success, enoent, write_node}
use btree_profiling.Tree.Shape.{read_node-Holds}
use btree_profiling.Tree.Insert.Walk.{HoldsKey, key_at, read_key-HoldsKey}
use btree_profiling.Tree.Insert.Room.{SameOutside}
use btree_profiling.Tree.Lookup.{cbtree_update, cbtree_lookup_node, scan_leaf}
use btree_profiling.Tree.Lookup.Leaf.{IsLeaf}

module _ {geo : Geo} (g : IsGeo geo) (node : Words) (fill : ℕ) (is : IsNode geo node fill) where
  -- A value written to the slot of a key.
  pair-setval :
      (n v m : ℕ)
      → n < geo.no_pairs
      → m < geo.no_pairs
      → pair geo (setval geo node n v) m
        ≡ (if m == n then (key_num geo node m, v) else pair geo node m)
  unfolding pair
  pair-setval n v m p q =
      ground (arith, key_num-setval geo g node n v m q, bval-setval geo node n v m)

  setval-update :
      (key : Words) (v : ℕ)
      → IsWords key geo.keylen
      → has_key (value key geo.keylen) (entries geo node fill) ≡ true
      → entries geo (setval geo node (findkey geo node key) v) fill
        ≡ update_value (value key geo.keylen) v (entries geo node fill)
  unfolding pair
  setval-update key v wk there =
      let (e, low) = findkey-find_key geo g node fill is key wk there in
      let n = findkey geo node key in
      update_value-tabulate (value key geo.keylen) v (pair geo node)
        (pair geo (setval geo node n v)) fill
        λ i q.
          pair-setval n v i (omega (arith, low, is.within)) (omega (arith, is.within))
          ∙ ap (λ (j : ℕ). if i == j then (key_num geo node i, v) else pair geo node i) e

  setval-IsNode : (n v : ℕ) → n < fill → v ≢ 0 → IsNode geo (setval geo node n v) fill
  unfolding pair
  setval-IsNode n v p ne = record {
    words = setval-IsWords geo g node n v is.words;
    within = is.within;
    used = λ i q. ground (arith, bval-setval geo node n v i, is.used i);
    unused = λ i q r. ground (arith, pair-setval n v i, is.unused i, is.within);
  }

module _ {geo : Geo} (g : IsGeo geo) {s : State} {p : Ptr} {fill : ℕ} (t : IsLeaf geo s fill)
    (hk : HoldsKey geo s p) where
  -- In a tree of a single leaf `cbtree_update` of a key other than 0 that the leaf holds
  -- succeeds, gives the entry of the key its new value, which is not `NULL`, and changes no other
  -- block. The geometry's keys fill their words, and the key can be read.
  pub cbtree_update-update_value :
      (fuel v : ℕ)
      → value (key_at s p) geo.keylen ≢ 0
      → has_key (value (key_at s p) geo.keylen) (entries geo (s.word s.head.node) fill) ≡ true
      → v ≢ null
      → (s' : State) × (cbtree_update fuel geo p v s ≡ ok success s')
        × IsLeaf geo s' fill
        × (entries geo (s'.word s'.head.node) fill
            ≡ update_value
                (value (key_at s p) geo.keylen)
                v
                (entries geo (s.word s.head.node) fill))
        × SameOutside (s.head.node ∷ []) s s'
  unfolding cbtree_update cbtree_lookup_node scan_leaf get_head write_node set_words update
  cbtree_update-update_value fuel v positive there ne =
      let w = s.word s.head.node in
      let key = key_at s p in
      let (e, low) = findkey-find_key geo g w fill t.root.node key hk.words there in
      let w' = setval geo w (findkey geo w key) v in
      let s' : State = set_words s s.head.node w' in
      let here : s'.word s.head.node ≡ w' = ground arith in
      (
        s',
        ground (
          arith,
          t.height,
          read_node-Holds t.root,
          read_key-HoldsKey hk,
          low,
          t.root.node.within,
          t.root.ne_null,
        ),
        record {
          height = t.height;
          root = record {
            ne_null = t.root.ne_null;
            live = t.root.live;
            node = rw here (setval-IsNode g w fill t.root.node (findkey geo w key) v low ne);
            some_pair = t.root.some_pair;
          };
        },
        ap (λ u. entries geo u fill) here ∙ setval-update g w fill t.root.node key v hk.words there,
        record { words = λ a o. ground arith; sizes = λ a. refl },
      )

  -- In a tree of a single leaf `cbtree_update` of a key other than 0 that is not among its
  -- entries returns `ENOENT` and changes nothing. The geometry's keys fill their words, and the
  -- key can be read.
  pub cbtree_update-absent :
      (fuel v : ℕ)
      → value (key_at s p) geo.keylen ≢ 0
      → has_key (value (key_at s p) geo.keylen) (entries geo (s.word s.head.node) fill) ≡ false
      → cbtree_update fuel geo p v s ≡ ok enoent s
  unfolding cbtree_update cbtree_lookup_node scan_leaf get_head
  cbtree_update-absent fuel v positive absent = ground (
    arith,
    t.height,
    read_node-Holds t.root,
    read_key-HoldsKey hk,
    findkey-has_key geo g (s.word s.head.node) fill t.root.node (key_at s p) hk.words positive,
  )
