-- ===== src/Tree/Prev/Before.antt =====
-- `cbtree_get_prev` of cbtree_base.c on a tree of any height: the walks and the retries between them.
use btree_profiling.Common.{
  ℕ, zero, suc, ◌+◌, ◌≤◌, ◌<◌, ◌≡◌, refl, sym, ap, ◌∙◌, arith, ltb, ◌==◌, List, Option, some, none,
  Bool-cases, inl, inr,
}
use btree_profiling.Memory.{Addr, null, Words, State, ok, Ptr, get_head}
use btree_profiling.Words.{dec_key}
use btree_profiling.Words.Order.{value, IsWords, keyzero-value}
use btree_profiling.Words.Decrement.{dec_key-value, dec_key-IsWords}
use btree_profiling.Entries.{before, before-zero}
use btree_profiling.Node.{Geo, getpos}
use btree_profiling.Node.Slots.{IsGeo, key_num, entries}
use btree_profiling.Node.Search.{getpos_above, getpos_here, getpos-le-fill}
use btree_profiling.Tree.Shape.{Holds, IsTree, leaf, inner}
use btree_profiling.Tree.Insert.Walk.{HoldsKey, key_at, read_key-HoldsKey}
use btree_profiling.Tree.Prev.{cbtree_get_prev, prev_retry, prev_walk, prev_in_leaf}
use btree_profiling.Tree.Prev.Frame.{IsKeyed}
use btree_profiling.Tree.Prev.Leaf.{as_entry, prev_in_leaf-before}
use btree_profiling.Tree.Prev.Walk.{
  ParentKeys, forest_none, forest-Child, Walked, found, missed, again, walk_stops, null_leaf,
}
use btree_profiling.Tree.Prev.Climb.{lift}

module _ {geo : Geo} (g : IsGeo geo) {s : State} where
  leaf_walk :
      {a : Addr} {fill : ℕ} (b : ℕ) (lower : Words)
      → Holds geo s a fill
      → IsWords lower geo.keylen
      → Walked geo s zero a (entries geo (s.word a) fill) b 0 lower
  unfolding prev_walk
  leaf_walk {a} {fill} b lower h wl =
      let (r, run, same) = prev_in_leaf-before g h lower wl in of_result r run same
    where
      of_result :
          (r : Option (ℕ × Words))
          → prev_in_leaf geo a lower s ≡ ok r s
          → as_entry geo r ≡ before (value lower geo.keylen + 1) (entries geo (s.word a) fill)
          → Walked geo s zero a (entries geo (s.word a) fill) b 0 lower
      of_result none run same = missed (sym same) (λ rk. (a, refl, run))
      of_result (some e) run same = found e (sym same) (λ rk. (a, rk, refl, run))

  -- A walk comes to what `Walked` says.
  pub tree_walk :
      (d b : ℕ) {a : Addr} {es : List (ℕ × ℕ)} {fp : List Addr}
      → IsTree geo s d a es fp
      → ParentKeys geo s b d a
      → (lower : Words) → IsWords lower geo.keylen
      → Walked geo s d a es b 0 lower
  tree_walk zero b (leaf h) keys lower wl = leaf_walk b lower h wl
  tree_walk (suc d) b (inner {a} {fill} h out f) keys lower wl =
      let w = s.word a in
      let l = value lower geo.keylen in
      let i = getpos geo w lower in
      let front : (j : ℕ) → j < i → l < key_num geo w j =
        λ j q. getpos_above geo g w lower j h.node.words wl q in
      elim (Bool-cases (ltb i fill)) [
        | inl inside ↦
            let room : i < geo.no_pairs = ground (arith, inside, h.node.within) in
            let used = h.node.used i (ground (arith, inside)) in
            let ch =
              forest-Child l i fill f (omega arith) (omega arith) (ground (arith, inside)) front in
            let (bound, below) = keys i room used in
            lift g h ch (ground (arith, inside)) bound front (omega arith) lower wl (omega arith)
              (getpos_here geo g w lower h.node.words wl room)
              (tree_walk d (key_num geo w i) ch.tree below lower wl)
        | inr behind ↦
            let at : i ≡ fill =
              ground (arith, behind, getpos-le-fill geo g w fill h.node lower wl) in
            missed (forest_none l f (λ j q. front j (omega arith)))
              (λ rk. (null, walk_stops g d lower rk h at, null_leaf g lower))
      ]

  retry_run :
      {d b : ℕ} {es : List (ℕ × ℕ)}
      → s.head.height ≡ suc d
      → 0 < b
      → (key : Words) {m : ℕ} → value (dec_key geo.keylen key) geo.keylen + 1 ≡ value key geo.keylen
      → Walked geo s d s.head.node es b m (dec_key geo.keylen key)
      → m ≤ d
      → (f : ℕ) → d < m + f
      → (r : Option (ℕ × Words)) × (prev_retry f geo key s ≡ ok r s)
        × (as_entry geo r ≡ before (value key geo.keylen) es)
  unfolding prev_retry get_head
  retry_run high pos key one w small zero fuel = absurd (omega arith)
  retry_run {es} high pos key one (found e same run) small (suc f) fuel =
      let (n, rk, down, scan) = run none in
      (some e, ground (arith, high, down, scan), sym same ∙ ap (λ j. before j es) one)
  retry_run {es} high pos key one (missed same run) small (suc f) fuel =
      let (n, down, scan) = run none in
      (none, ground (arith, high, down, scan), sym same ∙ ap (λ j. before j es) one)
  retry_run {d} {es} high pos key one (again h k more within wk kb kl same run next) small (suc f)
        fuel =
      let (n, down, scan) = run none in
      let one' = dec_key-value geo.keylen k wk (omega arith) in
      let (r, again_run, e) =
        retry_run high pos k one'
          (next (dec_key geo.keylen k) (dec_key-IsWords geo.keylen geo.keylen k wk) one') within f
          (omega arith) in
      (r, ground (arith, high, down, scan, again_run), e ∙ sym same ∙ ap (λ j. before j es) one)

module _ {geo : Geo} (g : IsGeo geo) {s : State} {p : Ptr} where
  -- On a tree of any height, its parent keys above 0 and none of them below that of its own
  -- parent, `cbtree_get_prev` returns the first entry whose key is below the caller's, with its
  -- key, or `NULL` if there is none, and changes nothing. It walks down at most as often as the
  -- tree is high. The geometry's keys fill their words, and the key can be read.
  pub cbtree_get_prev-before :
      {d : ℕ} {es : List (ℕ × ℕ)} {fp : List Addr}
      → IsKeyed geo s 1 d es fp
      → HoldsKey geo s p
      → (f : ℕ) → d < f
      → (r : Option (ℕ × Words)) × (cbtree_get_prev f geo p s ≡ ok r s)
        × (as_entry geo r ≡ before (value (key_at s p) geo.keylen) es)
  unfolding cbtree_get_prev get_head
  cbtree_get_prev-before {d} {es} t hk f fuel =
      let key = key_at s p in
      let k = value key geo.keylen in
      let zero_test = keyzero-value geo.keylen key in
      elim (Bool-cases (k == 0)) [
        | inl e ↦ (
          none,
          ground (arith, read_key-HoldsKey hk, zero_test, e),
          sym (ap (λ j. before j es) (ground (arith, e)) ∙ before-zero es),
        )
        | inr e ↦
            let one = dec_key-value geo.keylen key hk.words (ground (arith, e)) in
            let words = dec_key-IsWords geo.keylen geo.keylen key hk.words in
            let w = tree_walk g d 1 t.shape.tree t.keys (dec_key geo.keylen key) words in
            let (r, run, same) =
              retry_run g t.shape.height (omega arith) key one w (omega arith) f (omega arith) in
            (r, ground (arith, read_key-HoldsKey hk, zero_test, e, t.shape.height, run), same)
      ]
