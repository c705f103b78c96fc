-- ===== src/Tree/Insert/Room.antt =====
-- `cbtree_insert` of cbtree_base.c when the leaf for the key has room: on a tree of any height it is
-- insertion into the entries.
use btree_profiling.Common.{
  ◌≤◌, subst, sym, ℕ, suc, ◌<◌, ◌≡◌, ◌≢◌, refl, ap, ◌∙◌, false, List, arith, insert_at,
}
use btree_profiling.Memory.{
  Addr, null, Head, Words, State, Run, ok, Env, Ptr, update, set_words, get_head, bug_on,
}
use btree_profiling.Words.Order.{value, IsWords}
use btree_profiling.Entries.{has_key, insert, insert_at-place}
use btree_profiling.Node.{Geo, getpos, getfill, insert_pair}
use btree_profiling.Node.Slots.{IsGeo, entries}
use btree_profiling.Node.Search.{IsNode, getpos-place, getpos-le-fill, getfill-fill, key_eq_absent}
use btree_profiling.Node.Insert.{insert_pair-insert_at, insert_pair-IsNode}
use btree_profiling.Tree.{success, read_node, write_node, find_level}
use btree_profiling.Tree.Shape.{has, IsCbtree, read_node-Holds}
use btree_profiling.Tree.Insert.{insert_here, cbtree_insert_level, insert_retry, cbtree_insert}
use btree_profiling.Tree.Prev.Walk.{ParentKeys}
use btree_profiling.Tree.Insert.Walk.{
  HoldsKey, key_at, read_key-HoldsKey, HoldsKey-frame, Walk, find_loop-Walk,
}

-- The words of the blocks outside `fp` are the same, and the sizes of all.
pub record SameOutside (fp : List Addr) (s s' : State) : Type 0 where
  pub words : (a : Addr) → has a fp ≡ false → s'.word a ≡ s.word a
  pub sizes : (a : Addr) → s'.size a ≡ s.size a

module _ {geo : Geo} (g : IsGeo geo) where
  -- A leaf with room after shift and insert.
  unfoldable pub leaf_words : Words → Words → ℕ → ℕ → Words
  leaf_words w k fill v = insert_pair geo w (getpos geo w k) fill k v

  pub leaf_insert :
      (w k : Words) (fill v : ℕ)
      → IsNode geo w fill
      → IsWords k geo.keylen
      → fill < geo.no_pairs
      → v ≢ 0
      → IsNode geo (leaf_words w k fill v) (suc fill)
        × (entries geo (leaf_words w k fill v) (suc fill)
            ≡ insert (value k geo.keylen) v (entries geo w fill))
  unfolding leaf_words
  leaf_insert w k fill v is wk room ne =
      let pos = getpos geo w k in
      let low = getpos-le-fill geo g w fill is k wk in
      (
        insert_pair-IsNode geo g w pos fill k v is wk low room ne,
        insert_pair-insert_at geo g w pos fill k v low room
            ∙ ap (λ i. insert_at i (value k geo.keylen, v) (entries geo w fill))
                (getpos-place geo g w fill is k wk)
            ∙ insert_at-place (value k geo.keylen) v (entries geo w fill),
      )

  pub retry_room :
      (f : ℕ) (env : Env) (p : Ptr) (v level : ℕ) (s : State) {s1 : State} {b : Addr} {fill : ℕ}
      → find_level geo p level s ≡ ok b s1
      → read_node geo b s1 ≡ ok (s1.word b) s1
      → IsNode geo (s1.word b) fill
      → HoldsKey geo s1 p
      → has_key (value (key_at s1 p) geo.keylen) (entries geo (s1.word b) fill) ≡ false
      → fill < geo.no_pairs
      → insert_retry (suc f) env geo p v level s
        ≡ ok success (set_words s1 b (leaf_words (s1.word b) (key_at s1 p) fill v))
  unfolding insert_retry insert_here write_node bug_on leaf_words
  retry_room f env p v level s {s1} {b} {fill} run read is hk absent room =
      let w = s1.word b in
      let k = key_at s1 p in
      let low = getpos-le-fill geo g w fill is k hk.words in
      let full = getfill-fill geo g w fill is (getpos geo w k) low in
      let fresh = key_eq_absent geo g w fill is k hk.words absent in
      ground (arith, run, read, read_key-HoldsKey hk, full, fresh)

-- The used slots of the node that a run of `find_level` returns.
abbrev pub leaf_fill : Geo → Run Addr → ℕ
leaf_fill geo (ok b s) = getfill geo (s.word b) 0
leaf_fill geo _ = 0

module _ {geo : Geo} (g : IsGeo geo) {s : State} {d : ℕ} {es : List (ℕ × ℕ)} {fp : List Addr} where
  find_level-Walk :
      (t : IsCbtree geo s d es fp) (p : Ptr) (k v : ℕ) (r : Walk geo s p d s.head.node es fp k v)
      → find_level geo p 1 s ≡ ok r.b r.s1
  unfolding find_level get_head bug_on
  find_level-Walk t p k v r = ground (arith, t.height, r.run, r.holds.ne_null)

  -- The same from the label `retry` on.
  pub insert_retry-ParentKeys :
      (f : ℕ) (env : Env) (p : Ptr) (v : ℕ)
      → IsCbtree geo s d es fp
      → HoldsKey geo s p
      → has p.block fp ≡ false
      → has_key (value (key_at s p) geo.keylen) es ≡ false
      → v ≢ null
      → leaf_fill geo (find_level geo p 1 s) < geo.no_pairs
      → (s' : State) × (insert_retry (suc f) env geo p v 1 s ≡ ok success s')
        × IsCbtree geo s' d (insert (value (key_at s p) geo.keylen) v es) fp
        × SameOutside fp s s'
        × ((bound : ℕ)
            → bound ≤ value (key_at s p) geo.keylen
            → ParentKeys geo s bound d s.head.node
            → ParentKeys geo s' bound d s'.head.node)
  unfolding set_words update
  insert_retry-ParentKeys f env p v t hk out absent ne room =
      let k = value (key_at s p) geo.keylen in
      let r = find_loop-Walk g p k v d t.tree hk refl out in
      let found = find_level-Walk t p k v r in
      let key_kept : r.s1.word p.block ≡ s.word p.block = r.same p.block out in
      let hk1 = HoldsKey-frame r.s1 hk key_kept (r.sizes p.block) in
      let ke : value (key_at r.s1 p) geo.keylen ≡ k = rw (key_at, key_kept) refl in
      let has_room : r.fill < geo.no_pairs = omega (
        arith,
        getfill-fill geo g (r.s1.word r.b) r.fill r.holds.node 0 (omega arith),
        ap (leaf_fill geo) found,
      ) in
      let (is, es') =
        leaf_insert g (r.s1.word r.b) (key_at r.s1 p) r.fill v r.holds.node hk1.words has_room ne in
      let run =
        retry_room g f env p v 1 s found (read_node-Holds r.holds) r.holds.node hk1
          (rw ke (r.absent absent)) has_room in
      let s2 = set_words r.s1 r.b (leaf_words g (r.s1.word r.b) (key_at r.s1 p) r.fill v) in
      (
        set_words r.s1 r.b (leaf_words g (r.s1.word r.b) (key_at r.s1 p) r.fill v),
        run,
        record {
          height = ap (λ (h : Head). h.height) r.head ∙ t.height;
          tree = rw (ap (λ (h : Head). h.node) r.head) (
              r.plug _ (suc r.fill) is (omega arith)
                (es' ∙ ap (λ j. insert j v (entries geo (r.s1.word r.b) r.fill)) ke));
        },
        record { words = λ a o. ground (arith, r.same a o, r.inside); sizes = r.sizes },
        λ bound le keys.
            subst (ParentKeys geo s2 bound d) (sym (ap (λ (h : Head). h.node) r.head))
              (r.keys (leaf_words g (r.s1.word r.b) (key_at r.s1 p) r.fill v) bound le keys),
      )

  pub insert_retry-room :
      (f : ℕ) (env : Env) (p : Ptr) (v : ℕ)
      → IsCbtree geo s d es fp
      → HoldsKey geo s p
      → has p.block fp ≡ false
      → has_key (value (key_at s p) geo.keylen) es ≡ false
      → v ≢ null
      → leaf_fill geo (find_level geo p 1 s) < geo.no_pairs
      → (s' : State) × (insert_retry (suc f) env geo p v 1 s ≡ ok success s')
        × IsCbtree geo s' d (insert (value (key_at s p) geo.keylen) v es) fp
        × SameOutside fp s s'
  insert_retry-room f env p v t hk out absent ne room =
      let (s', run, t', same, keys) = insert_retry-ParentKeys f env p v t hk out absent ne room in
      (s', run, t', same)

  -- What an insertion does, and that it keeps the bounds on the parent keys.
  pub cbtree_insert-ParentKeys :
      (f : ℕ) (env : Env) (p : Ptr) (v : ℕ)
      → IsCbtree geo s d es fp
      → HoldsKey geo s p
      → has p.block fp ≡ false
      → has_key (value (key_at s p) geo.keylen) es ≡ false
      → v ≢ null
      → leaf_fill geo (find_level geo p 1 s) < geo.no_pairs
      → (s' : State) × (cbtree_insert (suc (suc f)) env geo p v s ≡ ok success s')
        × IsCbtree geo s' d (insert (value (key_at s p) geo.keylen) v es) fp
        × SameOutside fp s s'
        × ((bound : ℕ)
            → bound ≤ value (key_at s p) geo.keylen
            → ParentKeys geo s bound d s.head.node
            → ParentKeys geo s' bound d s'.head.node)
  unfolding cbtree_insert cbtree_insert_level bug_on get_head
  cbtree_insert-ParentKeys f env p v t hk out absent ne room =
      let (s', run, t', same, keys) = insert_retry-ParentKeys f env p v t hk out absent ne room in
      (s', ground (arith, run, t.height), t', same, keys)

  -- `cbtree_insert` of a new key into a tree of any height, where the leaf that `find_level`
  -- reaches has room, is insertion into the tree's entries. It succeeds, the tree has the same
  -- nodes and height, and no other block changes. The geometry's keys fill their words, the
  -- caller's key lies outside the tree, the value is not `NULL`, and there are two units of fuel.
  pub cbtree_insert-room :
      (f : ℕ) (env : Env) (p : Ptr) (v : ℕ)
      → IsCbtree geo s d es fp
      → HoldsKey geo s p
      → has p.block fp ≡ false
      → has_key (value (key_at s p) geo.keylen) es ≡ false
      → v ≢ null
      → leaf_fill geo (find_level geo p 1 s) < geo.no_pairs
      → (s' : State) × (cbtree_insert (suc (suc f)) env geo p v s ≡ ok success s')
        × IsCbtree geo s' d (insert (value (key_at s p) geo.keylen) v es) fp
        × SameOutside fp s s'
  cbtree_insert-room f env p v t hk out absent ne room =
      let (s', run, t', same, keys) = cbtree_insert-ParentKeys f env p v t hk out absent ne room in
      (s', run, t', same)
