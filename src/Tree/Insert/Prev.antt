-- ===== src/Tree/Insert/Prev.antt =====
-- `cbtree_insert` and then `cbtree_get_prev` of cbtree_base.c with the same key.
use btree_profiling.Common.{
  ℕ, suc, ◌+◌, ◌<◌, ◌≡◌, ◌≢◌, ap, ◌∙◌, false, arith, List, [], ◌∷◌, Option,
}
use btree_profiling.Memory.{Addr, null, Words, State, ok, Env, Ptr}
use btree_profiling.Words.Order.{value}
use btree_profiling.Entries.{has_key, insert, before}
use btree_profiling.Node.{Geo}
use btree_profiling.Node.Slots.{IsGeo}
use btree_profiling.Tree.{success, find_level}
use btree_profiling.Tree.Shape.{has}
use btree_profiling.Tree.Insert.{cbtree_insert}
use btree_profiling.Tree.Insert.Room.{leaf_fill, cbtree_insert-ParentKeys}
use btree_profiling.Tree.Insert.Walk.{HoldsKey, HoldsKey-frame, key_at}
use btree_profiling.Tree.Prev.{cbtree_get_prev}
use btree_profiling.Tree.Prev.Leaf.{as_entry}
use btree_profiling.Tree.Prev.Frame.{IsKeyed}
use btree_profiling.Tree.Prev.Before.{cbtree_get_prev-before}

-- A key itself is not below it.
before-insert : (k v : ℕ) (es : List (ℕ × ℕ)) → before k (insert k v es) ≡ before k es
before-insert k v [] = ground arith
before-insert k v ((k', v') ∷ es) = ground (arith, before-insert k v es)

-- On a tree of any height, its parent keys above 0 and none of them below that of its own parent,
-- `cbtree_insert` of a new key other than 0 keeps this, where the leaf that `find_level` reaches
-- has room, and `cbtree_get_prev` with the same key just after it returns the first entry below
-- that key, with its key, or `NULL` if there is none. The geometry's keys fill their words, the
-- caller's key can be read and lies outside the tree, the value is not `NULL`, and there are two
-- units of fuel for the insertion and as many as the tree is high for the step back.
pub cbtree_get_prev-cbtree_insert :
    {geo : Geo} {s : State} {d : ℕ} {es : List (ℕ × ℕ)} {fp : List Addr} {p : Ptr}
    → IsGeo geo
    → IsKeyed geo s 1 d es fp
    → HoldsKey geo s p
    → value (key_at s p) geo.keylen ≢ 0
    → has p.block fp ≡ false
    → has_key (value (key_at s p) geo.keylen) es ≡ false
    → leaf_fill geo (find_level geo p 1 s) < geo.no_pairs
    → (env : Env) (v f levels : ℕ) → v ≢ null
    → d < levels
    → (s' : State) × (r : Option (ℕ × Words)) × (cbtree_insert (suc (suc f)) env geo p v s
        ≡ ok success s')
      × (cbtree_get_prev levels geo p s' ≡ ok r s')
      × (as_entry geo r ≡ before (value (key_at s p) geo.keylen) es)
      × IsKeyed geo s' 1 d (insert (value (key_at s p) geo.keylen) v es) fp
cbtree_get_prev-cbtree_insert {geo} {s} {d} {es} {fp} {p} g t hk pos out absent room env v f levels
      ne enough =
    let k = value (key_at s p) geo.keylen in
    let (s', run, shape, same, keys) =
      cbtree_insert-ParentKeys g f env p v t.shape hk out absent ne room in
    let t' : IsKeyed geo s' 1 d (insert k v es) fp = record {
      shape = shape;
      keys = keys 1 (omega (arith, pos)) t.keys;
    } in
    let kept = same.words p.block out in
    let hk' = HoldsKey-frame s' hk kept (same.sizes p.block) in
    let (r, run', prev) = cbtree_get_prev-before g t' hk' levels enough in
    let key_kept : value (key_at s' p) geo.keylen ≡ k =
      ap (λ w. value (λ i. w (p.offset + i)) geo.keylen) kept in
    (
      s',
      r,
      run,
      run',
      prev ∙ ap (λ j. before j (insert k v es)) key_kept ∙ before-insert k v es,
      t',
    )
