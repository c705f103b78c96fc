-- ===== src/Tree/Remove/Prev.antt =====
-- `cbtree_remove` and then `cbtree_get_prev` of cbtree_base.c with the same key, as in a
-- `cbtree_for_each_safel` whose body removes the entry that it is given.
use btree_profiling.Common.{
  ℕ, suc, ◌+◌, ◌/◌, ◌<◌, ◌≡◌, refl, ap, ◌∙◌, true, false, arith, List, [], ◌∷◌, Option, some,
}
use btree_profiling.Memory.{Addr, Words, State, ok, Ptr}
use btree_profiling.Words.Order.{value}
use btree_profiling.Entries.{has_key, lookup, erase, before, IsFalling}
use btree_profiling.Node.{Geo}
use btree_profiling.Node.Slots.{IsGeo}
use btree_profiling.Tree.{find_level}
use btree_profiling.Tree.Shape.{has}
use btree_profiling.Tree.Insert.Room.{leaf_fill}
use btree_profiling.Tree.Insert.Walk.{HoldsKey, HoldsKey-frame, key_at}
use btree_profiling.Tree.Prev.{cbtree_get_prev}
use btree_profiling.Tree.Prev.Leaf.{as_entry}
use btree_profiling.Tree.Prev.Frame.{IsKeyed}
use btree_profiling.Tree.Prev.Before.{cbtree_get_prev-before}
use btree_profiling.Tree.Remove.{cbtree_remove}
use btree_profiling.Tree.Remove.Room.{cbtree_remove-ParentKeys}

-- A key itself is not below it.
before-erase : (k : ℕ) (es : List (ℕ × ℕ)) → before k (erase k es) ≡ before k es
before-erase k [] = refl
before-erase k ((k', v) ∷ es) = ground (arith, before-erase k es)

-- On a tree of any height, its entries in falling order and its parent keys above 0, none of them
-- below that of its own parent, `cbtree_remove` of a key that the tree holds keeps all of this,
-- and `cbtree_get_prev` with the same key just after it returns the entry that came before that
-- key in the tree, or `NULL` if there was none. The leaf that `find_level` reaches has more than
-- half of its slots and more than one of them used, the geometry's keys fill their words, the
-- caller's key can be read and lies outside the tree, and there are as many units of fuel for the
-- step back as the tree is high.
pub cbtree_get_prev-cbtree_remove :
    {geo : Geo} {s : State} {d : ℕ} {es : List (ℕ × ℕ)} {fp : List Addr} {p : Ptr}
    → IsGeo geo
    → IsKeyed geo s 1 d es fp
    → HoldsKey geo s p
    → has p.block fp ≡ false
    → IsFalling es
    → has_key (value (key_at s p) geo.keylen) es ≡ true
    → geo.no_pairs / 2 < leaf_fill geo (find_level geo p 1 s)
    → 1 < leaf_fill geo (find_level geo p 1 s)
    → (f levels : ℕ) → d < levels
    → (v : ℕ) × (s' : State) × (r : Option (ℕ × Words)) × (cbtree_remove (suc f) geo p s ≡ ok v s')
      × (cbtree_get_prev levels geo p s' ≡ ok r s')
      × (lookup (value (key_at s p) geo.keylen) es ≡ some v)
      × (as_entry geo r ≡ before (value (key_at s p) geo.keylen) es)
      × IsKeyed geo s' 1 d (erase (value (key_at s p) geo.keylen) es) fp
cbtree_get_prev-cbtree_remove {geo} {s} {d} {es} {fp} {p} g t hk out falling there half two f levels
      enough =
    let k = value (key_at s p) geo.keylen in
    let (v, s', run, found, shape, same, keys) =
      cbtree_remove-ParentKeys g t.shape hk falling there half two f in
    let t' : IsKeyed geo s' 1 d (erase k es) fp = record { shape = shape; keys = keys 1 t.keys } in
    let kept = same.words p.block out in
    let hk' = HoldsKey-frame s' hk kept (same.sizes p.block) in
    let (r, run', prev) = cbtree_get_prev-before g t' hk' levels enough in
    let key_kept : value (key_at s' p) geo.keylen ≡ k =
      ap (λ w. value (λ i. w (p.offset + i)) geo.keylen) kept in
    (
      v,
      s',
      r,
      run,
      run',
      found,
      prev ∙ ap (λ j. before j (erase k es)) key_kept ∙ before-erase k es,
      t',
    )
