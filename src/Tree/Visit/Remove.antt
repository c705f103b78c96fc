-- ===== src/Tree/Visit/Remove.antt =====
-- What the visitor of cbtree_base.c shows of a removal, on a tree of any height.
use btree_profiling.Common.{ℕ, suc, ◌/◌, ◌<◌, ◌≡◌, ap, ◌∙◌, true, some, List, map, length, arith}
use btree_profiling.Memory.{Addr, State, ok, Ptr}
use btree_profiling.Words.Order.{value}
use btree_profiling.Entries.{has_key, lookup, erase, length-erase, IsFalling}
use btree_profiling.Node.{Geo}
use btree_profiling.Node.Slots.{IsGeo}
use btree_profiling.Tree.{find_level}
use btree_profiling.Tree.Shape.{IsCbtree}
use btree_profiling.Tree.Insert.Walk.{HoldsKey, key_at}
use btree_profiling.Tree.Insert.Room.{leaf_fill}
use btree_profiling.Tree.Remove.{cbtree_remove}
use btree_profiling.Tree.Remove.Room.{cbtree_remove-room}
use btree_profiling.Tree.Visit.{Visit, cbtree_visitor}
use btree_profiling.Tree.Visit.Order.{view, number, cbtree_visitor-Visits}

-- On a tree of any height, its entries in falling order, the visitor lists the entries before
-- `cbtree_remove` of a key that the tree holds, and after it those without that key, one less;
-- the removal returns the value that was listed first for the key. The leaf that `find_level`
-- reaches has more than half of its slots and more than one of them used, the geometry's keys
-- fill their words, the caller's key can be read, and there is one unit of fuel for the removal.
pub cbtree_visitor-cbtree_remove :
    {geo : Geo} {s : State} {d : ℕ} {es : List (ℕ × ℕ)} {fp : List Addr}
    → IsGeo geo
    → (fuel f : ℕ) {p : Ptr} → IsCbtree geo s d es fp
    → HoldsKey geo s p
    → IsFalling es
    → has_key (value (key_at s p) geo.keylen) es ≡ true
    → geo.no_pairs / 2 < leaf_fill geo (find_level geo p 1 s)
    → 1 < leaf_fill geo (find_level geo p 1 s)
    → (v n : ℕ) × (s' : State) × (before after : List Visit) × (cbtree_visitor fuel geo true s
        ≡ ok (suc n, before) s)
      × (cbtree_remove (suc f) geo p s ≡ ok v s')
      × (cbtree_visitor fuel geo true s' ≡ ok (n, after) s')
      × (lookup (value (key_at s p) geo.keylen) es ≡ some v)
      × (map (view geo) before ≡ number 0 es)
      × (map (view geo) after ≡ number 0 (erase (value (key_at s p) geo.keylen) es))
cbtree_visitor-cbtree_remove {geo} {s} {es} g fuel f {p} t hk falling there half two =
    let k = value (key_at s p) geo.keylen in
    let (v, s', run, found, t', same) = cbtree_remove-room g t hk falling there half two f in
    let (before, run0, shown0) = cbtree_visitor-Visits fuel t in
    let (after, run1, shown1) = cbtree_visitor-Visits fuel t' in
    (
      v,
      length (erase k es),
      s',
      before,
      after,
      run0 ∙ ap (λ n. ok (n, before) s) (omega (arith, length-erase k es there)),
      run,
      run1 ∙ ap (λ n. ok (n, after) s') (omega arith),
      found,
      shown0,
      shown1,
    )
