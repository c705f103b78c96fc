-- ===== src/Tree/Visit/Insert.antt =====
-- What the visitor of cbtree_base.c shows of an insertion, on a tree of any height.
use btree_profiling.Common.{ℕ, suc, ◌<◌, ◌≡◌, ◌≢◌, ap, ◌∙◌, true, false, List, map, length, arith}
use btree_profiling.Memory.{Addr, null, State, ok, Env, Ptr}
use btree_profiling.Words.Order.{value}
use btree_profiling.Entries.{has_key, insert, length-insert}
use btree_profiling.Node.{Geo}
use btree_profiling.Node.Slots.{IsGeo}
use btree_profiling.Tree.{success, find_level}
use btree_profiling.Tree.Shape.{has, IsCbtree}
use btree_profiling.Tree.Insert.{cbtree_insert}
use btree_profiling.Tree.Insert.Walk.{HoldsKey, key_at}
use btree_profiling.Tree.Insert.Room.{leaf_fill, cbtree_insert-room}
use btree_profiling.Tree.Visit.{Visit, cbtree_visitor}
use btree_profiling.Tree.Visit.Order.{view, number, cbtree_visitor-Visits}

-- On a tree of any height, when the leaf that `find_level` reaches for a new key has room, the
-- visitor lists the tree's entries before `cbtree_insert`, and after it those with the new key
-- and value put in, one more. The geometry's keys fill their words, the caller's key can be read
-- and lies outside the tree, the value is not `NULL`, and there are two units of fuel for the
-- insertion.
pub cbtree_visitor-cbtree_insert :
    {geo : Geo} {s : State} {d : ℕ} {es : List (ℕ × ℕ)} {fp : List Addr}
    → IsGeo geo
    → (fuel f : ℕ) (env : Env) (p : Ptr) (v : ℕ) → IsCbtree geo s d es fp
    → HoldsKey geo s p
    → has p.block fp ≡ false
    → has_key (value (key_at s p) geo.keylen) es ≡ false
    → v ≢ null
    → leaf_fill geo (find_level geo p 1 s) < geo.no_pairs
    → (s' : State) × (before after : List Visit) × (cbtree_visitor fuel geo true s
        ≡ ok (length es, before) s)
      × (cbtree_insert (suc (suc f)) env geo p v s ≡ ok success s')
      × (cbtree_visitor fuel geo true s' ≡ ok (suc (length es), after) s')
      × (map (view geo) before ≡ number 0 es)
      × (map (view geo) after ≡ number 0 (insert (value (key_at s p) geo.keylen) v es))
cbtree_visitor-cbtree_insert {geo} {s} {d} {es} g fuel f env p v t hk out absent ne room =
    let (s', run, t', same) = cbtree_insert-room g f env p v t hk out absent ne room in
    let (before, run0, shown0) = cbtree_visitor-Visits fuel t in
    let (after, run1, shown1) = cbtree_visitor-Visits fuel t' in
    (
      s',
      before,
      after,
      run0 ∙ ap (λ n. ok (n, before) s) (omega arith),
      run,
      run1
          ∙ ap (λ n. ok (n, after) s')
              (omega (arith, length-insert (value (key_at s p) geo.keylen) v es)),
      shown0,
      shown1,
    )
