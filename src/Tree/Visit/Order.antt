-- ===== src/Tree/Visit/Order.antt =====
-- The visitors of cbtree_base.c on a tree of any height.
use btree_profiling.Common.{
  ℕ, zero, suc, ◌+◌, ◌≡◌, refl, ap, ap₂, sym, ◌∙◌, Bool, true, false, List, [], ◌∷◌, ◌++◌, map,
  arith, length, length-append, tabulate,
}
use mathlib.Core.List.{map-append}
use btree_profiling.Memory.{Addr, Words, State, Run, ok, get_head}
use btree_profiling.Words.Order.{value}
use btree_profiling.Node.{Geo, bkey, bval}
use btree_profiling.Node.Slots.{key_num, pair}
use btree_profiling.Tree.Shape.{
  Holds, IsCbtree, IsTree, IsForest, IsTree-Holds, leaf, inner, nil, cons, read_node-Holds,
}
use btree_profiling.Tree.Visit.{Visit, for_each_slots, cbtree_visitor, reap_node}

-- The entries with their numbers, from `i` on.
abbrev pub number : ℕ → List (ℕ × ℕ) → List (ℕ × ℕ × ℕ)
number i [] = []
number i ((k, v) ∷ es) = (i, k, v) ∷ number (i + 1) es

number-append :
    (i : ℕ) (e1 e2 : List (ℕ × ℕ)) → number i (e1 ++ e2) ≡ number i e1 ++ number (i + length e1) e2
number-append i [] e2 = ap (λ j. number j e2) (omega arith)
number-append i ((k, v) ∷ e1) e2 =
    ap (◌∷◌ (i, k, v))
      (number-append (i + 1) e1 e2 ∙ ap (λ j. number (i + 1) e1 ++ number j e2) (omega arith))

-- A call of the visitor's function: its index, its key as a number, its element.
abbrev pub view : Geo → Visit → ℕ × ℕ × ℕ
view geo v = (v.index, value v.key geo.keylen, v.elem)

module _ (geo : Geo) (s : State) where
  -- The run visits the entries in order, counts them and changes nothing.
  abbrev pub Visits : ℕ → List (ℕ × ℕ) → Run (ℕ × List Visit) → Type 0
  Visits count es run =
      (calls : List Visit) × (run ≡ ok (count + length es, calls) s)
      × (map (view geo) calls ≡ number count es)

module _ (fuel : ℕ) {geo : Geo} {s : State} where
  pub leaf_slots-Visits :
      {a : Addr} {fill : ℕ} (reap : Bool) (h : Holds geo s a fill) (f : ℕ → ℕ × ℕ) (i r m count : ℕ)
      → i + r ≡ geo.no_pairs
      → i + m ≡ fill
      → ((j : ℕ) → f j ≡ pair geo (s.word a) (i + j))
      → Visits geo s count (tabulate f m) (for_each_slots fuel geo reap zero r a i count s)
  unfolding for_each_slots pair key_num
  leaf_slots-Visits reap h f i zero zero count e1 e2 w = ([], ground arith, refl)
  leaf_slots-Visits reap h f i zero (suc m) count e1 e2 w = absurd (omega (arith, h.node.within))
  leaf_slots-Visits {a} reap h f i (suc r) zero count e1 e2 w =
      ([], ground (arith, read_node-Holds h, h.node.unused i), refl)
  leaf_slots-Visits {a} reap h f i (suc r) (suc m) count e1 e2 w =
      let (calls, run, e) =
        leaf_slots-Visits reap h (λ j. f (suc j)) (suc i) r m (count + 1) (omega arith)
          (omega arith) (λ j. w (suc j) ∙ ap (pair geo (s.word a)) (omega arith)) in
      (
        record { elem = bval geo (s.word a) i; key = bkey geo (s.word a) i; index = count } ∷ calls,
        ground (arith, read_node-Holds h, run, h.node.used i),
        ground (arith, w 0, e),
      )

  mutual
    unfolding for_each_slots reap_node pair

    tree-Visits :
        {d : ℕ} {a : Addr} {es : List (ℕ × ℕ)} {fp : List Addr} (count : ℕ)
        → IsTree geo s d a es fp
        → Visits geo s count es (for_each_slots fuel geo false d geo.no_pairs a 0 count s)
    tree-Visits count (leaf {a} {fill} h) =
        leaf_slots-Visits false h (pair geo (s.word a)) 0 geo.no_pairs fill count (omega arith)
          (omega arith) (λ j. ap (pair geo (s.word a)) (omega arith))
    tree-Visits count (inner h out f) =
        forest-Visits h geo.no_pairs count refl (omega arith) (omega arith) f

    forest-Visits :
        {d : ℕ} {a : Addr} {w : Words} {fill i n : ℕ} {es : List (ℕ × ℕ)} {fp : List Addr}
        (h : Holds geo s a fill) (r count : ℕ)
        → w ≡ s.word a
        → i + r ≡ geo.no_pairs
        → i + n ≡ fill
        → IsForest geo s d w i n es fp
        → Visits geo s count es (for_each_slots fuel geo false (suc d) r a i count s)
    forest-Visits h zero count same e1 e2 nil = ([], ground arith, refl)
    forest-Visits {i} h (suc r) count same e1 e2 nil =
        ([], ground (arith, read_node-Holds h, h.node.unused i), refl)
    forest-Visits h zero count same e1 e2 (cons t f apart low high) =
        absurd (omega (arith, h.node.within))
    forest-Visits {i} h (suc r) count same e1 e2 (cons {e1 = es1} {e2 = es2} t f apart low high) =
        let (calls1, run1, view1) = tree-Visits count t in
        let (calls2, run2, view2) =
          forest-Visits h r (count + length es1) same (omega arith) (omega arith) f in
        (
          calls1 ++ calls2,
          ground (arith, read_node-Holds h, run1, run2, h.node.used i, length-append es1 es2),
          map-append (view geo) calls1 calls2
              ∙ ap₂ ◌++◌ view1 view2
              ∙ sym (number-append count es1 es2),
        )

  -- On a tree of any height the visitor calls its function on every entry, in order and with the
  -- numbers from 0 on, returns how many there are, and changes nothing.
  pub cbtree_visitor-Visits :
      {d : ℕ} {es : List (ℕ × ℕ)} {fp : List Addr}
      → IsCbtree geo s d es fp
      → Visits geo s 0 es (cbtree_visitor fuel geo true s)
  unfolding cbtree_visitor reap_node get_head
  cbtree_visitor-Visits {d} t =
      let (calls, run, shown) = tree-Visits 0 t.tree in
      (calls, ground (arith, t.height, run, (IsTree-Holds t.tree).1.ne_null), shown)
