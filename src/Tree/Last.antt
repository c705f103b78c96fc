-- ===== src/Tree/Last.antt =====
-- `cbtree_last` of cbtree_base.c on a tree of any height.
use btree_profiling.Common.{ℕ, zero, suc, ◌≡◌, refl, ap, List, ◌∷◌, ◌++◌, arith, some}
use btree_profiling.Memory.{Addr, Words, State, ok, get_head}
use btree_profiling.Words.Order.{value}
use btree_profiling.Node.{Geo, bkey, bval}
use btree_profiling.Node.Slots.{key_num, pair}
use btree_profiling.Tree.{last_leaf, cbtree_last}
use btree_profiling.Tree.Shape.{Holds, IsCbtree, IsTree, leaf, inner, nil, cons, read_node-Holds}

module _ {geo : Geo} {s : State} where
  -- The walk ends at a leaf whose first entry is the tree's.
  pub last_leaf-head :
      {d : ℕ} {a : Addr} {es : List (ℕ × ℕ)} {fp : List Addr}
      → IsTree geo s d a es fp
      → (b : Addr) × (fill : ℕ) × (rest : List (ℕ × ℕ)) × (last_leaf geo d a s ≡ ok b s)
        × Holds geo s b fill
        × (es ≡ pair geo (s.word b) 0 ∷ rest)
  unfolding last_leaf
  last_leaf-head (leaf {fill = zero} h) = absurd (omega (arith, h.some_pair))
  last_leaf-head (leaf {a} {fill = suc n} h) = (a, suc n, _, refl, h, refl)
  last_leaf-head (inner h out nil) = absurd (omega (arith, h.some_pair))
  last_leaf-head (inner h out (cons {e2} t f apart low high)) =
      let (b, fill, rest, run, hb, e) = last_leaf-head t in
      (b, fill, rest ++ e2, rw (read_node-Holds h) run, hb, ap (λ l. l ++ e2) e)

  -- On a tree of any height `cbtree_last` returns the value and the key of the first entry, of
  -- which there is one, and changes nothing.
  pub cbtree_last-head :
      {d : ℕ} {es : List (ℕ × ℕ)} {fp : List Addr}
      → IsCbtree geo s d es fp
      → (key : Words) × (v : ℕ) × (rest : List (ℕ × ℕ)) × (cbtree_last geo s ≡ ok (some (v, key)) s)
        × (es ≡ (value key geo.keylen, v) ∷ rest)
  unfolding cbtree_last pair key_num get_head
  cbtree_last-head {d} t =
      let (b, fill, rest, run, hb, e) = last_leaf-head t.tree in
      (
        bkey geo (s.word b) 0,
        bval geo (s.word b) 0,
        rest,
        ground (arith, t.height, run, read_node-Holds hb),
        e,
      )
