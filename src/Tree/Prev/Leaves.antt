-- ===== src/Tree/Prev/Leaves.antt =====
-- The parent keys that `cbtree_get_prev` of cbtree_base.c goes by survive a change of one leaf.
use btree_profiling.Common.{
  ℕ, zero, suc, ◌+◌, ◌≤◌, ◌<◌, ◌≡◌, ◌≢◌, sym, ap, subst, true, false, List, arith, ltb, Bool-cases,
  inl, inr,
}
use btree_profiling.Memory.{Addr, null, Words, State}
use btree_profiling.Node.{Geo, bval}
use btree_profiling.Node.Slots.{IsGeo, key_num, ==-cases}
use btree_profiling.Node.Search.{bval_unused}
use btree_profiling.Tree.Shape.{has, Disjoint, IsTree, IsForest, leaf, inner, nil, cons}
use btree_profiling.Tree.Insert.Pick.{Disjoint-sym}
use btree_profiling.Tree.Prev.Walk.{ParentKeys}
use btree_profiling.Tree.Prev.Frame.{forest-Slot, ParentKeys-frame}

-- `b` is a leaf below `a`.
pub data LeafOf (geo : Geo) (s : State) : ℕ → Addr → Addr → Type 0 where
  at_leaf : {a : Addr} → LeafOf geo s zero a a
  through :
      {d : ℕ} {a b : Addr} (i : ℕ)
      → bval geo (s.word a) i ≢ null
      → i < geo.no_pairs
      → LeafOf geo s d (bval geo (s.word a) i) b
      → LeafOf geo s (suc d) a b

-- Two slots of a node, with no node in common.
record TwoSlots (geo : Geo) (s : State) (d : ℕ) (w : Words) (j c : ℕ) : Type 0 where
  pub one : List Addr
  pub other : List Addr
  pub entries_one : List (ℕ × ℕ)
  pub entries_other : List (ℕ × ℕ)
  pub tree_one : IsTree geo s d (bval geo w j) entries_one one
  pub tree_other : IsTree geo s d (bval geo w c) entries_other other
  pub apart : Disjoint one other

TwoSlots-sym :
    {geo : Geo} {s : State} {d : ℕ} {w : Words} {j c : ℕ}
    → TwoSlots geo s d w j c
    → TwoSlots geo s d w c j
TwoSlots-sym t = record {
  one = t.other;
  other = t.one;
  entries_one = t.entries_other;
  entries_other = t.entries_one;
  tree_one = t.tree_other;
  tree_other = t.tree_one;
  apart = Disjoint-sym t.one t.other t.apart;
}

module _ {geo : Geo} {s : State} where
  first_and :
      {d i n : ℕ} {w : Words} {es : List (ℕ × ℕ)} {fp : List Addr} (j c : ℕ)
      → IsForest geo s d w i n es fp
      → i ≤ j
      → j < c
      → c < i + n
      → TwoSlots geo s d w j c
  first_and j c nil p q r = absurd (omega arith)
  first_and {d} {i} {w} j c (cons {e1} {f1} {f2} t f apart low high) p q r = elim (==-cases i j) [
    | inl e ↦
        let slot = forest-Slot c f (omega arith) (omega arith) in
        subst (λ j. TwoSlots geo s d w j c) e
          (record {
            one = f1;
            other = slot.nodes;
            entries_one = e1;
            entries_other = slot.entries;
            tree_one = t;
            tree_other = slot.tree;
            apart = λ a h. elim (Bool-cases (has a slot.nodes)) [
              | inl there ↦ absurd (ground (arith, apart a h, slot.inside a there))
              | inr out ↦ out
            ];
          })
    | inr e ↦ first_and j c f (ground (arith, e)) q (omega arith)
  ]

  two_slots :
      {d n : ℕ} {w : Words} {es : List (ℕ × ℕ)} {fp : List Addr} (j c : ℕ)
      → IsForest geo s d w 0 n es fp
      → j ≢ c
      → j < n
      → c < n
      → TwoSlots geo s d w j c
  two_slots j c f ne p q = elim (Bool-cases (ltb j c)) [
    | inl less ↦ first_and j c f (omega arith) (ground (arith, less)) (omega arith)
    | inr more ↦
        TwoSlots-sym (first_and c j f (omega arith) (ground (arith, more, ne)) (omega arith))
  ]

module _ {geo : Geo} (g : IsGeo geo) {s : State} where
  leaf_inside :
      {d : ℕ} {a b : Addr} {es : List (ℕ × ℕ)} {fp : List Addr}
      → IsTree geo s d a es fp
      → LeafOf geo s d a b
      → has b fp ≡ true
  leaf_inside (leaf h) at_leaf = ground arith
  leaf_inside {b} (inner {a} {fill} h out f) (through i used p l) = elim (Bool-cases (ltb i fill)) [
    | inl less ↦
        let slot = forest-Slot i f (omega arith) (ground (arith, less)) in
        ground (arith, slot.inside b (leaf_inside slot.tree l))
    | inr more ↦ absurd (used (bval_unused geo g (s.word a) fill h.node i (ground (arith, more)) p))
  ]

  -- A change of a leaf alone.
  pub ParentKeys-leaf :
      (d k : ℕ) (s' : State) {a b : Addr} {es : List (ℕ × ℕ)} {fp : List Addr}
      → IsTree geo s d a es fp
      → LeafOf geo s d a b
      → ((x : Addr) → x ≢ b → s'.word x ≡ s.word x)
      → ((x : Addr) → s'.size x ≡ s.size x)
      → ParentKeys geo s k d a
      → ParentKeys geo s' k d a
  ParentKeys-leaf zero k s' t l words sizes keys = tt
  ParentKeys-leaf (suc d) k s' {b} (inner {a} {fill} {fp} h out f) (through c used_c room l) words
        sizes keys =
      let w = s.word a in
      let at_c : c < fill = elim (Bool-cases (ltb c fill)) [
        | inl less ↦ ground (arith, less)
        | inr more ↦ absurd (used_c (bval_unused geo g w fill h.node c (ground (arith, more)) room))
      ] in
      let own = forest-Slot c f (omega arith) (omega arith) in
      let b_in : has b fp ≡ true = own.inside b (leaf_inside own.tree l) in
      let kept : s'.word a ≡ w =
        words a (λ e. absurd (ground (arith, b_in, out, ap (λ x. has x fp) e))) in
      subst
        (λ w.
          (i : ℕ)
          → i < geo.no_pairs
          → bval geo w i ≢ null
          → (k ≤ key_num geo w i) × ParentKeys geo s' (key_num geo w i) d (bval geo w i))
        (sym kept)
        (λ i p used. elim (==-cases i c) [
          | inl e ↦
              let (bound, under) = keys c room used_c in
              subst
                (λ i. (k ≤ key_num geo w i) × ParentKeys geo s' (key_num geo w i) d (bval geo w i))
                (sym e) (bound, ParentKeys-leaf d (key_num geo w c) s' own.tree l words sizes under)
          | inr e ↦
              let (bound, under) = keys i p used in
              let inside : i < fill = elim (Bool-cases (ltb i fill)) [
                | inl less ↦ ground (arith, less)
                | inr more ↦
                    absurd (used (bval_unused geo g w fill h.node i (ground (arith, more)) p))
              ] in
              let two = two_slots i c f (ground (arith, e)) inside at_c in
              let b_out : has b two.one ≡ false =
                Disjoint-sym two.one two.other two.apart b (leaf_inside two.tree_other l) in
              (
                bound,
                ParentKeys-frame g {s' = s'} d (key_num geo w i) two.tree_one
                    (record {
                      words = λ x m.
                          words x (λ same.
                            absurd (ground (arith, m, b_out, ap (λ y. has y two.one) same)));
                      sizes = λ x m. sizes x;
                    })
                    under,
              )
        ])
