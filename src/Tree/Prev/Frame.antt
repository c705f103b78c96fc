-- ===== src/Tree/Prev/Frame.antt =====
-- Trees whose parent keys bound each other, as `cbtree_get_prev` of cbtree_base.c needs them, survive
-- any change that spares their nodes.
use btree_profiling.Common.{
  ℕ, zero, suc, ◌+◌, ◌≤◌, ◌<◌, ◌≡◌, ◌≢◌, sym, ap, subst, ◌∙◌, true, List, ◌++◌, arith, ltb, ◌==◌,
  Bool-cases, inl, inr,
}
use btree_profiling.Memory.{Addr, null, Words, Head, State}
use btree_profiling.Node.{Geo, bval}
use btree_profiling.Node.Slots.{IsGeo, key_num}
use btree_profiling.Node.Search.{bval_unused}
use btree_profiling.Tree.Shape.{
  has, has-append, IsTree, IsForest, IsCbtree, inner, nil, cons, Agree, Agree-head, IsTree-frame,
}
use btree_profiling.Tree.Prev.Walk.{ParentKeys}

-- A tree whose parent keys are all at least `b` and at least those of the parents above.
pub record IsKeyed (geo : Geo) (s : State) (b d : ℕ) (es : List (ℕ × ℕ)) (fp : List Addr)
    : Type 0 where
  pub shape : IsCbtree geo s d es fp
  pub keys : ParentKeys geo s b d s.head.node

pub record Slot (geo : Geo) (s : State) (d : ℕ) (a : Addr) (fp : List Addr) : Type 0 where
  pub entries : List (ℕ × ℕ)
  pub nodes : List Addr
  pub tree : IsTree geo s d a entries nodes
  pub inside : (x : Addr) → has x nodes ≡ true → has x fp ≡ true

module _ {geo : Geo} {s : State} where
  pub forest-Slot :
      {d i n : ℕ} {w : Words} {es : List (ℕ × ℕ)} {fp : List Addr} (c : ℕ)
      → IsForest geo s d w i n es fp
      → i ≤ c
      → c < i + n
      → Slot geo s d (bval geo w c) fp
  forest-Slot c nil p q = absurd (omega arith)
  forest-Slot {d} {i} {n = suc n} {w} c (cons {e1} {f1} {f2} t f apart low high) p q =
      elim (Bool-cases (i == c)) [
        | inl e ↦
            subst (λ c. Slot geo s d (bval geo w c) (f1 ++ f2)) (ground (arith, e))
              (record {
                entries = e1;
                nodes = f1;
                tree = t;
                inside = λ x h. ground (arith, has-append x f1 f2);
              })
        | inr e ↦
            let r = forest-Slot c f (ground (arith, e)) (omega arith) in
            record {
              entries = r.entries;
              nodes = r.nodes;
              tree = r.tree;
              inside = λ x h. ground (arith, r.inside x h, has-append x f1 f2);
            }
      ]

module _ {geo : Geo} (g : IsGeo geo) {s s' : State} where
  pub ParentKeys-frame :
      (d b : ℕ) {a : Addr} {es : List (ℕ × ℕ)} {fp : List Addr}
      → IsTree geo s d a es fp
      → Agree fp s s'
      → ParentKeys geo s b d a
      → ParentKeys geo s' b d a
  ParentKeys-frame zero b t same keys = tt
  ParentKeys-frame (suc d) b (inner {a} {fill} {fp} h out f) same keys =
      let w = s.word a in
      subst
        (λ w.
          (i : ℕ)
          → i < geo.no_pairs
          → bval geo w i ≢ null
          → (b ≤ key_num geo w i) × ParentKeys geo s' (key_num geo w i) d (bval geo w i))
        (sym (Agree-head a fp same))
        (λ i p used. elim (Bool-cases (ltb i fill)) [
          | inl inside ↦
              let r = forest-Slot i f (omega arith) (ground (arith, inside)) in
              let (bound, below) = keys i p used in
              (
                bound,
                ParentKeys-frame d (key_num geo w i) r.tree
                    (record {
                      words = λ x m. same.words x (ground (arith, r.inside x m));
                      sizes = λ x m. same.sizes x (ground (arith, r.inside x m));
                    })
                    below,
              )
          | inr behind ↦
              absurd (used (bval_unused geo g w fill h.node i (ground (arith, behind)) p))
        ])

  pub IsKeyed-frame :
      {b d : ℕ} {es : List (ℕ × ℕ)} {fp : List Addr}
      → IsKeyed geo s b d es fp
      → s'.head ≡ s.head
      → Agree fp s s'
      → IsKeyed geo s' b d es fp
  IsKeyed-frame {b} {d} {es} {fp} t head same =
      let at : s.head.node ≡ s'.head.node = ap (λ (h : Head). h.node) (sym head) in
      record {
        shape = record {
          height = ap (λ (h : Head). h.height) head ∙ t.shape.height;
          tree = subst (λ a. IsTree geo s' d a es fp) at (IsTree-frame t.shape.tree same);
        };
        keys =
            subst (λ a. ParentKeys geo s' b d a) at (ParentKeys-frame d b t.shape.tree same t.keys);
      }
