-- ===== src/Tree/Insert/Pick.antt =====
-- The child of a node that takes a new key, and the node once the child has taken it, for
-- `cbtree_insert_level` of cbtree_base.c.
use btree_profiling.Common.{
  ℕ, suc, ◌+◌, ◌≤◌, ◌<◌, ◌≡◌, ◌≢◌, sym, subst, ◌⊎◌, inl, inr, true, false, Bool-cases, List, ◌++◌,
  arith,
}
use btree_profiling.Memory.{Addr, Words, State}
use btree_profiling.Entries.{
  AllBelow, AllAtLeast, has_key, insert, insert-AllBelow, insert-AllAtLeast, insert-append_left,
  insert-append_right, AllAtLeast-mono, has_key-append,
}
use btree_profiling.Node.{Geo, bval}
use btree_profiling.Node.Slots.{key_num, ==-cases}
use btree_profiling.Tree.Prev.Frame.{forest-Slot}
use btree_profiling.Tree.Shape.{
  has, has-append, Disjoint, IsTree, IsForest, nil, cons, Agree, IsTree-frame, IsForest-frame,
}

pub Disjoint-sym : (f1 f2 : List Addr) → Disjoint f1 f2 → Disjoint f2 f1
Disjoint-sym f1 f2 apart a h = elim (Bool-cases (has a f1)) [
  | inl there ↦ absurd (ground (arith, apart a))
  | inr out ↦ out
]

module _ {geo : Geo} {s : State} where
  -- An empty forest is below every bound.
  tail_below :
      {d : ℕ} {w : Words} {i n : ℕ} {es : List (ℕ × ℕ)} {fp : List Addr} (b b' : ℕ)
      → IsForest geo s d w i n es fp
      → AllBelow b es
      → (b' ≡ b) ⊎ (n ≡ 0)
      → AllBelow b' es
  tail_below b b' nil h c = tt
  tail_below b b' (cons t f apart low high) h (inl e) = rw e h
  tail_below b b' (cons t f apart low high) h (inr e) = absurd (omega arith)

-- A forest depends on its own slots alone.
reslot :
    {geo : Geo} {s : State} {d : ℕ} {w : Words} {i n : ℕ} {es : List (ℕ × ℕ)} {fp : List Addr}
    (w' : Words)
    → IsForest geo s d w i n es fp
    → ((j : ℕ) → i ≤ j → j < i + n → bval geo w' j ≡ bval geo w j)
    → ((j : ℕ) → i ≤ j → j < i + n → key_num geo w' j ≡ key_num geo w j)
    → IsForest geo s d w' i n es fp
reslot w' nil vals keys = nil
reslot {geo} {s} {d} {i} w' (cons {e1} {e2} {f1} t f apart low high) vals keys =
    let ek = keys i (omega arith) (omega arith) in
    cons (subst (λ a. IsTree geo s d a e1 f1) (sym (vals i (omega arith) (omega arith))) t)
      (reslot w' f (λ j p q. vals j (omega arith) (omega arith))
        (λ j p q. keys j (omega arith) (omega arith)))
      apart (rw ek low) (rw ek high)

-- `w'` is `w` but for the key of slot `c`, which is at most `k` and at most what it was.
pub record Lowered (geo : Geo) (w w' : Words) (c k : ℕ) : Type 0 where
  pub vals : (j : ℕ) → bval geo w' j ≡ bval geo w j
  pub keys : (j : ℕ) → j ≢ c → j < geo.no_pairs → key_num geo w' j ≡ key_num geo w j
  pub below_key : key_num geo w' c ≤ k
  pub below_old : key_num geo w' c ≤ key_num geo w c

-- Another child, with no node of the one picked.
pub record Other (geo : Geo) (s : State) (d : ℕ) (w : Words) (fp fc : List Addr) (j : ℕ)
    : Type 0 where
  pub entries : List (ℕ × ℕ)
  pub nodes : List Addr
  pub tree : IsTree geo s d (bval geo w j) entries nodes
  pub inside : (b : Addr) → has b nodes ≡ true → has b fp ≡ true
  pub apart : (b : Addr) → has b nodes ≡ true → has b fc ≡ false

-- Child `c` of the slots of `w` from `i` on; the slots of `w'` once it has taken `k`.
pub record Picked (geo : Geo) (s : State) (d : ℕ) (w w' : Words) (i n : ℕ) (es : List (ℕ × ℕ))
    (fp : List Addr) (c k v : ℕ) : Type 0 where
  pub ec : List (ℕ × ℕ)
  pub fc : List Addr
  pub tree : IsTree geo s d (bval geo w c) ec fc
  pub inside : (b : Addr) → has b fc ≡ true → has b fp ≡ true
  pub absent : has_key k es ≡ false → has_key k ec ≡ false
  pub others : (j : ℕ) → i ≤ j → j < i + n → j ≢ c → Other geo s d w fp fc j
  pub plug :
      (s' : State)
      → ((b : Addr) → has b fp ≡ true → has b fc ≡ false → s'.word b ≡ s.word b)
      → ((b : Addr) → s'.size b ≡ s.size b)
      → IsTree geo s' d (bval geo w c) (insert k v ec) fc
      → IsForest geo s' d w' i n (insert k v es) fp

module _ {geo : Geo} {s : State} {w w' : Words} {c k : ℕ} (v : ℕ)
    (lowered : Lowered geo w w' c k) where
  pick_here :
      {d n : ℕ} {e1 e2 : List (ℕ × ℕ)} {f1 f2 : List Addr}
      → IsTree geo s d (bval geo w c) e1 f1
      → IsForest geo s d w (suc c) n e2 f2
      → Disjoint f1 f2
      → AllAtLeast (key_num geo w c) e1
      → AllBelow (key_num geo w c) e2
      → (key_num geo w' c ≡ key_num geo w c) ⊎ (n ≡ 0)
      → suc c + n ≤ geo.no_pairs
      → Picked geo s d w w' c (suc n) (e1 ++ e2) (f1 ++ f2) c k v
  pick_here {d} {n} {e1} {e2} {f1} {f2} t f apart low high last room =
      let high' = tail_below (key_num geo w c) (key_num geo w' c) f high last in
      record {
        ec = e1;
        fc = f1;
        tree = t;
        inside = λ b h. ground (arith, has-append b f1 f2);
        absent = λ h. ground (arith, has_key-append k e1 e2);
        others = λ j p q ne.
            let slot = forest-Slot j f (omega (arith, ne)) (omega arith) in
            record {
              entries = slot.entries;
              nodes = slot.nodes;
              tree = slot.tree;
              inside = λ b h. ground (arith, has-append b f1 f2, slot.inside b h);
              apart = λ b h. Disjoint-sym f1 f2 apart b (slot.inside b h);
            };
        plug = λ s' same sizes t'.
            let agree : Agree f2 s s' = record {
              words =
                  λ a h. same a (ground (arith, has-append a f1 f2)) (Disjoint-sym f1 f2 apart a h);
              sizes = λ x h. sizes x;
            } in
            subst (λ es. IsForest geo s' d w' c (suc n) es (f1 ++ f2))
              (sym (insert-append_left (key_num geo w' c) k v e1 e2 high' lowered.below_key))
              (cons (subst (λ a. IsTree geo s' d a (insert k v e1) f1) (sym (lowered.vals c)) t')
                (reslot w' (IsForest-frame f agree) (λ j p q. lowered.vals j)
                  (λ j p q. lowered.keys j (omega arith) (omega arith)))
                apart
                (insert-AllAtLeast (key_num geo w' c) k v e1 lowered.below_key
                  (AllAtLeast-mono (key_num geo w' c) (key_num geo w c) e1 lowered.below_old low))
                high');
      }

  pick_later :
      {d i n : ℕ} {e1 e2 : List (ℕ × ℕ)} {f1 f2 : List Addr}
      → IsTree geo s d (bval geo w i) e1 f1
      → Disjoint f1 f2
      → AllAtLeast (key_num geo w i) e1
      → AllBelow (key_num geo w i) e2
      → i ≢ c
      → i < geo.no_pairs
      → k < key_num geo w i
      → Picked geo s d w w' (suc i) n e2 f2 c k v
      → Picked geo s d w w' i (suc n) (e1 ++ e2) (f1 ++ f2) c k v
  pick_later {d} {i} {n} {e1} {e2} {f1} {f2} t apart low high ne room above rest = record {
    ec = rest.ec;
    fc = rest.fc;
    tree = rest.tree;
    inside = λ b h. ground (arith, has-append b f1 f2, rest.inside b);
    absent = λ h. rest.absent (ground (arith, has_key-append k e1 e2));
    others = λ j p q ne'. elim (==-cases i j) [
      | inl e ↦ subst (Other geo s d w (f1 ++ f2) rest.fc) e (record {
        entries = e1;
        nodes = f1;
        tree = t;
        inside = λ b h. ground (arith, has-append b f1 f2);
        apart = λ b h. elim (Bool-cases (has b rest.fc)) [
          | inl there ↦ absurd (ground (arith, apart b h, rest.inside b there))
          | inr out ↦ out
        ];
      })
      | inr e ↦
          let o = rest.others j (ground (arith, e)) (omega arith) ne' in
          record {
            entries = o.entries;
            nodes = o.nodes;
            tree = o.tree;
            inside = λ b h. ground (arith, has-append b f1 f2, o.inside b h);
            apart = o.apart;
          }
    ];
    plug = λ s' same sizes t'.
        let agree : Agree f1 s s' = record {
          words = λ a h.
              same a (ground (arith, has-append a f1 f2)) (elim (Bool-cases (has a rest.fc)) [
                | inl there ↦ absurd (ground (arith, apart a, rest.inside a))
                | inr out ↦ out
              ]);
          sizes = λ x h. sizes x;
        } in
        let ek = lowered.keys i ne room in
        let behind =
          rest.plug s' (λ b h out. same b (ground (arith, has-append b f1 f2)) out) sizes t' in
        subst (λ es. IsForest geo s' d w' i (suc n) es (f1 ++ f2))
          (sym (insert-append_right (key_num geo w i) k v e1 e2 low above))
          (cons (subst (λ a. IsTree geo s' d a e1 f1) (sym (lowered.vals i)) (IsTree-frame t agree))
            behind apart (rw ek low) (rw ek (insert-AllBelow (key_num geo w i) k v e2 above high)));
  }

  -- The child whose key is the first that is not above `k`, or the last child.
  pub pick :
      {d i n : ℕ} {es : List (ℕ × ℕ)} {fp : List Addr}
      → IsForest geo s d w i n es fp
      → i ≤ c
      → c < i + n
      → i + n ≤ geo.no_pairs
      → ((j : ℕ) → j < c → k < key_num geo w j)
      → (key_num geo w' c ≡ key_num geo w c) ⊎ (suc c ≡ i + n)
      → Picked geo s d w w' i n es fp c k v
  pick nil p q room above last = absurd (omega arith)
  pick {d} {i} (cons {n} {e1} {e2} {f1} {f2} t f apart low high) p q room above last =
      elim (==-cases i c) [
        | inl e ↦ rw e (
            pick_here (rw e at t) (rw e at f) apart (rw e at low) (rw e at high)
              (elim last [ inl l ↦ inl l | inr l ↦ inr (omega arith) ]) (omega arith))
        | inr e ↦
            pick_later t apart low high (ground arith) (omega arith) (above i (ground arith)) (
              pick f (ground arith) (omega arith) (omega arith) above
                (elim last [ inl l ↦ inl l | inr l ↦ inr (omega arith) ]))
      ]
