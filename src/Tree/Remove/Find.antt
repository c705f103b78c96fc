-- ===== src/Tree/Remove/Find.antt =====
-- The way to the leaf that holds a key, `find_level` of cbtree_base.c, in a tree of any height. No parent
-- changes on it.
use btree_profiling.Common.{
  ℕ, zero, suc, ◌+◌, ◌≤◌, ◌<◌, ◌≡◌, refl, sym, ap, subst, ◌∙◌, inl, inr, true, false, Bool-cases,
  List, [], ◌∷◌, ◌++◌, arith, ltb,
}
use btree_profiling.Memory.{Addr, Words, State, ok, Ptr, update, set_words}
use btree_profiling.Words.Order.{value}
use btree_profiling.Entries.{
  AllBelow, AllAtLeast, IsFalling, has_key, has_key-append, has_key-AllAtLeast, has_key-AllBelow,
  lookup, erase, erase-AllBelow,
}
use btree_profiling.Node.{Geo, bval, getpos}
use btree_profiling.Node.Slots.{IsGeo, key_num, entries, ==-cases}
use btree_profiling.Node.Search.{IsNode, getpos_above, getpos_here}
use btree_profiling.Tree.{descend, find_loop}
use btree_profiling.Tree.Shape.{
  has, has-append, Holds, Disjoint, IsTree, IsForest, leaf, inner, nil, cons, Agree, IsTree-frame,
  IsForest-frame, read_node-Holds,
}
use btree_profiling.Tree.Insert.Walk.{HoldsKey, key_at, read_key-HoldsKey}
use btree_profiling.Tree.Insert.Pick.{Disjoint-sym}
use btree_profiling.Tree.Prev.Walk.{forest_absent}
use btree_profiling.Tree.Prev.Leaves.{LeafOf, at_leaf, through}

erase-append_right :
    (k : ℕ) (e1 e2 : List (ℕ × ℕ)) → has_key k e1 ≡ false → erase k (e1 ++ e2) ≡ e1 ++ erase k e2
erase-append_right k [] e2 h = refl
erase-append_right k ((k', v) ∷ e1) e2 h = ground (arith, erase-append_right k e1 e2)

erase-append_left :
    (k : ℕ) (e1 e2 : List (ℕ × ℕ)) → has_key k e1 ≡ true → erase k (e1 ++ e2) ≡ erase k e1 ++ e2
erase-append_left k [] e2 h = absurd (ground arith)
erase-append_left k ((k', v) ∷ e1) e2 h = ground (arith, erase-append_left k e1 e2)

lookup-append_right :
    (k : ℕ) (e1 e2 : List (ℕ × ℕ)) → has_key k e1 ≡ false → lookup k (e1 ++ e2) ≡ lookup k e2
lookup-append_right k [] e2 h = refl
lookup-append_right k ((k', v) ∷ e1) e2 h = ground (arith, lookup-append_right k e1 e2)

lookup-append_left :
    (k : ℕ) (e1 e2 : List (ℕ × ℕ)) → has_key k e1 ≡ true → lookup k (e1 ++ e2) ≡ lookup k e1
lookup-append_left k [] e2 h = absurd (ground arith)
lookup-append_left k ((k', v) ∷ e1) e2 h = ground (arith, lookup-append_left k e1 e2)

erase-AllAtLeast : (b k : ℕ) (es : List (ℕ × ℕ)) → AllAtLeast b es → AllAtLeast b (erase k es)
erase-AllAtLeast b k [] low = tt
erase-AllAtLeast b k ((k', v') ∷ es) low = ground (arith, erase-AllAtLeast b k es)

AllBelow-append_left : (b : ℕ) (e1 e2 : List (ℕ × ℕ)) → AllBelow b (e1 ++ e2) → AllBelow b e1
AllBelow-append_left b [] e2 h = tt
AllBelow-append_left b ((k, v) ∷ e1) e2 h = (h.0, AllBelow-append_left b e1 e2 h.1)

IsFalling-left : (e1 e2 : List (ℕ × ℕ)) → IsFalling (e1 ++ e2) → IsFalling e1
IsFalling-left [] e2 h = tt
IsFalling-left ((k, v) ∷ e1) e2 h = (AllBelow-append_left k e1 e2 h.0, IsFalling-left e1 e2 h.1)

IsFalling-right : (e1 e2 : List (ℕ × ℕ)) → IsFalling (e1 ++ e2) → IsFalling e2
IsFalling-right [] e2 h = h
IsFalling-right ((k, v) ∷ e1) e2 h = IsFalling-right e1 e2 h.1

-- The child of slot `c`, which holds the key `k`, and the forest once the child has lost it.
record Holder (geo : Geo) (s : State) (d : ℕ) (w : Words) (i n : ℕ) (es : List (ℕ × ℕ))
    (fp : List Addr) (c k : ℕ) : Type 0 where
  pub ec : List (ℕ × ℕ)
  pub fc : List Addr
  pub tree : IsTree geo s d (bval geo w c) ec fc
  pub inside : (b : Addr) → has b fc ≡ true → has b fp ≡ true
  pub there : has_key k ec ≡ true
  pub same : lookup k es ≡ lookup k ec
  pub falling : IsFalling es → IsFalling ec
  pub plug :
      (s' : State)
      → ((b : Addr) → has b fp ≡ true → has b fc ≡ false → s'.word b ≡ s.word b)
      → ((b : Addr) → s'.size b ≡ s.size b)
      → IsTree geo s' d (bval geo w c) (erase k ec) fc
      → IsForest geo s' d w i n (erase k es) fp

module _ {geo : Geo} {s : State} {w : Words} (c k : ℕ) where
  Holder-here :
      {d n : ℕ} {e1 e2 : List (ℕ × ℕ)} {f1 f2 : List Addr}
      → IsTree geo s d (bval geo w c) e1 f1
      → IsForest geo s d w (suc c) n e2 f2
      → Disjoint f1 f2
      → AllAtLeast (key_num geo w c) e1
      → AllBelow (key_num geo w c) e2
      → key_num geo w c ≤ k
      → has_key k (e1 ++ e2) ≡ true
      → Holder geo s d w c (suc n) (e1 ++ e2) (f1 ++ f2) c k
  Holder-here {d} {n} {e1} {e2} {f1} {f2} t f apart low high below there =
      let in_e1 : has_key k e1 ≡ true = ground (
        arith,
        there,
        has_key-append k e1 e2,
        has_key-AllBelow k (key_num geo w c) e2 below high,
      ) in
      record {
        ec = e1;
        fc = f1;
        tree = t;
        inside = λ b h. ground (arith, has-append b f1 f2);
        there = in_e1;
        same = lookup-append_left k e1 e2 in_e1;
        falling = IsFalling-left e1 e2;
        plug = λ s' same sizes t'.
            let agree : Agree f2 s s' = record {
              words =
                  λ a h. same a (ground (arith, has-append a f1 f2)) (Disjoint-sym f1 f2 apart a h);
              sizes = λ x h. sizes x;
            } in
            subst (λ es. IsForest geo s' d w c (suc n) es (f1 ++ f2))
              (sym (erase-append_left k e1 e2 in_e1))
              (cons t' (IsForest-frame f agree) apart (erase-AllAtLeast (key_num geo w c) k e1 low)
                high);
      }

  Holder-later :
      {d i n : ℕ} {e1 e2 : List (ℕ × ℕ)} {f1 f2 : List Addr}
      → IsTree geo s d (bval geo w i) e1 f1
      → Disjoint f1 f2
      → AllAtLeast (key_num geo w i) e1
      → AllBelow (key_num geo w i) e2
      → has_key k e1 ≡ false
      → Holder geo s d w (suc i) n e2 f2 c k
      → Holder geo s d w i (suc n) (e1 ++ e2) (f1 ++ f2) c k
  Holder-later {d} {i} {n} {e1} {e2} {f1} {f2} t apart low high out rest = record {
    ec = rest.ec;
    fc = rest.fc;
    tree = rest.tree;
    inside = λ b h. ground (arith, has-append b f1 f2, rest.inside b);
    there = rest.there;
    same = lookup-append_right k e1 e2 out ∙ rest.same;
    falling = λ h. rest.falling (IsFalling-right e1 e2 h);
    plug = λ s' same sizes t'.
        let agree : Agree f1 s s' = record {
          words = λ a h.
              same a (ground (arith, has-append a f1 f2)) (elim (Bool-cases (has a rest.fc)) [
                | inl there ↦ absurd (ground (arith, apart a, rest.inside a))
                | inr out ↦ out
              ]);
          sizes = λ x h. sizes x;
        } in
        let behind =
          rest.plug s' (λ b h out. same b (ground (arith, has-append b f1 f2)) out) sizes t' in
        subst (λ es. IsForest geo s' d w i (suc n) es (f1 ++ f2))
          (sym (erase-append_right k e1 e2 out))
          (cons (IsTree-frame t agree) behind apart low
            (erase-AllBelow (key_num geo w i) k e2 high));
  }

  hold :
      {d i n : ℕ} {es : List (ℕ × ℕ)} {fp : List Addr}
      → IsForest geo s d w i n es fp
      → i ≤ c
      → c < i + n
      → ((j : ℕ) → j < c → k < key_num geo w j)
      → key_num geo w c ≤ k
      → has_key k es ≡ true
      → Holder geo s d w i n es fp c k
  hold nil p q above below there = absurd (omega arith)
  hold {d} {i} (cons {n} {e1} {e2} {f1} {f2} t f apart low high) p q above below there =
      elim (==-cases i c) [
        | inl e ↦
            rw e
              (Holder-here (rw e at t) (rw e at f) apart (rw e at low) (rw e at high) below there)
        | inr e ↦
            let out = has_key-AllAtLeast k (key_num geo w i) e1 (above i (ground (arith, e))) low in
            Holder-later t apart low high out (
              hold f (ground (arith, e)) (omega arith) above below
                (ground (arith, there, out, has_key-append k e1 e2)))
      ]

-- The leaf that holds the key `k`, and the tree once the leaf has lost it.
pub record Spot (geo : Geo) (s : State) (p : Ptr) (d : ℕ) (a : Addr) (es : List (ℕ × ℕ))
    (fp : List Addr) (k : ℕ) : Type 0 where
  pub b : Addr
  pub fill : ℕ
  pub run : find_loop geo d a p s ≡ ok b s
  pub holds : Holds geo s b fill
  pub inside : has b fp ≡ true
  pub leaf : LeafOf geo s d a b
  pub there : has_key k (entries geo (s.word b) fill) ≡ true
  pub same : lookup k es ≡ lookup k (entries geo (s.word b) fill)
  pub falling : IsFalling es → IsFalling (entries geo (s.word b) fill)
  pub plug :
      (w' : Words) (fill' : ℕ)
      → IsNode geo w' fill'
      → 0 < fill'
      → entries geo w' fill' ≡ erase k (entries geo (s.word b) fill)
      → IsTree geo (set_words s b w') d a (erase k es) fp

module _ {geo : Geo} (g : IsGeo geo) {s : State} {p : Ptr} (hk : HoldsKey geo s p) where
  abbrev key_of : ℕ
  key_of = value (key_at s p) geo.keylen

  Spot-leaf :
      {a : Addr} {fill : ℕ}
      → Holds geo s a fill
      → has_key key_of (entries geo (s.word a) fill) ≡ true
      → Spot geo s p zero a (entries geo (s.word a) fill) (a ∷ []) key_of
  unfolding find_loop set_words update
  Spot-leaf {a} {fill} h there = record {
    b = a;
    fill = fill;
    run = refl;
    holds = h;
    inside = ground arith;
    leaf = at_leaf;
    there = there;
    same = refl;
    falling = λ f. f;
    plug = λ w' fill' is some_pair e.
        let s2 : State = set_words s a w' in
        let here : s2.word a ≡ w' = ground arith in
        subst (λ es. IsTree geo s2 zero a es (a ∷ [])) (ap (λ w. entries geo w fill') here ∙ e)
          (leaf (record {
            ne_null = h.ne_null;
            live = h.live;
            node = rw here is;
            some_pair = some_pair;
          }));
  }

  descend-bval :
      {a : Addr} {fill : ℕ}
      → Holds geo s a fill
      → getpos geo (s.word a) (key_at s p) < fill
      → descend geo a p s ≡ ok (bval geo (s.word a) (getpos geo (s.word a) (key_at s p))) s
  unfolding descend
  descend-bval {a} h inside = ground (
    arith,
    read_node-Holds h,
    read_key-HoldsKey hk,
    h.node.used (getpos geo (s.word a) (key_at s p)) inside,
    h.node.within,
  )

  Spot-inner :
      {d : ℕ} {a : Addr} {fill : ℕ} {es : List (ℕ × ℕ)} {fp : List Addr}
      → Holds geo s a fill
      → has a fp ≡ false
      → getpos geo (s.word a) (key_at s p) < fill
      → (r : Holder geo s d (s.word a) 0 fill es fp (getpos geo (s.word a) (key_at s p)) key_of)
      → Spot geo s p d (bval geo (s.word a) (getpos geo (s.word a) (key_at s p))) r.ec r.fc key_of
      → Spot geo s p (suc d) a es (a ∷ fp) key_of
  unfolding find_loop set_words update
  Spot-inner {d} {a} {fill} {es} {fp} h out inside r q =
      let i = getpos geo (s.word a) (key_at s p) in
      record {
        b = q.b;
        fill = q.fill;
        run = rw (descend-bval h inside) q.run;
        holds = q.holds;
        inside = ground (arith, q.inside, r.inside q.b);
        leaf = through i (h.node.used i inside) (omega (arith, inside, h.node.within)) q.leaf;
        there = q.there;
        same = r.same ∙ q.same;
        falling = λ f. q.falling (r.falling f);
        plug = λ w' fill' is some_pair e.
            let s2 : State = set_words s q.b w' in
            let kept : s2.word a ≡ s.word a = ground (arith, q.inside, r.inside q.b) in
            let forest =
              r.plug s2 (λ c i o. ground (arith, q.inside)) (λ c. refl)
                (q.plug w' fill' is some_pair e) in
            inner
              (record {
                ne_null = h.ne_null;
                live = h.live;
                node = rw kept h.node;
                some_pair = h.some_pair;
              })
              out (subst (λ w. IsForest geo s2 d w 0 fill (erase key_of es) fp) (sym kept) forest);
      }

  -- `find_level` goes to the leaf that holds a key of the tree, and changes nothing.
  pub find_loop-Spot :
      (d : ℕ) {a : Addr} {es : List (ℕ × ℕ)} {fp : List Addr}
      → IsTree geo s d a es fp
      → has_key key_of es ≡ true
      → Spot geo s p d a es fp key_of
  find_loop-Spot zero (leaf h) there = Spot-leaf h there
  find_loop-Spot (suc d) (inner {a} {fill} {es} {fp} h out f) there =
      let w = s.word a in
      let key = key_at s p in
      let i = getpos geo w key in
      let front : (j : ℕ) → j < i → key_of < key_num geo w j =
        λ j q. getpos_above geo g w key j h.node.words hk.words q in
      let inside : i < fill = elim (Bool-cases (ltb i fill)) [
        | inl less ↦ ground (arith, less)
        | inr more ↦
            absurd (
              ground (arith, there, forest_absent key_of f (λ j q. front j (ground (arith, more)))))
      ] in
      let below =
        getpos_here geo g w key h.node.words hk.words (omega (arith, inside, h.node.within)) in
      let r = hold i key_of f (omega arith) (omega (arith, inside)) front below there in
      Spot-inner h out inside r (find_loop-Spot d r.tree r.there)
