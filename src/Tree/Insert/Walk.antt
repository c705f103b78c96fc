-- ===== src/Tree/Insert/Walk.antt =====
-- The way down to the leaf that takes a new key, `find_level` of cbtree_base.c, in a tree of any height.
use btree_profiling.Common.{
  ℕ, zero, suc, ◌≤◌, ◌<◌, ◌≡◌, ◌≢◌, refl, sym, ap, subst, ◌∙◌, inl, inr, true, false, Bool-cases,
  List, [], ◌∷◌, arith, ltb,
}
use btree_profiling.Memory.{Addr, null, Words, State, ok, Ptr, update, set_words}
use btree_profiling.Words.Order.{value}
use btree_profiling.Entries.{has_key, insert}
use btree_profiling.Node.{Geo, bval}
use btree_profiling.Node.Slots.{IsGeo, key_num, entries, ==-cases}
use btree_profiling.Node.Search.{IsNode, bval_unused}
use btree_profiling.Tree.{find_loop}
use btree_profiling.Tree.Shape.{has, Holds, IsTree, IsForest, leaf, inner, Agree, IsTree-frame}
use btree_profiling.Tree.Prev.Walk.{ParentKeys, ParentKeys-mono}
use btree_profiling.Tree.Prev.Frame.{ParentKeys-frame}
use btree_profiling.Tree.Insert.Pick.{Picked, Lowered, pick}
pub use btree_profiling.Tree.Insert.Step.{HoldsKey, HoldsKey-frame, key_at, read_key-HoldsKey}
use btree_profiling.Tree.Insert.Step.{Step, descend-Step}

-- The leaf that takes the key `k`, and the tree once the leaf has taken it.
pub record Walk (geo : Geo) (s : State) (p : Ptr) (d : ℕ) (a : Addr) (es : List (ℕ × ℕ))
    (fp : List Addr) (k v : ℕ) : Type 0 where
  pub b : Addr
  pub fill : ℕ
  pub s1 : State
  pub run : find_loop geo d a p s ≡ ok b s1
  pub holds : Holds geo s1 b fill
  pub inside : has b fp ≡ true
  pub same : (c : Addr) → has c fp ≡ false → s1.word c ≡ s.word c
  pub sizes : (c : Addr) → s1.size c ≡ s.size c
  pub head : s1.head ≡ s.head
  pub absent : has_key k es ≡ false → has_key k (entries geo (s1.word b) fill) ≡ false
  pub keys :
      (w' : Words) (bound : ℕ)
      → bound ≤ k
      → ParentKeys geo s bound d a
      → ParentKeys geo (set_words s1 b w') bound d a
  pub plug :
      (w' : Words) (fill' : ℕ)
      → IsNode geo w' fill'
      → 0 < fill'
      → entries geo w' fill' ≡ insert k v (entries geo (s1.word b) fill)
      → IsTree geo (set_words s1 b w') d a (insert k v es) fp

not_inside :
    (c : Addr) (sub fp : List Addr)
    → (has c sub ≡ true → has c fp ≡ true)
    → has c fp ≡ false
    → has c sub ≡ false
not_inside c sub fp inside out = elim (Bool-cases (has c sub)) [
  | inl there ↦ absurd (ground (arith, inside there))
  | inr o ↦ o
]

module _ {geo : Geo} (g : IsGeo geo) (p : Ptr) (k v : ℕ) where
  Walk-leaf :
      {s : State} {a : Addr} {fill : ℕ}
      → Holds geo s a fill
      → Walk geo s p zero a (entries geo (s.word a) fill) (a ∷ []) k v
  unfolding find_loop set_words update
  Walk-leaf {s} {a} {fill} h = record {
    b = a;
    fill = fill;
    s1 = s;
    run = refl;
    holds = h;
    inside = ground arith;
    same = λ c out. refl;
    sizes = λ c. refl;
    head = refl;
    absent = λ e. e;
    keys = λ w' bound le h. h;
    plug = λ w' fill' is some_pair e.
        let s2 : State = set_words s a w' in
        let here : s2.word a ≡ w' = ground arith in
        subst (λ es. IsTree geo s2 zero a es (a ∷ [])) (ap (λ w. entries geo w fill') here ∙ e)
          (leaf (record {
            ne_null = h.ne_null;
            live = h.live;
            node = rw here is;
            some_pair = some_pair;
          }));
  }

  -- The parent keys once the leaf has changed.
  inner_keys :
      {s : State} {d : ℕ} {a : Addr} {fill : ℕ} {es : List (ℕ × ℕ)} {fp : List Addr}
      → Holds geo s a fill
      → has a fp ≡ false
      → (st : Step geo s p a fill)
        (pk : Picked geo s d (s.word a) (st.s'.word a) 0 fill es fp st.c k v)
        (r : Walk geo st.s' p d (bval geo (s.word a) st.c) pk.ec pk.fc k v)
      → k ≡ value (key_at s p) geo.keylen
      → (w' : Words) (bound : ℕ) → bound ≤ k
      → ParentKeys geo s bound (suc d) a
      → ParentKeys geo (set_words r.s1 r.b w') bound (suc d) a
  unfolding set_words update
  inner_keys {s} {d} {a} {fill} {fp} h out st pk r is w' bound le keys =
      let s2 : State = set_words r.s1 r.b w' in
      let w = s.word a in
      let u = st.s'.word a in
      let c = st.c in
      let kc = key_num geo u c in
      let sizes : (x : Addr) → s2.size x ≡ s.size x = λ x. r.sizes x ∙ st.sizes x in
      let a_out : has a pk.fc ≡ false = not_inside a pk.fc fp (pk.inside a) out in
      let kept : s2.word a ≡ u = ground (arith, r.same a a_out, r.inside) in
      let at_c : (bound ≤ kc) × ParentKeys geo s2 kc d (bval geo u c) =
        let room : c < geo.no_pairs = omega (arith, st.inside, h.node.within) in
        let (low, under) = keys c room (h.node.used c st.inside) in
        let agree : Agree pk.fc s st.s' = record {
          words = λ x i. st.same x (ground (arith, pk.inside x i));
          sizes = λ x i. st.sizes x;
        } in
        let framed = ParentKeys-frame g {s' = st.s'} d kc pk.tree agree (
          ParentKeys-mono geo s kc (key_num geo w c) d (bval geo w c) st.lowered.below_old under) in
        (
          elim st.key_is [ inl same ↦ omega arith | inr same ↦ omega arith ],
          subst (ParentKeys geo s2 kc d) (sym (st.lowered.vals c))
              (r.keys w' kc (omega (arith, st.lowered.below_key)) framed),
        ) in
      subst
        (λ x.
          (i : ℕ)
          → i < geo.no_pairs
          → bval geo x i ≢ null
          → (bound ≤ key_num geo x i) × ParentKeys geo s2 (key_num geo x i) d (bval geo x i))
        (sym kept)
        (λ i room used. elim (==-cases i c) [
          | inl e ↦
              subst
                (λ i.
                  (bound ≤ key_num geo u i) × ParentKeys geo s2 (key_num geo u i) d (bval geo u i))
                (sym e) at_c
          | inr e ↦
              let used0 : bval geo w i ≢ null = λ z. used (st.lowered.vals i ∙ z) in
              let ne : i ≢ c = ground (arith, e) in
              let inside : i < fill = elim (Bool-cases (ltb i fill)) [
                | inl less ↦ ground (arith, less)
                | inr more ↦
                    absurd (used0 (bval_unused geo g w fill h.node i (ground (arith, more)) room))
              ] in
              let o = pk.others i (omega arith) (omega arith) ne in
              let (low, under) = keys i room used0 in
              let agree : Agree o.nodes s s2 = record {
                words = λ x m. ground (
                  arith,
                  o.apart x m,
                  r.inside,
                  r.same x (o.apart x m),
                  st.same x,
                  o.inside x m,
                  out,
                );
                sizes = λ x m. sizes x;
              } in
              let framed = ParentKeys-frame g {s' = s2} d (key_num geo w i) o.tree agree under in
              let ek = st.lowered.keys i ne room in
              (
                omega (arith, low, ek),
                subst (ParentKeys geo s2 (key_num geo u i) d) (sym (st.lowered.vals i))
                    (subst (λ b. ParentKeys geo s2 b d (bval geo w i)) (sym ek) framed),
              )
        ])

  Walk-inner :
      {s : State} {d : ℕ} {a : Addr} {fill : ℕ} {es : List (ℕ × ℕ)} {fp : List Addr}
      → Holds geo s a fill
      → has a fp ≡ false
      → (st : Step geo s p a fill)
        (pk : Picked geo s d (s.word a) (st.s'.word a) 0 fill es fp st.c k v)
      → Walk geo st.s' p d (bval geo (s.word a) st.c) pk.ec pk.fc k v
      → k ≡ value (key_at s p) geo.keylen
      → Walk geo s p (suc d) a es (a ∷ fp) k v
  unfolding find_loop set_words update
  Walk-inner {s} {d} {a} {fill} {es} {fp} h out st pk r e = record {
    b = r.b;
    fill = r.fill;
    s1 = r.s1;
    run = rw st.run r.run;
    holds = r.holds;
    inside = ground (arith, r.inside, pk.inside r.b);
    same = λ c o.
        r.same c (not_inside c pk.fc fp (pk.inside c) (ground arith)) ∙ st.same c (ground arith);
    sizes = λ c. r.sizes c ∙ st.sizes c;
    head = r.head ∙ st.head;
    absent = λ e. r.absent (pk.absent e);
    keys = inner_keys h out st pk r e;
    plug = λ w' fill' is some_pair left_over.
        let s2 : State = set_words r.s1 r.b w' in
        let a_out : has a pk.fc ≡ false = not_inside a pk.fc fp (pk.inside a) out in
        let kept : s2.word a ≡ st.s'.word a = ground (arith, r.same a a_out, r.inside) in
        let sizes : (c : Addr) → s2.size c ≡ s.size c = λ c. r.sizes c ∙ st.sizes c in
        let forest =
          pk.plug s2 (λ c i o. ground (arith, r.same c o, st.same c, r.inside)) sizes
            (r.plug w' fill' is some_pair left_over) in
        inner
          (record {
            ne_null = h.ne_null;
            live = rw (sizes a) h.live;
            node = rw kept st.node;
            some_pair = h.some_pair;
          })
          out (subst (λ w. IsForest geo s2 d w 0 fill (insert k v es) fp) (sym kept) forest);
  }

  -- `find_level` goes to a leaf, and the tree in which that leaf has taken the key has taken it.
  pub find_loop-Walk :
      (d : ℕ) {s : State} {a : Addr} {es : List (ℕ × ℕ)} {fp : List Addr}
      → IsTree geo s d a es fp
      → HoldsKey geo s p
      → k ≡ value (key_at s p) geo.keylen
      → has p.block fp ≡ false
      → Walk geo s p d a es fp k v
  find_loop-Walk zero (leaf h) hk e out = Walk-leaf h
  find_loop-Walk (suc d) {s} (inner {a} {fill} {es} {fp} h o f) hk e out =
      let st = descend-Step g hk h in
      let pk : Picked geo s d (s.word a) (st.s'.word a) 0 fill es fp st.c k v =
        pick v (subst (Lowered geo (s.word a) (st.s'.word a) st.c) (sym e) st.lowered) f
          (omega arith) (omega (arith, st.inside)) (omega (arith, h.node.within))
          (λ j q. omega (arith, st.above j q))
          (elim st.last [ inl l ↦ inl l | inr l ↦ inr (omega arith) ]) in
      let agree : Agree pk.fc s st.s' = record {
        words = λ c i. st.same c (ground (arith, pk.inside c i));
        sizes = λ c i. st.sizes c;
      } in
      let key_kept : st.s'.word p.block ≡ s.word p.block = st.same p.block (ground arith) in
      Walk-inner h o st pk
        (find_loop-Walk d (IsTree-frame pk.tree agree)
          (HoldsKey-frame st.s' hk key_kept (st.sizes p.block)) (rw (key_at, key_kept) e)
          (not_inside p.block pk.fc fp (pk.inside p.block) (ground arith)))
        e
