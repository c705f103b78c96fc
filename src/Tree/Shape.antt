-- ===== src/Tree/Shape.antt =====
-- What a tree in memory stands for: `IsTree geo s depth a es fp` says that at address `a` stands a tree
-- of cbtree_base.c, `depth` levels above its leaves, with the entries `es` in the nodes `fp`.
use btree_profiling.Common.{
  ℕ, zero, suc, ◌+◌, ◌≤◌, ◌<◌, ◌≡◌, ◌≢◌, refl, sym, subst, Bool, true, false, ◌||◌, List, [], ◌∷◌,
  ◌++◌, arith, ◌==◌, ap, Bool-cases, inl, inr,
}
use btree_profiling.Memory.{Addr, null, Words, State, ok}
use btree_profiling.Entries.{AllBelow, AllAtLeast}
use btree_profiling.Node.{Geo, bval}
use btree_profiling.Node.Slots.{IsGeo, key_num, entries}
use btree_profiling.Node.Search.{IsNode}
use btree_profiling.Tree.{read_node}

abbrev pub has : Addr → List Addr → Bool
has a [] = false
has a (b ∷ fp) = (a == b) || has a fp

abbrev pub Disjoint : List Addr → List Addr → Type 0
Disjoint f1 f2 = (a : Addr) → has a f1 ≡ true → has a f2 ≡ false

-- A block that holds a node with `fill` pairs, at least one.
pub record Holds (geo : Geo) (s : State) (a : Addr) (fill : ℕ) : Type 0 where
  pub ne_null : a ≢ null
  pub live : geo.no_longs + geo.no_pairs ≤ s.size a
  pub node : IsNode geo (s.word a) fill
  pub some_pair : 0 < fill

-- The key of a parent is at most every key of its child, and above every key of the children behind.
mutual
  pub data IsTree (geo : Geo) (s : State) : ℕ → Addr → List (ℕ × ℕ) → List Addr → Type 0 where
    leaf :
        {a : Addr} {fill : ℕ}
        → Holds geo s a fill
        → IsTree geo s zero a (entries geo (s.word a) fill) (a ∷ [])
    inner :
        {d : ℕ} {a : Addr} {fill : ℕ} {es : List (ℕ × ℕ)} {fp : List Addr}
        → Holds geo s a fill
        → has a fp ≡ false
        → IsForest geo s d (s.word a) 0 fill es fp
        → IsTree geo s (suc d) a es (a ∷ fp)

  -- The children in `n` slots of the node `w` from slot `i` on.
  pub data IsForest (geo : Geo) (s : State)
      : ℕ → Words → ℕ → ℕ → List (ℕ × ℕ) → List Addr → Type 0 where
    nil : {d : ℕ} {w : Words} {i : ℕ} → IsForest geo s d w i zero [] []
    cons :
        {d : ℕ} {w : Words} {i n : ℕ} {e1 e2 : List (ℕ × ℕ)} {f1 f2 : List Addr}
        → IsTree geo s d (bval geo w i) e1 f1
        → IsForest geo s d w (suc i) n e2 f2
        → Disjoint f1 f2
        → AllAtLeast (key_num geo w i) e1
        → AllBelow (key_num geo w i) e2
        → IsForest geo s d w i (suc n) (e1 ++ e2) (f1 ++ f2)

module _ {geo : Geo} {s : State} where
  pub read_node-Holds :
      {a : Addr} {fill : ℕ} → Holds geo s a fill → read_node geo a s ≡ ok (s.word a) s
  unfolding read_node
  read_node-Holds h = ground arith

  -- The root of a tree is a node.
  pub IsTree-Holds :
      {d : ℕ} {a : Addr} {es : List (ℕ × ℕ)} {fp : List Addr}
      → IsTree geo s d a es fp
      → (fill : ℕ) × Holds geo s a fill
  IsTree-Holds (leaf h) = (_, h)
  IsTree-Holds (inner h out f) = (_, h)

pub root_inside :
    {geo : Geo} {s : State} {d : ℕ} {a : Addr} {es : List (ℕ × ℕ)} {fp : List Addr}
    → IsTree geo s d a es fp
    → has a fp ≡ true
root_inside (leaf h) = ground arith
root_inside (inner h out f) = ground arith

-- The tree of the state's head.
pub record IsCbtree (geo : Geo) (s : State) (d : ℕ) (es : List (ℕ × ℕ)) (fp : List Addr)
    : Type 0 where
  pub height : s.head.height ≡ suc d
  pub tree : IsTree geo s d s.head.node es fp

-- `s'` holds at the addresses of `fp` what `s` does.
pub record Agree (fp : List Addr) (s s' : State) : Type 0 where
  pub words : (a : Addr) → has a fp ≡ true → s'.word a ≡ s.word a
  pub sizes : (a : Addr) → has a fp ≡ true → s'.size a ≡ s.size a

pub has-append : (a : Addr) (f1 f2 : List Addr) → has a (f1 ++ f2) ≡ (has a f1 || has a f2)
has-append a [] f2 = refl
has-append a (b ∷ f1) f2 = ground (arith, has-append a f1 f2)

module _ {s s' : State} where
  pub Agree-left : (f1 f2 : List Addr) → Agree (f1 ++ f2) s s' → Agree f1 s s'
  Agree-left f1 f2 g = record {
    words = λ a h. g.words a (ground (arith, has-append a f1 f2));
    sizes = λ a h. g.sizes a (ground (arith, has-append a f1 f2));
  }

  pub Agree-right : (f1 f2 : List Addr) → Agree (f1 ++ f2) s s' → Agree f2 s s'
  Agree-right f1 f2 g = record {
    words = λ a h. g.words a (ground (arith, has-append a f1 f2));
    sizes = λ a h. g.sizes a (ground (arith, has-append a f1 f2));
  }

  pub Agree-tail : (a : Addr) (fp : List Addr) → Agree (a ∷ fp) s s' → Agree fp s s'
  Agree-tail a fp g = record {
    words = λ b h. g.words b (ground arith);
    sizes = λ b h. g.sizes b (ground arith);
  }

  pub Agree-head : (a : Addr) (fp : List Addr) → Agree (a ∷ fp) s s' → s'.word a ≡ s.word a
  Agree-head a fp g = g.words a (ground arith)

  pub Holds-frame :
      {geo : Geo} {a : Addr} {fill : ℕ}
      → Holds geo s a fill
      → s'.word a ≡ s.word a
      → s'.size a ≡ s.size a
      → Holds geo s' a fill
  Holds-frame h ew es = record {
    ne_null = h.ne_null;
    live = rw es h.live;
    node = rw ew h.node;
    some_pair = h.some_pair;
  }

  -- A tree survives any change that spares its own nodes.
  mutual
    pub IsTree-frame :
        {geo : Geo} {d : ℕ} {a : Addr} {es : List (ℕ × ℕ)} {fp : List Addr}
        → IsTree geo s d a es fp
        → Agree fp s s'
        → IsTree geo s' d a es fp
    IsTree-frame {geo} (leaf {a} {fill} h) g =
        let ew = Agree-head a [] g in
        subst (λ w. IsTree geo s' zero a (entries geo w fill) (a ∷ [])) ew
          (leaf (Holds-frame h ew (g.sizes a (ground arith))))
    IsTree-frame {geo} (inner {d} {a} {fill} {es} {fp} h out f) g =
        let ew = Agree-head a fp g in
        inner (Holds-frame h ew (g.sizes a (ground arith))) out (
          subst (λ w. IsForest geo s' d w 0 fill es fp) (sym ew)
            (IsForest-frame f (Agree-tail a fp g)))

    pub IsForest-frame :
        {geo : Geo} {d : ℕ} {w : Words} {i n : ℕ} {es : List (ℕ × ℕ)} {fp : List Addr}
        → IsForest geo s d w i n es fp
        → Agree fp s s'
        → IsForest geo s' d w i n es fp
    IsForest-frame nil g = nil
    IsForest-frame (cons {f1} {f2} t f apart low high) g =
        cons (IsTree-frame t (Agree-left f1 f2 g)) (IsForest-frame f (Agree-right f1 f2 g)) apart
          low high

module _ {geo : Geo} (g : IsGeo geo) {s : State} where
  -- The nodes of a tree live.
  mutual
    pub IsTree-live :
        {d : ℕ} {a : Addr} {es : List (ℕ × ℕ)} {fp : List Addr}
        → IsTree geo s d a es fp
        → (x : Addr) → has x fp ≡ true
        → s.size x ≢ 0
    IsTree-live (leaf {a} h) x i = λ e.
        omega (arith, h.live, h.some_pair, h.node.within, ap s.size {x = x} {y = a} (ground arith))
    IsTree-live (inner {a} {fp} h out f) x i = elim (Bool-cases (x == a)) [
      | inl e ↦ λ z.
          omega (
            arith,
            h.live,
            h.some_pair,
            h.node.within,
            ap s.size {x = x} {y = a} (ground (arith, e)),
          )
      | inr e ↦ IsForest-live f x (ground (arith, e))
    ]

    pub IsForest-live :
        {d : ℕ} {w : Words} {i n : ℕ} {es : List (ℕ × ℕ)} {fp : List Addr}
        → IsForest geo s d w i n es fp
        → (x : Addr) → has x fp ≡ true
        → s.size x ≢ 0
    IsForest-live nil x i = absurd (ground arith)
    IsForest-live (cons {f1} {f2} t f apart low high) x i = elim (Bool-cases (has x f1)) [
      | inl e ↦ IsTree-live t x e
      | inr e ↦ IsForest-live f x (ground (arith, e, has-append x f1 f2))
    ]
