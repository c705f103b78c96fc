-- ===== src/Tree/Prev/Walk.antt =====
-- One walk of `cbtree_get_prev` of cbtree_base.c, from the root of a tree of any height to a leaf.
use btree_profiling.Common.{
  false, ℕ, zero, suc, ◌+◌, ◌≤◌, ◌<◌, ◌≡◌, ◌≢◌, refl, subst, ◌∙◌, arith, ltb, ◌==◌, List, [], ◌∷◌,
  ◌++◌, Option, some, none, Bool-cases, inl, inr,
}
use btree_profiling.Memory.{Addr, null, Words, State, ok}
use btree_profiling.Words.Order.{value, IsWords}
use btree_profiling.Entries.{
  AllBelow, AllAtLeast, before, has_key, has_key-append, has_key-AllAtLeast,
}
use btree_profiling.Node.{Geo, bkey, bval, getpos}
use btree_profiling.Node.Slots.{IsGeo, key_num}
use btree_profiling.Node.Search.{getpos_above, getpos_here, getpos-le-fill, bval_unused}
use btree_profiling.Tree.Shape.{Holds, IsTree, IsForest, nil, cons, read_node-Holds}
use btree_profiling.Tree.Prev.{prev_walk, prev_in_leaf}
use btree_profiling.Tree.Prev.Leaf.{as_entry}

pub before-append :
    (k : ℕ) (e1 e2 : List (ℕ × ℕ)) → before k e1 ≡ none → before k (e1 ++ e2) ≡ before k e2
before-append k [] e2 h = refl
before-append k ((k', v) ∷ e1) e2 h = ground (arith, before-append k e1 e2)

pub before-append_found :
    (k : ℕ) (e1 e2 : List (ℕ × ℕ)) (e : ℕ × ℕ) → before k e1 ≡ some e → before k (e1 ++ e2) ≡ some e
before-append_found k [] e2 e h = absurd (ground arith)
before-append_found k ((k', v) ∷ e1) e2 e h = ground (arith, before-append_found k e1 e2 e)

pub before-AllAtLeast : (k b : ℕ) (es : List (ℕ × ℕ)) → k ≤ b → AllAtLeast b es → before k es ≡ none
before-AllAtLeast k b [] h low = refl
before-AllAtLeast k b ((k', v) ∷ es) h low = ground (arith, before-AllAtLeast k b es)

-- Above all keys the bound does not matter.
pub before-AllBelow :
    (j k b : ℕ) (es : List (ℕ × ℕ)) → b ≤ j → b ≤ k → AllBelow b es → before j es ≡ before k es
before-AllBelow j k b [] hj hk below = refl
before-AllBelow j k b ((k', v) ∷ es) hj hk below = ground arith

pub before-none_mono :
    (j k : ℕ) (es : List (ℕ × ℕ)) → j ≤ k → before k es ≡ none → before j es ≡ none
before-none_mono j k [] h e = refl
before-none_mono j k ((k', v) ∷ es) h e = ground (arith, before-none_mono j k es)

-- The parent keys of a tree are at least `b`, and those of a child at least the child's own.
abbrev pub ParentKeys : Geo → State → ℕ → ℕ → Addr → Type 0
ParentKeys geo s b zero a = Unit {0}
ParentKeys geo s b (suc d) a =
    (i : ℕ)
    → i < geo.no_pairs
    → bval geo (s.word a) i ≢ null
    → (b ≤ key_num geo (s.word a) i)
      × ParentKeys geo s (key_num geo (s.word a) i) d (bval geo (s.word a) i)

pub ParentKeys-mono :
    (geo : Geo) (s : State) (j b d : ℕ) (a : Addr)
    → j ≤ b
    → ParentKeys geo s b d a
    → ParentKeys geo s j d a
ParentKeys-mono geo s j b zero a h keys = tt
ParentKeys-mono geo s j b (suc d) a h keys =
    λ i p used. let (bound, below) = keys i p used in (omega (arith, h, bound), below)

-- The child of slot `c` and those behind it. The entries before it are above the number `l`.
pub record Child (geo : Geo) (s : State) (d : ℕ) (w : Words) (c l stop : ℕ) (es : List (ℕ × ℕ))
    : Type 0 where
  pub here : List (ℕ × ℕ)
  pub behind : List (ℕ × ℕ)
  pub nodes : List Addr
  pub nodes_behind : List Addr
  pub left : ℕ
  pub tree : IsTree geo s d (bval geo w c) here nodes
  pub forest : IsForest geo s d w (suc c) left behind nodes_behind
  pub count : suc c + left ≡ stop
  pub low : AllAtLeast (key_num geo w c) here
  pub high : AllBelow (key_num geo w c) behind
  pub same : (k : ℕ) → k ≤ l + 1 → before k es ≡ before k (here ++ behind)
  pub there : has_key l es ≡ has_key l (here ++ behind)

module _ {geo : Geo} {s : State} where
  pub forest_none :
      {d i n : ℕ} {w : Words} {es : List (ℕ × ℕ)} {fp : List Addr} (l : ℕ)
      → IsForest geo s d w i n es fp
      → ((j : ℕ) → j < i + n → l < key_num geo w j)
      → before (l + 1) es ≡ none
  forest_none l nil above = refl
  forest_none {i} {n = suc n} {w} l (cons {e1} {e2} t f apart low high) above =
      before-append (l + 1) e1 e2
        (before-AllAtLeast (l + 1) (key_num geo w i) e1 (omega (arith, above i (omega arith))) low)
      ∙ forest_none l f (λ j q. above j (omega arith))

  pub forest_absent :
      {d i n : ℕ} {w : Words} {es : List (ℕ × ℕ)} {fp : List Addr} (l : ℕ)
      → IsForest geo s d w i n es fp
      → ((j : ℕ) → j < i + n → l < key_num geo w j)
      → has_key l es ≡ false
  forest_absent l nil above = refl
  forest_absent {i} {n = suc n} {w} l (cons {e1} {e2} t f apart low high) above = ground (
    arith,
    has_key-append l e1 e2,
    has_key-AllAtLeast l (key_num geo w i) e1 (above i (omega arith)) low,
    forest_absent l f (λ j q. above j (omega arith)),
  )

  pub forest-Child :
      {d i n : ℕ} {w : Words} {es : List (ℕ × ℕ)} {fp : List Addr} (l c stop : ℕ)
      → IsForest geo s d w i n es fp
      → i + n ≡ stop
      → i ≤ c
      → c < stop
      → ((j : ℕ) → j < c → l < key_num geo w j)
      → Child geo s d w c l stop es
  forest-Child l c stop nil e p q above = absurd (omega arith)
  forest-Child {d} {i} {n = suc n} {w} l c stop (cons {e1} {e2} {f1} {f2} t f apart low high) e p q
        above =
      elim (Bool-cases (i == c)) [
        | inl here ↦
            subst (λ c. Child geo s d w c l stop (e1 ++ e2)) (ground (arith, here))
              (record {
                here = e1;
                behind = e2;
                nodes = f1;
                nodes_behind = f2;
                left = n;
                tree = t;
                forest = f;
                count = omega arith;
                low = low;
                high = high;
                same = λ k h. refl;
                there = refl;
              })
        | inr there ↦
            let r =
              forest-Child l c stop f (omega arith) (ground (arith, there)) (omega arith) above in
            record {
              here = r.here;
              behind = r.behind;
              nodes = r.nodes;
              nodes_behind = r.nodes_behind;
              left = r.left;
              tree = r.tree;
              forest = r.forest;
              count = r.count;
              low = r.low;
              high = r.high;
              same = λ k h.
                  before-append k e1 e2 (
                    before-AllAtLeast k (key_num geo w i) e1
                      (omega (arith, above i (ground (arith, there)))) low)
                  ∙ r.same k h;
              there = ground (
                arith,
                has_key-append l e1 e2,
                has_key-AllAtLeast l (key_num geo w i) e1 (above i (ground (arith, there))) low,
                r.there,
              );
            }
      ]

-- What a walk from `a` comes to: the entry, nothing and no parent key met, or nothing and a parent key,
-- of level `h`, to go on with, and then the walk from there, which only stops short above `h`.
pub data Walked (geo : Geo) (s : State) (d : ℕ) (a : Addr) (es : List (ℕ × ℕ)) (b : ℕ)
    : ℕ → Words → Type 0 where
  found :
      {m : ℕ} {lower : Words} (e : ℕ × Words)
      → before (value lower geo.keylen + 1) es ≡ as_entry geo (some e)
      → ((rk : Option Words)
          → (n : Addr) × (rk' : Option Words) × (prev_walk geo d a lower rk s ≡ ok (n, rk') s)
            × (prev_in_leaf geo n lower s ≡ ok (some e) s))
      → Walked geo s d a es b m lower
  missed :
      {m : ℕ} {lower : Words}
      → before (value lower geo.keylen + 1) es ≡ none
      → ((rk : Option Words)
          → (n : Addr) × (prev_walk geo d a lower rk s ≡ ok (n, rk) s)
            × (prev_in_leaf geo n lower s ≡ ok none s))
      → Walked geo s d a es b m lower
  again :
      {m : ℕ} {lower : Words} (h : ℕ) (k : Words)
      → m < h
      → h ≤ d
      → IsWords k geo.keylen
      → b ≤ value k geo.keylen
      → value k geo.keylen ≤ value lower geo.keylen
      → before (value lower geo.keylen + 1) es ≡ before (value k geo.keylen) es
      → ((rk : Option Words)
          → (n : Addr) × (prev_walk geo d a lower rk s ≡ ok (n, some k) s)
            × (prev_in_leaf geo n lower s ≡ ok none s))
      → ((lower' : Words)
          → IsWords lower' geo.keylen
          → value lower' geo.keylen + 1 ≡ value k geo.keylen
          → Walked geo s d a es b h lower')
      → Walked geo s d a es b m lower

module _ {geo : Geo} (g : IsGeo geo) {s : State} where
  pub getpos_first :
      {a : Addr} {fill : ℕ} (lower : Words) (c : ℕ)
      → Holds geo s a fill
      → IsWords lower geo.keylen
      → c < fill
      → ((j : ℕ) → j < c → value lower geo.keylen < key_num geo (s.word a) j)
      → key_num geo (s.word a) c ≤ value lower geo.keylen
      → getpos geo (s.word a) lower ≡ c
  getpos_first {a} {fill} lower c h wl p above here =
      let w = s.word a in
      let i = getpos geo w lower in
      elim (Bool-cases (ltb i c)) [
        | inl less ↦ absurd (
            omega (
              arith,
              above i (ground arith),
              h.node.within,
              getpos_here geo g w lower h.node.words wl (ground (arith, h.node.within)),
            ))
        | inr more ↦ elim (Bool-cases (i == c)) [
          | inl e ↦ ground (arith, e)
          | inr ne ↦ absurd (
              omega
                (arith, getpos_above geo g w lower c h.node.words wl (ground (arith, more, ne))))
        ]
      ]

  pub getpos_none :
      {a : Addr} {fill : ℕ} (lower : Words)
      → Holds geo s a fill
      → IsWords lower geo.keylen
      → ((j : ℕ) → j < fill → value lower geo.keylen < key_num geo (s.word a) j)
      → getpos geo (s.word a) lower ≡ fill
  getpos_none {a} {fill} lower h wl above =
      let w = s.word a in
      let i = getpos geo w lower in
      let le = getpos-le-fill geo g w fill h.node lower wl in
      elim (Bool-cases (ltb i fill)) [
        | inl less ↦ absurd (
            omega (
              arith,
              above i (ground arith),
              h.node.within,
              getpos_here geo g w lower h.node.words wl (ground (arith, h.node.within)),
            ))
        | inr more ↦ ground (arith, more, le)
      ]

  -- One level down, or none where no key fits.
  pub walk_down :
      {a : Addr} {fill : ℕ} (d : ℕ) (lower : Words) (c : ℕ) (rk : Option Words)
      → Holds geo s a fill
      → c < fill
      → getpos geo (s.word a) lower ≡ c
      → prev_walk geo (suc d) a lower rk s
        ≡ prev_walk geo d (bval geo (s.word a) c) lower (some (bkey geo (s.word a) c)) s
  unfolding prev_walk
  walk_down d lower c rk h p e =
      ground (arith, read_node-Holds h, e, h.node.used c p, h.node.within)

  pub walk_stops :
      {a : Addr} {fill : ℕ} (d : ℕ) (lower : Words) (rk : Option Words)
      → Holds geo s a fill
      → getpos geo (s.word a) lower ≡ fill
      → prev_walk geo (suc d) a lower rk s ≡ ok (null, rk) s
  unfolding prev_walk
  walk_stops {a} {fill} d lower rk h e =
      ground
        (arith, read_node-Holds h, e, bval_unused geo g (s.word a) fill h.node fill, h.node.within)

  pub null_leaf : (lower : Words) → prev_in_leaf geo null lower s ≡ ok none s
  unfolding prev_in_leaf
  null_leaf lower = refl
