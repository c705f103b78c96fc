-- ===== src/Tree/Insert/Split/Leaf.antt =====
-- `cbtree_insert` of cbtree_base.c into a tree of one full leaf: the tree of two leaves that the split leaves.
use btree_profiling.Common.{
  ℕ, zero, suc, ◌+◌, ◌-◌, ◌/◌, ◌<◌, ◌≤◌, ◌≡◌, ◌≢◌, refl, ap, ap₂, sym, subst, ◌∙◌, List, [], ◌∷◌,
  ◌++◌, tabulate, arith,
}
use btree_profiling.Memory.{Addr, null, State, ok, update, set_words}
use btree_profiling.Entries.{IsFalling, AllBelow, AllAtLeast}
use btree_profiling.Node.{Geo, bval, split}
use btree_profiling.Node.Slots.{IsGeo, entries, key_num, pair}
use btree_profiling.Node.Search.{IsNode}
use btree_profiling.Node.Split.{split-new}
use btree_profiling.Node.Split.Halves.{split-IsNode}
use btree_profiling.Tree.{read_node, write_node}
use btree_profiling.Tree.Shape.{Holds, IsTree, IsForest, leaf, inner, nil, cons, IsCbtree}
use btree_profiling.Tree.Insert.{split_node}

-- The last key of a row of falling pairs, and what comes behind.
AllBelow-last :
    (f : ℕ → ℕ × ℕ) (n : ℕ) (rest : List (ℕ × ℕ)) {b : ℕ}
    → AllBelow b (tabulate f (suc n) ++ rest)
    → (f n).0 < b
AllBelow-last f zero rest h = h.0
AllBelow-last f (suc n) rest h = AllBelow-last (λ i. f (suc i)) n rest h.1

last_of_IsFalling :
    (f : ℕ → ℕ × ℕ) (n : ℕ) (rest : List (ℕ × ℕ))
    → IsFalling (tabulate f (suc n) ++ rest)
    → AllAtLeast (f n).0 (tabulate f (suc n)) × AllBelow (f n).0 rest × IsFalling rest
last_of_IsFalling f zero rest h = ((omega arith, tt), h.0, h.1)
last_of_IsFalling f (suc n) rest h =
    let (low, high, falling) = last_of_IsFalling (λ i. f (suc i)) n rest h.1 in
    let least = AllBelow-last (λ i. f (suc i)) n rest h.0 in
    ((omega (arith, least), low), high, falling)

AllAtLeast-right : (k : ℕ) (e1 e2 : List (ℕ × ℕ)) → AllAtLeast k (e1 ++ e2) → AllAtLeast k e2
AllAtLeast-right k [] e2 h = h
AllAtLeast-right k ((j, v) ∷ e1) e2 h = AllAtLeast-right k e1 e2 h.1

append_none : (es : List (ℕ × ℕ)) → es ++ [] ≡ es
append_none [] = refl
append_none (e ∷ es) = ap (λ l. e ∷ l) (append_none es)

-- The same for a row of a length above 0.
last_below :
    (f : ℕ → ℕ × ℕ) (n : ℕ) (rest : List (ℕ × ℕ))
    → 0 < n
    → IsFalling (tabulate f n ++ rest)
    → AllAtLeast (f (n - 1)).0 (tabulate f n) × AllBelow (f (n - 1)).0 rest
last_below f zero rest pos h = absurd (omega arith)
last_below f (suc n) rest pos h =
    let (low, high, falling) = last_of_IsFalling f n rest h in
    let e : n ≡ suc n - 1 = omega arith in
    (
      subst (λ i. AllAtLeast (f i).0 (tabulate f (suc n))) e low,
      subst (λ i. AllBelow (f i).0 rest) e high,
    )

-- The words of two blocks written.
unfoldable pub split_words : Geo → State → Addr → Addr → ℕ → State
split_words geo s b a n =
    set_words (set_words s b (split geo (s.word b) (s.word a) n).0) a
      (split geo (s.word b) (s.word a) n).1

pub split_node_run :
    (geo : Geo) (s : State) (a b : Addr) (n : ℕ)
    → read_node geo b s ≡ ok (s.word b) s
    → read_node geo a s ≡ ok (s.word a) s
    → split_node geo b a n s ≡ ok tt (split_words geo s b a n)
unfolding split_node write_node split_words
split_node_run geo s a b n rb ra = ground (arith, rb, ra)

module _ {geo : Geo} (g : IsGeo geo) {s : State} {a b c : Addr} {n : ℕ} (ab : a ≢ b) (ac : a ≢ c)
    (bc : b ≢ c) (two : 1 < n) (falling : IsFalling (entries geo (s.word a) n))
    (node_a : IsNode geo (s.word a) n) (node_b : IsNode geo (s.word b) 0) (a_ne : a ≢ null)
    (b_ne : b ≢ null) (live_a : geo.no_longs + geo.no_pairs ≤ s.size a)
    (live_b : geo.no_longs + geo.no_pairs ≤ s.size b) (root : Holds geo s c 2)
    (at : s.head.node ≡ c) (height : s.head.height ≡ 2)
    (pairs : entries geo (s.word c) 2
      ≡ (key_num geo (s.word a) (n / 2 - 1), b) ∷ (key_num geo (s.word a) (n - 1), a) ∷ []) where
  words_b : (split_words geo s b a n).word b ≡ (split geo (s.word b) (s.word a) n).0
  unfolding split_words set_words update
  words_b = ground (arith, ab)

  words_a : (split_words geo s b a n).word a ≡ (split geo (s.word b) (s.word a) n).1
  unfolding split_words set_words update
  words_a = ground arith

  words_c : (split_words geo s b a n).word c ≡ s.word c
  unfolding split_words set_words update
  words_c = ground (arith, ac, bc)

  sizes : (x : Addr) → (split_words geo s b a n).size x ≡ s.size x
  unfolding split_words set_words
  sizes x = refl

  halves :
      IsNode geo (split geo (s.word b) (s.word a) n).0 (n / 2)
      × IsNode geo (split geo (s.word b) (s.word a) n).1 (n - n / 2)
      × (entries geo (s.word a) n
          ≡ entries geo (split geo (s.word b) (s.word a) n).0 (n / 2)
            ++ entries geo (split geo (s.word b) (s.word a) n).1 (n - n / 2))
  halves = split-IsNode geo g (s.word b) (s.word a) n node_b node_a two

  pub left_leaf : Holds geo (split_words geo s b a n) b (n / 2)
  left_leaf = record {
    ne_null = b_ne;
    live = omega (arith, live_b, sizes b);
    node = subst (λ w. IsNode geo w (n / 2)) (sym words_b) halves.0;
    some_pair = omega arith;
  }

  pub right_leaf : Holds geo (split_words geo s b a n) a (n - n / 2)
  right_leaf = record {
    ne_null = a_ne;
    live = omega (arith, live_a, sizes a);
    node = subst (λ w. IsNode geo w (n - n / 2)) (sym words_a) halves.1;
    some_pair = omega arith;
  }

  e1 : List (ℕ × ℕ)
  e1 = entries geo ((split_words geo s b a n).word b) (n / 2)

  e2 : List (ℕ × ℕ)
  e2 = entries geo ((split_words geo s b a n).word a) (n - n / 2)

  both : entries geo (s.word a) n ≡ e1 ++ e2
  unfolding e1 e2
  both =
      halves.2
      ∙ ap₂ (λ u v. entries geo u (n / 2) ++ entries geo v (n - n / 2)) (sym words_b) (sym words_a)

  -- The keys of the root bound the two leaves.
  left_bounds :
      AllAtLeast (key_num geo (s.word a) (n / 2 - 1)) e1
      × AllBelow (key_num geo (s.word a) (n / 2 - 1)) e2
  unfolding e1 e2 pair
  left_bounds =
      let same : pair geo ((split_words geo s b a n).word b) (n / 2 - 1)
          ≡ pair geo (s.word a) (n / 2 - 1) =
        ap (λ w. pair geo w (n / 2 - 1)) words_b
        ∙ split-new geo g (s.word b) (s.word a) n two node_a.within (n / 2 - 1) (omega arith) in
      let (low, high) =
        last_below (pair geo ((split_words geo s b a n).word b)) (n / 2) e2 (omega arith)
          (subst IsFalling both falling) in
      (
        subst (λ (x : ℕ × ℕ). AllAtLeast x.0 e1) same low,
        subst (λ (x : ℕ × ℕ). AllBelow x.0 e2) same high,
      )

  right_bound : AllAtLeast (key_num geo (s.word a) (n - 1)) e2
  unfolding e2 pair
  right_bound =
      let (low, high) =
        last_below (pair geo (s.word a)) n [] (omega (arith, two))
          (subst IsFalling (sym (append_none (entries geo (s.word a) n))) falling) in
      AllAtLeast-right (key_num geo (s.word a) (n - 1)) e1 e2
        (subst (AllAtLeast (key_num geo (s.word a) (n - 1))) both low)

  slots :
      (bval geo (s.word c) 0 ≡ b)
      × (bval geo (s.word c) 1 ≡ a)
      × (key_num geo (s.word c) 0 ≡ key_num geo (s.word a) (n / 2 - 1))
      × (key_num geo (s.word c) 1 ≡ key_num geo (s.word a) (n - 1))
  unfolding pair
  slots = ground (arith, pairs)

  two_leaves :
      IsForest geo
        (split_words geo s b a n)
        0
        (s.word c)
        0
        2
        (e1 ++ (e2 ++ []))
        ((b ∷ []) ++ ((a ∷ []) ++ []))
  unfolding e1 e2
  two_leaves =
      cons
        (subst (λ x. IsTree geo (split_words geo s b a n) 0 x e1 (b ∷ [])) (sym slots.0)
          (leaf left_leaf))
        (cons
          (subst (λ x. IsTree geo (split_words geo s b a n) 0 x e2 (a ∷ [])) (sym slots.1)
            (leaf right_leaf))
          nil (λ x m. refl) (subst (λ k. AllAtLeast k e2) (sym slots.3) right_bound) tt)
        (λ x m. ground (arith, ab)) (subst (λ k. AllAtLeast k e1) (sym slots.2) left_bounds.0)
        (subst (λ k. AllBelow k (e2 ++ [])) (sym slots.2)
          (subst (AllBelow (key_num geo (s.word a) (n / 2 - 1))) (sym (append_none e2))
            left_bounds.1))

  pub split_root : Holds geo (split_words geo s b a n) c 2
  split_root = record {
    ne_null = root.ne_null;
    live = omega (arith, root.live, sizes c);
    node = subst (λ w. IsNode geo w 2) (sym words_c) root.node;
    some_pair = omega arith;
  }

  -- Where the two slots of the root lead.
  pub split_slots :
      (bval geo ((split_words geo s b a n).word c) 0 ≡ b)
      × (bval geo ((split_words geo s b a n).word c) 1 ≡ a)
  split_slots = (ap (λ w. bval geo w 0) words_c ∙ slots.0, ap (λ w. bval geo w 1) words_c ∙ slots.1)

  pub split_head : (split_words geo s b a n).head ≡ s.head
  unfolding split_words set_words
  split_head = refl

  pub split-IsCbtree :
      IsCbtree geo (split_words geo s b a n) 1 (entries geo (s.word a) n) (c ∷ b ∷ a ∷ [])
  unfolding split_words set_words
  split-IsCbtree = record {
    height = height;
    tree =
        subst
          (λ x.
            IsTree geo (split_words geo s b a n) 1 x (entries geo (s.word a) n) (c ∷ b ∷ a ∷ []))
          (sym at)
          (subst (λ es. IsTree geo (split_words geo s b a n) 1 c es (c ∷ b ∷ a ∷ []))
            (ap (λ l. e1 ++ l) (append_none e2) ∙ sym both)
            (inner split_root (ground (arith, ac, bc)) (
              subst
                (λ w.
                  IsForest geo (split_words geo s b a n) 0 w 0 2 (e1 ++ (e2 ++ [])) (b ∷ a ∷ []))
                (sym words_c) two_leaves)));
  }
