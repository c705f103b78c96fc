-- ===== src/Typed/ForEach/Entries.antt =====
-- `cbtree_for_each_safel` of cbtree_base.h on a tree of any height.
use btree_profiling.Common.{
  ℕ, zero, suc, ◌+◌, ◌*◌, ◌<◌, ◌≡◌, ◌≢◌, refl, ap, sym, subst, ◌∙◌, List, [], ◌∷◌, ◌++◌, arith,
  Option, some, none, inr, tabulate, length,
}
use btree_profiling.Memory.{Addr, null, Words, State, Cmd, ok, pure, and_then}
use btree_profiling.Words.{word_mod}
use btree_profiling.Words.Order.{value, value_one}
use btree_profiling.Entries.{IsFalling, AllBelow, before}
use btree_profiling.Node.{Geo, bkey, cbtree_geo32}
use btree_profiling.Node.Geometry.{geometry-Fits}
use btree_profiling.Node.Slots.{IsGeo, entries, pair, key_num, slot_le}
use btree_profiling.Node.Search.{IsNode}
use btree_profiling.Tree.Shape.{IsTree, IsForest, leaf, inner, nil, cons}
use btree_profiling.Tree.Last.{cbtree_last-head}
use btree_profiling.Tree.Prev.{cbtree_get_prev}
use btree_profiling.Tree.Prev.Leaf.{as_entry}
use btree_profiling.Tree.Prev.Before.{cbtree_get_prev-before}
use btree_profiling.Tree.Prev.Frame.{IsKeyed}
use btree_profiling.Typed.{Stack}
use btree_profiling.Typed.Full
use btree_profiling.Typed.ForEach.{for_each_loop, cbtree_for_each_safel}
use btree_profiling.Typed.Local.{
  Calm, Calm-trans, IsStack, IsStack-Calm, IsKeyed-Calm, entered, left, left-Calm, entered-IsKeyed,
  entered-HoldsKey, entered-key, local_run,
}

AllBelow-member :
    (passed : List (ℕ × ℕ)) (k v : ℕ) (rest : List (ℕ × ℕ)) {b : ℕ}
    → AllBelow b (passed ++ (k, v) ∷ rest)
    → k < b
AllBelow-member [] k v rest h = h.0
AllBelow-member ((k', v') ∷ passed) k v rest h = AllBelow-member passed k v rest h.1

-- The first entry.
abbrev first : List (ℕ × ℕ) → Option (ℕ × ℕ)
first [] = none
first (e ∷ es) = some e

-- Behind an entry of falling ones comes the largest below its key.
before-first :
    (passed : List (ℕ × ℕ)) (k v : ℕ) (rest : List (ℕ × ℕ))
    → IsFalling (passed ++ (k, v) ∷ rest)
    → before k (passed ++ (k, v) ∷ rest) ≡ first rest
before-first [] k v [] h = ground arith
before-first [] k v ((k', v') ∷ rest) h = ground (arith, h.0)
before-first ((k', v') ∷ passed) k v rest h =
    let above = AllBelow-member passed k v rest h.0 in
    ground (arith, before-first passed k v rest h.1, above)

-- Keys that are machine words, with values that are not `NULL`.
abbrev pub AllProper : List (ℕ × ℕ) → Type 0
AllProper [] = Unit {0}
AllProper ((k, v) ∷ es) = (k < word_mod) × (v ≢ null) × AllProper es

append_assoc :
    (xs : List (ℕ × ℕ)) (y : ℕ × ℕ) (zs : List (ℕ × ℕ)) → (xs ++ y ∷ []) ++ zs ≡ xs ++ y ∷ zs
append_assoc [] y zs = refl
append_assoc (x ∷ xs) y zs = ap (λ l. x ∷ l) (append_assoc xs y zs)

AllProper-tabulate :
    (f : ℕ → ℕ × ℕ) (n : ℕ)
    → ((i : ℕ) → i < n → ((f i).0 < word_mod) × ((f i).1 ≢ null))
    → AllProper (tabulate f n)
AllProper-tabulate f zero h = tt
AllProper-tabulate f (suc n) h =
    let (small, ne) = h 0 (omega arith) in
    (small, ne, AllProper-tabulate (λ i. f (suc i)) n (λ i p. h (suc i) (omega arith)))

entries-AllProper :
    {geo : Geo} {w : Words} {fill : ℕ}
    → IsGeo geo
    → geo.keylen ≡ 1
    → IsNode geo w fill
    → AllProper (entries geo w fill)
unfolding pair key_num bkey
entries-AllProper {geo} {w} {fill} g one n = AllProper-tabulate (pair geo w) fill (λ i p. (
  omega (
    arith,
    value_one (bkey geo w i) one,
    n.words (i * geo.keylen + 0) grind
        (arith, slot_le i geo.no_pairs geo.keylen, g.longs, n.within),
  ),
  n.used i p,
))

pub AllProper-append : (xs ys : List (ℕ × ℕ)) → AllProper xs → AllProper ys → AllProper (xs ++ ys)
AllProper-append [] ys hx hy = hy
AllProper-append (x ∷ xs) ys (small, ne, hx) hy = (small, ne, AllProper-append xs ys hx hy)

module _ {geo : Geo} (g : IsGeo geo) (one : geo.keylen ≡ 1) {s : State} where
  mutual
    pub IsTree-AllProper :
        {d : ℕ} {a : Addr} {es : List (ℕ × ℕ)} {fp : List Addr}
        → IsTree geo s d a es fp
        → AllProper es
    IsTree-AllProper (leaf h) = entries-AllProper g one h.node
    IsTree-AllProper (inner h out f) = IsForest-AllProper f

    IsForest-AllProper :
        {d : ℕ} {w : Words} {i n : ℕ} {es : List (ℕ × ℕ)} {fp : List Addr}
        → IsForest geo s d w i n es fp
        → AllProper es
    IsForest-AllProper nil = tt
    IsForest-AllProper (cons {e1} {e2} t f apart low high) =
        AllProper-append e1 e2 (IsTree-AllProper t) (IsForest-AllProper f)

module _ {stack : Stack} {geo : Geo} (g : IsGeo geo) (one : geo.keylen ≡ 1) {d : ℕ}
    {es : List (ℕ × ℕ)} {fp : List Addr} where
  -- One step of the macro: from a key to the largest entry below it.
  get_prev-before :
      (f k : ℕ) (s : State)
      → d < f
      → k < word_mod
      → IsStack stack s
      → IsKeyed geo s 1 d es fp
      → (r : Option (ℕ × Words)) × (Full.get_prev stack geo f k s
          ≡ ok (Full.found_key k r) (left stack k s))
        × (as_entry geo r ≡ before k es)
  unfolding Full.get_prev entered
  get_prev-before f k s enough small is t =
      let t' = entered-IsKeyed k s is g t in
      let (r, run, found) =
        cbtree_get_prev-before g t' (entered-HoldsKey k s is one small) f enough in
      (
        r,
        ap (λ m. and_then m (λ found. ok (Full.found_key k found)))
            (local_run k s is (λ p. cbtree_get_prev f geo p) run),
        found ∙ ap (λ k. before k es) (entered-key k s is geo one),
      )

-- What is collected.
abbrev pub collect : ℕ → ℕ → Cmd (ℕ × ℕ)
collect k v = pure (k, v)

first_none : (geo : Geo) (r : Option (ℕ × Words)) → as_entry geo r ≡ none → r ≡ none
first_none geo none e = refl
first_none geo (some (v, k)) e = absurd (ground (arith, e))

first_some :
    (geo : Geo) (r : Option (ℕ × Words)) (k v key : ℕ)
    → geo.keylen ≡ 1
    → as_entry geo r ≡ some (k, v)
    → Full.found_key key r ≡ (v, k)
first_some geo none k v key one e = absurd (ground (arith, e))
first_some geo (some (v', w)) k v key one e = ground (arith, e, value_one w one)

module _ {stack : Stack} {geo : Geo} (g : IsGeo geo) (one : geo.keylen ≡ 1) {d : ℕ}
    {es : List (ℕ × ℕ)} {fp : List Addr} (falling : IsFalling es) where
  for_each_loop-entries :
      (levels f : ℕ) (passed : List (ℕ × ℕ)) (k v : ℕ) (rest : List (ℕ × ℕ)) (s : State)
      → IsStack stack s
      → IsKeyed geo s 1 d es fp
      → es ≡ passed ++ (k, v) ∷ rest
      → AllProper ((k, v) ∷ rest)
      → d < levels
      → length rest < f
      → (s' : State) × (for_each_loop (Full.get_prev stack geo levels) collect (suc f) k v s
          ≡ ok ((k, v) ∷ rest) s')
        × Calm s s'
  unfolding for_each_loop
  for_each_loop-entries levels zero passed k v rest s is t e proper enough fuel =
      absurd (omega arith)
  for_each_loop-entries levels (suc f) passed k v [] s is t e proper enough fuel =
      let (r, run, found) = get_prev-before g one levels k s enough proper.0 is t in
      let none_left : r ≡ none =
        first_none geo r
          (found ∙ ap (before k) e ∙ before-first passed k v [] (subst IsFalling e falling)) in
      (left stack k s, ground (arith, run, none_left, proper.1), left-Calm k s is)
  for_each_loop-entries levels (suc f) passed k v ((k', v') ∷ rest) s is t e proper enough fuel =
      let (r, run, found) = get_prev-before g one levels k s enough proper.0 is t in
      let here : Full.found_key k r ≡ (v', k') = first_some geo r k' v' k one (
        found
        ∙ ap (before k) e
        ∙ before-first passed k v ((k', v') ∷ rest) (subst IsFalling e falling)) in
      let c = left-Calm k s is in
      let (s', run', c') =
        for_each_loop-entries levels f (passed ++ (k, v) ∷ []) k' v' rest (left stack k s)
          (IsStack-Calm is c) (IsKeyed-Calm g t c)
          (e ∙ sym (append_assoc passed (k, v) ((k', v') ∷ rest))) proper.2 enough (omega arith) in
      (s', ground (arith, run, here, run', proper.1), Calm-trans c c')

  for_each-entries :
      (levels f key : ℕ) (s : State)
      → IsStack stack s
      → IsKeyed geo s 1 d es fp
      → d < levels
      → length es < f
      → (s' : State) × (and_then
            (Full.last stack geo key s)
            (λ found. for_each_loop (Full.get_prev stack geo levels) collect f found.1 found.0)
          ≡ ok es s')
        × Calm s s'
  unfolding Full.last
  for_each-entries levels zero key s is t enough room = absurd (omega arith)
  for_each-entries levels (suc f) key s is t enough room =
      let (k, v, rest, run, e) = cbtree_last-head t.shape in
      let proper = subst AllProper e (IsTree-AllProper g one t.shape.tree) in
      let (s', loop, c) =
        for_each_loop-entries levels f [] (value k geo.keylen) v rest s is t e proper enough
          (omega (arith, ap length e)) in
      (s', rw run (ground (arith, value_one k one, loop, e)), c)

module _ {stack : Stack} (nodesize : ℕ) where
  -- On a tree of any height in the geometry of longs of eight bytes, its entries in falling order
  -- and its parent keys above 0, none of them below that of its own parent,
  -- `cbtree_for_each_safel` runs its body for every entry, in order and once each, and changes no
  -- live block. The variables of the stack overlap no live block, the rounds are more than the
  -- entries, and there are as many units of fuel for each step back as the tree is high.
  pub cbtree_for_each_safel-entries :
      (key : ℕ) (s : State) {d : ℕ} {es : List (ℕ × ℕ)} {fp : List Addr}
      → IsStack stack s
      → IsKeyed (cbtree_geo32 nodesize 8) s 1 d es fp
      → IsFalling es
      → (levels f : ℕ) → d < levels
      → length es < f
      → (s' : State) × (cbtree_for_each_safel stack nodesize collect levels f key s ≡ ok es s')
        × Calm s s'
  unfolding cbtree_for_each_safel cbtree_geo32
  cbtree_for_each_safel-entries key s is t falling levels f enough room =
      for_each-entries (geometry-Fits nodesize 8 (inr refl)).0.0 refl falling levels f key s is t
        enough room
