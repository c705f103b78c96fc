-- ===== src/Typed/ForEach/Circle.antt =====
-- `cbtree_for_each_safel` of cbtree_base.h on a tree with the parent key 0.
use btree_profiling.Common.{
  ℕ, zero, suc, ◌-◌, ◌<◌, ◌≡◌, ◌≢◌, refl, ap, sym, ◌∙◌, List, [], ◌∷◌, arith, some, inl, inr, subst,
}
use btree_profiling.Memory.{Addr, null, Words, Head, State, ok, out_of_fuel, and_then, update}
use btree_profiling.Words.{word_mod}
use btree_profiling.Words.Order.{value, value_one}
use btree_profiling.Entries.{AllBelow, AllAtLeast, before}
use btree_profiling.Node.{Geo, getfill, cbtree_geo32}
use btree_profiling.Node.Geometry.{geometry-Fits}
use btree_profiling.Node.Slots.{IsGeo, key_num}
use btree_profiling.Tree.Shape.{IsTree-live, root_inside}
use btree_profiling.Tree.Last.{cbtree_last-head}
use btree_profiling.Tree.Prev.{cbtree_get_prev}
use btree_profiling.Tree.Prev.Frame.{IsKeyed}
use btree_profiling.Tree.Prev.Wrap.{Picks, cbtree_get_prev-Picks}
use btree_profiling.Typed.{Stack}
use btree_profiling.Typed.Full
use btree_profiling.Typed.ForEach.{for_each_loop, cbtree_for_each_safel}
use btree_profiling.Typed.ForEach.Entries.{collect, AllProper, IsTree-AllProper}
use btree_profiling.Typed.Local.{
  IsStack, IsStack-Calm, IsKeyed-Calm, entered, left, left-Calm, entered-IsKeyed, entered-HoldsKey,
  entered-key, local_run,
}

-- A key that is a machine word, not 0 and below `levels`, with a value that is not `NULL`.
abbrev Good : ℕ → ℕ × ℕ → Type 0
Good levels e = (e.0 < word_mod) × (e.1 ≢ null) × (e.0 ≢ 0) × (e.0 < levels)

before-Good :
    (levels j : ℕ) (es : List (ℕ × ℕ)) (e : ℕ × ℕ)
    → AllProper es
    → AllAtLeast 1 es
    → AllBelow levels es
    → before j es ≡ some e
    → Good levels e
before-Good levels j [] e proper low high there = absurd (ground (arith, there))
before-Good levels j ((k, v) ∷ es) e proper low high there =
    ground (arith, proper, low, high, there, before-Good levels j es e)

-- The last key of the root is 0.
abbrev pub LastZero : Geo → State → Type 0
LastZero geo s = key_num geo (s.word s.head.node) (getfill geo (s.word s.head.node) 0 - 1) ≡ 0

LastZero-frame :
    (geo : Geo) (s s' : State)
    → s'.head ≡ s.head
    → s'.word s.head.node ≡ s.word s.head.node
    → LastZero geo s
    → LastZero geo s'
LastZero-frame geo s s' head same last =
    let at : s'.word s'.head.node ≡ s.word s.head.node =
      ap (λ (h : Head). s'.word h.node) head ∙ same in
    ap (λ w. key_num geo w (getfill geo w 0 - 1)) at ∙ last

root_live :
    {geo : Geo} {s : State} {b d : ℕ} {es : List (ℕ × ℕ)} {fp : List Addr}
    → IsGeo geo
    → IsKeyed geo s b d es fp
    → s.size s.head.node ≢ 0
root_live {s} g t = IsTree-live g t.shape.tree s.head.node (root_inside t.shape.tree)

module _ {geo : Geo} (g : IsGeo geo) (one : geo.keylen ≡ 1) {d levels : ℕ} {es : List (ℕ × ℕ)}
    {fp : List Addr} (low : AllAtLeast 1 es) (high : AllBelow levels es) {s : State}
    (t : IsKeyed geo s 0 (suc d) es fp) where
  head-Good : (e : ℕ × ℕ) (rest : List (ℕ × ℕ)) → es ≡ e ∷ rest → Good levels e
  head-Good e rest same =
      let p = subst AllProper same (IsTree-AllProper g one t.shape.tree) in
      let l = subst (AllAtLeast 1) same low in
      let h = subst (AllBelow levels) same high in (p.0, p.1, λ z. omega (arith, z, l.0), h.0)

  Picks-Good : (k : ℕ) (e : ℕ × Words) → Picks geo es k e → Good levels (value e.1 geo.keylen, e.0)
  Picks-Good k e (inl (j, le, there)) =
      before-Good levels j es _ (IsTree-AllProper g one t.shape.tree) low high there
  Picks-Good k e (inr first) =
      let (key, v, rest, run, same) = cbtree_last-head t.shape in
      head-Good _ rest (same_first (first _ _ rest same) same)
    where
      same_first :
          {e b : ℕ × ℕ} {rest : List (ℕ × ℕ)} → some e ≡ some b → es ≡ b ∷ rest → es ≡ e ∷ rest
      same_first p q = ground (arith, p, q)

module _ {stack : Stack} {geo : Geo} (g : IsGeo geo) (one : geo.keylen ≡ 1) {d levels : ℕ}
    {es : List (ℕ × ℕ)} {fp : List Addr} (low : AllAtLeast 1 es) (high : AllBelow levels es) where
  -- One step of the macro comes to an entry.
  get_prev-Good :
      (k : ℕ) (s : State)
      → k < word_mod
      → k ≢ 0
      → k < levels
      → IsStack stack s
      → IsKeyed geo s 0 (suc d) es fp
      → LastZero geo s
      → (v' k' : ℕ) × (Full.get_prev stack geo levels k s ≡ ok (v', k') (left stack k s))
        × Good levels (k', v')
  unfolding Full.get_prev entered update
  get_prev-Good k s small ne less is t last =
      let at = entered-key k s is geo one in
      let other : s.head.node ≢ stack s =
        λ e. root_live g t (ap s.size e ∙ is.free s (λ a. refl)) in
      let t' = entered-IsKeyed k s is g t in
      let last' = LastZero-frame geo s (entered stack k s) refl (ground arith) last in
      let (e, run, picks) =
        cbtree_get_prev-Picks g t'.shape t'.keys last' (entered-HoldsKey k s is one small)
          (λ z. ne (sym at ∙ z)) levels (omega (arith, at, less)) in
      let good = Picks-Good g one low high t' _ e picks in
      (
        e.0,
        e.1 0,
        ap (λ m. and_then m (λ found. ok (Full.found_key k found)))
            (local_run k s is (λ p. cbtree_get_prev levels geo p) run),
        rw (sym (value_one e.1 one)) good,
      )

  circle :
      (f k v : ℕ) (s : State)
      → Good levels (k, v)
      → IsStack stack s
      → IsKeyed geo s 0 (suc d) es fp
      → LastZero geo s
      → for_each_loop (Full.get_prev stack geo levels) collect f k v s ≡ out_of_fuel
  unfolding for_each_loop
  circle zero k v s good is t last = refl
  circle (suc f) k v s (small, ne, pos, less) is t last =
      let (v', k', run, good) = get_prev-Good k s small pos less is t last in
      let c = left-Calm k s is in
      let rest =
        circle f k' v' (left stack k s) good (IsStack-Calm is c) (IsKeyed-Calm g t c) (
          LastZero-frame geo s (left stack k s) c.head (c.words s.head.node (root_live g t))
            last) in
      ground (arith, run, rest, ne)

module _ {stack : Stack} (nodesize : ℕ) where
  -- On a tree of two levels or more the last key of whose root is 0, each parent key at least
  -- that of its own parent and no entry's key 0, `cbtree_for_each_safel` in the geometry of longs
  -- of eight bytes does not end, however many rounds it is given. The variables of the stack
  -- overlap no live block, and each step back has more units of fuel than any key.
  pub cbtree_for_each_safel-endless :
      (levels key : ℕ) (s : State) {d : ℕ} {es : List (ℕ × ℕ)} {fp : List Addr}
      → IsStack stack s
      → IsKeyed (cbtree_geo32 nodesize 8) s 0 (suc d) es fp
      → LastZero (cbtree_geo32 nodesize 8) s
      → AllAtLeast 1 es
      → AllBelow levels es
      → (f : ℕ) → cbtree_for_each_safel stack nodesize collect levels f key s ≡ out_of_fuel
  unfolding cbtree_for_each_safel cbtree_geo32 Full.last
  cbtree_for_each_safel-endless levels key s is t last low high f =
      let g = (geometry-Fits nodesize 8 (inr refl)).0.0 in
      let (k, v, rest, run, same) = cbtree_last-head t.shape in
      let good = head-Good g refl low high t _ rest same in
      rw run (circle g refl low high f (k 0) v s (rw (sym (value_one k refl)) good) is t last)
