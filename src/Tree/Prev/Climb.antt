-- ===== src/Tree/Prev/Climb.antt =====
-- How a walk of `cbtree_get_prev` of cbtree_base.c below a parent gives that of the parent.
use btree_profiling.Common.{
  ℕ, zero, suc, ◌+◌, ◌≤◌, ◌<◌, ◌≡◌, refl, sym, ap, subst, ◌∙◌, arith, leb, ◌==◌, List, [], ◌∷◌,
  ◌++◌, Option, some, none, Bool-cases, inl, inr,
}
use btree_profiling.Memory.{Addr, null, Words, State, ok}
use btree_profiling.Words.Order.{value, IsWords}
use btree_profiling.Entries.{AllBelow, AllAtLeast, before}
use btree_profiling.Node.{Geo, bkey, bval}
use btree_profiling.Node.Slots.{IsGeo, key_num, entries}
use btree_profiling.Node.Insert.{bkey-IsWords}
use btree_profiling.Tree.Shape.{Holds, IsTree, IsForest, leaf, inner, nil, cons}
use btree_profiling.Tree.Last.{last_leaf-head}
use btree_profiling.Tree.Prev.{prev_walk, prev_in_leaf}
use btree_profiling.Tree.Prev.Leaf.{as_entry, prev_in_leaf-before}
use btree_profiling.Tree.Prev.Walk.{
  before-append, before-append_found, before-AllAtLeast, before-AllBelow, Child, Walked, found,
  missed, again, getpos_first, getpos_none, walk_down, walk_stops, null_leaf,
}

-- A walk that finds an entry.
abbrev pub Finds : Geo → State → ℕ → Addr → List (ℕ × ℕ) → Words → Type 0
Finds geo s d a es lower =
    (e : ℕ × Words) × (before (value lower geo.keylen + 1) es ≡ as_entry geo (some e))
    × ((rk : Option Words)
        → (n : Addr) × (rk' : Option Words) × (prev_walk geo d a lower rk s ≡ ok (n, rk') s)
          × (prev_in_leaf geo n lower s ≡ ok (some e) s))

pub AllBelow-left : (b : ℕ) (e1 e2 : List (ℕ × ℕ)) → AllBelow b (e1 ++ e2) → AllBelow b e1
AllBelow-left b [] e2 h = tt
AllBelow-left b ((k, v) ∷ e1) e2 h = (h.0, AllBelow-left b e1 e2 h.1)

pub before-AllBelow_head :
    (b k v : ℕ) (es rest : List (ℕ × ℕ))
    → AllBelow b es
    → es ≡ (k, v) ∷ rest
    → (before b es ≡ some (k, v)) × (k < b)
before-AllBelow_head b k v es rest below e =
    let h : k < b = (subst (AllBelow b) e below).0 in (ground (arith, e), h)

pub is_some :
    (geo : Geo) (r : Option (ℕ × Words)) {e : ℕ × ℕ}
    → as_entry geo r ≡ some e
    → (x : ℕ × Words) × (r ≡ some x)
is_some geo none e = absurd (ground arith)
is_some geo (some x) e = (x, refl)

before-append_same :
    (j k : ℕ) (e1 e2 : List (ℕ × ℕ)) (r : Option (ℕ × ℕ))
    → before j e1 ≡ r
    → before k e1 ≡ r
    → before j e2 ≡ before k e2
    → before j (e1 ++ e2) ≡ before k (e1 ++ e2)
before-append_same j k e1 e2 none hj hk h =
    before-append j e1 e2 hj ∙ h ∙ sym (before-append k e1 e2 hk)
before-append_same j k e1 e2 (some e) hj hk h =
    before-append_found j e1 e2 e hj ∙ sym (before-append_found k e1 e2 e hk)

module _ {geo : Geo} (g : IsGeo geo) {s : State} where
  first_key :
      {d : ℕ} {a : Addr} {es : List (ℕ × ℕ)} {fp : List Addr} (b l : ℕ)
      → IsTree geo s d a es fp
      → AllAtLeast b es
      → AllBelow (l + 1) es
      → b ≤ l
  first_key b l t low below =
      let (n, fill, rest, run, h, e) = last_leaf-head t in
      omega (arith, (subst (AllAtLeast b) e low).0, (subst (AllBelow (l + 1)) e below).0)

  -- Above all entries a walk finds the first one.
  pub walk_top :
      {d : ℕ} {a : Addr} {es : List (ℕ × ℕ)} {fp : List Addr}
      → IsTree geo s d a es fp
      → (lower : Words) → IsWords lower geo.keylen
      → AllBelow (value lower geo.keylen + 1) es
      → Finds geo s d a es lower
  unfolding prev_walk
  walk_top (leaf {a} {fill} h) lower wl below =
      let (r, run, same) = prev_in_leaf-before g h lower wl in
      let here : IsTree geo s zero a (entries geo (s.word a) fill) (a ∷ []) = leaf h in
      let (n, m, rest, down, hn, e) = last_leaf-head here in
      let first = before-AllBelow_head (value lower geo.keylen + 1) _ _ _ rest below e in
      let (x, is) = is_some geo r (same ∙ first.0) in
      (x, sym same ∙ ap (as_entry geo) is, λ rk. (a, rk, refl, run ∙ ap (λ r. ok r s) is))
  walk_top (inner h out nil) lower wl below = absurd (omega (arith, h.some_pair))
  walk_top (inner {a} h out (cons {e1} {e2} t f apart low high)) lower wl below =
      let l = value lower geo.keylen in
      let below1 = AllBelow-left (l + 1) e1 e2 below in
      let (e, same, run) = walk_top t lower wl below1 in
      let at =
        getpos_first g lower 0 h wl h.some_pair (λ j q. absurd (omega arith))
          (first_key _ l t low below1) in
      (
        e,
        before-append_found (l + 1) e1 e2 _ same,
        λ rk.
            let (n, rk', down, scan) = run (some (bkey geo (s.word a) 0)) in
            (n, rk', walk_down g _ lower 0 rk h h.some_pair at ∙ down, scan),
      )

  -- Where the first key at most a number is behind slot `c`, and all entries there are below it.
  walk_rest :
      {d c fill n b m : ℕ} {a : Addr} {es behind : List (ℕ × ℕ)} {fp : List Addr}
      → Holds geo s a fill
      → IsForest geo s d (s.word a) (suc c) n behind fp
      → suc c + n ≡ fill
      → (lower : Words) → IsWords lower geo.keylen
      → before (value lower geo.keylen + 1) es ≡ before (value lower geo.keylen + 1) behind
      → AllBelow (value lower geo.keylen + 1) behind
      → ((j : ℕ) → j < suc c → value lower geo.keylen < key_num geo (s.word a) j)
      → Walked geo s (suc d) a es b m lower
  walk_rest {d} h nil count lower wl same high above =
      let at = getpos_none g lower h wl (λ j q. above j (omega arith)) in
      missed same (λ rk. (null, walk_stops g d lower rk h at, null_leaf g lower))
  walk_rest {d} {c} {fill} {a} h (cons {e1} {e2} t f apart low below) count lower wl same high
        above =
      let l = value lower geo.keylen in
      let high1 = AllBelow-left (l + 1) e1 e2 high in
      let (e, first, run) = walk_top t lower wl high1 in
      let at = getpos_first g lower (suc c) h wl (omega arith) above (first_key _ l t low high1) in
      found e (same ∙ before-append_found (l + 1) e1 e2 _ first) (λ rk.
        let (n, rk', down, scan) = run (some (bkey geo (s.word a) (suc c))) in
        (n, rk', walk_down g d lower (suc c) rk h (omega arith) at ∙ down, scan))

  -- When the walk has come short below slot `c`, the walk for the number before that slot's key finds
  -- an entry behind it, or stops at this node.
  walk_behind :
      {d c l fill b m : ℕ} {a : Addr} {es : List (ℕ × ℕ)}
      → Holds geo s a fill
      → Child geo s d (s.word a) c l fill es
      → ((j : ℕ) → j < c → l < key_num geo (s.word a) j)
      → key_num geo (s.word a) c ≤ l
      → (lower : Words) → IsWords lower geo.keylen
      → value lower geo.keylen + 1 ≡ key_num geo (s.word a) c
      → Walked geo s (suc d) a es b m lower
  walk_behind {d} {c} {l} {fill} {a} {es} h ch front here lower wl e =
      let w = s.word a in
      let l' = value lower geo.keylen in
      let above : (j : ℕ) → j < suc c → l' < key_num geo w j = λ j q. elim (Bool-cases (j == c)) [
        | inl same ↦ omega (arith, ap (key_num geo w) {x = j} {y = c} (ground (arith, same)))
        | inr other ↦ omega (arith, front j (ground (arith, other)))
      ] in
      let same : before (l' + 1) es ≡ before (l' + 1) ch.behind =
        ch.same (l' + 1) (omega arith)
        ∙ before-append (l' + 1) ch.here ch.behind
            (before-AllAtLeast (l' + 1) (key_num geo w c) ch.here (omega arith) ch.low) in
      let high = subst (λ b. AllBelow b ch.behind) (sym e) ch.high in
      walk_rest h ch.forest ch.count lower wl same high above

  before-here :
      {d c l fill : ℕ} {w : Words} {es : List (ℕ × ℕ)}
      → (ch : Child geo s d w c l fill es) (j k : ℕ) → key_num geo w c ≤ j
      → key_num geo w c ≤ k
      → j ≤ l + 1
      → k ≤ l + 1
      → before j ch.here ≡ before k ch.here
      → before j es ≡ before k es
  before-here {c} {w} ch j k pj pk qj qk e =
      ch.same j qj
      ∙ before-append_same j k ch.here ch.behind (before k ch.here) e refl
          (before-AllBelow j k (key_num geo w c) ch.behind pj pk ch.high)
      ∙ sym (ch.same k qk)

-- At a slot whose key is the first at most a number, the child's walk gives its parent's.
module _ {geo : Geo} (g : IsGeo geo) {s : State} {d c l fill b : ℕ} {a : Addr} {es : List (ℕ × ℕ)}
    (h : Holds geo s a fill) (ch : Child geo s d (s.word a) c l fill es) (p : c < fill)
    (bound : b ≤ key_num geo (s.word a) c)
    (front : (j : ℕ) → j < c → l < key_num geo (s.word a) j) where
  pub lift :
      {m : ℕ}
      → m ≤ d
      → (lower : Words) → IsWords lower geo.keylen
      → value lower geo.keylen ≤ l
      → key_num geo (s.word a) c ≤ value lower geo.keylen
      → Walked geo s d (bval geo (s.word a) c) ch.here (key_num geo (s.word a) c) m lower
      → Walked geo s (suc d) a es b m lower
  unfolding key_num
  lift small lower wl le low (found e first run) =
      let j = value lower geo.keylen + 1 in
      let at = getpos_first g lower c h wl p (λ j q. omega (arith, front j q)) low in
      found e (ch.same j (omega arith) ∙ before-append_found j ch.here ch.behind _ first) (λ rk.
        let (n, rk', down, scan) = run (some (bkey geo (s.word a) c)) in
        (n, rk', walk_down g d lower c rk h p at ∙ down, scan))
  lift small lower wl le low (missed none_here run) =
      let k = key_num geo (s.word a) c in
      let j = value lower geo.keylen + 1 in
      let at = getpos_first g lower c h wl p (λ j q. omega (arith, front j q)) low in
      again (suc d) (bkey geo (s.word a) c) (omega arith) (omega arith)
        (bkey-IsWords geo g (s.word a) c h.node.words (omega (arith, h.node.within))) bound low
        (before-here g ch j k (omega arith) (omega arith) (omega arith) (omega arith)
          (none_here ∙ sym (before-AllAtLeast k k ch.here (omega arith) ch.low)))
        (λ rk.
          let (n, down, scan) = run (some (bkey geo (s.word a) c)) in
          (n, walk_down g d lower c rk h p at ∙ down, scan))
        (λ lower' wl' e. walk_behind g h ch front (omega arith) lower' wl' e)
  lift small lower wl le low (again level k more within wk kb kl same run next) =
      let key = key_num geo (s.word a) c in
      let at = getpos_first g lower c h wl p (λ j q. omega (arith, front j q)) low in
      again level k more (omega arith) wk (omega arith) kl
        (before-here g ch (value lower geo.keylen + 1) (value k geo.keylen) (omega arith) kb
          (omega arith) (omega arith) same)
        (λ rk.
          let (n, down, scan) = run (some (bkey geo (s.word a) c)) in
          (n, walk_down g d lower c rk h p at ∙ down, scan))
        (λ lower' wl' e. elim (Bool-cases (leb key (value lower' geo.keylen))) [
          | inl same_slot ↦
              lift within lower' wl' (omega arith) (ground (arith, same_slot)) (next lower' wl' e)
          | inr behind ↦
              walk_behind g h ch front (omega arith) lower' wl' (ground (arith, behind, e, kb))
        ])
