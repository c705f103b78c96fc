-- ===== src/Tree/Prev/Wrap.antt =====
-- `cbtree_get_prev` of cbtree_base.c where it meets the parent key 0, which `dec_key` wraps around.
use btree_profiling.Common.{
  ℕ, zero, suc, ◌+◌, ◌-◌, ◌≤◌, ◌<◌, ◌≡◌, ◌≢◌, refl, sym, ap, ◌∙◌, arith, ltb, ◌==◌, List, [], ◌∷◌,
  ◌++◌, Option, some, none, Bool-cases, inl, inr, ◌⊎◌, tabulate, false,
}
use btree_profiling.Memory.{Addr, Words, State, Run, ok, Ptr, get_head}
use btree_profiling.Words.{word_mod, dec_key}
use btree_profiling.Words.Order.{value, IsWords, keyzero-value}
use btree_profiling.Words.Decrement.{dec_key-value, dec_key-wraps, dec_key-IsWords}
use btree_profiling.Entries.{AllBelow, before}
use btree_profiling.Node.{Geo, bkey, bval, getpos, getfill}
use btree_profiling.Node.Slots.{IsGeo, key_num, pair}
use btree_profiling.Node.Search.{getfill-fill, getpos_above, getpos_here}
use btree_profiling.Node.Insert.{bkey-IsWords}
use btree_profiling.Tree.Shape.{has, Holds, IsTree, IsForest, IsCbtree, leaf, inner, nil, cons}
use btree_profiling.Tree.Last.{last_leaf-head}
use btree_profiling.Tree.Insert.Walk.{HoldsKey, key_at, read_key-HoldsKey}
use btree_profiling.Tree.Prev.{cbtree_get_prev, prev_retry, prev_walk, prev_in_leaf}
use btree_profiling.Tree.Prev.Leaf.{as_entry}
use btree_profiling.Tree.Prev.Walk.{
  before-append_found, before-none_mono, forest-Child, ParentKeys, Walked, found, missed, again,
  walk_down,
}
use btree_profiling.Tree.Prev.Climb.{walk_top, before-AllBelow_head}
use btree_profiling.Tree.Prev.Before.{tree_walk}

-- No array of machine words stands for more than the largest words do.
value-max :
    (n : ℕ) (w top : Words)
    → IsWords w n
    → ((i : ℕ) → i < n → top i ≡ word_mod - 1)
    → value w n ≤ value top n
unfolding value
value-max zero w top h all = omega arith
value-max (suc n) w top h all = ground (
  arith,
  h n (omega arith),
  all n (omega arith),
  value-max n w top (λ i p. h i (omega arith)) (λ i p. all i (omega arith)),
)

AllBelow-append :
    (b : ℕ) (xs ys : List (ℕ × ℕ)) → AllBelow b xs → AllBelow b ys → AllBelow b (xs ++ ys)
AllBelow-append b [] ys hx hy = hy
AllBelow-append b (x ∷ xs) ys hx hy = (hx.0, AllBelow-append b xs ys hx.1 hy)

AllBelow-tabulate :
    (b : ℕ) (f : ℕ → ℕ × ℕ) (n : ℕ) → ((i : ℕ) → i < n → (f i).0 < b) → AllBelow b (tabulate f n)
AllBelow-tabulate b f zero h = tt
AllBelow-tabulate b f (suc n) h =
    (h 0 (omega arith), AllBelow-tabulate b (λ i. f (suc i)) n (λ i p. h (suc i) (omega arith)))

module _ {geo : Geo} (g : IsGeo geo) {s : State} (top : Words)
    (all : (i : ℕ) → i < geo.keylen → top i ≡ word_mod - 1) where
  mutual
    unfolding pair key_num

    IsTree-below_top :
        {d : ℕ} {a : Addr} {es : List (ℕ × ℕ)} {fp : List Addr}
        → IsTree geo s d a es fp
        → AllBelow (value top geo.keylen + 1) es
    IsTree-below_top (leaf {a} {fill} h) =
        AllBelow-tabulate (value top geo.keylen + 1) (pair geo (s.word a)) fill (λ i p. omega (
          arith,
          value-max geo.keylen (bkey geo (s.word a) i) top
              (bkey-IsWords geo g (s.word a) i h.node.words (omega (arith, h.node.within))) all,
        ))
    IsTree-below_top (inner h out f) = IsForest-below_top f

    IsForest-below_top :
        {d : ℕ} {w : Words} {i n : ℕ} {es : List (ℕ × ℕ)} {fp : List Addr}
        → IsForest geo s d w i n es fp
        → AllBelow (value top geo.keylen + 1) es
    IsForest-below_top nil = tt
    IsForest-below_top (cons {e1} {e2} t f apart low high) =
        AllBelow-append (value top geo.keylen + 1) e1 e2 (IsTree-below_top t) (IsForest-below_top f)

-- A walk below a parent finds an entry, or has a key to go on with, not above the number.
walk_on :
    {geo : Geo} {s : State} {d b : ℕ} {a : Addr} {es : List (ℕ × ℕ)} {lower : Words}
    → Walked geo s d a es b 0 lower
    → (k0 : Words) → IsWords k0 geo.keylen
    → value k0 geo.keylen ≤ value lower geo.keylen
    → ((e : ℕ × Words) × (before (value lower geo.keylen + 1) es ≡ as_entry geo (some e))
        × (n : Addr) × (rk : Option Words) × (prev_walk geo d a lower (some k0) s ≡ ok (n, rk) s)
        × (prev_in_leaf geo n lower s ≡ ok (some e) s))
      ⊎ ((n : Addr) × (k : Words) × (prev_walk geo d a lower (some k0) s ≡ ok (n, some k) s)
          × (prev_in_leaf geo n lower s ≡ ok none s)
          × IsWords k geo.keylen
          × (value k geo.keylen ≤ value lower geo.keylen))
walk_on (found e first run) k0 w0 le =
    let (n, rk, down, scan) = run (some k0) in inl (e, first, n, rk, down, scan)
walk_on (missed same run) k0 w0 le =
    let (n, down, scan) = run (some k0) in inr (n, k0, down, scan, w0, le)
walk_on (again h k more within wk kb kl same run next) k0 w0 le =
    let (n, down, scan) = run (some k0) in inr (n, k, down, scan, wk, kl)

-- An entry that is the first below a number up to `k`, or the first of all.
abbrev pub Picks : Geo → List (ℕ × ℕ) → ℕ → ℕ × Words → Type 0
Picks geo es k e =
    ((j : ℕ) × (j ≤ k) × (before j es ≡ as_entry geo (some e)))
    ⊎ ((b v : ℕ) (rest : List (ℕ × ℕ)) → es ≡ (b, v) ∷ rest → as_entry geo (some e) ≡ some (b, v))

Picks-mono :
    (geo : Geo) (es : List (ℕ × ℕ)) (k k' : ℕ) (e : ℕ × Words)
    → k ≤ k'
    → Picks geo es k e
    → Picks geo es k' e
Picks-mono geo es k k' e h (inl (j, le, there)) = inl (j, omega arith, there)
Picks-mono geo es k k' e h (inr first) = inr first

module _ {geo : Geo} (g : IsGeo geo) {s : State} {d : ℕ} {fill : ℕ} {es : List (ℕ × ℕ)}
    {fp : List Addr} (high : s.head.height ≡ suc (suc d)) (h : Holds geo s s.head.node fill)
    (out : has s.head.node fp ≡ false) (forest : IsForest geo s d (s.word s.head.node) 0 fill es fp)
    (keys : ParentKeys geo s 0 (suc d) s.head.node)
    (last : key_num geo (s.word s.head.node) (fill - 1) ≡ 0) where
  -- From the key 0 the walk starts again at the top.
  retry_zero :
      (f : ℕ) (key : Words)
      → value key geo.keylen ≡ 0
      → IsWords key geo.keylen
      → (e : ℕ × Words) × (prev_retry (suc f) geo key s ≡ ok (some e) s)
        × ((b v : ℕ) (rest : List (ℕ × ℕ))
            → es ≡ (b, v) ∷ rest
            → as_entry geo (some e) ≡ some (b, v))
  unfolding prev_retry get_head
  retry_zero f key zero_key wk =
      let lower = dec_key geo.keylen key in
      let all : (i : ℕ) → i < geo.keylen → lower i ≡ word_mod - 1 =
        λ i p. dec_key-wraps geo.keylen key i zero_key p in
      let t : IsTree geo s (suc d) s.head.node es (s.head.node ∷ fp) = inner h out forest in
      let below = IsTree-below_top g lower all t in
      let (e, first, run) =
        walk_top g t lower (dec_key-IsWords geo.keylen geo.keylen key wk) below in
      let (n, rk, down, scan) = run none in
      (
        e,
        ground (arith, high, down, scan),
        λ b v rest same.
            sym first
            ∙ (before-AllBelow_head (value lower geo.keylen + 1) b v es rest below same).0,
      )

  abbrev slot : Words → ℕ
  slot key = getpos geo (s.word s.head.node) (dec_key geo.keylen key)

  abbrev child_walk : Words → Run (Addr × Option Words)
  child_walk key =
      prev_walk geo d (bval geo (s.word s.head.node) (slot key)) (dec_key geo.keylen key)
        (some (bkey geo (s.word s.head.node) (slot key))) s

  retry_step :
      (f : ℕ) (key : Words) (n : Addr) (k : Words) (x : ℕ × Words)
      → slot key < fill
      → child_walk key ≡ ok (n, some k) s
      → prev_in_leaf geo n (dec_key geo.keylen key) s ≡ ok none s
      → prev_retry f geo k s ≡ ok (some x) s
      → prev_retry (suc f) geo key s ≡ ok (some x) s
  unfolding prev_retry get_head
  retry_step f key n k x inside down scan run =
      let first = walk_down g d (dec_key geo.keylen key) (slot key) none h inside refl ∙ down in
      ground (arith, high, first, scan, run)

  retry_finds :
      (f : ℕ) (key : Words) (n : Addr) (rk : Option Words) (x : ℕ × Words)
      → slot key < fill
      → child_walk key ≡ ok (n, rk) s
      → prev_in_leaf geo n (dec_key geo.keylen key) s ≡ ok (some x) s
      → prev_retry (suc f) geo key s ≡ ok (some x) s
  unfolding prev_retry get_head
  retry_finds f key n rk x inside down scan =
      let first = walk_down g d (dec_key geo.keylen key) (slot key) none h inside refl ∙ down in
      ground (arith, high, first, scan)

  -- With the parent key 0 at the end every number is at some slot of the root.
  slot_inside : (key : Words) → IsWords key geo.keylen → slot key < fill
  slot_inside key wk =
      let w = s.word s.head.node in
      let lower = dec_key geo.keylen key in
      let wl = dec_key-IsWords geo.keylen geo.keylen key wk in
      elim (Bool-cases (ltb (slot key) fill)) [
        | inl less ↦ ground (arith, less)
        | inr more ↦ absurd (
            omega (
              arith,
              last,
              getpos_above geo g w lower (fill - 1) h.node.words wl
                  (ground (arith, more, h.some_pair)),
            ))
      ]

  retry-Picks :
      (f : ℕ) (key : Words)
      → IsWords key geo.keylen
      → value key geo.keylen < f
      → (e : ℕ × Words) × (prev_retry f geo key s ≡ ok (some e) s)
        × Picks geo es (value key geo.keylen) e
  unfolding key_num
  retry-Picks zero key wk fuel = absurd (omega arith)
  retry-Picks (suc f) key wk fuel = elim (Bool-cases (value key geo.keylen == 0)) [
    | inl e ↦ let (x, run, first) = retry_zero f key (ground (arith, e)) wk in (x, run, inr first)
    | inr e ↦
        let w = s.word s.head.node in
        let lower = dec_key geo.keylen key in
        let l = value lower geo.keylen in
        let wl = dec_key-IsWords geo.keylen geo.keylen key wk in
        let one = dec_key-value geo.keylen key wk (ground (arith, e)) in
        let i = slot key in
        let inside = slot_inside key wk in
        let room : i < geo.no_pairs = omega (arith, h.node.within, inside) in
        let ch =
          forest-Child l i fill forest (omega arith) (omega arith) inside
            (λ j q. getpos_above geo g w lower j h.node.words wl q) in
        let (bound, below) = keys i room (h.node.used i inside) in
        elim (walk_on (tree_walk g d (key_num geo w i) ch.tree below lower wl) (bkey geo w i)
          (bkey-IsWords geo g w i h.node.words room)
          (getpos_here geo g w lower h.node.words wl room)) [
            | inl (x, first, n, rk, down, scan) ↦ (
              x,
              retry_finds f key n rk x inside down scan,
              inl (
                l + 1,
                omega arith,
                ch.same (l + 1) (omega arith)
                    ∙ before-append_found (l + 1) ch.here ch.behind _ first,
              ),
            )
            | inr (n, k, down, scan, wk', le) ↦
                let (x, run, picks) = retry-Picks f k wk' (omega arith) in
                (
                  x,
                  retry_step f key n k x inside down scan run,
                  Picks-mono geo es (value k geo.keylen) (value key geo.keylen) x (omega arith)
                      picks,
                )
          ]
  ]

module _ {geo : Geo} (g : IsGeo geo) {s : State} where
  from_root :
      {d : ℕ} {es : List (ℕ × ℕ)} {fp : List Addr}
      → s.head.height ≡ suc (suc d)
      → IsTree geo s (suc d) s.head.node es fp
      → ParentKeys geo s 0 (suc d) s.head.node
      → key_num geo (s.word s.head.node) (getfill geo (s.word s.head.node) 0 - 1) ≡ 0
      → (key : Words) → IsWords key geo.keylen
      → (f : ℕ) → value key geo.keylen < f
      → (e : ℕ × Words) × (prev_retry f geo key s ≡ ok (some e) s)
        × Picks geo es (value key geo.keylen) e
  from_root {d} {es} high (inner {fill} h out forest) keys last key wk f fuel =
      let stop = getfill-fill geo g (s.word s.head.node) fill h.node 0 (omega arith) in
      let at_last = ap (λ i. key_num geo (s.word s.head.node) (i - 1)) (sym stop) ∙ last in
      retry-Picks g high h out forest keys at_last f key wk fuel

  -- With a parent key 0 at the end of the root there always is an entry.
  pub cbtree_get_prev-Picks :
      {p : Ptr} {d : ℕ} {es : List (ℕ × ℕ)} {fp : List Addr}
      → IsCbtree geo s (suc d) es fp
      → ParentKeys geo s 0 (suc d) s.head.node
      → key_num geo (s.word s.head.node) (getfill geo (s.word s.head.node) 0 - 1) ≡ 0
      → HoldsKey geo s p
      → value (key_at s p) geo.keylen ≢ 0
      → (f : ℕ) → value (key_at s p) geo.keylen < f
      → (e : ℕ × Words) × (cbtree_get_prev f geo p s ≡ ok (some e) s)
        × Picks geo es (value (key_at s p) geo.keylen) e
  unfolding cbtree_get_prev get_head
  cbtree_get_prev-Picks {p} t keys last hk ne f fuel =
      let key = key_at s p in
      let zero_test = keyzero-value geo.keylen key in
      let (e, run, picks) = from_root t.height t.tree keys last key hk.words f fuel in
      (e, ground (arith, read_key-HoldsKey hk, zero_test, ne, t.height, run), picks)

  -- On a tree of two levels or more the last key of whose root is 0, each parent key at least
  -- that of its own parent, `cbtree_get_prev` of a key other than 0 that no entry is below does
  -- not return `NULL`: a retry wraps the parent key 0 around, and the first entry of the tree,
  -- the largest, comes back. The geometry's keys fill their words, the key can be read, and there
  -- are more units of fuel than the key.
  pub cbtree_get_prev-wraps :
      {p : Ptr} {d : ℕ} {es : List (ℕ × ℕ)} {fp : List Addr}
      → IsCbtree geo s (suc d) es fp
      → ParentKeys geo s 0 (suc d) s.head.node
      → key_num geo (s.word s.head.node) (getfill geo (s.word s.head.node) 0 - 1) ≡ 0
      → HoldsKey geo s p
      → value (key_at s p) geo.keylen ≢ 0
      → before (value (key_at s p) geo.keylen) es ≡ none
      → (f : ℕ) → value (key_at s p) geo.keylen < f
      → (e : ℕ × Words) × (rest : List (ℕ × ℕ)) × (cbtree_get_prev f geo p s ≡ ok (some e) s)
        × (es ≡ (value e.1 geo.keylen, e.0) ∷ rest)
  cbtree_get_prev-wraps {p} {es} t keys last hk ne none_below f fuel =
      let (e, run, picks) = cbtree_get_prev-Picks t keys last hk ne f fuel in
      let (n, m, rest, down, hn, same) = last_leaf-head t.tree in
      elim picks [
        | inl (j, le, there) ↦
            let gone = before-none_mono j (value (key_at s p) geo.keylen) es le none_below in
            absurd (ground (arith, there, gone))
        | inr first ↦ (e, rest, run, same_first (first _ _ rest same) same)
      ]
    where
      same_first :
          {e b : ℕ × ℕ} {rest : List (ℕ × ℕ)} → some e ≡ some b → es ≡ b ∷ rest → es ≡ e ∷ rest
      same_first p q = ground (arith, p, q)
