-- ===== src/Node/Split.antt =====
-- The pairs that move between two nodes when `cbtree_insert_level` splits one and `merge` joins two,
-- both of cbtree_base.c.
pub mod Halves
use btree_profiling.Common.{
  zero, suc, ◌+◌, ◌-◌, ◌/◌, ◌≤◌, ◌<◌, ◌≡◌, refl, sym, ◌&&◌, ◌++◌, arith, ltb, leb, if◌then◌else◌,
  tabulate, tabulate-append, tabulate_congr, ℕ,
}
use btree_profiling.Memory.{Words}
use btree_profiling.Node.{
  Geo, copypair, movepair, clearpair, split_loop, split_odd, split, append_pairs,
}
use btree_profiling.Node.Slots.{IsGeo, pair, entries, pair-copypair, pair-movepair, pair-clearpair}

module _ (geo : Geo) (g : IsGeo geo) where
  pub split_loop-new :
      (new node : Words) (half i n m : ℕ)
      → i + n ≡ half
      → half + half ≤ geo.no_pairs
      → m < geo.no_pairs
      → pair geo (split_loop geo new node half i n).0 m
        ≡ (if leb i m && ltb m half then pair geo node m else pair geo new m)
  unfolding split_loop
  split_loop-new new node half i zero m e p q = ground arith
  split_loop-new new node half i (suc n) m e p q =
      let moved = movepair geo node i (i + half) in
      ground (
        arith,
        split_loop-new (copypair geo new i node i) (clearpair geo moved (i + half)) half (suc i) n
            m,
        pair-copypair geo g new i node i m,
        pair-clearpair geo g moved (i + half) m,
        pair-movepair geo g node i (i + half) m,
      )

  split_loop-node :
      (new node : Words) (half i n m : ℕ)
      → i + n ≡ half
      → half + half ≤ geo.no_pairs
      → m < geo.no_pairs
      → pair geo (split_loop geo new node half i n).1 m ≡ (
          if leb i m && ltb m half
          then pair geo node (m + half)
          else if leb (i + half) m && ltb m (half + half)
          then (0, 0)
          else pair geo node m)
  unfolding split_loop
  split_loop-node new node half i zero m e p q = ground arith
  split_loop-node new node half i (suc n) m e p q =
      let moved = movepair geo node i (i + half) in
      ground (
        arith,
        split_loop-node (copypair geo new i node i) (clearpair geo moved (i + half)) half (suc i) n
            m,
        pair-clearpair geo g moved (i + half) m,
        pair-clearpair geo g moved (i + half) (m + half),
        pair-movepair geo g node i (i + half) m,
        pair-movepair geo g node i (i + half) (m + half),
      )

  module _ (new node : Words) (fill : ℕ) (some_left : 1 < fill) (room : fill ≤ geo.no_pairs) where
    pub split-new :
        (m : ℕ) → m < fill / 2 → pair geo (split geo new node fill).0 m ≡ pair geo node m
    unfolding split split_odd
    split-new m q =
        ground
          (arith, split_loop-new new node (fill / 2) 0 (fill / 2) m (omega arith) (omega arith))

    pub split-node :
        (m : ℕ)
        → m < geo.no_pairs
        → pair geo (split geo new node fill).1 m ≡ (
            if ltb m (fill - fill / 2)
            then pair geo node (fill / 2 + m)
            else if ltb m fill
            then (0, 0)
            else pair geo node m)
    unfolding split split_odd
    split-node m q =
        let old = (split_loop geo new node (fill / 2) 0 (fill / 2)).1 in
        let moved = movepair geo old (fill / 2) (fill - 1) in
        ground (
          arith,
          split_loop-node new node (fill / 2) 0 (fill / 2) m (omega arith) (omega arith) q,
          split_loop-node new node (fill / 2) 0 (fill / 2) (fill - 1) (omega arith) (omega arith)
              (omega arith),
          pair-clearpair geo g moved (fill - 1) m (omega arith) q,
          pair-movepair geo g old (fill / 2) (fill - 1) m (omega arith) q,
        )

    -- A split of a node with more than one pair, and no more than the geometry allows, leaves the
    -- first half of the pairs in the new node and the others, in order, in the old one, whose
    -- last `fill / 2` used slots it empties. The geometry's keys fill their words.
    pub split-append :
        (entries geo node fill
          ≡ entries geo (split geo new node fill).0 (fill / 2)
            ++ entries geo (split geo new node fill).1 (fill - fill / 2))
        × (tabulate (λ i. pair geo (split geo new node fill).1 (fill - fill / 2 + i)) (fill / 2)
            ≡ tabulate (λ _. (0, 0)) (fill / 2))
    split-append = (
      tabulate-append (pair geo node) (pair geo (split geo new node fill).0)
          (pair geo (split geo new node fill).1) (fill / 2) (fill - fill / 2) fill (omega arith)
          (λ i q. sym (split-new i q)) (λ i q. ground (arith, split-node i)),
      tabulate_congr _ _ (fill / 2) λ i q. ground (arith, split-node (fill - fill / 2 + i)),
    )

  pair-append_pairs :
      (left : Words) (lfill : ℕ) (right : Words) (i n m : ℕ)
      → lfill + i + n ≤ geo.no_pairs
      → m < geo.no_pairs
      → pair geo (append_pairs geo left lfill right i n) m ≡ (
          if leb (lfill + i) m && ltb m (lfill + i + n)
          then pair geo right (m - lfill)
          else pair geo left m)
  unfolding append_pairs
  pair-append_pairs left lfill right i zero m p q = ground arith
  pair-append_pairs left lfill right i (suc n) m p q = ground (
    arith,
    pair-append_pairs (copypair geo left (lfill + i) right i) lfill right (suc i) n m,
    pair-copypair geo g left (lfill + i) right i m,
  )

  -- The first loop of `merge` puts the pairs of the right node behind those of the left one, if
  -- all of them fit into one node. The geometry's keys fill their words.
  pub append_pairs-append :
      (left : Words) (lfill : ℕ) (right : Words) (rfill : ℕ)
      → lfill + rfill ≤ geo.no_pairs
      → entries geo (append_pairs geo left lfill right 0 rfill) (lfill + rfill)
        ≡ entries geo left lfill ++ entries geo right rfill
  append_pairs-append left lfill right rfill p =
      tabulate-append (pair geo (append_pairs geo left lfill right 0 rfill)) (pair geo left)
        (pair geo right) lfill rfill (lfill + rfill) refl
        (λ i q. ground (arith, pair-append_pairs left lfill right 0 rfill i))
        (λ i q. ground (arith, pair-append_pairs left lfill right 0 rfill (lfill + i)))
