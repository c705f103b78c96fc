-- ===== src/Node/Remove.antt =====
-- Remove and shift, as `cbtree_remove_level` of cbtree_base.c does it in a node.
use btree_profiling.Common.{
  ◌*◌, ℕ, zero, suc, ◌+◌, ◌-◌, ◌≤◌, ◌<◌, ◌≡◌, refl, ◌&&◌, arith, ltb, leb, ◌==◌, if◌then◌else◌,
  remove_at, tabulate-remove_at,
}
use btree_profiling.Memory.{Words, update}
use btree_profiling.Words.Copy.{longset_lem}
use btree_profiling.Words.Order.{IsWords}
use btree_profiling.Node.Search.{IsNode}
use btree_profiling.Node.Insert.{movepair-IsWords}
use btree_profiling.Node.{Geo, shift_down, movepair, remove_pair, clearpair}
use btree_profiling.Node.Slots.{IsGeo, pair, entries, pair-movepair, pair-clearpair}

module _ (geo : Geo) (g : IsGeo geo) where
  -- The pairs behind slot `i` move down by one slot.
  pair-shift_down :
      (node : Words) (i n m : ℕ)
      → i + n < geo.no_pairs
      → m < geo.no_pairs
      → pair geo (shift_down geo node i n) m
        ≡ (if leb i m && ltb m (i + n) then pair geo node (suc m) else pair geo node m)
  unfolding shift_down
  pair-shift_down node i zero m p q = ground arith
  pair-shift_down node i (suc n) m p q = ground (
    arith,
    pair-shift_down (movepair geo node i (suc i)) (suc i) n m,
    pair-movepair geo g node i (suc i) m,
    pair-movepair geo g node i (suc i) (suc m),
  )

  -- Remove and shift, at a slot not behind the last used one, takes the pair at the position out
  -- of the node's pairs, moves those behind it, and leaves the last slot empty. The geometry's
  -- keys fill their words.
  pub remove_pair-remove_at :
      (node : Words) (pos fill : ℕ)
      → pos ≤ fill
      → fill < geo.no_pairs
      → (entries geo (remove_pair geo node pos (suc fill)) fill
          ≡ remove_at pos (entries geo node (suc fill)))
        × (pair geo (remove_pair geo node pos (suc fill)) fill ≡ (0, 0))
  unfolding remove_pair
  remove_pair-remove_at node pos fill p q =
      let moved = shift_down geo node pos (suc fill - 1 - pos) in
      (
        tabulate-remove_at (pair geo node) (pair geo (remove_pair geo node pos (suc fill))) pos fill
            (omega arith)
            (λ i h. ground (
              arith,
              pair-clearpair geo g moved (suc fill - 1) i,
              pair-shift_down node pos (suc fill - 1 - pos) i,
            ))
            (λ i h k. ground (
              arith,
              pair-clearpair geo g moved (suc fill - 1) i,
              pair-shift_down node pos (suc fill - 1 - pos) i,
            )),
        ground (arith, pair-clearpair geo g moved (suc fill - 1) fill),
      )

  -- What remove and shift leaves in each slot.
  pub pair-remove_pair :
      (node : Words) (pos fill m : ℕ)
      → pos ≤ fill
      → fill < geo.no_pairs
      → m < geo.no_pairs
      → pair geo (remove_pair geo node pos (suc fill)) m ≡ (
          if m == fill
          then (0, 0)
          else if leb pos m && ltb m fill
          then pair geo node (suc m)
          else pair geo node m)
  unfolding remove_pair
  pair-remove_pair node pos fill m p q r = ground (
    arith,
    pair-clearpair geo g (shift_down geo node pos (suc fill - 1 - pos)) (suc fill - 1) m,
    pair-shift_down node pos (suc fill - 1 - pos) m,
  )

  shift_down-IsWords :
      (node : Words) (i n : ℕ)
      → IsWords node geo.no_longs
      → i + n < geo.no_pairs
      → IsWords (shift_down geo node i n) geo.no_longs
  unfolding shift_down
  shift_down-IsWords node i zero w p = w
  shift_down-IsWords node i (suc n) w p =
      shift_down-IsWords (movepair geo node i (suc i)) (suc i) n
        (movepair-IsWords geo g node i (suc i) w (omega arith)) (omega arith)

  pub clearpair-IsWords :
      (node : Words) (n : ℕ)
      → IsWords node geo.no_longs
      → IsWords (clearpair geo node n) geo.no_longs
  unfolding clearpair update
  clearpair-IsWords node n w j p =
      ground (arith, longset_lem node (n * geo.keylen) 0 geo.keylen j, w j p)

  -- A node stays a node, with one pair less.
  pub remove_pair-IsNode :
      (node : Words) (pos fill : ℕ)
      → IsNode geo node (suc fill)
      → pos ≤ fill
      → IsNode geo (remove_pair geo node pos (suc fill)) fill
  unfolding remove_pair pair
  remove_pair-IsNode node pos fill is p =
      let room : fill < geo.no_pairs = is.within in
      record {
        words =
            clearpair-IsWords (shift_down geo node pos (suc fill - 1 - pos)) (suc fill - 1)
              (shift_down-IsWords node pos (suc fill - 1 - pos) is.words (omega arith));
        within = omega arith;
        used = λ i h.
            ground (arith, pair-remove_pair node pos fill i p room, is.used i, is.used (suc i));
        unused = λ i h q. ground (arith, pair-remove_pair node pos fill i p room q, is.unused i);
      }

  -- With the place behind the pairs, remove and shift empties the last slot.
  pub remove_pair_behind :
      (node : Words) (fill : ℕ)
      → remove_pair geo node (suc fill) (suc fill) ≡ remove_pair geo node fill (suc fill)
  unfolding remove_pair shift_down
  remove_pair_behind node fill =
      let none : suc fill - 1 - suc fill ≡ 0 = omega arith in
      let none' : suc fill - 1 - fill ≡ 0 = omega arith in rw (none, none') refl
