-- ===== src/Node/Split/Halves.antt =====
-- Both nodes that a split in `cbtree_insert_level` of cbtree_base.c leaves.
use btree_profiling.Common.{
  ℕ, zero, suc, ◌+◌, ◌-◌, ◌/◌, ◌%◌, ◌≤◌, ◌<◌, ◌≡◌, Bool-cases, inl, inr, ap, sym, ◌∙◌, ◌++◌, arith,
  ◌==◌,
}
use btree_profiling.Memory.{Words}
use btree_profiling.Words.Order.{IsWords}
use btree_profiling.Node.{Geo, copypair, movepair, clearpair, split_loop, split_odd, split}
use btree_profiling.Node.Slots.{IsGeo, pair, entries}
use btree_profiling.Node.Search.{IsNode}
use btree_profiling.Node.Insert.{movepair-IsWords, setkey-IsWords, setval-IsWords, bkey-IsWords}
use btree_profiling.Node.Remove.{clearpair-IsWords}
use btree_profiling.Node.Split.{split_loop-new, split-new, split-node, split-append}

module _ (geo : Geo) (g : IsGeo geo) where
  copypair-IsWords :
      (new : Words) (i : ℕ) (node : Words) (j : ℕ)
      → IsWords new geo.no_longs
      → IsWords node geo.no_longs
      → j < geo.no_pairs
      → IsWords (copypair geo new i node j) geo.no_longs
  unfolding copypair
  copypair-IsWords new i node j wn w p =
      setval-IsWords geo g _ i _ (setkey-IsWords geo g new i _ wn (bkey-IsWords geo g node j w p))

  split_loop-IsWords :
      (new node : Words) (half i n : ℕ)
      → IsWords new geo.no_longs
      → IsWords node geo.no_longs
      → i + n ≡ half
      → half + half ≤ geo.no_pairs
      → IsWords (split_loop geo new node half i n).0 geo.no_longs
        × IsWords (split_loop geo new node half i n).1 geo.no_longs
  unfolding split_loop
  split_loop-IsWords new node half i zero wn w e p = (wn, w)
  split_loop-IsWords new node half i (suc n) wn w e p =
      split_loop-IsWords (copypair geo new i node i)
        (clearpair geo (movepair geo node i (i + half)) (i + half)) half (suc i) n
        (copypair-IsWords new i node i wn w (omega arith))
        (clearpair-IsWords geo g (movepair geo node i (i + half)) (i + half)
          (movepair-IsWords geo g node i (i + half) w (omega arith)))
        (omega arith) p

  module _ (new node : Words) (fill : ℕ) (is_new : IsNode geo new 0) (is : IsNode geo node fill)
      (some_left : 1 < fill) where
    split-IsWords :
        IsWords (split geo new node fill).0 geo.no_longs
        × IsWords (split geo new node fill).1 geo.no_longs
    unfolding split split_odd
    split-IsWords =
        let (wn, w) =
          split_loop-IsWords new node (fill / 2) 0 (fill / 2) is_new.words is.words (omega arith)
            (omega (arith, is.within)) in
        let old = (split_loop geo new node (fill / 2) 0 (fill / 2)).1 in
        let moved =
          clearpair-IsWords geo g (movepair geo old (fill / 2) (fill - 1)) (fill - 1)
            (movepair-IsWords geo g old (fill / 2) (fill - 1) w (omega (arith, is.within))) in
        elim (Bool-cases (fill % 2 == 1)) [ inl e ↦ rw e (wn, moved) | inr e ↦ rw e (wn, w) ]

    above-split :
        (m : ℕ) → fill / 2 ≤ m → m < geo.no_pairs → pair geo (split geo new node fill).0 m ≡ (0, 0)
    unfolding split split_odd
    above-split m p q = ground (
      arith,
      split_loop-new geo g new node (fill / 2) 0 (fill / 2) m (omega arith)
          (omega (arith, is.within)) q,
      is_new.unused m,
    )

    old_pair :
        (i : ℕ)
        → i < fill - fill / 2
        → pair geo (split geo new node fill).1 i ≡ pair geo node (fill / 2 + i)
    old_pair i p = ground (arith, split-node geo g new node fill some_left is.within i, is.within)

    -- A split of a node with more than one pair and of a new empty node leaves two nodes: the new
    -- one holds the first half of the pairs, the old one the others, in order, and the remaining
    -- slots of both are empty. The geometry's keys fill their words.
    pub split-IsNode :
        IsNode geo (split geo new node fill).0 (fill / 2)
        × IsNode geo (split geo new node fill).1 (fill - fill / 2)
        × (entries geo node fill
            ≡ entries geo (split geo new node fill).0 (fill / 2)
              ++ entries geo (split geo new node fill).1 (fill - fill / 2))
    unfolding pair
    split-IsNode = (
      record {
        words = split-IsWords.0;
        within = omega (arith, is.within);
        used = λ i p e. is.used i (omega arith) (
            sym (ap (λ (x : ℕ × ℕ). x.1) (split-new geo g new node fill some_left is.within i p))
            ∙ e);
        unused = above-split;
      },
      record {
        words = split-IsWords.1;
        within = omega (arith, is.within);
        used = λ i p e.
            is.used (fill / 2 + i) (omega arith) (sym (ap (λ (x : ℕ × ℕ). x.1) (old_pair i p)) ∙ e);
        unused = λ i p q.
            ground (arith, split-node geo g new node fill some_left is.within i q, is.unused i);
      },
      (split-append geo g new node fill some_left is.within).0,
    )
