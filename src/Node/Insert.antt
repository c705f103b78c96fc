-- ===== src/Node/Insert.antt =====
-- Shift and insert, as `cbtree_insert_level` of cbtree_base.c does it in a node with room.
use btree_profiling.Common.{
  ℕ, zero, suc, ◌+◌, ◌-◌, ◌*◌, ◌≢◌, ◌≤◌, ◌<◌, ◌≡◌, ◌&&◌, arith, ltb, leb, ◌==◌, if◌then◌else◌,
  insert_at, tabulate-insert_at,
}
use btree_profiling.Memory.{Words}
use btree_profiling.Words.Order.{value, IsWords}
use btree_profiling.Words.Copy.{longcpy_lem}
use btree_profiling.Memory.{update}
use btree_profiling.Node.Search.{IsNode}
use btree_profiling.Node.{Geo, bkey, shift_up, movepair, insert_pair, setkey, setval}
use btree_profiling.Node.Slots.{
  IsGeo, pair, entries, pair-movepair, pair-set, slot_le, bval-setkey, key_num-setkey,
}

module _ (geo : Geo) (g : IsGeo geo) where
  -- The pairs from `pos` on move up by one slot.
  pair-shift_up :
      (node : Words) (pos n m : ℕ)
      → pos + n < geo.no_pairs
      → m < geo.no_pairs
      → pair geo (shift_up geo node pos n) m
        ≡ (if ltb pos m && leb m (pos + n) then pair geo node (m - 1) else pair geo node m)
  unfolding shift_up
  pair-shift_up node pos zero m p q = ground arith
  pair-shift_up node pos (suc n) m p q = ground (
    arith,
    pair-shift_up (movepair geo node (pos + suc n) (pos + n)) pos n m,
    pair-movepair geo g node (pos + suc n) (pos + n) m,
    pair-movepair geo g node (pos + suc n) (pos + n) (m - 1),
  )

  -- What shift and insert leaves in each slot.
  pub pair-insert_pair :
      (node : Words) (pos fill : ℕ) (key : Words) (val m : ℕ)
      → pos ≤ fill
      → fill < geo.no_pairs
      → m < geo.no_pairs
      → pair geo (insert_pair geo node pos fill key val) m ≡ (
          if ltb m pos
          then pair geo node m
          else if m == pos
          then (value key geo.keylen, val)
          else if leb m fill
          then pair geo node (m - 1)
          else pair geo node m)
  unfolding insert_pair
  pair-insert_pair node pos fill key val m p q r = ground (
    arith,
    pair-set geo g (shift_up geo node pos (fill - pos)) pos key val m,
    pair-shift_up node pos (fill - pos) m,
  )

  -- Shift and insert, at a slot not behind the used ones of a node with room, puts the pair at
  -- its position among the node's pairs, and moves those behind it. The geometry's keys fill
  -- their words.
  pub insert_pair-insert_at :
      (node : Words) (pos fill : ℕ) (key : Words) (val : ℕ)
      → pos ≤ fill
      → fill < geo.no_pairs
      → entries geo (insert_pair geo node pos fill key val) (suc fill)
        ≡ insert_at pos (value key geo.keylen, val) (entries geo node fill)
  insert_pair-insert_at node pos fill key val p q =
      tabulate-insert_at (pair geo node) (pair geo (insert_pair geo node pos fill key val)) pos fill
        (value key geo.keylen, val) (omega arith)
        (λ i h. ground (arith, pair-insert_pair node pos fill key val i))
        (ground (arith, pair-insert_pair node pos fill key val pos))
        (λ i h k. ground (arith, pair-insert_pair node pos fill key val (suc i)))

  -- The words of the keys stay machine words.
  pub setkey-IsWords :
      (node : Words) (n : ℕ) (key : Words)
      → IsWords node geo.no_longs
      → IsWords key geo.keylen
      → IsWords (setkey geo node n key) geo.no_longs
  unfolding setkey
  setkey-IsWords node n key w wk j p =
      ground
        (arith, longcpy_lem node (n * geo.keylen) key geo.keylen j, w j p, wk (j - n * geo.keylen))

  pub setval-IsWords :
      (node : Words) (n v : ℕ)
      → IsWords node geo.no_longs
      → IsWords (setval geo node n v) geo.no_longs
  unfolding setval update
  setval-IsWords node n v w j p = ground (arith, w j p)

  pub bkey-IsWords :
      (node : Words) (i : ℕ)
      → IsWords node geo.no_longs
      → i < geo.no_pairs
      → IsWords (bkey geo node i) geo.keylen
  unfolding bkey
  bkey-IsWords node i w p j q =
      w (i * geo.keylen + j) (omega (arith, g.longs, slot_le i geo.no_pairs geo.keylen p))

  pub movepair-IsWords :
      (node : Words) (i j : ℕ)
      → IsWords node geo.no_longs
      → j < geo.no_pairs
      → IsWords (movepair geo node i j) geo.no_longs
  unfolding movepair
  movepair-IsWords node i j w p =
      setval-IsWords (setkey geo node i (bkey geo node j)) i _
        (setkey-IsWords node i (bkey geo node j) w (bkey-IsWords node j w p))

  shift_up-IsWords :
      (node : Words) (pos n : ℕ)
      → IsWords node geo.no_longs
      → pos + n < geo.no_pairs
      → IsWords (shift_up geo node pos n) geo.no_longs
  unfolding shift_up
  shift_up-IsWords node pos zero w p = w
  shift_up-IsWords node pos (suc n) w p =
      shift_up-IsWords (movepair geo node (pos + suc n) (pos + n)) pos n
        (movepair-IsWords node (pos + suc n) (pos + n) w (omega arith)) (omega arith)

  -- A node with room stays a node.
  pub insert_pair-IsNode :
      (node : Words) (pos fill : ℕ) (key : Words) (val : ℕ)
      → IsNode geo node fill
      → IsWords key geo.keylen
      → pos ≤ fill
      → fill < geo.no_pairs
      → val ≢ 0
      → IsNode geo (insert_pair geo node pos fill key val) (suc fill)
  unfolding insert_pair pair
  insert_pair-IsNode node pos fill key val is wk p q ne = record {
    words = setval-IsWords (setkey geo (shift_up geo node pos (fill - pos)) pos key) pos val (
        setkey-IsWords (shift_up geo node pos (fill - pos)) pos key
          (shift_up-IsWords node pos (fill - pos) is.words (omega arith)) wk);
    within = q;
    used =
        λ i h. ground (arith, pair-insert_pair node pos fill key val i, is.used i, is.used (i - 1));
    unused = λ i h k. ground (arith, pair-insert_pair node pos fill key val i, is.unused i);
  }

  -- A node whose key in a used slot is replaced stays a node.
  pub setkey-IsNode :
      (node : Words) (n fill : ℕ) (key : Words)
      → IsNode geo node fill
      → IsWords key geo.keylen
      → n < fill
      → IsNode geo (setkey geo node n key) fill
  unfolding pair
  setkey-IsNode node n fill key is wk p =
      let room : n < geo.no_pairs = omega (arith, is.within) in
      record {
        words = setkey-IsWords node n key is.words wk;
        within = is.within;
        used = λ i h. ground (arith, bval-setkey geo g node n key i room, is.used i);
        unused = λ i h q. ground (
          arith,
          bval-setkey geo g node n key i room,
          key_num-setkey geo node n key i,
          is.unused i,
        );
      }
