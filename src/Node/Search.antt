-- ===== src/Node/Search.antt =====
-- The linear searches of cbtree_base.c over the slots of one node: `getpos`, `getfill` and the scan of
-- a leaf for a key.
use btree_profiling.Common.{
  ℕ, zero, suc, ◌+◌, ◌-◌, ◌*◌, ◌≤◌, ◌<◌, ◌≡◌, ◌≢◌, refl, ap, ◌∙◌, true, false, ◌++◌, arith, ltb,
  ◌==◌, compare, length, tabulate, tabulate-append, length-tabulate,
}
use btree_profiling.Memory.{Words}
use btree_profiling.Entries.{
  place, find_key, fill_of, has_key, empties, place-empties, place-le-length, ne_of_has_key,
  find_key-zero, find_key-empties, find_key-has_key,
}
use btree_profiling.Words.Order.{value, IsWords, longcmp-value}
use btree_profiling.Node.{
  Geo, bkey, bval, keycmp, key_le, key_eq, getpos, getpos_loop, getfill, getfill_loop, findkey,
  findkey_loop,
}
use btree_profiling.Node.Slots.{IsGeo, key_num, pair, entries, slot_le}

module _ (geo : Geo) (g : IsGeo geo) (node : Words) where
  keycmp-value :
      (key : Words) (i : ℕ)
      → IsWords node geo.no_longs
      → IsWords key geo.keylen
      → i < geo.no_pairs
      → keycmp geo node i key ≡ compare (key_num geo node i) (value key geo.keylen)
  unfolding keycmp key_num
  keycmp-value key i w wk p =
      longcmp-value (bkey geo node i) key geo.keylen
        (λ j q.
          w (i * geo.keylen + j) (omega (arith, g.longs, slot_le i geo.no_pairs geo.keylen p)))
        wk

  -- A window of the slots, as the loops see it.
  abbrev Window : (ℕ → ℕ × ℕ) → ℕ → ℕ → Type 0
  Window f i n = (i + n ≤ geo.no_pairs) × ((j : ℕ) → f j ≡ pair geo node (i + j))

  Window-suc : (f : ℕ → ℕ × ℕ) (i n : ℕ) → Window f i (suc n) → Window (λ j. f (suc j)) (suc i) n
  Window-suc f i n w = (omega arith, λ j. w.1 (suc j) ∙ ap (pair geo node) (omega arith))

  Window-head : (f : ℕ → ℕ × ℕ) (i n : ℕ) → Window f i n → f 0 ≡ pair geo node i
  Window-head f i n w = w.1 0 ∙ ap (pair geo node) (omega arith)

  getpos_loop-place :
      (key : Words)
      → IsWords node geo.no_longs
      → IsWords key geo.keylen
      → (f : ℕ → ℕ × ℕ) (i n : ℕ) → Window f i n
      → getpos_loop geo node key i n ≡ i + place (value key geo.keylen) (tabulate f n)
  unfolding getpos_loop key_le pair
  getpos_loop-place key w wk f i zero h = omega arith
  getpos_loop-place key w wk f i (suc n) h = ground (
    arith,
    Window-head f i (suc n) h,
    keycmp-value key i w wk,
    getpos_loop-place key w wk (λ j. f (suc j)) (suc i) n (Window-suc f i n h),
  )

  findkey_loop-find_key :
      (key : Words)
      → IsWords node geo.no_longs
      → IsWords key geo.keylen
      → (f : ℕ → ℕ × ℕ) (i n : ℕ) → Window f i n
      → findkey_loop geo node key i n ≡ i + find_key (value key geo.keylen) (tabulate f n)
  unfolding findkey_loop key_eq pair
  findkey_loop-find_key key w wk f i zero h = omega arith
  findkey_loop-find_key key w wk f i (suc n) h = ground (
    arith,
    Window-head f i (suc n) h,
    keycmp-value key i w wk,
    findkey_loop-find_key key w wk (λ j. f (suc j)) (suc i) n (Window-suc f i n h),
  )

  getfill_loop-fill_of :
      (f : ℕ → ℕ × ℕ) (i n : ℕ)
      → Window f i n
      → getfill_loop geo node i n ≡ i + fill_of (tabulate f n)
  unfolding getfill_loop pair
  getfill_loop-fill_of f i zero h = omega arith
  getfill_loop-fill_of f i (suc n) h = ground (
    arith,
    Window-head f i (suc n) h,
    getfill_loop-fill_of (λ j. f (suc j)) (suc i) n (Window-suc f i n h),
  )

  whole : Window (pair geo node) 0 geo.no_pairs
  whole = (omega arith, λ j. ap (pair geo node) (omega arith))

  -- `getpos` is the place of the key among all slots of the node.
  getpos-place_slots :
      (key : Words)
      → IsWords node geo.no_longs
      → IsWords key geo.keylen
      → getpos geo node key ≡ place (value key geo.keylen) (entries geo node geo.no_pairs)
  unfolding getpos
  getpos-place_slots key w wk =
      omega (arith, getpos_loop-place key w wk (pair geo node) 0 geo.no_pairs whole)

  findkey-find_key_slots :
      (key : Words)
      → IsWords node geo.no_longs
      → IsWords key geo.keylen
      → findkey geo node key ≡ find_key (value key geo.keylen) (entries geo node geo.no_pairs)
  unfolding findkey
  findkey-find_key_slots key w wk =
      omega (arith, findkey_loop-find_key key w wk (pair geo node) 0 geo.no_pairs whole)

-- A node whose first `fill` slots are used, and whose others are empty.
pub record IsNode (geo : Geo) (node : Words) (fill : ℕ) : Type 0 where
  pub words : IsWords node geo.no_longs
  pub within : fill ≤ geo.no_pairs
  pub used : (i : ℕ) → i < fill → bval geo node i ≢ 0
  pub unused : (i : ℕ) → fill ≤ i → i < geo.no_pairs → pair geo node i ≡ (0, 0)

module _ (geo : Geo) (g : IsGeo geo) (node : Words) (fill : ℕ) (is : IsNode geo node fill) where
  slots-entries :
      entries geo node geo.no_pairs ≡ entries geo node fill ++ empties (geo.no_pairs - fill)
  slots-entries =
      tabulate-append (pair geo node) (pair geo node) (λ _. (0, 0)) fill (geo.no_pairs - fill)
        geo.no_pairs (omega (arith, is.within)) (λ i p. refl)
        (λ i p. is.unused (fill + i) (omega arith) (omega (arith, is.within)))

  -- `getpos` in a node is the place of the key among the node's pairs: the number of pairs in
  -- front of the first whose key is not above it. The geometry's keys fill their words, and the
  -- key is an array of machine words.
  pub getpos-place :
      (key : Words)
      → IsWords key geo.keylen
      → getpos geo node key ≡ place (value key geo.keylen) (entries geo node fill)
  getpos-place key wk =
      getpos-place_slots geo g node key is.words wk
      ∙ ap (place (value key geo.keylen)) slots-entries
      ∙ place-empties (value key geo.keylen) (entries geo node fill) (geo.no_pairs - fill)

  getfill_loop-fill : (i n : ℕ) → i + n ≡ geo.no_pairs → i ≤ fill → getfill_loop geo node i n ≡ fill
  unfolding getfill_loop pair
  getfill_loop-fill i zero e h = omega (arith, is.within)
  getfill_loop-fill i (suc n) e h =
      ground (arith, is.used i, is.unused i, getfill_loop-fill (suc i) n (omega arith))

  -- From any used slot of a node on, and from the first free one, `getfill` finds the number of
  -- used slots.
  pub getfill-fill : (start : ℕ) → start ≤ fill → getfill geo node start ≡ fill
  unfolding getfill
  getfill-fill start h = getfill_loop-fill start (geo.no_pairs - start) (omega (arith, is.within)) h

  -- The scan of a leaf for a key other than 0 stops at a slot if the key is among the pairs.
  pub findkey-has_key :
      (key : Words)
      → IsWords key geo.keylen
      → value key geo.keylen ≢ 0
      → ltb (findkey geo node key) geo.no_pairs
        ≡ has_key (value key geo.keylen) (entries geo node fill)
  findkey-has_key key wk ne =
      let k = value key geo.keylen in
      let es = entries geo node fill in
      let empty = geo.no_pairs - fill in
      ap (ltb (findkey geo node key))
        (omega (arith, is.within, length-tabulate (pair geo node) fill))
      ∙ ap (λ i. ltb i (length es + empty))
          (findkey-find_key_slots geo g node key is.words wk ∙ ap (find_key k) slots-entries)
      ∙ find_key-empties k es empty ne

  -- A key that is among the pairs is found at its first slot.
  pub findkey-find_key :
      (key : Words)
      → IsWords key geo.keylen
      → has_key (value key geo.keylen) (entries geo node fill) ≡ true
      → (findkey geo node key ≡ find_key (value key geo.keylen) (entries geo node fill))
        × (findkey geo node key < fill)
  findkey-find_key key wk there =
      let k = value key geo.keylen in
      let (first, low) =
        find_key-has_key k (entries geo node fill) (empties (geo.no_pairs - fill)) there in
      let e =
        findkey-find_key_slots geo g node key is.words wk ∙ ap (find_key k) slots-entries ∙ first in
      (e, omega (arith, e, low, length-tabulate (pair geo node) fill))

module _ (geo : Geo) (g : IsGeo geo) (node : Words) where
  getpos_loop_above :
      (key : Words)
      → IsWords node geo.no_longs
      → IsWords key geo.keylen
      → (i n j : ℕ) → i + n ≤ geo.no_pairs
      → i ≤ j
      → j < getpos_loop geo node key i n
      → value key geo.keylen < key_num geo node j
  unfolding getpos_loop key_le
  getpos_loop_above key w wk i zero j r p q = absurd (omega arith)
  getpos_loop_above key w wk i (suc n) j r p q = ground (
    arith,
    keycmp-value geo g node key i w wk,
    getpos_loop_above key w wk (suc i) n j (omega arith),
    ap (key_num geo node) {x = i} {y = j},
  )

  getpos_loop_here :
      (key : Words)
      → IsWords node geo.no_longs
      → IsWords key geo.keylen
      → (i n : ℕ) → i + n ≡ geo.no_pairs
      → getpos_loop geo node key i n < geo.no_pairs
      → key_num geo node (getpos_loop geo node key i n) ≤ value key geo.keylen
  unfolding getpos_loop key_le
  getpos_loop_here key w wk i zero e p = absurd (omega arith)
  getpos_loop_here key w wk i (suc n) e p =
      ground (
        arith,
        keycmp-value geo g node key i w wk,
        getpos_loop_here key w wk (suc i) n (omega arith),
      )

  -- The keys before the place of a key are above it.
  pub getpos_above :
      (key : Words) (j : ℕ)
      → IsWords node geo.no_longs
      → IsWords key geo.keylen
      → j < getpos geo node key
      → value key geo.keylen < key_num geo node j
  unfolding getpos
  getpos_above key j w wk p =
      getpos_loop_above key w wk 0 geo.no_pairs j (omega arith) (omega arith) p

  -- The key at its place is not above it.
  pub getpos_here :
      (key : Words)
      → IsWords node geo.no_longs
      → IsWords key geo.keylen
      → getpos geo node key < geo.no_pairs
      → key_num geo node (getpos geo node key) ≤ value key geo.keylen
  unfolding getpos
  getpos_here key w wk p = getpos_loop_here key w wk 0 geo.no_pairs (omega arith) p

module _ (geo : Geo) (g : IsGeo geo) (node : Words) (fill : ℕ) (is : IsNode geo node fill) where
  pub getpos-le-fill : (key : Words) → IsWords key geo.keylen → getpos geo node key ≤ fill
  getpos-le-fill key wk = omega (
    arith,
    getpos-place geo g node fill is key wk,
    place-le-length (value key geo.keylen) (entries geo node fill),
    length-tabulate (pair geo node) fill,
  )

  -- The slots behind the used ones hold `NULL`.
  pub bval_unused : (i : ℕ) → fill ≤ i → i < geo.no_pairs → bval geo node i ≡ 0
  unfolding pair
  bval_unused i p q = ground (arith, is.unused i)

  -- A key that is not among the pairs is not at its place.
  pub key_eq_absent :
      (key : Words)
      → IsWords key geo.keylen
      → has_key (value key geo.keylen) (entries geo node fill) ≡ false
      → getpos geo node key < fill
      → key_eq geo node (getpos geo node key) key ≡ false
  unfolding key_eq pair
  key_eq_absent key wk none_there p =
      let i = getpos geo node key in
      ground (
        arith,
        keycmp-value geo g node key i is.words wk (omega (arith, is.within)),
        ne_of_has_key (value key geo.keylen) (pair geo node) fill i none_there p,
      )

  -- The scan of a leaf with an empty slot finds the key 0.
  pub findkey-zero :
      (key : Words)
      → IsWords key geo.keylen
      → value key geo.keylen ≡ 0
      → fill < geo.no_pairs
      → findkey geo node key < geo.no_pairs
  findkey-zero key wk e room =
      let es = entries geo node fill in
      let empty = geo.no_pairs - fill - 1 in
      let split : geo.no_pairs - fill ≡ suc empty = omega arith in
      let found =
        findkey-find_key_slots geo g node key is.words wk
        ∙ ap (find_key (value key geo.keylen)) (slots-entries geo g node fill is)
        ∙ ap (λ n. find_key (value key geo.keylen) (es ++ empties n)) split
        ∙ ap (λ k. find_key k (es ++ empties (suc empty))) e in
      omega (arith, found, find_key-zero es empty, length-tabulate (pair geo node) fill)

  -- A key that is among falling pairs is at its place.
  pub key_eq_present :
      (key : Words)
      → IsWords key geo.keylen
      → getpos geo node key < fill
      → key_num geo node (getpos geo node key) ≡ value key geo.keylen
      → key_eq geo node (getpos geo node key) key ≡ true
  unfolding key_eq
  key_eq_present key wk p e = ground (
    arith,
    keycmp-value geo g node key (getpos geo node key) is.words wk (omega (arith, is.within)),
  )

  -- An empty slot compares as the key 0.
  pub key_eq_empty :
      (key : Words) (i : ℕ)
      → IsWords key geo.keylen
      → fill ≤ i
      → i < geo.no_pairs
      → key_eq geo node i key ≡ (value key geo.keylen == 0)
  unfolding key_eq pair
  key_eq_empty key i wk p q =
      ground (arith, keycmp-value geo g node key i is.words wk q, is.unused i p q)
