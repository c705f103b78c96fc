-- ===== src/Node/Slots.antt =====
-- The pairs of a node of cbtree_base.c: a key read as a number, and its value. Each write to a slot
-- changes that pair alone.
use btree_profiling.Common.{
  ==-refl, ◌∙◌, ℕ, zero, suc, ◌+◌, ◌*◌, ◌<◌, ◌≤◌, ◌⊎◌, List, tabulate, inl, inr, false, ◌≡◌, refl,
  arith, ◌==◌, if◌then◌else◌,
}
use btree_profiling.Memory.{Words, update}
use btree_profiling.Words.{longset}
use btree_profiling.Words.Copy.{longcpy_lem, longset_lem}
use btree_profiling.Words.Order.{value}
use btree_profiling.Node.{Geo, bkey, bval, setkey, setval, clearpair, copypair, movepair}

-- The keys fill the first `no_longs` words.
pub record IsGeo (geo : Geo) : Type 0 where
  pub some_key : 0 < geo.keylen
  pub longs : geo.no_longs ≡ geo.no_pairs * geo.keylen

pub value_congr :
    (l1 l2 : Words) (n : ℕ) → ((i : ℕ) → i < n → l1 i ≡ l2 i) → value l1 n ≡ value l2 n
unfolding value
value_congr l1 l2 zero h = refl
value_congr l1 l2 (suc n) h =
    ground (arith, h n (omega arith), value_congr l1 l2 n (λ i p. h i (omega arith)))

pub value-zero : (l : Words) (n : ℕ) → ((i : ℕ) → i < n → l i ≡ 0) → value l n ≡ 0
unfolding value
value-zero l zero h = refl
value-zero l (suc n) h =
    ground (arith, h n (omega arith), value-zero l n (λ i p. h i (omega arith)))

-- Slots of `k` words do not overlap.
pub slot_le : (m n k : ℕ) → m < n → m * k + k ≤ n * k
slot_le m n k p = grind arith

-- A test for equality, decided.
pub ==-cases : (m n : ℕ) → (m ≡ n) ⊎ ((m == n) ≡ false)
==-cases m n = ground arith

module _ (geo : Geo) where
  -- The key in a slot, as a number.
  unfoldable pub key_num : Words → ℕ → ℕ
  unfolding bkey
  key_num node i = value (bkey geo node i) geo.keylen

  pub key_num-setkey :
      (node : Words) (n : ℕ) (key : Words) (m : ℕ)
      → key_num (setkey geo node n key) m
        ≡ (if m == n then value key geo.keylen else key_num node m)
  unfolding key_num setkey bkey
  key_num-setkey node n key m = elim (==-cases m n) [
    | inl e ↦
        rw (e, ==-refl n)
          (value_congr _ _ geo.keylen λ i p.
            ground (arith, longcpy_lem node (n * geo.keylen) key geo.keylen (n * geo.keylen + i)))
    | inr e ↦ rw e (
        value_congr _ _ geo.keylen λ i p. ground (
          arith,
          longcpy_lem node (n * geo.keylen) key geo.keylen (m * geo.keylen + i),
          slot_le m n geo.keylen,
          slot_le n m geo.keylen,
        ))
  ]

  pub bval-setkey :
      IsGeo geo
      → (node : Words) (n : ℕ) (key : Words) (m : ℕ) → n < geo.no_pairs
      → bval geo (setkey geo node n key) m ≡ bval geo node m
  unfolding bval setkey
  bval-setkey g node n key m h = ground (
    arith,
    longcpy_lem node (n * geo.keylen) key geo.keylen (geo.no_longs + m),
    slot_le n geo.no_pairs geo.keylen h,
  )

  pub key_num-setval :
      IsGeo geo
      → (node : Words) (n v m : ℕ) → m < geo.no_pairs
      → key_num (setval geo node n v) m ≡ key_num node m
  unfolding key_num setval bkey update
  key_num-setval g node n v m h =
      value_congr _ _ geo.keylen λ i p. ground (arith, slot_le m geo.no_pairs geo.keylen h)

  pub bval-setval :
      (node : Words) (n v m : ℕ)
      → bval geo (setval geo node n v) m ≡ (if m == n then v else bval geo node m)
  unfolding bval setval update
  bval-setval node n v m = ground arith

  key_num-longset :
      (node : Words) (n m : ℕ)
      → value (bkey geo (longset node (n * geo.keylen) 0 geo.keylen) m) geo.keylen
        ≡ (if m == n then 0 else key_num node m)
  unfolding key_num bkey
  key_num-longset node n m = elim (==-cases m n) [
    | inl e ↦
        rw (e, ==-refl n)
          (value-zero _ geo.keylen λ i p.
            ground (arith, longset_lem node (n * geo.keylen) 0 geo.keylen (n * geo.keylen + i)))
    | inr e ↦ rw e (
        value_congr _ _ geo.keylen λ i p. ground (
          arith,
          longset_lem node (n * geo.keylen) 0 geo.keylen (m * geo.keylen + i),
          slot_le m n geo.keylen,
          slot_le n m geo.keylen,
        ))
  ]

  module _ (g : IsGeo geo) where
    pub key_num-clearpair :
        (node : Words) (n m : ℕ)
        → m < geo.no_pairs
        → key_num (clearpair geo node n) m ≡ (if m == n then 0 else key_num node m)
    unfolding clearpair setval key_num
    key_num-clearpair node n m h =
        key_num-setval g (longset node (n * geo.keylen) 0 geo.keylen) n 0 m h
        ∙ key_num-longset node n m

    pub bval-clearpair :
        (node : Words) (n m : ℕ)
        → n < geo.no_pairs
        → bval geo (clearpair geo node n) m ≡ (if m == n then 0 else bval geo node m)
    unfolding bval clearpair update
    bval-clearpair node n m h = ground (
      arith,
      longset_lem node (n * geo.keylen) 0 geo.keylen (geo.no_longs + m),
      slot_le n geo.no_pairs geo.keylen h,
      g.longs,
    )

    pub key_num-copypair :
        (node : Words) (i : ℕ) (source : Words) (j m : ℕ)
        → m < geo.no_pairs
        → key_num (copypair geo node i source j) m
          ≡ (if m == i then key_num source j else key_num node m)
    unfolding copypair key_num
    key_num-copypair node i source j m h =
        key_num-setval g (setkey geo node i (bkey geo source j)) i (bval geo source j) m h
        ∙ key_num-setkey node i (bkey geo source j) m

    pub bval-copypair :
        (node : Words) (i : ℕ) (source : Words) (j m : ℕ)
        → i < geo.no_pairs
        → bval geo (copypair geo node i source j) m
          ≡ (if m == i then bval geo source j else bval geo node m)
    unfolding copypair
    bval-copypair node i source j m h = ground (
      arith,
      bval-setval (setkey geo node i (bkey geo source j)) i (bval geo source j) m,
      bval-setkey g node i (bkey geo source j) m h,
    )

    pub key_num-movepair :
        (node : Words) (i j m : ℕ)
        → m < geo.no_pairs
        → key_num (movepair geo node i j) m ≡ (if m == i then key_num node j else key_num node m)
    unfolding movepair key_num
    key_num-movepair node i j m h =
        key_num-setval g (setkey geo node i (bkey geo node j)) i _ m h
        ∙ key_num-setkey node i (bkey geo node j) m

    pub bval-movepair :
        (node : Words) (i j m : ℕ)
        → i < geo.no_pairs
        → bval geo (movepair geo node i j) m ≡ (if m == i then bval geo node j else bval geo node m)
    unfolding movepair
    bval-movepair node i j m h =
        let keyed = setkey geo node i (bkey geo node j) in
        ground (
          arith,
          bval-setval keyed i (bval geo keyed j) m,
          bval-setkey g node i (bkey geo node j) m h,
          bval-setkey g node i (bkey geo node j) j h,
        )

  -- Key and value of a slot.
  unfoldable pub pair : Words → ℕ → ℕ × ℕ
  pair node i = (key_num node i, bval geo node i)

  -- The pairs of the first `n` slots.
  abbrev pub entries : Words → ℕ → List (ℕ × ℕ)
  entries node n = tabulate (pair node) n

  module _ (g : IsGeo geo) where
    pub pair-copypair :
        (node : Words) (i : ℕ) (source : Words) (j m : ℕ)
        → i < geo.no_pairs
        → m < geo.no_pairs
        → pair (copypair geo node i source j) m ≡ (if m == i then pair source j else pair node m)
    unfolding pair
    pair-copypair node i source j m p q =
        ground (arith, key_num-copypair g node i source j m q, bval-copypair g node i source j m p)

    pub pair-movepair :
        (node : Words) (i j m : ℕ)
        → i < geo.no_pairs
        → m < geo.no_pairs
        → pair (movepair geo node i j) m ≡ (if m == i then pair node j else pair node m)
    unfolding pair
    pair-movepair node i j m p q =
        ground (arith, key_num-movepair g node i j m q, bval-movepair g node i j m p)

    pub pair-clearpair :
        (node : Words) (n m : ℕ)
        → n < geo.no_pairs
        → m < geo.no_pairs
        → pair (clearpair geo node n) m ≡ (if m == n then (0, 0) else pair node m)
    unfolding pair
    pair-clearpair node n m p q =
        ground (arith, key_num-clearpair g node n m q, bval-clearpair g node n m p)

    pub pair-set :
        (node : Words) (n : ℕ) (key : Words) (val m : ℕ)
        → n < geo.no_pairs
        → m < geo.no_pairs
        → pair (setval geo (setkey geo node n key) n val) m
          ≡ (if m == n then (value key geo.keylen, val) else pair node m)
    unfolding pair
    pair-set node n key val m p q = ground (
      arith,
      key_num-setval g (setkey geo node n key) n val m q,
      key_num-setkey node n key m,
      bval-setval (setkey geo node n key) n val m,
      bval-setkey g node n key m p,
    )
