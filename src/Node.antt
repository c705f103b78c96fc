-- ===== src/Node.antt =====
-- A node of cbtree_base.c: `no_longs` longs of keys, then a value for each of the `no_pairs` keys,
-- then the words of its cache. The geometry gives the sizes.
pub mod Geometry
pub mod Slots
pub mod Search
pub mod Insert
pub mod Remove
pub mod Split
use btree_profiling.Common.{
  ℕ, zero, suc, ◌+◌, ◌-◌, ◌*◌, ◌/◌, ◌%◌, Ordering, Bool, true, false, ◌==◌, if◌then◌else◌,
}
use btree_profiling.Memory.{Words, update}
use btree_profiling.Words.{longcmp, longcpy, longset}

pub record Geo : Type 0 where
  pub keylen : ℕ
  pub no_pairs : ℕ
  pub no_longs : ℕ

-- One word for the cache queue, one for the count, one for the mark of a deleted node.
abbrev pub cache_lenth : ℕ
cache_lenth = 3

-- `NODESIZE` and `sizeof(long)` in bytes, `LONG_PER_U64` by the bits of a long.
unfoldable pub cbtree_geo32 : ℕ → ℕ → Geo
cbtree_geo32 nodesize sizeof_long = record {
  keylen = 1;
  no_pairs = (nodesize - cache_lenth) / sizeof_long / 2;
  no_longs = (nodesize - cache_lenth) / sizeof_long / 2;
}

abbrev pub long_per_u64 : ℕ → ℕ
long_per_u64 sizeof_long = 64 / (sizeof_long * 8)

unfoldable pub cbtree_geo64 : ℕ → ℕ → Geo
cbtree_geo64 nodesize sizeof_long =
    let l = long_per_u64 sizeof_long in
    record {
      keylen = l;
      no_pairs = (nodesize - cache_lenth) / sizeof_long / (1 + l);
      no_longs = l * ((nodesize - cache_lenth) / sizeof_long / (1 + l));
    }

unfoldable pub cbtree_geo128 : ℕ → ℕ → Geo
cbtree_geo128 nodesize sizeof_long =
    let l = long_per_u64 sizeof_long in
    record {
      keylen = 2 * l;
      no_pairs = (nodesize - cache_lenth) / sizeof_long / (1 + 2 * l);
      no_longs = 2 * l * ((nodesize - cache_lenth) / sizeof_long / (1 + 2 * l));
    }

-- `geo->keylen * geo->no_pairs + geo->no_longs`: the word that the source takes for the cache queue.
abbrev pub cache_start : Geo → ℕ
cache_start geo = geo.keylen * geo.no_pairs + geo.no_longs

module _ (geo : Geo) where
  -- `&node[n * keylen]`, an array of its own.
  unfoldable pub bkey : Words → ℕ → Words
  bkey node n i = node (n * geo.keylen + i)

  unfoldable pub bval : Words → ℕ → ℕ
  bval node n = node (geo.no_longs + n)

  unfoldable pub setkey : Words → ℕ → Words → Words
  setkey node n key = longcpy node (n * geo.keylen) key geo.keylen

  unfoldable pub setval : Words → ℕ → ℕ → Words
  unfolding update
  setval node n val = update node (geo.no_longs + n) val

  unfoldable pub clearpair : Words → ℕ → Words
  unfolding update
  clearpair node n = update (longset node (n * geo.keylen) 0 geo.keylen) (geo.no_longs + n) 0

  unfoldable pub keycmp : Words → ℕ → Words → Ordering
  unfolding bkey
  keycmp node pos key = longcmp (bkey node pos) key geo.keylen

  -- `keycmp(...) <= 0`
  unfoldable pub key_le : Words → ℕ → Words → Bool
  key_le node pos key = elim (keycmp node pos key) [ Ordering.gt ↦ false | _ ↦ true ]

  -- `keycmp(...) == 0`
  unfoldable pub key_eq : Words → ℕ → Words → Bool
  key_eq node pos key = elim (keycmp node pos key) [ Ordering.eq ↦ true | _ ↦ false ]

  pub getpos_loop : Words → Words → ℕ → ℕ → ℕ
  getpos_loop node key i zero = i
  getpos_loop node key i (suc n) = elim (key_le node i key) [
    | true ↦ i
    | false ↦ getpos_loop node key (suc i) n
  ]

  -- The first slot whose key is not above `key`, or `no_pairs`.
  unfoldable pub getpos : Words → Words → ℕ
  unfolding getpos_loop
  getpos node key = getpos_loop node key 0 geo.no_pairs

  pub getfill_loop : Words → ℕ → ℕ → ℕ
  getfill_loop node i zero = i
  getfill_loop node i (suc n) = elim (bval node i == 0) [
    | true ↦ i
    | false ↦ getfill_loop node (suc i) n
  ]

  -- The first slot from `start` on that holds `NULL`, or `no_pairs`.
  unfoldable pub getfill : Words → ℕ → ℕ
  unfolding getfill_loop bval
  getfill node start = getfill_loop node start (geo.no_pairs - start)

  -- `for (i = 0; i < no_pairs; i++) if (keycmp(...) == 0)`: the slot that holds the key.
  pub findkey_loop : Words → Words → ℕ → ℕ → ℕ
  findkey_loop node key i zero = i
  findkey_loop node key i (suc n) = elim (key_eq node i key) [
    | true ↦ i
    | false ↦ findkey_loop node key (suc i) n
  ]

  unfoldable pub findkey : Words → Words → ℕ
  unfolding findkey_loop
  findkey node key = findkey_loop node key 0 geo.no_pairs

  -- One pair copied from slot `j` of `source` to slot `i` of `node`.
  unfoldable pub copypair : Words → ℕ → Words → ℕ → Words
  unfolding bkey bval setkey setval
  copypair node i source j = setval (setkey node i (bkey source j)) i (bval source j)

  -- The same within one node: the value is read after the key was written.
  unfoldable pub movepair : Words → ℕ → ℕ → Words
  unfolding bkey bval setkey setval
  movepair node i j = let keyed = setkey node i (bkey node j) in setval keyed i (bval keyed j)

  -- `for (i = fill; i > pos; i--)` with `n` rounds left: slot `pos + n` is next.
  unfoldable pub shift_up : Words → ℕ → ℕ → Words
  unfolding movepair
  shift_up node pos zero = node
  shift_up node pos (suc n) = shift_up (movepair node (pos + suc n) (pos + n)) pos n

  -- `for (i = pos; i < fill - 1; i++)`
  unfoldable pub shift_down : Words → ℕ → ℕ → Words
  unfolding movepair
  shift_down node i zero = node
  shift_down node i (suc n) = shift_down (movepair node i (suc i)) (suc i) n

  -- shift and insert
  unfoldable pub insert_pair : Words → ℕ → ℕ → Words → ℕ → Words
  unfolding shift_up setkey setval
  insert_pair node pos fill key val =
      setval (setkey (shift_up node pos (fill - pos)) pos key) pos val

  -- remove and shift
  unfoldable pub remove_pair : Words → ℕ → ℕ → Words
  unfolding shift_down clearpair
  remove_pair node pos fill = clearpair (shift_down node pos (fill - 1 - pos)) (fill - 1)

  -- `for (i = 0; i < fill / 2; i++)` of a split, over the new node and the old one.
  unfoldable pub split_loop : Words → Words → ℕ → ℕ → ℕ → Words × Words
  unfolding copypair movepair clearpair
  split_loop new node half i zero = (new, node)
  split_loop new node half i (suc n) =
      split_loop (copypair new i node i) (clearpair (movepair node i (i + half)) (i + half)) half
        (suc i) n

  -- `if (fill & 1)`
  unfoldable pub split_odd : ℕ → Words × Words → Words × Words
  unfolding movepair clearpair
  split_odd fill (new, node) =
      if fill % 2 == 1
      then (new, clearpair (movepair node (fill / 2) (fill - 1)) (fill - 1))
      else (new, node)

  unfoldable pub split : Words → Words → ℕ → Words × Words
  unfolding split_loop split_odd
  split new node fill = split_odd fill (split_loop new node (fill / 2) 0 (fill / 2))

  -- `for (i = 0; i < rfill; i++)`: move all keys to the left
  unfoldable pub append_pairs : Words → ℕ → Words → ℕ → ℕ → Words
  unfolding copypair
  append_pairs left lfill right i zero = left
  append_pairs left lfill right i (suc n) =
      append_pairs (copypair left (lfill + i) right i) lfill right (suc i) n
