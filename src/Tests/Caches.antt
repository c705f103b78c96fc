-- ===== src/Tests/Caches.antt =====
-- The properties of the cache at concrete inputs.
use btree_profiling.Common.{ℕ, ◌≡◌, refl, List, [], ◌∷◌, arith, ◌==◌, if◌then◌else◌, ◌&&◌, leb}
use btree_profiling.Memory.{Addr, null, State, ok, fault, ptr}
use btree_profiling.Cache.{free_queue, setcache}
use btree_profiling.Cache.Lookup.{Queue, Entry}
use btree_profiling.Cache.Free.{free_queue-null}
use btree_profiling.Cache.Fill.{Fillable, setcache-fill}
use btree_profiling.Tests.{row}

-- A node at 10 with its queue, 20, at word 8, the ring 21 to 24 with the keys 31 to 34, and the leaf 11
-- as the node of the first entry, for the key 7. Block 1 is the caller's key, of one word.
abbrev words : Addr → Addr → ℕ → List ℕ
words node a k =
    if a == 10
    then 9 ∷ 9 ∷ 9 ∷ 9 ∷ 9 ∷ 9 ∷ 9 ∷ 9 ∷ 20 ∷ []
    else if a == 20
    then 21 ∷ []
    else if a == 21
    then node ∷ 31 ∷ 22 ∷ []
    else if a == 22
    then null ∷ 32 ∷ 23 ∷ []
    else if a == 23
    then null ∷ 33 ∷ 24 ∷ []
    else if a == 24
    then null ∷ 34 ∷ 21 ∷ []
    else if a == 31
    then 7 ∷ []
    else if a == 1
    then k ∷ []
    else []

abbrev memory : Addr → ℕ → State
memory node k = record {
  size = λ a.
      if a == 1
      then 1
      else if leb 10 a && leb a 11
      then 16
      else if a == 20
      then 1
      else if leb 21 a && leb a 24
      then 3
      else if leb 31 a && leb a 34
      then 2
      else 0;
  word = λ a. row (words node a k);
  head = record { node = 10; mempool = 2; height = 2 };
}

ring : (node : Addr) (k : ℕ) → Queue (memory node k) (ptr 10 8) 20 21
ring node k = record {
  at_node = λ e. omega arith;
  in_node = omega arith;
  points = refl;
  ne_null = λ e. omega arith;
  live = omega arith;
  head = refl;
}

first : (node : Addr) (k : ℕ) → Entry (memory node k) 21 node 31 22
first node k = record {
  ne_null = λ e. omega arith;
  live = omega arith;
  node_is = refl;
  key_is = refl;
  next_is = refl;
  key_ne_null = λ e. omega arith;
  key_live = refl;
}

second : (node : Addr) (k : ℕ) → Entry (memory node k) 22 null 32 23
second node k = record {
  ne_null = λ e. omega arith;
  live = omega arith;
  node_is = refl;
  key_is = refl;
  next_is = refl;
  key_ne_null = λ e. omega arith;
  key_live = refl;
}

third : (node : Addr) (k : ℕ) → Entry (memory node k) 23 null 33 24
third node k = record {
  ne_null = λ e. omega arith;
  live = omega arith;
  node_is = refl;
  key_is = refl;
  next_is = refl;
  key_ne_null = λ e. omega arith;
  key_live = refl;
}

fourth : (node : Addr) (k : ℕ) → Entry (memory node k) 24 null 34 21
fourth node k = record {
  ne_null = λ e. omega arith;
  live = omega arith;
  node_is = refl;
  key_is = refl;
  next_is = refl;
  key_ne_null = λ e. omega arith;
  key_live = refl;
}

free_queue-null_example : free_queue 2 8 (ptr 10 8) (memory null 7) ≡ fault
free_queue-null_example = free_queue-null 0 8 (ring null 7) (first null 7) (second null 7)

-- The leaf 11 for the empty entry at the head.
leaf-Fillable : Fillable (memory null 7) 8 11 10 20 21 31 (ptr 1 0)
leaf-Fillable = record {
  leaf_ne_null = λ e. omega arith;
  counter = omega arith;
  key_ne_null = λ e. omega arith;
  key_live = omega arith;
  call_leaf = λ e. omega arith;
  call_q = λ e. omega arith;
  call_curr = λ e. omega arith;
  call_ckey = λ e. omega arith;
  leaf_q = λ e. omega arith;
  leaf_curr = λ e. omega arith;
  leaf_ckey = λ e. omega arith;
  leaf_key = λ e. omega arith;
  q_curr = λ e. omega arith;
  q_ckey = λ e. omega arith;
  curr_ckey = λ e. omega arith;
  curr_key = λ e. omega arith;
}

setcache-fill_example :
    (s' : State) × (setcache 0 11 10 (ptr 1 0) 8 1 (memory null 7) ≡ ok tt s')
    × Queue s' (ptr 10 8) 20 22
    × Entry s' 21 11 31 22
    × (s'.word 31 0 ≡ 7)
    × (s'.word 11 9 ≡ 1)
setcache-fill_example = setcache-fill 0 8 (ptr 1 0) (ring null 7) (first null 7) leaf-Fillable
