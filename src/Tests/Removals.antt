-- ===== src/Tests/Removals.antt =====
-- A removal from a tree of two levels, in nodes of two slots.
use btree_profiling.Common.{
  ℕ, suc, ◌<◌, ◌≤◌, ◌≡◌, ◌≢◌, refl, true, some, Option, List, [], ◌∷◌, map, arith, ◌==◌,
  if◌then◌else◌, ◌&&◌, leb,
}
use btree_profiling.Memory.{Addr, Words, State, ok, ptr, get_head}
use btree_profiling.Words.{word_mod}
use btree_profiling.Words.Order.{value}
use btree_profiling.Entries.{lookup, erase, before}
use btree_profiling.Node.{Geo, bval, getpos, getfill, key_le, keycmp}
use btree_profiling.Words.{longcmp}
use btree_profiling.Node.Slots.{IsGeo, key_num, pair}
use btree_profiling.Node.Search.{IsNode}
use btree_profiling.Tree.{find_level}
use btree_profiling.Tree.Shape.{Holds, IsCbtree, leaf, inner, nil, cons}
use btree_profiling.Tree.Insert.Room.{SameOutside}
use btree_profiling.Tree.Insert.Walk.{HoldsKey, key_at}
use btree_profiling.Tree.Remove.{cbtree_remove}
use btree_profiling.Tree.Remove.Room.{cbtree_remove-room}
use btree_profiling.Tree.Prev.{cbtree_get_prev}
use btree_profiling.Tree.Prev.Leaf.{as_entry}
use btree_profiling.Tree.Prev.Frame.{IsKeyed}
use btree_profiling.Tree.Remove.Prev.{cbtree_get_prev-cbtree_remove}
use btree_profiling.Tree.Visit.{Visit, cbtree_visitor}
use btree_profiling.Tree.Visit.Order.{view, number}
use btree_profiling.Tree.Visit.Remove.{cbtree_visitor-cbtree_remove}
use btree_profiling.Tests.{row, row-IsWords, below_two}

abbrev geo2 : Geo
geo2 = record { keylen = 1; no_pairs = 2; no_longs = 2 }

geo2-IsGeo : IsGeo geo2
geo2-IsGeo = omega arith

full-IsNode :
    (k0 k1 v0 v1 : ℕ)
    → k0 < word_mod
    → k1 < word_mod
    → v0 ≢ 0
    → v1 ≢ 0
    → IsNode geo2 (row (k0 ∷ k1 ∷ v0 ∷ v1 ∷ [])) 2
unfolding bval
full-IsNode k0 k1 v0 v1 h0 h1 n0 n1 = record {
  words = below_two (λ i. row (k0 ∷ k1 ∷ v0 ∷ v1 ∷ []) i < word_mod) h0 h1;
  within = omega arith;
  used = below_two (λ i. bval geo2 (row (k0 ∷ k1 ∷ v0 ∷ v1 ∷ [])) i ≢ 0) n0 n1;
  unused = λ i p q. absurd (omega arith);
}

-- The root 10 over the full leaves 11 and 12; block 1 is the caller's key, 20.
abbrev memory : State
memory = record {
  size = λ a. if a == 1 then 1 else if leb 10 a && leb a 12 then 16 else 0;
  word = λ a. row (
      if a == 10
      then 20 ∷ 5 ∷ 11 ∷ 12 ∷ []
      else if a == 11
      then 30 ∷ 20 ∷ 130 ∷ 120 ∷ []
      else if a == 12
      then 10 ∷ 5 ∷ 110 ∷ 105 ∷ []
      else 20 ∷ []);
  head = record { node = 10; mempool = 2; height = 2 };
}

memory-Holds : (a : Addr) → 10 ≤ a → a ≤ 12 → IsNode geo2 (memory.word a) 2 → Holds geo2 memory a 2
memory-Holds a low high is = record {
  ne_null = λ e. omega arith;
  live = ground arith;
  node = is;
  some_pair = omega arith;
}

abbrev four : List (ℕ × ℕ)
four = (30, 130) ∷ (20, 120) ∷ (10, 110) ∷ (5, 105) ∷ []

abbrev nodes : List Addr
nodes = 10 ∷ 11 ∷ 12 ∷ []

memory-IsCbtree : IsCbtree geo2 memory 1 four nodes
unfolding bval pair key_num value
memory-IsCbtree = record {
  height = refl;
  tree =
      inner
        (memory-Holds 10 (omega arith) (omega arith) (
          full-IsNode 20 5 11 12 (omega arith) (omega arith) (λ e. omega arith) (λ e. omega arith)))
        refl
        (cons
          (leaf (
            memory-Holds 11 (omega arith) (omega arith) (
              full-IsNode 30 20 130 120 (omega arith) (omega arith) (λ e. omega arith)
                (λ e. omega arith))))
          (cons
            (leaf (
              memory-Holds 12 (omega arith) (omega arith) (
                full-IsNode 10 5 110 105 (omega arith) (omega arith) (λ e. omega arith)
                  (λ e. omega arith))))
            nil (λ a h. refl) (omega arith) tt)
          (λ a h. ground arith) (omega arith) (omega arith));
}

key-HoldsKey : HoldsKey geo2 memory (ptr 1 0)
key-HoldsKey = record {
  ne_null = λ e. omega arith;
  live = omega arith;
  words = λ i p. ground (arith, row-IsWords (20 ∷ []) 1 (omega arith) i p);
}

cbtree_remove-room_example :
    (v : ℕ) × (s' : State) × (cbtree_remove 1 geo2 (ptr 1 0) memory ≡ ok v s')
    × (lookup (value (key_at memory (ptr 1 0)) 1) four ≡ some v)
    × IsCbtree geo2 s' 1 (erase (value (key_at memory (ptr 1 0)) 1) four) nodes
    × SameOutside nodes memory s'
unfolding value find_level get_head getpos key_le keycmp longcmp bval getfill
cbtree_remove-room_example =
    cbtree_remove-room geo2-IsGeo memory-IsCbtree key-HoldsKey (omega arith) refl (omega arith)
      (omega arith) 0

cbtree_visitor-cbtree_remove_example :
    (v n : ℕ) × (s' : State) × (before after : List Visit) × (cbtree_visitor 0 geo2 true memory
      ≡ ok (suc n, before) memory)
    × (cbtree_remove 1 geo2 (ptr 1 0) memory ≡ ok v s')
    × (cbtree_visitor 0 geo2 true s' ≡ ok (n, after) s')
    × (lookup (value (key_at memory (ptr 1 0)) 1) four ≡ some v)
    × (map (view geo2) before ≡ number 0 four)
    × (map (view geo2) after ≡ number 0 (erase (value (key_at memory (ptr 1 0)) 1) four))
unfolding value find_level get_head getpos key_le keycmp longcmp bval getfill
cbtree_visitor-cbtree_remove_example =
    cbtree_visitor-cbtree_remove geo2-IsGeo 0 0 memory-IsCbtree key-HoldsKey (omega arith) refl
      (omega arith) (omega arith)

root_keys :
    (i : ℕ)
    → i < 2
    → bval geo2 (memory.word 10) i ≢ 0
    → (1 ≤ key_num geo2 (memory.word 10) i) × Unit {0}
unfolding key_num value
root_keys i p =
    below_two
      (λ i. bval geo2 (memory.word 10) i ≢ 0 → (1 ≤ key_num geo2 (memory.word 10) i) × Unit {0})
      (λ u. (omega arith, tt)) (λ u. (omega arith, tt)) i p

memory-IsKeyed : IsKeyed geo2 memory 1 1 four nodes
memory-IsKeyed = record { shape = memory-IsCbtree; keys = root_keys }

cbtree_get_prev-cbtree_remove_example :
    (v : ℕ) × (s' : State) × (r : Option (ℕ × Words)) × (cbtree_remove 1 geo2 (ptr 1 0) memory
      ≡ ok v s')
    × (cbtree_get_prev 2 geo2 (ptr 1 0) s' ≡ ok r s')
    × (lookup (value (key_at memory (ptr 1 0)) 1) four ≡ some v)
    × (as_entry geo2 r ≡ before (value (key_at memory (ptr 1 0)) 1) four)
    × IsKeyed geo2 s' 1 1 (erase (value (key_at memory (ptr 1 0)) 1) four) nodes
unfolding value find_level get_head getpos key_le keycmp longcmp bval getfill
cbtree_get_prev-cbtree_remove_example =
    cbtree_get_prev-cbtree_remove geo2-IsGeo memory-IsKeyed key-HoldsKey refl (omega arith) refl
      (omega arith) (omega arith) 0 2 (omega arith)
