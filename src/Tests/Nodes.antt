-- ===== src/Tests/Nodes.antt =====
-- The properties of single nodes at concrete inputs.
use btree_profiling.Common.{
  ℕ, ◌+◌, ◌<◌, ◌≢◌, ◌-◌, ◌*◌, ◌/◌, ◌≡◌, ◌≤◌, ◌++◌, refl, [], ◌∷◌, arith, remove_at,
}
use btree_profiling.Memory.{Words}
use btree_profiling.Words.Order.{value}
use btree_profiling.Entries.{place}
use btree_profiling.Cache.{deleted_at}
use btree_profiling.Node.{
  cache_start, cbtree_geo32, cbtree_geo64, cbtree_geo128, getpos, remove_pair, split, bval,
}
use btree_profiling.Node.Slots.{IsGeo, pair, key_num, entries}
use btree_profiling.Node.Geometry.{cache_outside_node}
use btree_profiling.Node.Search.{IsNode, getpos-place}
use btree_profiling.Node.Remove.{remove_pair-remove_at}
use btree_profiling.Node.Split.Halves.{split-IsNode}
use btree_profiling.Tests.{row, row-IsWords, pairs-IsNode, below_four, geo4, geo4-IsGeo}

-- Two pairs, (30, 130) and (20, 120).
abbrev two : Words
two = row (30 ∷ 20 ∷ 0 ∷ 0 ∷ 130 ∷ 120 ∷ [])

two-IsNode : IsNode geo4 two 2
two-IsNode =
    pairs-IsNode 30 20 130 120 (omega arith) (omega arith) (λ e. omega arith) (λ e. omega arith)

-- Three pairs.
abbrev three : Words
three = row (30 ∷ 20 ∷ 10 ∷ 0 ∷ 130 ∷ 120 ∷ 110 ∷ [])

getpos-place_example :
    getpos geo4 two (row (25 ∷ [])) ≡ place (value (row (25 ∷ [])) 1) (entries geo4 two 2)
getpos-place_example =
    getpos-place geo4 geo4-IsGeo two 2 two-IsNode (row (25 ∷ []))
      (row-IsWords (25 ∷ []) 1 (omega arith))

remove_pair-remove_at_example :
    (entries geo4 (remove_pair geo4 three 1 3) 2 ≡ remove_at 1 (entries geo4 three 3))
    × (pair geo4 (remove_pair geo4 three 1 3) 2 ≡ (0, 0))
remove_pair-remove_at_example =
    remove_pair-remove_at geo4 geo4-IsGeo three 1 2 (omega arith) (omega arith)

-- The geometries of a node of `nodesize` bytes fit it.
abbrev Fitting : ℕ → ℕ → Type 0
Fitting nodesize b =
    (IsGeo (cbtree_geo32 nodesize b)
      × ((cbtree_geo32 nodesize b).no_longs + (cbtree_geo32 nodesize b).no_pairs ≤ nodesize / b))
    × (IsGeo (cbtree_geo64 nodesize b)
        × ((cbtree_geo64 nodesize b).no_longs + (cbtree_geo64 nodesize b).no_pairs ≤ nodesize / b))
    × (IsGeo (cbtree_geo128 nodesize b)
        × ((cbtree_geo128 nodesize b).no_longs + (cbtree_geo128 nodesize b).no_pairs
            ≤ nodesize / b))

cache_outside_node_example :
    (deleted_at (cache_start (cbtree_geo32 (16 * 8) 8)) ≡ 16 * 8 / 8)
    × (16 * 8 / 8 ≤ cache_start (cbtree_geo128 (16 * 8) 8))
cache_outside_node_example = cache_outside_node 8 (omega arith)

empty-IsNode : IsNode geo4 (row []) 0
unfolding pair key_num bval value
empty-IsNode = record {
  words = row-IsWords [] 4 tt;
  within = omega arith;
  used = λ i p. absurd (omega arith);
  unused = λ i p q. refl;
}

three-IsNode : IsNode geo4 three 3
unfolding pair key_num bval value
three-IsNode = record {
  words = row-IsWords (30 ∷ 20 ∷ 10 ∷ 0 ∷ 130 ∷ 120 ∷ 110 ∷ []) 4 (omega arith);
  within = omega arith;
  used = λ i p.
      below_four (λ i. i < 3 → row (30 ∷ 20 ∷ 10 ∷ 0 ∷ 130 ∷ 120 ∷ 110 ∷ []) (4 + i) ≢ 0)
        (λ p e. omega arith) (λ p e. omega arith) (λ p e. omega arith) (λ p. absurd (omega arith)) i
        (omega arith) p;
  unused = λ i p q.
      below_four (λ i. 3 ≤ i → pair geo4 three i ≡ (0, 0)) (λ h. absurd (omega arith))
        (λ h. absurd (omega arith)) (λ h. absurd (omega arith)) (λ h. refl) i q p;
}

split-IsNode_example :
    IsNode geo4 (split geo4 (row []) three 3).0 (3 / 2)
    × IsNode geo4 (split geo4 (row []) three 3).1 (3 - 3 / 2)
    × (entries geo4 three 3
        ≡ entries geo4 (split geo4 (row []) three 3).0 (3 / 2)
          ++ entries geo4 (split geo4 (row []) three 3).1 (3 - 3 / 2))
split-IsNode_example =
    split-IsNode geo4 geo4-IsGeo (row []) three 3 empty-IsNode three-IsNode (omega arith)
