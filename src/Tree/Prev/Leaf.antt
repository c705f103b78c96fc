-- ===== src/Tree/Prev/Leaf.antt =====
-- How `cbtree_get_prev` of cbtree_base.c reads a leaf.
use btree_profiling.Common.{
  ℕ, ◌+◌, ◌≡◌, ap, sym, ◌∙◌, arith, ltb, if◌then◌else◌, Option, some, none, Bool-cases, inl, inr,
}
use btree_profiling.Memory.{Addr, Words, State, ok}
use btree_profiling.Words.Order.{value, IsWords}
use btree_profiling.Entries.{before, before-place}
use btree_profiling.Node.{Geo, bkey, bval, getpos}
use btree_profiling.Node.Slots.{IsGeo, key_num, pair, entries}
use btree_profiling.Node.Search.{getpos-place, getpos-le-fill, bval_unused}
use btree_profiling.Tree.Shape.{Holds, read_node-Holds}
use btree_profiling.Tree.Prev.{prev_in_leaf}

-- A result of `cbtree_get_prev` with its key as a number.
abbrev pub as_entry : Geo → Option (ℕ × Words) → Option (ℕ × ℕ)
as_entry geo none = none
as_entry geo (some (v, key)) = some (value key geo.keylen, v)

abbrev at_place : ℕ → (ℕ → ℕ × ℕ) → ℕ → Option (ℕ × ℕ)
at_place n f i = if ltb i n then some (f i) else none

module _ {geo : Geo} (g : IsGeo geo) {s : State} {a : Addr} {fill : ℕ}
    (h : Holds geo s a fill) where
  -- The scan of a leaf finds the first entry that is not above the key.
  pub prev_in_leaf-before :
      (lower : Words)
      → IsWords lower geo.keylen
      → (r : Option (ℕ × Words)) × (prev_in_leaf geo a lower s ≡ ok r s)
        × (as_entry geo r ≡ before (value lower geo.keylen + 1) (entries geo (s.word a) fill))
  unfolding prev_in_leaf pair key_num
  prev_in_leaf-before lower wl =
      let w = s.word a in
      let pos = getpos geo w lower in
      let at = getpos-place geo g w fill h.node lower wl in
      let low = getpos-le-fill geo g w fill h.node lower wl in
      let found : before (value lower geo.keylen + 1) (entries geo w fill)
          ≡ at_place fill (pair geo w) pos =
        before-place (value lower geo.keylen) (pair geo w) fill
        ∙ ap (at_place fill (pair geo w)) (sym at) in
      elim (Bool-cases (ltb pos fill)) [
        | inl inside ↦ (
          some (bval geo w pos, bkey geo w pos),
          ground (arith, read_node-Holds h, h.ne_null, h.node.used pos, h.node.within),
          sym (found ∙ ap (λ b. if b then some (pair geo w pos) else none) inside),
        )
        | inr behind ↦ (
          none,
          ground (arith, read_node-Holds h, h.ne_null, bval_unused geo g w fill h.node pos),
          sym (found ∙ ap (λ b. if b then some (pair geo w pos) else none) behind),
        )
      ]
