-- ===== src/Typed/Visitors.antt =====
-- The typed visitors of cbtree-type.h and cbtree-128.h. The result is what `cbtree_visitor` returns, and
-- the calls of the caller's function `func2` in order. `visitorl`, which those of cbtree-type.h name, is
-- no function of this repository: it is a parameter.
use btree_profiling.Common.{ℕ, Bool, List, map}
use btree_profiling.Memory.{Words, Cmd, pure, ◌>>=◌}
use btree_profiling.Node.{Geo, cbtree_geo128}
use btree_profiling.Tree.Visit.{Visit, cbtree_visitor, cbtree_grim_visitor, cvisitor128}

module _ {A : Type 0} where
  -- The calls that the function between makes of `func2`.
  abbrev pub passed : (ℕ → ℕ → Words → ℕ → A) → ℕ → ℕ × List Visit → ℕ × List A
  passed between opaque (count, calls) =
      (count, map (λ (c : Visit). between c.elem opaque c.key c.index) calls)

  module _ (visitorl : (ℕ → ℕ → ℕ → ℕ → A) → ℕ → ℕ → Words → ℕ → A) (geo : Geo) where
    unfoldable pub visitor : ℕ → Bool → ℕ → (ℕ → ℕ → ℕ → ℕ → A) → Cmd (ℕ × List A)
    visitor fuel some_func opaque func2 = do
      calls ← cbtree_visitor fuel geo some_func
      pure (passed (visitorl func2) opaque calls)

    unfoldable pub grim_visitor : ℕ → Bool → ℕ → (ℕ → ℕ → ℕ → ℕ → A) → Cmd (ℕ × List A)
    grim_visitor fuel some_func opaque func2 = do
      calls ← cbtree_grim_visitor fuel geo some_func
      pure (passed (visitorl func2) opaque calls)

  module _ (nodesize : ℕ) where
    unfoldable pub cbtree_cvisitor128 : ℕ → Bool → ℕ → (ℕ → ℕ → ℕ → ℕ → ℕ → A) → Cmd (ℕ × List A)
    cbtree_cvisitor128 fuel some_func opaque func2 = do
      calls ← cbtree_visitor fuel (cbtree_geo128 nodesize 8) some_func
      pure (passed (cvisitor128 func2) opaque calls)

    unfoldable pub cbtree_grim_cvisitor128 :
        ℕ → Bool → ℕ → (ℕ → ℕ → ℕ → ℕ → ℕ → A) → Cmd (ℕ × List A)
    cbtree_grim_cvisitor128 fuel some_func opaque func2 = do
      calls ← cbtree_grim_visitor fuel (cbtree_geo128 nodesize 8) some_func
      pure (passed (cvisitor128 func2) opaque calls)
