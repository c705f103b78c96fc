-- ===== src/Typed/ForEach.antt =====
-- The macros `cbtree_for_each_safel`, `cbtree_for_each_safe32`, `cbtree_for_each_safe64` of cbtree_base.h
-- and `cbtree_for_each_safe128` of cbtree-128.h. `body` is the statement behind the macro; its results are
-- collected. One unit of fuel for each round.
pub mod Circle
pub mod Entries
use btree_profiling.Common.{ℕ, zero, suc, List, [], ◌∷◌, ◌==◌, if◌then◌else◌}
use btree_profiling.Memory.{null, Cmd, pure, ◌>>=◌, starving}
use btree_profiling.Node.{cbtree_geo32, cbtree_geo64}
use btree_profiling.Typed.{Stack}
use btree_profiling.Typed.Full
use btree_profiling.Typed.Narrow
use btree_profiling.Typed.Wide.{cbtree_last128, cbtree_get_prev128}

module _ {B : Type 0} where
  -- `for (val = ...; val; val = get_prev(head, &key))`
  pub for_each_loop : (ℕ → Cmd (ℕ × ℕ)) → (ℕ → ℕ → Cmd B) → ℕ → ℕ → ℕ → Cmd (List B)
  for_each_loop get_prev body zero key val = starving
  for_each_loop get_prev body (suc f) key val = if val == null then pure [] else do
    b ← body key val
    (val', key') ← get_prev key
    bs ← for_each_loop get_prev body f key' val'
    pure (b ∷ bs)

  pub for_each_loop128 :
      (ℕ → ℕ → Cmd (ℕ × ℕ × ℕ)) → (ℕ → ℕ → ℕ → Cmd B) → ℕ → ℕ → ℕ → ℕ → Cmd (List B)
  for_each_loop128 get_prev body zero k1 k2 val = starving
  for_each_loop128 get_prev body (suc f) k1 k2 val = if val == null then pure [] else do
    b ← body k1 k2 val
    (val', k1', k2') ← get_prev k1 k2
    bs ← for_each_loop128 get_prev body f k1' k2' val'
    pure (b ∷ bs)

  module _ (stack : Stack) (nodesize : ℕ) (body : ℕ → ℕ → Cmd B) (levels fuel key : ℕ) where
    unfoldable pub cbtree_for_each_safel : Cmd (List B)
    unfolding for_each_loop
    cbtree_for_each_safel = do
      (val, key') ← Full.last stack (cbtree_geo32 nodesize 8) key
      for_each_loop (Full.get_prev stack (cbtree_geo32 nodesize 8) levels) body fuel key' val

    unfoldable pub cbtree_for_each_safe32 : Cmd (List B)
    unfolding for_each_loop
    cbtree_for_each_safe32 = do
      (val, key') ← Narrow.last stack (cbtree_geo32 nodesize 8) 32 key
      for_each_loop (Narrow.get_prev stack (cbtree_geo32 nodesize 8) 32 levels) body fuel key' val

    unfoldable pub cbtree_for_each_safe64 : Cmd (List B)
    unfolding for_each_loop
    cbtree_for_each_safe64 = do
      (val, key') ← Full.last stack (cbtree_geo64 nodesize 8) key
      for_each_loop (Full.get_prev stack (cbtree_geo64 nodesize 8) levels) body fuel key' val

  unfoldable pub cbtree_for_each_safe128 :
      Stack → ℕ → (ℕ → ℕ → ℕ → Cmd B) → ℕ → ℕ → ℕ → ℕ → Cmd (List B)
  unfolding for_each_loop128
  cbtree_for_each_safe128 stack nodesize body levels fuel k1 k2 = do
    (val, k1', k2') ← cbtree_last128 stack nodesize k1 k2
    for_each_loop128 (cbtree_get_prev128 stack nodesize levels) body fuel k1' k2' val
