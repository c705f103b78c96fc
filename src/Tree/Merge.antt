-- ===== src/Tree/Merge.antt =====
-- `cbtree_merge` of cbtree_base.c: the state's head is the target's, the victim's is an argument and a
-- result. `key_buf` and `dup_buf` are the blocks of the arrays `key` and `dup`.
pub mod Empty
use btree_profiling.Common.{ℕ, zero, suc, ◌==◌, if◌then◌else◌, none, some}
use btree_profiling.Memory.{
  Addr, null, Words, Head, Cmd, pure, ◌>>=◌, ◌>>◌, starving, Env, ptr, get_head, set_head, bug_on,
}
use btree_profiling.Words.{longcpy}
use btree_profiling.Node.{Geo}
use btree_profiling.Tree.{Status, success, write_node, block_words, cbtree_last, cbtree_clear_head}
use btree_profiling.Tree.Lookup.{cbtree_lookup}
use btree_profiling.Tree.Insert.{cbtree_insert}
use btree_profiling.Tree.Remove.{cbtree_remove}

-- A command on another tree.
unfoldable pub on_tree : {A : Type 0} → Head → Cmd A → Cmd (A × Head)
on_tree other m = do
  mine ← get_head
  set_head other
  a ← m
  other' ← get_head
  set_head mine
  pure (a, other')

-- `longcpy` into an array of the stack.
unfoldable pub fill_buffer : Geo → Addr → Words → Cmd (Unit {0})
fill_buffer geo buf key = do w ← block_words buf; write_node buf (longcpy w 0 key geo.keylen)

module _ (env : Env) (geo : Geo) (key_buf dup_buf : Addr) where
  -- `for (;;)`, one unit of fuel for each entry.
  pub merge_loop : ℕ → ℕ → Head → Cmd (Status × Head)
  unfolding on_tree fill_buffer
  merge_loop fuel zero victim = starving
  merge_loop fuel (suc n) victim = do
    (last, _) ← on_tree victim (cbtree_last geo)
    elim last [
      | none ↦ pure (success, victim)
      | some (v, key) ↦ do
        fill_buffer geo key_buf key
        if v == null then pure (success, victim) else do
          (val, victim') ← on_tree victim (cbtree_lookup fuel geo (ptr key_buf 0))
          err ← cbtree_insert fuel env geo (ptr key_buf 0) val
          elim err [
            | success ↦ do
              w ← block_words key_buf
              fill_buffer geo dup_buf w
              (_, victim'') ← on_tree victim' (cbtree_remove fuel geo (ptr dup_buf 0))
              merge_loop fuel n victim''
            | e ↦ pure (e, victim')
          ]
    ]

  -- `target` and `victim` are the addresses of the two heads.
  unfoldable pub cbtree_merge : ℕ → Addr → Addr → Head → Cmd (Status × Head)
  unfolding merge_loop
  cbtree_merge fuel target victim_at victim = do
    bug_on (target == victim_at)
    h ← get_head
    if h.node == null
        then (do
          set_head (record h { node = victim.node; height = victim.height })
          (_, empty) ← on_tree victim cbtree_clear_head
          pure (success, empty))
        else merge_loop fuel fuel victim
