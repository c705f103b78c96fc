-- ===== src/Typed.antt =====
-- The inline functions of cbtree-type.h and cbtree-128.h over the tree of cbtree_base.c: each hands the
-- tree a key in an array of the stack. Longs have 64 bits, so the functions for 32-bit keys are of the
-- first branch of the `#if` (`Narrow`), and those for longs and 64-bit keys of the second (`Full`).
pub mod Narrow
pub mod Full
pub mod Wide
pub mod Local
pub mod ForEach
pub mod Visitors
use btree_profiling.Common.{ℕ, zero, suc, ◌==◌, if◌then◌else◌, Option, none, some}
use btree_profiling.Memory.{Addr, Words, Head, State, ok, Cmd, ◌>>=◌, Env, Ptr, ptr, update}
use btree_profiling.Node.{Geo}
use btree_profiling.Tree.{Status, cbtree_init_mempool, cbtree_init, cbtree_destroy}
use btree_profiling.Tree.Merge.{cbtree_merge}

-- Where a new variable of the stack lies.
abbrev pub Stack : Type 0
Stack = State → Addr

-- A block `{ T x[n] = w; f(x); }`: the array lives while `f` runs.
unfoldable pub enter_local : Stack → ℕ → Words → Cmd Addr
unfolding update
enter_local stack n w s =
    ok (stack s) (record s { size = update s.size (stack s) n; word = update s.word (stack s) w })

unfoldable pub leave_local : {A : Type 0} → Addr → A → Cmd A
unfolding update
leave_local a r s = ok r (record s { size = update s.size a 0 })

unfoldable pub with_local : {A : Type 0} → Stack → ℕ → Words → (Ptr → Cmd A) → Cmd A
unfolding enter_local leave_local
with_local stack n w f = enter_local stack n w >>= λ a. f (ptr a 0) >>= leave_local a

-- `{key}`
abbrev pub one_long : ℕ → Words
one_long k i = k

-- `{k1, k2}`
abbrev pub two_longs : ℕ → ℕ → Words
two_longs k1 k2 i = if i == 0 then k1 else k2

-- `CBTREE_FN(init_mempool)`, and the like: `struct cbtree_headl` and the others hold a head and no more.
unfoldable pub init_mempool : Addr → Cmd (Unit {0})
unfolding cbtree_init_mempool
init_mempool mempool = cbtree_init_mempool mempool

unfoldable pub init : Env → Cmd Status
unfolding cbtree_init
init env = cbtree_init env

unfoldable pub destroy : Cmd (Unit {0})
unfolding cbtree_destroy
destroy = cbtree_destroy

unfoldable pub merge : Env → Geo → Addr → Addr → ℕ → Addr → Addr → Head → Cmd (Status × Head)
unfolding cbtree_merge
merge env geo key_buf dup_buf fuel target victim_at victim =
    cbtree_merge env geo key_buf dup_buf fuel target victim_at victim
