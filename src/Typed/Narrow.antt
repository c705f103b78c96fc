-- ===== src/Typed/Narrow.antt =====
-- The first branch of cbtree-type.h: keys of fewer bits than a long, copied to a long and back. A
-- caller's variable that a function writes is its argument and, with the new value, in its result.
use btree_profiling.Common.{ℕ, ◌%◌, ◌^◌, ◌==◌, if◌then◌else◌, Option, none, some}
use btree_profiling.Memory.{Addr, null, Words, Cmd, pure, ◌>>=◌, Env}
use btree_profiling.Node.{Geo}
use btree_profiling.Tree.{Status, cbtree_last}
use btree_profiling.Tree.Lookup.{cbtree_lookup, cbtree_update}
use btree_profiling.Tree.Insert.{cbtree_insert}
use btree_profiling.Tree.Remove.{cbtree_remove}
use btree_profiling.Tree.Prev.{cbtree_get_prev}
use btree_profiling.Typed.{Stack, with_local, one_long}

-- `if (val) *key = _key`: the value found, and the caller's key of `bits` bits.
abbrev pub found_key : ℕ → ℕ → Option (ℕ × Words) → ℕ × ℕ
found_key bits key none = (null, key)
found_key bits key (some (v, k)) = (v, if v == null then key else k 0 % 2 ^ bits)

module _ (stack : Stack) (geo : Geo) (bits : ℕ) where
  unfoldable pub lookup : ℕ → ℕ → Cmd Addr
  unfolding with_local
  lookup fuel key = with_local stack 1 (one_long (key % 2 ^ bits)) (λ p. cbtree_lookup fuel geo p)

  unfoldable pub insert : ℕ → Env → ℕ → ℕ → Cmd Status
  unfolding with_local
  insert fuel env key val =
      with_local stack 1 (one_long (key % 2 ^ bits)) (λ p. cbtree_insert fuel env geo p val)

  unfoldable pub update : ℕ → ℕ → ℕ → Cmd Status
  unfolding with_local
  update fuel key val =
      with_local stack 1 (one_long (key % 2 ^ bits)) (λ p. cbtree_update fuel geo p val)

  unfoldable pub remove : ℕ → ℕ → Cmd ℕ
  unfolding with_local
  remove fuel key = with_local stack 1 (one_long (key % 2 ^ bits)) (λ p. cbtree_remove fuel geo p)

  unfoldable pub last : ℕ → Cmd (ℕ × ℕ)
  last key = do found ← cbtree_last geo; pure (found_key bits key found)

  unfoldable pub get_prev : ℕ → ℕ → Cmd (ℕ × ℕ)
  unfolding with_local
  get_prev fuel key = do
    found ← with_local stack 1 (one_long (key % 2 ^ bits)) (λ p. cbtree_get_prev fuel geo p)
    pure (found_key bits key found)
