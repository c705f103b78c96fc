-- ===== src/Memory/Put.antt =====
-- Reads and writes of one word.
use btree_profiling.Common.{ℕ, ◌<◌, ◌≡◌, ◌≢◌, refl, arith}
use btree_profiling.Memory.{null, State, ok, load, store, set_words, update}

-- `s'` is `s` but for one word.
pub record Put (s : State) (a i v : ℕ) (s' : State) : Type 0 where
  pub at : s'.word a i ≡ v
  pub elsewhere : (b j : ℕ) → b ≢ a → s'.word b j ≡ s.word b j
  pub beside : (j : ℕ) → j ≢ i → s'.word a j ≡ s.word a j
  pub sizes : (b : ℕ) → s'.size b ≡ s.size b
  pub others : (b : ℕ) → b ≢ a → s'.word b ≡ s.word b
  pub head : s'.head ≡ s.head

pub store-Put :
    (a i v : ℕ) (s : State)
    → a ≢ null
    → i < s.size a
    → (s' : State) × (store a i v s ≡ ok tt s') × Put s a i v s'
unfolding store set_words update
store-Put a i v s ne h = (
  set_words s a (update (s.word a) i v),
  ground arith,
  record {
    at = ground arith;
    elsewhere = λ b j o. ground arith;
    beside = λ j o. ground arith;
    sizes = λ b. refl;
    others = λ b o. ground arith;
    head = refl;
  },
)

-- A word that is known, read.
pub load-is :
    (a i v : ℕ) (s : State) → a ≢ null → i < s.size a → s.word a i ≡ v → load a i s ≡ ok v s
unfolding load
load-is a i v s ne h e = ground (arith, e)
