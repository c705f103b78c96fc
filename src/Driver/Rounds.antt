-- ===== src/Driver/Rounds.antt =====
-- The rounds of `find_tree` of btree_profiling.c: the random keys, their lookups, and the clocks.
use btree_profiling.Common.{ℕ, zero, suc, ◌+◌, ◌%◌, ◌<◌, ◌≡◌, List, [], ◌∷◌, ltb, if◌then◌else◌}
use btree_profiling.Memory.{Addr, State, ok}
use btree_profiling.Words.{word_mod}
use btree_profiling.Sums.{occurrences}
use btree_profiling.Tree.Lookup.{cbtree_lookup}
use btree_profiling.Typed.{with_local, one_long}
use btree_profiling.Typed.Local.{Calm}
use btree_profiling.Clock.Timing.{Calclock}
use btree_profiling.Driver.{Kernel, World, geo}
use btree_profiling.Driver.Count.{read, Lookup}

module _ {K : Type 0} (kn : Kernel K) (fuel : ℕ) where
  -- The kernel's state after random bytes, and after one round: random bytes, then four readings.
  abbrev drawn : K → K
  drawn k = (kn.get_random_bytes k).1

  abbrev round_end : K → K
  round_end k = read kn fuel (read kn fuel (read kn fuel (read kn fuel (drawn k))))

  -- What a number of rounds takes from the kernel: the random keys, the processor on which each
  -- tree's clock is stopped, and the kernel's state at the end.
  abbrev pub draws : ℕ → ℕ → K → List ℕ
  draws tree_size zero k = []
  draws tree_size (suc n) k =
      ((kn.get_random_bytes k).0 % (tree_size + 1)) ∷ draws tree_size n (round_end k)

  abbrev pub btree_cpus : ℕ → K → List ℕ
  btree_cpus zero k = []
  btree_cpus (suc n) k =
      kn.this_cpu (read kn fuel (read kn fuel (drawn k))) ∷ btree_cpus n (round_end k)

  abbrev pub cbtree_cpus : ℕ → K → List ℕ
  cbtree_cpus zero k = []
  cbtree_cpus (suc n) k = kn.this_cpu (round_end k) ∷ cbtree_cpus n (round_end k)

  abbrev pub kernel_after : ℕ → K → K
  kernel_after zero k = k
  kernel_after (suc n) k = kernel_after n (round_end k)

  -- Keys looked up one after the other, each from a variable of the stack, with the memory in between.
  pub data LookedUp : List ℕ → State → State → Type 0 where
    finished : {s : State} → LookedUp [] s s
    looked_up :
        {key : ℕ} {keys : List ℕ} {s s1 s' : State} (r : Addr)
        → with_local kn.stack 1 (one_long key) (λ p. cbtree_lookup fuel (geo kn fuel) p) s ≡ ok r s1
        → LookedUp keys s1 s'
        → LookedUp (key ∷ keys) s s'

  -- The counts are unsigned longs.
  pub record HasLongs (w : World K) : Type 0 where
    pub counts : (j : ℕ) → w.search_counts j < word_mod
    pub btree : (j : ℕ) → (w.btree_lookup_clock j).count < word_mod
    pub cbtree : (j : ℕ) → (w.cbtree_lookup_clock j).count < word_mod

  -- Calls of `ktput` on a row of processors, as a clock counts them.
  abbrev pub Ticked : (ℕ → Calclock) → List ℕ → (ℕ → Calclock) → Type 0
  Ticked c cpus c' = (j : ℕ) → (c' j).count ≡ ((c j).count + occurrences (λ k. k) j cpus) % word_mod

  -- What a number of rounds from a world does.
  pub record Rounds (tree_size n : ℕ) (w w' : World K) : Type 0 where
    pub counts :
        (j : ℕ)
        → w'.search_counts j ≡ (
            if ltb j tree_size
            then (w.search_counts j + occurrences (λ k. k) j (draws tree_size n w.kernel))
              % word_mod
            else w.search_counts j)
    pub looked : LookedUp (draws tree_size n w.kernel) w.mem w'.mem
    pub btree : Ticked w.btree_lookup_clock (btree_cpus n w.kernel) w'.btree_lookup_clock
    pub cbtree : Ticked w.cbtree_lookup_clock (cbtree_cpus n w.kernel) w'.cbtree_lookup_clock
    pub kernel_is : w'.kernel ≡ kernel_after n w.kernel
    pub calm : Calm w.mem w'.mem
