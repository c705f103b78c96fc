-- ===== src/Clock/Timing.antt =====
-- The clocks of calclock.h and `__ktprint` of calclock.c. A `ktime_t` is a number below 2 ^ 64, negative
-- from 2 ^ 63 on; the operations of the kernel on such times are a parameter.
pub mod Sum
pub mod Percent
use btree_profiling.Common.{
  ℕ, zero, suc, ◌+◌, ◌-◌, ◌*◌, ◌/◌, ◌%◌, ◌^◌, ◌≤◌, ◌<◌, ◌≡◌, Bool, true, false, Option, none, some,
  List, [], ◌∷◌, ltb, ◌==◌, if◌then◌else◌,
}
use btree_profiling.Memory.{update}
use btree_profiling.Words.{word_mod}
use btree_profiling.Clock.{separate_num}

-- The kernel's operations on times, as documented for times that are not negative: `ktime_add_safe` adds
-- where the sum is a time.
pub record Ktime : Type 0 where
  pub ktime_after : ℕ → ℕ → Bool
  pub ktime_before : ℕ → ℕ → Bool
  pub ktime_sub : ℕ → ℕ → ℕ
  pub ktime_add_safe : ℕ → ℕ → ℕ
  pub after : (a b : ℕ) → a < 2 ^ 63 → b < 2 ^ 63 → ktime_after a b ≡ ltb b a
  pub before : (a b : ℕ) → a < 2 ^ 63 → b < 2 ^ 63 → ktime_before a b ≡ ltb a b
  pub sub : (a b : ℕ) → b ≤ a → a < 2 ^ 63 → ktime_sub a b ≡ a - b
  pub add : (a b : ℕ) → a + b < 2 ^ 63 → ktime_add_safe a b ≡ a + b

-- `struct calclock`
pub record Calclock : Type 0 where
  pub time : ℕ
  pub count : ℕ

-- `KTDEF(funcname)`: a clock for each processor.
abbrev pub no_clocks : ℕ → Calclock
no_clocks cpu = record { time = 0; count = 0 }

module _ (kt : Ktime) where
  -- `__ktput`; `none` is a failed `BUG_ON`.
  unfoldable pub add_interval : ℕ → ℕ → ℕ → Option ℕ
  add_interval start end time =
      if kt.ktime_after start end
      then none
      else some (kt.ktime_add_safe time (kt.ktime_sub end start))

  -- `ktput(localclocks, funcname)` on processor `cpu`, from which it is not moved away meanwhile.
  unfoldable pub ktput : ℕ → ℕ → ℕ → (ℕ → Calclock) → Option (ℕ → Calclock)
  unfolding add_interval update
  ktput cpu start end clocks = elim (add_interval start end (clocks cpu).time) [
    | none ↦ none
    | some time ↦
        some
          (update clocks cpu (record { time = time; count = ((clocks cpu).count + 1) % word_mod }))
  ]

-- `for_each_online_cpu(cpu)` of `ktprint`, with the two sums.
pub ktprint_loop : (ℕ → Calclock) → List ℕ → ℕ → ℕ → ℕ × ℕ
ktprint_loop clocks [] timesum countsum = (timesum, countsum)
ktprint_loop clocks (cpu ∷ cpus) timesum countsum =
    ktprint_loop clocks cpus ((timesum + (clocks cpu).time) % word_mod)
      ((countsum + (clocks cpu).count) % word_mod)

-- What `__ktprint` prints: the digits of the numbers come from `sprintf`.
pub record ClockLine : Type 0 where
  pub indent : ℕ
  pub calls : List ℕ
  pub interval : List ℕ
  pub per_thread : List ℕ
  pub whole : ℕ
  pub hundredths : ℕ

-- `int percentage = time * 10000 / totaltime`: the product wraps, and is negative from 2 ^ 63 on.
unfoldable pub percentage : ℕ → ℕ → ℕ
percentage time totaltime =
    let p = time * 10000 % word_mod in
    if ltb p (2 ^ 63)
    then p / totaltime % 2 ^ 32
    else (2 ^ 32 - (word_mod - p) / totaltime % 2 ^ 32) % 2 ^ 32

module _ (kt : Ktime) (digits : ℕ → List ℕ) (num_online_cpus : ℕ) where
  -- `__ktprint`, with the `static` largest time before and after. Times and `percentage` are not negative.
  unfoldable pub print_clock : ℕ → ℕ → ℕ → ℕ → ℕ × ClockLine
  unfolding percentage
  print_clock totaltime depth time count =
      let total = if kt.ktime_before totaltime time then time else totaltime in
      (
        total,
        record {
          indent = depth;
          calls = separate_num (digits count);
          interval = separate_num (digits time);
          per_thread = separate_num (digits (time / num_online_cpus));
          whole = percentage time total / 100;
          hundredths = percentage time total % 100;
        },
      )

  -- `ktprint(depth, funcname)`
  unfoldable pub ktprint : List ℕ → ℕ → ℕ → (ℕ → Calclock) → ℕ × ClockLine
  unfolding print_clock ktprint_loop
  ktprint online totaltime depth clocks =
      let sums = ktprint_loop clocks online 0 0 in print_clock totaltime depth sums.0 sums.1
