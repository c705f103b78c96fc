-- ===== src/Tests/Clocks.antt =====
-- The printed numbers at concrete inputs.
use btree_profiling.Common.{
  ℕ, ◌+◌, ◌-◌, ◌*◌, ◌/◌, ◌≤◌, ◌<◌, ◌≡◌, ◌⊎◌, refl, some, ltb, arith, List, [], ◌∷◌, length,
}
use btree_profiling.Clock.{separate_num, grouped, without_commas, without_commas-separate_num}
use btree_profiling.Clock.Timing.{Ktime, Calclock, no_clocks, ktprint_loop, ClockLine, print_clock}
use btree_profiling.Clock.Timing.Sum.{Call, measure, total_time, ktprint_loop-measure}
use btree_profiling.Clock.Timing.Percent.{print_clock-percentage}

-- "1234567"
abbrev digits : List ℕ
digits = 49 ∷ 50 ∷ 51 ∷ 52 ∷ 53 ∷ 54 ∷ 55 ∷ []

without_commas-separate_num_example :
    (separate_num digits ≡ grouped digits)
    × (without_commas (separate_num digits) ≡ digits)
    × (length (separate_num digits) ≡ 9)
without_commas-separate_num_example = without_commas-separate_num digits refl

abbrev pub plain_ktime : Ktime
plain_ktime = record {
  ktime_after = λ a b. ltb b a;
  ktime_before = λ a b. ltb a b;
  ktime_sub = λ a b. a - b;
  ktime_add_safe = λ a b. a + b;
  after = λ a b h k. refl;
  before = λ a b h k. refl;
  sub = λ a b h k. refl;
  add = λ a b h. refl;
}

-- Two processors, and three calls.
abbrev calls : List Call
calls =
    record { cpu = 0; start = 5; end = 9 }
    ∷ record { cpu = 1; start = 7; end = 8 }
    ∷ record { cpu = 0; start = 10; end = 40 }
    ∷ []

ktprint_loop-measure_example :
    (clocks : ℕ → Calclock) × (measure plain_ktime no_clocks calls ≡ some clocks)
    × (ktprint_loop clocks (0 ∷ 1 ∷ []) 0 0 ≡ (total_time calls, 3))
ktprint_loop-measure_example =
    ktprint_loop-measure plain_ktime (0 ∷ 1 ∷ []) calls
      (
        refl,
        omega arith,
        omega arith,
        (refl, omega arith, omega arith, (refl, omega arith, omega arith, tt)),
      )
      (omega arith) (omega arith)

print_clock-percentage_example :
    (total : ℕ) × (line : ClockLine) × (print_clock plain_ktime (λ n. digits) 2 100 1 35 3
      ≡ (total, line))
    × ((total ≡ 35) ⊎ (total ≡ 100))
    × (35 ≤ total)
    × (100 ≤ total)
    × (line.whole * 100 + line.hundredths ≡ 35 * 10000 / total)
    × (line.whole ≤ 100)
    × (line.hundredths < 100)
print_clock-percentage_example =
    print_clock-percentage plain_ktime (λ n. digits) 2 100 1 35 3 (omega arith) (omega arith)
      (omega arith)
