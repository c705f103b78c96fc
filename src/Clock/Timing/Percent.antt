-- ===== src/Clock/Timing/Percent.antt =====
-- The percentage that `__ktprint` of calclock.c prints.
use btree_profiling.Common.{
  ℕ, ◌+◌, ◌*◌, ◌/◌, ◌%◌, ◌^◌, ◌≤◌, ◌<◌, ◌≡◌, List, arith, ◌⊎◌, inl, inr, Bool-cases, ltb,
  if◌then◌else◌,
}
use btree_profiling.Clock.{separate_num}
use btree_profiling.Clock.Timing.{Ktime, ClockLine, percentage, print_clock}

percentage-plain :
    (time total : ℕ)
    → time * 10000 < 2 ^ 63
    → time * 10000 / total < 2 ^ 32
    → percentage time total ≡ time * 10000 / total
unfolding percentage
percentage-plain time total h q = ground arith

div_le : (a b c : ℕ) → 0 < b → a ≤ b * c → a / b ≤ c
div_le a b c pos h = grind arith

module _ (kt : Ktime) (digits : ℕ → List ℕ) (cpus : ℕ) where
  -- The largest time after `__ktprint` is the larger of the time and of what it was, and the
  -- percentage that it prints is that of the time in this largest time, with two decimals, and is
  -- 100 at most. The largest time was above 0, and ten thousand times the time does not overflow.
  pub print_clock-percentage :
      (totaltime depth time count : ℕ)
      → 0 < totaltime
      → totaltime < 2 ^ 63
      → time * 10000 < 2 ^ 63
      → (total : ℕ) × (line : ClockLine) × (print_clock kt digits cpus totaltime depth time count
          ≡ (total, line))
        × ((total ≡ time) ⊎ (total ≡ totaltime))
        × (time ≤ total)
        × (totaltime ≤ total)
        × (line.whole * 100 + line.hundredths ≡ time * 10000 / total)
        × (line.whole ≤ 100)
        × (line.hundredths < 100)
  unfolding print_clock
  print_clock-percentage totaltime depth time count pos small room =
      let total = if ltb totaltime time then time else totaltime in
      let larger : (total ≡ time) ⊎ (total ≡ totaltime) = elim (Bool-cases (ltb totaltime time)) [
        | inl e ↦ inl (ground (arith, e))
        | inr e ↦ inr (ground (arith, e))
      ] in
      let above : time ≤ total = ground arith in
      let most : time * 10000 / total ≤ 10000 =
        div_le (time * 10000) total 10000 (ground arith) (omega arith) in
      let plain : percentage time total ≡ time * 10000 / total =
        percentage-plain time total room (omega arith) in
      let line : ClockLine = record {
        indent = depth;
        calls = separate_num (digits count);
        interval = separate_num (digits time);
        per_thread = separate_num (digits (time / cpus));
        whole = percentage time total / 100;
        hundredths = percentage time total % 100;
      } in
      (
        total,
        line,
        ground (arith, kt.before totaltime time small (omega arith)),
        larger,
        above,
        ground arith,
        omega (arith, plain),
        omega (arith, plain, most),
        omega arith,
      )
