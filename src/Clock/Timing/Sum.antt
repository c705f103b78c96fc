-- ===== src/Clock/Timing/Sum.antt =====
-- What `ktprint` of calclock.h adds up after a row of calls of `ktput`.
use btree_profiling.Common.{
  ℕ, ◌+◌, ◌-◌, ◌^◌, ◌≤◌, ◌<◌, ◌≡◌, refl, ap, ◌∙◌, Option, none, some, List, [], ◌∷◌, arith, ◌==◌,
  if◌then◌else◌, length,
}
use btree_profiling.Memory.{update}
use btree_profiling.Words.{word_mod}
use btree_profiling.Sums.{times, sum_over}
use btree_profiling.Clock.Timing.{Ktime, Calclock, no_clocks, add_interval, ktput, ktprint_loop}

-- A measured call: the processor, and the clock before and after.
pub record Call : Type 0 where
  pub cpu : ℕ
  pub start : ℕ
  pub end : ℕ

-- A row of measured calls.
unfoldable pub measure : Ktime → (ℕ → Calclock) → List Call → Option (ℕ → Calclock)
unfolding ktput
measure kt clocks [] = some clocks
measure kt clocks (c ∷ cs) = elim (ktput kt c.cpu c.start c.end clocks) [
  | none ↦ none
  | some clocks' ↦ measure kt clocks' cs
]

abbrev pub total_time : List Call → ℕ
total_time [] = 0
total_time (c ∷ cs) = (c.end - c.start) + total_time cs

-- Every call ran on one of the processors `online`, its second reading is not before the first.
abbrev pub AllMeasured : List ℕ → List Call → Type 0
AllMeasured online [] = Unit {0}
AllMeasured online (c ∷ cs) =
    (times c.cpu online ≡ 1) × (c.start ≤ c.end) × (c.end < 2 ^ 63) × AllMeasured online cs

sum_over-zero : (js : List ℕ) → sum_over (λ i. 0) js ≡ 0
sum_over-zero [] = refl
sum_over-zero (j ∷ js) = omega (arith, sum_over-zero js)

sum_over-times :
    (f f' : ℕ → ℕ) (i d : ℕ) (js : List ℕ)
    → ((j : ℕ) → f' j ≡ (if j == i then f j + d else f j))
    → times i js ≡ 0
    → sum_over f' js ≡ sum_over f js
sum_over-times f f' i d [] h e = refl
sum_over-times f f' i d (j ∷ js) h e = ground (arith, h j, sum_over-times f f' i d js h)

sum_over-once :
    (f f' : ℕ → ℕ) (i d : ℕ) (js : List ℕ)
    → ((j : ℕ) → f' j ≡ (if j == i then f j + d else f j))
    → times i js ≡ 1
    → sum_over f' js ≡ sum_over f js + d
sum_over-once f f' i d [] h e = absurd (omega arith)
sum_over-once f f' i d (j ∷ js) h e =
    ground (arith, h j, sum_over-once f f' i d js h, sum_over-times f f' i d js h)

member_le : (f : ℕ → ℕ) (i : ℕ) (js : List ℕ) → times i js ≡ 1 → f i ≤ sum_over f js
member_le f i [] e = absurd (omega arith)
member_le f i (j ∷ js) e = ground (arith, member_le f i js, ap f {x = i} {y = j})

ktprint_loop-sum :
    (clocks : ℕ → Calclock) (cpus : List ℕ) (t n : ℕ)
    → t + sum_over (λ i. (clocks i).time) cpus < word_mod
    → n + sum_over (λ i. (clocks i).count) cpus < word_mod
    → ktprint_loop clocks cpus t n
      ≡ (t + sum_over (λ i. (clocks i).time) cpus, n + sum_over (λ i. (clocks i).count) cpus)
unfolding ktprint_loop
ktprint_loop-sum clocks [] t n ht hn = ground arith
ktprint_loop-sum clocks (cpu ∷ cpus) t n ht hn =
    let rest =
      ktprint_loop-sum clocks cpus (t + (clocks cpu).time) (n + (clocks cpu).count) (omega arith)
        (omega arith) in
    ground (arith, rest)

same_pair : {a b c d : ℕ} → a ≡ b → c ≡ d → ◌≡◌ {A = ℕ × ℕ} (a, c) (b, d)
same_pair e f i = (e i, f i)

-- The clocks stand for `t` and `n` in all.
record IsTotal (online : List ℕ) (clocks : ℕ → Calclock) (t n : ℕ) : Type 0 where
  time : sum_over (λ i. (clocks i).time) online ≡ t
  count : sum_over (λ i. (clocks i).count) online ≡ n

module _ (kt : Ktime) (online : List ℕ) where
  ktput-IsTotal :
      (c : Call) {clocks : ℕ → Calclock} {t n : ℕ}
      → times c.cpu online ≡ 1
      → c.start ≤ c.end
      → c.end < 2 ^ 63
      → IsTotal online clocks t n
      → t + (c.end - c.start) < 2 ^ 63
      → n + 1 < word_mod
      → (clocks' : ℕ → Calclock) × (ktput kt c.cpu c.start c.end clocks ≡ some clocks')
        × IsTotal online clocks' (t + (c.end - c.start)) (n + 1)
  unfolding ktput add_interval update
  ktput-IsTotal c {clocks} {t} {n} here order small is room_t room_n =
      let d = c.end - c.start in
      let time_le : (clocks c.cpu).time ≤ t =
        omega (arith, member_le (λ i. (clocks i).time) c.cpu online here, is.time) in
      let count_le : (clocks c.cpu).count ≤ n =
        omega (arith, member_le (λ i. (clocks i).count) c.cpu online here, is.count) in
      let added = kt.add (clocks c.cpu).time d (omega arith) in
      let lesser = kt.sub c.end c.start order small in
      let in_order = kt.after c.start c.end (omega arith) small in
      let clocks' =
        update clocks c.cpu
          (record { time = (clocks c.cpu).time + d; count = (clocks c.cpu).count + 1 }) in
      (
        clocks',
        ground (arith, added, lesser, in_order),
        record {
          time =
              sum_over-once (λ i. (clocks i).time) (λ i. (clocks' i).time) c.cpu d online
                (λ j. ground (arith, ap clocks {x = j} {y = c.cpu})) here
              ∙ ap (λ m. m + d) is.time;
          count =
              sum_over-once (λ i. (clocks i).count) (λ i. (clocks' i).count) c.cpu 1 online
                (λ j. ground (arith, ap clocks {x = j} {y = c.cpu})) here
              ∙ ap (λ m. m + 1) is.count;
        },
      )

  measure-IsTotal :
      (cs : List Call) {clocks : ℕ → Calclock} {t n : ℕ}
      → AllMeasured online cs
      → IsTotal online clocks t n
      → t + total_time cs < 2 ^ 63
      → n + length cs < word_mod
      → (clocks' : ℕ → Calclock) × (measure kt clocks cs ≡ some clocks')
        × IsTotal online clocks' (t + total_time cs) (n + length cs)
  unfolding measure
  measure-IsTotal [] {clocks} {t} {n} good is room_t room_n =
      (clocks, refl, record { time = omega (arith, is.time); count = omega (arith, is.count) })
  measure-IsTotal (c ∷ cs) {clocks} {t} {n} good is room_t room_n =
      let (clocks1, run1, is1) =
        ktput-IsTotal c good.0 good.1 good.2 is (omega arith) (omega arith) in
      let (clocks', run, is') = measure-IsTotal cs good.3 is1 (omega arith) (omega arith) in
      (
        clocks',
        ground (arith, run1, run),
        record { time = omega (arith, is'.time); count = omega (arith, is'.count) },
      )

  -- After a row of measured calls from clocks at 0 the sums of `ktprint` are the sum of the
  -- intervals and the number of calls. Each call ran on a processor that is on line and is
  -- visited once, its second reading is not before the first, the intervals add up to a time and
  -- the calls to less than 2 ^ 64.
  pub ktprint_loop-measure :
      (cs : List Call)
      → AllMeasured online cs
      → total_time cs < 2 ^ 63
      → length cs < word_mod
      → (clocks : ℕ → Calclock) × (measure kt no_clocks cs ≡ some clocks)
        × (ktprint_loop clocks online 0 0 ≡ (total_time cs, length cs))
  ktprint_loop-measure cs good room_t room_n =
      let start : IsTotal online no_clocks 0 0 = record {
        time = sum_over-zero online;
        count = sum_over-zero online;
      } in
      let (clocks, run, is) = measure-IsTotal cs good start (omega arith) (omega arith) in
      (
        clocks,
        run,
        ktprint_loop-sum clocks online 0 0 (omega (arith, is.time)) (omega (arith, is.count))
            ∙ same_pair (omega (arith, is.time)) (omega (arith, is.count)),
      )
