-- ===== src/Clock.antt =====
-- `separate_num` of calclock.c. `sprintf` prints the number, so its digits are the argument; a character
-- is its code.
pub mod Timing
use btree_profiling.Common.{
  ℕ, suc, inl, inr, Bool-cases, sym, ◌+◌, ◌-◌, ◌/◌, ◌%◌, ◌≤◌, ◌<◌, ltb, ◌&&◌, ◌≡◌, refl, ap, ◌∙◌,
  List, [], ◌∷◌, ◌==◌, if◌then◌else◌, arith, length,
}
use mathlib.Core.List.{reverse, reverse_aux, reverse-reverse}

abbrev pub comma : ℕ
comma = 44

-- `for (--cur; cur > -1; cur--)` over the digits from the last one on. After a comma the same digit
-- comes again, with the counter at 0.
pub separate_loop : ℕ → List ℕ → List ℕ
separate_loop counter [] = []
separate_loop counter (c ∷ rest) =
    let fresh = separate_loop 1 rest in
    let more = separate_loop (counter + 1) rest in
    if counter == 3 then comma ∷ c ∷ fresh else c ∷ more

-- Both loops: the characters from the last one on, then turned round.
pub separate_num : List ℕ → List ℕ
unfolding separate_loop
separate_num digits = reverse (separate_loop 0 (reverse digits))

-- The characters that are no commas.
abbrev pub without_commas : List ℕ → List ℕ
without_commas [] = []
without_commas (c ∷ cs) = if c == comma then without_commas cs else c ∷ without_commas cs

without_commas-reverse_aux :
    (xs r : List ℕ)
    → without_commas (reverse_aux xs r) ≡ reverse_aux (without_commas xs) (without_commas r)
without_commas-reverse_aux [] r = refl
without_commas-reverse_aux (x ∷ xs) r = ground (arith, without_commas-reverse_aux xs (x ∷ r))

length-reverse_aux : (xs r : List ℕ) → length (reverse_aux xs r) ≡ length xs + length r
length-reverse_aux [] r = omega arith
length-reverse_aux (x ∷ xs) r = omega (arith, length-reverse_aux xs (x ∷ r))

without_commas-separate_loop :
    (n : ℕ) (rs : List ℕ) → without_commas (separate_loop n rs) ≡ without_commas rs
unfolding separate_loop
without_commas-separate_loop n [] = refl
without_commas-separate_loop n (c ∷ rs) =
    ground (arith, without_commas-separate_loop 1 rs, without_commas-separate_loop (n + 1) rs)

length-separate_loop :
    (n : ℕ) (rs : List ℕ)
    → n ≤ 3
    → length (separate_loop n rs) ≡ length rs + (n + length rs - 1) / 3
unfolding separate_loop
length-separate_loop n [] h = omega arith
length-separate_loop n (c ∷ rs) h =
    ground (arith, length-separate_loop 1 rs (omega arith), length-separate_loop (n + 1) rs)

-- The digits with a comma behind each that has a positive multiple of three digits behind it.
abbrev pub grouped : List ℕ → List ℕ
grouped [] = []
grouped (d ∷ ds) =
    let rest = grouped ds in
    if ltb 0 (length ds) && (length ds % 3 == 0) then d ∷ comma ∷ rest else d ∷ rest

-- After a number of digits the counter is 0 at the start, else from 1 to 3.
abbrev counter_after : ℕ → ℕ
counter_after n = if n == 0 then 0 else (n - 1) % 3 + 1

grouped-cons :
    (d : ℕ) (ds : List ℕ)
    → grouped (d ∷ ds)
      ≡ (if counter_after (length ds) == 3 then d ∷ comma ∷ grouped ds else d ∷ grouped ds)
grouped-cons d ds = ground arith

-- The loop goes on in front of the digits that are behind.
separate_loop-grouped :
    (n : ℕ) (rs behind : List ℕ)
    → n ≡ counter_after (length behind)
    → reverse_aux (separate_loop n rs) (grouped behind) ≡ grouped (reverse_aux rs behind)
unfolding separate_loop
separate_loop-grouped n [] behind h = refl
separate_loop-grouped n (c ∷ rs) behind h = elim (Bool-cases (n == 3)) [
  | inl e ↦
      let rest = separate_loop-grouped 1 rs (c ∷ behind) (ground (arith, h, e)) in
      let now : grouped (c ∷ behind) ≡ c ∷ comma ∷ grouped behind =
        ground (arith, grouped-cons c behind, h, e) in
      ground (arith, e, now, rest)
  | inr e ↦
      let rest = separate_loop-grouped (n + 1) rs (c ∷ behind) (ground (arith, h, e)) in
      let now : grouped (c ∷ behind) ≡ c ∷ grouped behind =
        ground (arith, grouped-cons c behind, h, e) in
      ground (arith, e, now, rest)
]

-- `separate_num` of digits that hold no comma gives the digits in order with a comma behind each
-- digit that has a positive multiple of three digits behind it, and nothing else: without its
-- commas the result is the digits, and it is longer by a third of their number less one.
pub without_commas-separate_num :
    (digits : List ℕ)
    → without_commas digits ≡ digits
    → (separate_num digits ≡ grouped digits)
      × (without_commas (separate_num digits) ≡ digits)
      × (length (separate_num digits) ≡ length digits + (length digits - 1) / 3)
unfolding separate_num
without_commas-separate_num digits plain = (
  separate_loop-grouped 0 (reverse digits) [] refl ∙ ap grouped (reverse-reverse digits),
  without_commas-reverse_aux (separate_loop 0 (reverse digits)) []
      ∙ ap reverse (
          without_commas-separate_loop 0 (reverse digits)
          ∙ without_commas-reverse_aux digits []
          ∙ ap reverse plain)
      ∙ reverse-reverse digits,
  omega (
    arith,
    length-reverse_aux (separate_loop 0 (reverse digits)) [],
    length-separate_loop 0 (reverse digits) (omega arith),
    length-reverse_aux digits [],
  ),
)
