-- ===== src/Monitor/Report.antt =====
-- What `print_ds_monitoring` of ds_monitoring.c reports after a row of visits.
use btree_profiling.Common.{
  ℕ, ◌+◌, ◌*◌, ◌≤◌, ◌<◌, ◌≡◌, ◌≢◌, refl, ap, fun_ext, ◌∙◌, true, none, some, List, [], ◌∷◌, map,
  arith, ◌==◌, if◌then◌else◌, length,
}
use btree_profiling.Memory.{Addr, null}
use btree_profiling.Words.{word_mod}
use btree_profiling.Monitor.{XArray, Ops, Monitor, Line, percent, print_loop, print_ds_monitoring}
use btree_profiling.Sums.{occurrences, times, sum_over}
use btree_profiling.Monitor.Count.{count_of, IsAlloc, IsMonitor}
use btree_profiling.Monitor.Visits.{visits, visits-occurrences}

percent_le : (c t : ℕ) → 0 < t → percent c t * t ≤ c * 100
unfolding percent
percent_le c t h = grind arith

module _ {X : Type 0} (xa : XArray X) {kmalloc : ℕ → Addr} {dm : Monitor X}
    (is : IsMonitor xa kmalloc dm) where
  line_of : ℕ → Line
  line_of j = record {
    index = j;
    name = (is.at j).name;
    count = count_of xa dm j;
    percentage = percent (count_of xa dm j) dm.total_counts;
  }

  print_loop-lines :
      (js : List ℕ)
      → ((j : ℕ) → times j js ≢ 0 → xa.xa_load dm.elements j ≢ null)
      → print_loop xa dm js ≡ some (map line_of js)
  unfolding print_loop line_of count_of
  print_loop-lines [] there = refl
  print_loop-lines (j ∷ js) there =
      ground (arith, is.live j, there j, print_loop-lines js (λ i h. there i (ground arith)))

sum_percent :
    (c : ℕ → ℕ) (t : ℕ) (js : List ℕ)
    → 0 < t
    → sum_over (λ j. percent (c j) t) js * t ≤ sum_over c js * 100
sum_percent c t [] h = omega arith
sum_percent c t (j ∷ js) h = grind (arith, percent_le (c j) t h, sum_percent c t js h)

le_of_mul : (p t : ℕ) → 0 < t → p * t ≤ t * 100 → p ≤ 100
le_of_mul p t h e = grind arith

abbrev pub percentages : List Line → ℕ
percentages [] = 0
percentages (l ∷ ls) = l.percentage + percentages ls

abbrev pub indexed_counts : List Line → List (ℕ × ℕ)
indexed_counts [] = []
indexed_counts (l ∷ ls) = (l.index, l.count) ∷ indexed_counts ls

sum_over_le : (f g : ℕ → ℕ) (js : List ℕ) → ((j : ℕ) → f j ≡ g j) → sum_over f js ≡ sum_over g js
sum_over_le f g [] h = refl
sum_over_le f g (j ∷ js) h = omega (arith, h j, sum_over_le f g js h)

module _ {X : Type 0} (xa : XArray X) {kmalloc : ℕ → Addr} {dm : Monitor X}
    (is : IsMonitor xa kmalloc dm) where
  lines-percentages :
      (js : List ℕ)
      → percentages (map (line_of xa is) js)
        ≡ sum_over (λ j. percent (count_of xa dm j) dm.total_counts) js
  unfolding line_of
  lines-percentages [] = refl
  lines-percentages (j ∷ js) = omega (arith, lines-percentages js)

  lines-counts :
      (js : List ℕ) → indexed_counts (map (line_of xa is) js) ≡ map (λ j. (j, count_of xa dm j)) js
  unfolding line_of
  lines-counts [] = refl
  lines-counts (j ∷ js) = ap (◌∷◌ (j, count_of xa dm j)) (lines-counts js)

occurrences-le-length :
    {E : Type 0} (get : E → ℕ) (i : ℕ) (es : List E) → occurrences get i es ≤ length es
occurrences-le-length get i [] = omega arith
occurrences-le-length get i (e ∷ es) = ground (arith, occurrences-le-length get i es)

module _ {X E : Type 0} (xa : XArray X) (kmalloc : ℕ → Addr) (ops : Ops E) (ka : IsAlloc kmalloc)
    (get : E → ℕ) (indexed : ops.get_index ≡ some get) where
  -- After a row of visits, at least one and fewer than 2 ^ 64, from an empty monitor, the report
  -- lists every visited index once, in the order of the array, each with the number of its
  -- visits, and the percentages add up to 100 at most. The monitor has a function for indices and
  -- one that prints, and `kmalloc` answers every call with a new block.
  pub print-visits :
      (es : List E) (dm : Monitor X)
      → ((i : ℕ) → xa.xa_load dm.elements i ≡ null)
      → xa.indices dm.elements ≡ []
      → ((a : Addr) → dm.store.elem a ≡ none)
      → dm.total_counts ≡ 0
      → 0 < length es
      → length es < word_mod
      → (dm' : Monitor X) × (lines : List Line) × (visits xa kmalloc ops dm es ≡ some dm')
        × (print_ds_monitoring xa true dm' ≡ some lines)
        × (indexed_counts lines ≡ map (λ i. (i, occurrences get i es)) (xa.indices dm'.elements))
        × ((i : ℕ)
            → times i (xa.indices dm'.elements) ≡ (if occurrences get i es == 0 then 0 else 1))
        × (percentages lines ≤ 100)
  unfolding print_ds_monitoring
  print-visits es dm empty none_listed blank start some_visit small =
      let (dm', run, is, counts, total, sums) =
        visits-occurrences xa kmalloc ops ka get indexed es dm empty none_listed blank start in
      let js = xa.indices dm'.elements in
      let exact : (i : ℕ) → count_of xa dm' i ≡ occurrences get i es =
        λ i. omega (arith, counts i, occurrences-le-length get i es) in
      let t : dm'.total_counts ≡ length es = omega (arith, total) in
      (
        dm',
        map (line_of xa is) js,
        run,
        ground (arith, print_loop-lines xa is js (λ j h. ground (arith, sums.once j)), t),
        lines-counts xa is js
            ∙ ap (λ (f : ℕ → ℕ × ℕ). map f js) (fun_ext λ i. ap (λ c. (i, c)) (exact i)),
        λ i. ground (arith, sums.once i, sums.unvisited i, sums.visited i),
        le_of_mul (percentages (map (line_of xa is) js)) (length es) some_visit (
            omega (
              arith,
              ap (λ (p : ℕ). p * length es) (lines-percentages xa is js),
              ap (λ (n : ℕ). sum_over (λ j. percent (count_of xa dm' j) n) js * length es) t,
              sum_percent (count_of xa dm') (length es) js some_visit,
              sum_over_le (count_of xa dm') (λ i. occurrences get i es) js exact,
              sums.sum,
            )),
      )
