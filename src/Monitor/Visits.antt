-- ===== src/Monitor/Visits.antt =====
-- A row of visits of ds_monitoring.c: the counts of all indices.
use btree_profiling.Common.{
  ℕ, suc, ◌+◌, ◌%◌, ◌≡◌, ◌≢◌, refl, ap, subst, fun_ext, Option, none, some, List, [], ◌∷◌, arith,
  ◌==◌, if◌then◌else◌, length,
}
use btree_profiling.Memory.{Addr, null}
use btree_profiling.Words.{word_mod}
use btree_profiling.Monitor.{XArray, Ops, Monitor, insert_index, find_ds_monitoring}
use btree_profiling.Sums.{occurrences, times, sum_over, sum_over-add}
use btree_profiling.Monitor.Count.{count_of, IsAlloc, IsMonitor, Listed, find_ds_monitoring_lem}

-- The visits of a list of things, one after the other.
unfoldable pub visits :
    {X E : Type 0} → XArray X → (ℕ → Addr) → Ops E → Monitor X → List E → Option (Monitor X)
unfolding find_ds_monitoring
visits xa kmalloc ops dm [] = some dm
visits xa kmalloc ops dm (e ∷ es) = elim (find_ds_monitoring xa kmalloc ops dm e) [
  | none ↦ none
  | some dm' ↦ visits xa kmalloc ops dm' es
]

times-insert_index :
    (j i : ℕ) (js : List ℕ)
    → times j (insert_index i js) ≡ (if j == i then suc (times j js) else times j js)
times-insert_index j i [] = refl
times-insert_index j i (k ∷ js) = ground (arith, times-insert_index j i js)

sum_over-insert_index :
    (f : ℕ → ℕ) (i : ℕ) (js : List ℕ) → sum_over f (insert_index i js) ≡ f i + sum_over f js
sum_over-insert_index f i [] = refl
sum_over-insert_index f i (k ∷ js) = ground (arith, sum_over-insert_index f i js)

-- The array lists each visited index once, and the numbers `c` of the indices add up to `t`.
pub record IsSummed {X : Type 0} (xa : XArray X) (dm : Monitor X) (c : ℕ → ℕ) (t : ℕ) : Type 0 where
  pub once :
      (j : ℕ)
      → times j (xa.indices dm.elements) ≡ (if xa.xa_load dm.elements j == null then 0 else 1)
  pub unvisited : (j : ℕ) → xa.xa_load dm.elements j ≡ null → c j ≡ 0
  pub visited : (j : ℕ) → xa.xa_load dm.elements j ≢ null → c j ≢ 0
  pub sum : sum_over c (xa.indices dm.elements) ≡ t

IsSummed-eq :
    {X : Type 0} (xa : XArray X) (dm : Monitor X) (c c' : ℕ → ℕ) (t t' : ℕ)
    → IsSummed xa dm c t
    → ((i : ℕ) → c i ≡ c' i)
    → t ≡ t'
    → IsSummed xa dm c' t'
IsSummed-eq xa dm c c' t t' s same e =
    subst (λ f. IsSummed xa dm f t') (fun_ext same) (subst (IsSummed xa dm c) e s)

Listed-IsSummed :
    {X : Type 0} (xa : XArray X) (dm dm' : Monitor X) (i : ℕ) (c : ℕ → ℕ) (t : ℕ)
    → Listed xa dm dm' i
    → IsSummed xa dm c t
    → IsSummed xa dm' (λ j. if j == i then c j + 1 else c j) (t + 1)
Listed-IsSummed xa dm dm' i c t l s = record {
  once = λ j. ground (
    arith,
    l.loads j,
    l.listed,
    s.once j,
    times-insert_index j i (xa.indices dm.elements),
    ap (xa.xa_load dm.elements) {x = j} {y = i},
  );
  unvisited = λ j h. ground (arith, l.loads j, s.unvisited j);
  visited = λ j h. ground (arith, l.loads j, s.visited j);
  sum = ground (
    arith,
    l.listed,
    s.sum,
    s.once i,
    s.unvisited i,
    sum_over-add c i (xa.indices dm.elements),
    sum_over-insert_index (λ j. if j == i then c j + 1 else c j) i (xa.indices dm.elements),
  );
}

module _ {X E : Type 0} (xa : XArray X) (kmalloc : ℕ → Addr) (ops : Ops E) (ka : IsAlloc kmalloc)
    (get : E → ℕ) (indexed : ops.get_index ≡ some get) where
  visits-count :
      (es : List E) (dm : Monitor X) (c : ℕ → ℕ) (t : ℕ)
      → IsMonitor xa kmalloc dm
      → ((i : ℕ) → count_of xa dm i ≡ c i % word_mod)
      → dm.total_counts ≡ t % word_mod
      → IsSummed xa dm c t
      → (dm' : Monitor X) × (visits xa kmalloc ops dm es ≡ some dm')
        × IsMonitor xa kmalloc dm'
        × ((i : ℕ) → count_of xa dm' i ≡ (c i + occurrences get i es) % word_mod)
        × (dm'.total_counts ≡ (t + length es) % word_mod)
        × IsSummed xa dm' (λ i. c i + occurrences get i es) (t + length es)
  unfolding visits
  visits-count [] dm c t is counts total sums = (
    dm,
    refl,
    is,
    λ i. ground (arith, counts i),
    ground (arith, total),
    IsSummed-eq xa dm c (λ i. c i + 0) t (t + 0) sums (λ i. omega arith) (omega arith),
  )
  visits-count (e ∷ es) dm c t is counts total sums =
      let (dm', run, is', counts', total', listed) =
        find_ds_monitoring_lem xa kmalloc ops ka get indexed is e in
      let (dm2, run2, is2, counts2, total2, sums2) =
        visits-count es dm' (λ i. if i == get e then c i + 1 else c i) (t + 1) is'
          (λ i. ground (arith, counts' i, counts i)) (omega (arith, total', total))
          (Listed-IsSummed xa dm dm' (get e) c t listed sums) in
      (
        dm2,
        ground (arith, run, run2),
        is2,
        λ i. ground (arith, counts2 i),
        ground (arith, total2),
        IsSummed-eq xa dm2 _ _ _ _ sums2 (λ i. ground arith) (omega arith),
      )

  -- From an empty array the counters are the numbers of visits, and the array lists what was visited.
  pub visits-occurrences :
      (es : List E) (dm : Monitor X)
      → ((i : ℕ) → xa.xa_load dm.elements i ≡ null)
      → xa.indices dm.elements ≡ []
      → ((a : Addr) → dm.store.elem a ≡ none)
      → dm.total_counts ≡ 0
      → (dm' : Monitor X) × (visits xa kmalloc ops dm es ≡ some dm')
        × IsMonitor xa kmalloc dm'
        × ((i : ℕ) → count_of xa dm' i ≡ occurrences get i es % word_mod)
        × (dm'.total_counts ≡ length es % word_mod)
        × IsSummed xa dm' (λ i. occurrences get i es) (length es)
  unfolding count_of
  visits-occurrences es dm empty none_listed blank start =
      let (dm', run, is, counts, total, sums) =
        visits-count es dm (λ _. 0) 0
          (record {
            at = λ _. record { key = 0; name = null; count = 0 };
            live = λ i h. absurd (h (empty i));
            keyed = λ i h. absurd (h (empty i));
            fresh = λ n h. blank (kmalloc n);
          })
          (λ i. ground (arith, empty i)) (omega (arith, start))
          (record {
            once = λ j. ground (arith, none_listed, empty j);
            unvisited = λ j h. refl;
            visited = λ j h. absurd (h (empty j));
            sum = ground (arith, none_listed);
          }) in
      (
        dm',
        run,
        is,
        λ i. ground (arith, counts i),
        ground (arith, total),
        IsSummed-eq xa dm' _ _ _ _ sums (λ i. omega arith) (omega arith),
      )
