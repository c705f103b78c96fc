-- ===== src/Tests/Monitors.antt =====
-- The monitor at a concrete array, allocator and row of visits.
use btree_profiling.Common.{
  ℕ, ◌+◌, ◌%◌, ◌≡◌, ◌≤◌, refl, true, none, some, List, [], ◌∷◌, map, arith, ◌==◌, if◌then◌else◌,
}
use btree_profiling.Memory.{Addr, null}
use btree_profiling.Words.{word_mod}
use btree_profiling.Monitor.{
  XArray, Ops, Monitor, Line, insert_index, print_ds_monitoring, find_ds_monitoring,
}
use btree_profiling.Sums.{occurrences, times}
use btree_profiling.Monitor.Count.{count_of, IsAlloc, IsMonitor, find_ds_monitoring_lem, Listed}
use btree_profiling.Monitor.Visits.{visits}
use btree_profiling.Monitor.Report.{indexed_counts, percentages, print-visits}

-- An array as a function and the list of its indices.
record Slots : Type 0 where
  at : ℕ → Addr
  used : List ℕ

used-store :
    (x : Slots) (i : ℕ)
    → x.at i ≡ null
    → (if x.at i == null then insert_index i x.used else x.used) ≡ insert_index i x.used
used-store x i e = ground (arith, e)

abbrev slots : XArray Slots
slots = record {
  xa_load = λ x i. x.at i;
  xa_store = λ x i v. record {
    at = λ j. if j == i then v else x.at j;
    used = if x.at i == null then insert_index i x.used else x.used;
  };
  xa_destroy = λ x. record { at = λ _. null; used = [] };
  indices = λ x. x.used;
  load_store = λ x i v j. refl;
  load_destroy = λ x j. refl;
  indices_store = λ x i v e ne. used-store x i e;
}

answers-IsAlloc : IsAlloc (λ n. n + 1)
answers-IsAlloc = record { memory = λ n e. omega arith; distinct = λ m n e. omega arith }

-- Numbers are their own indices and have no names.
abbrev ops : Ops ℕ
ops = record { get_index = some (λ e. e); get_name = none }

abbrev start : Monitor Slots
start = record {
  elements = record { at = λ _. null; used = [] };
  total_counts = 0;
  store = record { calls = 0; elem = λ _. none; text = λ _. none };
}

start-IsMonitor : IsMonitor slots (λ n. n + 1) start
start-IsMonitor = record {
  at = λ _. record { key = 0; name = null; count = 0 };
  live = λ i h. absurd (h refl);
  keyed = λ i h. absurd (h refl);
  fresh = λ n h. refl;
}

abbrev visited : List ℕ
visited = 7 ∷ 3 ∷ 7 ∷ []

print-visits_example :
    (dm : Monitor Slots) × (lines : List Line) × (visits slots (λ n. n + 1) ops start visited
      ≡ some dm)
    × (print_ds_monitoring slots true dm ≡ some lines)
    × (indexed_counts lines ≡ map (λ i. (i, occurrences (λ e. e) i visited)) dm.elements.used)
    × ((i : ℕ) → times i dm.elements.used ≡ (if occurrences (λ e. e) i visited == 0 then 0 else 1))
    × (percentages lines ≤ 100)
print-visits_example =
    print-visits slots (λ n. n + 1) ops answers-IsAlloc (λ e. e) refl visited start (λ i. refl) refl
      (λ a. refl) refl (omega arith) (omega arith)

find_ds_monitoring_lem_example :
    (dm : Monitor Slots) × (find_ds_monitoring slots (λ n. n + 1) ops start 7 ≡ some dm)
    × IsMonitor slots (λ n. n + 1) dm
    × ((j : ℕ)
        → count_of slots dm j
          ≡ (if j == 7 then (count_of slots start j + 1) % word_mod else count_of slots start j))
    × (dm.total_counts ≡ 1)
    × Listed slots start dm 7
find_ds_monitoring_lem_example =
    find_ds_monitoring_lem slots (λ n. n + 1) ops answers-IsAlloc (λ e. e) refl start-IsMonitor 7
