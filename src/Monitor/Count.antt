-- ===== src/Monitor/Count.antt =====
-- `find_ds_monitoring` of ds_monitoring.c counts the visits of each index.
use btree_profiling.Common.{
  ℕ, ◌+◌, ◌%◌, ◌≤◌, ◌≡◌, ◌≢◌, refl, ap, false, Bool-cases, inl, inr, Option, none, some, List,
  arith, ◌==◌, if◌then◌else◌,
}
use btree_profiling.Memory.{Addr, null, update}
use btree_profiling.Words.{word_mod}
use btree_profiling.Monitor.{
  Elem, Store, XArray, Ops, Monitor, insert_index, copy_name, insert_ds_monitoring, add_count,
  add_total, find_ds_monitoring,
}

-- `kmalloc` has memory, and answers a new address each time.
pub record IsAlloc (kmalloc : ℕ → Addr) : Type 0 where
  pub memory : (n : ℕ) → kmalloc n ≢ null
  pub distinct : (m n : ℕ) → kmalloc m ≡ kmalloc n → m ≡ n

module _ {X : Type 0} (xa : XArray X) where
  -- The counter of an index, 0 if it was never visited.
  unfoldable pub count_of : Monitor X → ℕ → ℕ
  count_of dm i =
      if xa.xa_load dm.elements i == null
      then 0
      else elim (dm.store.elem (xa.xa_load dm.elements i)) [ none ↦ 0 | some el ↦ el.count ]

  -- Every pointer of the array is to an element, which carries its index; what `kmalloc` will answer
  -- is no element.
  pub record IsMonitor (kmalloc : ℕ → Addr) (dm : Monitor X) : Type 0 where
    pub at : ℕ → Elem
    pub live :
        (i : ℕ)
        → xa.xa_load dm.elements i ≢ null
        → dm.store.elem (xa.xa_load dm.elements i) ≡ some (at i)
    pub keyed : (i : ℕ) → xa.xa_load dm.elements i ≢ null → (at i).key ≡ i
    pub fresh : (n : ℕ) → dm.store.calls ≤ n → dm.store.elem (kmalloc n) ≡ none

-- How the indices of the array change when one is visited.
pub record Listed {X : Type 0} (xa : XArray X) (dm dm' : Monitor X) (i : ℕ) : Type 0 where
  pub loads :
      (j : ℕ)
      → (xa.xa_load dm'.elements j == null)
        ≡ (if j == i then false else xa.xa_load dm.elements j == null)
  pub listed : xa.indices dm'.elements ≡ (
      if xa.xa_load dm.elements i == null
      then insert_index i (xa.indices dm.elements)
      else xa.indices dm.elements)

module _ {X : Type 0} (xa : XArray X) (kmalloc : ℕ → Addr) (dm dm' : Monitor X)
    (is : IsMonitor xa kmalloc dm) (i : ℕ) (a : Addr) (el : Elem) (ne : a ≢ null) (key : el.key ≡ i)
    (loads : (j : ℕ) → xa.xa_load dm'.elements j ≡ (if j == i then a else xa.xa_load dm.elements j))
    (elems : (b : Addr) → dm'.store.elem b ≡ (if b == a then some el else dm.store.elem b))
    (only : (j : ℕ) → xa.xa_load dm.elements j ≡ a → j ≡ i)
    (unused : (n : ℕ) → dm'.store.calls ≤ n → dm'.store.elem (kmalloc n) ≡ none) where
  -- One element put at an index, in the place of the one that stood there or at a new address.
  put-IsMonitor : IsMonitor xa kmalloc dm'
  put-IsMonitor = record {
    at = λ j. if j == i then el else is.at j;
    live = λ j h. ground (
      arith,
      loads j,
      elems (xa.xa_load dm'.elements j),
      only j,
      is.live j,
      ap dm.store.elem (loads j),
    );
    keyed = λ j h. ground (arith, loads j, is.keyed j, key);
    fresh = unused;
  }

  count_of-put : (j : ℕ) → count_of xa dm' j ≡ (if j == i then el.count else count_of xa dm j)
  unfolding count_of
  count_of-put j =
      ground
        (arith, loads j, elems (xa.xa_load dm'.elements j), only j, ap dm.store.elem (loads j), ne)

module _ {X E : Type 0} (xa : XArray X) (kmalloc : ℕ → Addr) (ops : Ops E)
    (ka : IsAlloc kmalloc) where
  -- With memory, a name is copied and no element changes.
  copied :
      (e : E) (s : Store) (get_name : Option (E → List ℕ))
      → ops.get_name ≡ get_name
      → (name : Addr) × (s' : Store) × (copy_name xa kmalloc ops e s ≡ some (name, s'))
        × (s'.elem ≡ s.elem)
        × (s.calls ≤ s'.calls)
  unfolding copy_name
  copied e s none same = (null, s, rw (same, copy_name) refl, refl, omega arith)
  copied e s (some get) same =
      let a = kmalloc s.calls in
      (
        a,
        record s { calls = s.calls + 1; text = update s.text a (some (get e)) },
        rw (same, copy_name) (ground (arith, ka.memory s.calls)),
        refl,
        omega arith,
      )

  add_total-IsMonitor :
      {dm : Monitor X}
      → IsMonitor xa kmalloc dm
      → IsMonitor xa kmalloc (add_total xa kmalloc ops dm)
  unfolding add_total
  add_total-IsMonitor is = record { at = is.at; live = is.live; keyed = is.keyed; fresh = is.fresh }

  module _ (get : E → ℕ) (indexed : ops.get_index ≡ some get) {dm : Monitor X}
      (is : IsMonitor xa kmalloc dm) (e : E) where
    -- The first visit of an index.
    find_first :
        xa.xa_load dm.elements (get e) ≡ null
        → (dm' : Monitor X) × (insert_ds_monitoring xa kmalloc ops dm (get e) e ≡ some dm')
          × IsMonitor xa kmalloc dm'
          × ((j : ℕ) → count_of xa dm' j ≡ (if j == get e then 1 else count_of xa dm j))
          × (dm'.total_counts ≡ dm.total_counts)
          × Listed xa dm dm' (get e)
    unfolding insert_ds_monitoring
    find_first empty =
        let i = get e in
        let new = kmalloc dm.store.calls in
        let before : Store = record dm.store {
          calls = dm.store.calls + 1;
          elem = update dm.store.elem new (some (record { key = i; name = null; count = 1 }));
        } in
        let (name, s', run, same, more) = copied e before ops.get_name refl in
        let el : Elem = record { key = i; name = name; count = 1 } in
        let x = xa.xa_store dm.elements i new in
        let dm' : Monitor X = record dm {
          elements = x;
          store = record s' { elem = update s'.elem new (some el) };
        } in
        let elems : (b : Addr)
            → dm'.store.elem b ≡ (if b == new then some el else dm.store.elem b) =
          λ b. ground (arith, ap (λ (g : Addr → Option Elem). g b) same) in
        let only : (j : ℕ) → xa.xa_load dm.elements j ≡ new → j ≡ i = λ j h. ground (
          arith,
          is.live j,
          is.fresh dm.store.calls (omega arith),
          ap dm.store.elem h,
          ka.memory dm.store.calls,
        ) in
        let loads = xa.load_store dm.elements i new in
        let unused : (n : ℕ) → dm'.store.calls ≤ n → dm'.store.elem (kmalloc n) ≡ none = λ n h.
          ground (
            arith,
            elems (kmalloc n),
            ka.distinct n dm.store.calls,
            is.fresh n (omega (arith, more)),
            more,
          ) in
        (
          dm',
          ground (arith, ka.memory dm.store.calls, run),
          put-IsMonitor xa kmalloc dm dm' is i new el (ka.memory dm.store.calls) refl loads elems
              only unused,
          count_of-put xa kmalloc dm dm' is i new el (ka.memory dm.store.calls) refl loads elems
              only unused,
          refl,
          record {
            loads = λ j. ground (arith, loads j, ka.memory dm.store.calls);
            listed =
                ground (
                  arith,
                  xa.indices_store dm.elements i new empty (ka.memory dm.store.calls),
                  empty,
                );
          },
        )

    -- A later visit.
    find_again :
        xa.xa_load dm.elements (get e) ≢ null
        → (dm' : Monitor X) × (add_count xa kmalloc ops dm (xa.xa_load dm.elements (get e))
            ≡ some dm')
          × IsMonitor xa kmalloc dm'
          × ((j : ℕ)
              → count_of xa dm' j
                ≡ (if j == get e then (count_of xa dm j + 1) % word_mod else count_of xa dm j))
          × (dm'.total_counts ≡ dm.total_counts)
          × Listed xa dm dm' (get e)
    unfolding add_count count_of
    find_again there =
        let i = get e in
        let cur = xa.xa_load dm.elements i in
        let el : Elem = record (is.at i) { count = ((is.at i).count + 1) % word_mod } in
        let dm' : Monitor X = record dm {
          store = record dm.store { elem = update dm.store.elem cur (some el) };
        } in
        let only : (j : ℕ) → xa.xa_load dm.elements j ≡ cur → j ≡ i =
          λ j h. ground (arith, is.live j, is.live i, is.keyed j, is.keyed i, ap dm.store.elem h) in
        let loads : (j : ℕ)
            → xa.xa_load dm.elements j ≡ (if j == i then cur else xa.xa_load dm.elements j) =
          λ j. ground (arith, ap (xa.xa_load dm.elements) {x = j} {y = i}) in
        let unused : (n : ℕ) → dm'.store.calls ≤ n → dm'.store.elem (kmalloc n) ≡ none = λ n h.
          ground (arith, is.fresh n h, is.live i, ap dm.store.elem {x = kmalloc n} {y = cur}) in
        (
          dm',
          ground (arith, is.live i),
          put-IsMonitor xa kmalloc dm dm' is i cur el there (is.keyed i there) loads (λ b. refl)
              only unused,
          λ j. ground (
            arith,
            count_of-put xa kmalloc dm dm' is i cur el there (is.keyed i there) loads (λ b. refl)
                only unused j,
            is.live i,
          ),
          refl,
          record {
            loads = λ j. ground (arith, there, ap (xa.xa_load dm.elements) {x = j} {y = i});
            listed = ground (arith, there);
          },
        )

    -- A visit keeps the monitor well formed: it succeeds, adds one to the count of the index
    -- visited and to the total, with wrap-around, leaves the counts of all other indices, and
    -- lists the index if it was not listed. The monitor has a function for indices, and `kmalloc`
    -- answers every call with a new block.
    pub find_ds_monitoring_lem :
        (dm' : Monitor X) × (find_ds_monitoring xa kmalloc ops dm e ≡ some dm')
        × IsMonitor xa kmalloc dm'
        × ((j : ℕ)
            → count_of xa dm' j
              ≡ (if j == get e then (count_of xa dm j + 1) % word_mod else count_of xa dm j))
        × (dm'.total_counts ≡ (dm.total_counts + 1) % word_mod)
        × Listed xa dm dm' (get e)
    unfolding find_ds_monitoring add_total count_of
    find_ds_monitoring_lem = elim (Bool-cases (xa.xa_load dm.elements (get e) == null)) [
      | inl h ↦
          let (dm', run, is', counts, total, listed) = find_first (ground (arith, h)) in
          (
            add_total xa kmalloc ops dm',
            ground (arith, indexed, h, run),
            add_total-IsMonitor is',
            λ j. ground (arith, counts j, h, ap (xa.xa_load dm.elements) {x = j} {y = get e}),
            ground (arith, total),
            record { loads = listed.loads; listed = listed.listed },
          )
      | inr h ↦
          let (dm', run, is', counts, total, listed) = find_again (ground (arith, h)) in
          (
            add_total xa kmalloc ops dm',
            ground (arith, indexed, h, run),
            add_total-IsMonitor is',
            counts,
            ground (arith, total),
            record { loads = listed.loads; listed = listed.listed },
          )
    ]
