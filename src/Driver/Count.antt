-- ===== src/Driver/Count.antt =====
-- One lookup of `find_element` of btree_profiling.c in a tree of one leaf with room, and one count of a key.
use btree_profiling.Common.{
  ℕ, ◌+◌, ◌%◌, ◌^◌, ◌≤◌, ◌<◌, ◌≡◌, ◌≢◌, refl, ap, Bool-cases, inl, inr, ◌&&◌, some, arith, ltb,
  ◌==◌, if◌then◌else◌,
}
use btree_profiling.Memory.{Addr, State, ok, update, ptr}
use btree_profiling.Words.{word_mod}
use btree_profiling.Words.Order.{value}
use btree_profiling.Node.{cbtree_geo32}
use btree_profiling.Node.Geometry.{geometry-Fits}
use btree_profiling.Node.Slots.{IsGeo}
use btree_profiling.Tree.Insert.Walk.{key_at}
use btree_profiling.Tree.Lookup.{cbtree_lookup}
use btree_profiling.Tree.Lookup.Leaf.{IsLeaf, cbtree_lookup-leaf, cbtree_lookup-zero}
use btree_profiling.Typed.{with_local, one_long}
use btree_profiling.Typed.Local.{
  IsStack, IsStack-Calm, Calm, IsLeaf-Calm, entered, left, left-Calm, entered-IsLeaf,
  entered-HoldsKey, local_run,
}
use btree_profiling.Clock.Timing.{Ktime, Calclock, ktput, add_interval}
use btree_profiling.Driver.{
  Kernel, World, done, on_memory, on_kernel, update_search_count, geo, ktget, find_element,
}

-- A call of `ktput` between readings in order.
ktput_run :
    (kt : Ktime) (cpu start end : ℕ) (clocks : ℕ → Calclock)
    → start ≤ end
    → end < 2 ^ 63
    → (clocks' : ℕ → Calclock) × (ktput kt cpu start end clocks ≡ some clocks')
      × ((clocks' cpu).count ≡ ((clocks cpu).count + 1) % word_mod)
      × ((i : ℕ) → i ≢ cpu → clocks' i ≡ clocks i)
unfolding ktput add_interval update
ktput_run kt cpu start end clocks order small =
    let in_order = kt.after start end (omega arith) small in
    (
      update clocks cpu (record {
        time = kt.ktime_add_safe (clocks cpu).time (kt.ktime_sub end start);
        count = ((clocks cpu).count + 1) % word_mod;
      }),
      ground (arith, in_order),
      ground arith,
      λ i o. ground arith,
    )

pub counted :
    {K : Type 0} (tree_size key : ℕ) (w : World K)
    → (c : ℕ → ℕ) × (update_search_count tree_size key w ≡ done tt (record w { search_counts = c }))
      × ((j : ℕ)
          → c j ≡ (
              if (j == key) && ltb key tree_size
              then (w.search_counts j + 1) % word_mod
              else w.search_counts j))
unfolding update_search_count update
counted tree_size key w = elim (Bool-cases (ltb key tree_size)) [
  | inl e ↦ (
    update w.search_counts key ((w.search_counts key + 1) % word_mod),
    ground (arith, e),
    λ j. ground (arith, e, ap w.search_counts {x = j} {y = key}),
  )
  | inr e ↦ (w.search_counts, ground (arith, e), λ j. ground (arith, e))
]

module _ {K : Type 0} (kn : Kernel K) (fuel : ℕ) where
  geo-IsGeo : IsGeo (geo kn fuel)
  geo-IsGeo = (geometry-Fits kn.nodesize 8 (inr refl)).0.0

  -- The tree is a leaf with room, and variables of the stack find room beside it.
  pub record IsReady (mem : State) (fill : ℕ) : Type 0 where
    pub leaf : IsLeaf (geo kn fuel) mem fill
    pub room : fill < (geo kn fuel).no_pairs
    pub stack : IsStack kn.stack mem

  pub IsReady-Calm : {s s' : State} {fill : ℕ} → IsReady s fill → Calm s s' → IsReady s' fill
  IsReady-Calm is c = record {
    leaf = (IsLeaf-Calm geo-IsGeo is.leaf c).0;
    room = is.room;
    stack = IsStack-Calm is.stack c;
  }

  lookup_run :
      {s : State} {fill : ℕ} (key : ℕ)
      → key < word_mod
      → IsReady s fill
      → (r : Addr) × (s' : State) × (with_local kn.stack 1
            (one_long key)
            (λ p. cbtree_lookup fuel (geo kn fuel) p)
            s
          ≡ ok r s')
        × Calm s s'
  unfolding cbtree_geo32 entered
  lookup_run {s} {fill} key small is =
      let g = geo-IsGeo in
      let (t, same) = entered-IsLeaf key s is.stack g is.leaf in
      let hk = entered-HoldsKey key s is.stack refl small in
      elim (Bool-cases (value (key_at (entered kn.stack key s) (ptr (kn.stack s) 0)) 1 == 0)) [
        | inl e ↦ (
          s.head.node,
          left kn.stack key s,
          local_run key s is.stack (λ p. cbtree_lookup fuel (geo kn fuel) p)
              (cbtree_lookup-zero g t hk fuel (ground (arith, e)) is.room),
          left-Calm key s is.stack,
        )
        | inr e ↦ (
          _,
          left kn.stack key s,
          local_run key s is.stack (λ p. cbtree_lookup fuel (geo kn fuel) p)
              (cbtree_lookup-leaf g t hk fuel (ground (arith, e))),
          left-Calm key s is.stack,
        )
      ]

  -- The kernel's state after a clock reading.
  abbrev pub read : K → K
  read k = (kn.ktime_get_raw k).1

  -- A lookup under the clock.
  pub record Lookup (key : ℕ) (w : World K) : Type 0 where
    pub r : Addr
    pub w' : World K
    pub run : find_element kn fuel key w ≡ done r w'
    pub calm : Calm w.mem w'.mem
    pub counts : w'.search_counts ≡ w.search_counts
    pub kernel_is : w'.kernel ≡ read (read (read (read w.kernel)))
    pub found :
        with_local kn.stack 1 (one_long key) (λ p. cbtree_lookup fuel (geo kn fuel) p) w.mem
        ≡ ok r w'.mem
    pub btree_here :
        (w'.btree_lookup_clock (kn.this_cpu (read (read w.kernel)))).count
        ≡ ((w.btree_lookup_clock (kn.this_cpu (read (read w.kernel)))).count + 1) % word_mod
    pub btree_others :
        (i : ℕ)
        → i ≢ kn.this_cpu (read (read w.kernel))
        → w'.btree_lookup_clock i ≡ w.btree_lookup_clock i
    pub cbtree_here :
        (w'.cbtree_lookup_clock (kn.this_cpu (read (read (read (read w.kernel)))))).count
        ≡ ((w.cbtree_lookup_clock (kn.this_cpu (read (read (read (read w.kernel)))))).count + 1)
          % word_mod
    pub cbtree_others :
        (i : ℕ)
        → i ≢ kn.this_cpu (read (read (read (read w.kernel))))
        → w'.cbtree_lookup_clock i ≡ w.cbtree_lookup_clock i

  pub find_element-Lookup :
      {fill : ℕ} (key : ℕ) (w : World K) → key < word_mod → IsReady w.mem fill → Lookup key w
  unfolding find_element ktget on_kernel on_memory
  find_element-Lookup key w small is =
      let k1 = (kn.ktime_get_raw w.kernel).1 in
      let k2 = (kn.ktime_get_raw k1).1 in
      let k3 = (kn.ktime_get_raw k2).1 in
      let k4 = (kn.ktime_get_raw k3).1 in
      let (c1, run1, more1, same1) =
        ktput_run kn.ktime (kn.this_cpu k2) (kn.ktime_get_raw w.kernel).0 (kn.ktime_get_raw k1).0
          w.btree_lookup_clock (kn.forward w.kernel) (kn.small k1) in
      let (r, s', found, calm) = lookup_run key small is in
      let (c2, run2, more2, same2) =
        ktput_run kn.ktime (kn.this_cpu k4) (kn.ktime_get_raw k2).0 (kn.ktime_get_raw k3).0
          w.cbtree_lookup_clock (kn.forward k2) (kn.small k3) in
      record {
        r = r;
        w' = record w { mem = s'; kernel = k4; btree_lookup_clock = c1; cbtree_lookup_clock = c2 };
        run = ground (arith, run1, found, run2);
        calm = calm;
        counts = refl;
        kernel_is = refl;
        found = found;
        btree_here = more1;
        btree_others = same1;
        cbtree_here = more2;
        cbtree_others = same2;
      }
