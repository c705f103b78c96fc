-- ===== src/Monitor.antt =====
-- The data structure monitor, ds_monitoring.c: how often each index of a structure was visited. An
-- element and a name are blocks at addresses; `none` stands for an access that C leaves undefined.
pub mod Count
pub mod Visits
pub mod Report
use btree_profiling.Common.{
  ℕ, zero, suc, ◌+◌, ◌*◌, ◌/◌, ◌%◌, ◌^◌, ◌≡◌, ◌≢◌, Bool, true, false, ◌||◌, not, Option, none, some,
  List, [], ◌∷◌, leb, ◌==◌, if◌then◌else◌,
}
use btree_profiling.Memory.{Addr, null, update}
use btree_profiling.Words.{word_mod}

-- `struct ds_monitoring_elem`
pub record Elem : Type 0 where
  pub key : ℕ
  pub name : Addr
  pub count : ℕ

-- The blocks that `kmalloc` gave out: elements, and names as their characters. `calls` counts the calls.
pub record Store : Type 0 where
  pub calls : ℕ
  pub elem : Addr → Option Elem
  pub text : Addr → Option (List ℕ)

-- An index at its place among rising ones.
abbrev pub insert_index : ℕ → List ℕ → List ℕ
insert_index i [] = i ∷ []
insert_index i (j ∷ js) = if leb i j then i ∷ j ∷ js else j ∷ insert_index i js

-- The kernel's `struct xarray`: pointers at indices. `indices` are those that `xa_for_each` visits, from
-- the lowest on. Memory for the array's own nodes suffices.
pub record XArray (X : Type 0) : Type 0 where
  pub xa_load : X → ℕ → Addr
  pub xa_store : X → ℕ → Addr → X
  pub xa_destroy : X → X
  pub indices : X → List ℕ
  pub load_store :
      (x : X) (i : ℕ) (v : Addr) (j : ℕ)
      → xa_load (xa_store x i v) j ≡ (if j == i then v else xa_load x j)
  pub load_destroy : (x : X) (j : ℕ) → xa_load (xa_destroy x) j ≡ null
  pub indices_store :
      (x : X) (i : ℕ) (v : Addr)
      → xa_load x i ≡ null
      → v ≢ null
      → indices (xa_store x i v) ≡ insert_index i (indices x)

-- `struct ds_monitoring_operations`, without `print_elem`, whose calls are a result. `E` is the type of
-- the things that are watched.
pub record Ops (E : Type 0) : Type 0 where
  pub get_index : Option (E → ℕ)
  pub get_name : Option (E → List ℕ)

-- `struct ds_monitoring`, with the blocks that it names.
pub record Monitor (X : Type 0) : Type 0 where
  pub elements : X
  pub total_counts : ℕ
  pub store : Store

-- `kmalloc n` is what the kernel answers to call `n`.
module _ {X E : Type 0} (xa : XArray X) (kmalloc : ℕ → Addr) (ops : Ops E) where
  -- `new->name`: a copy of the name, or `NULL`. A copy to `NULL` is undefined.
  unfoldable pub copy_name : E → Store → Option (Addr × Store)
  unfolding update
  copy_name e s = elim ops.get_name [
    | none ↦ some (null, s)
    | some get ↦
        if kmalloc s.calls == null
        then none
        else some (
          kmalloc s.calls,
          record s { calls = s.calls + 1; text = update s.text (kmalloc s.calls) (some (get e)) },
        )
  ]

  -- `new->key` is written without a test of `new`.
  unfoldable pub insert_ds_monitoring : Monitor X → ℕ → E → Option (Monitor X)
  unfolding copy_name update
  insert_ds_monitoring dm index e =
      let new = kmalloc dm.store.calls in
      let s : Store = record dm.store {
        calls = dm.store.calls + 1;
        elem = update dm.store.elem new (some (record { key = index; name = null; count = 1 }));
      } in
      if new == null then none else elim (copy_name e s) [
        | none ↦ none
        | some (name, s') ↦ some (record dm {
          elements = xa.xa_store dm.elements index new;
          store = record s' {
            elem = update s'.elem new (some (record { key = index; name = name; count = 1 }));
          };
        })
      ]

  -- `__sync_fetch_and_add(&cur->count, 1)`
  unfoldable pub add_count : Monitor X → Addr → Option (Monitor X)
  unfolding update
  add_count dm cur = elim (dm.store.elem cur) [
    | none ↦ none
    | some el ↦ some (record dm {
      store = record dm.store {
        elem = update dm.store.elem cur (some (record el { count = (el.count + 1) % word_mod }));
      };
    })
  ]

  unfoldable pub add_total : Monitor X → Monitor X
  add_total dm = record dm { total_counts = (dm.total_counts + 1) % word_mod }

  unfoldable pub find_ds_monitoring : Monitor X → E → Option (Monitor X)
  unfolding insert_ds_monitoring add_count add_total
  find_ds_monitoring dm e = elim ops.get_index [
    | none ↦ some dm
    | some get ↦
        let cur = xa.xa_load dm.elements (get e) in
        elim (if cur == null then insert_ds_monitoring dm (get e) e else add_count dm cur) [
          | none ↦ none
          | some dm' ↦ some (add_total dm')
        ]
  ]

-- A call of `print_elem`.
pub record Line : Type 0 where
  pub index : ℕ
  pub name : Addr
  pub count : ℕ
  pub percentage : ℕ

-- An `int` keeps 32 bits of the quotient.
unfoldable pub percent : ℕ → ℕ → ℕ
percent count total = count * 100 % word_mod / total % 2 ^ 32

module _ {X : Type 0} (xa : XArray X) where
  -- `xa_for_each`, over the indices that are left
  unfoldable pub print_loop : Monitor X → List ℕ → Option (List Line)
  unfolding percent
  print_loop dm [] = some []
  print_loop dm (i ∷ is) =
      let rest = print_loop dm is in
      elim (dm.store.elem (xa.xa_load dm.elements i)) [
        | none ↦ none
        | some el ↦ elim rest [
          | none ↦ none
          | some lines ↦ some (
              record {
                index = i;
                name = el.name;
                count = el.count;
                percentage = percent el.count dm.total_counts;
              }
              ∷ lines)
        ]
      ]

  -- `has_print` tells whether `print_elem` is there.
  unfoldable pub print_ds_monitoring : Bool → Monitor X → Option (List Line)
  unfolding print_loop
  print_ds_monitoring has_print dm =
      let lines = print_loop dm (xa.indices dm.elements) in
      if (dm.total_counts == 0) || not has_print then some [] else lines

  -- `kfree` of a name, which may be `NULL`
  unfoldable pub free_name : Addr → Store → Option Store
  unfolding update
  free_name a s = if a == null then some s else elim (s.text a) [
    | none ↦ none
    | some name ↦ some (record s { text = update s.text a none })
  ]

  unfoldable pub delete_loop : X → List ℕ → Store → Option Store
  unfolding free_name update
  delete_loop x [] s = some s
  delete_loop x (i ∷ is) s = elim (s.elem (xa.xa_load x i)) [
    | none ↦ none
    | some el ↦ elim (free_name el.name s) [
      | none ↦ none
      | some s' ↦ delete_loop x is (record s' { elem = update s'.elem (xa.xa_load x i) none })
    ]
  ]

  unfoldable pub delete_ds_monitoring : Monitor X → Option (Monitor X)
  unfolding delete_loop
  delete_ds_monitoring dm = elim (delete_loop dm.elements (xa.indices dm.elements) dm.store) [
    | none ↦ none
    | some s ↦ some (record dm { elements = xa.xa_destroy dm.elements; store = s })
  ]
