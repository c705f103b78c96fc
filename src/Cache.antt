-- ===== src/Cache.antt =====
-- The cache of a node, cbtree_cache.c: a ring of four entries behind a queue. A `CircularQueue` is a
-- block of one long, its head; a `Node` has its fields in order; each key is a block of two longs.
-- `nodep` is a pointer into a node or, as the source passes it, the value of one of a node's words.
pub mod Lookup
pub mod Free
pub mod Fill
pub mod Init
pub mod Refill
use btree_profiling.Common.{
  ℕ, zero, suc, ◌+◌, ◌-◌, ◌%◌, Bool, true, false, ◌&&◌, leb, ltb, ◌==◌, if◌then◌else◌,
}
use btree_profiling.Memory.{
  Addr, null, Words, Run, Cmd, pure, ◌>>=◌, ◌>>◌, starving, load, store, release, Env, kmalloc, Ptr,
  ptr, deref,
}
use btree_profiling.Words.{word_mod}

-- The field of a `CircularQueue` and those of a `Node`.
abbrev pub queue_head : ℕ
queue_head = 0

abbrev pub node_field : ℕ
node_field = 0

abbrev pub key_field : ℕ
key_field = 1

abbrev pub next_field : ℕ
next_field = 2

-- Words behind the queue: how many entries point to the node, and whether it was deleted.
abbrev pub count_at : ℕ → ℕ
count_at arr_len = arr_len + 1

abbrev pub deleted_at : ℕ → ℕ
deleted_at arr_len = arr_len + 2

-- `while (curr) { temp = curr->next; kfree(curr); curr = temp; }`
unfoldable pub free_chain : ℕ → Addr → Cmd (Unit {0})
free_chain zero curr = starving
free_chain (suc k) curr =
    if curr == null
    then pure tt
    else do temp ← load curr next_field; release curr; free_chain k temp

-- The entries still to make, with the first and the previous one. The result is the first and the last
-- entry, or `NULL` twice if an entry could not be made and those before it were freed.
unfoldable pub make_entries : Env → ℕ → Addr → Addr → Cmd (Addr × Addr)
unfolding free_chain
make_entries env zero first previous = pure (first, previous)
make_entries env (suc k) first previous = do
  curr ← kmalloc env 3
  if curr == null then free_chain 5 first >> pure (null, null) else do
    store curr node_field null
    store curr next_field null
    key ← kmalloc env 2
    store curr key_field key
    if first == null
        then make_entries env k curr curr
        else do store previous next_field curr; make_entries env k first curr

unfoldable pub init_queue : Env → Ptr → Cmd (Unit {0})
init_queue env nodep = do
  q ← kmalloc env 1
  (first, last) ← make_entries env 4 null null
  if first == null then pure tt else do
    store last next_field first
    store q queue_head first
    store nodep.block nodep.offset q

-- `... && node[arr_len + 2] == 1`: the mark is read only if the first test holds.
unfoldable pub and_deleted : Bool → ℕ → Addr → Cmd Bool
and_deleted b arr_len node =
    if b then (do d ← load node (deleted_at arr_len); pure (d == 1)) else pure false

-- One round of the loop of `freeQueue` drops the claim of the next entry on its node, freeing a node
-- that was deleted and that no other entry names, and frees the entry at hand. The loop ends when it
-- is back at `first`.
unfoldable mutual
  unfolding and_deleted

  pub free_ring : ℕ → ℕ → Addr → Addr → Cmd (Unit {0})
  free_ring zero arr_len first curr = starving
  free_ring (suc k) arr_len first temp = do
    curr ← load temp next_field
    if curr == null then pure tt else do
      node ← load curr node_field
      count ← load node (count_at arr_len)
      dead ← and_deleted (leb count 1) arr_len node
      if dead
          then (do
            nodep ← load node arr_len
            free_queue k arr_len (ptr nodep 0)
            node' ← load curr node_field
            release node')
          else (do w ← load node 1; store node 1 ((w + word_mod - 1) % word_mod))
    key ← load temp key_field
    release key
    release temp
    if curr == first then pure tt else free_ring k arr_len first curr

  pub free_queue : ℕ → ℕ → Ptr → Cmd (Unit {0})
  free_queue zero arr_len nodep = starving
  free_queue (suc k) arr_len nodep = do
    q ← deref nodep 0
    first ← load q queue_head
    if first == null then pure tt else do free_ring k arr_len first first; release q

-- `for (i = 0; i < key_len; i++) head->key[i] = key[i];`
pub copy_key : ℕ → ℕ → Addr → Ptr → Cmd (Unit {0})
copy_key zero i entry key = pure tt
copy_key (suc n) i entry key = do
  to ← load entry key_field
  w ← deref key i
  store to i w
  copy_key n (suc i) entry key

-- The entry at the head gives up its node: one that was deleted, and that no other entry names, loses
-- its queue.
pub drop_entry : ℕ → ℕ → Addr → Cmd (Unit {0})
unfolding free_queue and_deleted
drop_entry fuel arr_len old = if old == null then pure tt else do
  count ← load old (count_at arr_len)
  dead ← and_deleted (count == 1) arr_len old
  if dead
      then free_queue fuel arr_len (ptr old 0)
      else store old (count_at arr_len) ((count + word_mod - 1) % word_mod)

unfoldable pub setcache : ℕ → Addr → Addr → Ptr → ℕ → ℕ → Cmd (Unit {0})
unfolding drop_entry copy_key
setcache fuel leaf_node call_node key arr_len key_len = do
  q ← load call_node arr_len
  entry ← load q queue_head
  old ← load entry node_field
  drop_entry fuel arr_len old
  count ← load leaf_node (count_at arr_len)
  store leaf_node (count_at arr_len) ((count + 1) % word_mod)
  head ← load q queue_head
  store head node_field leaf_node
  copy_key key_len 0 head key
  next ← load head next_field
  store q queue_head next

unfoldable pub get_node_value : Ptr → Cmd Addr
get_node_value nodep = do q ← deref nodep 0; curr ← load q queue_head; load curr node_field

-- `true` for 1, "they differ".
pub cachelongcmp_loop : ℕ → ℕ → Ptr → Ptr → Cmd Bool
cachelongcmp_loop zero i l1 l2 = pure false
cachelongcmp_loop (suc n) i l1 l2 = do
  a ← deref l1 i
  b ← deref l2 i
  if a == b then cachelongcmp_loop n (suc i) l1 l2 else pure true

unfoldable pub cachelongcmp : Ptr → Ptr → ℕ → Cmd Bool
unfolding cachelongcmp_loop
cachelongcmp l1 l2 n = cachelongcmp_loop n 0 l1 l2

-- Whether the entry answers the lookup.
unfoldable pub entry_hits : ℕ → Ptr → Addr → Cmd Bool
unfolding cachelongcmp
entry_hits arr_len key curr = do
  node ← load curr node_field
  if node == null then pure false else do
    d ← load node (deleted_at arr_len)
    if d == 1
        then pure false
        else do cached ← load curr key_field; cachelongcmp key (ptr cached 0) arr_len

-- `for (i = 0; i < 4; i++)`
pub find_loop : ℕ → ℕ → Ptr → Addr → Cmd Addr
unfolding entry_hits
find_loop zero arr_len key curr = pure null
find_loop (suc n) arr_len key curr = do
  hit ← entry_hits arr_len key curr
  if hit then load curr node_field else do next ← load curr next_field; find_loop n arr_len key next

unfoldable pub find_node : Ptr → Ptr → ℕ → Cmd Addr
unfolding find_loop
find_node nodep key arr_len = do
  q ← deref nodep 0
  curr ← load q queue_head
  found ← find_loop 4 arr_len key curr
  if found == null
      then (do
        head ← load q queue_head
        next ← load head next_field
        store q queue_head next
        pure null)
      else pure found
