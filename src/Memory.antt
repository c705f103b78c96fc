-- ===== src/Memory.antt =====
-- The memory that the tree, its nodes and its caches live in: blocks of longs at addresses. A read or
-- write outside a live block is a fault, and so is giving back a block that is not live. The
-- allocators of the kernel are a parameter: `Env` says which address a request is given.
pub mod Put
use btree_profiling.Common.{ℕ, ◌+◌, Bool, not, ◌&&◌, ltb, leb, ◌==◌, if◌then◌else◌}

abbrev pub Addr : Type 0
Addr = ℕ

abbrev pub null : Addr
null = 0

-- An array of longs, as read from its first word on.
abbrev pub Words : Type 0
Words = ℕ → ℕ

-- `struct cbtree_head`
pub record Head : Type 0 where
  pub node : Addr
  pub mempool : Addr
  pub height : ℕ

-- `size` is the length of each live block in longs, 0 at an address where none lives. `word a i` is
-- long `i` of block `a`. `head` is the tree that the running function was handed.
pub record State : Type 0 where
  pub size : Addr → ℕ
  pub word : Addr → Words
  pub head : Head

-- `bug` is a failed `BUG_ON`, `fault` an access that C leaves undefined.
pub data Run (A : Type 0) : Type 0 where
  ok : A → State → Run A
  bug : Run A
  fault : Run A
  out_of_fuel : Run A

abbrev pub Cmd : Type 0 → Type 0
Cmd A = State → Run A

abbrev pub pure : {A : Type 0} → A → Cmd A
pure = ok

module _ {A B : Type 0} where
  abbrev pub and_then : Run A → (A → Cmd B) → Run B
  and_then (ok a s) k = k a s
  and_then bug k = bug
  and_then fault k = fault
  and_then out_of_fuel k = out_of_fuel

  infixl 5 ◌>>=◌ ◌>>◌
  abbrev pub ◌>>=◌ : Cmd A → (A → Cmd B) → Cmd B
  m >>= k = λ s. and_then (m s) k

  abbrev pub ◌>>◌ : Cmd A → Cmd B → Cmd B
  m >> n = m >>= λ _. n

abbrev pub faulting : {A : Type 0} → Cmd A
faulting = λ _. fault

abbrev pub starving : {A : Type 0} → Cmd A
starving = λ _. out_of_fuel

-- `BUG_ON(b)`
unfoldable pub bug_on : Bool → Cmd (Unit {0})
bug_on b s = if b then bug else ok tt s

-- One word or one block changed.
unfoldable pub update : {A : Type 0} → (ℕ → A) → ℕ → A → ℕ → A
update f i v j = if j == i then v else f j

unfoldable pub in_block : State → Addr → ℕ → Bool
in_block s a i = not (a == null) && ltb i (s.size a)

-- `a[i]`
unfoldable pub load : Addr → ℕ → Cmd ℕ
unfolding in_block
load a i s = if in_block s a i then ok (s.word a i) s else fault

unfoldable pub set_words : State → Addr → Words → State
unfolding update
set_words s a w = record s { word = update s.word a w }

-- `a[i] = v`
unfoldable pub store : Addr → ℕ → ℕ → Cmd (Unit {0})
unfolding in_block set_words update
store a i v s = if in_block s a i then ok tt (set_words s a (update (s.word a) i v)) else fault

-- `kfree` and `mempool_free`: both accept `NULL`.
unfoldable pub release : Addr → Cmd (Unit {0})
unfolding update
release a s =
    if a == null
    then ok tt s
    else if s.size a == 0
    then fault
    else ok tt (record s { size = update s.size a 0 })

unfoldable pub get_head : Cmd Head
get_head s = ok s.head s

unfoldable pub set_head : Head → Cmd (Unit {0})
set_head h s = ok tt (record s { head = h })

-- What the allocators of the kernel answer in a state: an address, or `NULL` when memory is out.
pub record Env : Type 0 where
  -- `NODESIZE` in longs
  pub node_words : ℕ
  pub kmalloc : State → ℕ → Addr
  pub mempool_alloc : State → Addr
  pub mempool_create : State → Addr

unfoldable pub place : Addr → ℕ → Cmd Addr
unfolding update
place a n s = if a == null then ok null s else ok a (record s { size = update s.size a n })

-- A new block holds whatever its words held before.
unfoldable pub kmalloc : Env → ℕ → Cmd Addr
unfolding place
kmalloc env n s = place (env.kmalloc s n) n s

unfoldable pub mempool_alloc : Env → Cmd Addr
unfolding place
mempool_alloc env s = place (env.mempool_alloc s) env.node_words s

-- A pointer into a block, as `&node[n * keylen]`.
pub record Ptr : Type 0 where
  pub block : Addr
  pub offset : ℕ

abbrev pub ptr : Addr → ℕ → Ptr
ptr a i = record { block = a; offset = i }

unfoldable pub deref : Ptr → ℕ → Cmd ℕ
unfolding load
deref p i = load p.block (p.offset + i)

-- The first `n` longs at a pointer, which must lie in its block.
unfoldable pub read_words : ℕ → Ptr → Cmd Words
read_words n p s =
    if not (p.block == null) && leb (p.offset + n) (s.size p.block)
    then ok (λ i. s.word p.block (p.offset + i)) s
    else fault
