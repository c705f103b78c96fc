-- ===== src/Cache/Init/Links.antt =====
-- The entries that `initQueue` of cbtree_cache.c makes, one after the other.
use btree_profiling.Common.{ℕ, suc, ◌≡◌, ◌≢◌, refl, ap, sym, ◌∙◌, arith}
use btree_profiling.Memory.{Addr, null, Words, State, Env, ok, store, kmalloc}
use btree_profiling.Cache.Lookup.{Entry}
use btree_profiling.Cache.{make_entries}
use btree_profiling.Memory.Put.{Put, store-Put}
use btree_profiling.Cache.Init.{HasMemory, HasMemory-sizes, Frame, Put-Frame, kmalloc_run}

-- One entry made: its states, and what it leaves.
pub record NewEntry (env : Env) (k : ℕ) (s : State) : Type 0 where
  pub curr : Addr
  pub key : Addr
  pub s1 : State
  pub s2 : State
  pub s3 : State
  pub s4 : State
  pub s' : State
  pub run1 : kmalloc env 3 s ≡ ok curr s1
  pub run2 : store curr 0 null s1 ≡ ok tt s2
  pub run3 : store curr 2 null s2 ≡ ok tt s3
  pub run4 : kmalloc env 2 s3 ≡ ok key s4
  pub run5 : store curr 1 key s4 ≡ ok tt s'
  pub frame : Frame s s'
  pub memory : HasMemory env k s'
  pub entry : Entry s' curr null key null
  pub new : s.size curr ≡ 0
  pub key_new : s.size key ≡ 0

module _ {env : Env} {k : ℕ} {s s1 s2 s3 : State} {curr : Addr}
    (run1 : kmalloc env 3 s ≡ ok curr s1) (run2 : store curr 0 null s1 ≡ ok tt s2)
    (run3 : store curr 2 null s2 ≡ ok tt s3) (p2 : Put s1 curr 0 null s2)
    (p3 : Put s2 curr 2 null s3) (f3 : Frame s s3) (ne : curr ≢ null) (size3 : s3.size curr ≡ 3)
    (new : s.size curr ≡ 0) where
  -- The entry with its key's block made.
  keyed_entry :
      {key : Addr} {s4 s5 : State}
      → kmalloc env 2 s3 ≡ ok key s4
      → store curr 1 key s4 ≡ ok tt s5
      → ((b : Addr) → s4.word b ≡ s3.word b)
      → Put s4 curr 1 key s5
      → Frame s s4
      → HasMemory env k s4
      → key ≢ null
      → s4.size key ≡ 2
      → s.size key ≡ 0
      → s4.size curr ≡ 3
      → NewEntry env k s
  keyed_entry {key} {s4} {s5} run4 run5 words4 p5 f4 m4 key_ne size4 key_new kept = record {
    curr = curr;
    key = key;
    s1 = s1;
    s2 = s2;
    s3 = s3;
    s4 = s4;
    s' = s5;
    run1 = run1;
    run2 = run2;
    run3 = run3;
    run4 = run4;
    run5 = run5;
    frame = Put-Frame curr 1 key f4 new p5;
    memory = HasMemory-sizes env k s4 s5 p5.sizes m4;
    entry = record {
      ne_null = ne;
      live = omega (arith, p5.sizes curr, kept);
      node_is =
          p5.beside 0 (λ e. omega arith)
          ∙ ap (λ (w : Words). w 0) (words4 curr)
          ∙ p3.beside 0 (λ e. omega arith)
          ∙ p2.at;
      key_is = p5.at;
      next_is = p5.beside 2 (λ e. omega arith) ∙ ap (λ (w : Words). w 2) (words4 curr) ∙ p3.at;
      key_ne_null = key_ne;
      key_live = p5.sizes key ∙ size4;
    };
    new = new;
    key_new = key_new;
  }

  unkeyed_entry : HasMemory env (suc k) s3 → NewEntry env k s
  unkeyed_entry m3 =
      let (key, s4, run4, f4, m4, key_ne, size4, key_new, sizes4, free4, words4) =
        kmalloc_run env k 2 f3 m3 in
      let kept : s4.size curr ≡ 3 =
        sizes4 curr (λ e. omega (arith, size3, free4, ap s3.size e)) ∙ size3 in
      let (s5, run5, p5) = store-Put curr 1 key s4 ne (omega (arith, kept)) in
      keyed_entry run4 run5 words4 p5 f4 m4 key_ne size4 key_new kept

bare_entry :
    {env : Env} {k : ℕ} {s s1 : State} {curr : Addr}
    → kmalloc env 3 s ≡ ok curr s1
    → Frame s s1
    → HasMemory env (suc k) s1
    → curr ≢ null
    → s1.size curr ≡ 3
    → s.size curr ≡ 0
    → NewEntry env k s
bare_entry {env} {k} {s} {s1} {curr} run1 f1 m1 ne size1 new =
    let (s2, run2, p2) = store-Put curr 0 null s1 ne (omega (arith, size1)) in
    let (s3, run3, p3) = store-Put curr 2 null s2 ne (omega (arith, size1, p2.sizes curr)) in
    unkeyed_entry run1 run2 run3 p2 p3
      (Put-Frame curr 2 null (Put-Frame curr 0 null f1 new p2) new p3) ne
      (p3.sizes curr ∙ p2.sizes curr ∙ size1) new
      (HasMemory-sizes env (suc k) s1 s3 (λ a. p3.sizes a ∙ p2.sizes a) m1)

pub new_entry : (env : Env) (k : ℕ) (s : State) → HasMemory env (suc (suc k)) s → NewEntry env k s
new_entry env k s m =
    let (curr, s1, run1, f1, m1, ne, size1, new, sizes1, free1, words1) =
      kmalloc_run env (suc k) 3 (record { words = λ b h. refl; sizes = λ b h. refl; head = refl })
        m in
    bare_entry run1 f1 m1 ne size1 new

-- The runs of the loop of `initQueue`.
pub make_first :
    {env : Env} {k : ℕ} {s : State} (n : ℕ) (e : NewEntry env k s)
    → make_entries env (suc n) null null s ≡ make_entries env n e.curr e.curr e.s'
unfolding make_entries
make_first n e = ground (arith, e.run1, e.run2, e.run3, e.run4, e.run5, e.entry.ne_null)

make_next :
    {env : Env} {k : ℕ} {s s' : State} (n first previous : ℕ) (e : NewEntry env k s)
    → first ≢ null
    → store previous 2 e.curr e.s' ≡ ok tt s'
    → make_entries env (suc n) first previous s ≡ make_entries env n first e.curr s'
unfolding make_entries
make_next n first previous e ne link =
    ground (arith, e.run1, e.run2, e.run3, e.run4, e.run5, e.entry.ne_null, ne, link)

-- `s'` is `s` with new blocks, and with changes to the block `a` at most.
pub record Except (a : Addr) (s s' : State) : Type 0 where
  pub words : (b : Addr) → s.size b ≢ 0 → b ≢ a → s'.word b ≡ s.word b
  pub sizes : (b : Addr) → s.size b ≢ 0 → s'.size b ≡ s.size b
  pub head : s'.head ≡ s.head

-- An entry that is not written keeps its fields.
pub Entry-Except :
    {s s' : State} {a x node key next : Addr}
    → Except a s s'
    → Entry s x node key next
    → x ≢ a
    → Entry s' x node key next
Entry-Except {s} {s'} {a} {x} {node} {key} f e ne =
    let same : s'.word x ≡ s.word x = f.words x (omega (arith, e.live)) ne in
    record {
      ne_null = e.ne_null;
      live = omega (arith, e.live, f.sizes x (omega (arith, e.live)));
      node_is = ap (λ (w : Words). w 0) same ∙ e.node_is;
      key_is = ap (λ (w : Words). w 1) same ∙ e.key_is;
      next_is = ap (λ (w : Words). w 2) same ∙ e.next_is;
      key_ne_null = e.key_ne_null;
      key_live = f.sizes key (omega (arith, e.key_live)) ∙ e.key_live;
    }

-- An entry whose next field is written.
pub Entry-link :
    {s s' : State} {x node key next y : Addr}
    → Entry s x node key next
    → Put s x 2 y s'
    → Entry s' x node key y
Entry-link {s} {s'} {x} {node} {key} e p = record {
  ne_null = e.ne_null;
  live = omega (arith, e.live, p.sizes x);
  node_is = p.beside 0 (λ h. omega arith) ∙ e.node_is;
  key_is = p.beside 1 (λ h. omega arith) ∙ e.key_is;
  next_is = p.at;
  key_ne_null = e.key_ne_null;
  key_live = p.sizes key ∙ e.key_live;
}

-- An entry made and linked behind the previous one.
pub record NextEntry (env : Env) (k : ℕ) (s : State) (previous previous_key : Addr) : Type 0 where
  pub curr : Addr
  pub key : Addr
  pub s' : State
  pub run :
      (n first : ℕ)
      → first ≢ null
      → make_entries env (suc n) first previous s ≡ make_entries env n first curr s'
  pub memory : HasMemory env k s'
  pub entry : Entry s' curr null key null
  pub linked : Entry s' previous null previous_key curr
  pub new : s.size curr ≡ 0
  pub key_new : s.size key ≡ 0
  pub except : Except previous s s'

link_entry :
    {env : Env} {k : ℕ} {s : State} {previous previous_key : Addr}
    → NewEntry env k s
    → Entry s previous null previous_key null
    → NextEntry env k s previous previous_key
link_entry {env} {k} {s} {previous} {previous_key} e before =
    let other : previous ≢ e.curr = λ h. omega (arith, before.live, e.new, ap s.size h) in
    let f : Except e.curr s e.s' = record {
      words = λ b h o. e.frame.words b h;
      sizes = e.frame.sizes;
      head = e.frame.head;
    } in
    let before' = Entry-Except f before other in
    let (s', run, p) =
      store-Put previous 2 e.curr e.s' before.ne_null (omega (arith, before'.live)) in
    record {
      curr = e.curr;
      key = e.key;
      s' = s';
      run = λ n first ne. make_next n first previous e ne run;
      memory = HasMemory-sizes env k e.s' s' p.sizes e.memory;
      entry =
          Entry-Except
            (record { words = λ b h o. p.others b o; sizes = λ b h. p.sizes b; head = p.head })
            e.entry (λ h. other (sym h));
      linked = Entry-link before' p;
      new = e.new;
      key_new = e.key_new;
      except = record {
        words = λ b h o. p.others b o ∙ e.frame.words b h;
        sizes = λ b h. p.sizes b ∙ e.frame.sizes b h;
        head = p.head ∙ e.frame.head;
      };
    }

pub next_entry :
    {env : Env} {k : ℕ} {s : State} {previous previous_key : Addr}
    → HasMemory env (suc (suc k)) s
    → Entry s previous null previous_key null
    → NextEntry env k s previous previous_key
next_entry {env} {k} {s} {previous} {previous_key} m before =
    link_entry (new_entry env k s m) before
