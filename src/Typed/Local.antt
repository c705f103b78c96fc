-- ===== src/Typed/Local.antt =====
-- A variable of the stack around a call that only reads: it comes and goes, and no live block changes.
use btree_profiling.Common.{ℕ, ◌<◌, ◌≡◌, ◌≢◌, refl, ap, sym, subst, ◌∙◌, List, arith}
use btree_profiling.Memory.{Addr, null, Head, State, Cmd, ok, Ptr, ptr, update, and_then}
use btree_profiling.Words.{word_mod}
use btree_profiling.Words.Order.{value}
use btree_profiling.Node.{Geo}
use btree_profiling.Node.Slots.{IsGeo, entries}
use btree_profiling.Node.Search.{IsNode}
use btree_profiling.Tree.Shape.{IsTree-live}
use btree_profiling.Tree.Prev.Frame.{IsKeyed, IsKeyed-frame}
use btree_profiling.Tree.Insert.Walk.{HoldsKey, key_at}
use btree_profiling.Tree.Lookup.Leaf.{IsLeaf}
use btree_profiling.Typed.{Stack, with_local, enter_local, leave_local, one_long}

-- The same blocks live, with the same words, under the same head.
pub record Calm (s s' : State) : Type 0 where
  pub words : (b : Addr) → s.size b ≢ 0 → s'.word b ≡ s.word b
  pub sizes : (b : Addr) → s'.size b ≡ s.size b
  pub head : s'.head ≡ s.head

pub Calm-refl : (s : State) → Calm s s
Calm-refl s = record { words = λ b h. refl; sizes = λ b. refl; head = refl }

pub Calm-trans : {s s1 s2 : State} → Calm s s1 → Calm s1 s2 → Calm s s2
Calm-trans c d = record {
  words = λ b h. d.words b (λ e. h (sym (c.sizes b) ∙ e)) ∙ c.words b h;
  sizes = λ b. d.sizes b ∙ c.sizes b;
  head = d.head ∙ c.head;
}

-- In `s`, and wherever the same blocks live, a new variable of the stack overlaps none of them.
pub record IsStack (stack : Stack) (s : State) : Type 0 where
  pub ne_null : (s' : State) → ((b : Addr) → s'.size b ≡ s.size b) → stack s' ≢ null
  pub free : (s' : State) → ((b : Addr) → s'.size b ≡ s.size b) → s'.size (stack s') ≡ 0

pub IsStack-Calm : {stack : Stack} {s s' : State} → IsStack stack s → Calm s s' → IsStack stack s'
IsStack-Calm is c = record {
  ne_null = λ s2 e. is.ne_null s2 (λ b. e b ∙ c.sizes b);
  free = λ s2 e. is.free s2 (λ b. e b ∙ c.sizes b);
}

module _ {geo : Geo} {s : State} {fill : ℕ} where
  -- A leaf survives where its block does.
  pub IsLeaf-frame :
      {s' : State}
      → IsLeaf geo s fill
      → s'.head ≡ s.head
      → s'.word s.head.node ≡ s.word s.head.node
      → s'.size s.head.node ≡ s.size s.head.node
      → IsLeaf geo s' fill
        × (entries geo (s'.word s'.head.node) fill ≡ entries geo (s.word s.head.node) fill)
  IsLeaf-frame {s'} t head words size =
      let at : s'.head.node ≡ s.head.node = ap (λ (h : Head). h.node) head in
      let w : s'.word s'.head.node ≡ s.word s.head.node = ap s'.word at ∙ words in
      (
        record {
          height = ap (λ (h : Head). h.height) head ∙ t.height;
          root = record {
            ne_null = λ e. t.root.ne_null (sym at ∙ e);
            live = omega (arith, t.root.live, size, ap s'.size at);
            node = subst (λ u. IsNode geo u fill) (sym w) t.root.node;
            some_pair = t.root.some_pair;
          };
        },
        ap (λ u. entries geo u fill) w,
      )

  pub root_live : IsGeo geo → IsLeaf geo s fill → s.size s.head.node ≢ 0
  root_live g t = λ e. omega (arith, e, t.root.live, t.root.some_pair, t.root.node.within)

  pub IsLeaf-Calm :
      {s' : State}
      → IsGeo geo
      → IsLeaf geo s fill
      → Calm s s'
      → IsLeaf geo s' fill
        × (entries geo (s'.word s'.head.node) fill ≡ entries geo (s.word s.head.node) fill)
  IsLeaf-Calm g t c =
      IsLeaf-frame t c.head (c.words s.head.node (root_live g t)) (c.sizes s.head.node)

-- A tree survives where its blocks do.
pub IsKeyed-Calm :
    {geo : Geo} {s s' : State} {b d : ℕ} {es : List (ℕ × ℕ)} {fp : List Addr}
    → IsGeo geo
    → IsKeyed geo s b d es fp
    → Calm s s'
    → IsKeyed geo s' b d es fp
IsKeyed-Calm g t c =
    IsKeyed-frame g t c.head (record {
      words = λ a h. c.words a (IsTree-live g t.shape.tree a h);
      sizes = λ a h. c.sizes a;
    })

-- With the local variable in memory.
unfoldable pub entered : Stack → ℕ → State → State
entered stack k s = record s {
  size = update s.size (stack s) 1;
  word = update s.word (stack s) (one_long k);
}

-- And with it gone.
unfoldable pub left : Stack → ℕ → State → State
left stack k s = record (entered stack k s) {
  size = update (update s.size (stack s) 1) (stack s) 0;
}

module _ {stack : Stack} (k : ℕ) (s : State) (is : IsStack stack s) where
  pub left-Calm : Calm s (left stack k s)
  unfolding left entered update
  left-Calm = record {
    words = λ b h. ground (arith, is.free s (λ a. refl), ap s.size {x = b} {y = stack s});
    sizes = λ b. ground (arith, is.free s (λ a. refl), ap s.size {x = b} {y = stack s});
    head = refl;
  }

  pub entered-IsLeaf :
      {geo : Geo} {fill : ℕ}
      → IsGeo geo
      → IsLeaf geo s fill
      → IsLeaf geo (entered stack k s) fill
        × (entries geo ((entered stack k s).word s.head.node) fill
            ≡ entries geo (s.word s.head.node) fill)
  unfolding entered update
  entered-IsLeaf g t =
      let other : s.head.node ≢ stack s =
        λ e. root_live g t (ap s.size e ∙ is.free s (λ a. refl)) in
      IsLeaf-frame t refl (ground arith) (ground arith)

  pub entered-IsKeyed :
      {geo : Geo} {b d : ℕ} {es : List (ℕ × ℕ)} {fp : List Addr}
      → IsGeo geo
      → IsKeyed geo s b d es fp
      → IsKeyed geo (entered stack k s) b d es fp
  unfolding entered update
  entered-IsKeyed g t = IsKeyed-frame g t refl (record {
    words = λ a h. ground (
      arith,
      is.free s (λ b. refl),
      IsTree-live g t.shape.tree a h,
      ap s.size {x = a} {y = stack s},
    );
    sizes = λ a h. ground (
      arith,
      is.free s (λ b. refl),
      IsTree-live g t.shape.tree a h,
      ap s.size {x = a} {y = stack s},
    );
  })

  pub entered-HoldsKey :
      {geo : Geo}
      → geo.keylen ≡ 1
      → k < word_mod
      → HoldsKey geo (entered stack k s) (ptr (stack s) 0)
  unfolding entered update
  entered-HoldsKey one small = record {
    ne_null = is.ne_null s (λ a. refl);
    live = ground (arith, one);
    words = λ i p. ground (arith, small);
  }

  pub entered-key :
      (geo : Geo)
      → geo.keylen ≡ 1
      → value (key_at (entered stack k s) (ptr (stack s) 0)) geo.keylen ≡ k
  unfolding entered update value
  entered-key geo one = rw one (ground arith)

  pub local_run :
      {A : Type 0} {r : A} (f : Ptr → Cmd A)
      → f (ptr (stack s) 0) (entered stack k s) ≡ ok r (entered stack k s)
      → with_local stack 1 (one_long k) f s ≡ ok r (left stack k s)
  unfolding with_local enter_local leave_local entered left
  local_run f run = ap (λ r. and_then r (leave_local (stack s))) run
