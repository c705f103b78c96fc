-- ===== src/Tree/Insert/Step.antt =====
-- One level of `find_level` of cbtree_base.c on the way of a new key, and the caller's key that it reads.
use btree_profiling.Common.{
  ℕ, suc, ◌+◌, ◌-◌, ◌≤◌, ◌<◌, ◌≡◌, ◌≢◌, refl, ap, ◌∙◌, ◌⊎◌, inl, inr, Bool-cases, arith, ltb,
}
use btree_profiling.Memory.{Addr, null, Words, State, ok, Ptr, update, set_words}
use btree_profiling.Words.Order.{value, IsWords}
use btree_profiling.Node.{Geo, bval, setkey, getpos}
use btree_profiling.Node.Slots.{IsGeo, key_num, bval-setkey, key_num-setkey}
use btree_profiling.Node.Search.{IsNode, getpos_above, getpos_here, getpos-le-fill, bval_unused}
use btree_profiling.Node.Insert.{setkey-IsNode}
use btree_profiling.Tree.{write_node, read_key, descend}
use btree_profiling.Tree.Shape.{Holds, read_node-Holds}
use btree_profiling.Tree.Insert.Pick.{Lowered}

-- The key at a pointer into a block.
abbrev pub key_at : State → Ptr → Words
key_at s p i = s.word p.block (p.offset + i)

pub record HoldsKey (geo : Geo) (s : State) (p : Ptr) : Type 0 where
  pub ne_null : p.block ≢ null
  pub live : p.offset + geo.keylen ≤ s.size p.block
  pub words : IsWords (key_at s p) geo.keylen

pub read_key-HoldsKey :
    {geo : Geo} {s : State} {p : Ptr} → HoldsKey geo s p → read_key geo p s ≡ ok (key_at s p) s
unfolding read_key
read_key-HoldsKey h = ground arith

-- A step down: child `c` of the node, whose words are `w'` afterwards.
pub record Step (geo : Geo) (s : State) (p : Ptr) (a : Addr) (fill : ℕ) : Type 0 where
  pub c : ℕ
  pub s' : State
  pub run : descend geo a p s ≡ ok (bval geo (s.word a) c) s'
  pub inside : c < fill
  pub lowered : Lowered geo (s.word a) (s'.word a) c (value (key_at s p) geo.keylen)
  pub node : IsNode geo (s'.word a) fill
  pub above : (j : ℕ) → j < c → value (key_at s p) geo.keylen < key_num geo (s.word a) j
  pub last : (key_num geo (s'.word a) c ≡ key_num geo (s.word a) c) ⊎ (suc c ≡ fill)
  pub key_is :
      (key_num geo (s'.word a) c ≡ key_num geo (s.word a) c)
      ⊎ (key_num geo (s'.word a) c ≡ value (key_at s p) geo.keylen)
  pub same : (b : Addr) → b ≢ a → s'.word b ≡ s.word b
  pub sizes : (b : Addr) → s'.size b ≡ s.size b
  pub head : s'.head ≡ s.head

module _ {geo : Geo} (g : IsGeo geo) {s : State} {p : Ptr} (hk : HoldsKey geo s p) where
  Step-existing :
      {a : Addr} {fill : ℕ}
      → Holds geo s a fill
      → getpos geo (s.word a) (key_at s p) < fill
      → Step geo s p a fill
  unfolding descend
  Step-existing {a} {fill} h inside =
      let w = s.word a in
      let k = key_at s p in
      let i = getpos geo w k in
      let room : i < geo.no_pairs = omega (arith, h.node.within) in
      record {
        c = i;
        s' = s;
        run = ground (arith, read_node-Holds h, read_key-HoldsKey hk, h.node.used i inside);
        inside = inside;
        lowered = record {
          vals = λ j. refl;
          keys = λ j ne q. refl;
          below_key = getpos_here geo g w k h.node.words hk.words room;
          below_old = omega arith;
        };
        node = h.node;
        above = λ j q. getpos_above geo g w k j h.node.words hk.words q;
        last = inl refl;
        key_is = inl refl;
        same = λ b ne. refl;
        sizes = λ b. refl;
        head = refl;
      }

  Step-lowering :
      {a : Addr} {fill : ℕ}
      → Holds geo s a fill
      → getpos geo (s.word a) (key_at s p) ≡ fill
      → Step geo s p a fill
  unfolding descend write_node set_words update
  Step-lowering {a} {fill} h last =
      let w = s.word a in
      let k = key_at s p in
      let i = getpos geo w k in
      let c = i - 1 in
      let w' = setkey geo w c k in
      let s1 : State = set_words s a w' in
      let here : s1.word a ≡ w' = ground arith in
      let room : c < geo.no_pairs = omega (arith, h.node.within, h.some_pair) in
      let ck : key_num geo w' c ≡ value k geo.keylen = ground (arith, key_num-setkey geo w c k c) in
      let high : value k geo.keylen < key_num geo w c =
        getpos_above geo g w k c h.node.words hk.words (omega (arith, h.some_pair)) in
      record {
        c = c;
        s' = s1;
        run = ground (
          arith,
          read_node-Holds h,
          read_key-HoldsKey hk,
          bval-setkey geo g w c k c room,
          bval_unused geo g w fill h.node i,
          h.node.within,
          h.some_pair,
        );
        inside = omega (arith, h.some_pair);
        lowered = rw here (record {
          vals = λ j. bval-setkey geo g w c k j room;
          keys = λ j ne q. ground (arith, key_num-setkey geo w c k j);
          below_key = omega (arith, ck);
          below_old = omega (arith, ck, high);
        });
        node =
            rw here (setkey-IsNode geo g w c fill k h.node hk.words (omega (arith, h.some_pair)));
        above = λ j q. getpos_above geo g w k j h.node.words hk.words (omega arith);
        last = inr (omega (arith, h.some_pair));
        key_is = inr (ap (λ w. key_num geo w c) here ∙ ck);
        same = λ b ne. ground arith;
        sizes = λ b. refl;
        head = refl;
      }

  -- One level of `find_level` goes to the child that takes the key.
  pub descend-Step : {a : Addr} {fill : ℕ} → Holds geo s a fill → Step geo s p a fill
  descend-Step {a} {fill} h = elim (Bool-cases (ltb (getpos geo (s.word a) (key_at s p)) fill)) [
    | inl less ↦ Step-existing h (ground arith)
    | inr more ↦
        Step-lowering h
          (ground (arith, getpos-le-fill geo g (s.word a) fill h.node (key_at s p) hk.words))
  ]

pub HoldsKey-frame :
    {geo : Geo} {s : State} {p : Ptr} (s' : State)
    → HoldsKey geo s p
    → s'.word p.block ≡ s.word p.block
    → s'.size p.block ≡ s.size p.block
    → HoldsKey geo s' p
HoldsKey-frame s' hk ew es = record {
  ne_null = hk.ne_null;
  live = rw es hk.live;
  words = rw (key_at, ew) hk.words;
}
