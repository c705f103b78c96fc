-- ===== src/Words/Decrement.antt =====
-- `dec_key` of cbtree_base.c subtracts one.
use btree_profiling.Common.{ℕ, zero, suc, ◌+◌, ◌-◌, ◌%◌, ◌<◌, ◌≡◌, ◌≢◌, refl, arith}
use btree_profiling.Memory.{Words, update}
use btree_profiling.Words.{word_mod, dec_key}
use btree_profiling.Words.Order.{value, IsWords}

-- Words past the number do not count.
pub value-update : (l : Words) (n i v : ℕ) → n < suc i → value (update l i v) n ≡ value l n
unfolding value update
value-update l zero i v h = refl
value-update l (suc n) i v h = ground (arith, value-update l n i v)

-- `dec_key` writes only the words of the key.
pub dec_key-frame : (n : ℕ) (key : Words) (j : ℕ) → n < suc j → dec_key n key j ≡ key j
unfolding dec_key update
dec_key-frame zero key j h = refl
dec_key-frame (suc n) key j h =
    ground (arith, dec_key-frame n (update key n ((key n + word_mod - 1) % word_mod)) j)

-- `dec_key` of an array of machine words that does not stand for 0 is the array of the number
-- before it.
pub dec_key-value :
    (n : ℕ) (key : Words)
    → IsWords key n
    → value key n ≢ 0
    → value (dec_key n key) n + 1 ≡ value key n
unfolding value dec_key update
dec_key-value zero key w h = absurd (h refl)
dec_key-value (suc n) key w h =
    let lowered = update key n ((key n + word_mod - 1) % word_mod) in
    ground (
      arith,
      w n (omega arith),
      value-update key n n ((key n + word_mod - 1) % word_mod) (omega arith),
      dec_key-frame n lowered n (omega arith),
      dec_key-value n lowered (λ i p. ground (arith, w i)),
    )

-- `dec_key` of an array that stands for 0 sets every word to the largest value.
pub dec_key-wraps :
    (n : ℕ) (key : Words) (i : ℕ) → value key n ≡ 0 → i < n → dec_key n key i ≡ word_mod - 1
unfolding value dec_key update
dec_key-wraps zero key i h p = absurd (omega arith)
dec_key-wraps (suc n) key i h p =
    let lowered = update key n ((key n + word_mod - 1) % word_mod) in
    ground (
      arith,
      value-update key n n ((key n + word_mod - 1) % word_mod) (omega arith),
      dec_key-frame n lowered n (omega arith),
      dec_key-wraps n lowered i,
    )

-- `dec_key` leaves machine words.
pub dec_key-IsWords : (n m : ℕ) (key : Words) → IsWords key m → IsWords (dec_key n key) m
unfolding dec_key update
dec_key-IsWords zero m key w i p = w i p
dec_key-IsWords (suc n) m key w i p =
    let lowered = update key n ((key n + word_mod - 1) % word_mod) in
    ground (arith, w i p, dec_key-IsWords n m lowered (λ j q. ground (arith, w j q)) i p)
