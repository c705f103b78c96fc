-- ===== src/Entries.antt =====
-- The abstract view of a tree or a node: its pairs of key and value, the largest key first. A tree
-- promises to be a map with these entries.
use btree_profiling.Common.{
  ℕ, zero, suc, ◌+◌, ◌≤◌, ◌<◌, ◌≡◌, ◌≢◌, refl, Bool, true, false, ◌||◌, List, [], ◌∷◌, ◌++◌, Option,
  none, some, arith, leb, ltb, ◌==◌, if◌then◌else◌, length, tabulate, tabulate_congr, Bool-cases,
  inl, inr, insert_at, remove_at,
}

-- Among pairs, the place of the first whose key is at most `k`.
abbrev pub place : ℕ → List (ℕ × ℕ) → ℕ
place k [] = 0
place k ((k', _) ∷ es) = if leb k' k then 0 else suc (place k es)

-- The place of the first pair whose key is `k`.
abbrev pub find_key : ℕ → List (ℕ × ℕ) → ℕ
find_key k [] = 0
find_key k ((k', _) ∷ es) = if k' == k then 0 else suc (find_key k es)

-- The place of the first pair with no value.
abbrev pub fill_of : List (ℕ × ℕ) → ℕ
fill_of [] = 0
fill_of ((_, v) ∷ es) = if v == 0 then 0 else suc (fill_of es)

abbrev pub empties : ℕ → List (ℕ × ℕ)
empties n = tabulate (λ _. (0, 0)) n

pub place-empties : (k : ℕ) (es : List (ℕ × ℕ)) (n : ℕ) → place k (es ++ empties n) ≡ place k es
place-empties k [] zero = refl
place-empties k [] (suc n) = ground arith
place-empties k ((k', v) ∷ es) n = ground (arith, place-empties k es n)

-- Whether a key is among the pairs.
abbrev pub has_key : ℕ → List (ℕ × ℕ) → Bool
has_key k [] = false
has_key k ((k', _) ∷ es) = if k' == k then true else has_key k es

pub find_key-empties :
    (k : ℕ) (es : List (ℕ × ℕ)) (n : ℕ)
    → k ≢ 0
    → ltb (find_key k (es ++ empties n)) (length es + n) ≡ has_key k es
find_key-empties k [] zero h = ground arith
find_key-empties k [] (suc n) h = ground (arith, find_key-empties k [] n h)
find_key-empties k ((k', v) ∷ es) n h = ground (arith, find_key-empties k es n h)

-- The entry put before the first that is not larger.
abbrev pub insert : ℕ → ℕ → List (ℕ × ℕ) → List (ℕ × ℕ)
insert k v [] = (k, v) ∷ []
insert k v ((k', v') ∷ es) = if leb k' k then (k, v) ∷ (k', v') ∷ es else (k', v') ∷ insert k v es

-- The entries without the first of key `k`.
abbrev pub erase : ℕ → List (ℕ × ℕ) → List (ℕ × ℕ)
erase k [] = []
erase k ((k', v') ∷ es) = if k' == k then es else (k', v') ∷ erase k es

abbrev pub lookup : ℕ → List (ℕ × ℕ) → Option ℕ
lookup k [] = none
lookup k ((k', v') ∷ es) = if k' == k then some v' else lookup k es

abbrev pub update_value : ℕ → ℕ → List (ℕ × ℕ) → List (ℕ × ℕ)
update_value k v [] = []
update_value k v ((k', v') ∷ es) = if k' == k then (k', v) ∷ es else (k', v') ∷ update_value k v es

-- Every key is at least `b`.
abbrev pub AllAtLeast : ℕ → List (ℕ × ℕ) → Type 0
AllAtLeast b [] = Unit {0}
AllAtLeast b ((k, v) ∷ es) = (b ≤ k) × AllAtLeast b es

-- Every key is below `b`.
abbrev pub AllBelow : ℕ → List (ℕ × ℕ) → Type 0
AllBelow b [] = Unit {0}
AllBelow b ((k, v) ∷ es) = (k < b) × AllBelow b es

-- Strictly falling keys.
abbrev pub IsFalling : List (ℕ × ℕ) → Type 0
IsFalling [] = Unit {0}
IsFalling ((k, v) ∷ es) = AllBelow k es × IsFalling es

pub insert_at-place :
    (k v : ℕ) (es : List (ℕ × ℕ)) → insert_at (place k es) (k, v) es ≡ insert k v es
insert_at-place k v [] = refl
insert_at-place k v ((k', v') ∷ es) = ground (arith, insert_at-place k v es)

pub place-le-length : (k : ℕ) (es : List (ℕ × ℕ)) → place k es ≤ length es
place-le-length k [] = omega arith
place-le-length k ((k', v') ∷ es) = ground (arith, place-le-length k es)

pub AllBelow-mono : (a b : ℕ) (es : List (ℕ × ℕ)) → a ≤ b → AllBelow a es → AllBelow b es
AllBelow-mono a b [] h below = tt
AllBelow-mono a b ((k, v) ∷ es) h below = (omega arith, AllBelow-mono a b es h below.1)

pub has_key-AllBelow : (k b : ℕ) (es : List (ℕ × ℕ)) → b ≤ k → AllBelow b es → has_key k es ≡ false
has_key-AllBelow k b [] h below = refl
has_key-AllBelow k b ((k', v) ∷ es) h below = ground (arith, has_key-AllBelow k b es)

-- In falling entries the place of a key that is there is that of its entry.
pub remove_at-place :
    (k : ℕ) (es : List (ℕ × ℕ))
    → IsFalling es
    → has_key k es ≡ true
    → remove_at (place k es) es ≡ erase k es
remove_at-place k [] falling h = refl
remove_at-place k ((k', v) ∷ es) falling h =
    ground (arith, has_key-AllBelow k k' es, remove_at-place k es)

pub insert-AllBelow :
    (b k v : ℕ) (es : List (ℕ × ℕ)) → k < b → AllBelow b es → AllBelow b (insert k v es)
insert-AllBelow b k v [] h below = (h, tt)
insert-AllBelow b k v ((k', v') ∷ es) h below = ground (arith, insert-AllBelow b k v es)

-- A new key keeps the entries falling.
pub insert-IsFalling :
    (k v : ℕ) (es : List (ℕ × ℕ)) → IsFalling es → has_key k es ≡ false → IsFalling (insert k v es)
insert-IsFalling k v [] falling h = (tt, tt)
insert-IsFalling k v ((k', v') ∷ es) falling h =
    ground (arith, AllBelow-mono k' k es, insert-AllBelow k' k v es, insert-IsFalling k v es)

pub lookup-insert :
    (j k v : ℕ) (es : List (ℕ × ℕ))
    → has_key k es ≡ false
    → lookup j (insert k v es) ≡ (if k == j then some v else lookup j es)
lookup-insert j k v [] h = refl
lookup-insert j k v ((k', v') ∷ es) h = ground (arith, lookup-insert j k v es)

pub erase-AllBelow : (b k : ℕ) (es : List (ℕ × ℕ)) → AllBelow b es → AllBelow b (erase k es)
erase-AllBelow b k [] below = tt
erase-AllBelow b k ((k', v') ∷ es) below = ground (arith, erase-AllBelow b k es)

pub erase-IsFalling : (k : ℕ) (es : List (ℕ × ℕ)) → IsFalling es → IsFalling (erase k es)
erase-IsFalling k [] falling = tt
erase-IsFalling k ((k', v') ∷ es) falling =
    ground (arith, erase-AllBelow k' k es, erase-IsFalling k es)

pub AllAtLeast-mono : (a b : ℕ) (es : List (ℕ × ℕ)) → a ≤ b → AllAtLeast b es → AllAtLeast a es
AllAtLeast-mono a b [] h low = tt
AllAtLeast-mono a b ((k, v) ∷ es) h low = (omega arith, AllAtLeast-mono a b es h low.1)

pub insert-AllAtLeast :
    (b k v : ℕ) (es : List (ℕ × ℕ)) → b ≤ k → AllAtLeast b es → AllAtLeast b (insert k v es)
insert-AllAtLeast b k v [] h low = (h, tt)
insert-AllAtLeast b k v ((k', v') ∷ es) h low = ground (arith, insert-AllAtLeast b k v es)

-- A key that is below the first entries goes behind them.
pub insert-append_right :
    (b k v : ℕ) (e1 e2 : List (ℕ × ℕ))
    → AllAtLeast b e1
    → k < b
    → insert k v (e1 ++ e2) ≡ e1 ++ insert k v e2
insert-append_right b k v [] e2 low h = refl
insert-append_right b k v ((k', v') ∷ e1) e2 low h = ground (arith, insert-append_right b k v e1 e2)

-- A key that the last entries are below goes before them.
pub insert-append_left :
    (b k v : ℕ) (e1 e2 : List (ℕ × ℕ))
    → AllBelow b e2
    → b ≤ k
    → insert k v (e1 ++ e2) ≡ insert k v e1 ++ e2
insert-append_left b k v [] [] high h = refl
insert-append_left b k v [] ((k', v') ∷ e2) high h = ground arith
insert-append_left b k v ((k', v') ∷ e1) e2 high h = ground (arith, insert-append_left b k v e1 e2)

pub has_key-append :
    (k : ℕ) (e1 e2 : List (ℕ × ℕ)) → has_key k (e1 ++ e2) ≡ (has_key k e1 || has_key k e2)
has_key-append k [] e2 = refl
has_key-append k ((k', v') ∷ e1) e2 = ground (arith, has_key-append k e1 e2)

pub ne_of_has_key :
    (k : ℕ) (f : ℕ → ℕ × ℕ) (n i : ℕ) → has_key k (tabulate f n) ≡ false → i < n → (f i).0 ≢ k
ne_of_has_key k f zero i h p = absurd (omega arith)
ne_of_has_key k f (suc n) zero h p = ground arith
ne_of_has_key k f (suc n) (suc i) h p =
    ne_of_has_key k (λ j. f (suc j)) n i (ground arith) (omega arith)

-- Among entries with an empty pair behind them the key 0 is found.
pub find_key-zero :
    (es : List (ℕ × ℕ)) (n : ℕ) → find_key 0 (es ++ empties (suc n)) < length es + suc n
find_key-zero [] n = ground arith
find_key-zero ((k', v) ∷ es) n = ground (arith, find_key-zero es n)

-- A key that is there is at its place, with the value that is looked up.
pub lookup-place :
    (k : ℕ) (f : ℕ → ℕ × ℕ) (n : ℕ)
    → IsFalling (tabulate f n)
    → has_key k (tabulate f n) ≡ true
    → (place k (tabulate f n) < n)
      × ((f (place k (tabulate f n))).0 ≡ k)
      × (lookup k (tabulate f n) ≡ some (f (place k (tabulate f n))).1)
lookup-place k f zero falling h = cc
lookup-place k f (suc n) falling h = ground (
  arith,
  has_key-AllBelow k (f 0).0 (tabulate (λ i. f (suc i)) n),
  lookup-place k (λ i. f (suc i)) n,
)

pub has_key-insert : (k v : ℕ) (es : List (ℕ × ℕ)) → has_key k (insert k v es) ≡ true
has_key-insert k v [] = ground arith
has_key-insert k v ((k', v') ∷ es) = ground (arith, has_key-insert k v es)

-- A new key that is taken out again leaves the entries as they were.
pub erase-insert :
    (k v : ℕ) (es : List (ℕ × ℕ)) → has_key k es ≡ false → erase k (insert k v es) ≡ es
erase-insert k v [] h = ground arith
erase-insert k v ((k', v') ∷ es) h = ground (arith, erase-insert k v es)

-- Among falling entries an erased key is gone.
pub has_key-erase : (k : ℕ) (es : List (ℕ × ℕ)) → IsFalling es → has_key k (erase k es) ≡ false
has_key-erase k [] falling = refl
has_key-erase k ((k', v') ∷ es) falling =
    ground (arith, has_key-AllBelow k k' es, has_key-erase k es)

pub length-erase :
    (k : ℕ) (es : List (ℕ × ℕ)) → has_key k es ≡ true → suc (length (erase k es)) ≡ length es
length-erase k [] h = absurd (ground arith)
length-erase k ((k', v') ∷ es) h = ground (arith, length-erase k es)

-- The largest entry below `k`, of falling entries.
abbrev pub before : ℕ → List (ℕ × ℕ) → Option (ℕ × ℕ)
before k [] = none
before k ((k', v) ∷ es) = if ltb k' k then some (k', v) else before k es

pub before-zero : (es : List (ℕ × ℕ)) → before 0 es ≡ none
before-zero [] = refl
before-zero ((k', v) ∷ es) = ground (arith, before-zero es)

-- It stands at the place of the number before `k`.
pub before-place :
    (k : ℕ) (f : ℕ → ℕ × ℕ) (n : ℕ)
    → before (k + 1) (tabulate f n)
      ≡ (if ltb (place k (tabulate f n)) n then some (f (place k (tabulate f n))) else none)
before-place k f zero = ground arith
before-place k f (suc n) = ground (arith, before-place k (λ i. f (suc i)) n)

-- The value of the first entry of a key is the one at its place.
pub update_value-tabulate :
    (k v : ℕ) (f f' : ℕ → ℕ × ℕ) (n : ℕ)
    → ((i : ℕ) → i < n → f' i ≡ (if i == find_key k (tabulate f n) then ((f i).0, v) else f i))
    → tabulate f' n ≡ update_value k v (tabulate f n)
update_value-tabulate k v f f' zero h = refl
update_value-tabulate k v f f' (suc n) h = elim (Bool-cases ((f 0).0 == k)) [
  | inl e ↦ ground (
    arith,
    e,
    h 0 (omega arith),
    tabulate_congr (λ i. f' (suc i)) (λ i. f (suc i)) n
        (λ i q. ground (arith, e, h (suc i) (omega arith))),
  )
  | inr e ↦ ground (
    arith,
    e,
    h 0 (omega arith),
    update_value-tabulate k v (λ i. f (suc i)) (λ i. f' (suc i)) n
        (λ i q. ground (arith, e, h (suc i) (omega arith))),
  )
]

-- A key that is there is found in front of any other entries.
pub find_key-has_key :
    (k : ℕ) (es rest : List (ℕ × ℕ))
    → has_key k es ≡ true
    → (find_key k (es ++ rest) ≡ find_key k es) × (find_key k es < length es)
find_key-has_key k [] rest h = absurd (ground arith)
find_key-has_key k ((k', v) ∷ es) rest h = ground (arith, find_key-has_key k es rest)

pub length-insert : (k v : ℕ) (es : List (ℕ × ℕ)) → length (insert k v es) ≡ suc (length es)
length-insert k v [] = refl
length-insert k v ((k', v') ∷ es) = ground (arith, length-insert k v es)

pub has_key-AllAtLeast :
    (k b : ℕ) (es : List (ℕ × ℕ)) → k < b → AllAtLeast b es → has_key k es ≡ false
has_key-AllAtLeast k b [] h low = refl
has_key-AllAtLeast k b ((k', v) ∷ es) h low = ground (arith, has_key-AllAtLeast k b es)
