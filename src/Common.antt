-- ===== src/Common.antt =====
-- The names that the other modules share: the libraries', passed on, and tests on native numbers.
pub use Prim.Native.Nat.{ℕ, zero, suc, ◌+◌, ◌-◌, ◌*◌, ◌/◌, ◌%◌, ◌^◌, ◌≤◌, ◌<◌, compare, Ordering}
pub use mathlib.Core.Path.{◌≡◌, refl, sym, ap, ap₂, subst, ◌∙◌, fun_ext}
pub use mathlib.Core.Logic.{◌≢◌, ◌↔◌, ◌⊎◌, inl, inr}
pub use mathlib.Core.Bool.{Bool, true, false, not, ◌&&◌, ◌||◌}
pub use mathlib.Core.Option.{Option, none, some}
pub use mathlib.Core.List.{List, [], ◌∷◌, ◌++◌, map}
pub use native.Mathlib.Omega.{arith}

abbrev pub ltb : ℕ → ℕ → Bool
ltb a b = elim (compare a b) [ Ordering.lt ↦ true | _ ↦ false ]

abbrev pub leb : ℕ → ℕ → Bool
leb a b = elim (compare a b) [ Ordering.gt ↦ false | _ ↦ true ]

infix 50 ◌==◌
abbrev pub ◌==◌ : ℕ → ℕ → Bool
a == b = elim (compare a b) [ Ordering.eq ↦ true | _ ↦ false ]

infix 1 if◌then◌else◌
abbrev pub if◌then◌else◌ {ℓ} : {A : Type ℓ} → Bool → A → A → A
if true then x else y = x
if false then x else y = y

-- To split on a computed test and keep the equation.
pub Bool-cases : (b : Bool) → (b ≡ true) ⊎ (b ≡ false)
Bool-cases true = inl refl
Bool-cases false = inr refl

pub ==-refl : (a : ℕ) → (a == a) ≡ true
==-refl a = ground arith

pub ==-ne : (a b : ℕ) → a ≢ b → (a == b) ≡ false
==-ne a b h = ground arith

pub lt-ltb : (a b : ℕ) → a < b → ltb a b ≡ true
lt-ltb a b h = ground arith

module _ {ℓ} {A : Type ℓ} where
  abbrev pub length : List A → ℕ
  length [] = 0
  length (x ∷ xs) = suc (length xs)

  abbrev pub take : ℕ → List A → List A
  take zero xs = []
  take (suc n) [] = []
  take (suc n) (x ∷ xs) = x ∷ take n xs

  abbrev pub drop : ℕ → List A → List A
  drop zero xs = xs
  drop (suc n) [] = []
  drop (suc n) (x ∷ xs) = drop n xs

  pub length-append : (xs ys : List A) → length (xs ++ ys) ≡ length xs + length ys
  length-append [] ys = omega arith
  length-append (x ∷ xs) ys = omega (arith, length-append xs ys)

  -- `f 0, ..., f (n - 1)`
  abbrev pub tabulate : (ℕ → A) → ℕ → List A
  tabulate f zero = []
  tabulate f (suc n) = f 0 ∷ tabulate (λ i. f (suc i)) n

  abbrev pub insert_at : ℕ → A → List A → List A
  insert_at zero x xs = x ∷ xs
  insert_at (suc n) x [] = x ∷ []
  insert_at (suc n) x (y ∷ xs) = y ∷ insert_at n x xs

  abbrev pub remove_at : ℕ → List A → List A
  remove_at n [] = []
  remove_at zero (y ∷ xs) = xs
  remove_at (suc n) (y ∷ xs) = y ∷ remove_at n xs

module _ {ℓ} {A : Type ℓ} where
  pub length-tabulate : (f : ℕ → A) (n : ℕ) → length (tabulate f n) ≡ n
  length-tabulate f zero = refl
  length-tabulate f (suc n) = ap suc (length-tabulate (λ i. f (suc i)) n)

  pub tabulate_congr :
      (f g : ℕ → A) (n : ℕ) → ((i : ℕ) → i < n → f i ≡ g i) → tabulate f n ≡ tabulate g n
  tabulate_congr f g zero h = refl
  tabulate_congr f g (suc n) h =
      let tail =
        tabulate_congr (λ i. f (suc i)) (λ i. g (suc i)) n (λ i p. h (suc i) (omega arith)) in
      λ i. h 0 (omega arith) i ∷ tail i

  pub tabulate-append :
      (h f g : ℕ → A) (m n k : ℕ)
      → k ≡ m + n
      → ((i : ℕ) → i < m → h i ≡ f i)
      → ((i : ℕ) → i < n → h (m + i) ≡ g i)
      → tabulate h k ≡ tabulate f m ++ tabulate g n
  tabulate-append h f g zero n k e front back =
      let e' : k ≡ n = omega arith in
      rw e' (tabulate_congr h g n λ i p. ap h (omega arith) ∙ back i p)
  tabulate-append h f g (suc m) n zero e front back = absurd (omega arith)
  tabulate-append h f g (suc m) n (suc k) e front back =
      let tail =
        tabulate-append (λ i. h (suc i)) (λ i. f (suc i)) g m n k (omega arith)
          (λ i p. front (suc i) (omega arith)) (λ i p. ap h (omega arith) ∙ back i p) in
      λ i. front 0 (omega arith) i ∷ tail i

  pub tabulate-insert_at :
      (f g : ℕ → A) (pos n : ℕ) (x : A)
      → pos < suc n
      → ((i : ℕ) → i < pos → g i ≡ f i)
      → g pos ≡ x
      → ((i : ℕ) → pos < suc i → i < n → g (suc i) ≡ f i)
      → tabulate g (suc n) ≡ insert_at pos x (tabulate f n)
  tabulate-insert_at f g zero n x p below here above =
      let tail = tabulate_congr (λ i. g (suc i)) f n (λ i q. above i (omega arith) q) in
      λ i. here i ∷ tail i
  tabulate-insert_at f g (suc pos) zero x p below here above = absurd (omega arith)
  tabulate-insert_at f g (suc pos) (suc n) x p below here above =
      let tail =
        tabulate-insert_at (λ i. f (suc i)) (λ i. g (suc i)) pos n x (omega arith)
          (λ i q. below (suc i) (omega arith)) here
          (λ i q r. above (suc i) (omega arith) (omega arith)) in
      λ i. below 0 (omega arith) i ∷ tail i

  pub tabulate-remove_at :
      (f g : ℕ → A) (pos n : ℕ)
      → pos < suc n
      → ((i : ℕ) → i < pos → g i ≡ f i)
      → ((i : ℕ) → pos < suc i → i < n → g i ≡ f (suc i))
      → tabulate g n ≡ remove_at pos (tabulate f (suc n))
  tabulate-remove_at f g zero n p below above =
      tabulate_congr g (λ i. f (suc i)) n (λ i q. above i (omega arith) q)
  tabulate-remove_at f g (suc pos) zero p below above = absurd (omega arith)
  tabulate-remove_at f g (suc pos) (suc n) p below above =
      let tail =
        tabulate-remove_at (λ i. f (suc i)) (λ i. g (suc i)) pos n (omega arith)
          (λ i q. below (suc i) (omega arith))
          (λ i q r. above (suc i) (omega arith) (omega arith)) in
      λ i. below 0 (omega arith) i ∷ tail i
