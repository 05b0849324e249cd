-- ===== src/Base/Lists.antt =====
-- Lists measured by native numbers, with Boolean predicates as in the source.
use Prim.Native.Nat.{ℕ, zero, suc, ◌+◌, ◌-◌, ◌≤◌, min}
use mathlib.Core.Path.{◌≡◌, refl, ap}
use mathlib.Core.Logic.{inl, inr, ◌↔◌}
use mathlib.Core.Bool.{Bool, true, false, ◌&&◌, ◌||◌}
use mathlib.Core.Option
use mathlib.Core.Option.{Option, none, some}
use mathlib.Core.List.{List, [], ◌∷◌, ◌++◌, map}
use native.Mathlib.Omega.{arith}
use event_probability_termin.Base.Tests.{if◌then◌else◌, Bool-cases, ltb}

module _ {ℓ} {A : Type ℓ} where
  abbrev pub length : List A → ℕ
  length [] = 0
  length (x ∷ xs) = suc (length xs)

  -- `xs.filter(keep)`
  abbrev pub filter : (A → Bool) → List A → List A
  filter keep [] = []
  filter keep (x ∷ xs) = if keep x then x ∷ filter keep xs else filter keep xs

  -- `xs.some(test)` and `xs.every(test)`
  abbrev pub any : (A → Bool) → List A → Bool
  any test [] = false
  any test (x ∷ xs) = test x || any test xs

  abbrev pub all : (A → Bool) → List A → Bool
  all test [] = true
  all test (x ∷ xs) = test x && all test xs

  -- `xs.length === 0`
  abbrev pub is_empty : List A → Bool
  is_empty [] = true
  is_empty (x ∷ xs) = false

  -- `xs[0]`
  abbrev pub first? : List A → Option A
  first? [] = none
  first? (x ∷ xs) = some x

  -- `xs.at(-1)`
  abbrev pub last? : List A → Option A
  last? [] = none
  last? (x ∷ []) = some x
  last? (x ∷ y ∷ xs) = last? (y ∷ xs)

  -- `xs.slice(0, n)`
  abbrev pub take : ℕ → List A → List A
  take zero xs = []
  take (suc n) [] = []
  take (suc n) (x ∷ xs) = x ∷ take n xs

  abbrev pub drop : ℕ → List A → List A
  drop zero xs = xs
  drop (suc n) [] = []
  drop (suc n) (x ∷ xs) = drop n xs

  abbrev pub All {κ} : (A → Type κ) → List A → Type κ
  All P [] = Unit
  All P (x ∷ xs) = P x × All P xs

module _ {ℓ} {A : Type ℓ} where
  pub length-append : (xs ys : List A) → length (xs ++ ys) ≡ length xs + length ys
  length-append [] ys = omega arith
  length-append (x ∷ xs) ys = omega (arith, length-append xs ys)

  pub length-filter-le : (keep : A → Bool) (xs : List A) → length (filter keep xs) ≤ length xs
  length-filter-le keep [] = omega arith
  length-filter-le keep (x ∷ xs) = ground (arith, length-filter-le keep xs)

  pub length-take : (n : ℕ) (xs : List A) → length (take n xs) ≡ min n (length xs)
  length-take zero xs = omega arith
  length-take (suc n) [] = omega arith
  length-take (suc n) (x ∷ xs) = omega (arith, length-take n xs)

  pub All-append {κ} : (P : A → Type κ) (xs ys : List A) → All P xs → All P ys → All P (xs ++ ys)
  All-append P [] ys h k = k
  All-append P (x ∷ xs) ys (p, h) k = (p, All-append P xs ys h k)

  pub All-map_weaken {κ κ'} :
      (P : A → Type κ) (Q : A → Type κ') (xs : List A) → ((x : A) → P x → Q x) → All P xs → All Q xs
  All-map_weaken P Q [] f h = tt
  All-map_weaken P Q (x ∷ xs) f (p, h) = (f x p, All-map_weaken P Q xs f h)

  pub filter-All : (keep : A → Bool) (xs : List A) → All (λ x. keep x ≡ true) (filter keep xs)
  filter-All keep [] = tt
  filter-All keep (x ∷ xs) = ground (arith, filter-All keep xs)

  pub filter-All_of {κ} :
      (P : A → Type κ) (keep : A → Bool) (xs : List A) → All P xs → All P (filter keep xs)
  filter-All_of P keep [] h = tt
  filter-All_of P keep (x ∷ xs) (p, h) =
      let rest = filter-All_of P keep xs h in
      elim (Bool-cases (keep x)) [ inl e ↦ rw e (p, rest) | inr e ↦ rw e rest ]

  -- Filtering twice is filtering by both tests.
  pub filter-filter :
      (p q : A → Bool) (xs : List A) → filter p (filter q xs) ≡ filter (λ x. q x && p x) xs
  filter-filter p q [] = refl
  filter-filter p q (x ∷ xs) = ground (arith, filter-filter p q xs)

  pub filter_congr :
      (p q : A → Bool) (xs : List A) → ((x : A) → p x ≡ q x) → filter p xs ≡ filter q xs
  filter_congr p q [] h = refl
  filter_congr p q (x ∷ xs) h = ground (arith, h x, filter_congr p q xs h)

  pub length-map {κ} : {B : Type κ} (f : A → B) (xs : List A) → length (map f xs) ≡ length xs
  length-map f [] = refl
  length-map f (x ∷ xs) = ap suc (length-map f xs)

module _ {ℓ} {A : Type ℓ} where
  -- `xs.at(-k)`, for a positive `k`
  abbrev pub at_end : ℕ → List A → Option A
  at_end k xs = if ltb (length xs) k then none else first? (drop (length xs - k) xs)

  -- `xs.slice(-k)`, for a positive `k`
  abbrev pub take_end : ℕ → List A → List A
  take_end k xs = drop (length xs - k) xs

  -- The list of one text or item that is pushed where a test holds.
  abbrev pub only_if : Bool → A → List A
  only_if true x = x ∷ []
  only_if false x = []

  -- A test that implies another passes over what the other has removed.
  pub filter-filter_of_imp :
      (p q : A → Bool) (xs : List A)
      → ((x : A) → p x ≡ true → q x ≡ true)
      → filter p (filter q xs) ≡ filter p xs
  filter-filter_of_imp p q [] h = refl
  filter-filter_of_imp p q (x ∷ xs) h = ground (arith, h x, filter-filter_of_imp p q xs h)

module _ {ℓ κ} {A : Type ℓ} (P : A → Type κ) where
  pub All-take : (n : ℕ) (xs : List A) → All P xs → All P (take n xs)
  All-take zero xs h = tt
  All-take (suc n) [] h = tt
  All-take (suc n) (x ∷ xs) (p, h) = (p, All-take n xs h)

  -- What a test lets pass, and what holds of all that it lets pass.
  pub All-of_filter :
      (keep : A → Bool) (xs : List A) → ((x : A) → keep x ≡ true → P x) → All P (filter keep xs)
  All-of_filter keep [] h = tt
  All-of_filter keep (x ∷ xs) h =
      let rest = All-of_filter keep xs h in
      elim (Bool-cases (keep x)) [ inl e ↦ rw e (h x e, rest) | inr e ↦ rw e rest ]

  pub All-map {ι} :
      {B : Type ι} (f : B → A) (xs : List B) → All (λ b. P (f b)) xs → All P (map f xs)
  All-map f [] h = tt
  All-map f (x ∷ xs) (p, h) = (p, All-map f xs h)

module _ {ℓ} {A : Type ℓ} where
  -- `xs[i]`
  abbrev pub get_elem? : List A → ℕ → Option A
  get_elem? [] i = none
  get_elem? (x ∷ xs) zero = some x
  get_elem? (x ∷ xs) (suc i) = get_elem? xs i

  -- An index reaches an item exactly below the length.
  pub get_elem?-none : (xs : List A) (i : ℕ) → (get_elem? xs i ≡ none) ↔ (length xs ≤ i)
  get_elem?-none [] i = ground arith
  get_elem?-none (x ∷ xs) zero = ground arith
  get_elem?-none (x ∷ xs) (suc i) = ground (arith, get_elem?-none xs i)

module _ {ℓ} {A : Type ℓ} where
  pub get_elem?-map {κ} :
      {B : Type κ} (f : A → B) (xs : List A) (i : ℕ)
      → get_elem? (map f xs) i ≡ Option.map f (get_elem? xs i)
  get_elem?-map f [] i = refl
  get_elem?-map f (x ∷ xs) zero = refl
  get_elem?-map f (x ∷ xs) (suc i) = get_elem?-map f xs i

module _ {ℓ} {A : Type ℓ} where
  pub is_empty-append : (xs ys : List A) → is_empty (xs ++ ys) ≡ (is_empty xs && is_empty ys)
  is_empty-append [] ys = refl
  is_empty-append (x ∷ xs) ys = refl
