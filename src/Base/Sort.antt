-- ===== src/Base/Sort.antt =====
-- `[...xs].sort(compare)`: a stable sort. `before y x` says that `y` must stand in front of `x`,
-- which is `compare(y, x) < 0`.
use Prim.Native.Nat.{suc}
use mathlib.Core.Path.{◌≡◌, refl, ap, ◌∙◌}
use mathlib.Core.Logic.{inl, inr}
use native.Mathlib.Omega.{arith}
use mathlib.Core.Bool.{Bool, true, false}
use mathlib.Core.List.{List, [], ◌∷◌}
use event_probability_termin.Base.Tests.{if◌then◌else◌, Bool-cases}
use event_probability_termin.Base.Lists.{length, All}

module _ {ℓ} {A : Type ℓ} where
  -- Puts `x`, which stood in front of all of `ys`, behind those that must come before it.
  abbrev pub insert_sorted : (A → A → Bool) → A → List A → List A
  insert_sorted before x [] = x ∷ []
  insert_sorted before x (y ∷ ys) = if before y x then y ∷ insert_sorted before x ys else x ∷ y ∷ ys

  abbrev pub sort : (A → A → Bool) → List A → List A
  sort before [] = []
  sort before (x ∷ xs) = insert_sorted before x (sort before xs)

module _ {ℓ κ} {A : Type ℓ} (P : A → Type κ) (before : A → A → Bool) where
  insert_sorted-All : (x : A) (xs : List A) → P x → All P xs → All P (insert_sorted before x xs)
  insert_sorted-All x [] p h = (p, tt)
  insert_sorted-All x (y ∷ ys) p (q, h) =
      let rest = insert_sorted-All x ys p h in
      elim (Bool-cases (before y x)) [ inl e ↦ rw e (q, rest) | inr e ↦ rw e (p, (q, h)) ]

  -- Sorting keeps what holds of every item.
  pub sort-All : (xs : List A) → All P xs → All P (sort before xs)
  sort-All [] h = tt
  sort-All (x ∷ xs) (p, h) = insert_sorted-All x (sort before xs) p (sort-All xs h)

module _ {ℓ} {A : Type ℓ} (before : A → A → Bool) where
  length-insert_sorted :
      (x : A) (xs : List A) → length (insert_sorted before x xs) ≡ suc (length xs)
  length-insert_sorted x [] = refl
  length-insert_sorted x (y ∷ ys) = ground (arith, length-insert_sorted x ys)

  pub length-sort : (xs : List A) → length (sort before xs) ≡ length xs
  length-sort [] = refl
  length-sort (x ∷ xs) = length-insert_sorted x (sort before xs) ∙ ap suc (length-sort xs)

-- No neighbour must come before the one in front of it.
module _ {ℓ} {A : Type ℓ} (before : A → A → Bool) where
  abbrev pub NotBefore : A → List A → Type 0
  NotBefore x [] = Unit
  NotBefore x (y ∷ ys) = before y x ≡ false

  abbrev pub IsSortedBy : List A → Type 0
  IsSortedBy [] = Unit
  IsSortedBy (x ∷ xs) = NotBefore x xs × IsSortedBy xs

  insert_sorted-NotBefore :
      (x y : A) (ys : List A)
      → before x y ≡ false
      → NotBefore y ys
      → NotBefore y (insert_sorted before x ys)
  insert_sorted-NotBefore x y [] h k = h
  insert_sorted-NotBefore x y (z ∷ ys) h k = ground arith

  insert_sorted-IsSortedBy :
      ((a b : A) → before a b ≡ true → before b a ≡ false)
      → (x : A) (xs : List A) → IsSortedBy xs
      → IsSortedBy (insert_sorted before x xs)
  insert_sorted-IsSortedBy asymm x [] h = (tt, tt)
  insert_sorted-IsSortedBy asymm x (y ∷ ys) (h, k) =
      let rest = insert_sorted-IsSortedBy asymm x ys k in
      elim (Bool-cases (before y x)) [
        | inl e ↦ rw e (insert_sorted-NotBefore x y ys (asymm y x e) h, rest)
        | inr e ↦ rw e (e, (h, k))
      ]

  -- A sort leaves no two neighbours in the wrong order.
  pub sort-IsSortedBy :
      ((a b : A) → before a b ≡ true → before b a ≡ false)
      → (xs : List A) → IsSortedBy (sort before xs)
  sort-IsSortedBy asymm [] = tt
  sort-IsSortedBy asymm (x ∷ xs) = insert_sorted-IsSortedBy asymm x _ (sort-IsSortedBy asymm xs)
