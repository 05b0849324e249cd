-- ===== src/StrategyLab/Grid/Loops.antt =====
-- Nested `for` loops that append to a list and return once it is full.
use mathlib.Core.List.{append-nil, append_assoc}
use event_probability_termin.Base.{
  ℕ, zero, suc, ◌≤◌, ◌<◌, ◌≡◌, refl, Bool, false, List, [], ◌∷◌, ◌++◌, arith, leb, if◌then◌else◌,
  length, take, length-append, Bool-cases, ap, inl, inr, leb→le,
}

module _ {A B : Type 0} where
  -- The items of all rounds, in order.
  abbrev pub flat_map : (A → List B) → List A → List B
  flat_map f [] = []
  flat_map f (x ∷ xs) = f x ++ flat_map f xs

  -- `for (const x of xs) { … }` whose body may return; the Boolean tells that it has.
  abbrev pub for_each : List A → (A → List B → List B × Bool) → List B → List B × Bool
  for_each [] body grid = (grid, false)
  for_each (x ∷ xs) body grid =
      let now = body x grid in let later = for_each xs body now.0 in if now.1 then now else later

module _ {B : Type 0} (limit : ℕ) where
  -- Appends the items until the list holds `limit` of them, and tells whether it does.
  abbrev pub Appends : (List B → List B × Bool) → List B → Type 0
  Appends step items =
      (grid : List B)
      → length grid < limit
      → step grid ≡ (take limit (grid ++ items), leb limit (length (grid ++ items)))

module _ {B : Type 0} where
  take_of_le : (n : ℕ) (xs : List B) → length xs ≤ n → take n xs ≡ xs
  take_of_le zero [] h = refl
  take_of_le zero (x ∷ xs) h = absurd (omega arith)
  take_of_le (suc n) [] h = refl
  take_of_le (suc n) (x ∷ xs) h = ap (◌∷◌ x) (take_of_le n xs (omega arith))

  take-append_of_le : (n : ℕ) (xs ys : List B) → n ≤ length xs → take n (xs ++ ys) ≡ take n xs
  take-append_of_le zero xs ys h = refl
  take-append_of_le (suc n) [] ys h = absurd (omega arith)
  take-append_of_le (suc n) (x ∷ xs) ys h = ap (◌∷◌ x) (take-append_of_le n xs ys (omega arith))

module _ {A B : Type 0} where
  pub for_each-Appends :
      (limit : ℕ) (body : A → List B → List B × Bool) (f : A → List B)
      → ((x : A) → Appends limit (body x) (f x))
      → (xs : List A) → Appends limit (for_each xs body) (flat_map f xs)
  for_each-Appends limit body f h [] grid short =
      rw (append-nil grid, take_of_le limit grid (omega arith)) (ground arith)
  for_each-Appends limit body f h (x ∷ xs) grid short =
      let so_far = grid ++ f x in
      let all = flat_map f xs in
      let longer = length-append so_far all in
      let assoc = append_assoc grid (f x) all in
      elim (Bool-cases (leb limit (length so_far))) [
        | inl full ↦
            rw (h x grid short, full, ← assoc, take-append_of_le limit so_far all (leb→le _ _ full))
              (ground arith)
        | inr room ↦
            rw (h x grid short, room, take_of_le limit so_far (ground arith), ← assoc)
              (for_each-Appends limit body f h xs so_far (ground arith))
      ]

module _ {B : Type 0} where
  -- One push, as in the innermost round.
  pub push-Appends :
      (limit : ℕ) (x : B)
      → Appends limit (λ grid. (grid ++ x ∷ [], leb limit (length (grid ++ x ∷ [])))) (x ∷ [])
  push-Appends limit x grid short =
      rw (take_of_le limit (grid ++ x ∷ []) (omega (arith, length-append grid (x ∷ [])))) refl
