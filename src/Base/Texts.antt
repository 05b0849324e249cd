-- ===== src/Base/Texts.antt =====
-- Lists of texts as sets: `[...new Set(values.filter(Boolean))]`.
use Prim.Native.String.{String}
use mathlib.Core.Path.{◌≡◌, refl}
use mathlib.Core.Bool.{Bool, true, false, not, ◌||◌}
use mathlib.Core.List.{List, [], ◌∷◌, ◌++◌}
use native.Mathlib.Omega.{arith}
use text.Mathlib.Text.{◌==◌}
use text.Mathlib.TextPositions.{eq_refl}
use event_probability_termin.Base.Lists.{filter}

-- The insertion order of a `Set` is that of the first occurrences.
abbrev pub distinct : List String → List String
distinct [] = []
distinct (x ∷ xs) = x ∷ filter (λ y. not (x == y)) (distinct xs)

-- The private `unique` of each source file.
abbrev pub unique : List String → List String
unique values = distinct (filter (λ v. not (v == "")) values)

-- `===` on texts.
abbrev pub same_text : String → String → Bool
same_text a b = a == b

pub same_text_refl : (a : String) → same_text a a ≡ true
same_text_refl a = eq_refl a

-- Whether one of the texts is not empty.
abbrev pub has_text : List String → Bool
has_text [] = false
has_text (x ∷ xs) = not (x == "") || has_text xs

-- Of texts that are all empty nothing is left.
pub unique-empty : (l : List String) → unique l ≡ [] → has_text l ≡ false
unique-empty [] h = refl
unique-empty (x ∷ xs) h = ground (arith, unique-empty xs)

pub has_text-append : (l m : List String) → has_text (l ++ m) ≡ (has_text l || has_text m)
has_text-append [] m = refl
has_text-append (x ∷ xs) m = ground (arith, has_text-append xs m)
