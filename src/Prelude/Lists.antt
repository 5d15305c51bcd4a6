-- ===== src/Prelude/Lists.antt =====
-- Lists measured by native numbers, and the loops over them that the scripts write.
use Prim.Native.Nat.{ℕ, zero, suc, ◌+◌}
use mathlib.Core.Path.{◌≡◌, refl, ap}
use mathlib.Core.Logic.{inl, inr}
use mathlib.Core.Bool.{Bool, true, false, not, ◌&&◌, ◌||◌}
use mathlib.Core.Option.{Option, none, some}
use mathlib.Core.List.{List, [], ◌∷◌, ◌++◌}
use native.Mathlib.Omega.{arith}
use native.Mathlib.Nat.{suc-add}
use guardian_safe.Prelude.Tests.{if◌then◌else◌, Bool-cases}

module _ {ℓ} {A : Type ℓ} where
  abbrev pub length : List A → ℕ
  length [] = 0
  length (x ∷ xs) = suc (length xs)

  pub length-append : (xs ys : List A) → length (xs ++ ys) ≡ length xs + length ys
  length-append [] ys = omega arith
  length-append (x ∷ xs) ys = omega (arith, length-append xs ys)

  -- xs[xs.length - 1]
  abbrev pub last? : List A → Option A
  last? [] = none
  last? (x ∷ []) = some x
  last? (x ∷ y ∷ ys) = last? (y ∷ ys)

  abbrev pub get_elem? : List A → ℕ → Option A
  get_elem? [] i = none
  get_elem? (x ∷ xs) zero = some x
  get_elem? (x ∷ xs) (suc i) = get_elem? xs i

  abbrev pub drop : ℕ → List A → List A
  drop zero xs = xs
  drop (suc n) [] = []
  drop (suc n) (x ∷ xs) = drop n xs

  pub get_elem?-drop : (n i : ℕ) (xs : List A) → get_elem? (drop n xs) i ≡ get_elem? xs (n + i)
  get_elem?-drop zero i xs = ground arith
  get_elem?-drop (suc n) i [] = refl
  get_elem?-drop (suc n) i (x ∷ xs) = rw suc-add (get_elem?-drop n i xs)

  -- xs.find(p), xs.some(p), xs.every(p)
  abbrev pub find : (A → Bool) → List A → Option A
  find p [] = none
  find p (x ∷ xs) = if p x then some x else find p xs

  abbrev pub any : (A → Bool) → List A → Bool
  any p [] = false
  any p (x ∷ xs) = p x || any p xs

  abbrev pub every : (A → Bool) → List A → Bool
  every p [] = true
  every p (x ∷ xs) = p x && every p xs

  -- A found element, and the elements before it.
  pub find_split :
      (p : A → Bool) (xs : List A) (x : A)
      → find p xs ≡ some x
      → (before after : List A) × (xs ≡ before ++ x ∷ after)
        × (every (λ y. not (p y)) before ≡ true)
        × (p x ≡ true)
  find_split p [] x h = cc
  find_split p (y ∷ ys) x h = elim (Bool-cases (p y)) [
    | inl here' ↦ ([], ys, ground arith, refl, ground arith)
    | inr later ↦
        let (before, after, e, none_before, found) = find_split p ys x (ground arith) in
        (y ∷ before, after, ap (λ zs. y ∷ zs) e, ground arith, found)
  ]

  pub find-append :
      (p : A → Bool) (before after : List A) (x : A)
      → every (λ y. not (p y)) before ≡ true
      → p x ≡ true
      → find p (before ++ x ∷ after) ≡ some x
  find-append p [] after x h e = rw e refl
  find-append p (y ∷ before) after x h e = ground (arith, find-append p before after x)

  abbrev pub select : (A → Bool) → List A → List A
  select p [] = []
  select p (x ∷ xs) = if p x then x ∷ select p xs else select p xs

  abbrev pub All {κ} : (A → Type κ) → List A → Type κ
  All P [] = Unit
  All P (x ∷ xs) = P x × All P xs
