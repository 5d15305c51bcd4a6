-- ===== src/StateAbstraction/Sets.antt =====
-- The enumerable sets of OpenZeppelin, for unsigned integers, addresses, hashes and selectors, which
-- are all numbers here: a parameter of the model, with its documented behaviour.
pub mod Distinct
use guardian_safe.Prelude.{ℕ, ◌+◌, ◌≡◌, Bool, true, false, not, ◌&&◌, ◌||◌, List, length, any, ◌==◌}

pub record EnumerableSet : Type 1 where
  pub Set : Type 0
  pub empty : Set
  pub contains : ℕ → Set → Bool
  -- what `add` and `remove` leave; their answers are computed by `contains`
  pub add : ℕ → Set → Set
  pub remove : ℕ → Set → Set
  -- `at(0)`, …, `at(length() - 1)`
  pub values : Set → List ℕ

pub record IsLawful (sets : EnumerableSet) : Type 0 where
  pub contains-empty : (x : ℕ) → sets.contains x sets.empty ≡ false
  pub contains-add :
      (x y : ℕ) (s : sets.Set) → sets.contains x (sets.add y s) ≡ (x == y || sets.contains x s)
  pub contains-remove :
      (x y : ℕ) (s : sets.Set)
      → sets.contains x (sets.remove y s) ≡ (not (x == y) && sets.contains x s)
  pub contains-values :
      (x : ℕ) (s : sets.Set) → sets.contains x s ≡ any (λ y. y == x) (sets.values s)
  pub length-add :
      (x : ℕ) (s : sets.Set)
      → sets.contains x s ≡ false
      → length (sets.values (sets.add x s)) ≡ length (sets.values s) + 1
  pub length-remove :
      (x : ℕ) (s : sets.Set)
      → sets.contains x s ≡ true
      → length (sets.values s) ≡ length (sets.values (sets.remove x s)) + 1
  pub values_add_present :
      (x : ℕ) (s : sets.Set) → sets.contains x s ≡ true → sets.values (sets.add x s) ≡ sets.values s
