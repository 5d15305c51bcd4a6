-- ===== src/StateAbstraction/Sets/Distinct.antt =====
-- Enumerable sets as lists without repetition: an implementation that keeps the documented
-- behaviour.
use guardian_safe.Prelude.{
  ℕ, ◌+◌, ◌≡◌, refl, ap, Bool, true, false, not, ◌&&◌, ◌||◌, List, [], ◌∷◌, length, any, select,
  ◌==◌, if◌then◌else◌, arith, Bool-cases, inl, inr,
}
use guardian_safe.StateAbstraction.Sets.{EnumerableSet, IsLawful}

abbrev pub member : ℕ → List ℕ → Bool
member x l = any (λ y. y == x) l

abbrev pub is_distinct : List ℕ → Bool
is_distinct [] = true
is_distinct (x ∷ l) = not (member x l) && is_distinct l

abbrev pub insert : ℕ → List ℕ → List ℕ
insert x l = if member x l then l else x ∷ l

abbrev pub erase : ℕ → List ℕ → List ℕ
erase x l = select (λ y. not (y == x)) l

member-erase : (x y : ℕ) (l : List ℕ) → member x (erase y l) ≡ (not (x == y) && member x l)
member-erase x y [] = ground arith
member-erase x y (z ∷ l) = ground (arith, member-erase x y l)

member-insert : (x y : ℕ) (l : List ℕ) → member x (insert y l) ≡ (x == y || member x l)
member-insert x y l = elim (Bool-cases (x == y)) [
  | inl same ↦ let e : x ≡ y = ground arith in ground (arith, ap (λ z. member z l) e)
  | inr other ↦ ground arith
]

pub insert-is_distinct :
    (x : ℕ) (l : List ℕ) → is_distinct l ≡ true → is_distinct (insert x l) ≡ true
insert-is_distinct x l h = ground arith

pub erase-is_distinct : (x : ℕ) (l : List ℕ) → is_distinct l ≡ true → is_distinct (erase x l) ≡ true
erase-is_distinct x [] h = refl
erase-is_distinct x (y ∷ l) h = ground (arith, erase-is_distinct x l, member-erase y x l)

length-insert : (x : ℕ) (l : List ℕ) → member x l ≡ false → length (insert x l) ≡ length l + 1
length-insert x l h = ground arith

insert_present : (x : ℕ) (l : List ℕ) → member x l ≡ true → insert x l ≡ l
insert_present x l h = ground arith

erase-absent : (x : ℕ) (l : List ℕ) → member x l ≡ false → erase x l ≡ l
erase-absent x [] h = refl
erase-absent x (y ∷ l) h = ground (arith, erase-absent x l)

length-erase :
    (x : ℕ) (l : List ℕ)
    → is_distinct l ≡ true
    → member x l ≡ true
    → length l ≡ length (erase x l) + 1
length-erase x [] d h = cc
length-erase x (y ∷ l) d h = ground (arith, length-erase x l, erase-absent y l)

abbrev pub distinct_lists : EnumerableSet
distinct_lists = record {
  Set = (l : List ℕ) × (is_distinct l ≡ true);
  empty = ([], refl);
  contains = λ x s. member x s.0;
  add = λ x s. (insert x s.0, insert-is_distinct x s.0 s.1);
  remove = λ x s. (erase x s.0, erase-is_distinct x s.0 s.1);
  values = λ s. s.0;
}

pub distinct_lists-IsLawful : IsLawful distinct_lists
distinct_lists-IsLawful = record {
  contains-empty = λ x. refl;
  contains-add = λ x y s. member-insert x y s.0;
  contains-remove = λ x y s. member-erase x y s.0;
  contains-values = λ x s. refl;
  length-add = λ x s h. length-insert x s.0 h;
  length-remove = λ x s h. length-erase x s.0 s.1 h;
  values_add_present = λ x s h. insert_present x s.0 h;
}
