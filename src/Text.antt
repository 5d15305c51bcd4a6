-- ===== src/Text.antt =====
-- JavaScript strings as the scripts use them: whole texts compared and joined, and the
-- case-insensitive comparison `a.toLowerCase() === b.toLowerCase()` over the code points of
-- ASCII texts (addresses, hashes, role names).
use Prim.Native.Char.{code}
use guardian_safe.Prelude.{
  ℕ, ◌+◌, ◌≡◌, ◌↔◌, refl, arith, String, Bool, true, false, ◌&&◌, ◌||◌, List, [], ◌∷◌, map, leb,
  ◌==◌, if◌then◌else◌, str_eq,
}

infixr 65 ◌<>◌
abbrev pub ◌<>◌ : String → String → String
◌<>◌ = Prim.Native.String.◌++◌

abbrev pub codes : String → List ℕ
codes String.[] = []
codes (String.◌∷◌ c s) = code c ∷ codes s

unfoldable pub lower_code : ℕ → ℕ
lower_code c = if leb b'A' c && leb c b'Z' then c + 32 else c

-- s.toLowerCase()
abbrev pub lower : String → List ℕ
lower s = map lower_code (codes s)

abbrev pub codes_eq : List ℕ → List ℕ → Bool
codes_eq [] [] = true
codes_eq (x ∷ xs) (y ∷ ys) = x == y && codes_eq xs ys
codes_eq _ _ = false

-- a.toLowerCase() === b.toLowerCase()
unfoldable pub same_address : String → String → Bool
unfolding lower_code
same_address a b = codes_eq (lower a) (lower b)

codes_eq_refl : (xs : List ℕ) → codes_eq xs xs ≡ true
codes_eq_refl [] = refl
codes_eq_refl (x ∷ xs) = ground (arith, codes_eq_refl xs)

pub codes_eq_iff : (xs ys : List ℕ) → (codes_eq xs ys ≡ true) ↔ (xs ≡ ys)
codes_eq_iff xs ys = (λ h. codes_eq_sound xs ys h, λ e. rw e (codes_eq_refl ys))
  where
    codes_eq_sound : (xs ys : List ℕ) → codes_eq xs ys ≡ true → xs ≡ ys
    codes_eq_sound [] [] h = refl
    codes_eq_sound [] (y ∷ ys) h = cc
    codes_eq_sound (x ∷ xs) [] h = cc
    codes_eq_sound (x ∷ xs) (y ∷ ys) h = ground (arith, codes_eq_sound xs ys)

pub same_address_refl : (a : String) → same_address a a ≡ true
unfolding same_address
same_address_refl a = codes_eq_refl (lower a)

-- names.includes(name)
abbrev pub includes : String → List String → Bool
includes x [] = false
includes x (y ∷ ys) = str_eq x y || includes x ys
