-- ===== src/Script.antt =====
-- Asynchronous script code as explicit state passing: an action reads and writes a state and
-- returns a value or throws an `Error` with a message. What was written before a throw stays
-- written. Each `await` is a step of the one script that runs; nothing interleaves with it.
use guardian_safe.Prelude.{String, ◌≡◌, refl, ◌⊎◌, inl, inr}

pub data Result {ℓ} (A : Type ℓ) : Type ℓ where
  ok : A → Result A
  err : String → Result A

abbrev pub Script {ℓ} : Type ℓ → Type ℓ → Type ℓ
Script S A = S → Result A × S

module _ {ℓ} {S A : Type ℓ} where
  abbrev pub pure : A → Script S A
  pure a s = (ok a, s)

  abbrev pub throw : String → Script S A
  throw message s = (err message, s)

  abbrev pub lift : Result A → Script S A
  lift r s = (r, s)

  abbrev pub gets : (S → A) → Script S A
  gets f s = (ok (f s), s)

  abbrev pub recover : (String → Script S A) → Result A → Script S A
  recover handler (ok a) s = (ok a, s)
  recover handler (err message) s = handler message s

  -- try { … } catch (error) { … }
  abbrev pub try_catch : Script S A → (String → Script S A) → Script S A
  try_catch m handler s = let (r, s') = m s in recover handler r s'

module _ {S : Type 0} where
  abbrev pub modify : (S → S) → Script S (Unit {0})
  modify f s = (ok tt, f s)

module _ {ℓ} {S A B : Type ℓ} where
  abbrev pub continue : Result A → (A → Script S B) → Script S B
  continue (ok a) f s = f a s
  continue (err message) f s = (err message, s)

  infixl 10 ◌>>=◌ ◌>>◌
  abbrev pub ◌>>=◌ : Script S A → (A → Script S B) → Script S B
  ◌>>=◌ m f s = let (r, s') = m s in continue r f s'

  abbrev pub ◌>>◌ : Script S A → Script S B → Script S B
  m >> n = m >>= λ _. n

abbrev pub map_result {ℓ κ} : {A : Type ℓ} {B : Type κ} → (A → B) → Result A → Result B
map_result f (ok a) = ok (f a)
map_result f (err message) = err message

abbrev pub and_then {ℓ κ} : {A : Type ℓ} {B : Type κ} → Result A → (A → Result B) → Result B
and_then (ok a) f = f a
and_then (err message) f = err message

-- Inversion of an action that went on from the result of another.
continue-eq-ok {ℓ} :
    {S A B : Type ℓ} (r : Result A) (f : A → Script S B) (s : S) {b : B} {u : S}
    → continue r f s ≡ (ok b, u)
    → (a : A) × (r ≡ ok a) × (f a s ≡ (ok b, u))
continue-eq-ok (ok a) f s h = (a, refl, h)
continue-eq-ok (err message) f s h = cc

pub >>=-eq-ok {ℓ} :
    {S A B : Type ℓ} (m : Script S A) (f : A → Script S B) (s : S) {b : B} {u : S}
    → (m >>= f) s ≡ (ok b, u)
    → (a : A) × ((m s).0 ≡ ok a) × (f a (m s).1 ≡ (ok b, u))
>>=-eq-ok m f s h = continue-eq-ok (m s).0 f (m s).1 h

pub Result-cases {ℓ} :
    {A : Type ℓ} (r : Result A) → ((a : A) × (r ≡ ok a)) ⊎ ((message : String) × (r ≡ err message))
Result-cases (ok a) = inl (a, refl)
Result-cases (err message) = inr (message, refl)

pub map_result-eq-ok {ℓ κ} :
    {A : Type ℓ} {B : Type κ} (f : A → B) (r : Result A) {b : B}
    → map_result f r ≡ ok b
    → (a : A) × (r ≡ ok a) × (f a ≡ b)
map_result-eq-ok f (ok a) h = (a, refl, cc)
map_result-eq-ok f (err message) h = cc
