-- ===== src/StateAbstraction/LifeCycle.antt =====
-- The life cycle of a transaction, as a step relation on its status, and what every change of the
-- state has to respect.
pub mod Changes
use guardian_safe.Prelude.{
  ℕ, ◌+◌, ◌≤◌, ◌<◌, ◌≡◌, ◌≢◌, refl, sym, ◌∙◌, Bool, true, false, not, arith, ◌==◌, if◌then◌else◌,
  ==_iff, Bool-cases, ◌⊎◌, inl, inr,
}
use guardian_safe.StateAbstraction.Enums.{
  TxStatus, undefined, pending, cancelled, completed, failed, rejected, status_code,
}
use guardian_safe.StateAbstraction.Sets.{EnumerableSet, IsLawful}
use guardian_safe.StateAbstraction.Types.{
  word_size, TxRecord, PaymentDetails, SecureOperationState, update,
}

infix 40 ◌⟶◌ ◌⟶*◌
pub data ◌⟶◌ : TxStatus → TxStatus → Type 0 where
  request : undefined ⟶ pending
  cancel : pending ⟶ cancelled
  complete : pending ⟶ completed
  fail : pending ⟶ failed

pub data ◌⟶*◌ : TxStatus → TxStatus → Type 0 where
  here : {s : TxStatus} → s ⟶* s
  next : {s t u : TxStatus} → s ⟶ t → t ⟶* u → s ⟶* u

pub ⟶*-trans : {s t u : TxStatus} → s ⟶* t → t ⟶* u → s ⟶* u
⟶*-trans here q = q
⟶*-trans (next e p) q = next e (⟶*-trans p q)

-- Whether nothing happens to a transaction any more.
abbrev pub is_settled : TxStatus → Bool
is_settled undefined = false
is_settled pending = false
is_settled cancelled = true
is_settled completed = true
is_settled failed = true
is_settled rejected = true

pub settled_stays : {s t : TxStatus} → s ⟶* t → is_settled s ≡ true → t ≡ s
settled_stays here h = refl
settled_stays (next request p) h = cc
settled_stays (next cancel p) h = cc
settled_stays (next complete p) h = cc
settled_stays (next fail p) h = cc

pub never_undefined : {s t : TxStatus} → s ⟶* t → s ≢ undefined → t ≢ undefined
never_undefined here h = h
never_undefined (next request p) h = absurd (h refl)
never_undefined (next cancel p) h = never_undefined p (λ e. cc)
never_undefined (next complete p) h = never_undefined p (λ e. cc)
never_undefined (next fail p) h = never_undefined p (λ e. cc)

module _ {Set : Type 0} (contains : ℕ → Set → Bool) where
  -- The pending transactions are those in the set, the identifiers up to the counter have been given
  -- out, and a record knows its identifier.
  pub record IsSound (s : SecureOperationState Set) : Type 0 where
    pub listed :
        (id : ℕ)
        → contains id s.pending_transactions_set ≡ (status_code (s.tx_records id).status == 1)
    pub fresh : (id : ℕ) → s.tx_counter < id → (s.tx_records id).status ≡ undefined
    pub zeroth : (s.tx_records 0).status ≡ undefined
    pub named : (id : ℕ) → (s.tx_records id).status ≢ undefined → (s.tx_records id).tx_id ≡ id
    pub bounded : s.tx_counter < word_size

  -- What a change leads to: a sound state, in which every transaction has moved along its life cycle
  -- and kept what it was requested with, and no nonce has gone back.
  pub record Advance (s t : SecureOperationState Set) : Type 0 where
    pub sound : IsSound t
    pub moves : (id : ℕ) → (s.tx_records id).status ⟶* (t.tx_records id).status
    pub kept :
        (id : ℕ)
        → (s.tx_records id).status ≢ undefined
        → ((t.tx_records id).params ≡ (s.tx_records id).params)
          × ((t.tx_records id).release_time ≡ (s.tx_records id).release_time)
    pub nonces : (a : ℕ) → s.signer_nonces a ≤ t.signer_nonces a
    pub counter : s.tx_counter ≤ t.tx_counter

  pub Advance-refl : (s : SecureOperationState Set) → IsSound s → Advance s s
  Advance-refl s h = record {
    sound = h;
    moves = λ id. here;
    kept = λ id e. (refl, refl);
    nonces = λ a. omega arith;
    counter = omega arith;
  }

  pub Advance-trans : {s t u : SecureOperationState Set} → Advance s t → Advance t u → Advance s u
  Advance-trans p q = record {
    sound = q.sound;
    moves = λ id. ⟶*-trans (p.moves id) (q.moves id);
    kept = λ id e.
        let later = q.kept id (never_undefined (p.moves id) e) in
        (later.0 ∙ (p.kept id e).0, later.1 ∙ (p.kept id e).1);
    nonces = λ a. omega (arith, p.nonces a, q.nonces a);
    counter = omega (arith, p.counter, q.counter);
  }
