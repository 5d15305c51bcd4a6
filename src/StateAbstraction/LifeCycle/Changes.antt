-- ===== src/StateAbstraction/LifeCycle/Changes.antt =====
-- The changes that the operations make, one by one.
use guardian_safe.Prelude.{ℕ, ◌+◌, ◌<◌, ◌≡◌, ◌≢◌, refl, true, arith, ◌==◌, Bool-cases, inl, inr}
use guardian_safe.StateAbstraction.Enums.{
  TxStatus, undefined, pending, cancelled, completed, failed, rejected, status_code,
}
use guardian_safe.StateAbstraction.Sets.{EnumerableSet, IsLawful}
use guardian_safe.StateAbstraction.Types.{
  word_size, TxRecord, PaymentDetails, SecureOperationState, update,
}
use guardian_safe.StateAbstraction.LifeCycle.{
  ◌⟶*◌, request, cancel, complete, fail, here, next, is_settled, IsSound, Advance,
}

pub pending_of_code : (s : TxStatus) → (status_code s == 1) ≡ true → s ≡ pending
unfolding status_code
pending_of_code s h = ground arith

pub settles : (s : TxStatus) → is_settled s ≡ true → s ≢ rejected → pending ⟶* s
settles cancelled h r = next cancel here
settles completed h r = next complete here
settles failed h r = next fail here
settles rejected h r = absurd (r refl)
settles undefined h r = cc
settles pending h r = cc

requests : (s t : TxStatus) → s ≡ undefined → t ≡ pending → s ⟶* t
requests s t e f = rw (e, f) (next request here)

settles_from : (s t : TxStatus) → s ≡ pending → is_settled t ≡ true → t ≢ rejected → s ⟶* t
settles_from s t e p r = rw e (settles t p r)

stays : (s t : TxStatus) → s ≡ t → s ⟶* t
stays s t e = rw e here

module _ (sets : EnumerableSet) (law : IsLawful sets) where
  abbrev State : Type 0
  State = SecureOperationState sets.Set

  abbrev pub requested : ℕ → TxRecord → State → State
  requested id r s = record s {
    tx_records = update s.tx_records id r;
    tx_counter = id;
    pending_transactions_set = sets.add id s.pending_transactions_set;
  }

  pub requested-Advance :
      (r : TxRecord) (s : State)
      → r.status ≡ pending
      → r.tx_id ≡ s.tx_counter + 1
      → s.tx_counter + 1 < word_size
      → IsSound sets.contains s
      → Advance sets.contains s (requested (s.tx_counter + 1) r s)
  unfolding status_code
  requested-Advance r s p i b h = record {
    sound = record {
      listed = λ id.
          ground
            (arith, law.contains-add id (s.tx_counter + 1) s.pending_transactions_set, h.listed id);
      fresh = λ id l. ground (arith, h.fresh id);
      zeroth = ground (arith, h.zeroth);
      named = λ id e. ground (arith, h.named id, e);
      bounded = b;
    };
    moves = λ id. elim (Bool-cases (id == s.tx_counter + 1)) [
      | inl new ↦ requests _ _ (h.fresh id (ground arith)) (ground arith)
      | inr old ↦ stays _ _ (ground arith)
    ];
    kept = λ id e. ground (arith, h.fresh id, e);
    nonces = λ a. omega arith;
    counter = omega arith;
  }

  abbrev pub settled : ℕ → TxRecord → State → State
  settled id r s = record s {
    tx_records = update s.tx_records id r;
    pending_transactions_set = sets.remove id s.pending_transactions_set;
  }

  pub settled-Advance :
      (id : ℕ) (r : TxRecord) (s : State)
      → is_settled r.status ≡ true
      → r.status ≢ rejected
      → r.tx_id ≡ (s.tx_records id).tx_id
      → r.params ≡ (s.tx_records id).params
      → r.release_time ≡ (s.tx_records id).release_time
      → sets.contains id s.pending_transactions_set ≡ true
      → IsSound sets.contains s
      → Advance sets.contains s (settled id r s)
  unfolding status_code
  settled-Advance id r s p n i e t c h = record {
    sound = record {
      listed = λ j. ground (arith, law.contains-remove j id s.pending_transactions_set, h.listed j);
      fresh = λ j l. ground (arith, h.fresh j l, h.listed id);
      zeroth = ground (arith, h.zeroth, h.listed id);
      named = λ j f. ground (arith, h.named j, h.listed id);
      bounded = h.bounded;
    };
    moves = λ j. elim (Bool-cases (j == id)) [
      | inl this ↦
          settles_from _ _ (pending_of_code _ (ground (arith, h.listed j))) (ground arith)
            (ground arith)
      | inr other ↦ stays _ _ (ground arith)
    ];
    kept = λ j f. ground arith;
    nonces = λ a. omega arith;
    counter = omega arith;
  }

  pub counted-Advance :
      (a : ℕ) (s : State)
      → IsSound sets.contains s
      → Advance sets.contains s
          (record s { signer_nonces = update s.signer_nonces a (s.signer_nonces a + 1) })
  counted-Advance a s h = record {
    sound = record {
      listed = h.listed;
      fresh = h.fresh;
      zeroth = h.zeroth;
      named = h.named;
      bounded = h.bounded;
    };
    moves = λ id. here;
    kept = λ id e. (refl, refl);
    nonces = λ b. ground arith;
    counter = omega arith;
  }

  pub paid-Advance :
      (id : ℕ) (payment : PaymentDetails) (s : State)
      → IsSound sets.contains s
      → Advance sets.contains s (record s {
        tx_records = update s.tx_records id (record (s.tx_records id) { payment = payment });
      })
  paid-Advance id payment s h = record {
    sound = record {
      listed = λ j. ground (arith, h.listed j);
      fresh = λ j l. ground (arith, h.fresh j l);
      zeroth = ground (arith, h.zeroth);
      named = λ j e. ground (arith, h.named j);
      bounded = h.bounded;
    };
    moves = λ j. stays _ _ (ground arith);
    kept = λ j e. ground arith;
    nonces = λ a. omega arith;
    counter = omega arith;
  }
