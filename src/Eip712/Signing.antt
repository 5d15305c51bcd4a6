-- ===== src/Eip712/Signing.antt =====
-- What signing and verification guarantee of each other.
use guardian_safe.Prelude.{String, ◌≡◌, refl, true, false, arith, inl, inr, ap, ◌∙◌}
use guardian_safe.Text.{same_address}
use guardian_safe.Script.{ok, err, Result-cases, lift, >>=-eq-ok}
use guardian_safe.Eip712.Value.{text, zero_hash, TxRecord, MetaTxParams, MetaTransaction}
use guardian_safe.Eip712.Library.{Web3, Contract, SignsFor}
use guardian_safe.Eip712.Signer.{
  has_message, unsigned_meta_transaction, prepare_transaction_data, create_signed_meta_transaction,
  generate_message_hash, signature_over, sign_meta_transaction, verify_signed_meta_transaction,
}

module _ (w : Web3) where
  -- A signature that `signature_over` returns is one that `sign` made, and it recovers.
  signature_over-recovers :
      (hash key owner signature : String)
      → SignsFor w key owner
      → signature_over w hash key ≡ ok signature
      → w.recover hash signature ≡ ok owner
  unfolding signature_over
  signature_over-recovers hash key owner signature law h = grind (arith, law.recovered)

module _ {N : Type 0} (w : Web3) (contract : Contract N) where
  -- With a message at hand the contract is not called, and the answer is the comparison.
  verify_of_message :
      (m : MetaTransaction) (owner : String) (n : N)
      → has_message m ≡ true
      → w.recover m.message m.signature ≡ ok owner
      → verify_signed_meta_transaction w contract m n ≡ (ok (same_address owner m.params.signer), n)
  unfolding verify_signed_meta_transaction generate_message_hash
  verify_of_message m owner n h e = ground arith

  -- What a signed meta-transaction is, next to the one that was given.
  pub sign-parts :
      (m signed : MetaTransaction) (key : String) (n n' : N)
      → sign_meta_transaction w contract m key n ≡ (ok signed, n')
      → (signature_over w signed.message key ≡ ok signed.signature)
        × (signed ≡ record m { signature = signed.signature; message = signed.message })
  unfolding sign_meta_transaction
  sign-parts m signed key n n' h = ground arith

  -- Of a meta-transaction that `sign_meta_transaction` returned with a message, the verification
  -- answers, without a call of the contract, whether the owner of the key is the signer that the
  -- parameters name, if `sign` and `recover` agree on that key.
  pub verify-sign :
      (m signed : MetaTransaction) (key owner : String) (n n' n₂ : N)
      → SignsFor w key owner
      → sign_meta_transaction w contract m key n ≡ (ok signed, n')
      → has_message signed ≡ true
      → verify_signed_meta_transaction w contract signed n₂
        ≡ (ok (same_address owner m.params.signer), n₂)
  verify-sign m signed key owner n n' n₂ law h e =
      let (made, same) = sign-parts m signed key n n' h in
      verify_of_message signed owner n₂ e
        (signature_over-recovers w signed.message key owner signed.signature law made)
      ∙ ap (λ (t : MetaTransaction). (ok (same_address owner t.params.signer), n₂)) same

  -- Signing what was signed with the same key changes nothing and does not ask the contract again.
  pub sign-sign :
      (m signed : MetaTransaction) (key : String) (n n' n₂ : N)
      → sign_meta_transaction w contract m key n ≡ (ok signed, n')
      → has_message signed ≡ true
      → sign_meta_transaction w contract signed key n₂ ≡ (ok signed, n₂)
  unfolding sign_meta_transaction generate_message_hash
  sign-sign m signed key n n' n₂ h e =
      let (made, same) = sign-parts m signed key n n' h in ground arith

  -- Without a message the hash is the contract's.
  generate-asked :
      (m : MetaTransaction) (n n' : N) (hash : String)
      → has_message m ≡ false
      → generate_message_hash contract m n ≡ (ok hash, n')
      → (u : MetaTransaction) × (unsigned_meta_transaction contract m n ≡ (ok u, n'))
        × (hash ≡ u.message)
  unfolding generate_message_hash
  generate-asked m n n' hash e h = elim (Result-cases (unsigned_meta_transaction contract m n).0) [
    | inl (u, made) ↦ (u, ground arith, ground arith)
    | inr (message, failed) ↦ absurd (ground arith)
  ]

  sign-asked :
      (m signed : MetaTransaction) (key : String) (n n' : N)
      → has_message m ≡ false
      → sign_meta_transaction w contract m key n ≡ (ok signed, n')
      → (u : MetaTransaction) × (unsigned_meta_transaction contract m n ≡ (ok u, n'))
        × (signed.message ≡ u.message)
  unfolding sign_meta_transaction
  sign-asked m signed key n n' e h =
      let (hash, made, rest) = >>=-eq-ok (generate_message_hash contract m) _ n h in
      let (u, asked, same) =
        generate-asked m n (generate_message_hash contract m n).1 hash e (ground arith) in
      (u, ground arith, ground arith)

  -- A meta-transaction that `create_signed_meta_transaction` returns carries the given record and
  -- parameters, the message that the contract computed for a new or an existing transaction,
  -- chosen by its identifier, and a signature over that message.
  pub create_signed-parts :
      (r : TxRecord) (params : MetaTxParams) (key : String) (signed : MetaTransaction) (n n' : N)
      → create_signed_meta_transaction w contract r params key n ≡ (ok signed, n')
      → (u : MetaTransaction) × (unsigned_meta_transaction contract
            (record signed { message = zero_hash; signature = "0x" })
            n
          ≡ (ok u, n'))
        × (signed.message ≡ u.message)
        × (signed.tx_record ≡ r)
        × (signed.params ≡ params)
        × (prepare_transaction_data w r ≡ ok signed.payload)
        × (signature_over w signed.message key ≡ ok signed.signature)
  unfolding create_signed_meta_transaction
  create_signed-parts r params key signed n n' h =
      let (payload, prepared, h') = >>=-eq-ok (lift (prepare_transaction_data w r)) _ n h in
      let m : MetaTransaction = record {
        tx_record = r;
        params = params;
        message = zero_hash;
        signature = "0x";
        payload = payload;
      } in
      let (made, same) = sign-parts m signed key n n' h' in
      let (u, asked, agrees) = sign-asked m signed key n n' refl h' in
      (u, ground arith, agrees, ground arith, ground arith, ground arith, made)

  -- A record whose execution type is a text, as web3 returns it, is refused before the contract is
  -- asked or anything is signed.
  pub create_signed-text :
      (r : TxRecord) (params : MetaTxParams) (key t : String) (n : N)
      → r.params.execution_type ≡ text t
      → create_signed_meta_transaction w contract r params key n
        ≡ (err "Unsupported execution type", n)
  unfolding create_signed_meta_transaction prepare_transaction_data
  create_signed-text r params key t n h = ground arith
