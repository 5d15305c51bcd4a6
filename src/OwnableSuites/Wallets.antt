-- ===== src/OwnableSuites/Wallets.antt =====
-- `findUnusedWalletForRecovery`, `findUnusedWalletForBroadcaster` and `findWalletByAddress`.
use guardian_safe.Prelude.{
  String, ◌≡◌, subst, true, false, Option, none, some, List, [], ◌∷◌, arith, if◌then◌else◌,
  Bool-cases, inl, inr,
}
use guardian_safe.Text.{◌<>◌, same_address, same_address_refl}
use guardian_safe.Script.{Result, ok, err, Result-cases, Script, lift, gets, ◌>>=◌}
use guardian_safe.Accounts.{Wallet}
use guardian_safe.SecureOwnable.Session.{Session, wallet_named, undefined_address}

-- wallet1 to wallet5 of `this.wallets`
abbrev pub test_wallets : {N : Type 0} → Session N → List (Option Wallet)
test_wallets s =
    wallet_named "wallet1" s.wallets
    ∷ wallet_named "wallet2" s.wallets
    ∷ wallet_named "wallet3" s.wallets
    ∷ wallet_named "wallet4" s.wallets
    ∷ wallet_named "wallet5" s.wallets
    ∷ []

-- `current` is compared with the addresses, all of which are read first
abbrev pub addresses : List (Option Wallet) → Result (List String)
addresses [] = ok []
addresses (none ∷ ws) = err undefined_address
addresses (some w ∷ ws) = elim (addresses ws) [
  | ok rest ↦ ok (w.address ∷ rest)
  | err message ↦ err message
]

abbrev pub first_other : String → String → List String → Result String
first_other role current [] = err ("No unused wallet found for " <> role <> " update")
first_other role current (a ∷ rest) =
    if same_address a current then first_other role current rest else ok a

abbrev pub first_at : String → List (Option Wallet) → Result Wallet
first_at address [] = err ("Wallet not found for address: " <> address)
first_at address (none ∷ ws) = err undefined_address
first_at address (some w ∷ ws) =
    if same_address w.address address then ok w else first_at address ws

module _ {N : Type 0} where
  unfoldable pub find_unused_wallet : String → String → Script (Session N) String
  find_unused_wallet role current = do
    wallets ← gets test_wallets
    available_wallets ← lift (addresses wallets)
    lift (first_other role current available_wallets)

  abbrev pub find_unused_wallet_for_recovery : String → Script (Session N) String
  find_unused_wallet_for_recovery current = find_unused_wallet "recovery" current

  abbrev pub find_unused_wallet_for_broadcaster : String → Script (Session N) String
  find_unused_wallet_for_broadcaster current = find_unused_wallet "broadcaster" current

  unfoldable pub find_wallet_by_address : String → Script (Session N) Wallet
  find_wallet_by_address address = do wallets ← gets test_wallets; lift (first_at address wallets)

-- One of the addresses is found again.
found_again :
    (role current address : String) (ws : List (Option Wallet)) (rest : List String)
    → addresses ws ≡ ok rest
    → first_other role current rest ≡ ok address
    → (same_address address current ≡ false)
      × ((w : Wallet) × (first_at address ws ≡ ok w) × (same_address w.address address ≡ true))
found_again role current address [] rest e f = ground arith
found_again role current address (none ∷ ws) rest e f = cc
found_again role current address (some w ∷ ws) rest e f = elim (Result-cases (addresses ws)) [
  | inr (message, r) ↦ absurd (ground arith)
  | inl (others, r) ↦ elim (Bool-cases (same_address w.address current)) [
    | inl same ↦
        let (other, (v, found, there)) =
          found_again role current address ws others r (ground arith) in
        elim (Bool-cases (same_address w.address address)) [
          | inl here ↦ (other, (w, ground arith, here))
          | inr differs ↦ (other, (v, ground arith, there))
        ]
    | inr other ↦
        let e' : w.address ≡ address = ground arith in
        let here : same_address w.address address ≡ true =
          subst (λ a. same_address w.address a ≡ true) e' (same_address_refl w.address) in
        (subst (λ a. same_address a current ≡ false) e' other, (w, ground arith, here))
  ]
]

-- An address that is found for an update is not the current one, and a wallet of the tests is found
-- at it, so that the two searches fit together; neither changes anything.
pub find_wallet_by_address-find_unused_wallet :
    {N : Type 0} (role current address : String) (s t : Session N)
    → find_unused_wallet role current s ≡ (ok address, t)
    → (t ≡ s)
      × (same_address address current ≡ false)
      × ((w : Wallet) × (find_wallet_by_address address s ≡ (ok w, s))
          × (same_address w.address address ≡ true))
unfolding find_unused_wallet find_wallet_by_address
find_wallet_by_address-find_unused_wallet role current address s t h =
    elim (Result-cases (addresses (test_wallets s))) [
      | inr (message, r) ↦ absurd (ground arith)
      | inl (others, r) ↦
          let (other, (w, found, there)) =
            found_again role current address (test_wallets s) others r (ground arith) in
          (ground arith, other, (w, ground arith, there))
    ]
