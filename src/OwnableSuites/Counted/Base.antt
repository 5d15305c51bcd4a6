-- ===== src/OwnableSuites/Counted/Base.antt =====
-- Scripts that keep the count of the tests, or the wallets of the roles too, and how they are
-- composed.
use guardian_safe.Prelude.{
  String, ◌≡◌, sym, subst, Bool, true, false, Option, none, some, if◌then◌else◌,
}
use guardian_safe.Script.{
  modify, Result, ok, err, Script, pure, throw, gets, try_catch, recover, continue, ◌>>=◌,
}
use guardian_safe.Accounts.{Wallet}
use guardian_safe.SecureOwnable.Session.{
  RoleWallets, Method, Node, Session, on_node, call_contract_method, send_transaction, caller,
  address_of,
}
use guardian_safe.SecureOwnable.Run.Counts.{IsCounted}

-- The script keeps the count of the tests, and what `K` says of the wallets of the roles.
pub record Keeps {N A : Type 0} (K : RoleWallets → Type 0) (m : Script (Session N) A) : Type 0 where
  pub at : (s : Session N) → IsCounted s.test_results → IsCounted (m s).1.test_results
  pub kept : (s : Session N) → K s.role_wallets → K (m s).1.role_wallets

-- The wallets of the roles may change.
abbrev pub Counts : {N A : Type 0} → Script (Session N) A → Type 0
Counts m = Keeps (λ w. Unit {0}) m

module _ {N : Type 0} (I : Session N → Type 0) where
  continued :
      {A B : Type 0} (r : Result A) (f : A → Script (Session N) B) (s : Session N)
      → ((a : A) → I s → I (f a s).1)
      → I s
      → I (continue r f s).1
  continued (ok a) f s q h = q a h
  continued (err message) f s q h = h

  recovered :
      {A : Type 0} (handler : String → Script (Session N) A) (r : Result A) (s : Session N)
      → ((message : String) → I s → I (handler message s).1)
      → I s
      → I (recover handler r s).1
  recovered handler (ok a) s q h = h
  recovered handler (err message) s q h = q message h

module _ {N : Type 0} {K : RoleWallets → Type 0} where
  pub pure-Keeps : {A : Type 0} (a : A) → Keeps K (pure {S = Session N} a)
  pure-Keeps a = record { at = λ s h. h; kept = λ s h. h }

  pub throw-Keeps :
      {A : Type 0} (message : String) → Keeps K (throw {S = Session N} {A = A} message)
  throw-Keeps message = record { at = λ s h. h; kept = λ s h. h }

  pub on_node-Keeps : {A : Type 0} (m : Script N A) → Keeps K (on_node m)
  on_node-Keeps m = record { at = λ s h. h; kept = λ s h. h }

  pub >>=-Keeps :
      {A B : Type 0} (m : Script (Session N) A) (f : A → Script (Session N) B)
      → Keeps K m
      → ((a : A) → Keeps K (f a))
      → Keeps K (m >>= f)
  >>=-Keeps m f p q = record {
    at = λ s h.
        continued (λ t. IsCounted t.test_results) (m s).0 f (m s).1 (λ a. (q a).at (m s).1)
          (p.at s h);
    kept = λ s h.
        continued (λ t. K t.role_wallets) (m s).0 f (m s).1 (λ a. (q a).kept (m s).1) (p.kept s h);
  }

  pub gets-Keeps :
      {A B : Type 0} (g : Session N → A) (f : A → Script (Session N) B)
      → ((a : A) → Keeps K (f a))
      → Keeps K (gets g >>= f)
  gets-Keeps g f q = record { at = λ s h. (q (g s)).at s h; kept = λ s h. (q (g s)).kept s h }

  pub try_catch-Keeps :
      {A : Type 0} (m : Script (Session N) A) (handler : String → Script (Session N) A)
      → Keeps K m
      → ((message : String) → Keeps K (handler message))
      → Keeps K (try_catch m handler)
  try_catch-Keeps m handler p q = record {
    at = λ s h.
        recovered (λ t. IsCounted t.test_results) handler (m s).0 (m s).1
          (λ message. (q message).at (m s).1) (p.at s h);
    kept = λ s h.
        recovered (λ t. K t.role_wallets) handler (m s).0 (m s).1
          (λ message. (q message).kept (m s).1) (p.kept s h);
  }

  pub if-Keeps :
      {A : Type 0} (b : Bool) (m n : Script (Session N) A)
      → Keeps K m
      → Keeps K n
      → Keeps K (if b then m else n)
  if-Keeps true m n p q = p
  if-Keeps false m n p q = q

  pub option-Keeps :
      {A B : Type 0} (o : Option A) (m : Script (Session N) B) (f : A → Script (Session N) B)
      → Keeps K m
      → ((a : A) → Keeps K (f a))
      → Keeps K (elim o [ none ↦ m | some a ↦ f a ])
  option-Keeps none m f p q = p
  option-Keeps (some a) m f p q = q a

  pub address_of-Keeps : (w : Option Wallet) → Keeps K (address_of {S = Session N} w)
  address_of-Keeps none = throw-Keeps _
  address_of-Keeps (some w) = pure-Keeps _

  pub call-Keeps :
      {A : Type 0} (method : String → Script N A) (wallet : Option Wallet)
      → Keeps K (call_contract_method method wallet)
  unfolding call_contract_method
  call-Keeps method wallet =
      try_catch-Keeps _ _
        (gets-Keeps (caller wallet) _
          λ w. >>=-Keeps _ _ (address_of-Keeps w) λ from. on_node-Keeps (method from))
        (λ message. throw-Keeps _)

  pub send-Keeps :
      (node : Node N) (method : Method) (wallet : Wallet)
      → Keeps K (send_transaction node method wallet)
  unfolding send_transaction
  send-Keeps node method wallet =
      try_catch-Keeps _ _
        (>>=-Keeps _ _ (on_node-Keeps (node.estimate_gas method wallet.address))
          λ gas. on_node-Keeps (node.send method wallet.address gas))
        (λ message. throw-Keeps _)

pub modify-Keeps :
    {N : Type 0} (f : Session N → Session N)
    → ((s : Session N) → (f s).test_results ≡ s.test_results)
    → Counts (modify f)
modify-Keeps f e = record { at = λ s h. subst IsCounted (sym (e s)) h; kept = λ s h. tt }
