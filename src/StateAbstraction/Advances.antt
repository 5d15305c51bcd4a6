-- ===== src/StateAbstraction/Advances.antt =====
-- Calls that respect the life cycle, and how they are composed.
use guardian_safe.Prelude.{ℕ, String, ◌≡◌, subst, Bool, true, false, if◌then◌else◌}
use guardian_safe.StateAbstraction.Enums.{TxStatus}
use guardian_safe.StateAbstraction.Revert.{
  Outcome, returned, Revert, Call, pure, revert, gets, modify, require, ◌>>=◌, ◌>>◌, >>=-returned,
}
use guardian_safe.StateAbstraction.Sets.{EnumerableSet}
use guardian_safe.StateAbstraction.Types.{Chain}
use guardian_safe.StateAbstraction.Environment.{Environment}
use guardian_safe.StateAbstraction.LifeCycle.{IsSound, Advance, Advance-refl, Advance-trans}

module _ (sets : EnumerableSet) {W : Type 0} (env : Environment sets.Set W) where
  abbrev pub Evolves : Chain sets.Set W → Chain sets.Set W → Type 0
  Evolves c d = IsSound sets.contains c.self → Advance sets.contains c.self d.self

  -- The storage of the contract is changed by its own operations only, so a call of another
  -- contract can at most run some of them.
  pub record IsClosed : Type 0 where
    pub call_evolves :
        (target value gas : ℕ) (data' : String) (c : Chain sets.Set W)
        → Evolves c (env.call target value gas data' c).1
    pub transfer_evolves :
        (token recipient amount : ℕ) (c d : Chain sets.Set W)
        → env.safe_transfer token recipient amount c ≡ returned (tt, d)
        → Evolves c d
    pub forward_evolves :
        (forwarder id : ℕ) (name : String) (status : TxStatus) (c : Chain sets.Set W)
        → Evolves c (env.forward_tx_event forwarder id name status c)

  -- Where a call returns, it has respected the life cycle.
  pub record Advances {A : Type 0} (m : Call (Chain sets.Set W) A) : Type 0 where
    pub at : (c d : Chain sets.Set W) (a : A) → m c ≡ returned (a, d) → Evolves c d

  -- Where it is known which state a call leaves.
  pub leaves-Advances :
      {A : Type 0} (a b : A) (c d e : Chain sets.Set W)
      → ◌≡◌ {A = Outcome (A × Chain sets.Set W)} (returned (a, e)) (returned (b, d))
      → Advance sets.contains c.self e.self
      → Advance sets.contains c.self d.self
  leaves-Advances a b c d e p h =
      let same : e ≡ d = cc in subst (λ x. Advance sets.contains c.self x.self) same h

  pub gets-Advances : {A : Type 0} (f : Chain sets.Set W → A) → Advances (gets f)
  unfolding gets
  gets-Advances f = record {
    at = λ c d a e h. leaves-Advances _ _ c d c e (Advance-refl sets.contains c.self h);
  }

  pub pure-Advances : {A : Type 0} (a : A) → Advances (pure a)
  unfolding pure
  pure-Advances a = record {
    at = λ c d b e h. leaves-Advances _ _ c d c e (Advance-refl sets.contains c.self h);
  }

  pub modify-Advances :
      (f : Chain sets.Set W → Chain sets.Set W)
      → ((c : Chain sets.Set W) → Evolves c (f c))
      → Advances (modify f)
  unfolding modify
  modify-Advances f p = record { at = λ c d a e h. leaves-Advances _ _ c d (f c) e (p c h) }

  pub >>=-Advances :
      {A B : Type 0} (m : Call (Chain sets.Set W) A) (f : A → Call (Chain sets.Set W) B)
      → Advances m
      → ((a : A) → Advances (f a))
      → Advances (m >>= f)
  >>=-Advances m f p q = record {
    at = λ c d b e h.
        let (a, c₁, first, second) = >>=-returned m f c e in
        let one = p.at c c₁ a first h in
        Advance-trans sets.contains one ((q a).at c₁ d b second one.sound);
  }

  pub require-Advances : (b : Bool) (e : Revert) → Advances (require b e)
  unfolding require revert
  require-Advances true e = pure-Advances tt
  require-Advances false e = record { at = λ c d a p h. cc }

  pub if-Advances :
      {A : Type 0} (b : Bool) (m n : Call (Chain sets.Set W) A)
      → Advances m
      → Advances n
      → Advances (if b then m else n)
  if-Advances true m n p q = p
  if-Advances false m n p q = q

  pub after_reading :
      {A B : Type 0} (f : Chain sets.Set W → A) (g : A → Call (Chain sets.Set W) B)
      → ((a : A) → Advances (g a))
      → Advances (gets f >>= g)
  after_reading f g q = >>=-Advances (gets f) g (gets-Advances f) q

  pub after_check :
      {B : Type 0} (b : Bool) (e : Revert) (m : Call (Chain sets.Set W) B)
      → Advances m
      → Advances (require b e >> m)
  after_check b e m q = >>=-Advances (require b e) (λ _. m) (require-Advances b e) (λ _. q)
