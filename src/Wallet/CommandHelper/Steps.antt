-- ===== src/Wallet/CommandHelper/Steps.antt =====
-- Inversion of a computation that succeeds.
use cardano_infrastructure.Base.{◌≡◌, refl, ap, Result, ok, err}
use cardano_infrastructure.Wallet.CommandHelper.{WalletError, Io, pass_on}

module _ {W : Type 0} where
  -- The value of the first part, the state after it, and the run of the second.
  pub pass_on-ok :
      {A B : Type 0} (r : Result WalletError A × W) (f : A → Io W B) {b : B} {w : W}
      → pass_on r f ≡ (ok b, w)
      → (a : A) × (w' : W) × (r ≡ (ok a, w')) × (f a w' ≡ (ok b, w))
  pass_on-ok (ok a, w') f h = (a, w', refl, h)
  pass_on-ok (err e, w') f h = absurd (cc (ap (λ p. p.0) h))
