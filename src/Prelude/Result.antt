-- ===== src/Prelude/Result.antt =====
-- Rust's `Result`, with `?` as the bind of a `do` block.
use mathlib.Core.Path.{◌≡◌, refl}
use mathlib.Core.Logic.{◌↔◌, ◌⊎◌, inl, inr}
use mathlib.Core.Bool.{Bool, true, false}
use tesser.Prelude.Tests.{if◌then◌else◌}

pub data Result {ℓ κ} (E : Type ℓ) (A : Type κ) : Type (ℓ ⊔ κ) where
  ok : A → Result E A
  err : E → Result E A

module _ {ℓ κ} {E : Type ℓ} where
  infixl 5 ◌>>=◌ ◌>>◌
  abbrev pub ◌>>=◌ {μ} : {A : Type κ} {B : Type μ} → Result E A → (A → Result E B) → Result E B
  ok a >>= f = f a
  err e >>= f = err e

  abbrev pub ◌>>◌ : {B : Type κ} → Result E (Unit {0}) → Result E B → Result E B
  ok a >> k = k
  err e >> k = err e

module _ {ℓ} {E : Type ℓ} where
  -- `if c { return Err(e) }`
  abbrev pub fail_if : Bool → E → Result E (Unit {0})
  fail_if true e = err e
  fail_if false e = ok tt

  -- A sequence of checks passes exactly when each does.
  pub seq_iff {κ} :
      {B : Type κ} (m : Result E (Unit {0})) (k : Result E B) (b : B)
      → ((m >> k) ≡ ok b) ↔ ((m ≡ ok tt) × (k ≡ ok b))
  seq_iff (ok tt) k b = (λ h. (refl, h), λ h. h.1)
  seq_iff (err e) k b = (λ h. cc, λ h. cc (h.0))

module _ {ℓ κ} {E : Type ℓ} {A : Type κ} where
  pub Result-cases : (r : Result E A) → ((a : A) × (r ≡ ok a)) ⊎ ((e : E) × (r ≡ err e))
  Result-cases (ok a) = inl (a, refl)
  Result-cases (err e) = inr (e, refl)

  -- What a constructor gives that checks something first.
  pub ok_if :
      (c : Bool) (e : E) (a s : A) → (if c then err e else ok a) ≡ ok s → (c ≡ false) × (s ≡ a)
  ok_if true e a s h = absurd cc
  ok_if false e a s h = (refl, cc)
