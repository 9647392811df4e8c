-- ===== src/Prelude/Key.antt =====
-- Keys of hash maps: a type with a Boolean equality that decides the path equality.
use Prim.Native.Nat.{ℕ}
use mathlib.Core.Path.{◌≡◌}
use mathlib.Core.Logic.{◌↔◌}
use mathlib.Core.Bool.{Bool, true, ◌&&◌}
use native.Mathlib.Omega.{arith}
use tesser.Prelude.Tests.{◌==◌, ==_iff}

pub record Key {ℓ} (K : Type ℓ) : Type ℓ where
  pub same : K → K → Bool
  pub same_iff : (a b : K) → (same a b ≡ true) ↔ (a ≡ b)

instance abbrev pub nat_key : Key ℕ
nat_key = record { same = ◌==◌; same_iff = ==_iff }

-- keys that are pairs
module _ {ℓ κ} {A : Type ℓ} {B : Type κ} ⦃e : Key A⦄ ⦃f : Key B⦄ where
  abbrev pub same_pair : A × B → A × B → Bool
  same_pair (a, b) (c, d) = e.same a c && f.same b d

  pub same_pair_iff : (p q : A × B) → (same_pair p q ≡ true) ↔ (p ≡ q)
  same_pair_iff (a, b) (c, d) = ground (arith, e.same_iff a c, f.same_iff b d)

  instance abbrev pub pair_key : Key (A × B)
  pair_key = record { same = same_pair; same_iff = same_pair_iff }
