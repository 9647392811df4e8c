-- ===== src/Prelude/HashMap.antt =====
-- `std::collections::HashMap` as an association list. The order of iteration, which Rust leaves
-- open, is the order of the list.
use mathlib.Core.Path.{◌≡◌, refl}
use mathlib.Core.Bool.{Bool}
use mathlib.Core.Option.{Option, none, some}
use mathlib.Core.List.{List, [], ◌∷◌}
use native.Mathlib.Omega.{arith}
use tesser.Prelude.Tests.{if◌then◌else◌, Bool-cases, some_inj}
use mathlib.Core.Logic.{inl, inr}
use Prim.Derive.{subst}
use tesser.Prelude.Lists.{All}
use tesser.Prelude.Key.{Key}

abbrev pub HashMap {ℓ κ} : Type ℓ → Type κ → Type (ℓ ⊔ κ)
HashMap K V = List (K × V)

module _ {ℓ κ} {K : Type ℓ} {V : Type κ} where
  -- `values()`
  abbrev pub values : HashMap K V → List V
  values [] = []
  values ((k, v) ∷ m) = v ∷ values m

  -- `retain`, by the value
  abbrev pub retain : (V → Bool) → HashMap K V → HashMap K V
  retain p [] = []
  retain p ((k, v) ∷ m) = if p v then (k, v) ∷ retain p m else retain p m

module _ {ℓ κ} {K : Type ℓ} {V : Type κ} ⦃e : Key K⦄ where
  -- `get`
  abbrev pub lookup : K → HashMap K V → Option V
  lookup k [] = none
  lookup k ((j, v) ∷ m) = if e.same k j then some v else lookup k m

  -- `insert`
  abbrev pub insert : K → V → HashMap K V → HashMap K V
  insert k v [] = (k, v) ∷ []
  insert k v ((j, w) ∷ m) = if e.same k j then (j, v) ∷ m else (j, w) ∷ insert k v m

  -- `entry(k).or_insert(d)`, and then `f` on the entry
  abbrev pub entry_or : K → V → (V → V) → HashMap K V → HashMap K V
  entry_or k d f [] = (k, f d) ∷ []
  entry_or k d f ((j, w) ∷ m) = if e.same k j then (j, f w) ∷ m else (j, w) ∷ entry_or k d f m

  pub lookup-insert :
      (k j : K) (v : V) (m : HashMap K V)
      → lookup j (insert k v m) ≡ (if e.same j k then some v else lookup j m)
  lookup-insert k j v [] = refl
  lookup-insert k j v ((i, w) ∷ m) =
      ground (
        arith,
        e.same_iff k j,
        e.same_iff k i,
        e.same_iff j i,
        e.same_iff j k,
        lookup-insert k j v m,
      )

  pub lookup-entry_or :
      (k j : K) (d : V) (f : V → V) (m : HashMap K V)
      → lookup j (entry_or k d f m) ≡ (
          if e.same j k then some (f (elim (lookup k m) [ none ↦ d | some w ↦ w ])) else lookup j m)
  lookup-entry_or k j d f [] = refl
  lookup-entry_or k j d f ((i, w) ∷ m) = ground (
    arith,
    e.same_iff k j,
    e.same_iff k i,
    e.same_iff j i,
    e.same_iff j k,
    lookup-entry_or k j d f m,
  )

  -- `remove`, on a map that may hold a key more than once in the list
  abbrev pub remove : K → HashMap K V → HashMap K V
  remove k [] = []
  remove k ((j, v) ∷ m) = if e.same k j then remove k m else (j, v) ∷ remove k m

  -- `get_mut`, and then `f` on the entry if there is one
  abbrev pub modify : K → (V → V) → HashMap K V → HashMap K V
  modify k f [] = []
  modify k f ((j, v) ∷ m) = if e.same k j then (j, f v) ∷ m else (j, v) ∷ modify k f m

  pub lookup-remove :
      (k j : K) (m : HashMap K V)
      → lookup j (remove k m) ≡ (if e.same j k then none else lookup j m)
  lookup-remove k j [] = ground arith
  lookup-remove k j ((i, v) ∷ m) =
      ground
        (arith, e.same_iff k j, e.same_iff k i, e.same_iff j i, e.same_iff j k, lookup-remove k j m)

  pub lookup-modify :
      (k j : K) (f : V → V) (m : HashMap K V)
      → lookup j (modify k f m) ≡ (
          if e.same j k
          then (elim (lookup k m) [ none ↦ none | some v ↦ some (f v) ])
          else lookup j m)
  lookup-modify k j f [] = ground arith
  lookup-modify k j f ((i, v) ∷ m) =
      ground (
        arith,
        e.same_iff k j,
        e.same_iff k i,
        e.same_iff j i,
        e.same_iff j k,
        lookup-modify k j f m,
      )

  -- what holds of every value
  abbrev pub Values {μ} : (V → Type μ) → HashMap K V → Type μ
  Values P m = All (λ (p : K × V). P p.1) m

  pub insert-Values {μ} :
      (P : V → Type μ) (k : K) (v : V) (m : HashMap K V)
      → P v
      → Values P m
      → Values P (insert k v m)
  insert-Values P k v [] p a = (p, tt)
  insert-Values P k v ((j, w) ∷ m) p (q, a) = elim (Bool-cases (e.same k j)) [
    | inl s ↦ rw s (p, a)
    | inr s ↦ rw s (q, insert-Values P k v m p a)
  ]

  pub remove-Values {μ} :
      (P : V → Type μ) (k : K) (m : HashMap K V) → Values P m → Values P (remove k m)
  remove-Values P k [] a = tt
  remove-Values P k ((j, w) ∷ m) (q, a) = elim (Bool-cases (e.same k j)) [
    | inl s ↦ rw s (remove-Values P k m a)
    | inr s ↦ rw s (q, remove-Values P k m a)
  ]

  pub lookup-Values {μ} :
      (P : V → Type μ) (k : K) {v : V} (m : HashMap K V) → Values P m → lookup k m ≡ some v → P v
  lookup-Values P k [] a = λ h. absurd (cc h)
  lookup-Values P k ((j, w) ∷ m) (q, a) = elim (Bool-cases (e.same k j)) [
    | inl s ↦ rw s (λ h. subst P (some_inj h) q)
    | inr s ↦ rw s (λ h. lookup-Values P k m a h)
  ]
