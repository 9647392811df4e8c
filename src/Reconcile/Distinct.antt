-- ===== src/Reconcile/Distinct.antt =====
-- The keys of a set, and a loop over them.
use tesser.Prelude.{
  ◌≡◌, refl, ◌∙◌, ap, inl, inr, Bool, true, false, Option, none, some, List, [], ◌∷◌, arith,
  if◌then◌else◌, map, Option-cases, Bool-cases,
}
use tesser.Prelude.Key.{Key}
use tesser.Prelude.HashMap.{HashMap, lookup, insert, lookup-insert}
use tesser.Reconcile.{keys, each_key, add_key, extend, index_from}

module _ {ℓ} {K : Type ℓ} ⦃e : Key K⦄ where
  abbrev pub member : K → List K → Bool
  member k [] = false
  member k (j ∷ js) = if e.same k j then true else member k js

  -- every key once
  abbrev pub IsDistinct : List K → Type ℓ
  IsDistinct [] = Unit
  IsDistinct (k ∷ ks) = (member k ks ≡ false) × IsDistinct ks

  member-add_key :
      (k j : K) (set : List K)
      → member k (add_key j set) ≡ (if e.same k j then true else member k set)
  member-add_key k j [] = refl
  member-add_key k j (i ∷ set) =
      ground (arith, member-add_key k j set, e.same_iff k j, e.same_iff j i, e.same_iff k i)

  add_key-IsDistinct : (k : K) (set : List K) → IsDistinct set → IsDistinct (add_key k set)
  add_key-IsDistinct k [] i = (refl, tt)
  add_key-IsDistinct k (j ∷ set) (n, i) =
      ground
        (arith, add_key-IsDistinct k set i, member-add_key j k set, e.same_iff k j, e.same_iff j k)

  pub member-extend :
      (k : K) (more set : List K)
      → member k (extend more set) ≡ (if member k more then true else member k set)
  member-extend k [] set = refl
  member-extend k (j ∷ more) set =
      ground (arith, member-extend k more (add_key j set), member-add_key k j set)

  pub extend-IsDistinct : (more set : List K) → IsDistinct set → IsDistinct (extend more set)
  extend-IsDistinct [] set i = i
  extend-IsDistinct (k ∷ more) set i =
      extend-IsDistinct more (add_key k set) (add_key-IsDistinct k set i)

module _ {ℓ} {V : Type ℓ} where
  abbrev pub listed : Option V → List V
  listed none = []
  listed (some v) = v ∷ []

module _ {ℓ κ} {K : Type ℓ} {V : Type κ} ⦃e : Key K⦄ where
  pub lookup-absent : (k : K) (m : HashMap K V) → member k (keys m) ≡ false → lookup k m ≡ none
  lookup-absent k [] n = refl
  lookup-absent k ((j, v) ∷ m) n = ground (arith, lookup-absent k m, n)

  pub index-absent :
      (key : V → K) (k : K) (vs : List V) (m : HashMap K V)
      → member k (map key vs) ≡ false
      → lookup k (index_from key vs m) ≡ lookup k m
  index-absent key k [] m n = refl
  index-absent key k (v ∷ vs) m n =
      ground (arith, n, index-absent key k vs (insert (key v) v m), lookup-insert (key v) k v m)

  -- the results of a key
  abbrev pub of_key : (V → K) → K → List V → List V
  of_key key k [] = []
  of_key key k (v ∷ vs) = if e.same k (key v) then v ∷ of_key key k vs else of_key key k vs

  -- A loop that goes once through the keys has for each what its body has for it.
  pub of_key-each_key :
      (key : V → K) (f : K → Option V) (k : K) (ks : List K)
      → ((j : K) (v : V) → f j ≡ some v → key v ≡ j)
      → IsDistinct ks
      → of_key key k (each_key f ks) ≡ (if member k ks then listed (f k) else [])
  of_key-each_key key f k [] own i = refl
  of_key-each_key key f k (j ∷ ks) own (n, i) =
      let later = of_key-each_key key f k ks own i in
      elim (Option-cases (f j)) [
        | inl h ↦ elim (Bool-cases (e.same k j)) [
          | inl s ↦
              let same : k ≡ j = (e.same_iff k j).0 s in
              let only : member k ks ≡ false = ap (λ x. member x ks) same ∙ n in
              let here : f k ≡ f j = ap f same in ground (arith, later, s, only, here, h)
          | inr s ↦ ground (arith, later, s, h)
        ]
        | inr (v, h) ↦
            let at : e.same k (key v) ≡ e.same k j = ap (e.same k) (own j v h) in
            elim (Bool-cases (e.same k j)) [
              | inl s ↦
                  let same : k ≡ j = (e.same_iff k j).0 s in
                  let only : member k ks ≡ false = ap (λ x. member x ks) same ∙ n in
                  let here : f k ≡ f j = ap f same in ground (arith, later, s, only, here, h, at)
              | inr s ↦ ground (arith, later, s, h, at)
            ]
      ]

  -- The same, where the body has nothing for a key that is not gone through.
  pub of_key-all :
      (key : V → K) (f : K → Option V) (k : K) (ks : List K)
      → ((j : K) (v : V) → f j ≡ some v → key v ≡ j)
      → IsDistinct ks
      → (member k ks ≡ false → f k ≡ none)
      → of_key key k (each_key f ks) ≡ listed (f k)
  of_key-all key f k ks own i absent = elim (Bool-cases (member k ks)) [
    | inl m ↦ of_key-each_key key f k ks own i ∙ rw m refl
    | inr m ↦ of_key-each_key key f k ks own i ∙ rw (m, absent m) refl
  ]
