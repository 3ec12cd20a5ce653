-- ===== src/Base/Map.antt =====
-- `std::map` as an association list in key order: `operator[]`, `count`, `erase`, iteration.
use mathlib.Core.Path.{◌≡◌, refl, subst, ◌∙◌}
use mathlib.Core.Bool.{Bool, true, false}
use mathlib.Core.List.{List, [], ◌∷◌, ◌++◌}
use mathlib.Core.Logic.{inl, inr}
use mathlib.Core.Option.{Option, none, some}
use native.Mathlib.Omega.{arith}
use lab.Base.Tests.{if◌then◌else◌, Bool-cases}
use lab.Base.Key.{Key}

abbrev pub Map {ℓ κ} : Type ℓ → Type κ → Type (ℓ ⊔ κ)
Map K V = List (K × V)

pub beq_self {ℓ} : {K : Type ℓ} ⦃o : Key K⦄ (k : K) → o.beq k k ≡ true
beq_self ⦃o⦄ k = (o.beq_iff k k).1 refl

beq_sym {ℓ} : {K : Type ℓ} ⦃o : Key K⦄ (j k : K) → o.beq j k ≡ o.beq k j
beq_sym ⦃o⦄ j k = ground (arith, o.beq_iff j k, o.beq_iff k j)

module _ {ℓ κ} {K : Type ℓ} {V : Type κ} ⦃o : Key K⦄ where
  unfoldable pub lookup : K → Map K V → Option V
  lookup k [] = none
  lookup k ((j, v) ∷ m) = if o.beq j k then some v else lookup k m

  -- `m[k] = v`.
  unfoldable pub insert : K → V → Map K V → Map K V
  insert k v [] = (k, v) ∷ []
  insert k v ((j, w) ∷ m) =
      let rest = insert k v m in
      if o.beq j k then (k, v) ∷ m else if o.before k j then (k, v) ∷ (j, w) ∷ m else (j, w) ∷ rest

  unfoldable pub erase : K → Map K V → Map K V
  erase k [] = []
  erase k ((j, w) ∷ m) = let rest = erase k m in if o.beq j k then rest else (j, w) ∷ rest

  -- `m.count(k) != 0`.
  abbrev pub has : K → Map K V → Bool
  has k m = elim (lookup k m) [ none ↦ false | some v ↦ true ]

  -- The value that `m[k]` reads, where `d` is the value of a fresh entry.
  abbrev pub at : K → V → Map K V → V
  at k d m = elim (lookup k m) [ none ↦ d | some v ↦ v ]

  -- What evaluating `m[k]` leaves behind: a missing key gets an entry.
  unfoldable pub touch : K → V → Map K V → Map K V
  touch k d m = if has k m then m else insert k d m

  pub lookup-insert :
      (k j : K) (v : V) (m : Map K V)
      → lookup j (insert k v m) ≡ (if o.beq k j then some v else lookup j m)
  unfolding lookup insert
  lookup-insert k j v [] = refl
  lookup-insert k j v ((i, w) ∷ m) =
      ground (arith, o.beq_iff k j, o.beq_iff i k, o.beq_iff i j, lookup-insert k j v m)

  pub lookup-erase :
      (k j : K) (m : Map K V) → lookup j (erase k m) ≡ (if o.beq k j then none else lookup j m)
  unfolding lookup erase
  lookup-erase k j [] = ground arith
  lookup-erase k j ((i, w) ∷ m) =
      ground (arith, o.beq_iff k j, o.beq_iff i k, o.beq_iff i j, lookup-erase k j m)

  pub lookup-touch :
      (k j : K) (d : V) (m : Map K V)
      → lookup j (touch k d m) ≡ (if o.beq k j then some (at k d m) else lookup j m)
  unfolding touch
  lookup-touch k j d m = ground (arith, o.beq_iff k j, lookup-insert k j d m)

  -- The keys rise along the list.
  abbrev pub Above : K → Map K V → Type 0
  Above k [] = Unit
  Above k ((j, w) ∷ m) = (o.before k j ≡ true) × Above k m

  abbrev pub IsSorted : Map K V → Type 0
  IsSorted [] = Unit
  IsSorted ((j, w) ∷ m) = Above j m × IsSorted m

  Above-insert :
      (i k : K) (v : V) (m : Map K V) → o.before i k ≡ true → Above i m → Above i (insert k v m)
  unfolding insert
  Above-insert i k v [] h a = (h, tt)
  Above-insert i k v ((j, w) ∷ m) h a = ground (arith, Above-insert i k v m)

  Above-trans : (i k : K) (m : Map K V) → o.before i k ≡ true → Above k m → Above i m
  Above-trans i k [] h a = tt
  Above-trans i k ((j, w) ∷ m) h a = (o.before_trans i k j h a.0, Above-trans i k m h a.1)

  Above-eq : (j k : K) (m : Map K V) → o.beq j k ≡ true → Above j m → Above k m
  Above-eq j k m e a = subst (λ i. Above i m) ((o.beq_iff j k).0 e) a

  -- An assignment keeps the key order.
  pub insert-IsSorted : (k : K) (v : V) (m : Map K V) → IsSorted m → IsSorted (insert k v m)
  unfolding insert
  insert-IsSorted k v [] s = (tt, tt)
  insert-IsSorted k v ((j, w) ∷ m) s = elim (Bool-cases (o.beq j k)) [
    | inl same ↦ rw same (Above-eq j k m same s.0, s.1)
    | inr other ↦ rw other (elim (Bool-cases (o.before k j)) [
      | inl less ↦ rw less ((less, Above-trans k j m less s.0), s)
      | inr more ↦ rw more (
        Above-insert j k v m (o.before_total k j (beq_sym k j ∙ other) more) s.0,
        insert-IsSorted k v m s.1,
      )
    ])
  ]

  -- Every key of the map stands before `k`.
  abbrev pub Below : K → Map K V → Type 0
  Below k [] = Unit
  Below k ((j, w) ∷ m) = (o.before j k ≡ true) × Below k m

  -- A key behind all others is added at the end.
  pub insert_last : (k : K) (v : V) (m : Map K V) → Below k m → insert k v m ≡ m ++ (k, v) ∷ []
  unfolding insert
  insert_last k v [] b = refl
  insert_last k v ((j, w) ∷ m) b =
      ground (arith, beq_sym j k, o.before_ne j k, o.before_asym j k, insert_last k v m b.1)

  pub Below-snoc :
      (k i : K) (v : V) (m : Map K V) → Below k m → o.before k i ≡ true → Below i (m ++ (k, v) ∷ [])
  Below-snoc k i v [] b h = (h, tt)
  Below-snoc k i v ((j, w) ∷ m) b h = (o.before_trans j k i b.0 h, Below-snoc k i v m b.1 h)
