-- ===== src/Common/Map.antt =====
-- A Go map as an association list. Its order stands for the order in which one `range` over the map
-- happens to visit the entries.
use tenderseed.Common.Tests.{Eq, if◌then◌else◌, Bool-cases, none≢some, some-path}
use tenderseed.Common.Lists.{length, All}
use Prim.Native.Nat.{◌+◌, ◌≤◌}
use mathlib.Core.Path.{◌≡◌, refl, sym, subst}
use mathlib.Core.Logic.{inl, inr}
use mathlib.Core.List.{List, [], ◌∷◌, map, Perm}
use mathlib.Core.List.Perm
use mathlib.Core.Option.{Option, none, some}
use native.Mathlib.Omega.{arith}

-- The values in the order of the entries.
abbrev pub values {ℓ κ} : {K : Type ℓ} {V : Type κ} → List (K × V) → List V
values = map (λ e. e.1)

module _ {ℓ κ} {K : Type ℓ} {V : Type κ} ⦃e : Eq K⦄ where
  -- `m[k]`
  abbrev pub lookup : K → List (K × V) → Option V
  lookup k [] = none
  lookup k ((j, v) ∷ m) = if e.beq j k then some v else lookup k m

  -- `m[k] = v`
  abbrev pub insert : K → V → List (K × V) → List (K × V)
  insert k v [] = (k, v) ∷ []
  insert k v ((j, w) ∷ m) = if e.beq j k then (j, v) ∷ m else (j, w) ∷ insert k v m

  -- `delete(m, k)`
  abbrev pub delete : K → List (K × V) → List (K × V)
  delete k [] = []
  delete k ((j, w) ∷ m) = if e.beq j k then delete k m else (j, w) ∷ delete k m

  -- No key twice: what a map is, and what every operation keeps.
  abbrev pub Distinct : List (K × V) → Type κ
  Distinct [] = Unit
  Distinct ((k, v) ∷ m) = (lookup k m ≡ none) × Distinct m

module _ {ℓ κ} {K : Type ℓ} {V : Type κ} ⦃e : Eq K⦄ where
  pub lookup-insert :
      (k j : K) (v : V) (m : List (K × V))
      → lookup j (insert k v m) ≡ (if e.beq k j then some v else lookup j m)
  lookup-insert k j v [] = refl
  lookup-insert k j v ((i, w) ∷ m) =
      ground (arith, e.beq_iff k j, e.beq_iff i k, e.beq_iff i j, lookup-insert k j v m)

  pub lookup-insert_self : (k : K) (v : V) (m : List (K × V)) → lookup k (insert k v m) ≡ some v
  lookup-insert_self k v m = ground (arith, lookup-insert k k v m, e.beq_iff k k)

  pub lookup-delete :
      (k j : K) (m : List (K × V))
      → lookup j (delete k m) ≡ (if e.beq k j then none else lookup j m)
  lookup-delete k j [] = ground arith
  lookup-delete k j ((i, w) ∷ m) =
      ground (arith, e.beq_iff k j, e.beq_iff i k, e.beq_iff i j, lookup-delete k j m)

  pub insert-Distinct : (k : K) (v : V) (m : List (K × V)) → Distinct m → Distinct (insert k v m)
  insert-Distinct k v [] d = ground arith
  insert-Distinct k v ((i, w) ∷ m) d =
      ground (arith, lookup-insert k i v m, insert-Distinct k v m, e.beq_iff i k, e.beq_iff k i)

  pub delete-Distinct : (k : K) (m : List (K × V)) → Distinct m → Distinct (delete k m)
  delete-Distinct k [] d = tt
  delete-Distinct k ((i, w) ∷ m) d = ground (arith, lookup-delete k i m, delete-Distinct k m)

  pub length-insert :
      (k : K) (v : V) (m : List (K × V))
      → length (insert k v m) ≡ length m + elim (lookup k m) [ none ↦ 1 | some _ ↦ 0 ]
  length-insert k v [] = ground arith
  length-insert k v ((i, w) ∷ m) = ground (arith, length-insert k v m)

  pub delete_absent : (k : K) (m : List (K × V)) → lookup k m ≡ none → delete k m ≡ m
  delete_absent k [] h = refl
  delete_absent k ((i, w) ∷ m) h = ground (arith, delete_absent k m)

  pub length-delete :
      (k : K) (m : List (K × V)) (v : V)
      → Distinct m
      → lookup k m ≡ some v
      → length (delete k m) + 1 ≡ length m
  length-delete k [] v d h = ground arith
  length-delete k ((i, w) ∷ m) v d h =
      ground (arith, length-delete k m v, delete_absent k m, e.beq_iff i k)

  pub length-delete-le : (k : K) (m : List (K × V)) → length (delete k m) ≤ length m
  length-delete-le k [] = omega arith
  length-delete-le k ((i, w) ∷ m) = ground (arith, length-delete-le k m)

  -- What holds of every entry.
  pub insert-All {μ} :
      (P : K × V → Type μ) (k : K) (v : V) (m : List (K × V))
      → All P m
      → P (k, v)
      → All P (insert k v m)
  insert-All P k v [] a h = (h, tt)
  insert-All P k v ((i, w) ∷ m) a h = elim (Bool-cases (e.beq i k)) [
    | inl same ↦ rw same (subst (λ x. P (x, v)) (sym ((e.beq_iff i k).0 same)) h, a.1)
    | inr other ↦ rw other (a.0, insert-All P k v m a.1 h)
  ]

  pub delete-All {μ} :
      (P : K × V → Type μ) (k : K) (m : List (K × V)) → All P m → All P (delete k m)
  delete-All P k [] a = tt
  delete-All P k ((i, w) ∷ m) a = elim (Bool-cases (e.beq i k)) [
    | inl same ↦ rw same (delete-All P k m a.1)
    | inr other ↦ rw other (a.0, delete-All P k m a.1)
  ]

  pub lookup-All {μ} :
      (P : K × V → Type μ) (k : K) (m : List (K × V)) {v : V}
      → All P m
      → lookup k m ≡ some v
      → P (k, v)
  lookup-All P k [] a h = absurd (cc)
  lookup-All P k ((i, w) ∷ m) {v} a h = elim (Bool-cases (e.beq i k)) [
    | inl same ↦
        let found : some w ≡ some v = rw same at h in
        let q : w ≡ v = cc in
        subst (λ x. P (x, v)) ((e.beq_iff i k).0 same) (subst (λ x. P (i, x)) q a.0)
    | inr other ↦ lookup-All P k m a.1 (rw other at h)
  ]

  -- A map's values are the value under a key and those of the map without the key.
  pub values-delete-perm :
      (k : K) (m : List (K × V)) {v : V}
      → Distinct m
      → lookup k m ≡ some v
      → Perm (values m) (v ∷ values (delete k m))
  values-delete-perm k [] d h = absurd (none≢some h)
  values-delete-perm k ((i, w) ∷ m) {v} d h = elim (Bool-cases (e.beq i k)) [
    | inl same ↦
        let found : some w ≡ some v = rw same at h in
        rw (same, delete_absent k m (subst (λ x. lookup x m ≡ none) ((e.beq_iff i k).0 same) d.0))
          (Perm.cons' (some-path found) Perm.rfl)
    | inr other ↦ rw other (
        Perm.trans (Perm.cons w (values-delete-perm k m d.1 (rw other at h)))
          (Perm.swap v w (values (delete k m))))
  ]
