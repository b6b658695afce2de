-- ===== src/Common/Sorting.antt =====
-- `sort.Slice` of the standard library. It permutes its slice and leaves it sorted when the test is a
-- strict weak order; the order of equal elements is not specified, and the slices that the program
-- sorts are filled by ranging over a map. So a sort is any function with these two laws.
use Prim.Native.Nat.{ℕ, zero, suc}
use mathlib.Core.Path.{◌≡◌}
use mathlib.Core.Logic.{inl, inr}
use mathlib.Core.Logic.Or
use mathlib.Core.Bool.{Bool, true, false, Bool-set}
use mathlib.Core.List.{List, [], ◌∷◌, Mem, Perm, not-mem-nil, mem-cons, mem-append}
use mathlib.Core.List.Perm
use tenderseed.Common.Tests.{if◌then◌else◌, Bool-cases}
use tenderseed.Common.Lists.{take, drop, All, take-append-drop}

pub record IsWeakOrder {ℓ} {A : Type ℓ} (less : A → A → Bool) : Type ℓ where
  pub asym : (x y : A) → less x y ≡ true → less y x ≡ false
  pub cotrans : (x y z : A) → less y x ≡ false → less z y ≡ false → less z x ≡ false

-- No later element comes before an earlier one.
abbrev pub IsSorted {ℓ} : {A : Type ℓ} → (A → A → Bool) → List A → Type 0
IsSorted less [] = Unit
IsSorted less (x ∷ xs) = All (λ y. less y x ≡ false) xs × IsSorted less xs

pub record Sorter {ℓ} (A : Type ℓ) : Type ℓ where
  pub sort : (A → A → Bool) → List A → List A
  pub sort-perm : (less : A → A → Bool) (xs : List A) → Perm (sort less xs) xs
  pub sort-IsSorted :
      (less : A → A → Bool) (xs : List A) → IsWeakOrder less → IsSorted less (sort less xs)

module _ {ℓ} {A : Type ℓ} where
  pub All-mem :
      {P : A → Type 0} (xs : List A) {a : A} → ((x : A) → IsProp (P x)) → All P xs → Mem a xs → P a
  All-mem [] c h m = absurd (not-mem-nil m)
  All-mem (x ∷ xs) {a} c h m = Or.elim (c a) (mem-cons.0 m) (λ e. rw e h.0) (All-mem xs c h.1)

  pub drop-subset : (n : ℕ) (xs : List A) {a : A} → Mem a (drop n xs) → Mem a xs
  drop-subset n xs {a} m =
      rw (take-append-drop n xs) at (mem-append.1 (Or.inr {A = Mem a (take n xs)} m))

  -- What a cut keeps comes before what it leaves.
  pub IsSorted-cut :
      (less : A → A → Bool) (n : ℕ) (xs : List A) {x y : A}
      → IsSorted less xs
      → Mem x (take n xs)
      → Mem y (drop n xs)
      → less y x ≡ false
  IsSorted-cut less zero xs s mx my = absurd (not-mem-nil mx)
  IsSorted-cut less (suc n) [] s mx my = absurd (not-mem-nil mx)
  IsSorted-cut less (suc n) (z ∷ xs) {x} {y} s mx my =
      Or.elim (Bool-set _ _) (mem-cons.0 mx)
        (λ e. rw e (All-mem xs (λ w. Bool-set _ _) s.0 (drop-subset n xs my)))
        (λ t. IsSorted-cut less n xs s.1 t my)

  All-take : (P : A → Type 0) (n : ℕ) (xs : List A) → All P xs → All P (take n xs)
  All-take P zero xs a = tt
  All-take P (suc n) [] a = tt
  All-take P (suc n) (x ∷ xs) a = (a.0, All-take P n xs a.1)

  pub IsSorted-take :
      (less : A → A → Bool) (n : ℕ) (xs : List A) → IsSorted less xs → IsSorted less (take n xs)
  IsSorted-take less zero xs s = tt
  IsSorted-take less (suc n) [] s = tt
  IsSorted-take less (suc n) (x ∷ xs) s =
      (All-take (λ y. less y x ≡ false) n xs s.0, IsSorted-take less n xs s.1)

  insert_sorted : (A → A → Bool) → A → List A → List A
  insert_sorted less x [] = x ∷ []
  insert_sorted less x (y ∷ ys) = if less y x then y ∷ insert_sorted less x ys else x ∷ y ∷ ys

  unfoldable pub insertion_sort : (A → A → Bool) → List A → List A
  unfolding insert_sorted
  insertion_sort less [] = []
  insertion_sort less (x ∷ xs) = insert_sorted less x (insertion_sort less xs)

  insert_sorted-perm :
      (less : A → A → Bool) (x : A) (ys : List A) → Perm (insert_sorted less x ys) (x ∷ ys)
  unfolding insert_sorted
  insert_sorted-perm less x [] = Perm.rfl
  insert_sorted-perm less x (y ∷ ys) = elim (Bool-cases (less y x)) [
    | inl e ↦ rw e (Perm.trans (Perm.cons y (insert_sorted-perm less x ys)) (Perm.swap x y ys))
    | inr e ↦ rw e Perm.rfl
  ]

  pub insertion_sort-perm : (less : A → A → Bool) (xs : List A) → Perm (insertion_sort less xs) xs
  unfolding insertion_sort
  insertion_sort-perm less [] = Perm.rfl
  insertion_sort-perm less (x ∷ xs) =
      Perm.trans (insert_sorted-perm less x (insertion_sort less xs))
        (Perm.cons x (insertion_sort-perm less xs))

  All-trans :
      (less : A → A → Bool) (w : IsWeakOrder less) (x y : A) (ys : List A)
      → less y x ≡ false
      → All (λ z. less z y ≡ false) ys
      → All (λ z. less z x ≡ false) ys
  All-trans less w x y [] h a = tt
  All-trans less w x y (z ∷ ys) h a = (w.cotrans x y z h a.0, All-trans less w x y ys h a.1)

  All-insert :
      (P : A → Type 0) (less : A → A → Bool) (x : A) (ys : List A)
      → P x
      → All P ys
      → All P (insert_sorted less x ys)
  unfolding insert_sorted
  All-insert P less x [] h a = (h, tt)
  All-insert P less x (y ∷ ys) h a = elim (Bool-cases (less y x)) [
    | inl e ↦ rw e (a.0, All-insert P less x ys h a.1)
    | inr e ↦ rw e (h, a)
  ]

  insert_sorted-IsSorted :
      (less : A → A → Bool) (w : IsWeakOrder less) (x : A) (ys : List A)
      → IsSorted less ys
      → IsSorted less (insert_sorted less x ys)
  unfolding insert_sorted
  insert_sorted-IsSorted less w x [] s = (tt, tt)
  insert_sorted-IsSorted less w x (y ∷ ys) s = elim (Bool-cases (less y x)) [
    | inl e ↦ rw e (
      All-insert (λ z. less z y ≡ false) less x ys (w.asym y x e) s.0,
      insert_sorted-IsSorted less w x ys s.1,
    )
    | inr e ↦ rw e ((e, All-trans less w x y ys e s.0), s)
  ]

  pub insertion_sort-IsSorted :
      (less : A → A → Bool) (xs : List A)
      → IsWeakOrder less
      → IsSorted less (insertion_sort less xs)
  unfolding insertion_sort
  insertion_sort-IsSorted less [] w = tt
  insertion_sort-IsSorted less (x ∷ xs) w =
      insert_sorted-IsSorted less w x _ (insertion_sort-IsSorted less xs w)

-- The laws can be met.
abbrev pub insertion_sorter {ℓ} : {A : Type ℓ} → Sorter A
insertion_sorter = record {
  sort = insertion_sort;
  sort-perm = insertion_sort-perm;
  sort-IsSorted = insertion_sort-IsSorted;
}
