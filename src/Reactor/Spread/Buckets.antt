-- ===== src/Reactor/Spread/Buckets.antt =====
-- The buckets of `spreadByGroup`, internal/tenderseed/seedreactortm2.go: what one pass takes from them and
-- what adding an address does.
use mathlib.Core.List.{flatten, append_assoc, perm_middle, mem-cons, not-mem-nil}
use mathlib.Core.List.Perm
use mathlib.Core.Logic.Or
use native.Mathlib.Bridge.{le_prop}
use tenderseed.Common.{
  ◌<◌, List, [], ◌∷◌, ◌++◌, ◌≡◌, refl, sym, subst, ◌∙◌, ap, some, inl, inr, arith, length, Perm,
  Mem, Option-cases, Bool-cases, List-cases, none≢some, some-path, Text, text_equality, text_eq,
  text_eq_iff,
}
use tenderseed.Common.Map.{lookup, insert, values, Distinct, insert-Distinct, lookup-insert}
use tenderseed.Address.{NetAddress}
use tenderseed.Reactor.Spread.{bucket_of, take_round}

pub cons≢nil {ℓ} : {A : Type ℓ} {x : A} {xs : List A} → ◌≡◌ {A = List A} (x ∷ xs) [] → ⊥
cons≢nil h = cc

abbrev pub Buckets : Type 0
Buckets = List (Text × List NetAddress)

-- Every address that the buckets hold.
abbrev pub contents : Buckets → List NetAddress
contents g = flatten (values g)

pub contents-take :
    (key : Text) (g : Buckets) (a : NetAddress) (bucket : List NetAddress)
    → lookup key g ≡ some (a ∷ bucket)
    → Perm (a ∷ contents (insert key bucket g)) (contents g)
unfolding flatten
contents-take key [] a bucket h = absurd (none≢some h)
contents-take key ((k, w) ∷ g) a bucket h = elim (Bool-cases (text_eq k key)) [
  | inl same ↦ let q : w ≡ a ∷ bucket = some-path (rw same at h) in rw (same, q) Perm.rfl
  | inr other ↦ rw other (
      Perm.trans (Perm.symm (perm_middle w (contents (insert key bucket g))))
        (Perm.append_left w (contents-take key g a bucket (rw other at h))))
]

pub perm_last : (xs : List NetAddress) (a : NetAddress) → Perm (a ∷ xs) (xs ++ a ∷ [])
perm_last [] a = Perm.rfl
perm_last (x ∷ xs) a = Perm.trans (Perm.swap x a xs) (Perm.cons x (perm_last xs a))

pub contents-put :
    (key : Text) (g : Buckets) (a : NetAddress) (bucket : List NetAddress)
    → bucket_of key g ≡ bucket
    → Perm (contents (insert key (bucket ++ a ∷ []) g)) (contents g ++ a ∷ [])
unfolding bucket_of flatten
contents-put key [] a bucket h = rw (← h) Perm.rfl
contents-put key ((k, w) ∷ g) a bucket h = elim (Bool-cases (text_eq k key)) [
  | inl same ↦
      let q : w ≡ bucket = rw (same, bucket_of) at h in
      rw (same, ← q, append_assoc w (a ∷ []) (contents g), append_assoc w (contents g) (a ∷ []))
        (Perm.append_left w (perm_last (contents g) a))
  | inr other ↦
      rw (other, append_assoc w (contents g) (a ∷ []))
        (Perm.append_left w (contents-put key g a bucket (rw (other, bucket_of) at h)))
]

pub lookup-bucket_of :
    (key : Text) (g : Buckets) {a : NetAddress} {bucket : List NetAddress}
    → bucket_of key g ≡ a ∷ bucket
    → lookup key g ≡ some (a ∷ bucket)
unfolding bucket_of
lookup-bucket_of key g {a} {bucket} h = ground (arith, Option-cases (lookup key g))

pub take_round-perm :
    (order : List Text) (g : Buckets)
    → Perm ((take_round order g).0 ++ contents (take_round order g).1) (contents g)
unfolding take_round
take_round-perm [] g = Perm.rfl
take_round-perm (key ∷ order) g = elim (List-cases (bucket_of key g)) [
  | inl e ↦ rw (e, take_round) (take_round-perm order g)
  | inr (a, bucket, e) ↦
      rw (e, take_round)
        (Perm.trans (Perm.cons a (take_round-perm order (insert key bucket g)))
          (contents-take key g a bucket (lookup-bucket_of key g e)))
]

-- A pass takes something while there is something.
pub take_round-progress :
    (order : List Text) (g : Buckets) (key : Text) (a : NetAddress) (bucket : List NetAddress)
    → Mem key order
    → bucket_of key g ≡ a ∷ bucket
    → 0 < length (take_round order g).0
unfolding take_round
take_round-progress [] g key a bucket m h = absurd (not-mem-nil m)
take_round-progress (k ∷ order) g key a bucket m h = elim (List-cases (bucket_of k g)) [
  | inr (b, rest, e) ↦ rw (e, take_round) (omega arith)
  | inl e ↦
      rw (e, take_round)
        (Or.elim le_prop (mem-cons.0 m)
          (λ q. absurd (cons≢nil (sym h ∙ ap (λ z. bucket_of z g) q ∙ e)))
          (λ t. take_round-progress order g key a bucket t h))
]

-- Each key is in the order.
abbrev pub Covers : List Text → Buckets → Type 0
Covers order g =
    (key : Text) (bucket : List NetAddress) → lookup key g ≡ some bucket → Mem key order

pub lookup-take_round :
    (order : List Text) (g : Buckets) (key : Text) {bucket : List NetAddress}
    → lookup key (take_round order g).1 ≡ some bucket
    → (before : List NetAddress) × (lookup key g ≡ some before)
unfolding take_round
lookup-take_round [] g key {bucket} h = (bucket, h)
lookup-take_round (k ∷ order) g key {bucket} h = elim (List-cases (bucket_of k g)) [
  | inl e ↦ lookup-take_round order g key (rw (e, take_round) at h)
  | inr (a, rest, e) ↦
      let (b, found) = lookup-take_round order (insert k rest g) key (rw (e, take_round) at h) in
      elim (Bool-cases (text_eq k key)) [
        | inl same ↦
            let q = (text_eq_iff k key).0 same in
            (a ∷ rest, subst (λ z. lookup z g ≡ some (a ∷ rest)) q (lookup-bucket_of k g e))
        | inr other ↦ (b, rw (lookup-insert k key rest g, other) at found)
      ]
]

pub Covers-take_round :
    (order : List Text) (g : Buckets) → Covers order g → Covers order (take_round order g).1
Covers-take_round order g c key bucket h =
    let (before, found) = lookup-take_round order g key h in c key before found

-- While an address is left, some bucket has one.
pub pending :
    (g : Buckets)
    → Distinct g
    → 0 < length (contents g)
    → (key : Text) × (a : NetAddress) × (bucket : List NetAddress) × (bucket_of key g ≡ a ∷ bucket)
unfolding flatten bucket_of
pending [] d h = absurd (omega arith)
pending ((k, a ∷ w) ∷ g) d h = (k, a, w, rw ((text_eq_iff k k).1 refl, bucket_of) refl)
pending ((k, []) ∷ g) d h =
    let (key, a, bucket, e) = pending g d.1 h in
    elim (Bool-cases (text_eq k key)) [
      | inl same ↦ absurd (
          none≢some (
            sym d.0
            ∙ subst (λ z. lookup z g ≡ some (a ∷ bucket)) (sym ((text_eq_iff k key).0 same))
                (lookup-bucket_of key g e)))
      | inr other ↦ (key, a, bucket, rw (other, bucket_of) e)
    ]

pub Distinct-take_round :
    (order : List Text) (g : Buckets) → Distinct g → Distinct (take_round order g).1
unfolding take_round
Distinct-take_round [] g d = d
Distinct-take_round (k ∷ order) g d = elim (List-cases (bucket_of k g)) [
  | inl e ↦ rw (e, take_round) (Distinct-take_round order g d)
  | inr (a, rest, e) ↦
      rw (e, take_round) (Distinct-take_round order (insert k rest g) (insert-Distinct k rest g d))
]
