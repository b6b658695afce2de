-- ===== src/Reactor/Spread/Shuffle.antt =====
-- `shuffleAddresses` of internal/tenderseed/seedreactortm2.go only reorders.
use mathlib.Core.List.Perm
use tenderseed.Common.{
  ℕ, zero, suc, ◌+◌, List, [], ◌∷◌, ◌≡◌, refl, some, inl, inr, length, get_elem?, set, Perm,
  Option-cases, none≢some, some-path,
}
use tenderseed.Address.{NetAddress}
use tenderseed.Reactor.Spread.{
  Random, random_below, swap, shuffle_from, shuffle_addresses, last_index,
}

module _ {A : Type 0} where
  -- To write `b` over `a` trades the one for the other.
  set-perm :
      (xs : List A) (i : ℕ) {a : A} (b : A)
      → get_elem? xs i ≡ some a
      → Perm (a ∷ set xs i b) (b ∷ xs)
  set-perm [] i b h = absurd (none≢some h)
  set-perm (x ∷ xs) zero {a} b h = rw (some-path h) (Perm.swap b a xs)
  set-perm (x ∷ xs) (suc i) {a} b h =
      Perm.trans (Perm.swap x a (set xs i b))
        (Perm.trans (Perm.cons x (set-perm xs i b h)) (Perm.swap b x xs))

  get_elem?-set_same :
      (xs : List A) (i j : ℕ) (b : A) → get_elem? xs j ≡ some b → get_elem? (set xs i b) j ≡ some b
  get_elem?-set_same [] i j b h = h
  get_elem?-set_same (x ∷ xs) zero zero b h = refl
  get_elem?-set_same (x ∷ xs) zero (suc j) b h = h
  get_elem?-set_same (x ∷ xs) (suc i) zero b h = h
  get_elem?-set_same (x ∷ xs) (suc i) (suc j) b h = get_elem?-set_same xs i j b h

  swap-perm : (i j : ℕ) (xs : List A) → Perm (swap i j xs) xs
  unfolding swap
  swap-perm i j xs = elim (Option-cases (get_elem? xs i)) [
    | inl out ↦ rw (out, swap) Perm.rfl
    | inr (a, at_i) ↦ elim (Option-cases (get_elem? xs j)) [
      | inl out ↦ rw (at_i, out, swap) Perm.rfl
      | inr (b, at_j) ↦
          rw (at_i, at_j, swap)
            (Perm.cons_inv (
              Perm.trans (set-perm (set xs i b) j a (get_elem?-set_same xs i j b at_j))
                (set-perm xs i b at_i)))
    ]
  ]

  shuffle_from-perm : (rand : Random) (i : ℕ) (xs : List A) → Perm (shuffle_from rand i xs) xs
  unfolding shuffle_from
  shuffle_from-perm rand zero xs = Perm.rfl
  shuffle_from-perm rand (suc i) xs =
      Perm.trans (shuffle_from-perm rand i (swap (suc i) (random_below rand (suc i + 1)) xs))
        (swap-perm (suc i) (random_below rand (suc i + 1)) xs)

-- Whatever the random source gives, a shuffle neither loses nor repeats an address.
pub shuffle_addresses-perm :
    (rand : Random) (addrs : List NetAddress) → Perm (shuffle_addresses rand addrs) addrs
unfolding shuffle_addresses
shuffle_addresses-perm rand addrs = shuffle_from-perm rand (last_index (length addrs)) addrs
