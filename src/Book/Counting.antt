-- ===== src/Book/Counting.antt =====
-- The reached addresses of the book of internal/tenderseed/seedbook.go, and what hearsay does to them.
use mathlib.Core.List.{mem-cons, not-mem-nil, mem-cons_self, mem-cons_of_mem, mem-append, Mem-prop}
use mathlib.Core.List.Perm
use mathlib.Core.Logic.Or
use mathlib.Core.Logic.{∥∥₁_elim}
use native.Mathlib.Nat.{ℕ_set}
use native.Mathlib.Bridge.{le_prop}
use mathlib.Core.List.{Permᴰ}
use tenderseed.Common.{
  ℕ, ◌+◌, ◌≤◌, ◌<◌, List, [], ◌∷◌, ◌++◌, ◌≡◌, refl, ◌∙◌, sym, subst, false, not, ◌||◌, Option, none,
  some, inl, inr, arith, Text, text_equality, text_eq, text_eq_iff, Bool-cases, Option-cases,
  length, Mem, Perm, perm-length, length-append, length-map, length_pos_of_mem, none≢some,
}
use tenderseed.Common.Map.{lookup, insert, values, lookup-insert, lookup-All}
use tenderseed.Common.Sorting.{Sorter}
use tenderseed.Common.Time.{is_zero}
use tenderseed.Address.{NetAddress, Net}
use tenderseed.Book.{
  BookRecord, SeedBook, new_record, admissible, evict_less, evict, add_peer, add_each, add_peers,
}
use tenderseed.Book.Queries.{count_verified, verified_size}
use tenderseed.Book.Invariant.{EntryOk, IsValid, add_each-IsValid, evict-IsValid}
use tenderseed.Book.Eviction.{evict_split, length-evict, lookup-values, mem-values}

count-Permᴰ : {xs ys : List BookRecord} → Permᴰ xs ys → count_verified xs ≡ count_verified ys
unfolding count_verified
count-Permᴰ Permᴰ.nil = refl
count-Permᴰ (Permᴰ.cons e p) = rw (e, count-Permᴰ p)
count-Permᴰ (Permᴰ.swap e f) = rw (e, f) (ground arith)
count-Permᴰ (Permᴰ.trans p q) = count-Permᴰ p ∙ count-Permᴰ q

count-perm : {xs ys : List BookRecord} → Perm xs ys → count_verified xs ≡ count_verified ys
count-perm p = ∥∥₁_elim p (ℕ_set _ _) count-Permᴰ

count-append :
    (xs ys : List BookRecord) → count_verified (xs ++ ys) ≡ count_verified xs + count_verified ys
unfolding count_verified
count-append [] ys = omega arith
count-append (x ∷ xs) ys = ground (arith, count-append xs ys)

count-pos :
    (xs : List BookRecord) {x : BookRecord}
    → Mem x xs
    → is_zero x.last_ok ≡ false
    → 0 < count_verified xs
unfolding count_verified
count-pos [] m h = absurd (not-mem-nil m)
count-pos (y ∷ xs) {x} m h =
    Or.elim le_prop (mem-cons.0 m)
      (λ e. let q : is_zero y.last_ok ≡ false = rw (← e) h in ground arith)
      (λ t. ground (arith, count-pos xs t h))

count_all :
    (xs : List BookRecord)
    → ((x : BookRecord) → Mem x xs → is_zero x.last_ok ≡ false)
    → count_verified xs ≡ length xs
unfolding count_verified
count_all [] h = refl
count_all (x ∷ xs) h =
    ground (arith, h x mem-cons_self, count_all xs (λ y m. h y (mem-cons_of_mem x m)))

reached_before :
    (x y : BookRecord)
    → is_zero x.last_ok ≡ false
    → evict_less y x ≡ false
    → is_zero y.last_ok ≡ false
unfolding evict_less
reached_before x y h e = ground arith

module _ (net : Net) (sorter : Sorter BookRecord) where
  -- While the reached addresses fit in the book, an eviction takes none of them.
  evict-keeps_reached :
      (b : SeedBook) (x : BookRecord)
      → IsValid net b
      → verified_size b ≤ b.max_peers
      → is_zero x.last_ok ≡ false
      → Mem x (values b.peers)
      → Mem x (values (evict net sorter b).peers)
  unfolding verified_size
  evict-keeps_reached b x v fits reached m =
      let (gone, p, n, before) = evict_split net sorter b v in
      let kept = values (evict net sorter b).peers in
      Or.elim Mem-prop (mem-append.0 (Perm.subset p x m))
        (λ (g : Mem x gone). absurd (
          omega (
            arith,
            count-perm p,
            count-append gone kept,
            count-pos gone g reached,
            count_all kept (λ y k. reached_before x y reached (before x y g k)),
            perm-length p,
            length-append gone kept,
            length-map (λ (e : Text × BookRecord). e.1) b.peers,
            length_pos_of_mem gone g,
          )))
        (λ k. k)

  -- Two books that hold the same proofs: every entry of the first is in the second, with the same
  -- last success.
  abbrev KeepsProofs : SeedBook → SeedBook → Type 0
  KeepsProofs b c =
      (key : Text) (r : BookRecord)
      → lookup key b.peers ≡ some r
      → (r' : BookRecord) × (lookup key c.peers ≡ some r') × (r'.last_ok ≡ r.last_ok)

  count-insert_old :
      (k : Text) (m : List (Text × BookRecord)) (r r' : BookRecord)
      → lookup k m ≡ some r
      → r'.last_ok ≡ r.last_ok
      → count_verified (values (insert k r' m)) ≡ count_verified (values m)
  unfolding count_verified
  count-insert_old k [] r r' h e = absurd (none≢some h)
  count-insert_old k ((j, w) ∷ m) r r' h e = ground (arith, count-insert_old k m r r')

  count-insert_new :
      (k : Text) (m : List (Text × BookRecord)) (r : BookRecord)
      → lookup k m ≡ none
      → r.last_ok ≡ 0
      → count_verified (values (insert k r m)) ≡ count_verified (values m)
  unfolding count_verified
  count-insert_new k [] r h e = ground arith
  count-insert_new k ((j, w) ∷ m) r h e = ground (arith, count-insert_new k m r)

  count-add_peer :
      (now : ℕ) (b : SeedBook) (addr : Option NetAddress)
      → count_verified (values (add_peer net now b addr).peers) ≡ count_verified (values b.peers)
  unfolding add_peer
  count-add_peer now b none = refl
  count-add_peer now b (some addr) =
      let k = net.to_string addr in
      elim (Bool-cases (not (admissible net b (some addr)) || net.same addr b.self)) [
        | inl refused ↦ rw refused
        | inr taken ↦ elim (Option-cases (lookup k b.peers)) [
          | inl new ↦ rw (taken, new) (count-insert_new k b.peers (new_record addr now) new refl)
          | inr (r, old) ↦
              rw (taken, old) (count-insert_old k b.peers r (record r { last_seen = now }) old refl)
        ]
      ]

  lookup-add_peer :
      (now : ℕ) (b : SeedBook) (addr : Option NetAddress) → KeepsProofs b (add_peer net now b addr)
  unfolding add_peer
  lookup-add_peer now b none key r h = (r, h, refl)
  lookup-add_peer now b (some addr) key r h =
      let k = net.to_string addr in
      elim (Bool-cases (not (admissible net b (some addr)) || net.same addr b.self)) [
        | inl refused ↦ rw refused (r, h, refl)
        | inr taken ↦ elim (Option-cases (lookup k b.peers)) [
          | inl new ↦
              rw (taken, new)
                (
                  r,
                  ground
                      (arith, lookup-insert k key (new_record addr now) b.peers, text_eq_iff k key),
                  refl,
                )
          | inr (old, found) ↦ elim (Bool-cases (text_eq k key)) [
            | inl same ↦
                rw (taken, found)
                  (
                    record old { last_seen = now },
                    rw (lookup-insert k key (record old { last_seen = now }) b.peers, same),
                    ground (arith, text_eq_iff k key),
                  )
            | inr other ↦
                rw (taken, found)
                  (
                    r,
                    rw (lookup-insert k key (record old { last_seen = now }) b.peers, other) h,
                    refl,
                  )
          ]
        ]
      ]

  count-add_each :
      (now : ℕ) (b : SeedBook) (addrs : List (Option NetAddress))
      → count_verified (values (add_each net now b addrs).peers) ≡ count_verified (values b.peers)
  unfolding add_each
  count-add_each now b [] = refl
  count-add_each now b (addr ∷ addrs) =
      count-add_each now (add_peer net now b addr) addrs ∙ count-add_peer now b addr

  lookup-add_each :
      (now : ℕ) (b : SeedBook) (addrs : List (Option NetAddress))
      → KeepsProofs b (add_each net now b addrs)
  unfolding add_each
  lookup-add_each now b [] key r h = (r, h, refl)
  lookup-add_each now b (addr ∷ addrs) key r h =
      let (r', h', e') = lookup-add_peer now b addr key r h in
      let (r'', h'', e'') = lookup-add_each now (add_peer net now b addr) addrs key r' h' in
      (r'', h'', e'' ∙ e')

  max_peers-add_peer :
      (now : ℕ) (b : SeedBook) (addr : Option NetAddress)
      → (add_peer net now b addr).max_peers ≡ b.max_peers
  unfolding add_peer
  max_peers-add_peer now b none = refl
  max_peers-add_peer now b (some addr) = ground arith

  max_peers-add_each :
      (now : ℕ) (b : SeedBook) (addrs : List (Option NetAddress))
      → (add_each net now b addrs).max_peers ≡ b.max_peers
  unfolding add_each
  max_peers-add_each now b [] = refl
  max_peers-add_each now b (addr ∷ addrs) =
      max_peers-add_each now (add_peer net now b addr) addrs ∙ max_peers-add_peer now b addr

  -- Addresses that are only mentioned, however many, push out none that was reached: while the
  -- reached addresses of a valid book fit in it, each is still held after `AddPeers`, with its proof.
  pub add_peers-keeps_reached :
      (b : SeedBook) (addrs : List (Option NetAddress)) (now : ℕ) (key : Text) (r : BookRecord)
      → IsValid net b
      → verified_size b ≤ b.max_peers
      → lookup key b.peers ≡ some r
      → is_zero r.last_ok ≡ false
      → (r' : BookRecord) × (lookup key (add_peers net sorter b addrs now).peers ≡ some r')
        × (r'.last_ok ≡ r.last_ok)
  unfolding add_peers verified_size
  add_peers-keeps_reached b addrs now key r v fits h reached =
      let added = add_each net now b addrs in
      let (r', h', e') = lookup-add_each now b addrs key r h in
      let v' = add_each-IsValid net now b addrs v in
      let kept =
        evict-keeps_reached added r' v'
          (omega (arith, count-add_each now b addrs, max_peers-add_each now b addrs))
          (rw e' reached) (mem-values net b.strict key added.peers h') in
      let named = (lookup-All (EntryOk net added.strict) key added.peers v'.held h').0 in
      let v'' = evict-IsValid net sorter added v' in
      (
        r',
        subst (λ x. lookup x (evict net sorter added).peers ≡ some r') (sym named)
            (lookup-values net (evict net sorter added).strict (evict net sorter added).peers
              v''.distinct v''.held kept),
        e',
      )

  -- `AddPeers` leaves at most `max_peers` addresses in a valid book.
  pub length-add_peers :
      (b : SeedBook) (addrs : List (Option NetAddress)) (now : ℕ)
      → IsValid net b
      → length (add_peers net sorter b addrs now).peers ≤ b.max_peers
  unfolding add_peers
  length-add_peers b addrs now v = omega (
    arith,
    length-evict net sorter (add_each net now b addrs) (add_each-IsValid net now b addrs v),
    max_peers-add_each now b addrs,
  )
