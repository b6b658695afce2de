-- ===== src/Book/Promise/Changes.antt =====
-- The single operations of internal/tenderseed/seedbook.go, told of the records by key.
use tenderseed.Common.Int.{pos}
use tenderseed.Common.{
  ℕ, zero, suc, List, [], ◌∷◌, ◌≡◌, refl, ap, ◌∙◌, ◌⊎◌, inl, inr, not, ◌||◌, Option, none, some,
  ltb, ◌==◌, arith, Text, text_eq, text_equality, Bool-cases, Option-cases,
}
use tenderseed.Common.Map.{lookup, insert, delete, lookup-insert, lookup-delete, Distinct}
use tenderseed.Address.{NetAddress, Net}
use tenderseed.Book.{
  BookRecord, SeedBook, new_record, may_hold, admissible, add_peer, add_each, delete_first,
  get_record, mark_success, count_attempt, mark_attempt, drop_entries, drop_failing,
}
use tenderseed.Book.Failures.{lookup-drop_entries}
use tenderseed.Book.Promise.{view, put, hear, hear_each, prove, try, spare}

-- An operation changes neither the rule nor the own address.
abbrev pub IsSame : SeedBook → SeedBook → Type 0
IsSame b c = (c.strict ≡ b.strict) × (c.self ≡ b.self) × (c.max_peers ≡ b.max_peers)

module _ (net : Net) where
  view-put :
      (key : Text) (r : BookRecord) (b : SeedBook)
      → view (record b { peers = insert key r b.peers }) ≡ put key r (view b)
  view-put key r b = λ i k. lookup-insert key k r b.peers i

  view-put_twice :
      (key : Text) (r r' : BookRecord) (b : SeedBook)
      → view (record b { peers = insert key r (insert key r' b.peers) }) ≡ put key r (view b)
  view-put_twice key r r' b = λ i k. pointwise k i
    where
      pointwise :
          (k : Text) → lookup k (insert key r (insert key r' b.peers)) ≡ put key r (view b) k
      pointwise k =
          lookup-insert key k r (insert key r' b.peers) ∙ elim (Bool-cases (text_eq key k)) [
            | inl same ↦ rw same refl
            | inr other ↦ rw other (lookup-insert key k r' b.peers ∙ rw other refl)
          ]

  add_peer-refines :
      (now : ℕ) (b : SeedBook) (addr : Option NetAddress)
      → (view (add_peer net now b addr) ≡ hear net b.strict b.self now (view b) addr)
        × IsSame b (add_peer net now b addr)
  unfolding add_peer admissible
  add_peer-refines now b none = (refl, (refl, refl, refl))
  add_peer-refines now b (some addr) =
      elim (Bool-cases (not (may_hold net b.strict addr) || net.same addr b.self)) [
        | inl refused ↦ rw (refused, add_peer) (refl, (refl, refl, refl))
        | inr taken ↦ elim (Option-cases (lookup (net.to_string addr) b.peers)) [
          | inl new ↦
              rw (taken, new, add_peer)
                (view-put (net.to_string addr) (new_record addr now) b, (refl, refl, refl))
          | inr (r, old) ↦
              rw (taken, old, add_peer)
                (view-put (net.to_string addr) (record r { last_seen = now }) b, (refl, refl, refl))
        ]
      ]

  pub add_each-refines :
      (now : ℕ) (b : SeedBook) (addrs : List (Option NetAddress))
      → (view (add_each net now b addrs) ≡ hear_each net b.strict b.self now (view b) addrs)
        × IsSame b (add_each net now b addrs)
  unfolding add_each
  add_each-refines now b [] = (refl, (refl, refl, refl))
  add_each-refines now b (addr ∷ addrs) =
      let c = add_peer net now b addr in
      let (first, (strict, self, max)) = add_peer-refines now b addr in
      let (rest, (strict', self', max')) = add_each-refines now c addrs in
      (
        rest
            ∙ ap (λ s. hear_each net s c.self now (view c) addrs) strict
            ∙ ap (λ s. hear_each net b.strict s now (view c) addrs) self
            ∙ ap (λ v. hear_each net b.strict b.self now v addrs) first,
        (strict' ∙ strict, self' ∙ self, max' ∙ max),
      )

  pub mark_success-refines :
      (b : SeedBook) (addr : Option NetAddress) (now : ℕ)
      → (view (mark_success net b addr now) ≡ prove net b.strict b.self now (view b) addr)
        × IsSame b (mark_success net b addr now)
  unfolding mark_success get_record admissible
  mark_success-refines b none now = (refl, (refl, refl, refl))
  mark_success-refines b (some addr) now = elim (Bool-cases (may_hold net b.strict addr)) [
    | inr refused ↦ rw (refused, mark_success) (refl, (refl, refl, refl))
    | inl taken ↦ elim (Option-cases (lookup (net.to_string addr) b.peers)) [
      | inl new ↦
          rw (taken, new, mark_success)
            (
              view-put_twice (net.to_string addr)
                  (record (new_record addr now) { last_try = now; last_ok = now; fails = pos 0 })
                  (new_record addr now) b,
              (refl, refl, refl),
            )
      | inr (r, old) ↦
          rw (taken, old, mark_success)
            (
              view-put (net.to_string addr)
                  (record r { last_try = now; last_ok = now; fails = pos 0 }) b,
              (refl, refl, refl),
            )
    ]
  ]

  pub mark_attempt-refines :
      (b : SeedBook) (addr : Option NetAddress) (now : ℕ)
      → (view (mark_attempt net b addr now) ≡ try net b.strict b.self now (view b) addr)
        × IsSame b (mark_attempt net b addr now)
  unfolding mark_attempt get_record admissible
  mark_attempt-refines b none now = (refl, (refl, refl, refl))
  mark_attempt-refines b (some addr) now = elim (Bool-cases (may_hold net b.strict addr)) [
    | inr refused ↦ rw (refused, mark_attempt) (refl, (refl, refl, refl))
    | inl taken ↦ elim (Option-cases (lookup (net.to_string addr) b.peers)) [
      | inl new ↦
          rw (taken, new, mark_attempt)
            (
              view-put_twice (net.to_string addr) (count_attempt (new_record addr now) now)
                  (new_record addr now) b,
              (refl, refl, refl),
            )
      | inr (r, old) ↦
          rw (taken, old, mark_attempt)
            (view-put (net.to_string addr) (count_attempt r now) b, (refl, refl, refl))
    ]
  ]

  pub drop_failing-refines :
      (b : SeedBook) (limit : ℕ)
      → Distinct b.peers
      → (view (drop_failing b limit).0 ≡ spare limit (view b)) × IsSame b (drop_failing b limit).0
  unfolding drop_failing
  drop_failing-refines b limit d = elim (Bool-cases (limit == 0)) [
    | inl off ↦ rw (off, drop_failing) (refl, (refl, refl, refl))
    | inr on ↦ elim (Bool-cases (ltb 0 (drop_entries limit b.peers).1)) [
      | inl e ↦
          rw (on, e, drop_failing)
            ((λ i key. lookup-drop_entries limit key b.peers d i), (refl, refl, refl))
      | inr e ↦
          rw (on, e, drop_failing)
            ((λ i key. lookup-drop_entries limit key b.peers d i), (refl, refl, refl))
    ]
  ]

  pub delete_first-kept :
      (n : ℕ) (rs : List BookRecord) (m : List (Text × BookRecord)) (key : Text)
      → (lookup key (delete_first net n rs m) ≡ lookup key m)
        ⊎ (lookup key (delete_first net n rs m) ≡ none)
  unfolding delete_first
  delete_first-kept zero rs m key = inl refl
  delete_first-kept (suc n) [] m key = inl refl
  delete_first-kept (suc n) (r ∷ rs) m key = ground (
    arith,
    delete_first-kept n rs (delete (net.to_string r.addr) m) key,
    lookup-delete (net.to_string r.addr) key m,
  )
