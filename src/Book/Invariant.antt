-- ===== src/Book/Invariant.antt =====
-- The invariant of the book of internal/tenderseed/seedbook.go, kept by every operation.
use tenderseed.Common.Int.{pos, leb_ℤ}
use tenderseed.Common.{
  ℕ, zero, suc, List, [], ◌∷◌, ◌≡◌, refl, sym, subst, ◌-◌, length, some-path, none≢some, Bool, true,
  Option, none, some, inl, inr, arith, Text, text_equality, All, Bool-cases, Option-cases, ltb, leb,
  ◌==◌,
}
use tenderseed.Common.Map.{
  lookup, delete, Distinct, insert-Distinct, delete-Distinct, insert-All, delete-All, lookup-All,
  lookup-insert_self, values,
}
use tenderseed.Common.Sorting.{Sorter}
use tenderseed.Address.{NetAddress, Net}
use tenderseed.Book.{
  BookRecord, SeedBook, new_record, changed, may_hold, admissible, add_peer, add_each, delete_first,
  get_record, put_record, mark_success, count_attempt, mark_attempt, evict, add_peers, drop_entries,
  drop_failing, evict_less,
}

-- A call on the book. The time of each is given with it.
pub data Call : Type 0 where
  adds : List (Option NetAddress) → ℕ → Call
  succeeds attempts : Option NetAddress → ℕ → Call
  drops : ℕ → Call

module _ (net : Net) where
  open net use {validate, routable, same, to_string}

  -- An entry stands under its address's own text, and its address may be held.
  abbrev pub EntryOk : Bool → Text × BookRecord → Type 0
  EntryOk strict (key, r) = (key ≡ to_string r.addr) × (may_hold net strict r.addr ≡ true)

  pub record IsValid (b : SeedBook) : Type 0 where
    pub distinct : Distinct b.peers
    pub held : All (EntryOk b.strict) b.peers

  pub put-IsValid :
      (b : SeedBook) (addr : NetAddress) (r : BookRecord)
      → IsValid b
      → to_string r.addr ≡ to_string addr
      → may_hold net b.strict r.addr ≡ true
      → IsValid (put_record net addr r b)
  put-IsValid b addr r v named ok = record {
    distinct = insert-Distinct (to_string addr) r b.peers v.distinct;
    held = insert-All (EntryOk b.strict) (to_string addr) r b.peers v.held (sym named, ok);
  }

  -- The record found under an address stays under it, whatever dates it is given.
  found-EntryOk :
      (b : SeedBook) (addr : NetAddress) {r : BookRecord}
      → IsValid b
      → lookup (to_string addr) b.peers ≡ some r
      → EntryOk b.strict (to_string addr, r)
  found-EntryOk b addr v h = lookup-All (EntryOk b.strict) (to_string addr) b.peers v.held h

  changed-IsValid : {b : SeedBook} → IsValid b → IsValid (changed b)
  changed-IsValid v = record { distinct = v.distinct; held = v.held }

  put_found-IsValid :
      (b : SeedBook) (addr : NetAddress) (r r' : BookRecord)
      → IsValid b
      → lookup (to_string addr) b.peers ≡ some r
      → r'.addr ≡ r.addr
      → IsValid (put_record net addr r' b)
  put_found-IsValid b addr r r' v h e =
      let (named, ok) = found-EntryOk b addr v h in
      put-IsValid b addr r' v (rw (e, named)) (rw e ok)

  put_new-IsValid :
      (b : SeedBook) (addr : NetAddress) (now : ℕ)
      → IsValid b
      → admissible net b (some addr) ≡ true
      → IsValid (put_record net addr (new_record addr now) b)
  unfolding admissible
  put_new-IsValid b addr now v ok = put-IsValid b addr (new_record addr now) v refl ok

  add_peer-IsValid :
      (now : ℕ) (b : SeedBook) (addr : Option NetAddress)
      → IsValid b
      → IsValid (add_peer net now b addr)
  unfolding add_peer
  add_peer-IsValid now b none v = v
  add_peer-IsValid now b (some addr) v = elim (Bool-cases (admissible net b (some addr))) [
    | inr refused ↦ rw refused v
    | inl ok ↦ elim (Bool-cases (same addr b.self)) [
      | inl own ↦ rw (ok, own) v
      | inr other ↦ elim (Option-cases (lookup (to_string addr) b.peers)) [
        | inl new ↦ rw (ok, other, new) (changed-IsValid (put_new-IsValid b addr now v ok))
        | inr (r, old) ↦
            rw (ok, other, old)
              (changed-IsValid
                (put_found-IsValid b addr r (record r { last_seen = now }) v old refl))
      ]
    ]
  ]

  pub add_each-IsValid :
      (now : ℕ) (b : SeedBook) (addrs : List (Option NetAddress))
      → IsValid b
      → IsValid (add_each net now b addrs)
  unfolding add_each
  add_each-IsValid now b [] v = v
  add_each-IsValid now b (addr ∷ addrs) v =
      add_each-IsValid now (add_peer net now b addr) addrs (add_peer-IsValid now b addr v)

  abbrev Handed : NetAddress → BookRecord × SeedBook → Type 0
  Handed addr (r, held) = IsValid held × (lookup (to_string addr) held.peers ≡ some r)

  -- What `record` hands out is stored in a valid book, under the address asked for.
  get_record-Handed :
      (b : SeedBook) (addr : NetAddress) (now : ℕ) (out : BookRecord × SeedBook)
      → IsValid b
      → get_record net b addr now ≡ some out
      → Handed addr out
  unfolding get_record
  get_record-Handed b addr now out v h = elim (Bool-cases (admissible net b (some addr))) [
    | inr refused ↦ absurd (none≢some (rw refused at h))
    | inl ok ↦ elim (Option-cases (lookup (to_string addr) b.peers)) [
      | inl new ↦
          let fresh : BookRecord = new_record addr now in
          let q : some (fresh, put_record net addr fresh b) ≡ some out = rw (ok, new) at h in
          subst (Handed addr) (some-path q)
            (put_new-IsValid b addr now v ok, lookup-insert_self (to_string addr) fresh b.peers)
      | inr (r, old) ↦
          let q : some (r, b) ≡ some out = rw (ok, old) at h in
          subst (Handed addr) (some-path q) (v, old)
    ]
  ]

  mark_success-IsValid :
      (b : SeedBook) (addr : Option NetAddress) (now : ℕ)
      → IsValid b
      → IsValid (mark_success net b addr now)
  unfolding mark_success
  mark_success-IsValid b none now v = v
  mark_success-IsValid b (some addr) now v = elim (Option-cases (get_record net b addr now)) [
    | inl refused ↦ rw (refused, mark_success) v
    | inr ((r, held), h) ↦
        let (kept, found) = get_record-Handed b addr now (r, held) v h in
        rw (h, mark_success)
          (changed-IsValid (
            put_found-IsValid held addr r
              (record r { last_try = now; last_ok = now; fails = pos 0 }) kept found refl))
  ]

  mark_attempt-IsValid :
      (b : SeedBook) (addr : Option NetAddress) (now : ℕ)
      → IsValid b
      → IsValid (mark_attempt net b addr now)
  unfolding mark_attempt count_attempt
  mark_attempt-IsValid b none now v = v
  mark_attempt-IsValid b (some addr) now v = elim (Option-cases (get_record net b addr now)) [
    | inl refused ↦ rw (refused, mark_attempt) v
    | inr ((r, held), h) ↦
        let (kept, found) = get_record-Handed b addr now (r, held) v h in
        rw (h, mark_attempt)
          (changed-IsValid (put_found-IsValid held addr r (count_attempt r now) kept found refl))
  ]

  pub delete_first-keeps :
      (strict : Bool) (n : ℕ) (rs : List BookRecord) (m : List (Text × BookRecord))
      → Distinct m
      → All (EntryOk strict) m
      → Distinct (delete_first net n rs m) × All (EntryOk strict) (delete_first net n rs m)
  unfolding delete_first
  delete_first-keeps strict zero rs m d a = (d, a)
  delete_first-keeps strict (suc n) [] m d a = (d, a)
  delete_first-keeps strict (suc n) (r ∷ rs) m d a =
      delete_first-keeps strict n rs (delete (to_string r.addr) m)
        (delete-Distinct (to_string r.addr) m d)
        (delete-All (EntryOk strict) (to_string r.addr) m a)

  lookup_dropped :
      (limit : ℕ) (key : Text) (m : List (Text × BookRecord))
      → lookup key m ≡ none
      → lookup key (drop_entries limit m).0 ≡ none
  unfolding drop_entries
  lookup_dropped limit key [] h = refl
  lookup_dropped limit key ((k, r) ∷ m) h = ground (arith, lookup_dropped limit key m)

  drop_entries-keeps :
      (strict : Bool) (limit : ℕ) (m : List (Text × BookRecord))
      → Distinct m
      → All (EntryOk strict) m
      → Distinct (drop_entries limit m).0 × All (EntryOk strict) (drop_entries limit m).0
  unfolding drop_entries
  drop_entries-keeps strict limit [] d a = (tt, tt)
  drop_entries-keeps strict limit ((k, r) ∷ m) d a =
      let (d', a') = drop_entries-keeps strict limit m d.1 a.1 in
      elim (Bool-cases (leb_ℤ limit r.fails)) [
        | inl over ↦ rw over (d', a')
        | inr under ↦ rw under ((lookup_dropped limit k m d.0, d'), (a.0, a'))
      ]

  drop_failing-IsValid : (b : SeedBook) (limit : ℕ) → IsValid b → IsValid (drop_failing b limit).0
  unfolding drop_failing
  drop_failing-IsValid b limit v =
      let (d, a) = drop_entries-keeps b.strict limit b.peers v.distinct v.held in
      elim (Bool-cases (limit == 0)) [
        | inl off ↦ rw off v
        | inr on ↦ elim (Bool-cases (ltb 0 (drop_entries limit b.peers).1)) [
          | inl some_dropped ↦ rw (on, some_dropped) (record { distinct = d; held = a })
          | inr none_dropped ↦ rw (on, none_dropped) (record { distinct = d; held = a })
        ]
      ]

  module _ (sorter : Sorter BookRecord) where
    pub evict-IsValid : (b : SeedBook) → IsValid b → IsValid (evict net sorter b)
    unfolding evict
    evict-IsValid b v =
        let rs = sorter.sort evict_less (values b.peers) in
        let (d, a) =
          delete_first-keeps b.strict (length b.peers - b.max_peers) rs b.peers v.distinct v.held in
        elim (Bool-cases (leb (length b.peers) b.max_peers)) [
          | inl fits ↦ rw fits v
          | inr over ↦ rw over (record { distinct = d; held = a })
        ]

    unfoldable pub step : SeedBook → Call → SeedBook
    step b (adds addrs now) = add_peers net sorter b addrs now
    step b (succeeds addr now) = mark_success net b addr now
    step b (attempts addr now) = mark_attempt net b addr now
    step b (drops limit) = (drop_failing b limit).0

    unfoldable pub run : SeedBook → List Call → SeedBook
    unfolding step
    run b [] = b
    run b (c ∷ calls) = run (step b c) calls

    pub step-IsValid : (b : SeedBook) (c : Call) → IsValid b → IsValid (step b c)
    unfolding step add_peers
    step-IsValid b (adds addrs now) v = evict-IsValid _ (add_each-IsValid now b addrs v)
    step-IsValid b (succeeds addr now) v = mark_success-IsValid b addr now v
    step-IsValid b (attempts addr now) v = mark_attempt-IsValid b addr now v
    step-IsValid b (drops limit) v = drop_failing-IsValid b limit v

    -- Whatever is called on a valid book, and in whatever order: no text is a key twice, every key is
    -- the text of its entry's address, and every address held passes the rule of admission.
    pub run-IsValid : (b : SeedBook) (calls : List Call) → IsValid b → IsValid (run b calls)
    unfolding run
    run-IsValid b [] v = v
    run-IsValid b (c ∷ calls) v = run-IsValid (step b c) calls (step-IsValid b c v)
