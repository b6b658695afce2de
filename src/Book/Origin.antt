-- ===== src/Book/Origin.antt =====
-- Where the proofs of life in the book of internal/tenderseed/seedbook.go come from: which operations
-- can give an entry its first one.
use mathlib.Core.List.{mem-cons_self, mem-cons_of_mem}
use tenderseed.Common.Int.{pos, leb_ℤ}
use tenderseed.Common.{
  ℕ, zero, suc, ◌-◌, List, [], ◌∷◌, ◌≡◌, refl, ◌⊎◌, inl, inr, not, ◌||◌, Option, none, some, ◌==◌,
  ltb, leb, Text, text_equality, All, Mem, length, subst, some-path, none≢some, Bool-cases,
  Option-cases, arith,
}
use tenderseed.Common.Map.{lookup, delete, insert-All, delete-All, lookup-All, values}
use tenderseed.Common.Sorting.{Sorter}
use tenderseed.Address.{NetAddress, Net}
use tenderseed.Book.{
  BookRecord, SeedBook, new_record, admissible, add_peer, add_each, delete_first, get_record,
  put_record, mark_success, count_attempt, mark_attempt, evict, evict_less, add_peers, drop_entries,
  drop_failing,
}

-- An entry that has a proof of life stands under a key for which the given reason holds at the moment of
-- the proof.
abbrev pub HasReason : (Text → ℕ → Type 0) → Text × BookRecord → Type 0
HasReason Reason (key, r) = (r.last_ok ≡ 0) ⊎ Reason key r.last_ok

abbrev pub AreReasons : (Text → ℕ → Type 0) → SeedBook → Type 0
AreReasons Reason b = All (HasReason Reason) b.peers

-- Weaker reasons.
pub HasReason-weaken :
    {P Q : Text → ℕ → Type 0}
    → ((key : Text) (t : ℕ) → P key t → Q key t)
    → (m : List (Text × BookRecord)) → All (HasReason P) m
    → All (HasReason Q) m
HasReason-weaken f [] a = tt
HasReason-weaken f ((key, r) ∷ m) (inl e, a) = (inl e, HasReason-weaken f m a)
HasReason-weaken f ((key, r) ∷ m) (inr p, a) = (inr (f key r.last_ok p), HasReason-weaken f m a)

-- The plainest reason: the book holds that proof already.
abbrev pub WasProven : SeedBook → Text → ℕ → Type 0
WasProven b key t = (r : BookRecord) × Mem (key, r) b.peers × (r.last_ok ≡ t)

entries-WasProven :
    (b : SeedBook) (m : List (Text × BookRecord))
    → ((e : Text × BookRecord) → Mem e m → Mem e b.peers)
    → All (HasReason (WasProven b)) m
entries-WasProven b [] f = tt
entries-WasProven b ((key, r) ∷ m) f = (
  elim (Bool-cases (ltb 0 r.last_ok)) [
    | inl proven ↦ inr (r, f (key, r) mem-cons_self, refl)
    | inr never ↦ inl (ground arith)
  ],
  entries-WasProven b m (λ e h. f e (mem-cons_of_mem (key, r) h)),
)

pub AreReasons-start : (b : SeedBook) → AreReasons (WasProven b) b
AreReasons-start b = entries-WasProven b b.peers (λ e h. h)

module _ (net : Net) (Reason : Text → ℕ → Type 0) where
  open net use {to_string}

  put-AreReasons :
      (b : SeedBook) (addr : NetAddress) (r : BookRecord)
      → AreReasons Reason b
      → HasReason Reason (to_string addr, r)
      → AreReasons Reason (put_record net addr r b)
  put-AreReasons b addr r a h = insert-All (HasReason Reason) (to_string addr) r b.peers a h

  add_peer-AreReasons :
      (now : ℕ) (b : SeedBook) (addr : Option NetAddress)
      → AreReasons Reason b
      → AreReasons Reason (add_peer net now b addr)
  unfolding add_peer
  add_peer-AreReasons now b none a = a
  add_peer-AreReasons now b (some addr) a =
      elim (Bool-cases (not (admissible net b (some addr)) || net.same addr b.self)) [
        | inl refused ↦ rw (refused, add_peer) a
        | inr taken ↦ elim (Option-cases (lookup (to_string addr) b.peers)) [
          | inl new ↦
              rw (taken, new, add_peer) (put-AreReasons b addr (new_record addr now) a (inl refl))
          | inr (r, old) ↦
              rw (taken, old, add_peer)
                (put-AreReasons b addr (record r { last_seen = now }) a
                  (lookup-All (HasReason Reason) (to_string addr) b.peers a old))
        ]
      ]

  add_each-AreReasons :
      (now : ℕ) (b : SeedBook) (addrs : List (Option NetAddress))
      → AreReasons Reason b
      → AreReasons Reason (add_each net now b addrs)
  unfolding add_each
  add_each-AreReasons now b [] a = a
  add_each-AreReasons now b (addr ∷ addrs) a =
      add_each-AreReasons now (add_peer net now b addr) addrs (add_peer-AreReasons now b addr a)

  -- What `record` hands out has the proofs that the book had.
  abbrev HandedReason : NetAddress → BookRecord × SeedBook → Type 0
  HandedReason addr (r, held) = HasReason Reason (to_string addr, r) × AreReasons Reason held

  get_record-HandedReason :
      (b : SeedBook) (addr : NetAddress) (now : ℕ) (out : BookRecord × SeedBook)
      → AreReasons Reason b
      → get_record net b addr now ≡ some out
      → HandedReason addr out
  unfolding get_record
  get_record-HandedReason b addr now out a h =
      elim (Bool-cases (not (admissible net b (some addr)))) [
        | inl refused ↦ absurd (none≢some (rw (refused, get_record) at h))
        | inr taken ↦ elim (Option-cases (lookup (to_string addr) b.peers)) [
          | inl new ↦
              let fresh : BookRecord = new_record addr now in
              let q : some (fresh, put_record net addr fresh b) ≡ some out =
                rw (taken, new, get_record) at h in
              subst (HandedReason addr) (some-path q)
                (inl refl, put-AreReasons b addr fresh a (inl refl))
          | inr (r, old) ↦
              let q : some (r, b) ≡ some out = rw (taken, old, get_record) at h in
              subst (HandedReason addr) (some-path q)
                (lookup-All (HasReason Reason) (to_string addr) b.peers a old, a)
        ]
      ]

  pub mark_success-AreReasons :
      (b : SeedBook) (addr : NetAddress) (now : ℕ)
      → Reason (to_string addr) now
      → AreReasons Reason b
      → AreReasons Reason (mark_success net b (some addr) now)
  unfolding mark_success
  mark_success-AreReasons b addr now reason a = elim (Option-cases (get_record net b addr now)) [
    | inl refused ↦ rw (refused, mark_success) a
    | inr ((r, held), h) ↦
        rw (h, mark_success)
          (put-AreReasons held addr (record r { last_try = now; last_ok = now; fails = pos 0 })
            (get_record-HandedReason b addr now (r, held) a h).1 (inr reason))
  ]

  pub mark_attempt-AreReasons :
      (b : SeedBook) (addr : NetAddress) (now : ℕ)
      → AreReasons Reason b
      → AreReasons Reason (mark_attempt net b (some addr) now)
  unfolding mark_attempt count_attempt
  mark_attempt-AreReasons b addr now a = elim (Option-cases (get_record net b addr now)) [
    | inl refused ↦ rw (refused, mark_attempt) a
    | inr ((r, held), h) ↦
        let (known, kept) = get_record-HandedReason b addr now (r, held) a h in
        rw (h, mark_attempt) (put-AreReasons held addr (count_attempt r now) kept known)
  ]

  delete_first-HasReason :
      (n : ℕ) (rs : List BookRecord) (m : List (Text × BookRecord))
      → All (HasReason Reason) m
      → All (HasReason Reason) (delete_first net n rs m)
  unfolding delete_first
  delete_first-HasReason zero rs m a = a
  delete_first-HasReason (suc n) [] m a = a
  delete_first-HasReason (suc n) (r ∷ rs) m a =
      delete_first-HasReason n rs (delete (to_string r.addr) m)
        (delete-All (HasReason Reason) (to_string r.addr) m a)

  drop_entries-HasReason :
      (limit : ℕ) (m : List (Text × BookRecord))
      → All (HasReason Reason) m
      → All (HasReason Reason) (drop_entries limit m).0
  unfolding drop_entries
  drop_entries-HasReason limit [] a = tt
  drop_entries-HasReason limit ((k, r) ∷ m) a = elim (Bool-cases (leb_ℤ limit r.fails)) [
    | inl over ↦ rw (over, drop_entries) (drop_entries-HasReason limit m a.1)
    | inr under ↦ rw (under, drop_entries) (a.0, drop_entries-HasReason limit m a.1)
  ]

  pub drop_failing-AreReasons :
      (b : SeedBook) (limit : ℕ) → AreReasons Reason b → AreReasons Reason (drop_failing b limit).0
  unfolding drop_failing
  drop_failing-AreReasons b limit a =
      let kept = drop_entries-HasReason limit b.peers a in
      elim (Bool-cases (limit == 0)) [
        | inl off ↦ rw (off, drop_failing) a
        | inr on ↦ elim (Bool-cases (ltb 0 (drop_entries limit b.peers).1)) [
          | inl e ↦ rw (on, e, drop_failing) kept
          | inr e ↦ rw (on, e, drop_failing) kept
        ]
      ]

  pub add_peers-AreReasons :
      (sorter : Sorter BookRecord) (b : SeedBook) (addrs : List (Option NetAddress)) (now : ℕ)
      → AreReasons Reason b
      → AreReasons Reason (add_peers net sorter b addrs now)
  unfolding add_peers evict
  add_peers-AreReasons sorter b addrs now a =
      let added = add_each net now b addrs in
      let kept = add_each-AreReasons now b addrs a in
      elim (Bool-cases (leb (length added.peers) added.max_peers)) [
        | inl fits ↦ rw (fits, add_peers, evict) kept
        | inr over ↦
            rw (over, add_peers, evict)
              (delete_first-HasReason (length added.peers - added.max_peers)
                (sorter.sort evict_less (values added.peers)) added.peers kept)
      ]
