-- ===== src/Book/File/Pending.antt =====
-- Changes that arrive while the book is being written, internal/tenderseed/seedbook.go: `Save` clears
-- `dirty` only if the generation is the one it wrote.
use tenderseed.Common.{
  ℕ, ◌+◌, ◌%◌, ◌^◌, ◌≤◌, ◌<◌, List, [], ◌∷◌, ◌≡◌, refl, sym, ◌∙◌, true≢false, true, false, not,
  ◌||◌, Option, none, some, inl, inr, ◌==◌, arith, length, map, Text, text_equality, Bool-cases,
  Option-cases, ltb,
}
use tenderseed.Common.Map.{lookup, values}
use tenderseed.Common.Sorting.{Sorter}
use tenderseed.Address.{NetAddress, Net}
use tenderseed.Book.{
  BookRecord, SeedBook, admissible, get_record, add_peer, add_each, mark_success, mark_attempt,
  drop_entries, drop_failing, evict, add_peers,
}
use tenderseed.Book.Invariant.{IsValid}
use tenderseed.Book.Eviction.{length-evict}
use tenderseed.Book.File.{Disk, holds, to_entry, snapshot, settle, save}

-- A change of the book while it is written. `mentions` is the loop of `AddPeers`, without the eviction
-- that follows it.
pub data Change : Type 0 where
  mentions : List (Option NetAddress) → ℕ → Change
  succeeds attempts : Option NetAddress → ℕ → Change
  drops : ℕ → Change

-- How many times at most a change counts the generation up.
abbrev pub weight : Change → ℕ
weight (mentions addrs now) = length addrs
weight _ = 1

abbrev pub total_weight : List Change → ℕ
total_weight [] = 0
total_weight (c ∷ cs) = weight c + total_weight cs

-- The second book comes from the first by at most `n` changes, each counted in the generation.
pub record Advances (n : ℕ) (b c : SeedBook) : Type 0 where
  pub steps : ℕ
  pub few : steps ≤ n
  pub counted : c.generation ≡ (b.generation + steps) % 2 ^ 64
  pub same_peers : steps ≡ 0 → c.peers ≡ b.peers
  pub stays_dirty : b.dirty ≡ true → c.dirty ≡ true

Advances-refl : (n : ℕ) (b : SeedBook) → b.generation < 2 ^ 64 → Advances n b b
Advances-refl n b h = record {
  steps = 0;
  few = omega arith;
  counted = omega arith;
  same_peers = λ _. refl;
  stays_dirty = λ d. d;
}

Advances-trans :
    {m n : ℕ} {b c d : SeedBook} → Advances m b c → Advances n c d → Advances (m + n) b d
Advances-trans {m} {n} {b} {c} {d} p q = record {
  steps = p.steps + q.steps;
  few = omega arith;
  counted = omega arith;
  same_peers = λ z. q.same_peers (omega arith) ∙ p.same_peers (omega arith);
  stays_dirty = λ d. q.stays_dirty (p.stays_dirty d);
}

Advances-one :
    {b c : SeedBook} → c.generation ≡ (b.generation + 1) % 2 ^ 64 → c.dirty ≡ true → Advances 1 b c
Advances-one e d = record {
  steps = 1;
  few = omega arith;
  counted = e;
  same_peers = λ z. absurd (omega arith);
  stays_dirty = λ _. d;
}

Advances-bound : {n : ℕ} {b c : SeedBook} → Advances n b c → c.generation < 2 ^ 64
Advances-bound a = omega arith

Advances-mono : {m n : ℕ} {b c : SeedBook} → m ≤ n → Advances m b c → Advances n b c
Advances-mono h a = record {
  steps = a.steps;
  few = omega arith;
  counted = a.counted;
  same_peers = a.same_peers;
  stays_dirty = a.stays_dirty;
}

drop_entries_none :
    (limit : ℕ) (m : List (Text × BookRecord))
    → (drop_entries limit m).1 ≡ 0
    → (drop_entries limit m).0 ≡ m
unfolding drop_entries
drop_entries_none limit [] h = refl
drop_entries_none limit ((k, r) ∷ m) h = ground (arith, drop_entries_none limit m)

module _ (net : Net) where
  unfoldable pub apply : SeedBook → Change → SeedBook
  apply b (mentions addrs now) = add_each net now b addrs
  apply b (succeeds addr now) = mark_success net b addr now
  apply b (attempts addr now) = mark_attempt net b addr now
  apply b (drops limit) = (drop_failing b limit).0

  add_peer-Advances :
      (now : ℕ) (b : SeedBook) (addr : Option NetAddress)
      → b.generation < 2 ^ 64
      → Advances 1 b (add_peer net now b addr)
  unfolding add_peer
  add_peer-Advances now b none h = Advances-refl 1 b h
  add_peer-Advances now b (some addr) h =
      elim (Bool-cases (not (admissible net b (some addr)) || net.same addr b.self)) [
        | inl refused ↦ rw refused (Advances-refl 1 b h)
        | inr taken ↦ elim (Option-cases (lookup (net.to_string addr) b.peers)) [
          | inl new ↦ rw (taken, new) (Advances-one refl refl)
          | inr (r, old) ↦ rw (taken, old) (Advances-one refl refl)
        ]
      ]

  add_each-Advances :
      (now : ℕ) (b : SeedBook) (addrs : List (Option NetAddress))
      → b.generation < 2 ^ 64
      → Advances (length addrs) b (add_each net now b addrs)
  unfolding add_each
  add_each-Advances now b [] h = Advances-refl 0 b h
  add_each-Advances now b (addr ∷ addrs) h =
      let first = add_peer-Advances now b addr h in
      let rest = add_each-Advances now (add_peer net now b addr) addrs (Advances-bound first) in
      Advances-mono (omega arith) (Advances-trans first rest)

  get_record-generation :
      (b held : SeedBook) (addr : NetAddress) (now : ℕ) (r : BookRecord)
      → get_record net b addr now ≡ some (r, held)
      → held.generation ≡ b.generation
  unfolding get_record
  get_record-generation b held addr now r h = ground arith

  apply-Advances :
      (b : SeedBook) (c : Change) → b.generation < 2 ^ 64 → Advances (weight c) b (apply b c)
  unfolding apply mark_success mark_attempt drop_failing
  apply-Advances b (mentions addrs now) h = add_each-Advances now b addrs h
  apply-Advances b (succeeds none now) h = Advances-refl 1 b h
  apply-Advances b (succeeds (some addr) now) h = elim (Option-cases (get_record net b addr now)) [
    | inl refused ↦ rw (refused, mark_success) (Advances-refl 1 b h)
    | inr ((r, held), e) ↦
        rw (e, mark_success)
          (Advances-one (omega (arith, get_record-generation b held addr now r e)) refl)
  ]
  apply-Advances b (attempts none now) h = Advances-refl 1 b h
  apply-Advances b (attempts (some addr) now) h = elim (Option-cases (get_record net b addr now)) [
    | inl refused ↦ rw (refused, mark_attempt) (Advances-refl 1 b h)
    | inr ((r, held), e) ↦
        rw (e, mark_attempt)
          (Advances-one (omega (arith, get_record-generation b held addr now r e)) refl)
  ]
  apply-Advances b (drops limit) h = elim (Bool-cases (limit == 0)) [
    | inl off ↦ rw (off, apply, drop_failing) (Advances-refl 1 b h)
    | inr on ↦ elim (Bool-cases (ltb 0 (drop_entries limit b.peers).1)) [
      | inl dropped ↦ rw (on, dropped, apply, drop_failing) (Advances-one refl refl)
      | inr kept ↦
          rw (on, kept, apply, drop_failing)
            (record {
              steps = 0;
              few = omega arith;
              counted = omega arith;
              same_peers = λ _. drop_entries_none limit b.peers (ground arith);
              stays_dirty = λ d. d;
            })
    ]
  ]

  unfoldable pub apply_each : SeedBook → List Change → SeedBook
  unfolding apply
  apply_each b [] = b
  apply_each b (c ∷ cs) = apply_each (apply b c) cs

  apply_each-Advances :
      (b : SeedBook) (cs : List Change)
      → b.generation < 2 ^ 64
      → Advances (total_weight cs) b (apply_each b cs)
  unfolding apply_each
  apply_each-Advances b [] h = Advances-refl 0 b h
  apply_each-Advances b (c ∷ cs) h =
      let first = apply-Advances b c h in
      Advances-trans first (apply_each-Advances (apply b c) cs (Advances-bound first))

  -- The first save takes its snapshot of a changed book; while it writes the file, fewer than 2^64
  -- changes arrive that are no evictions. If the book is then marked clean, the file holds what the
  -- book holds: no change that arrived during the write is taken for saved.
  pub save-loses_no_change :
      (b : SeedBook) (cs : List Change) (disk : Disk)
      → b.dirty ≡ true
      → b.generation < 2 ^ 64
      → total_weight cs < 2 ^ 64
      → (save net b (λ c. apply_each c cs) true disk).0.dirty ≡ false
      → (let out = save net b (λ c. apply_each c cs) true disk in
          out.1 ≡ holds (map (to_entry net) (values out.0.peers)))
  unfolding save snapshot settle
  save-loses_no_change b cs disk unsaved bound few clean =
      let a = apply_each-Advances b cs bound in
      elim (Bool-cases ((apply_each b cs).generation == b.generation)) [
        | inl same ↦
            let q : (apply_each b cs).generation ≡ b.generation = ground arith in
            let unmoved : a.steps ≡ 0 = omega arith in
            rw (unsaved, save, same, a.same_peers unmoved)
        | inr other ↦
            let still : (apply_each b cs).dirty ≡ false = rw (unsaved, save, other) at clean in
            absurd (true≢false (sym (a.stays_dirty unsaved) ∙ still))
      ]

  evict-generation :
      (sorter : Sorter BookRecord) (b : SeedBook) → (evict net sorter b).generation ≡ b.generation
  unfolding evict
  evict-generation sorter b = ground arith

  -- An eviction is a change that the generation does not count. When a book over its limit is written
  -- and an `AddPeers` that takes no address runs meanwhile, the book is left clean although it holds
  -- fewer addresses than the file: the eviction waits for the next change to be saved.
  pub save-misses_eviction :
      (sorter : Sorter BookRecord) (b : SeedBook) (now : ℕ) (disk : Disk)
      → IsValid net b
      → b.dirty ≡ true
      → b.max_peers < length b.peers
      → (let out = save net b (λ c. add_peers net sorter c [] now) true disk in
          (out.0.dirty ≡ false)
          × (out.1 ≡ holds (map (to_entry net) (values b.peers)))
          × (length out.0.peers < length b.peers))
  unfolding save snapshot settle add_peers add_each
  save-misses_eviction sorter b now disk v unsaved over =
      let same : ((evict net sorter b).generation == b.generation) ≡ true =
        ground (arith, evict-generation sorter b) in
      rw (unsaved, save, same) (refl, refl, omega (arith, length-evict net sorter b v))
