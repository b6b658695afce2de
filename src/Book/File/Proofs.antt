-- ===== src/Book/File/Proofs.antt =====
-- The proofs of life that go through the file of internal/tenderseed/seedbook.go: what `Save` writes and
-- `load` reads back is no younger than the proof that the book had.
use tenderseed.Common.{
  ℕ, ◌≤◌, List, [], ◌∷◌, ◌≡◌, refl, sym, ◌⊎◌, inl, inr, not, ◌||◌, Bool, Option, none, some, map,
  arith, Text, text_equality, All, subst, Bool-cases, Option-cases, some-path, none≢some,
}
use tenderseed.Common.Map.{values, insert-All}
use tenderseed.Common.Time.{unix, from_unix}
use tenderseed.Address.{NetAddress, Net}
use tenderseed.Book.{BookRecord, SeedBook, admissible}
use tenderseed.Book.Invariant.{EntryOk, IsValid}
use tenderseed.Book.Origin.{HasReason, AreReasons}
use tenderseed.Book.File.{
  BookEntry, Disk, missing, stat_fails, read_fails, corrupt, holds, unix_or_zero, zero_or_unix,
  to_entry, snapshot, load_entry, load_each, load, empty_book, new_seed_book,
}

-- A text that an address is written as is read back, if at all, as an address that is written the same.
abbrev pub ReadsBack : Net → Type 0
ReadsBack net =
    (a b : NetAddress)
    → net.from_string (net.to_string a) ≡ some b
    → net.to_string b ≡ net.to_string a

-- A reason for a proof is one for an older proof of the same address.
abbrev pub IsLasting : (Text → ℕ → Type 0) → Type 0
IsLasting Reason = (key : Text) (s t : ℕ) → s ≤ t → Reason key t → Reason key s

-- A moment that is written and read back is none, or not later than it was.
zero_or_unix-le : (t : ℕ) → zero_or_unix (unix_or_zero t) ≤ t
unfolding zero_or_unix unix_or_zero from_unix unix
zero_or_unix-le t = ground arith

module _ (net : Net) (Reason : Text → ℕ → Type 0) where
  open net use {to_string, from_string}

  -- An entry of the file that reads as a proof has a reason under the text of its address.
  abbrev pub EntryReason : BookEntry → Type 0
  EntryReason e =
      (zero_or_unix e.last_ok ≡ 0)
      ⊎ ((a : NetAddress) × (e.addr ≡ to_string a) × Reason (to_string a) (zero_or_unix e.last_ok))

  abbrev pub DiskReason : Disk → Type 0
  DiskReason missing = Unit
  DiskReason stat_fails = Unit
  DiskReason read_fails = Unit
  DiskReason corrupt = Unit
  DiskReason (holds entries) = All EntryReason entries

  to_entry-EntryReason :
      (lasting : IsLasting Reason) (strict : Bool) (m : List (Text × BookRecord))
      → All (EntryOk net strict) m
      → All (HasReason Reason) m
      → All EntryReason (map (to_entry net) (values m))
  unfolding to_entry
  to_entry-EntryReason lasting strict [] v a = tt
  to_entry-EntryReason lasting strict ((key, r) ∷ m) v a = (
    elim a.0 [
      | inl never ↦ inl (omega (arith, zero_or_unix-le r.last_ok))
      | inr reason ↦ inr (
        r.addr,
        refl,
        lasting (to_string r.addr) (zero_or_unix (unix_or_zero r.last_ok)) r.last_ok
            (zero_or_unix-le r.last_ok) (subst (λ (k : Text). Reason k r.last_ok) v.0.0 reason),
      )
    ],
    to_entry-EntryReason lasting strict m v.1 a.1,
  )

  load_entry-AreReasons :
      (back : ReadsBack net) (now : ℕ) (b : SeedBook) (e : BookEntry)
      → EntryReason e
      → AreReasons Reason b
      → AreReasons Reason (load_entry net now b e)
  unfolding load_entry
  load_entry-AreReasons back now b e h a = elim (Option-cases (from_string e.addr)) [
    | inl bad ↦ rw (bad, load_entry) a
    | inr (addr, q) ↦
        elim (Bool-cases (not (admissible net b (some addr)) || net.same addr b.self)) [
          | inl refused ↦ rw (q, refused, load_entry) a
          | inr taken ↦
              rw (q, taken, load_entry)
                (insert-All (HasReason Reason) (to_string addr) _ b.peers a (kept addr q h))
        ]
  ]
    where
      kept :
          (addr : NetAddress)
          → from_string e.addr ≡ some addr
          → EntryReason e
          → (zero_or_unix e.last_ok ≡ 0) ⊎ Reason (to_string addr) (zero_or_unix e.last_ok)
      kept addr q (inl never) = inl never
      kept addr q (inr (a', named, reason)) = inr (
          subst (λ (k : Text). Reason k (zero_or_unix e.last_ok))
            (sym (back a' addr (rw named at q))) reason)

  load_each-AreReasons :
      (back : ReadsBack net) (now : ℕ) (b : SeedBook) (es : List BookEntry)
      → All EntryReason es
      → AreReasons Reason b
      → AreReasons Reason (load_each net now b es)
  unfolding load_each
  load_each-AreReasons back now b [] h a = a
  load_each-AreReasons back now b (e ∷ es) h a =
      load_each-AreReasons back now (load_entry net now b e) es h.1
        (load_entry-AreReasons back now b e h.0 a)

  -- A book that opens has no proof but those of the file.
  pub new_seed_book-AreReasons :
      (back : ReadsBack net) (self : NetAddress) (strict : Bool) (disk : Disk) (now : ℕ)
      {b : SeedBook}
      → DiskReason disk
      → new_seed_book net self strict disk now ≡ some b
      → AreReasons Reason b
  unfolding new_seed_book load
  new_seed_book-AreReasons back self strict missing now h e =
      subst (AreReasons Reason) (some-path e) tt
  new_seed_book-AreReasons back self strict stat_fails now h e = absurd (none≢some e)
  new_seed_book-AreReasons back self strict read_fails now h e = absurd (none≢some e)
  new_seed_book-AreReasons back self strict corrupt now h e =
      subst (AreReasons Reason) (some-path e) tt
  new_seed_book-AreReasons back self strict (holds es) now h e =
      subst (AreReasons Reason) (some-path e)
        (load_each-AreReasons back now (empty_book net self strict) es h tt)

  -- What `Save` reads under the lock, where it has something to write.
  abbrev pub WriteReason : Option (ℕ × List BookEntry) → Type 0
  WriteReason none = Unit
  WriteReason (some (saved, entries)) = All EntryReason entries

  pub snapshot-WriteReason :
      (lasting : IsLasting Reason) (b : SeedBook)
      → IsValid net b
      → AreReasons Reason b
      → WriteReason (snapshot net b)
  unfolding snapshot
  snapshot-WriteReason lasting b v a = elim (Bool-cases b.dirty) [
    | inl d ↦ rw (d, snapshot) (to_entry-EntryReason lasting b.strict b.peers v.held a)
    | inr c ↦ rw (c, snapshot) tt
  ]
