-- ===== src/Book/File.antt =====
-- The book on disk, internal/tenderseed/seedbook.go: `Save`, `Flush`, `load` and `NewSeedBook`. The
-- file is modelled as what `encoding/json` and the file system make of it; the bytes are not.
pub mod RoundTrip
pub mod Pending
pub mod Loading
pub mod Proofs
use tenderseed.Common.{
  ℕ, List, [], ◌∷◌, map, Bool, true, false, not, ◌||◌, Option, none, some, ◌==◌, if◌then◌else◌,
  Text, text_equality,
}
use tenderseed.Common.Int.{ℤ, pos, is_zero_ℤ}
use tenderseed.Common.Map.{insert, values}
use tenderseed.Common.Time.{is_zero, unix, from_unix}
use tenderseed.Address.{NetAddress, Net}
use tenderseed.Book.{BookRecord, SeedBook, default_book_max_peers, admissible}

-- One address as it is written to disk. The dates are seconds since the Unix epoch, 0 for none.
pub record BookEntry : Type 0 where
  pub addr : Text
  pub last_seen : ℤ
  pub fails : ℤ
  pub last_try : ℤ
  pub last_ok : ℤ

-- What is found at the book's path.
pub data Disk : Type 0 where
  missing : Disk
  stat_fails : Disk
  read_fails : Disk
  corrupt : Disk
  holds : List BookEntry → Disk

unfoldable pub unix_or_zero : ℕ → ℤ
unfolding unix
unix_or_zero moment = if is_zero moment then pos 0 else unix moment

unfoldable pub zero_or_unix : ℤ → ℕ
unfolding from_unix
zero_or_unix seconds = if is_zero_ℤ seconds then 0 else from_unix seconds

module _ (net : Net) where
  open net use {same, to_string, from_string}

  unfoldable pub to_entry : BookRecord → BookEntry
  to_entry r = record {
    addr = to_string r.addr;
    last_seen = unix r.last_seen;
    fails = r.fails;
    last_try = unix_or_zero r.last_try;
    last_ok = unix_or_zero r.last_ok;
  }

  -- What `Save` reads under the lock: the generation and the entries. Nothing when nothing changed.
  unfoldable pub snapshot : SeedBook → Option (ℕ × List BookEntry)
  unfolding to_entry
  snapshot b = if b.dirty then some (b.generation, map to_entry (values b.peers)) else none

  -- The second time under the lock, after the file was written.
  unfoldable pub settle : ℕ → SeedBook → SeedBook
  settle saved b = if b.generation == saved then record b { dirty = false } else b

  -- `Save`, with what the other goroutines do to the book while the file is written, and whether the
  -- write succeeds. The result is the book, the file, and whether `Save` returned no error.
  unfoldable pub save : SeedBook → (SeedBook → SeedBook) → Bool → Disk → SeedBook × Disk × Bool
  unfolding snapshot settle
  save b meanwhile written disk = elim (snapshot b) [
    | none ↦ (b, disk, true)
    | some (saved, entries) ↦
        if written
        then (settle saved (meanwhile b), holds entries, true)
        else (meanwhile b, disk, false)
  ]

  unfoldable pub flush : SeedBook → (SeedBook → SeedBook) → Bool → Disk → SeedBook × Disk × Bool
  unfolding save
  flush b meanwhile written disk = save (record b { dirty = true }) meanwhile written disk

  -- One round of the loop of `load`.
  unfoldable pub load_entry : ℕ → SeedBook → BookEntry → SeedBook
  load_entry now b entry = elim (from_string entry.addr) [
    | none ↦ b
    | some addr ↦ if not (admissible net b (some addr)) || same addr b.self then b else record b {
      peers =
          insert (to_string addr)
            (record {
              addr = addr;
              last_seen = if is_zero_ℤ entry.last_seen then now else from_unix entry.last_seen;
              fails = entry.fails;
              last_try = zero_or_unix entry.last_try;
              last_ok = zero_or_unix entry.last_ok;
            })
            b.peers;
    }
  ]

  unfoldable pub load_each : ℕ → SeedBook → List BookEntry → SeedBook
  unfolding load_entry
  load_each now b [] = b
  load_each now b (entry ∷ entries) = load_each now (load_entry now b entry) entries

  -- `load`; `none` is an error. A corrupt file is copied aside and read as an empty book.
  unfoldable pub load : SeedBook → Disk → ℕ → Option SeedBook
  unfolding load_each
  load b missing now = some b
  load b stat_fails now = none
  load b read_fails now = none
  load b corrupt now = some b
  load b (holds entries) now = some (load_each now b entries)

  abbrev pub empty_book : NetAddress → Bool → SeedBook
  empty_book self strict = record {
    self = self;
    max_peers = default_book_max_peers;
    strict = strict;
    dirty = false;
    generation = 0;
    peers = [];
  }

  unfoldable pub new_seed_book : NetAddress → Bool → Disk → ℕ → Option SeedBook
  unfolding load
  new_seed_book self strict disk now = load (empty_book self strict) disk now
