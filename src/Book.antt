-- ===== src/Book.antt =====
-- The address book of a TM2 seed, internal/tenderseed/seedbook.go: its state and the operations that
-- change it. Every exported method holds the book's lock while it runs, so each is one function from
-- book to book; `Save`, which lets go of the lock while it writes, is in Book/File. The current time
-- is an argument. A pointer to a record never leaves the book, so records are values here.
pub mod Queries
pub mod File
pub mod Invariant
pub mod Eviction
pub mod Counting
pub mod Batches
pub mod Failures
pub mod Origin
pub mod Promise
use tenderseed.Common.Int.{ℤ, pos, suc_ℤ, leb_ℤ}
use tenderseed.Common.{
  ℕ, zero, suc, ◌+◌, ◌-◌, ◌%◌, ◌^◌, List, [], ◌∷◌, map, Bool, true, false, not, xor, ◌&&◌, ◌||◌,
  Option, none, some, ltb, leb, ◌==◌, if◌then◌else◌, Text, text_equality, length,
}
use tenderseed.Common.Map.{lookup, insert, delete, values}
use tenderseed.Common.Sorting.{Sorter}
use tenderseed.Common.Time.{is_zero, before, after}
use tenderseed.Address.{NetAddress, Net}

-- One address in memory. The three dates are moments, 0 for none.
pub record BookRecord : Type 0 where
  pub addr : NetAddress
  pub last_seen : ℕ
  pub fails : ℤ
  pub last_try : ℕ
  pub last_ok : ℕ

unfoldable pub last_news : BookRecord → ℕ
last_news r =
    let latest = if after r.last_try r.last_seen then r.last_try else r.last_seen in
    if after r.last_ok latest then r.last_ok else latest

-- `peers` is the map, by the address's text. `generation` is a `uint64`.
pub record SeedBook : Type 0 where
  pub self : NetAddress
  pub max_peers : ℕ
  pub strict : Bool
  pub dirty : Bool
  pub generation : ℕ
  pub peers : List (Text × BookRecord)

-- `defaultBookMaxPeers`
abbrev pub default_book_max_peers : ℕ
default_book_max_peers = 1000

-- A record for an address that is only known by hearsay.
abbrev pub new_record : NetAddress → ℕ → BookRecord
new_record addr now = record {
  addr = addr;
  last_seen = now;
  fails = pos 0;
  last_try = 0;
  last_ok = 0;
}

-- `b.dirty = true; b.generation++`
abbrev pub changed : SeedBook → SeedBook
changed b = record b { dirty = true; generation = (b.generation + 1) % 2 ^ 64 }

-- The order of `evict`: the never reached first, the oldest mention first among them; then the
-- reached, the oldest proof first.
unfoldable pub evict_less : BookRecord → BookRecord → Bool
evict_less left right =
    let left_reached = not (is_zero left.last_ok) in
    let right_reached = not (is_zero right.last_ok) in
    if xor left_reached right_reached
    then right_reached
    else if left_reached
    then before left.last_ok right.last_ok
    else before left.last_seen right.last_seen

-- The count is deduced: an attempt that no success followed has failed.
unfoldable pub count_attempt : BookRecord → ℕ → BookRecord
count_attempt r now = record r {
  fails = if not (is_zero r.last_try) && after r.last_try r.last_ok then suc_ℤ r.fails else r.fails;
  last_try = now;
}

module _ (net : Net) where
  open net use {validate, routable, same, to_string}

  -- What an address must pass under a strictness: the rule of `admissible`.
  unfoldable pub may_hold : Bool → NetAddress → Bool
  may_hold strict addr =
      if not (validate addr) then false else if strict && not (routable addr) then false else true

  unfoldable pub admissible : SeedBook → Option NetAddress → Bool
  unfolding may_hold
  admissible b none = false
  admissible b (some addr) = may_hold b.strict addr

  -- One round of the loop of `AddPeers`.
  unfoldable pub add_peer : ℕ → SeedBook → Option NetAddress → SeedBook
  add_peer now b none = b
  add_peer now b (some addr) =
      if not (admissible b (some addr)) || same addr b.self
      then b
      else elim (lookup (to_string addr) b.peers) [
        | some r ↦
            changed
              (record b { peers = insert (to_string addr) (record r { last_seen = now }) b.peers })
        | none ↦
            changed (record b { peers = insert (to_string addr) (new_record addr now) b.peers })
      ]

  unfoldable pub add_each : ℕ → SeedBook → List (Option NetAddress) → SeedBook
  add_each now b [] = b
  add_each now b (addr ∷ addrs) = add_each now (add_peer now b addr) addrs

  -- `delete(b.peers, records[i].addr.String())` for each `i` below `n`.
  unfoldable pub delete_first :
      ℕ → List BookRecord → List (Text × BookRecord) → List (Text × BookRecord)
  delete_first zero records peers = peers
  delete_first (suc n) [] peers = peers
  delete_first (suc n) (r ∷ records) peers =
      delete_first n records (delete (to_string r.addr) peers)

  -- `record`: the entry of an address and the book that holds it; `none` for an address that the
  -- book may not hold.
  unfoldable pub get_record : SeedBook → NetAddress → ℕ → Option (BookRecord × SeedBook)
  get_record b addr now =
      if not (admissible b (some addr)) then none else elim (lookup (to_string addr) b.peers) [
        | some r ↦ some (r, b)
        | none ↦ some (
          new_record addr now,
          record b { peers = insert (to_string addr) (new_record addr now) b.peers },
        )
      ]

  -- The record that `get_record` handed out, written through its pointer.
  abbrev pub put_record : NetAddress → BookRecord → SeedBook → SeedBook
  put_record addr r b = record b { peers = insert (to_string addr) r b.peers }

  unfoldable pub mark_success : SeedBook → Option NetAddress → ℕ → SeedBook
  mark_success b none now = b
  mark_success b (some addr) now = elim (get_record b addr now) [
    | none ↦ b
    | some (r, held) ↦
        changed (put_record addr (record r { last_try = now; last_ok = now; fails = pos 0 }) held)
  ]

  unfoldable pub mark_attempt : SeedBook → Option NetAddress → ℕ → SeedBook
  mark_attempt b none now = b
  mark_attempt b (some addr) now = elim (get_record b addr now) [
    | none ↦ b
    | some (r, held) ↦ changed (put_record addr (count_attempt r now) held)
  ]

  module _ (sorter : Sorter BookRecord) where
    unfoldable pub evict : SeedBook → SeedBook
    evict b = if leb (length b.peers) b.max_peers then b else record b {
      peers =
          delete_first (length b.peers - b.max_peers) (sorter.sort evict_less (values b.peers))
            b.peers;
      dirty = true;
    }

    unfoldable pub add_peers : SeedBook → List (Option NetAddress) → ℕ → SeedBook
    add_peers b addrs now = evict (add_each now b addrs)

-- The loop of `DropFailing`: the entries left, and how many were dropped.
unfoldable pub drop_entries : ℕ → List (Text × BookRecord) → List (Text × BookRecord) × ℕ
drop_entries limit [] = ([], 0)
drop_entries limit ((key, r) ∷ peers) =
    let rest = drop_entries limit peers in
    if leb_ℤ limit r.fails then (rest.0, rest.1 + 1) else ((key, r) ∷ rest.0, rest.1)

unfoldable pub drop_failing : SeedBook → ℕ → SeedBook × ℕ
drop_failing b limit =
    if limit == 0
    then (b, 0)
    else let rest = drop_entries limit b.peers in
      if ltb 0 rest.1
      then (changed (record b { peers = rest.0 }), rest.1)
      else (record b { peers = rest.0 }, rest.1)
