-- ===== src/Life.antt =====
-- The life of a TM2 seed on one machine: the processes that internal/cmd/start.go starts one after another
-- over the same home, the discovery reactor of each (internal/tenderseed/seedreactortm2.go), and the file
-- of the address book that outlives them (internal/tenderseed/seedbook.go). A process may end at any
-- moment, in the middle of a write too; `osm.WriteFileAtomic` leaves the old file or the new one.
pub mod Served
pub mod Writes
pub mod Kept
use tenderseed.Common.{ℕ, List, [], ◌∷◌, Bool, true, false, Option, none, some, if◌then◌else◌, Text}
use tenderseed.Common.Sorting.{Sorter}
use tenderseed.Address.{NetAddress, Net}
use tenderseed.Book.{BookRecord, SeedBook}
use tenderseed.Book.File.{BookEntry, Disk, missing, corrupt, holds, snapshot, settle}
use tenderseed.Config.{Config}
use tenderseed.Reactor.{SeedReactor, Peers}
use tenderseed.Reactor.Wire.{WireCodec}
use tenderseed.Reactor.Receive.Exchange.{handle}
use tenderseed.Reactor.Receive.Exchange
use tenderseed.Node.{Built, built, stopped, Outside, untouched}
use tenderseed.Node.Tm2.{Tm2Calls, SeedTm2, new_seed_tm2}

-- The reactor of the process, if one runs; what a `Save` has read and is writing, which holds `saveMtx`;
-- and the file.
pub record Machine : Type 0 where
  pub running : Option SeedReactor
  pub writing : Option (ℕ × List BookEntry)
  pub disk : Disk

-- A machine on which no seed has run yet.
abbrev pub new_machine : Machine
new_machine = record { running = none; writing = none; disk = missing }

pub data Event : Type 0 where
  -- The start command builds a seed, where none runs.
  starts : (home : Text) → Config → ℕ → Event
  -- A handler or a pass of the sweep runs.
  calls : Peers × Exchange.Event → Event
  -- The loop `persist`, or the end of `Flush`, takes the lock and reads the book.
  begins_save : Event
  -- The file is written, or the write fails.
  ends_save : Bool → Event
  -- `Flush` marks the book as changed.
  flushes : Event
  -- The process ends, of itself or by a crash.
  ends : Event
  -- Someone removes or spoils the file.
  loses_file : Event
  spoils_file : Event

-- The reactor that `NewSeedTM2` makes.
unfoldable pub reactor_of : Built SeedTm2 → Option SeedReactor
reactor_of (built s) = some s.reactor
reactor_of (stopped e) = none

-- The calls of the libraries, over the file that is there.
abbrev pub over : Tm2Calls → Disk → Tm2Calls
over tm2_calls disk = record tm2_calls { book_file = λ path. disk }

-- The first step of `Flush`.
unfoldable pub mark_dirty : SeedReactor → SeedReactor
mark_dirty r = record r { book = record r.book { dirty = true } }

module _ (net : Net) where
  -- `Save` up to the write: nothing while another `Save` holds `saveMtx`, or when nothing changed.
  unfoldable pub begin_save : SeedReactor → Machine → Machine
  begin_save r m = elim m.writing [ some w ↦ m | none ↦ record m { writing = snapshot net r.book } ]

  -- `Save` from the write on.
  unfoldable pub end_save : SeedReactor → Machine → Bool → Machine
  end_save r m written = elim m.writing [
    | none ↦ m
    | some (saved, entries) ↦
        if written
        then record m {
          running = some (record r { book = settle net saved r.book });
          writing = none;
          disk = holds entries;
        }
        else record m { writing = none }
  ]

module _ (outside : Outside) (tm2_calls : Tm2Calls) (net : Net) (sorter : Sorter BookRecord)
    (codec : WireCodec) where
  -- What an event makes of a running process.
  unfoldable pub act : SeedReactor → Machine → Event → Machine
  unfolding begin_save end_save mark_dirty
  act r m (starts home config now) = m
  act r m (calls e) = record m { running = some (handle net sorter codec r e) }
  act r m begins_save = begin_save net r m
  act r m (ends_save written) = end_save net r m written
  act r m flushes = record m { running = some (mark_dirty r) }
  act r m ends = record m { running = none; writing = none }
  act r m loses_file = record m { disk = missing }
  act r m spoils_file = record m { disk = corrupt }

  -- What an event makes of a machine without a process.
  unfoldable pub idle : Machine → Event → Machine
  unfolding reactor_of
  idle m (starts home config now) = record m {
    running =
        reactor_of (new_seed_tm2 outside (over tm2_calls m.disk) net home config now untouched).0;
    writing = none;
  }
  idle m loses_file = record m { disk = missing }
  idle m spoils_file = record m { disk = corrupt }
  idle m _ = m

  unfoldable pub live : Machine → Event → Machine
  unfolding act idle
  live m e = elim m.running [ none ↦ idle m e | some r ↦ act r m e ]

  unfoldable pub live_each : Machine → List Event → Machine
  unfolding live
  live_each m [] = m
  live_each m (e ∷ es) = live_each (live m e) es
