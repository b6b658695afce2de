-- ===== src/Life/Writes.antt =====
-- What becomes of the file of a machine: what leaves it as it is, and what a completed write puts there.
use tenderseed.Common.{
  ℕ, List, [], ◌∷◌, ◌++◌, ◌≡◌, refl, ap, ◌∙◌, inl, inr, true, false, none, some, map, arith,
  text_equality, All, Option-cases,
}
use tenderseed.Common.Map.{values}
use tenderseed.Common.Sorting.{Sorter}
use tenderseed.Address.{Net}
use tenderseed.Book.{BookRecord, SeedBook}
use tenderseed.Book.File.{BookEntry, holds, to_entry, snapshot}
use tenderseed.Reactor.{SeedReactor}
use tenderseed.Reactor.Wire.{WireCodec}
use tenderseed.Node.{Outside}
use tenderseed.Node.Tm2.{Tm2Calls}
use tenderseed.Life.{
  Machine, Event, starts, calls, begins_save, ends_save, flushes, ends, loses_file, spoils_file,
  act, idle, live, live_each,
}

-- What the process may do while a write goes on.
abbrev pub IsMeanwhile : Event → Type 0
IsMeanwhile (calls e) = Unit
IsMeanwhile begins_save = Unit
IsMeanwhile flushes = Unit
IsMeanwhile (starts home config now) = ⊥
IsMeanwhile (ends_save written) = ⊥
IsMeanwhile ends = ⊥
IsMeanwhile loses_file = ⊥
IsMeanwhile spoils_file = ⊥

-- What leaves the file as it is: all but a write that is completed, and what others do to the file.
abbrev pub LeavesFile : Event → Type 0
LeavesFile (calls e) = Unit
LeavesFile begins_save = Unit
LeavesFile flushes = Unit
LeavesFile (starts home config now) = Unit
LeavesFile (ends_save true) = ⊥
LeavesFile (ends_save false) = Unit
LeavesFile ends = Unit
LeavesFile loses_file = ⊥
LeavesFile spoils_file = ⊥

module _ (outside : Outside) (tm2_calls : Tm2Calls) (net : Net) (sorter : Sorter BookRecord)
    (codec : WireCodec) where
  abbrev pub after : Machine → List Event → Machine
  after = live_each outside tm2_calls net sorter codec

  pub after-append : (m : Machine) (es ds : List Event) → after m (es ++ ds) ≡ after (after m es) ds
  unfolding live_each
  after-append m [] ds = refl
  after-append m (e ∷ es) ds = after-append (live outside tm2_calls net sorter codec m e) es ds

  -- A process that writes goes on writing the same.
  abbrev Writes : ℕ × List BookEntry → Machine → Type 0
  Writes w m = (r : SeedReactor) × (m.running ≡ some r) × (m.writing ≡ some w)

  live-Writes :
      (w : ℕ × List BookEntry) (m : Machine) (e : Event)
      → IsMeanwhile e
      → Writes w m
      → Writes w (live outside tm2_calls net sorter codec m e)
  unfolding live act
  live-Writes w m (starts home config now) h v = absurd h
  live-Writes w m (calls e) h (r, runs, held) = rw (runs, live) (_, refl, held)
  live-Writes w m begins_save h (r, runs, held) = (r, ground arith, ground arith)
  live-Writes w m (ends_save written) h v = absurd h
  live-Writes w m flushes h (r, runs, held) = rw (runs, live) (_, refl, held)
  live-Writes w m ends h v = absurd h
  live-Writes w m loses_file h v = absurd h
  live-Writes w m spoils_file h v = absurd h

  after-Writes :
      (w : ℕ × List BookEntry) (m : Machine) (es : List Event)
      → All IsMeanwhile es
      → Writes w m
      → Writes w (after m es)
  unfolding live_each
  after-Writes w m [] h v = v
  after-Writes w m (e ∷ es) h v =
      after-Writes w (live outside tm2_calls net sorter codec m e) es h.1 (live-Writes w m e h.0 v)

  act-disk :
      (r : SeedReactor) (m : Machine) (e : Event)
      → LeavesFile e
      → (act outside tm2_calls net sorter codec r m e).disk ≡ m.disk
  unfolding act
  act-disk r m (starts home config now) h = refl
  act-disk r m (calls e) h = refl
  act-disk r m begins_save h = ground arith
  act-disk r m (ends_save true) h = absurd h
  act-disk r m (ends_save false) h = ground arith
  act-disk r m flushes h = refl
  act-disk r m ends h = refl
  act-disk r m loses_file h = absurd h
  act-disk r m spoils_file h = absurd h

  idle-disk :
      (m : Machine) (e : Event)
      → LeavesFile e
      → (idle outside tm2_calls net sorter codec m e).disk ≡ m.disk
  unfolding idle
  idle-disk m (starts home config now) h = refl
  idle-disk m (calls e) h = refl
  idle-disk m begins_save h = refl
  idle-disk m (ends_save true) h = absurd h
  idle-disk m (ends_save false) h = refl
  idle-disk m flushes h = refl
  idle-disk m ends h = refl
  idle-disk m loses_file h = absurd h
  idle-disk m spoils_file h = absurd h

  pub live-disk :
      (m : Machine) (e : Event)
      → LeavesFile e
      → (live outside tm2_calls net sorter codec m e).disk ≡ m.disk
  unfolding live
  live-disk m e h = elim (Option-cases m.running) [
    | inl none_runs ↦ rw (none_runs, live) (idle-disk m e h)
    | inr (r, runs) ↦ rw (runs, live) (act-disk r m e h)
  ]

  pub after-disk : (m : Machine) (es : List Event) → All LeavesFile es → (after m es).disk ≡ m.disk
  unfolding live_each
  after-disk m [] h = refl
  after-disk m (e ∷ es) h =
      after-disk (live outside tm2_calls net sorter codec m e) es h.1 ∙ live-disk m e h.0

  live-begins :
      (m : Machine) (r : SeedReactor)
      → m.running ≡ some r
      → m.writing ≡ none
      → ((live outside tm2_calls net sorter codec m begins_save).running ≡ some r)
        × ((live outside tm2_calls net sorter codec m begins_save).writing ≡ snapshot net r.book)
  unfolding live act
  live-begins m r runs free = (ground arith, ground arith)

  live-ends :
      (m : Machine) (saved : ℕ) (entries : List BookEntry)
      → Writes (saved, entries) m
      → (live outside tm2_calls net sorter codec m (ends_save true)).disk ≡ holds entries
  unfolding live act
  live-ends m saved entries (r, runs, held) = ground arith

  snapshot-dirty :
      (b : SeedBook)
      → b.dirty ≡ true
      → snapshot net b ≡ some (b.generation, map (to_entry net) (values b.peers))
  unfolding snapshot
  snapshot-dirty b d = rw (d, snapshot) refl

  -- A write that is completed leaves in the file what the book held when it began.
  pub written-disk :
      (m : Machine) (r : SeedReactor) (during : List Event)
      → m.running ≡ some r
      → m.writing ≡ none
      → r.book.dirty ≡ true
      → All IsMeanwhile during
      → (after m (begins_save ∷ during ++ ends_save true ∷ [])).disk
        ≡ holds (map (to_entry net) (values r.book.peers))
  unfolding live_each
  written-disk m r during runs free unsaved h =
      let m' = live outside tm2_calls net sorter codec m begins_save in
      let (runs', reads) = live-begins m r runs free in
      let entries = map (to_entry net) (values r.book.peers) in
      ap (λ (x : Machine). x.disk) (after-append m' during (ends_save true ∷ []))
      ∙ live-ends (after m' during) r.book.generation entries (
          after-Writes (r.book.generation, entries) m' during h
            (r, runs', reads ∙ snapshot-dirty r.book unsaved))
