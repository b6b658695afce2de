-- ===== src/Life/Served.antt =====
-- What the seeds of a machine hand out, over all the processes that run there one after another: the
-- proofs behind it outlive a process in the file of the book.
use mathlib.Core.Logic.{∥∥₁_elim, ∥∥₁_prop}
use mathlib.Core.List.{mem-cons_self, mem-cons_of_mem}
use tenderseed.Common.{
  Bool, sym, ℕ, ◌≤◌, List, [], ◌∷◌, ◌≡◌, refl, inl, inr, Option, none, some, ◌==◌, arith, Text,
  text_equality, Mem, subst, Bool-cases, Option-cases,
}
use tenderseed.Common.Sorting.{Sorter}
use tenderseed.Address.{NetAddress, Net}
use tenderseed.Book.{BookRecord}
use tenderseed.Book.Origin.{AreReasons}
use tenderseed.Book.File.{BookEntry, settle}
use tenderseed.Book.File.Proofs.{
  ReadsBack, IsLasting, WriteReason, DiskReason, snapshot-WriteReason, new_seed_book-AreReasons,
}
use tenderseed.Reactor.{SeedReactor, Peers}
use tenderseed.Reactor.Spread.{Random}
use tenderseed.Reactor.Serve.{selection}
use tenderseed.Reactor.Wire.{WireCodec}
use tenderseed.Reactor.Receive.Exchange.{IsSound, handle, handle-IsSound}
use tenderseed.Reactor.Receive.Exchange
use tenderseed.Reactor.Receive.Origins.{Backs, handle-AreReasons}
use tenderseed.Reactor.Receive.Served.{IsRecent, selection-reason}
use tenderseed.Node.{Built, built, stopped, Outside, untouched}
use tenderseed.Node.Tm2.{Tm2Calls, SeedTm2, new_seed_tm2}
use tenderseed.Node.Accepted.{new_seed_tm2-IsAccepted, new_seed_tm2-opened}
use tenderseed.Life.{
  Machine, new_machine, Event, starts, calls, begins_save, ends_save, flushes, ends, loses_file,
  spoils_file, begin_save, end_save, reactor_of, over, act, idle, live, live_each,
}

-- Some call of the history has backed the address of a key, at the given moment or later.
abbrev WasBacked : Net → List Event → Text → ℕ → Type 0
WasBacked net es key t =
    (s : ℕ) × (e : Peers × Exchange.Event) × (t ≤ s) × Mem (calls e) es × Backs net key s e

module _ (net : Net) (Reason : Text → ℕ → Type 0) where
  abbrev RunsWell : Option SeedReactor → Type 0
  RunsWell none = Unit
  RunsWell (some r) = IsSound net r × AreReasons Reason r.book

  -- Every proof that is kept anywhere on the machine has a reason.
  record IsEarned (m : Machine) : Type 0 where
    running : RunsWell m.running
    writing : WriteReason net Reason m.writing
    disk : DiskReason net Reason m.disk

module _ (outside : Outside) (tm2_calls : Tm2Calls) (net : Net) (sorter : Sorter BookRecord)
    (codec : WireCodec) (Reason : Text → ℕ → Type 0) (back : ReadsBack net)
    (lasting : IsLasting Reason) where
  settle-RunsWell :
      (saved : ℕ) (r : SeedReactor)
      → IsSound net r × AreReasons Reason r.book
      → IsSound net (record r { book = settle net saved r.book })
        × AreReasons Reason (settle net saved r.book)
  unfolding settle
  settle-RunsWell saved r (v, a) = elim (Bool-cases (r.book.generation == saved)) [
    | inl same ↦
        rw (same, settle)
          (
            record {
              book = record { distinct = v.book.distinct; held = v.book.held };
              notes = v.notes;
            },
            a,
          )
    | inr other ↦ rw (other, settle) (v, a)
  ]

  begin_save-held :
      (r : SeedReactor) (m : Machine) {x : ℕ × List BookEntry}
      → m.writing ≡ some x
      → begin_save net r m ≡ m
  unfolding begin_save
  begin_save-held r m held = ground arith

  end_save-free :
      (r : SeedReactor) (m : Machine) (written : Bool)
      → m.writing ≡ none
      → end_save net r m written ≡ m
  unfolding end_save
  end_save-free r m written free = ground arith

  act-IsEarned :
      (r : SeedReactor) (m : Machine) (e : Event)
      → ((key : Text) (t : ℕ) (c : Peers × Exchange.Event)
          → e ≡ calls c
          → Backs net key t c
          → Reason key t)
      → IsSound net r × AreReasons Reason r.book
      → m.running ≡ some r
      → IsEarned net Reason m
      → IsEarned net Reason (act outside tm2_calls net sorter codec r m e)
  unfolding act
  act-IsEarned r m (starts home config now) f w q v = v
  act-IsEarned r m (calls e) f w q v = record {
    running = (
      handle-IsSound net sorter codec r e w.0,
      handle-AreReasons net Reason sorter codec r e (λ key t h. f key t e refl h) w.1,
    );
    writing = v.writing;
    disk = v.disk;
  }
  act-IsEarned r m begins_save f w q v = elim (Option-cases m.writing) [
    | inr (x, held) ↦ subst (IsEarned net Reason) (sym (begin_save-held r m held)) v
    | inl free ↦
        rw (free, begin_save)
          (record {
            running = v.running;
            writing = snapshot-WriteReason net Reason lasting r.book w.0.book w.1;
            disk = v.disk;
          })
  ]
  act-IsEarned r m (ends_save written) f w q v = elim (Option-cases m.writing) [
    | inl free ↦ subst (IsEarned net Reason) (sym (end_save-free r m written free)) v
    | inr ((saved, entries), held) ↦ elim (Bool-cases written) [
      | inl ok ↦
          rw (held, ok, end_save)
            (record {
              running = settle-RunsWell saved r w;
              writing = tt;
              disk = rw held at v.writing;
            })
      | inr bad ↦
          rw (held, bad, end_save) (record { running = v.running; writing = tt; disk = v.disk })
    ]
  ]
  act-IsEarned r m flushes f w q v = record {
    running = (
      record {
        book = record { distinct = w.0.book.distinct; held = w.0.book.held };
        notes = w.0.notes;
      },
      w.1,
    );
    writing = v.writing;
    disk = v.disk;
  }
  act-IsEarned r m ends f w q v = record { running = tt; writing = tt; disk = v.disk }
  act-IsEarned r m loses_file f w q v = record {
    running = v.running;
    writing = v.writing;
    disk = tt;
  }
  act-IsEarned r m spoils_file f w q v = record {
    running = v.running;
    writing = v.writing;
    disk = tt;
  }

  idle-IsEarned :
      (m : Machine) (e : Event)
      → m.running ≡ none
      → IsEarned net Reason m
      → IsEarned net Reason (idle outside tm2_calls net sorter codec m e)
  unfolding idle
  idle-IsEarned m (starts home config now) q v =
      let out = (new_seed_tm2 outside (over tm2_calls m.disk) net home config now untouched).0 in
      record { running = opened out refl; writing = tt; disk = v.disk }
    where
      opened :
          (out : Built SeedTm2)
          → (new_seed_tm2 outside (over tm2_calls m.disk) net home config now untouched).0 ≡ out
          → RunsWell net Reason (reactor_of out)
      opened (stopped x) h = tt
      opened (built s) h =
          let (self, open_book) =
            new_seed_tm2-opened outside (over tm2_calls m.disk) net home config now untouched h in
          (
            (new_seed_tm2-IsAccepted outside (over tm2_calls m.disk) net home config now untouched
                h).sound,
            new_seed_book-AreReasons net Reason back self config.addr_book_strict m.disk now v.disk
                open_book,
          )
  idle-IsEarned m (calls e) q v = v
  idle-IsEarned m begins_save q v = v
  idle-IsEarned m (ends_save written) q v = v
  idle-IsEarned m flushes q v = v
  idle-IsEarned m ends q v = v
  idle-IsEarned m loses_file q v = record { running = v.running; writing = v.writing; disk = tt }
  idle-IsEarned m spoils_file q v = record { running = v.running; writing = v.writing; disk = tt }

  live-IsEarned :
      (m : Machine) (e : Event)
      → ((key : Text) (t : ℕ) (c : Peers × Exchange.Event)
          → e ≡ calls c
          → Backs net key t c
          → Reason key t)
      → IsEarned net Reason m
      → IsEarned net Reason (live outside tm2_calls net sorter codec m e)
  unfolding live
  live-IsEarned m e f v = elim (Option-cases m.running) [
    | inl none_runs ↦ rw (none_runs, live) (idle-IsEarned m e none_runs v)
    | inr (r, runs) ↦ rw (runs, live) (act-IsEarned r m e f (rw runs at v.running) runs v)
  ]

  live_each-IsEarned :
      (m : Machine) (es : List Event)
      → ((key : Text) (t : ℕ) (c : Peers × Exchange.Event)
          → Mem (calls c) es
          → Backs net key t c
          → Reason key t)
      → IsEarned net Reason m
      → IsEarned net Reason (live_each outside tm2_calls net sorter codec m es)
  unfolding live_each
  live_each-IsEarned m [] f v = v
  live_each-IsEarned m (e ∷ es) f v =
      live_each-IsEarned (live outside tm2_calls net sorter codec m e) es
        (λ key t c found. f key t c (mem-cons_of_mem e found))
        (live-IsEarned m e
          (λ key t c same. f key t c (subst (λ (x : Event). Mem x (e ∷ es)) same mem-cons_self)) v)

module _ (outside : Outside) (tm2_calls : Tm2Calls) (net : Net) (sorter : Sorter BookRecord)
    (codec : WireCodec) where
  -- On a machine that starts without a book, after any history, and through however many processes, crashes
  -- in the middle of a write and losses of the file: behind each address that the running seed may hand out
  -- there is a call of the history, no longer ago than a proof counts, where proofs expire at all, in which one
  -- of the seeds was given a peer that it had dialled at this address, or in which a pass of the sweep found a
  -- connection that it had dialled to a peer of the same identity, at whatever host and port.
  pub selection-earned :
      (es : List Event) (r : SeedReactor) (rand : Random) (requester : Text) (now : ℕ)
      {a : NetAddress}
      → ReadsBack net
      → (live_each outside tm2_calls net sorter codec new_machine es).running ≡ some r
      → Mem a (selection net sorter r rand requester now)
      → ∥ (
          (t : ℕ) × (c : Peers × Exchange.Event) × Mem (calls c) es
          × Backs net (net.to_string a) t c
          × IsRecent r now t) ∥₁
  selection-earned es r rand requester now back runs m =
      let v =
        live_each-IsEarned outside tm2_calls net sorter codec (WasBacked net es) back
          (λ key s t le (u, e, later, found, reached). (u, e, omega arith, found, reached))
          new_machine es (λ key t c found reached. (t, c, omega arith, found, reached))
          (record { running = tt; writing = tt; disk = tt }) in
      let w : RunsWell net (WasBacked net es) (some r) = rw runs at v.running in
      ∥∥₁_elim (selection-reason net sorter codec (WasBacked net es) r rand requester now w.0 w.1 m)
        ∥∥₁_prop
        (λ (t, (u, c, later, found, reached), recent). ∣ (u, c, found, reached, omega arith) ∣₁)
