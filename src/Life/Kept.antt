-- ===== src/Life/Kept.antt =====
-- What a seed finds when it is started again: the book as it was when the last write began that was
-- completed, whatever happened since.
use tenderseed.Common.{
  ℕ, List, [], ◌∷◌, ◌++◌, ◌≡◌, refl, sym, ap, ◌∙◌, inl, inr, ◌||◌, Bool, true, not, none, some, map,
  arith, Text, text_equality, All, subst, Bool-cases, Option-cases, some-path, none≢some,
}
use tenderseed.Common.Map.{values}
use tenderseed.Common.Sorting.{Sorter}
use tenderseed.Address.{NetAddress, Net}
use tenderseed.Book.{BookRecord, SeedBook, admissible}
use tenderseed.Book.Invariant.{IsValid}
use tenderseed.Book.File.{
  BookEntry, holds, to_entry, load_entry, load_each, load, empty_book, new_seed_book,
}
use tenderseed.Book.File.RoundTrip.{CanReload, reloaded, load-snapshot}
use tenderseed.Config.{Config}
use tenderseed.Reactor.{SeedReactor}
use tenderseed.Reactor.Wire.{WireCodec}
use tenderseed.Node.{Built, built, stopped, Outside, untouched}
use tenderseed.Node.Tm2.{Tm2Calls, SeedTm2, new_seed_tm2}
use tenderseed.Node.Accepted.{new_seed_tm2-opened}
use tenderseed.Life.{
  Machine, Event, starts, begins_save, ends_save, ends, reactor_of, over, act, idle, live,
  live_each,
}
use tenderseed.Life.Writes.{
  IsMeanwhile, LeavesFile, after, after-append, live-disk, after-disk, written-disk,
}

module _ (net : Net) where
  load_entry_self :
      (now : ℕ) (b : SeedBook) (e : BookEntry)
      → ((load_entry net now b e).self ≡ b.self) × ((load_entry net now b e).strict ≡ b.strict)
  unfolding load_entry
  load_entry_self now b e = elim (Option-cases (net.from_string e.addr)) [
    | inl bad ↦ rw (bad, load_entry) (refl, refl)
    | inr (addr, q) ↦
        elim (Bool-cases (not (admissible net b (some addr)) || net.same addr b.self)) [
          | inl refused ↦ rw (q, refused, load_entry) (refl, refl)
          | inr taken ↦ rw (q, taken, load_entry) (refl, refl)
        ]
  ]

  load_each_self :
      (now : ℕ) (b : SeedBook) (es : List BookEntry)
      → ((load_each net now b es).self ≡ b.self) × ((load_each net now b es).strict ≡ b.strict)
  unfolding load_each
  load_each_self now b [] = (refl, refl)
  load_each_self now b (e ∷ es) =
      let (self, strict) = load_entry_self now b e in
      let (self', strict') = load_each_self now (load_entry net now b e) es in
      (self' ∙ self, strict' ∙ strict)

  -- A book that opens from entries has the owner and the strictness that it was opened with.
  new_seed_book_self :
      (self : NetAddress) (strict : Bool) (es : List BookEntry) (now : ℕ) {b : SeedBook}
      → new_seed_book net self strict (holds es) now ≡ some b
      → (b.self ≡ self) × (b.strict ≡ strict)
  unfolding new_seed_book load
  new_seed_book_self self strict es now h =
      subst (λ (x : SeedBook). (x.self ≡ self) × (x.strict ≡ strict)) (some-path h)
        (load_each_self now (empty_book net self strict) es)

  -- A book that is opened by the same node over the entries of a book holds what that book held.
  opens-reloaded :
      (self : NetAddress) (strict : Bool) (b : SeedBook) (now : ℕ) {c : SeedBook}
      → new_seed_book net self strict (holds (map (to_entry net) (values b.peers))) now ≡ some c
      → c.self ≡ b.self
      → c.strict ≡ b.strict
      → IsValid net b
      → All (CanReload net now b.self) b.peers
      → c.peers ≡ reloaded net now b.peers
  opens-reloaded self strict b now {c} h same_self same_strict v can =
      let entries = map (to_entry net) (values b.peers) in
      let (mine, kind) = new_seed_book_self self strict entries now h in
      let again =
        ap (λ (x : NetAddress). new_seed_book net x b.strict (holds entries) now)
          (sym same_self ∙ mine)
        ∙ ap (λ (x : Bool). new_seed_book net self x (holds entries) now) (sym same_strict ∙ kind)
        ∙ h in
      ap (λ (x : SeedBook). x.peers) (some-path (sym again ∙ load-snapshot net now b v can))

module _ (outside : Outside) (tm2_calls : Tm2Calls) (net : Net) (sorter : Sorter BookRecord)
    (codec : WireCodec) where
  -- The book of a seed that is started where none runs, over a file that the same node has written.
  starts-book :
      (m : Machine) (b : SeedBook) (home : Text) (config : Config) (now : ℕ) {r : SeedReactor}
      → m.running ≡ none
      → m.disk ≡ holds (map (to_entry net) (values b.peers))
      → IsValid net b
      → All (CanReload net now b.self) b.peers
      → (live outside tm2_calls net sorter codec m (starts home config now)).running ≡ some r
      → r.book.self ≡ b.self
      → r.book.strict ≡ b.strict
      → r.book.peers ≡ reloaded net now b.peers
  unfolding live idle reactor_of
  starts-book m b home config now {r} idle_now file v can runs same_self same_strict =
      opened (new_seed_tm2 outside (over tm2_calls m.disk) net home config now untouched).0 refl
        (rw (idle_now, live) at runs)
    where
      entries : List BookEntry
      entries = map (to_entry net) (values b.peers)

      opened :
          (out : Built SeedTm2)
          → (new_seed_tm2 outside (over tm2_calls m.disk) net home config now untouched).0 ≡ out
          → reactor_of out ≡ some r
          → r.book.peers ≡ reloaded net now b.peers
      opened (stopped x) h q = absurd (none≢some q)
      opened (built s) h q =
          let (self, found) =
            new_seed_tm2-opened outside (over tm2_calls m.disk) net home config now untouched h in
          let e : s.reactor ≡ r = some-path q in
          let book : new_seed_book net self config.addr_book_strict (holds entries) now
              ≡ some r.book =
            rw (e, file) at found in
          opens-reloaded net self config.addr_book_strict b now book same_self same_strict v can

  live-stopped : (m : Machine) → (live outside tm2_calls net sorter codec m ends).running ≡ none
  unfolding live act idle
  live-stopped m = elim (Option-cases m.running) [
    | inl none_runs ↦ ground arith
    | inr (r, runs) ↦ ground arith
  ]

  -- A write that is completed is not lost. When a process begins to save a changed and valid book of
  -- reloadable entries and the file is written, with whatever calls meanwhile; when anything happens after
  -- it but another completed write or a loss of the file; and when the process then ends, in the middle of a
  -- write too: the next seed of the same identity and strictness finds every address that the book held as
  -- the write began, with its failures, and with its dates cut to the second.
  pub restart-kept :
      (m : Machine) (r : SeedReactor) (during since : List Event) (home : Text) (config : Config)
      (now : ℕ) {r' : SeedReactor}
      → m.running ≡ some r
      → m.writing ≡ none
      → r.book.dirty ≡ true
      → IsValid net r.book
      → All (CanReload net now r.book.self) r.book.peers
      → All IsMeanwhile during
      → All LeavesFile since
      → (after outside tm2_calls net sorter codec m (
          (begins_save ∷ during ++ ends_save true ∷ [])
          ++ (since ++ ends ∷ starts home config now ∷ []))).running
        ≡ some r'
      → r'.book.self ≡ r.book.self
      → r'.book.strict ≡ r.book.strict
      → r'.book.peers ≡ reloaded net now r.book.peers
  unfolding live_each
  restart-kept m r during since home config now {r'} runs free unsaved v can meanwhile leaves again
        self strict =
      let write = begins_save ∷ during ++ ends_save true ∷ [] in
      let last = ends ∷ starts home config now ∷ [] in
      let m' = after outside tm2_calls net sorter codec m write in
      let m'' = after outside tm2_calls net sorter codec m' since in
      let file : m''.disk ≡ holds (map (to_entry net) (values r.book.peers)) =
        after-disk outside tm2_calls net sorter codec m' since leaves
        ∙ written-disk outside tm2_calls net sorter codec m r during runs free unsaved meanwhile in
      let split =
        after-append outside tm2_calls net sorter codec m write (since ++ last)
        ∙ after-append outside tm2_calls net sorter codec m' since last in
      starts-book (live outside tm2_calls net sorter codec m'' ends) r.book home config now
        (live-stopped m'') (live-disk outside tm2_calls net sorter codec m'' ends tt ∙ file) v can
        (ap (λ (x : Machine). x.running) (sym split) ∙ again) self strict
