-- ===== src/Book/File/RoundTrip.antt =====
-- A book that is written and read back, internal/tenderseed/seedbook.go.
use mathlib.Core.List.{append-nil, append_assoc}
use tenderseed.Common.{
  ℕ, ◌+◌, ◌*◌, ◌/◌, ◌≤◌, List, [], ◌∷◌, ◌++◌, map, ◌≡◌, refl, sym, ap, ◌∙◌, false, none, some, inl,
  inr, ◌⊎◌, ◌==◌, arith, Text, text_equality, text_eq, text_eq_iff, All, Bool-cases, none≢some,
}
use tenderseed.Common.Int.{is_zero_ℤ}
use tenderseed.Common.Map.{lookup, lookup-insert, insert, values, Distinct}
use tenderseed.Common.Time.{unix, from_unix, unix_epoch, second}
use tenderseed.Address.{NetAddress, Net}
use tenderseed.Book.{BookRecord, SeedBook, admissible}
use tenderseed.Book.Invariant.{EntryOk, IsValid}
use tenderseed.Book.File.{
  holds, unix_or_zero, zero_or_unix, to_entry, load_entry, load_each, empty_book, new_seed_book,
}

-- A date that `Unix` tells from none: none at all, or at least a second after the epoch.
abbrev pub IsDate : ℕ → Type 0
IsDate t = (t ≡ 0) ⊎ ((unix_epoch + 1) * second ≤ t)

-- The start of a date's second, which is what the file keeps.
abbrev pub whole_second : ℕ → ℕ
whole_second t = t / second * second

abbrev pub to_seconds : BookRecord → BookRecord
to_seconds r = record r {
  last_seen = whole_second r.last_seen;
  last_try = whole_second r.last_try;
  last_ok = whole_second r.last_ok;
}

pub from_unix-unix :
    (t : ℕ)
    → (unix_epoch + 1) * second ≤ t
    → (from_unix (unix t) ≡ whole_second t) × (is_zero_ℤ (unix t) ≡ false)
unfolding from_unix unix
from_unix-unix t h = ground arith

zero_or_unix-unix_or_zero : (t : ℕ) → IsDate t → zero_or_unix (unix_or_zero t) ≡ whole_second t
unfolding zero_or_unix unix_or_zero
zero_or_unix-unix_or_zero t (inl none_yet) = rw none_yet
zero_or_unix-unix_or_zero t (inr h) =
    let some_date : (t == 0) ≡ false = ground arith in
    rw some_date (ground (arith, from_unix-unix t h))

module _ {V : Type 0} where
  insert_absent :
      (k : Text) (v : V) (m : List (Text × V)) → lookup k m ≡ none → insert k v m ≡ m ++ (k, v) ∷ []
  insert_absent k v [] h = refl
  insert_absent k v ((j, w) ∷ m) h = ground (arith, insert_absent k v m)

  -- A map without the keys of `rest` is still without them after another key is written.
  insert-fresh :
      {W : Type 0} (k : Text) (v : V) (m : List (Text × V)) (rest : List (Text × W))
      → lookup k rest ≡ none
      → All (λ e. lookup e.0 m ≡ none) rest
      → All (λ e. lookup e.0 (insert k v m) ≡ none) rest
  insert-fresh k v m [] h a = tt
  insert-fresh k v m ((j, w) ∷ rest) h a = elim (Bool-cases (text_eq j k)) [
    | inl same ↦ absurd (none≢some (sym (rw same at h)))
    | inr other ↦ (
      ground (arith, lookup-insert k j v m, text_eq_iff j k, text_eq_iff k j),
      insert-fresh k v m rest (rw other at h) a.1,
    )
  ]

module _ (net : Net) (now : ℕ) where
  open net use {same, to_string, from_string}

  -- What the round trip asks of an entry: its text reads back as its address, it is not the node's
  -- own, and its dates are dates. A record always has a last mention.
  abbrev pub CanReload : NetAddress → Text × BookRecord → Type 0
  CanReload self (key, r) =
      (from_string (to_string r.addr) ≡ some r.addr)
      × (same r.addr self ≡ false)
      × ((unix_epoch + 1) * second ≤ r.last_seen)
      × IsDate r.last_try
      × IsDate r.last_ok

  abbrev pub reloaded : List (Text × BookRecord) → List (Text × BookRecord)
  reloaded = map (λ e. (e.0, to_seconds e.1))

  load_entry-to_entry :
      (b : SeedBook) (key : Text) (r : BookRecord)
      → EntryOk net b.strict (key, r)
      → CanReload b.self (key, r)
      → load_entry net now b (to_entry net r)
        ≡ record b { peers = insert key (to_seconds r) b.peers }
  unfolding load_entry to_entry admissible
  load_entry-to_entry b key r ok can =
      let (date, dated) = from_unix-unix r.last_seen can.2 in
      rw (
        can.0,
        load_entry,
        ok.1,
        can.1,
        dated,
        date,
        zero_or_unix-unix_or_zero r.last_try can.3,
        zero_or_unix-unix_or_zero r.last_ok can.4,
        ← ok.0,
      )

  load_each-to_entry :
      (b : SeedBook) (peers : List (Text × BookRecord))
      → Distinct peers
      → All (EntryOk net b.strict) peers
      → All (CanReload b.self) peers
      → All (λ e. lookup e.0 b.peers ≡ none) peers
      → load_each net now b (map (to_entry net) (values peers))
        ≡ record b { peers = b.peers ++ reloaded peers }
  unfolding load_each
  load_each-to_entry b [] d ok can fresh =
      ap (λ (m : List (Text × BookRecord)). record b { peers = m }) (sym (append-nil b.peers))
  load_each-to_entry b ((key, r) ∷ peers) d ok can fresh =
      let b' : SeedBook = record b { peers = insert key (to_seconds r) b.peers } in
      let regroup =
        ap (λ (m : List (Text × BookRecord)). m ++ reloaded peers)
          (insert_absent key (to_seconds r) b.peers fresh.0)
        ∙ append_assoc b.peers ((key, to_seconds r) ∷ []) (reloaded peers) in
      rw (load_entry-to_entry b key r ok.0 can.0, load_each)
        (load_each-to_entry b' peers d.1 ok.1 can.1
            (insert-fresh key (to_seconds r) b.peers peers d.0 fresh.1)
          ∙ ap (λ (m : List (Text × BookRecord)). record b { peers = m }) regroup)

  All-nothing :
      (peers : List (Text × BookRecord)) → All (λ e. lookup {V = BookRecord} e.0 [] ≡ none) peers
  All-nothing [] = tt
  All-nothing (e ∷ peers) = (refl, All-nothing peers)

  -- A valid book that is saved and opened again by the same node holds the same addresses, in the
  -- same order, each with its count of failures and with its three dates cut to the second.
  pub load-snapshot :
      (b : SeedBook)
      → IsValid net b
      → All (CanReload b.self) b.peers
      → new_seed_book net b.self b.strict (holds (map (to_entry net) (values b.peers))) now
        ≡ some (record (empty_book net b.self b.strict) { peers = reloaded b.peers })
  unfolding new_seed_book
  load-snapshot b v can = ap some (
      load_each-to_entry (empty_book net b.self b.strict) b.peers v.distinct v.held can
        (All-nothing b.peers))
