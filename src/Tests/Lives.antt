-- ===== src/Tests/Lives.antt =====
-- The properties of the life of a TM2 seed over several processes, at a small history.
use mathlib.Core.List.{mem-cons_self}
use tenderseed.Common.Int.{pos}
use tenderseed.Common.{
  ℕ, List, [], ◌∷◌, ◌≡◌, refl, sym, subst, true, false, some, none, arith, Mem, All, text_eq,
  text_eq_iff, text_equality, inr,
}
use tenderseed.Book.{BookRecord, mark_success, get_record, admissible, may_hold}
use tenderseed.Book.Queries.{fresh_batch, collect_sorted, collect_records, is_fresh, newer_proof}
use tenderseed.Book.File.{zero_or_unix, unix_or_zero, new_seed_book, missing, snapshot, settle}
use tenderseed.Book.File.Proofs.{ReadsBack}
use tenderseed.Book.File.RoundTrip.{CanReload, reloaded}
use tenderseed.Book.Invariant.{IsValid}
use tenderseed.Common.Sorting.{insertion_sort}
use tenderseed.Config.{validate, disconnect_wait_period, check_period}
use tenderseed.Reactor.{SeedReactor, Peers}
use tenderseed.Reactor.Serve.{acceptable, servable, selection}
use tenderseed.Reactor.Spread.{network_group, shuffle_addresses, spread_by_group}
use tenderseed.Reactor.Budget.{freshness, servable_ceiling}
use tenderseed.Reactor.Receive.{add_peer}
use tenderseed.Reactor.Receive.Exchange.{handle}
use tenderseed.Reactor.Receive.Exchange
use tenderseed.Reactor.Receive.Origins.{Backs}
use tenderseed.Reactor.Receive.Served.{IsRecent}
use tenderseed.Node.{under_home, moniker_of}
use tenderseed.Node.Lists.{slog_level, split_and_trim_list}
use tenderseed.Node.Tm2.{new_seed_tm2, new_seed_reactor}
use tenderseed.Life.{
  Machine, new_machine, Event, starts, calls, begins_save, ends_save, flushes, ends, live_each,
}
use tenderseed.Life.Served.{selection-earned}
use tenderseed.Life.Kept.{restart-kept}
use tenderseed.Tests.Nodes
use tenderseed.Tests.Nodes.{config, outside}
use tenderseed.Tests.Traces.{bob_peer, nobody}
use tenderseed.Tests.Samples.{bob, seed, net, sorter, today, no_random, codec}

-- The seed of a process dials Bob, is asked to save, and is killed; another process follows.
abbrev history : List Event
history =
    starts [] config today
    ∷ calls (nobody, Exchange.adds bob_peer today)
    ∷ begins_save
    ∷ ends_save true
    ∷ ends
    ∷ starts [] config today
    ∷ []

abbrev bob_reached : BookRecord
bob_reached = record {
  addr = bob;
  last_seen = today;
  fails = pos 0;
  last_try = today;
  last_ok = today;
}

-- The second process, which read Bob from the file.
abbrev second_reactor : SeedReactor
second_reactor = record {
  book = record {
    self = seed;
    max_peers = 1000;
    strict = true;
    dirty = false;
    generation = 0;
    peers = (2 ∷ [], bob_reached) ∷ [];
  };
  strict = true;
  wait = 600000000000;
  check_period = 600000000000;
  max_outbound = 60;
  notes = [];
}

second_runs :
    (live_each outside Nodes.calls net sorter codec new_machine history).running
    ≡ some second_reactor
unfolding live_each handle add_peer mark_success get_record admissible text_eq new_seed_tm2
    under_home moniker_of slog_level split_and_trim_list new_seed_reactor new_seed_book validate
    disconnect_wait_period check_period snapshot settle zero_or_unix unix_or_zero
second_runs = refl

net-ReadsBack : ReadsBack net
net-ReadsBack a b h = ground (arith, text_eq_iff a.id (1 ∷ []), text_eq_iff a.id (2 ∷ []))

bob_served : selection net sorter second_reactor no_random (1 ∷ []) today ≡ bob ∷ []
unfolding selection servable fresh_batch collect_sorted collect_records is_fresh newer_proof
    freshness servable_ceiling shuffle_addresses spread_by_group acceptable insertion_sort
    network_group text_eq
bob_served = refl

selection-earned_example : ∥ (
    (t : ℕ) × (c : Peers × Exchange.Event) × Mem (calls c) history
    × Backs net (net.to_string bob) t c
    × IsRecent second_reactor today t) ∥₁
selection-earned_example =
    selection-earned outside Nodes.calls net sorter codec history second_reactor no_random (1 ∷ [])
      today net-ReadsBack second_runs (subst (Mem bob) (sym bob_served) mem-cons_self)

-- The same book, before it is saved.
abbrev unsaved_reactor : SeedReactor
unsaved_reactor = record second_reactor { book = record second_reactor.book { dirty = true } }

abbrev unsaved_machine : Machine
unsaved_machine = record { running = some unsaved_reactor; writing = none; disk = missing }

unsaved-IsValid : IsValid net unsaved_reactor.book
unfolding may_hold
unsaved-IsValid = record { distinct = (refl, tt); held = ((refl, refl), tt) }

bob-CanReload : All (CanReload net today seed) unsaved_reactor.book.peers
unfolding text_eq
bob-CanReload = ((refl, refl, omega arith, inr (omega arith), inr (omega arith)), tt)

restarted :
    (live_each outside Nodes.calls net sorter codec unsaved_machine (
      begins_save
      ∷ flushes
      ∷ ends_save true
      ∷ begins_save
      ∷ ends
      ∷ starts [] config today
      ∷ [])).running
    ≡ some second_reactor
unfolding live_each text_eq new_seed_tm2 under_home admissible moniker_of slog_level
    split_and_trim_list new_seed_reactor new_seed_book validate disconnect_wait_period check_period
    snapshot settle zero_or_unix unix_or_zero
restarted = refl

restart-kept_example : second_reactor.book.peers ≡ reloaded net today unsaved_reactor.book.peers
restart-kept_example =
    restart-kept outside Nodes.calls net sorter codec unsaved_machine unsaved_reactor (flushes ∷ [])
      (begins_save ∷ []) [] config today refl refl refl unsaved-IsValid bob-CanReload (tt, tt)
      (tt, tt) restarted refl refl
