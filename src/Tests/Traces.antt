-- ===== src/Tests/Traces.antt =====
-- The properties of sequences of calls on the reactor of internal/tenderseed/seedreactortm2.go, at
-- small sequences.
use mathlib.Core.List.{mem-cons_self}
use tenderseed.Common.{
  map, ◌++◌, ◌≢◌, arith, none, some, false, List, [], ◌∷◌, ◌≡◌, refl, sym, subst, true, Mem,
  text_eq, text_equality,
}
use tenderseed.Common.Sorting.{insertion_sort}
use tenderseed.Book.{
  drop_failing, drop_entries, mark_attempt, count_attempt, admissible, get_record, mark_success,
}
use tenderseed.Book.Queries.{fresh_batch, collect_sorted, collect_records, is_fresh, newer_proof}
use tenderseed.Reactor.{Peer, Peers}
use tenderseed.Reactor.Serve.{acceptable, servable, selection}
use tenderseed.Reactor.Spread.{network_group, shuffle_addresses, spread_by_group}
use tenderseed.Reactor.Budget.{freshness, servable_ceiling}
use tenderseed.Reactor.Notes.{remove_peer}
use tenderseed.Reactor.Receive.{add_peer}
use tenderseed.Reactor.Receive.Exchange.{Event, removes, handle, handle_each}
use tenderseed.Book.Invariant.{Call, adds, succeeds, attempts, drops, run}
use tenderseed.Address.{NetAddress}
use tenderseed.Book.Promise.{view, Runs}
use tenderseed.Book.Promise.Refinement.{run-refines}
use tenderseed.Reactor.Spread.Opening.{range_of, ranges_after, spread_by_group-opening}
use tenderseed.Reactor.Budget.{renewal_window, sweep_budget}
use tenderseed.Book.Queries.{
  stale_proven_batch, stale_unproven_batch, is_stale_proven, is_unproven, older_news,
}
use tenderseed.Reactor.Sweep.{mark_attempts, on_start, sweep_once, plan, handed_over, dialable}
use tenderseed.Reactor.Routines.StartUp.{dialled, on_start-apart}
use tenderseed.Tests.Samples.{
  alice, carol, book, bob, net, sorter, today, book-IsValid, reactor, peers, no_random, codec,
}

-- Bob is dialled.
abbrev pub bob_peer : Peer
bob_peer = record { id = 2 ∷ []; is_outbound = true; socket_addr = bob; duration = 0 }

abbrev calls : List (Peers × Event)
calls = (peers, removes (1 ∷ [])) ∷ (peers, Event.adds bob_peer today) ∷ []

bob_selected :
    selection net sorter (handle_each net sorter codec reactor calls) no_random (1 ∷ []) today
    ≡ bob ∷ []
unfolding handle_each handle remove_peer add_peer text_eq mark_success get_record admissible
    selection servable fresh_batch collect_sorted collect_records is_fresh newer_proof freshness
    servable_ceiling shuffle_addresses spread_by_group acceptable insertion_sort network_group
bob_selected = refl

abbrev book_calls : List Call
book_calls =
    adds (some carol ∷ []) today
    ∷ attempts (some bob) today
    ∷ succeeds (some bob) today
    ∷ drops 5
    ∷ []

run-refines_example :
    Runs net book.strict book.self book.max_peers
      (view book)
      book_calls
      (view (run net sorter book book_calls))
run-refines_example = run-refines net sorter book book_calls book-IsValid

spread_by_group-opening_example :
    (opening rest : List NetAddress) × (spread_by_group (alice ∷ bob ∷ carol ∷ [])
      ≡ opening ++ rest)
    × (map range_of opening ≡ ranges_after [] (alice ∷ bob ∷ carol ∷ []))
spread_by_group-opening_example = spread_by_group-opening (alice ∷ bob ∷ carol ∷ [])

-- Nobody is connected.
abbrev pub nobody : Peers
nobody = record { has = λ id. false; get = λ id. none; list = []; num_outbound = 0 }

alice_known : dialled (on_start net sorter reactor nobody today) ≡ alice ∷ []
unfolding on_start fresh_batch collect_sorted collect_records is_fresh newer_proof renewal_window
    sweep_budget insertion_sort
alice_known = refl

bob_swept : dialled (sweep_once net sorter reactor nobody today).1 ≡ bob ∷ []
unfolding sweep_once plan handed_over dialable stale_proven_batch stale_unproven_batch
    collect_sorted collect_records is_stale_proven is_unproven older_news renewal_window
    sweep_budget insertion_sort drop_failing drop_entries mark_attempts mark_attempt get_record
    admissible text_eq count_attempt
bob_swept = refl

on_start-apart_example : alice ≢ bob
on_start-apart_example =
    on_start-apart net nobody sorter reactor today book-IsValid (omega arith) (λ id. refl)
      (subst (Mem alice) (sym alice_known) mem-cons_self)
      (subst (Mem bob) (sym bob_swept) mem-cons_self)
