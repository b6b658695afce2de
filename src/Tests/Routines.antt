-- ===== src/Tests/Routines.antt =====
-- The properties of the loops of internal/tenderseed/seedreactortm2.go and of the series that it counts in,
-- at small inputs.
use mathlib.Core.List.{mem-cons_self}
use tenderseed.Common.Int.{pos}
use tenderseed.Common.{
  text_eq, suc, none≢some, some-path, ℕ, ◌+◌, ◌-◌, ◌*◌, ◌<◌, ◌++◌, List, [], ◌∷◌, ◌≡◌, refl, true,
  some, none, map, length, arith, Mem, Text,
}
use tenderseed.Common.Time.{second, minute}
use tenderseed.Reactor.{
  SeedReactor, Peer, Peers, Reason, stop_peer, seed_served, cycle_interval_ceiling,
}
use tenderseed.Reactor.Spread.{Random}
use tenderseed.Reactor.Routines.{cycle_once, ticks, run_cycle, run_crawl}
use tenderseed.Reactor.Routines.Cycle.{ticks_from, tick_time, HasLasted, run_cycle-lifetime}
use tenderseed.Reactor.Routines.Crawl.{outbound_ticks, run_crawl-asks}
use tenderseed.Reactor.Receive.Exchange.{receives}
use tenderseed.Node.{untouched}
use tenderseed.Node.Metrics.{new_seed_tm2_metrics}
use tenderseed.Node.Published.{WritesOnly, emitted, emitted-WritesOnly}
use tenderseed.Tests.Nodes.{outside}
use tenderseed.Tests.Traces.{bob_peer, nobody}
use tenderseed.Book.{BookRecord, may_hold}
use tenderseed.Book.Invariant.{IsValid}
use tenderseed.Reactor.Routines.{run_sweep}
use tenderseed.Reactor.Sweep.Connected.{IsHeld}
use tenderseed.Address.{NetAddress, Net}
use tenderseed.Reactor.Routines.Connected.{run_sweep-IsHeld}
use tenderseed.Tests.Samples.{
  net, sorter, today, reactor, peers, no_random, codec, book, alice, alice_record, bob_record,
}

-- A seed that hangs up after ten minutes.
abbrev cycler : SeedReactor
cycler = record reactor { wait = 10 * minute }

-- Bob is connected five seconds after the start.
abbrev bob_stays : ℕ → Peers
bob_stays k = record nobody {
  list = some (record bob_peer { duration = tick_time cycler 0 k - 5 * second }) ∷ [];
}

run_cycle-lifetime_example :
    ((n : ℕ) × (tick_time cycler 0 n < 5 * second + cycler.wait + cycle_interval_ceiling)
      × Mem (stop_peer (2 ∷ []) seed_served) (run_cycle cycler (ticks_from bob_stays 0 (suc n))))
    × ((n : ℕ) (other : Text) (reason : Reason)
        → Mem (stop_peer other reason) (run_cycle cycler (ticks_from bob_stays 0 n))
        → ∥ HasLasted cycler bob_stays other ∥₁)
run_cycle-lifetime_example =
    run_cycle-lifetime cycler bob_stays 0 (5 * second) (2 ∷ []) (omega arith) (omega arith)
      (λ k late soon. (
        record bob_peer { duration = tick_time cycler 0 k - 5 * second },
        mem-cons_self,
        refl,
        refl,
      ))

-- Two ticks: Bob is connected at the second.
abbrev crawled : List (Random × Peers)
crawled =
    (no_random, nobody)
    ∷ (record { draw = λ n. some (n - 1) }, record nobody { list = none ∷ some bob_peer ∷ [] })
    ∷ []

run_crawl-asks_example :
    (length (run_crawl (map ticks crawled)) ≡ outbound_ticks crawled)
    × ((peer : Peer)
        → Mem peer (run_crawl (map ticks crawled))
        → (peer.is_outbound ≡ true)
          × ∥ ((s : Random × Peers) × Mem s crawled × Mem (some peer) s.1.list) ∥₁)
run_crawl-asks_example =
    run_crawl-asks crawled
      (λ n i pos h. absurd (none≢some h), (λ n i pos h. omega (arith, some-path h), tt))

emitted-WritesOnly_example :
    WritesOnly (new_seed_tm2_metrics outside (b'a' ∷ []) untouched).1.published (
      emitted net sorter codec reactor (peers, receives no_random true true (1 ∷ []) [] today)
      ++ cycle_once reactor peers)
unfolding new_seed_tm2_metrics
emitted-WritesOnly_example =
    emitted-WritesOnly outside (b'a' ∷ []) untouched net sorter codec reactor
      (peers, receives no_random true true (1 ∷ []) [] today) peers refl

-- Alice is connected, answered an hour ago, and did not answer four times since.
abbrev missed : BookRecord
missed = record alice_record { last_ok = today - 60 * minute; fails = pos 4 }

abbrev sweeper : SeedReactor
sweeper = record reactor {
  book = record book { peers = (1 ∷ [], missed) ∷ (2 ∷ [], bob_record) ∷ [] };
}

sweeper-IsValid : IsValid net sweeper.book
unfolding may_hold text_eq
sweeper-IsValid = record {
  distinct = (refl, (refl, tt));
  held = ((refl, refl), ((refl, refl), tt));
}

alice-IsHeld : IsHeld net alice 4 sweeper.book
unfolding text_eq
alice-IsHeld = (missed, refl, refl, omega arith)

run_sweep-IsHeld_example :
    IsHeld net alice 4
      (run_sweep net sorter sweeper
        (peers, today)
        (ticks (peers, today + 10 * minute) ∷ ticks (peers, today + 20 * minute) ∷ [])).0.book
unfolding text_eq
run_sweep-IsHeld_example =
    run_sweep-IsHeld net alice sorter 4 sweeper (peers, today)
      (ticks (peers, today + 10 * minute) ∷ ticks (peers, today + 20 * minute) ∷ []) (omega arith)
      sweeper-IsValid (refl, (refl, (refl, tt))) alice-IsHeld

-- Alice is connected at her own address, and was announced at another host too.
abbrev elsewhere : NetAddress
elsewhere = record alice { ip = 6 ∷ 6 ∷ 6 ∷ 6 ∷ [] }

abbrev alice_peer : Peer
alice_peer = record { id = 1 ∷ []; is_outbound = true; socket_addr = alice; duration = 0 }

abbrev alice_only : Peers
alice_only = record peers { get = λ id. some alice_peer }

-- The texts of addresses here tell the hosts apart.
abbrev net_by_host : Net
net_by_host = record net { to_string = λ a. a.id ++ a.ip }
