-- ===== src/Reactor/Routines.antt =====
-- The loops of internal/tenderseed/seedreactortm2.go: the crawl, the cycle, the sweep, whose pass is in
-- Reactor/Sweep, and `persist`, which calls `save` of Book/File; and the stop.
pub mod StartUp
pub mod Cycle
pub mod Crawl
pub mod Connected
use tenderseed.Common.{
  ℕ, List, [], ◌∷◌, ◌++◌, Bool, not, Option, none, some, ltb, ◌==◌, if◌then◌else◌, length,
  get_elem?,
}
use tenderseed.Address.{Net}
use tenderseed.Book.{BookRecord, SeedBook}
use tenderseed.Common.Sorting.{Sorter}
use tenderseed.Book.File.{Disk, save, flush}
use tenderseed.Reactor.{
  SeedReactor, Peer, Peers, Effect, stop_peer, seed_served, cycled, stage_cycle,
}
use tenderseed.Reactor.Serve.{observe_count}
use tenderseed.Reactor.Spread.{Random, random_below}
use tenderseed.Reactor.Sweep.{sweep_once}

unfoldable pub outbound_only : List (Option Peer) → List Peer
outbound_only [] = []
outbound_only (none ∷ peers) = outbound_only peers
outbound_only (some peer ∷ peers) =
    if not peer.is_outbound then outbound_only peers else peer ∷ outbound_only peers

-- One tick of `crawl`: the peer that is asked, if any.
unfoldable pub crawl_tick : Random → Peers → Option Peer
unfolding outbound_only
crawl_tick rand peers =
    let candidates = outbound_only peers.list in
    if length candidates == 0
    then none
    else get_elem? candidates (random_below rand (length candidates))

-- The peers that a pass of the cycle stops.
unfoldable pub overdue : ℕ → List (Option Peer) → List Peer
overdue wait [] = []
overdue wait (none ∷ peers) = overdue wait peers
overdue wait (some peer ∷ peers) =
    if ltb peer.duration wait then overdue wait peers else peer ∷ overdue wait peers

unfoldable pub stop_each : List Peer → List Effect
stop_each [] = []
stop_each (peer ∷ peers) = stop_peer peer.id seed_served ∷ stop_each peers

unfoldable pub cycle_once : SeedReactor → Peers → List Effect
unfolding overdue stop_each
cycle_once r peers =
    stop_each (overdue r.wait peers.list)
    ++ observe_count cycled stage_cycle (length (overdue r.wait peers.list))

-- What a loop waits for: its ticker, with what a tick finds, or the end of the context.
pub data Wake (A : Type 0) : Type 0 where
  ticks : A → Wake A
  done : Wake A

-- The loop `crawl`: the peers that are asked.
unfoldable pub run_crawl : List (Wake (Random × Peers)) → List Peer
unfolding crawl_tick
run_crawl [] = []
run_crawl (done ∷ wakes) = []
run_crawl (ticks (rand, peers) ∷ wakes) =
    let rest = run_crawl wakes in
    elim (crawl_tick rand peers) [ none ↦ rest | some peer ↦ peer ∷ rest ]

-- The loop `cycle`.
unfoldable pub run_cycle : SeedReactor → List (Wake Peers) → List Effect
unfolding cycle_once
run_cycle r [] = []
run_cycle r (done ∷ wakes) = []
run_cycle r (ticks peers ∷ wakes) = cycle_once r peers ++ run_cycle r wakes

module _ (net : Net) (sorter : Sorter BookRecord) where
  -- The ticks of the loop `sweep`.
  unfoldable pub sweep_ticks : SeedReactor → List (Wake (Peers × ℕ)) → SeedReactor × List Effect
  sweep_ticks r [] = (r, [])
  sweep_ticks r (done ∷ wakes) = (r, [])
  sweep_ticks r (ticks (peers, now) ∷ wakes) =
      let pass = sweep_once net sorter r peers now in
      let rest = sweep_ticks pass.0 wakes in (rest.0, pass.1 ++ rest.1)

  -- The loop `sweep`, with one pass before the first tick.
  unfoldable pub run_sweep :
      SeedReactor → Peers × ℕ → List (Wake (Peers × ℕ)) → SeedReactor × List Effect
  unfolding sweep_ticks
  run_sweep r first wakes = sweep_ticks r (ticks first ∷ wakes)

-- The loop `persist`: a tick finds what happens to the book during the write, and whether it succeeds.
unfoldable pub run_persist :
    Net → SeedBook → List (Wake ((SeedBook → SeedBook) × Bool)) → Disk → SeedBook × Disk
run_persist net b [] disk = (b, disk)
run_persist net b (done ∷ wakes) disk = (b, disk)
run_persist net b (ticks (meanwhile, written) ∷ wakes) disk =
    let out = save net b meanwhile written disk in run_persist net out.0 wakes out.1

-- The loops that `OnStart` starts.
pub data Routine : Type 0 where
  crawl persist cycle sweep : Routine

unfoldable pub routines_started : SeedReactor → List Routine
routines_started r =
    crawl ∷ persist ∷ []
    ++ (if ltb 0 r.wait then cycle ∷ [] else [])
    ++ (if ltb 0 r.check_period then sweep ∷ [] else [])

-- `OnStop`, after the loops are cancelled.
unfoldable pub on_stop :
    Net → SeedReactor → (SeedBook → SeedBook) → Bool → Disk → SeedReactor × Disk
on_stop net r meanwhile written disk =
    let out = flush net r.book meanwhile written disk in (record r { book = out.0 }, out.1)
