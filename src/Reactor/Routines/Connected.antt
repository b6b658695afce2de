-- ===== src/Reactor/Routines/Connected.antt =====
-- What the loop of the sweep of internal/tenderseed/seedreactortm2.go does to the record of a peer that
-- stays connected.
use tenderseed.Common.{ℕ, ◌<◌, List, [], ◌∷◌, ◌≡◌, true, All}
use tenderseed.Common.Sorting.{Sorter}
use tenderseed.Address.{NetAddress, Net}
use tenderseed.Book.{BookRecord}
use tenderseed.Book.Invariant.{IsValid}
use tenderseed.Reactor.{SeedReactor, Peers, max_consecutive_failures}
use tenderseed.Reactor.Sweep.{sweep_once}
use tenderseed.Reactor.Sweep.Passes.{sweep_once-IsValid}
use tenderseed.Reactor.Sweep.Connected.{IsHeld, sweep_once-IsHeld}
use tenderseed.Reactor.Routines.{Wake, ticks, done, sweep_ticks, run_sweep}

module _ (net : Net) (a : NetAddress) where
  -- The peer of the address is connected at the tick.
  abbrev pub IsConnected : Wake (Peers × ℕ) → Type 0
  IsConnected (ticks (peers, now)) = peers.has a.id ≡ true
  IsConnected done = Unit

  module _ (sorter : Sorter BookRecord) where
    sweep_ticks-IsHeld :
        (n : ℕ) (r : SeedReactor) (wakes : List (Wake (Peers × ℕ)))
        → n < max_consecutive_failures
        → IsValid net r.book
        → All IsConnected wakes
        → IsHeld net a n r.book
        → IsHeld net a n (sweep_ticks net sorter r wakes).0.book
    unfolding sweep_ticks
    sweep_ticks-IsHeld n r [] few v c h = h
    sweep_ticks-IsHeld n r (done ∷ wakes) few v c h = h
    sweep_ticks-IsHeld n r (ticks (peers, now) ∷ wakes) few v c h =
        sweep_ticks-IsHeld n (sweep_once net sorter r peers now).0 wakes few
          (sweep_once-IsValid net peers sorter r now v) c.1
          (sweep_once-IsHeld net a peers sorter c.0 n r now few v h)

    -- For an address with a record in a valid book, of `n` failures at most and below the limit of
    -- `DropFailing`, and a peer of its identity that is connected at every tick: the loop of the sweep, through
    -- however many passes, keeps a record of the address under its text, of `n` failures at most.
    pub run_sweep-IsHeld :
        (n : ℕ) (r : SeedReactor) (first : Peers × ℕ) (wakes : List (Wake (Peers × ℕ)))
        → n < max_consecutive_failures
        → IsValid net r.book
        → All IsConnected (ticks first ∷ wakes)
        → IsHeld net a n r.book
        → IsHeld net a n (run_sweep net sorter r first wakes).0.book
    unfolding run_sweep
    run_sweep-IsHeld n r first wakes few v c h =
        sweep_ticks-IsHeld n r (ticks first ∷ wakes) few v c h
