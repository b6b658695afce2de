-- ===== src/Cosmos/Life.antt =====
-- The life of the verification of internal/tenderseed/seedreactor.go: what `Start` starts, and what the
-- routines, the messages and the sweep do to the reactor, in any order.
pub mod Running
pub mod Reached
use tenderseed.Common.{
  ℕ, List, [], ◌∷◌, ◌≡◌, ◌≢◌, Bool, true, false, Option, some, ◌==◌, if◌then◌else◌, Text,
}
use tenderseed.Cosmos.{CosmosReactor}
use tenderseed.Cosmos.State.{new_cosmos_reactor}
use tenderseed.Cosmos.Verify.{Outside, receive_addrs, verify, sweep_tick}

-- `Start`, behind the call of the upstream reactor: how many workers are started, and whether the sweep is.
unfoldable pub start_routines : {Addr : Type 0} → CosmosReactor Addr → ℕ × Bool
start_routines r = if r.period == 0 then (0, false) else (r.workers, true)

module _ {Addr : Type 0} (id_of : Addr → Text) where
  pub data Step : CosmosReactor Addr → CosmosReactor Addr → Type 0 where
    -- A message arrives.
    receives :
        (r : CosmosReactor Addr) (quits : Addr → Bool) (src : Option Bool)
        (addrs : Option (Option (List (Option Addr)))) (now : ℕ)
        → Step r (receive_addrs id_of r quits src addrs now)
    -- A worker takes the next address of the queue: `verifyWorker`.
    works :
        (r : CosmosReactor Addr) (addr : Addr) (rest : List Addr) (outside : Option (Outside Addr))
        (now : ℕ)
        → r.addrs ≡ addr ∷ rest
        → (start_routines r).0 ≢ 0
        → Step r (verify id_of (record r { addrs = rest }) outside (some addr) now).0
    -- The ticker of the sweep fires: `sweepRoutine`.
    sweeps :
        (r : CosmosReactor Addr) (has_address quits : Addr → Bool) (selection : List (Option Addr))
        (now : ℕ)
        → (start_routines r).1 ≡ true
        → Step r (sweep_tick id_of r has_address quits selection now).0

  -- What a new reactor may come to.
  pub data Reach (workers period : ℕ) : CosmosReactor Addr → Type 0 where
    begins : Reach workers period (new_cosmos_reactor workers period)
    goes : (r s : CosmosReactor Addr) → Reach workers period r → Step r s → Reach workers period s
