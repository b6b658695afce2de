-- ===== src/Reactor.antt =====
-- The discovery reactor of a TM2 seed, internal/tenderseed/seedreactortm2.go: its state, what it sees
-- of the switch, and what it does to the outside. A handler takes the reactor, the peers of the switch
-- and the time, and returns the new reactor with its effects in order; log lines are left out. The
-- switch and its peers are code of tm2/pkg/p2p, which is not in this repository.
pub mod Budget
pub mod Notes
pub mod Spread
pub mod Wire
pub mod Serve
pub mod Learn
pub mod Sweep
pub mod Receive
pub mod Routines
use tenderseed.Common.{ℕ, ◌*◌, List, [], ◌∷◌, Bool, Option, Text}
use tenderseed.Common.Time.{second, minute}
use tenderseed.Address.{NetAddress}
use tenderseed.Book.{SeedBook}

abbrev pub max_addresses_per_answer : ℕ
max_addresses_per_answer = 30

abbrev pub max_addresses_served : ℕ
max_addresses_served = 250

abbrev pub max_addresses_learned : ℕ
max_addresses_learned = max_addresses_served

abbrev pub answer_window : ℕ
answer_window = minute

abbrev pub min_serve_interval : ℕ
min_serve_interval = second

abbrev pub freshness_factor : ℕ
freshness_factor = 3

abbrev pub max_consecutive_failures : ℕ
max_consecutive_failures = 5

abbrev pub dial_cost : ℕ
dial_cost = 9 * second

abbrev pub cycle_interval_floor : ℕ
cycle_interval_floor = second

abbrev pub cycle_interval_ceiling : ℕ
cycle_interval_ceiling = 30 * second

-- What this seed remembers of one peer.
pub record PeerNotes : Type 0 where
  pub asked : ℕ
  pub served : ℕ
  pub learned : ℕ
  pub since : ℕ

abbrev pub no_notes : PeerNotes
no_notes = record { asked = 0; served = 0; learned = 0; since = 0 }

-- `SeedReactorTM2`. Durations are numbers of nanoseconds; the configuration refuses negative ones.
pub record SeedReactor : Type 0 where
  pub book : SeedBook
  pub strict : Bool
  pub wait : ℕ
  pub check_period : ℕ
  pub max_outbound : ℕ
  pub notes : List (Text × PeerNotes)

-- A connection: `p2p.PeerConn`, with `Status().Duration`.
pub record Peer : Type 0 where
  pub id : Text
  pub is_outbound : Bool
  pub socket_addr : NetAddress
  pub duration : ℕ

-- `Switch.Peers()` at the moment it is asked: `Has`, `Get`, `List` and `NumOutbound`.
pub record Peers : Type 0 where
  pub has : Text → Bool
  pub get : Text → Option Peer
  pub list : List (Option Peer)
  pub num_outbound : ℕ

-- The stages and the outcomes of metricstm2.go.
pub data Stage : Type 0 where
  stage_serve stage_learn stage_sweep stage_cycle : Stage

pub data Outcome : Type 0 where
  served empty failed accepted rejected unsolicited too_soon : Outcome
  retried dropped skipped_connected skipped_budget cycled : Outcome

-- The two reasons given when a peer is stopped.
pub data Reason : Type 0 where
  seed_served queue_full : Reason

-- A message on the discovery channel.
pub data Message : Type 0 where
  request : Message
  response : List NetAddress → Message

-- What the reactor does to the outside. `flush_stop` and the `stop_peer` behind it run in a routine of
-- their own.
pub data Effect : Type 0 where
  observe_many : Outcome → Stage → ℕ → Effect
  set_book : (known fresh : ℕ) → Effect
  dial_peers : List NetAddress → Effect
  sends : Text → Message → Effect
  flush_stop : Text → Effect
  stop_peer : Text → Reason → Effect
