-- ===== src/Cosmos/Verify.antt =====
-- The decisions of internal/tenderseed/seedreactor.go: what is queued, what is dialled, and what is
-- counted. Each function under the lock is one step; the workers drain the queue between the steps.
pub mod Counted
pub mod Queue
use tenderseed.Common.{
  ℕ, suc, ◌+◌, ◌-◌, ◌*◌, List, [], ◌∷◌, ◌++◌, Bool, true, false, not, ◌&&◌, ◌||◌, Option, none,
  some, ltb, leb, ◌==◌, if◌then◌else◌, Text, text_eq, length,
}
use tenderseed.Cosmos.{
  CosmosReactor, VerifyOutcome, outcome_of, same_outcome, VerifyResult, success, answered_unlisted,
  failure, skipped_local, skipped_collision, dropped_full, VerifyStage, at_enqueue, at_verify,
  verify_outcomes, queue_per_worker,
}
use tenderseed.Cosmos.State.{eligible, record_success, record_failure, purge}

-- Counts an outcome up if it is in the table.
unfoldable pub count_up : VerifyOutcome → List (VerifyOutcome × ℕ) → List (VerifyOutcome × ℕ)
count_up outcome [] = []
count_up outcome ((o, n) ∷ counts) =
    if same_outcome o outcome then (o, n + 1) ∷ counts else (o, n) ∷ count_up outcome counts

-- How a dial failed, as `errors.As` sees it.
pub record DialError : Type 0 where
  pub is_dialing : Bool
  pub is_rejected : Bool
  pub is_duplicate : Bool

unfoldable pub dial_outcome : DialError → Option VerifyResult
dial_outcome err =
    if err.is_dialing
    then some skipped_local
    else if err.is_rejected && err.is_duplicate
    then some skipped_collision
    else none

-- What the book and the switch are asked to do.
pub data CosmosEffect (Addr : Type 0) : Type 0 where
  dials : Addr → CosmosEffect Addr
  marks_attempt : Addr → CosmosEffect Addr
  adds_address : Addr → CosmosEffect Addr
  marks_good : Text → CosmosEffect Addr
  stops_gracefully : Text → CosmosEffect Addr

-- What the switch and the book answer in one verification. The dial ends at `later`.
pub record Outside (Addr : Type 0) : Type 0 where
  pub own_id : Text
  pub is_banned : Addr → Bool
  pub is_dialing : Addr → Bool
  pub dial : Addr → Option DialError
  pub add_fails : Addr → Bool
  pub has_peer : Text → Bool
  pub later : ℕ

-- What the summary line shows of each outcome since the last one: `logSweep`.
unfoldable pub since_last :
    List (VerifyOutcome × ℕ) → List (VerifyOutcome × ℕ) → List (VerifyOutcome × ℕ)
since_last ((o, total) ∷ counts) ((p, before) ∷ seen) = (o, total - before) ∷ since_last counts seen
since_last _ _ = []

module _ {Addr : Type 0} where
  unfoldable pub count : CosmosReactor Addr → VerifyResult → VerifyStage → CosmosReactor Addr
  unfolding count_up
  count r result stage = record r { counts = count_up (outcome_of result stage) r.counts }

  -- `src` is `none` for a nil source, and whether it runs.
  unfoldable pub should_queue : CosmosReactor Addr → Option Bool → Bool
  should_queue r src =
      if r.period == 0 then false else elim src [ none ↦ false | some is_running ↦ is_running ]

  -- Offers an eligible address to the queue.
  unfoldable pub offer : CosmosReactor Addr → Addr → CosmosReactor Addr
  unfolding count
  offer r addr =
      if ltb (length r.addrs) (r.workers * queue_per_worker)
      then record r { addrs = r.addrs ++ addr ∷ [] }
      else count r dropped_full at_enqueue

  unfoldable pub log_sweep : CosmosReactor Addr → CosmosReactor Addr × List (VerifyOutcome × ℕ)
  unfolding since_last
  log_sweep r = (record r { seen = r.counts }, since_last r.counts r.seen)

module _ {Addr : Type 0} (id_of : Addr → Text) where
  -- `quits` says at which address, if at any, the select takes the closed `quit` channel.
  unfoldable pub enqueue :
      CosmosReactor Addr → (Addr → Bool) → List (Option Addr) → ℕ → CosmosReactor Addr
  unfolding offer
  enqueue r quits [] now = r
  enqueue r quits (none ∷ addrs) now = enqueue r quits addrs now
  enqueue r quits (some addr ∷ addrs) now = elim (eligible id_of r addr now) [
    | some reason ↦ enqueue (count r reason at_enqueue) quits addrs now
    | none ↦ elim (quits addr) [ true ↦ r | false ↦ enqueue (offer r addr) quits addrs now ]
  ]

  -- `Receive`, behind the call of the upstream reactor: the addresses of a `PexAddrs`, none for
  -- another message, and none when they cannot be read.
  unfoldable pub receive_addrs :
      CosmosReactor Addr
      → (Addr → Bool)
      → Option Bool
      → Option (Option (List (Option Addr)))
      → ℕ
      → CosmosReactor Addr
  unfolding should_queue
  receive_addrs r quits src none now = r
  receive_addrs r quits src (some addrs) now =
      if not (should_queue r src)
      then r
      else elim addrs [ none ↦ r | some read ↦ enqueue r quits read now ]

  -- The end of `verify`, when the dial succeeded.
  unfoldable pub promote :
      CosmosReactor Addr → Outside Addr → Addr → CosmosReactor Addr × List (CosmosEffect Addr)
  unfolding count
  promote r out addr =
      let judged = record_success id_of r addr out.later in
      (
        count judged (if out.add_fails addr then answered_unlisted else success) at_verify,
        dials addr
            ∷ adds_address addr
            ∷ marks_good (id_of addr)
            ∷ (if out.has_peer (id_of addr) then stops_gracefully (id_of addr) ∷ [] else []),
      )

  -- The end of `verify`, when the dial failed.
  unfoldable pub demote :
      CosmosReactor Addr
      → Outside Addr
      → Addr
      → DialError
      → CosmosReactor Addr × List (CosmosEffect Addr)
  unfolding count
  demote r out addr err = elim (dial_outcome err) [
    | some outcome ↦ (count r outcome at_verify, dials addr ∷ [])
    | none ↦ (
      count (record_failure id_of r addr out.later) failure at_verify,
      dials addr ∷ marks_attempt addr ∷ [],
    )
  ]

  unfoldable pub judge :
      CosmosReactor Addr
      → Outside Addr
      → Addr
      → Option DialError
      → CosmosReactor Addr × List (CosmosEffect Addr)
  unfolding promote demote
  judge r out addr none = promote r out addr
  judge r out addr (some err) = demote r out addr err

  -- `verify`; `none` for a nil address, and for a reactor without a switch.
  unfoldable pub verify :
      CosmosReactor Addr
      → Option (Outside Addr)
      → Option Addr
      → ℕ
      → CosmosReactor Addr × List (CosmosEffect Addr)
  unfolding judge
  verify r outside none now = (count r skipped_local at_verify, [])
  verify r none (some addr) now = (count r skipped_local at_verify, [])
  verify r (some out) (some addr) now =
      if text_eq (id_of addr) out.own_id
      then (count r skipped_local at_verify, [])
      else if out.is_banned addr
      then (count r skipped_local at_verify, [])
      else elim (eligible id_of r addr now) [
        | some reason ↦ (count r reason at_verify, [])
        | none ↦
            if out.is_dialing addr
            then (count r skipped_local at_verify, [])
            else judge r out addr (out.dial addr)
      ]

  -- One tick of `sweepRoutine`, with the selection that the book gives.
  unfoldable pub sweep_tick :
      CosmosReactor Addr
      → (has_address quits : Addr → Bool) → List (Option Addr)
      → ℕ
      → CosmosReactor Addr × List (VerifyOutcome × ℕ)
  unfolding log_sweep
  sweep_tick r has_address quits selection now =
      let purged = (purge id_of r has_address now).0 in
      let logged = log_sweep purged in (enqueue logged.0 quits selection now, logged.1)
