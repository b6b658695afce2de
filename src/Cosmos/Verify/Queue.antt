-- ===== src/Cosmos/Verify/Queue.antt =====
-- The queue of internal/tenderseed/seedreactor.go: what becomes of the addresses offered to it.
use tenderseed.Common.{
  ℕ, ◌+◌, ◌*◌, ◌≤◌, ◌≡◌, refl, List, [], ◌∷◌, Bool, true, false, Option, none, some, inl, inr, ltb,
  arith, Text, length, length-append, Option-cases, Bool-cases,
}
use tenderseed.Cosmos.{
  CosmosReactor, outcome_of, same_outcome, same_result, same_stage, VerifyResult, dropped_full,
  VerifyStage, at_enqueue, verify_outcomes, queue_per_worker,
}
use tenderseed.Cosmos.State.{eligible}
use tenderseed.Cosmos.Verify.{count, offer, enqueue}
use tenderseed.Cosmos.Verify.Counted.{total, listed, IsCounting, count-CountsOne, eligible-reason}

module _ {Addr : Type 0} where
  -- How many addresses of a batch are not nil.
  abbrev pub given : List (Option Addr) → ℕ
  given [] = 0
  given (none ∷ addrs) = given addrs
  given (some addr ∷ addrs) = given addrs + 1

  -- What an offer does: the queue takes the address, or a decision is counted, and never more than
  -- the queue holds.
  abbrev pub capacity : CosmosReactor Addr → ℕ
  capacity r = r.workers * queue_per_worker

  abbrev pub decided : CosmosReactor Addr → ℕ
  decided r = length r.addrs + total r.counts

  pub record IsOffered (n : ℕ) (before after : CosmosReactor Addr) : Type 0 where
    pub accounted : decided after ≡ decided before + n
    pub within : length after.addrs ≤ capacity after
    pub counting : IsCounting after

  counted :
      (r : CosmosReactor Addr) (result : VerifyResult) (stage : VerifyStage)
      → IsCounting r
      → length r.addrs ≤ capacity r
      → listed (outcome_of result stage) verify_outcomes ≡ true
      → IsOffered 1 r (count r result stage)
  unfolding count
  counted r result stage c h' h =
      let (one, _, kept) = count-CountsOne r result stage c h in
      record { accounted = omega (arith, one); within = h'; counting = kept }

  IsOffered-trans :
      {n : ℕ} {a b c : CosmosReactor Addr}
      → IsOffered 1 a b
      → IsOffered n b c
      → IsOffered (n + 1) a c
  IsOffered-trans p q = record {
    accounted = omega (arith, p.accounted, q.accounted);
    within = q.within;
    counting = q.counting;
  }

  offer-IsOffered :
      (r : CosmosReactor Addr) (addr : Addr)
      → IsCounting r
      → length r.addrs ≤ capacity r
      → IsOffered 1 r (offer r addr)
  unfolding offer same_outcome same_result same_stage
  offer-IsOffered r addr c fits =
      elim (Bool-cases (ltb (length r.addrs) (r.workers * queue_per_worker))) [
        | inl room ↦
            rw (room, offer)
              (record {
                accounted = omega (arith, length-append r.addrs (addr ∷ []));
                within = ground (arith, length-append r.addrs (addr ∷ []));
                counting = c;
              })
        | inr full ↦ rw (full, offer) (counted r dropped_full at_enqueue c fits refl)
      ]

module _ {Addr : Type 0} (id_of : Addr → Text) where
  -- While the reactor runs, each address of a batch, except the nil ones, ends in the queue or in
  -- exactly one counter; and a queue that held no more than 32 addresses for each worker holds no
  -- more after the batch.
  pub enqueue-IsOffered :
      (r : CosmosReactor Addr) (quits : Addr → Bool) (addrs : List (Option Addr)) (now : ℕ)
      → IsCounting r
      → length r.addrs ≤ capacity r
      → ((a : Addr) → quits a ≡ false)
      → IsOffered (given addrs) r (enqueue id_of r quits addrs now)
  unfolding enqueue
  enqueue-IsOffered r quits [] now c fits runs = record {
    accounted = omega arith;
    within = fits;
    counting = c;
  }
  enqueue-IsOffered r quits (none ∷ addrs) now c fits runs =
      enqueue-IsOffered r quits addrs now c fits runs
  enqueue-IsOffered r quits (some addr ∷ addrs) now c fits runs =
      elim (Option-cases (eligible id_of r addr now)) [
        | inr (reason, e) ↦
            let first =
              counted r reason at_enqueue c fits (eligible-reason id_of r addr now at_enqueue e) in
            rw (e, enqueue)
              (IsOffered-trans first (
                enqueue-IsOffered (count r reason at_enqueue) quits addrs now first.counting
                  first.within runs))
        | inl due ↦
            let first = offer-IsOffered r addr c fits in
            rw (due, runs addr, enqueue)
              (IsOffered-trans first
                (enqueue-IsOffered (offer r addr) quits addrs now first.counting first.within runs))
      ]
