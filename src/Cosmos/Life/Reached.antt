-- ===== src/Cosmos/Life/Reached.antt =====
-- Every state that the reactor of internal/tenderseed/seedreactor.go may come to.
use tenderseed.Common.{
  ℕ, ◌+◌, List, [], ◌∷◌, ◌≡◌, ◌≢◌, refl, ap, ◌∙◌, ◌⊎◌, inl, inr, Bool, true, false, Option, none,
  some, ◌==◌, arith, Text, text_equality, All, length, length-append, ◌++◌, ltb, Bool-cases,
  Option-cases,
}
use tenderseed.Common.Map.{Distinct}
use tenderseed.Cosmos.{CosmosReactor, VerifyState, verify_outcomes, dropped_full, at_enqueue}
use tenderseed.Cosmos.State.{new_cosmos_reactor, eligible, new_counts, is_purged, purge, purge_each}
use tenderseed.Cosmos.State.Purge.{lookup-purge_each}
use tenderseed.Cosmos.Verify.{
  count, offer, enqueue, receive_addrs, should_queue, log_sweep, sweep_tick,
}
use tenderseed.Cosmos.Verify.Counted.{total}
use tenderseed.Cosmos.Verify.Queue.{capacity}
use tenderseed.Cosmos.Life.{start_routines, Step, receives, works, sweeps, Reach, begins, goes}
use tenderseed.Cosmos.Life.Running.{
  AtMost-refl, total-since_last, EntryOk, IsRunning, count-IsRunning, queue-IsRunning,
  verify-IsRunning,
}

module _ {Addr : Type 0} (id_of : Addr → Text) where
  purge_each-keeps :
      (r : CosmosReactor Addr) (has_address : Addr → Bool) (now : ℕ)
      (m : List (Text × VerifyState Addr))
      → Distinct m
      → All (EntryOk id_of) m
      → Distinct (purge_each id_of r has_address now m).0
        × All (EntryOk id_of) (purge_each id_of r has_address now m).0
  unfolding purge_each
  purge_each-keeps r has_address now [] d a = (tt, tt)
  purge_each-keeps r has_address now ((k, state) ∷ m) d a =
      let (d', a') = purge_each-keeps r has_address now m d.1 a.1 in
      elim (Bool-cases (is_purged id_of r has_address now state)) [
        | inl out ↦ rw (out, purge_each) (d', a')
        | inr stays ↦
            rw (stays, purge_each)
              ((lookup-purge_each id_of r has_address now k m d.1 ∙ rw d.0 refl, d'), (a.0, a'))
      ]

  module _ (workers period : ℕ) where
    offer-IsRunning :
        (r : CosmosReactor Addr) (addr : Addr)
        → (period == 0) ≡ false
        → IsRunning id_of workers period r
        → IsRunning id_of workers period (offer r addr)
    unfolding offer
    offer-IsRunning r addr on v = elim (Bool-cases (ltb (length r.addrs) (capacity r))) [
      | inl room ↦
          rw (room, offer)
            (queue-IsRunning id_of workers period r (r.addrs ++ addr ∷ []) on
              (ground (arith, length-append r.addrs (addr ∷ []))) v)
      | inr full ↦
          rw (full, offer) (count-IsRunning id_of workers period r dropped_full at_enqueue v)
    ]

    enqueue-IsRunning :
        (r : CosmosReactor Addr) (quits : Addr → Bool) (addrs : List (Option Addr)) (now : ℕ)
        → (period == 0) ≡ false
        → IsRunning id_of workers period r
        → IsRunning id_of workers period (enqueue id_of r quits addrs now)
    unfolding enqueue
    enqueue-IsRunning r quits [] now on v = v
    enqueue-IsRunning r quits (none ∷ addrs) now on v = enqueue-IsRunning r quits addrs now on v
    enqueue-IsRunning r quits (some addr ∷ addrs) now on v =
        elim (Option-cases (eligible id_of r addr now)) [
          | inr (reason, e) ↦
              rw (e, enqueue)
                (enqueue-IsRunning (count r reason at_enqueue) quits addrs now on
                  (count-IsRunning id_of workers period r reason at_enqueue v))
          | inl due ↦ elim (Bool-cases (quits addr)) [
            | inl q ↦ rw (due, q, enqueue) v
            | inr q ↦
                rw (due, q, enqueue)
                  (enqueue-IsRunning (offer r addr) quits addrs now on
                    (offer-IsRunning r addr on v))
          ]
        ]

    sweep_tick-IsRunning :
        (r : CosmosReactor Addr) (has_address quits : Addr → Bool) (selection : List (Option Addr))
        (now : ℕ)
        → (period == 0) ≡ false
        → IsRunning id_of workers period r
        → IsRunning id_of workers period (sweep_tick id_of r has_address quits selection now).0
    unfolding sweep_tick log_sweep purge
    sweep_tick-IsRunning r has_address quits selection now on v =
        let (d, a) = purge_each-keeps r has_address now r.state v.distinct v.entries in
        let logged = (log_sweep (purge id_of r has_address now).0).0 in
        enqueue-IsRunning logged quits selection now on (record {
          period_kept = v.period_kept;
          workers_kept = v.workers_kept;
          window = v.window;
          counting = v.counting;
          reported = AtMost-refl r.counts;
          distinct = d;
          entries = a;
          within = v.within;
          disabled = inl on;
        })

    receive_addrs-IsRunning :
        (r : CosmosReactor Addr) (quits : Addr → Bool) (src : Option Bool)
        (addrs : Option (Option (List (Option Addr)))) (now : ℕ)
        → IsRunning id_of workers period r
        → IsRunning id_of workers period (receive_addrs id_of r quits src addrs now)
    unfolding receive_addrs should_queue
    receive_addrs-IsRunning r quits src none now v = v
    receive_addrs-IsRunning r quits src (some none) now v = ground arith
    receive_addrs-IsRunning r quits none (some (some read)) now v = ground arith
    receive_addrs-IsRunning r quits (some is_running) (some (some read)) now v =
        elim (Bool-cases (r.period == 0)) [
          | inl off ↦ rw (off, receive_addrs) v
          | inr on ↦ elim (Bool-cases is_running) [
            | inr stopped ↦ rw (on, stopped, receive_addrs) v
            | inl runs ↦
                rw (on, runs, receive_addrs)
                  (enqueue-IsRunning r quits read now (rw v.period_kept at on) v)
          ]
        ]

    started :
        (r : CosmosReactor Addr)
        → IsRunning id_of workers period r
        → ((start_routines r).0 ≢ 0) ⊎ ((start_routines r).1 ≡ true)
        → (period == 0) ≡ false
    unfolding start_routines
    started r v h = let same = v.period_kept in ground arith

    Step-IsRunning :
        (r s : CosmosReactor Addr)
        → Step id_of r s
        → IsRunning id_of workers period r
        → IsRunning id_of workers period s
    Step-IsRunning r s (receives r' quits src addrs now) v =
        receive_addrs-IsRunning r' quits src addrs now v
    Step-IsRunning r s (works r' addr rest outside now head runs) v =
        let on = started r' v (inl runs) in
        verify-IsRunning id_of workers period (record r' { addrs = rest }) outside addr now on
          (queue-IsRunning id_of workers period r' rest on (omega (arith, v.within, ap length head))
            v)
    Step-IsRunning r s (sweeps r' has_address quits selection now runs) v =
        sweep_tick-IsRunning r' has_address quits selection now (started r' v (inr runs)) v

    new-IsRunning : IsRunning id_of workers period (new_cosmos_reactor workers period)
    unfolding new_cosmos_reactor new_counts
    new-IsRunning = record {
      period_kept = refl;
      workers_kept = refl;
      window = refl;
      counting = refl;
      reported = AtMost-refl (new_counts verify_outcomes);
      distinct = tt;
      entries = tt;
      within = omega arith;
      disabled = inr (refl, refl);
    }

    -- Whatever messages arrive, however the workers and the sweep take turns: a reactor keeps its settings
    -- and the trust that follows from them; its table has exactly the known outcomes; no identity has two
    -- verdicts, each stands under its address's identity and counts no more failures than the scale has;
    -- the queue holds at most 32 addresses for each worker; and a period of zero leaves it without
    -- addresses and verdicts.
    pub Reach-IsRunning :
        (r : CosmosReactor Addr) → Reach id_of workers period r → IsRunning id_of workers period r
    Reach-IsRunning r begins = new-IsRunning
    Reach-IsRunning r (goes q r' reached step) =
        Step-IsRunning q r' step (Reach-IsRunning q reached)

    -- In every state that a reactor comes to, what the summary line of the sweep shows of the outcomes, and what
    -- the lines before it showed, add up to the counters; and a second line at once would show nothing.
    pub log_sweep-total :
        (r : CosmosReactor Addr)
        → Reach id_of workers period r
        → (total (log_sweep r).1 + total r.seen ≡ total r.counts)
          × (total (log_sweep (log_sweep r).0).1 ≡ 0)
    unfolding log_sweep
    log_sweep-total r reached =
        let v = Reach-IsRunning r reached in
        (
          total-since_last r.counts r.seen v.reported,
          omega (arith, total-since_last r.counts r.counts (AtMost-refl r.counts)),
        )
