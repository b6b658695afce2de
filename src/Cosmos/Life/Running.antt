-- ===== src/Cosmos/Life/Running.antt =====
-- What stays true of the reactor of internal/tenderseed/seedreactor.go whatever happens to it.
use tenderseed.Common.{
  ℕ, ◌+◌, ◌≤◌, List, [], ◌∷◌, ◌≡◌, refl, ◌∙◌, ◌⊎◌, inl, inr, false, Option, none, some, ◌==◌,
  if◌then◌else◌, arith, Text, text_eq, text_equality, All, length, ltb, Bool-cases, Option-cases,
}
use tenderseed.Common.Map.{lookup, Distinct, insert-Distinct, insert-All, lookup-All}
use tenderseed.Cosmos.{
  CosmosReactor, VerifyState, VerifyOutcome, VerifyResult, VerifyStage, outcome_of, same_outcome,
  verify_backoff_max_shift, at_verify, skipped_local,
}
use tenderseed.Cosmos.State.{
  fresh_window, one_more, eligible, set_state, record_success, record_failure,
}
use tenderseed.Cosmos.Verify.{
  count_up, count, promote, demote, judge, verify, since_last, Outside, DialError, dial_outcome,
}
use tenderseed.Cosmos.Verify.Counted.{total, IsCounting, keys-count_up}
use tenderseed.Cosmos.Verify.Queue.{capacity}

-- Two tables of the same outcomes, the first nowhere above the second.
abbrev pub AtMost : List (VerifyOutcome × ℕ) → List (VerifyOutcome × ℕ) → Type 0
AtMost [] [] = Unit
AtMost ((o, n) ∷ xs) ((p, m) ∷ ys) = (o ≡ p) × (n ≤ m) × AtMost xs ys
AtMost _ _ = ⊥

pub AtMost-refl : (xs : List (VerifyOutcome × ℕ)) → AtMost xs xs
AtMost-refl [] = tt
AtMost-refl ((o, n) ∷ xs) = (refl, omega arith, AtMost-refl xs)

AtMost-count_up :
    (o : VerifyOutcome) (xs ys : List (VerifyOutcome × ℕ))
    → AtMost xs ys
    → AtMost xs (count_up o ys)
unfolding count_up
AtMost-count_up o [] [] a = tt
AtMost-count_up o [] (y ∷ ys) a = absurd a
AtMost-count_up o (x ∷ xs) [] a = absurd a
AtMost-count_up o ((p, n) ∷ xs) ((q, m) ∷ ys) a = elim (Bool-cases (same_outcome q o)) [
  | inl same ↦ rw (same, count_up) (a.0, omega (arith, a.1), a.2)
  | inr other ↦ rw (other, count_up) (a.0, a.1, AtMost-count_up o xs ys a.2)
]

-- What is reported and what was reported before is what was counted.
pub total-since_last :
    (counts seen : List (VerifyOutcome × ℕ))
    → AtMost seen counts
    → total (since_last counts seen) + total seen ≡ total counts
unfolding since_last
total-since_last [] [] a = refl
total-since_last [] (x ∷ seen) a = absurd a
total-since_last (x ∷ counts) [] a = absurd a
total-since_last ((o, n) ∷ counts) ((p, m) ∷ seen) a =
    omega (arith, a.1, total-since_last counts seen a.2)

module _ {Addr : Type 0} (id_of : Addr → Text) where
  -- An entry stands under the identity of its address, and counts no more failures than the scale has.
  abbrev pub EntryOk : Text × VerifyState Addr → Type 0
  EntryOk (id, state) = (id ≡ id_of state.addr) × (state.fails ≤ verify_backoff_max_shift)

  -- What the steps leave as it is.
  pub record IsRunning (workers period : ℕ) (r : CosmosReactor Addr) : Type 0 where
    pub period_kept : r.period ≡ period
    pub workers_kept : r.workers ≡ (if ltb workers 1 then 1 else workers)
    pub window : r.fresh_for ≡ fresh_window period
    pub counting : IsCounting r
    pub reported : AtMost r.seen r.counts
    pub distinct : Distinct r.state
    pub entries : All EntryOk r.state
    pub within : length r.addrs ≤ capacity r
    pub disabled : ((period == 0) ≡ false) ⊎ ((r.addrs ≡ []) × (r.state ≡ []))

  module _ (workers period : ℕ) where
    pub count-IsRunning :
        (r : CosmosReactor Addr) (result : VerifyResult) (stage : VerifyStage)
        → IsRunning workers period r
        → IsRunning workers period (count r result stage)
    unfolding count
    count-IsRunning r result stage v = record {
      period_kept = v.period_kept;
      workers_kept = v.workers_kept;
      window = v.window;
      counting = keys-count_up (outcome_of result stage) r.counts ∙ v.counting;
      reported = AtMost-count_up (outcome_of result stage) r.seen r.counts v.reported;
      distinct = v.distinct;
      entries = v.entries;
      within = v.within;
      disabled = v.disabled;
    }

    pub queue-IsRunning :
        (r : CosmosReactor Addr) (addrs : List Addr)
        → (period == 0) ≡ false
        → length addrs ≤ capacity r
        → IsRunning workers period r
        → IsRunning workers period (record r { addrs = addrs })
    queue-IsRunning r addrs on fits v = record {
      period_kept = v.period_kept;
      workers_kept = v.workers_kept;
      window = v.window;
      counting = v.counting;
      reported = v.reported;
      distinct = v.distinct;
      entries = v.entries;
      within = fits;
      disabled = inl on;
    }

    set_state-IsRunning :
        (r : CosmosReactor Addr) (addr : Addr) (now fails : ℕ)
        → (period == 0) ≡ false
        → fails ≤ verify_backoff_max_shift
        → IsRunning workers period r
        → IsRunning workers period
            (set_state id_of r addr (record { addr = addr; last = now; fails = fails }))
    set_state-IsRunning r addr now fails on few v =
        let state : VerifyState Addr = record { addr = addr; last = now; fails = fails } in
        record {
          period_kept = v.period_kept;
          workers_kept = v.workers_kept;
          window = v.window;
          counting = v.counting;
          reported = v.reported;
          distinct = insert-Distinct (id_of addr) state r.state v.distinct;
          entries = insert-All EntryOk (id_of addr) state r.state v.entries (refl, few);
          within = v.within;
          disabled = inl on;
        }

    record_failure-IsRunning :
        (r : CosmosReactor Addr) (addr : Addr) (now : ℕ)
        → (period == 0) ≡ false
        → IsRunning workers period r
        → IsRunning workers period (record_failure id_of r addr now)
    unfolding record_failure one_more
    record_failure-IsRunning r addr now on v = elim (Option-cases (lookup (id_of addr) r.state)) [
      | inl e ↦
          rw (e, record_failure) (set_state-IsRunning r addr now (one_more 0) on (ground arith) v)
      | inr (state, e) ↦
          rw (e, record_failure)
            (set_state-IsRunning r addr now (one_more state.fails) on
              (one_more_le state.fails ((lookup-All EntryOk (id_of addr) r.state v.entries e).1)) v)
    ]
      where
        one_more_le : (n : ℕ) → n ≤ verify_backoff_max_shift → one_more n ≤ verify_backoff_max_shift
        one_more_le n h = ground arith

    judge-IsRunning :
        (r : CosmosReactor Addr) (out : Outside Addr) (addr : Addr) (err : Option DialError)
        → (period == 0) ≡ false
        → IsRunning workers period r
        → IsRunning workers period (judge id_of r out addr err).0
    unfolding judge promote demote record_success
    judge-IsRunning r out addr none on v =
        count-IsRunning (record_success id_of r addr out.later) _ at_verify
          (set_state-IsRunning r addr out.later 0 on (omega arith) v)
    judge-IsRunning r out addr (some err) on v = elim (Option-cases (dial_outcome err)) [
      | inl e ↦
          rw (e, demote)
            (count-IsRunning (record_failure id_of r addr out.later) _ at_verify
              (record_failure-IsRunning r addr out.later on v))
      | inr (result, e) ↦ rw (e, demote) (count-IsRunning r result at_verify v)
    ]

    pub verify-IsRunning :
        (r : CosmosReactor Addr) (outside : Option (Outside Addr)) (addr : Addr) (now : ℕ)
        → (period == 0) ≡ false
        → IsRunning workers period r
        → IsRunning workers period (verify id_of r outside (some addr) now).0
    unfolding verify
    verify-IsRunning r none addr now on v = count-IsRunning r skipped_local at_verify v
    verify-IsRunning r (some out) addr now on v =
        let local = count-IsRunning r skipped_local at_verify v in
        elim (Bool-cases (text_eq (id_of addr) out.own_id)) [
          | inl own ↦ rw (own, verify) local
          | inr other ↦ elim (Bool-cases (out.is_banned addr)) [
            | inl banned ↦ rw (other, banned, verify) local
            | inr allowed ↦ elim (Option-cases (eligible id_of r addr now)) [
              | inr (reason, e) ↦
                  rw (other, allowed, e, verify) (count-IsRunning r reason at_verify v)
              | inl due ↦ elim (Bool-cases (out.is_dialing addr)) [
                | inl busy ↦ rw (other, allowed, due, busy, verify) local
                | inr free ↦
                    rw (other, allowed, due, free, verify)
                      (judge-IsRunning r out addr (out.dial addr) on v)
              ]
            ]
          ]
        ]
