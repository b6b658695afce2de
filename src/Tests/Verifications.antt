-- ===== src/Tests/Verifications.antt =====
-- The properties of the verification of internal/tenderseed/seedreactor.go at small reactors. An
-- address is its identity here.
use tenderseed.Common.{
  ℕ, ◌+◌, ◌*◌, List, [], ◌∷◌, ◌≡◌, refl, true, false, none, some, arith, Text, text_eq,
  text_equality,
}
use tenderseed.Common.Time.{second, hour}
use tenderseed.Cosmos.{
  at_verify, CosmosReactor, VerifyOutcome, skipped_fresh, skipped_backoff, verify_outcomes,
}
use tenderseed.Cosmos.State.{backoff_for, wait_for, eligible, purge}
use tenderseed.Cosmos.State.Purge.{eligible-purge, eligible-purge_fresh}
use tenderseed.Cosmos.State.{new_cosmos_reactor}
use tenderseed.Cosmos.Verify.{Outside, verify, enqueue, receive_addrs, log_sweep}
use tenderseed.Cosmos.Verify.Counted.{total}
use tenderseed.Cosmos.Life.{start_routines, Reach, begins, goes, receives, works}
use tenderseed.Cosmos.Life.Running.{IsRunning}
use tenderseed.Cosmos.Life.Reached.{Reach-IsRunning, log_sweep-total}
use tenderseed.Cosmos.Verify.Counted.{CountsOne, verify-CountsOne}
use tenderseed.Cosmos.Verify.Queue.{IsOffered, enqueue-IsOffered}
use tenderseed.Tests.Samples.{today}

abbrev no_counts : List VerifyOutcome → List (VerifyOutcome × ℕ)
no_counts [] = []
no_counts (o ∷ os) = (o, 0) ∷ no_counts os

-- The first address failed three times and the second answered, both at the same time. A success is
-- trusted for ten hours, which is half of the period.
abbrev judging : CosmosReactor Text
judging = record {
  workers = 2;
  period = 20 * hour;
  fresh_for = 10 * hour;
  state =
      (1 ∷ [], record { addr = 1 ∷ []; last = today; fails = 3 })
      ∷ (2 ∷ [], record { addr = 2 ∷ []; last = today; fails = 0 })
      ∷ [];
  counts = no_counts verify_outcomes;
  seen = no_counts verify_outcomes;
  addrs = [];
}

abbrev id : Text → Text
id a = a

abbrev outside : Outside Text
outside = record {
  own_id = 9 ∷ [];
  is_banned = λ a. false;
  is_dialing = λ a. false;
  dial = λ a. none;
  add_fails = λ a. false;
  has_peer = λ a. true;
  later = today + second;
}

held_back : eligible id judging (1 ∷ []) (today + second) ≡ some skipped_backoff
unfolding eligible wait_for backoff_for text_eq
held_back = refl

eligible-purge_example :
    eligible id (purge id judging (λ a. false) (today + second)).0 (1 ∷ []) (today + second)
    ≡ some skipped_backoff
unfolding text_eq
eligible-purge_example =
    eligible-purge id judging (λ a. false) (1 ∷ []) (today + second) (refl, (refl, tt)) held_back

eligible-purge_fresh_example :
    (eligible id judging (2 ∷ []) (today + 9 * hour) ≡ some skipped_fresh)
    × (eligible id (purge id judging (λ a. true) (today + 9 * hour)).0 (2 ∷ []) (today + 9 * hour)
        ≡ none)
unfolding text_eq
eligible-purge_fresh_example =
    eligible-purge_fresh id judging (λ a. true) (2 ∷ [])
      (record { addr = 2 ∷ []; last = today; fails = 0 }) (today + 9 * hour) (refl, (refl, tt)) refl
      refl (omega arith) (omega arith)

verify-CountsOne_example :
    CountsOne at_verify judging (verify id judging (some outside) (some (3 ∷ [])) today).0
verify-CountsOne_example = verify-CountsOne id judging (some outside) (some (3 ∷ [])) today refl

enqueue-IsOffered_example :
    IsOffered 2 judging
      (enqueue id judging (λ a. false) (some (1 ∷ []) ∷ none ∷ some (3 ∷ []) ∷ []) today)
enqueue-IsOffered_example =
    enqueue-IsOffered id judging (λ a. false) (some (1 ∷ []) ∷ none ∷ some (3 ∷ []) ∷ []) today refl
      (omega arith) (λ a. refl)

-- A first message is queued, a worker takes it, and the address is promoted.
abbrev first : CosmosReactor Text
first =
    receive_addrs id (new_cosmos_reactor 2 (20 * hour)) (λ a. false) (some true)
      (some (some (some (1 ∷ []) ∷ []))) today

reached :
    Reach id 2
      (20 * hour)
      (verify id (record first { addrs = [] }) (some outside) (some (1 ∷ [])) today).0
unfolding receive_addrs new_cosmos_reactor enqueue start_routines eligible
reached =
    goes first _
      (goes (new_cosmos_reactor 2 (20 * hour)) first begins
        (receives _ (λ a. false) (some true) (some (some (some (1 ∷ []) ∷ []))) today))
      (works first (1 ∷ []) [] (some outside) today refl (λ h. absurd (cc)))

Reach-IsRunning_example :
    IsRunning id 2
      (20 * hour)
      (verify id (record first { addrs = [] }) (some outside) (some (1 ∷ [])) today).0
Reach-IsRunning_example =
    Reach-IsRunning id 2 (20 * hour)
      (verify id (record first { addrs = [] }) (some outside) (some (1 ∷ [])) today).0 reached

log_sweep-total_example :
    let r = (verify id (record first { addrs = [] }) (some outside) (some (1 ∷ [])) today).0 in
    (total (log_sweep r).1 + total r.seen ≡ total r.counts)
    × (total (log_sweep (log_sweep r).0).1 ≡ 0)
log_sweep-total_example =
    log_sweep-total id 2 (20 * hour)
      (verify id (record first { addrs = [] }) (some outside) (some (1 ∷ [])) today).0 reached
