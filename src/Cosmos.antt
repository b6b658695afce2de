-- ===== src/Cosmos.antt =====
-- The verification of served addresses on the Cosmos stack, internal/tenderseed/seedreactor.go. The
-- upstream reactor, its book and its switch are code of cometbft, which is not in this repository: what
-- they answer is an argument. So is the type of `p2p.NetAddress`, of which only `ID` is read.
pub mod State
pub mod Verify
pub mod Life
pub mod Stop
use tenderseed.Common.{ℕ, ◌*◌, List, [], ◌∷◌, Bool, Text, true, false, ◌&&◌}
use tenderseed.Common.Time.{minute, hour}

abbrev pub queue_per_worker : ℕ
queue_per_worker = 32

abbrev pub seed_selection_bias_towards_new : ℕ
seed_selection_bias_towards_new = 30

abbrev pub verify_backoff_cap : ℕ
verify_backoff_cap = 4 * hour

abbrev pub verify_backoff_max_shift : ℕ
verify_backoff_max_shift = 14

abbrev pub verify_state_ttl : ℕ
verify_state_ttl = 2 * verify_backoff_cap

abbrev pub verify_sweep_margin : ℕ
verify_sweep_margin = 5 * minute

pub data VerifyStage : Type 0 where
  at_enqueue at_verify : VerifyStage

pub data VerifyResult : Type 0 where
  success answered_unlisted failure skipped_backoff skipped_fresh : VerifyResult
  skipped_local skipped_collision dropped_full : VerifyResult

-- `verifyOutcome`
pub record VerifyOutcome : Type 0 where
  pub result : VerifyResult
  pub stage : VerifyStage

abbrev pub outcome_of : VerifyResult → VerifyStage → VerifyOutcome
outcome_of result stage = record { result = result; stage = stage }

-- `verifyOutcomes`
abbrev pub verify_outcomes : List VerifyOutcome
verify_outcomes =
    outcome_of skipped_backoff at_enqueue
    ∷ outcome_of skipped_fresh at_enqueue
    ∷ outcome_of dropped_full at_enqueue
    ∷ outcome_of success at_verify
    ∷ outcome_of answered_unlisted at_verify
    ∷ outcome_of failure at_verify
    ∷ outcome_of skipped_backoff at_verify
    ∷ outcome_of skipped_fresh at_verify
    ∷ outcome_of skipped_local at_verify
    ∷ outcome_of skipped_collision at_verify
    ∷ []

-- `==` on the two fields of an outcome.
unfoldable pub same_result : VerifyResult → VerifyResult → Bool
same_result success success = true
same_result answered_unlisted answered_unlisted = true
same_result failure failure = true
same_result skipped_backoff skipped_backoff = true
same_result skipped_fresh skipped_fresh = true
same_result skipped_local skipped_local = true
same_result skipped_collision skipped_collision = true
same_result dropped_full dropped_full = true
same_result _ _ = false

unfoldable pub same_stage : VerifyStage → VerifyStage → Bool
same_stage at_enqueue at_enqueue = true
same_stage at_verify at_verify = true
same_stage _ _ = false

unfoldable pub same_outcome : VerifyOutcome → VerifyOutcome → Bool
unfolding same_result same_stage
same_outcome x y = same_result x.result y.result && same_stage x.stage y.stage

-- `verifyState`
pub record VerifyState (Addr : Type 0) : Type 0 where
  pub addr : Addr
  pub last : ℕ
  pub fails : ℕ

-- `SeedReactor`, with the addresses in its queue. `counts` and `seen` are kept by outcome.
pub record CosmosReactor (Addr : Type 0) : Type 0 where
  pub workers : ℕ
  pub period : ℕ
  pub fresh_for : ℕ
  pub state : List (Text × VerifyState Addr)
  pub counts : List (VerifyOutcome × ℕ)
  pub seen : List (VerifyOutcome × ℕ)
  pub addrs : List Addr
