-- ===== src/Cosmos/State.antt =====
-- The verdicts that internal/tenderseed/seedreactor.go keeps by identity, and how long each holds an
-- address back.
pub mod Windows
pub mod Purge
use tenderseed.Common.{
  ℕ, suc, ◌+◌, ◌-◌, ◌*◌, ◌/◌, ◌^◌, List, [], ◌∷◌, map, Bool, true, false, not, ◌&&◌, Option, none,
  some, ltb, leb, ◌==◌, if◌then◌else◌, Text, text_equality,
}
use tenderseed.Common.Map.{lookup, insert}
use tenderseed.Common.Time.{second, elapsed}
use tenderseed.Cosmos.{
  VerifyState, CosmosReactor, VerifyOutcome, VerifyResult, skipped_fresh, skipped_backoff,
  verify_outcomes, verify_backoff_cap, verify_backoff_max_shift, verify_state_ttl,
  verify_sweep_margin,
}

-- The configuration refuses a negative period. A period below the margin gives a negative margin in
-- the source, and a window of zero.
unfoldable pub fresh_window : ℕ → ℕ
fresh_window period =
    if period == 0
    then 0
    else if ltb period verify_sweep_margin
    then 0
    else let window = period / 2 in
      let margin = period - verify_sweep_margin in if ltb margin window then margin else window

unfoldable pub backoff_for : ℕ → ℕ
backoff_for fails =
    if leb verify_backoff_max_shift fails
    then verify_backoff_cap
    else let backoff = 2 ^ fails * second in
      if ltb verify_backoff_cap backoff then verify_backoff_cap else backoff

unfoldable pub new_counts : List VerifyOutcome → List (VerifyOutcome × ℕ)
new_counts [] = []
new_counts (outcome ∷ outcomes) = (outcome, 0) ∷ new_counts outcomes

unfoldable pub new_cosmos_reactor : {Addr : Type 0} → ℕ → ℕ → CosmosReactor Addr
unfolding fresh_window new_counts
new_cosmos_reactor workers period = record {
  workers = if ltb workers 1 then 1 else workers;
  period = period;
  fresh_for = fresh_window period;
  state = [];
  counts = new_counts verify_outcomes;
  seen = new_counts verify_outcomes;
  addrs = [];
}

-- `if state.fails < verifyBackoffMaxShift { state.fails++ }`
unfoldable pub one_more : ℕ → ℕ
one_more fails = if ltb fails verify_backoff_max_shift then fails + 1 else fails

module _ {Addr : Type 0} (id_of : Addr → Text) where
  unfoldable pub wait_for : CosmosReactor Addr → VerifyState Addr → ℕ
  wait_for r state = if state.fails == 0 then r.fresh_for else backoff_for state.fails

  -- `none` is yes; otherwise the policy that held the address back.
  unfoldable pub eligible : CosmosReactor Addr → Addr → ℕ → Option VerifyResult
  unfolding wait_for
  eligible r addr now = elim (lookup (id_of addr) r.state) [
    | none ↦ none
    | some state ↦
        if leb (wait_for r state) (elapsed now state.last)
        then none
        else if state.fails == 0
        then some skipped_fresh
        else some skipped_backoff
  ]

  abbrev pub set_state : CosmosReactor Addr → Addr → VerifyState Addr → CosmosReactor Addr
  set_state r addr state = record r { state = insert (id_of addr) state r.state }

  unfoldable pub record_success : CosmosReactor Addr → Addr → ℕ → CosmosReactor Addr
  record_success r addr now = set_state r addr (record { addr = addr; last = now; fails = 0 })

  unfoldable pub record_failure : CosmosReactor Addr → Addr → ℕ → CosmosReactor Addr
  unfolding one_more
  record_failure r addr now = elim (lookup (id_of addr) r.state) [
    | none ↦ set_state r addr (record { addr = addr; last = now; fails = one_more 0 })
    | some state ↦
        set_state r addr (record { addr = addr; last = now; fails = one_more state.fails })
  ]

  -- The test of one entry in `purge`.
  unfoldable pub is_purged : CosmosReactor Addr → (Addr → Bool) → ℕ → VerifyState Addr → Bool
  unfolding wait_for
  is_purged r has_address now state =
      let age = elapsed now state.last in
      if ltb verify_state_ttl age
      then true
      else leb (wait_for r state) age && not (has_address state.addr)

  unfoldable pub purge_each :
      CosmosReactor Addr
      → (Addr → Bool)
      → ℕ
      → List (Text × VerifyState Addr)
      → List (Text × VerifyState Addr) × ℕ
  unfolding is_purged
  purge_each r has_address now [] = ([], 0)
  purge_each r has_address now ((id, state) ∷ rest) =
      let left = purge_each r has_address now rest in
      if is_purged r has_address now state
      then (left.0, left.1 + 1)
      else ((id, state) ∷ left.0, left.1)

  -- `HasAddress` of the book is an argument.
  unfoldable pub purge : CosmosReactor Addr → (Addr → Bool) → ℕ → CosmosReactor Addr × ℕ
  unfolding purge_each
  purge r has_address now =
      let left = purge_each r has_address now r.state in (record r { state = left.0 }, left.1)
