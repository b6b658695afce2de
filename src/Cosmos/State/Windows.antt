-- ===== src/Cosmos/State/Windows.antt =====
-- The two waits of internal/tenderseed/seedreactor.go: how long a success is trusted, and how failures
-- are spaced.
use native.Mathlib.Nat.{pow-le-pow_right}
use native.Mathlib.Numerals.{unary_clauses}
use tenderseed.Common.{
  ◌⊎◌, if◌then◌else◌, none, leb, ◌<◌, ℕ, suc, ◌+◌, ◌*◌, ◌/◌, ◌^◌, ◌≤◌, ◌<◌, ◌≡◌, none, some, inl,
  inr, leb, arith, Text, text_equality, Bool-cases,
}
use tenderseed.Common.Map.{lookup, lookup-insert_self}
use tenderseed.Common.Time.{second, max_duration, elapsed}
use tenderseed.Cosmos.{
  VerifyState, CosmosReactor, skipped_backoff, verify_backoff_cap, verify_backoff_max_shift,
  verify_sweep_margin,
}
use tenderseed.Cosmos.State.{
  fresh_window, backoff_for, wait_for, eligible, record_success, record_failure, one_more,
}

pow_suc : (n : ℕ) → 2 ^ suc n ≡ 2 * 2 ^ n
pow_suc n = simp unary_clauses (omega arith)

pow_le : (m n : ℕ) → m ≤ n → 2 ^ m ≤ 2 ^ n
pow_le m n h = pow-le-pow_right (omega arith) h

-- The spacing doubles with each failure below the fourteenth, stands at the cap of four hours from
-- there on, and is never more than the cap nor less than a second.
pub backoff_for_lem :
    (fails : ℕ)
    → (backoff_for fails ≤ verify_backoff_cap)
      × (second ≤ backoff_for fails)
      × ((verify_backoff_max_shift ≤ fails + 1) ⊎ (backoff_for (fails + 1) ≡ 2 * backoff_for fails))
      × ((fails < verify_backoff_max_shift) ⊎ (backoff_for fails ≡ verify_backoff_cap))
unfolding backoff_for
backoff_for_lem fails = elim (Bool-cases (leb verify_backoff_max_shift fails)) [
  | inl capped ↦ ground arith
  | inr spaced ↦
      ground (arith, pow_suc fails, pow_le fails 13, pow_le 0 fails, pow_le (fails + 1) 13)
]

-- A window is shorter than half a period, and when it is not zero it ends at least five minutes
-- before the period does; it is zero exactly when the period is five minutes at most.
pub fresh_window_lem :
    (period : ℕ)
    → (fresh_window period ≤ period / 2)
      × ((fresh_window period ≡ 0) ⊎ (fresh_window period + verify_sweep_margin ≤ period))
unfolding fresh_window
fresh_window_lem period = ground arith

module _ {Addr : Type 0} (id_of : Addr → Text) where
  -- With the window that is derived from the period, and a period of at most half the longest
  -- duration: an address that answered no later than five minutes after one sweep is not held back
  -- at any moment from the next sweep on, a period later.
  eligible-next_sweep :
      (r : CosmosReactor Addr) (addr : Addr) (swept answered now : ℕ)
      → r.fresh_for ≡ fresh_window r.period
      → 2 * r.period ≤ max_duration
      → answered ≤ swept + verify_sweep_margin
      → swept + r.period ≤ now
      → eligible id_of (record_success id_of r addr answered) addr now ≡ none
  unfolding eligible record_success wait_for
  eligible-next_sweep r addr swept answered now window short soon next =
      let v : VerifyState Addr = record { addr = addr; last = answered; fails = 0 } in
      ground (arith, lookup-insert_self (id_of addr) v r.state, fresh_window_lem r.period)

  -- When an address that has an entry fails once more, it is held back for its failures exactly
  -- until the spacing of the new count has passed.
  pub eligible-record_failure :
      (r : CosmosReactor Addr) (addr : Addr) (before : VerifyState Addr) (failed now : ℕ)
      → lookup (id_of addr) r.state ≡ some before
      → eligible id_of (record_failure id_of r addr failed) addr now ≡ (
          if leb (backoff_for (one_more before.fails)) (elapsed now failed)
          then none
          else some skipped_backoff)
  unfolding eligible record_failure wait_for one_more
  eligible-record_failure r addr before failed now found =
      let v : VerifyState Addr = record {
        addr = addr;
        last = failed;
        fails = one_more before.fails;
      } in
      ground
        (arith, lookup-insert_self (id_of addr) v r.state, backoff_for_lem (one_more before.fails))
