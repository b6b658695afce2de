-- ===== src/Cosmos/Verify/Counted.antt =====
-- The counters of internal/tenderseed/seedreactor.go: every decision is counted, once.
use tenderseed.Common.{
  if◌then◌else◌, ℕ, ◌+◌, ◌≡◌, refl, ◌∙◌, ap, List, [], ◌∷◌, Bool, true, false, ◌&&◌, ◌||◌, Option,
  none, some, inl, inr, leb, ◌==◌, arith, Text, text_equality, text_eq, Option-cases, Bool-cases,
  none≢some, some-path, subst, sym, true≢false,
}
use tenderseed.Common.Map.{lookup}
use tenderseed.Common.Time.{elapsed}
use tenderseed.Cosmos.{
  CosmosReactor, VerifyOutcome, outcome_of, same_outcome, same_result, same_stage, VerifyResult,
  success, answered_unlisted, failure, skipped_local, skipped_fresh, skipped_backoff, VerifyStage,
  at_enqueue, at_verify, verify_outcomes,
}
use tenderseed.Cosmos.State.{eligible, record_success, record_failure, wait_for}
use tenderseed.Cosmos.Verify.{
  count_up, DialError, dial_outcome, Outside, count, promote, demote, judge, verify,
}

-- All decisions counted so far.
abbrev pub total : List (VerifyOutcome × ℕ) → ℕ
total [] = 0
total ((o, n) ∷ counts) = n + total counts

-- The decisions counted at one stage.
abbrev pub total_at : VerifyStage → List (VerifyOutcome × ℕ) → ℕ
total_at stage [] = 0
total_at stage ((o, n) ∷ counts) =
    if same_stage o.stage stage then n + total_at stage counts else total_at stage counts

abbrev pub listed : VerifyOutcome → List VerifyOutcome → Bool
listed outcome [] = false
listed outcome (o ∷ os) = same_outcome o outcome || listed outcome os

abbrev pub keys : List (VerifyOutcome × ℕ) → List VerifyOutcome
keys [] = []
keys ((o, n) ∷ counts) = o ∷ keys counts

total-count_up :
    (outcome : VerifyOutcome) (counts : List (VerifyOutcome × ℕ))
    → listed outcome (keys counts) ≡ true
    → total (count_up outcome counts) ≡ total counts + 1
unfolding count_up
total-count_up outcome [] h = ground arith
total-count_up outcome ((o, n) ∷ counts) h = ground (arith, total-count_up outcome counts)

same_stage-path : (s t : VerifyStage) → same_stage s t ≡ true → s ≡ t
unfolding same_stage
same_stage-path at_enqueue at_enqueue h = refl
same_stage-path at_enqueue at_verify h = absurd (true≢false (sym h))
same_stage-path at_verify at_enqueue h = absurd (true≢false (sym h))
same_stage-path at_verify at_verify h = refl

-- A listed outcome is counted at its own stage, and at no other.
total_at-count_up :
    (stage : VerifyStage) (outcome : VerifyOutcome) (counts : List (VerifyOutcome × ℕ))
    → listed outcome (keys counts) ≡ true
    → total_at stage (count_up outcome counts)
      ≡ total_at stage counts + (if same_stage outcome.stage stage then 1 else 0)
unfolding count_up same_outcome
total_at-count_up stage outcome [] h = ground arith
total_at-count_up stage outcome ((o, n) ∷ counts) h = elim (Bool-cases (same_outcome o outcome)) [
  | inr other ↦ ground (arith, total_at-count_up stage outcome counts)
  | inl same ↦
      rw (same, count_up) (rw (same_stage-path o.stage outcome.stage (ground arith)) (ground arith))
]

pub keys-count_up :
    (outcome : VerifyOutcome) (counts : List (VerifyOutcome × ℕ))
    → keys (count_up outcome counts) ≡ keys counts
unfolding count_up
keys-count_up outcome [] = refl
keys-count_up outcome ((o, n) ∷ counts) = ground (arith, keys-count_up outcome counts)

module _ {Addr : Type 0} where
  -- The table of the counters has the outcomes of the list.
  abbrev pub IsCounting : CosmosReactor Addr → Type 0
  IsCounting r = keys r.counts ≡ verify_outcomes

  -- One decision more than before in all, one more at the given stage, none more at the other, and the same
  -- table.
  abbrev pub CountsOne : VerifyStage → CosmosReactor Addr → CosmosReactor Addr → Type 0
  CountsOne stage before after =
      (total after.counts ≡ total before.counts + 1)
      × ((s : VerifyStage)
          → total_at s after.counts
            ≡ total_at s before.counts + (if same_stage stage s then 1 else 0))
      × IsCounting after

  pub count-CountsOne :
      (r : CosmosReactor Addr) (result : VerifyResult) (stage : VerifyStage)
      → IsCounting r
      → listed (outcome_of result stage) verify_outcomes ≡ true
      → CountsOne stage r (count r result stage)
  unfolding count
  count-CountsOne r result stage c h = (
    total-count_up (outcome_of result stage) r.counts (rw c h),
    λ s. total_at-count_up s (outcome_of result stage) r.counts (rw c h),
    keys-count_up (outcome_of result stage) r.counts ∙ c,
  )

module _ {Addr : Type 0} (id_of : Addr → Text) where
  pub eligible-reason :
      (r : CosmosReactor Addr) (addr : Addr) (now : ℕ) {reason : VerifyResult} (stage : VerifyStage)
      → eligible id_of r addr now ≡ some reason
      → listed (outcome_of reason stage) verify_outcomes ≡ true
  unfolding eligible same_outcome same_result same_stage
  eligible-reason r addr now {reason} stage h = elim (Option-cases (lookup (id_of addr) r.state)) [
    | inl e ↦ absurd (none≢some (rw (e, eligible) at h))
    | inr (state, e) ↦ elim (Bool-cases (leb (wait_for id_of r state) (elapsed now state.last))) [
      | inl w ↦ absurd (none≢some (rw (e, w, eligible) at h))
      | inr w ↦ elim (Bool-cases (state.fails == 0)) [
        | inl z ↦
            let q : skipped_fresh ≡ reason = some-path (rw (e, w, z, eligible) at h) in
            subst (λ x. listed (outcome_of x stage) verify_outcomes ≡ true) q (skip stage)
        | inr z ↦
            let q : skipped_backoff ≡ reason = some-path (rw (e, w, z, eligible) at h) in
            subst (λ x. listed (outcome_of x stage) verify_outcomes ≡ true) q (skip_backoff stage)
      ]
    ]
  ]
    where
      skip : (stage : VerifyStage) → listed (outcome_of skipped_fresh stage) verify_outcomes ≡ true
      skip at_enqueue = refl
      skip at_verify = refl

      skip_backoff :
          (stage : VerifyStage) → listed (outcome_of skipped_backoff stage) verify_outcomes ≡ true
      skip_backoff at_enqueue = refl
      skip_backoff at_verify = refl

  dial_outcome-listed :
      (err : DialError) {result : VerifyResult}
      → dial_outcome err ≡ some result
      → listed (outcome_of result at_verify) verify_outcomes ≡ true
  unfolding dial_outcome same_outcome same_result same_stage
  dial_outcome-listed err {result} h = elim (Bool-cases err.is_dialing) [
    | inl d ↦
        subst (λ x. listed (outcome_of x at_verify) verify_outcomes ≡ true)
          (some-path (rw (d, dial_outcome) at h)) refl
    | inr d ↦ elim (Bool-cases (err.is_rejected && err.is_duplicate)) [
      | inl q ↦
          subst (λ x. listed (outcome_of x at_verify) verify_outcomes ≡ true)
            (some-path (rw (d, q, dial_outcome) at h)) refl
      | inr q ↦ absurd (none≢some (rw (d, q, dial_outcome) at h))
    ]
  ]

  record_failure-counts :
      (r : CosmosReactor Addr) (addr : Addr) (now : ℕ)
      → (record_failure id_of r addr now).counts ≡ r.counts
  unfolding record_failure
  record_failure-counts r addr now = elim (Option-cases (lookup (id_of addr) r.state)) [
    | inl e ↦ rw (e, record_failure) refl
    | inr (state, e) ↦ rw (e, record_failure) refl
  ]

  judge-CountsOne :
      (r : CosmosReactor Addr) (out : Outside Addr) (addr : Addr) (err : Option DialError)
      → IsCounting r
      → CountsOne at_verify r (judge id_of r out addr err).0
  unfolding judge promote demote same_outcome same_result same_stage record_success
  judge-CountsOne r out addr none c = elim (Bool-cases (out.add_fails addr)) [
    | inl f ↦
        rw f (
          count-CountsOne (record_success id_of r addr out.later) answered_unlisted at_verify c
            refl)
    | inr f ↦
        rw f (count-CountsOne (record_success id_of r addr out.later) success at_verify c refl)
  ]
  judge-CountsOne r out addr (some err) c = elim (Option-cases (dial_outcome err)) [
    | inl d ↦
        let same = record_failure-counts r addr out.later in
        let (one, staged, kept) =
          count-CountsOne (record_failure id_of r addr out.later) failure at_verify
            (ap keys same ∙ c) refl in
        rw (d, demote)
          (
            one ∙ ap (λ counts. total counts + 1) same,
            λ s.
                staged s
                ∙ ap (λ counts. total_at s counts + (if same_stage at_verify s then 1 else 0)) same,
            kept,
          )
    | inr (result, d) ↦
        rw (d, demote) (count-CountsOne r result at_verify c (dial_outcome-listed err d))
  ]

  -- Whatever comes of a verification, one decision is counted for it at the stage of the verification, and
  -- none at the stage of the queue.
  pub verify-CountsOne :
      (r : CosmosReactor Addr) (outside : Option (Outside Addr)) (addr : Option Addr) (now : ℕ)
      → IsCounting r
      → CountsOne at_verify r (verify id_of r outside addr now).0
  unfolding verify same_outcome same_result same_stage
  verify-CountsOne r outside none now c = count-CountsOne r skipped_local at_verify c refl
  verify-CountsOne r none (some addr) now c = count-CountsOne r skipped_local at_verify c refl
  verify-CountsOne r (some out) (some addr) now c =
      elim (Bool-cases (text_eq (id_of addr) out.own_id)) [
        | inl own ↦ rw own (count-CountsOne r skipped_local at_verify c refl)
        | inr other ↦ elim (Bool-cases (out.is_banned addr)) [
          | inl banned ↦ rw (other, banned) (count-CountsOne r skipped_local at_verify c refl)
          | inr allowed ↦ elim (Option-cases (eligible id_of r addr now)) [
            | inr (reason, e) ↦
                rw (other, allowed, e)
                  (count-CountsOne r reason at_verify c (eligible-reason r addr now at_verify e))
            | inl due ↦ elim (Bool-cases (out.is_dialing addr)) [
              | inl busy ↦
                  rw (other, allowed, due, busy) (count-CountsOne r skipped_local at_verify c refl)
              | inr free ↦
                  rw (other, allowed, due, free) (judge-CountsOne r out addr (out.dial addr) c)
            ]
          ]
        ]
      ]
