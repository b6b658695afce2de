-- ===== src/Node/Metrics.antt =====
-- The registration of the metrics, internal/tenderseed/metrics.go and metricstm2.go.
use tenderseed.Common.{ℕ, List, [], ◌∷◌, map, Option, none, some, Text}
use tenderseed.Reactor.{
  Outcome, Stage, served, empty, failed, accepted, rejected, unsolicited, too_soon, retried,
  dropped, skipped_connected, skipped_budget, cycled, stage_serve, stage_learn, stage_sweep,
  stage_cycle,
}
use tenderseed.Cosmos.{verify_outcomes}
use tenderseed.Node.{
  Outside, Registration, registered, already, refused, Build, ◌>>=◌, ◌>>◌, pure, or_raise, publish,
  bad_metrics, decision, known_addresses, fresh_addresses, dial,
}

-- `seedTM2Outcomes`
abbrev pub seed_tm2_outcomes : List (Outcome × Stage)
seed_tm2_outcomes =
    (served, stage_serve)
    ∷ (empty, stage_serve)
    ∷ (failed, stage_serve)
    ∷ (accepted, stage_learn)
    ∷ (rejected, stage_learn)
    ∷ (unsolicited, stage_learn)
    ∷ (too_soon, stage_serve)
    ∷ (retried, stage_sweep)
    ∷ (dropped, stage_sweep)
    ∷ (skipped_connected, stage_sweep)
    ∷ (skipped_budget, stage_sweep)
    ∷ (cycled, stage_cycle)
    ∷ []

-- `registerCounterVec`, and the same of `newVerifyMetrics`: the vector that is registered in the end.
unfoldable pub register_vec : Registration → ℕ → Option ℕ
register_vec registered vec = some vec
register_vec (already existing) vec = existing
register_vec refused vec = none

-- `registerGaugeVec`
unfoldable register_gauge_vec : Registration → ℕ → Option ℕ
register_gauge_vec registered vec = some vec
register_gauge_vec (already existing) vec = existing
register_gauge_vec refused vec = none

-- `seedTM2Metrics`
pub record SeedMetrics : Type 0 where
  pub decisions : ℕ
  pub book : ℕ

module _ (outside : Outside) where
  open outside use {register, decisions_vec, book_vec, dials_vec}

  unfoldable pub new_seed_tm2_metrics : Text → Build SeedMetrics
  unfolding register_vec register_gauge_vec
  new_seed_tm2_metrics namespace = do
    let decisions_new = decisions_vec namespace
    decisions ← or_raise (register_vec (register decisions_new) decisions_new) bad_metrics
    let book_new = book_vec namespace
    book ← or_raise (register_gauge_vec (register book_new) book_new) bad_metrics
    publish (map (λ (outcome, stage). decision outcome stage) seed_tm2_outcomes)
    publish (known_addresses ∷ fresh_addresses ∷ [])
    pure (record { decisions = decisions; book = book })

  -- `newVerifyMetrics`, with the vector of its counters.
  unfoldable pub new_verify_metrics : Text → Build ℕ
  unfolding register_vec
  new_verify_metrics namespace = do
    let dials_new = dials_vec namespace
    dials ← or_raise (register_vec (register dials_new) dials_new) bad_metrics
    publish (map dial verify_outcomes)
    pure dials
