-- ===== src/Reactor/Budget.antt =====
-- What the reactor of internal/tenderseed/seedreactortm2.go may dial, serve and take in, from its
-- settings and the free slots of the switch.
pub mod Rates
use tenderseed.Common.{ℕ, ◌-◌, ◌*◌, ◌/◌, ltb, ◌==◌, if◌then◌else◌}
use tenderseed.Reactor.{
  SeedReactor, Peers, max_addresses_served, max_addresses_learned, freshness_factor, dial_cost,
  answer_window, cycle_interval_floor, cycle_interval_ceiling,
}

unfoldable pub sweep_budget : SeedReactor → Peers → ℕ
sweep_budget r peers =
    let slots =
      if ltb r.max_outbound peers.num_outbound then 0 else r.max_outbound - peers.num_outbound in
    let throughput = r.check_period / dial_cost in
    if ltb throughput slots then throughput else slots

unfoldable pub provable_batch : SeedReactor → ℕ
provable_batch r =
    if r.check_period == 0
    then max_addresses_learned
    else let throughput = r.check_period / dial_cost in
      let batch = if ltb r.max_outbound throughput then r.max_outbound else throughput in
      if ltb batch 1 then 1 else batch

unfoldable pub servable_ceiling : SeedReactor → ℕ
unfolding provable_batch
servable_ceiling r =
    if r.check_period == 0
    then max_addresses_served
    else let ceiling = provable_batch r * freshness_factor in
      if ltb ceiling max_addresses_served then ceiling else max_addresses_served

-- A period under 97 years, so that the product is a `time.Duration`.
unfoldable pub freshness : SeedReactor → ℕ
freshness r = r.check_period * freshness_factor

unfoldable pub renewal_window : SeedReactor → ℕ
unfolding freshness
renewal_window r =
    if r.check_period == 0
    then freshness r
    else let window = freshness r - r.check_period in
      if ltb 0 window then window else r.check_period

unfoldable pub exploration_window : SeedReactor → ℕ
exploration_window r = if r.check_period == 0 then answer_window else r.check_period

unfoldable pub exploration_share : SeedReactor → Peers → ℕ
unfolding provable_batch
exploration_share r peers =
    let sources = if ltb peers.num_outbound 1 then 1 else peers.num_outbound in
    let share = provable_batch r / sources in if ltb share 1 then 1 else share

unfoldable pub cycle_interval : SeedReactor → ℕ
cycle_interval r =
    if ltb r.wait cycle_interval_floor
    then cycle_interval_floor
    else if ltb cycle_interval_ceiling r.wait
    then cycle_interval_ceiling
    else r.wait
