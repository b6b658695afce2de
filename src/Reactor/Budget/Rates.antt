-- ===== src/Reactor/Budget/Rates.antt =====
-- The rates of the reactor of internal/tenderseed/seedreactortm2.go: a dial takes its time, and what is
-- promised has to be proved again in time.
use tenderseed.Common.{◌⊎◌, ℕ, ◌+◌, ◌-◌, ◌*◌, ◌≤◌, ◌<◌, ◌≡◌, ◌⊎◌, true, false, arith}
use tenderseed.Common.Time.{is_zero}
use tenderseed.Book.{BookRecord}
use tenderseed.Book.Queries.{is_stale_proven, is_fresh}
use tenderseed.Reactor.{SeedReactor, Peers, max_addresses_served, dial_cost}
use tenderseed.Reactor.Budget.{
  sweep_budget, provable_batch, servable_ceiling, freshness, renewal_window,
}

-- A pass may hand the switch no more addresses than it has free outbound slots, and no more than the
-- dials, nine seconds each, fit in the period; and it takes all that both allow.
pub sweep_budget_lem :
    (r : SeedReactor) (peers : Peers)
    → (sweep_budget r peers ≤ r.max_outbound - peers.num_outbound)
      × (sweep_budget r peers * dial_cost ≤ r.check_period)
      × ((sweep_budget r peers ≡ r.max_outbound - peers.num_outbound)
          ⊎ (r.check_period < (sweep_budget r peers + 1) * dial_cost))
unfolding sweep_budget
sweep_budget_lem r peers = ground arith

-- With a positive period, at most 250 addresses are promised and at least one; when a dial fits in the
-- period, as many dials as are promised fit in the time that a proof stays fresh.
pub servable_ceiling_lem :
    (r : SeedReactor)
    → 0 < r.check_period
    → (servable_ceiling r ≤ max_addresses_served)
      × (0 < servable_ceiling r)
      × ((r.check_period < dial_cost) ⊎ (servable_ceiling r * dial_cost ≤ freshness r))
unfolding servable_ceiling provable_batch freshness
servable_ceiling_lem r pos = ground arith

-- With a positive period, and once the time is past the freshness: an address that was reached, and
-- whose proof is not fresh any more at some moment before the next pass, is due for renewal at this
-- one.
pub renewed_before_stale :
    (r : SeedReactor) (rec : BookRecord) (now later : ℕ)
    → 0 < r.check_period
    → freshness r < now
    → later < now + r.check_period
    → is_zero rec.last_ok ≡ false
    → is_fresh (freshness r) later rec ≡ false
    → is_stale_proven (renewal_window r) now rec ≡ true
unfolding renewal_window freshness is_stale_proven is_fresh
renewed_before_stale r rec now later pos late soon reached stale = ground arith
