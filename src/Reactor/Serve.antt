-- ===== src/Reactor/Serve.antt =====
-- How the reactor of internal/tenderseed/seedreactortm2.go answers a request.
pub mod Answers
use tenderseed.Common.{
  ℕ, suc, List, [], ◌∷◌, ◌++◌, Bool, true, false, not, ◌&&◌, ◌||◌, Option, none, some, ltb, ◌==◌,
  if◌then◌else◌, Text, text_eq, length, take, select,
}
use tenderseed.Common.Sorting.{Sorter}
use tenderseed.Address.{NetAddress, Net}
use tenderseed.Book.{BookRecord}
use tenderseed.Book.Queries.{fresh_batch}
use tenderseed.Reactor.{
  SeedReactor, Peers, Effect, observe_many, sends, flush_stop, stop_peer, Outcome, served, empty,
  failed, Stage, stage_serve, Message, response, Reason, seed_served, queue_full,
  max_addresses_per_answer,
}
use tenderseed.Reactor.Budget.{freshness, servable_ceiling}
use tenderseed.Reactor.Spread.{Random, shuffle_addresses, spread_by_group}

-- `observe` and `observeMany`, which drops a count of zero. With the endpoint disabled these effects
-- go nowhere.
abbrev pub observe : Outcome → Stage → List Effect
observe outcome stage = observe_many outcome stage 1 ∷ []

abbrev pub observe_count : Outcome → Stage → ℕ → List Effect
observe_count outcome stage count = if count == 0 then [] else observe_many outcome stage count ∷ []

unfoldable pub acceptable : Net → SeedReactor → Option NetAddress → Bool
acceptable net r none = false
acceptable net r (some addr) =
    if not (net.validate addr)
    then false
    else if r.strict && not (net.routable addr)
    then false
    else true

unfoldable pub hang_up : SeedReactor → Text → List Effect
hang_up r id = if r.wait == 0 then flush_stop id ∷ stop_peer id seed_served ∷ [] else []

module _ (net : Net) (sorter : Sorter BookRecord) where
  -- What may be served to a requester, before the shuffle.
  unfoldable pub servable : SeedReactor → Text → ℕ → List NetAddress
  unfolding acceptable
  servable r requester now =
      select (λ addr. not (text_eq addr.id requester) && acceptable net r (some addr))
        (fresh_batch sorter r.book (freshness r) (servable_ceiling r) now)

  unfoldable pub selection : SeedReactor → Random → Text → ℕ → List NetAddress
  unfolding servable
  selection r rand requester now =
      let addrs = spread_by_group (shuffle_addresses rand (servable r requester now)) in
      if ltb max_addresses_per_answer (length addrs)
      then take max_addresses_per_answer addrs
      else addrs

  -- `serve`: the effects, and whether it returned no error. Marshalling the answer and handing it to
  -- the peer's queue may fail.
  unfoldable pub serve : SeedReactor → Random → Bool → Bool → Text → ℕ → List Effect × Bool
  unfolding hang_up
  serve r rand marshals try_send id now =
      let addrs = selection r rand id now in
      if length addrs == 0
      then (observe empty stage_serve ++ hang_up r id, true)
      else if not marshals
      then ([], false)
      else if not try_send
      then (observe failed stage_serve ++ stop_peer id queue_full ∷ [], false)
      else (sends id (response addrs) ∷ observe served stage_serve ++ hang_up r id, true)
