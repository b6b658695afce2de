-- ===== src/Reactor/Sweep.antt =====
-- The sweep of internal/tenderseed/seedreactortm2.go, which hands the switch what is due for a dial,
-- and the hand over at start up.
pub mod Connected
pub mod Credits
pub mod Passes
use tenderseed.Common.{
  ℕ, suc, ◌+◌, ◌-◌, List, [], ◌∷◌, ◌++◌, Bool, true, false, Option, none, some, ltb, ◌==◌,
  if◌then◌else◌, Text, length, take, min,
}
use tenderseed.Common.Sorting.{Sorter}
use tenderseed.Address.{NetAddress, Net}
use tenderseed.Book.{BookRecord, SeedBook, mark_success, mark_attempt, drop_failing}
use tenderseed.Book.Queries.{get_peers, stale_proven_batch, stale_unproven_batch, fresh_batch, size}
use tenderseed.Reactor.{
  SeedReactor, Peers, Effect, set_book, dial_peers, retried, dropped, skipped_connected,
  skipped_budget, stage_sweep, max_consecutive_failures,
}
use tenderseed.Reactor.Budget.{sweep_budget, renewal_window, freshness, servable_ceiling}
use tenderseed.Reactor.Serve.{observe_count}

-- What `dialable` leaves: the book, the addresses not connected, and how many were.
pub record Dialable : Type 0 where
  pub book : SeedBook
  pub eligible : List NetAddress
  pub connected : ℕ

module _ (net : Net) where
  -- A held outbound connection is a proof of life.
  unfoldable pub credit : Peers → SeedBook → NetAddress → ℕ → SeedBook
  credit peers b addr now = elim (peers.get addr.id) [
    | none ↦ b
    | some peer ↦ if peer.is_outbound then mark_success net b (some addr) now else b
  ]

  unfoldable pub dialable : Peers → SeedBook → List NetAddress → ℕ → Dialable
  unfolding credit
  dialable peers b [] now = record { book = b; eligible = []; connected = 0 }
  dialable peers b (addr ∷ addrs) now = elim (peers.has addr.id) [
    | true ↦
        let rest = dialable peers (credit peers b addr now) addrs now in
        record { book = rest.book; eligible = rest.eligible; connected = rest.connected + 1 }
    | false ↦
        let rest = dialable peers b addrs now in
        record { book = rest.book; eligible = addr ∷ rest.eligible; connected = rest.connected }
  ]

  unfoldable pub mark_attempts : SeedBook → List NetAddress → ℕ → SeedBook
  mark_attempts b [] now = b
  mark_attempts b (addr ∷ addrs) now = mark_attempts (mark_attempt net b (some addr) now) addrs now

  module _ (sorter : Sorter BookRecord) where
    -- What one pass decides: the book after the credits, and the two sets.
    pub record Pass : Type 0 where
      pub renewal : Dialable
      pub exploration : Dialable
      pub renewed : ℕ
      pub explored : ℕ

    unfoldable pub plan : SeedReactor → Peers → ℕ → Pass
    plan r peers now =
        let budget = sweep_budget r peers in
        let renewal =
          dialable peers r.book (stale_proven_batch sorter r.book (renewal_window r) 0 now) now in
        let exploration =
          dialable peers renewal.book (stale_unproven_batch sorter renewal.book 0) now in
        let renewed = min (length renewal.eligible) budget in
        record {
          renewal = renewal;
          exploration = exploration;
          renewed = renewed;
          explored = min (length exploration.eligible) (budget - renewed);
        }

    -- The addresses that a pass marks and hands to the switch.
    unfoldable pub handed_over : Pass → List NetAddress
    handed_over p = take p.renewed p.renewal.eligible ++ take p.explored p.exploration.eligible

    unfoldable pub sweep_once : SeedReactor → Peers → ℕ → SeedReactor × List Effect
    unfolding plan handed_over
    sweep_once r peers now =
        let p = plan r peers now in
        let eligible = handed_over p in
        let over_budget =
          (length p.renewal.eligible - p.renewed) + (length p.exploration.eligible - p.explored) in
        let tried = mark_attempts p.exploration.book eligible now in
        let swept = drop_failing tried max_consecutive_failures in
        let after = record r { book = swept.0 } in
        (
          after,
          (if length eligible == 0 then [] else dial_peers eligible ∷ [])
              ++ observe_count retried stage_sweep (length eligible)
              ++ observe_count dropped stage_sweep swept.1
              ++ observe_count skipped_connected stage_sweep
                  (p.renewal.connected + p.exploration.connected)
              ++ observe_count skipped_budget stage_sweep over_budget
              ++ set_book (size after.book) (
                  length
                    (fresh_batch sorter after.book (freshness after) (servable_ceiling after) now))
                ∷ [],
        )

    -- The hand over of `OnStart`.
    unfoldable pub on_start : SeedReactor → Peers → ℕ → List Effect
    on_start r peers now =
        let known =
          if r.check_period == 0
          then get_peers r.book
          else fresh_batch sorter r.book (renewal_window r) (sweep_budget r peers) now in
        if length known == 0 then [] else dial_peers known ∷ []
