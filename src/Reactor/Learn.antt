-- ===== src/Reactor/Learn.antt =====
-- How the reactor of internal/tenderseed/seedreactortm2.go takes in an answer.
pub mod Bounds
use tenderseed.Common.{
  ℕ, suc, ◌+◌, List, [], ◌∷◌, ◌++◌, map, Bool, true, false, not, ◌&&◌, ◌||◌, Option, none, some,
  ltb, ◌==◌, if◌then◌else◌, Text, length,
}
use tenderseed.Common.Sorting.{Sorter}
use tenderseed.Address.{NetAddress, Net}
use tenderseed.Book.{BookRecord, add_peers}
use tenderseed.Book.Queries.{knows, size, fresh_batch}
use tenderseed.Reactor.{
  SeedReactor, Peers, Effect, set_book, dial_peers, accepted, rejected, stage_learn,
  max_addresses_learned,
}
use tenderseed.Reactor.Budget.{freshness, servable_ceiling}
use tenderseed.Reactor.Notes.{exploration_allowance, note_exploration}
use tenderseed.Reactor.Serve.{acceptable, observe_count}

-- The variables of the loop of `learn`.
pub record Intake : Type 0 where
  pub kept : List NetAddress
  pub refused : ℕ
  pub discovered : ℕ

abbrev pub no_intake : Intake
no_intake = record { kept = []; refused = 0; discovered = 0 }

module _ (net : Net) where
  -- One round of the loop.
  unfoldable pub take_in : SeedReactor → ℕ → Intake → Option NetAddress → Intake
  unfolding acceptable
  take_in r allowance s none = record s { refused = s.refused + 1 }
  take_in r allowance s (some addr) =
      if length s.kept == max_addresses_learned || not (acceptable net r (some addr))
      then record s { refused = s.refused + 1 }
      else if not (knows net r.book (some addr))
      then if s.discovered == allowance
        then record s { refused = s.refused + 1 }
        else record s { kept = s.kept ++ addr ∷ []; discovered = s.discovered + 1 }
      else record s { kept = s.kept ++ addr ∷ [] }

  unfoldable pub take_in_each : SeedReactor → ℕ → Intake → List (Option NetAddress) → Intake
  take_in_each r allowance s [] = s
  take_in_each r allowance s (addr ∷ addrs) =
      take_in_each r allowance (take_in r allowance s addr) addrs

  module _ (sorter : Sorter BookRecord) where
    unfoldable pub learn :
        SeedReactor → Peers → Text → List (Option NetAddress) → ℕ → SeedReactor × List Effect
    learn r peers id addrs now =
        let allowed = exploration_allowance r peers id now in
        let s = take_in_each allowed.0 allowed.1 no_intake addrs in
        let noted = note_exploration allowed.0 id s.discovered now in
        let counts =
          observe_count accepted stage_learn (length s.kept)
          ++ observe_count rejected stage_learn s.refused in
        if length s.kept == 0
        then (noted, counts)
        else let stored = record noted {
          book = add_peers net sorter noted.book (map some s.kept) now;
        } in
          (
            stored,
            counts
                ++ (if r.check_period == 0 then dial_peers s.kept ∷ [] else [])
                ++ set_book (size stored.book) (
                    length (
                      fresh_batch sorter stored.book (freshness stored) (servable_ceiling stored)
                        now))
                  ∷ [],
          )
