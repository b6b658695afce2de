-- ===== src/Tests/Reactors.antt =====
-- The properties of the reactor of internal/tenderseed/seedreactortm2.go at small reactors.
use tenderseed.Common.{
  ◌+◌, ◌*◌, ◌≤◌, ◌<◌, List, [], ◌∷◌, ◌≡◌, refl, ◌⊎◌, true, false, none, some, arith, text_eq,
  text_equality, length, Mem, Perm,
}
use tenderseed.Common.Time.{second, is_zero}
use tenderseed.Address.{NetAddress}
use tenderseed.Book.Queries.{is_fresh, is_stale_proven}
use tenderseed.Reactor.{max_addresses_per_answer}
use tenderseed.Reactor.Budget.{freshness, renewal_window}
use tenderseed.Reactor.Budget.Rates.{renewed_before_stale}
use tenderseed.Reactor.Notes.{notes_of}
use tenderseed.Reactor.Notes.Events.{NoteEvent, asks_us, asked, answers, leaves, is_pending}
use tenderseed.Reactor.Notes.Limits.{
  grants, IsSpaced, grants-IsSpaced, taken_in, dropped_requests, requests, count_if,
  taken_in-requests,
}
use tenderseed.Reactor.Spread.{spread_by_group}
use tenderseed.Reactor.Spread.RoundRobin.{spread_by_group-perm}
use tenderseed.Reactor.Serve.{selection, serve}
use tenderseed.Reactor.Serve.Answers.{
  MayAnswer, selection_lem, serve_lem, counts_served, empty_answers, hang_ups,
}
use tenderseed.Reactor.Learn.{take_in_each, no_intake}
use tenderseed.Reactor.Learn.Bounds.{IsIntake, take_in_each_lem}
use tenderseed.Reactor.Receive.{receive}
use tenderseed.Reactor.Receive.Exchange.{receive-unasked}
use tenderseed.Reactor.Wire.{parse_wire_address, parse_port}
use tenderseed.Reactor.Wire.{split_at_sign}
use tenderseed.Reactor.Wire.Parsing.{IsParsed, parse_wire_address_lem}
use tenderseed.Tests.Samples.{
  alice, bob, carol, net, sorter, today, alice_record, book, reactor, peers, no_random, codec,
}

no_longer_fresh : is_fresh (freshness reactor) (today + 1800 * second) alice_record ≡ false
unfolding is_fresh freshness
no_longer_fresh = refl

old_enough : freshness reactor < today + 1201 * second
unfolding freshness
old_enough = omega arith

renewed_before_stale_example :
    is_stale_proven (renewal_window reactor) (today + 1201 * second) alice_record ≡ true
renewed_before_stale_example =
    renewed_before_stale reactor alice_record (today + 1201 * second) (today + 1800 * second)
      (omega arith) old_enough (omega arith) refl no_longer_fresh

abbrev traffic : List NoteEvent
traffic =
    asks_us (1 ∷ []) today
    ∷ answers (1 ∷ []) (today + 1)
    ∷ asks_us (2 ∷ []) (today + 2)
    ∷ asks_us (1 ∷ []) (today + second)
    ∷ asked (1 ∷ []) (today + second)
    ∷ leaves (2 ∷ []) (today + second)
    ∷ []

grants-IsSpaced_example : IsSpaced (grants peers (1 ∷ []) reactor traffic)
unfolding text_eq
grants-IsSpaced_example =
    grants-IsSpaced peers (1 ∷ []) reactor today traffic (refl, tt) (omega arith)
      (omega arith, (omega arith, (omega arith, (omega arith, (omega arith, (omega arith, tt))))))
      (tt, (tt, (tt, (tt, (tt, (refl, tt))))))

taken_in-requests_example :
    taken_in peers (1 ∷ []) reactor traffic + dropped_requests peers (1 ∷ []) reactor traffic
    ≤ count_if (is_pending reactor (1 ∷ [])) + requests (1 ∷ []) traffic
taken_in-requests_example = taken_in-requests peers (1 ∷ []) reactor traffic (refl, tt)

spread_by_group-perm_example :
    Perm (spread_by_group (alice ∷ bob ∷ carol ∷ [])) (alice ∷ bob ∷ carol ∷ [])
spread_by_group-perm_example = spread_by_group-perm (alice ∷ bob ∷ carol ∷ [])

selection_lem_example :
    (length (selection net sorter reactor no_random (2 ∷ []) today) ≤ max_addresses_per_answer)
    × ((a : NetAddress)
        → Mem a (selection net sorter reactor no_random (2 ∷ []) today)
        → MayAnswer net reactor (2 ∷ []) today a)
selection_lem_example = selection_lem net sorter reactor no_random (2 ∷ []) today

serve_lem_example :
    let effects = (serve net sorter reactor no_random true true (2 ∷ []) today).0 in
    (counts_served effects ≡ 1)
    × (empty_answers effects ≡ 0)
    × ((0 < reactor.wait) ⊎ (hang_ups (2 ∷ []) effects ≡ 1))
serve_lem_example = serve_lem net sorter reactor no_random true (2 ∷ []) today

take_in_each_lem_example :
    IsIntake net reactor 1 3
      (take_in_each net reactor 1 no_intake (some carol ∷ none ∷ some alice ∷ []))
take_in_each_lem_example = take_in_each_lem net reactor 1 (some carol ∷ none ∷ some alice ∷ [])

none_pending : is_zero (notes_of reactor (2 ∷ [])).asked ≡ true
unfolding notes_of text_eq
none_pending = refl

receive-unasked_example :
    (receive net sorter codec reactor peers no_random true true (2 ∷ []) (5 ∷ []) today).0.book
    ≡ book
receive-unasked_example =
    receive-unasked net sorter codec reactor peers no_random true true (2 ∷ []) (5 ∷ []) today
      none_pending

abbrev parsed_sample : NetAddress
parsed_sample = record { id = 5 ∷ []; ip = 1 ∷ 2 ∷ 3 ∷ 4 ∷ []; port = 80 }

sample_parses : parse_wire_address codec (5 ∷ b'@' ∷ 6 ∷ []) ≡ some parsed_sample
unfolding parse_wire_address split_at_sign parse_port
sample_parses = refl

parse_wire_address_lem_example : IsParsed codec (5 ∷ b'@' ∷ 6 ∷ []) parsed_sample
parse_wire_address_lem_example =
    parse_wire_address_lem codec (5 ∷ b'@' ∷ 6 ∷ []) parsed_sample sample_parses
