-- ===== src/Node/Published.antt =====
-- The series that the reactor of internal/tenderseed/seedreactortm2.go counts in, and those that
-- internal/tenderseed/metricstm2.go publishes at the start.
use mathlib.Core.List.{append_assoc}
use tenderseed.Common.{
  sym, subst, ℕ, ◌+◌, ◌-◌, List, [], ◌∷◌, ◌++◌, map, ◌≡◌, ◌⊎◌, inl, inr, Bool, true, false, ◌==◌,
  Option, if◌then◌else◌, arith, Text, All, length, Bool-cases,
}
use tenderseed.Common.Sorting.{Sorter}
use tenderseed.Address.{NetAddress, Net}
use tenderseed.Book.{BookRecord, drop_failing}
use tenderseed.Reactor.{
  SeedReactor, max_consecutive_failures, Peer, Peers, Effect, observe_many, set_book, dial_peers,
  sends, flush_stop, stop_peer, Outcome, Stage, accepted, rejected, retried, dropped,
  skipped_connected, skipped_budget, cycled, stage_learn, stage_sweep, stage_cycle,
}
use tenderseed.Reactor.Spread.{Random}
use tenderseed.Reactor.Notes.{may_serve, answers_our_request, exploration_allowance}
use tenderseed.Reactor.Serve.{observe_count, hang_up, serve}
use tenderseed.Reactor.Learn.{take_in_each, no_intake, learn}
use tenderseed.Reactor.Sweep.{sweep_once, plan, handed_over, mark_attempts}
use tenderseed.Book.Queries.{size, fresh_batch}
use tenderseed.Reactor.Budget.{freshness, servable_ceiling}
use tenderseed.Reactor.Routines.{cycle_once, stop_each, overdue}
use tenderseed.Reactor.Wire.{
  WireCodec, Decoded, undecodable, nothing, message, wire_request, wire_response, decode_discovery,
}
use tenderseed.Reactor.Receive.Exchange.{Event, receives, requests, adds, removes, sweeps}
use tenderseed.Reactor.Receive.{
  receive_request, receive_response, receive_message, receive, send_request,
}
use tenderseed.Node.{World, Series, decision, known_addresses, fresh_addresses, built, Outside}
use tenderseed.Node.Metrics.{seed_tm2_outcomes, new_seed_tm2_metrics, SeedMetrics}

abbrev pub IsOneOf : Series → List Series → Type 0
IsOneOf s [] = ⊥
IsOneOf s (x ∷ xs) = (s ≡ x) ⊎ IsOneOf s xs

-- The series that an effect writes: `WithLabelValues` makes one that is not there yet.
abbrev pub written_series : Effect → List Series
written_series (observe_many outcome stage count) = decision outcome stage ∷ []
written_series (set_book known fresh) = known_addresses ∷ fresh_addresses ∷ []
written_series (dial_peers addrs) = []
written_series (sends id m) = []
written_series (flush_stop id) = []
written_series (stop_peer id reason) = []

-- The series that a construction with metrics publishes.
abbrev pub published_series : List Series
published_series =
    map (λ (outcome, stage). decision outcome stage) seed_tm2_outcomes
    ++ known_addresses ∷ fresh_addresses ∷ []

abbrev pub IsPublished : Effect → Type 0
IsPublished e = All (λ s. IsOneOf s published_series) (written_series e)

-- A list of effects that writes published series only.
record ArePublished (es : List Effect) : Type 0 where
  each : All IsPublished es

joined : {xs ys : List Effect} → ArePublished xs → ArePublished ys → ArePublished (xs ++ ys)
joined {xs} {ys} h k = record { each = go xs h.each k.each }
  where
    go : (zs : List Effect) → All IsPublished zs → All IsPublished ys → All IsPublished (zs ++ ys)
    go [] a b = b
    go (z ∷ zs) a b = (a.0, go zs a.1 b)

observed :
    (outcome : Outcome) (stage : Stage) (count : ℕ)
    → IsOneOf (decision outcome stage) published_series
    → ArePublished (observe_count outcome stage count)
observed outcome stage count h = elim (Bool-cases (count == 0)) [
  | inl e ↦ rw e (record { each = tt })
  | inr e ↦ rw e (record { each = ((h, tt), tt) })
]

booked : (known fresh : ℕ) → ArePublished (set_book known fresh ∷ [])
booked known fresh = record { each = ground arith }

handed :
    (test : Bool) (addrs : List NetAddress)
    → ArePublished (if test then dial_peers addrs ∷ [] else [])
handed true addrs = record { each = (tt, tt) }
handed false addrs = record { each = tt }

not_handed :
    (test : Bool) (addrs : List NetAddress)
    → ArePublished (if test then [] else dial_peers addrs ∷ [])
not_handed true addrs = record { each = tt }
not_handed false addrs = record { each = (tt, tt) }

-- Two results, one of which is taken.
either :
    (test : Bool) (x y : SeedReactor × List Effect)
    → ArePublished x.1
    → ArePublished y.1
    → ArePublished (if test then x else y).1
either true x y h k = h
either false x y h k = k

module _ (net : Net) (sorter : Sorter BookRecord) where
  serve-ArePublished :
      (r : SeedReactor) (rand : Random) (marshals try_send : Bool) (id : Text) (now : ℕ)
      → ArePublished (serve net sorter r rand marshals try_send id now).0
  unfolding serve hang_up
  serve-ArePublished r rand marshals try_send id now = record { each = ground arith }

  learn-ArePublished :
      (r : SeedReactor) (peers : Peers) (id : Text) (addrs : List (Option NetAddress)) (now : ℕ)
      → ArePublished (learn net sorter r peers id addrs now).1
  unfolding learn
  learn-ArePublished r peers id addrs now =
      let allowed = exploration_allowance r peers id now in
      let s = take_in_each net allowed.0 allowed.1 no_intake addrs in
      let counts =
        joined (observed accepted stage_learn (length s.kept) (ground arith))
          (observed rejected stage_learn s.refused (ground arith)) in
      either (length s.kept == 0) _ _ counts
        (joined (joined counts (handed (r.check_period == 0) s.kept)) (booked _ _))

  sweep_once-ArePublished :
      (r : SeedReactor) (peers : Peers) (now : ℕ)
      → ArePublished (sweep_once net sorter r peers now).1
  unfolding sweep_once
  sweep_once-ArePublished r peers now =
      let p = plan net sorter r peers now in
      let eligible = handed_over net sorter p in
      let tried = mark_attempts net p.exploration.book eligible now in
      let swept = drop_failing tried max_consecutive_failures in
      let after : SeedReactor = record r { book = swept.0 } in
      let over_budget =
        (length p.renewal.eligible - p.renewed) + (length p.exploration.eligible - p.explored) in
      let fresh =
        length (fresh_batch sorter after.book (freshness after) (servable_ceiling after) now) in
      joined
        (joined
          (joined
            (joined
              (joined (not_handed (length eligible == 0) eligible)
                (observed retried stage_sweep (length eligible) (ground arith)))
              (observed dropped stage_sweep swept.1 (ground arith)))
            (observed skipped_connected stage_sweep (p.renewal.connected + p.exploration.connected)
              (ground arith)))
          (observed skipped_budget stage_sweep over_budget (ground arith)))
        (booked (size after.book) fresh)

  module _ (codec : WireCodec) where
    receive_message-ArePublished :
        (r : SeedReactor) (peers : Peers) (rand : Random) (marshals try_send : Bool) (id : Text)
        (d : Decoded) (now : ℕ)
        → ArePublished (receive_message net sorter codec r peers rand marshals try_send id d now).1
    unfolding receive_message receive_request receive_response
    receive_message-ArePublished r peers rand marshals try_send id undecodable now = record {
      each = tt;
    }
    receive_message-ArePublished r peers rand marshals try_send id nothing now = record {
      each = tt;
    }
    receive_message-ArePublished r peers rand marshals try_send id (message wire_request) now =
        elim (Bool-cases (may_serve r id now).1) [
          | inl may ↦
              rw (may, receive_request)
                (serve-ArePublished (may_serve r id now).0 rand marshals try_send id now)
          | inr early ↦ rw (early, receive_request) (record { each = ground arith })
        ]
    receive_message-ArePublished r peers rand marshals try_send id (message (wire_response raw))
          now =
        elim (Bool-cases (answers_our_request r id now).1) [
          | inl asked ↦
              rw (asked, receive_response)
                (joined (observed rejected stage_learn _ (ground arith))
                  (learn-ArePublished (answers_our_request r id now).0 peers id _ now))
          | inr unasked ↦ rw (unasked, receive_response) (record { each = ground arith })
        ]

cycle_once-ArePublished : (r : SeedReactor) (peers : Peers) → ArePublished (cycle_once r peers)
unfolding cycle_once
cycle_once-ArePublished r peers =
    joined (stopped_lem (overdue r.wait peers.list)) (observed cycled stage_cycle _ (ground arith))
  where
    stopped_lem : (stopped : List Peer) → ArePublished (stop_each stopped)
    stopped_lem [] = record { each = tt }
    stopped_lem (peer ∷ stopped) = record { each = (tt, (stopped_lem stopped).each) }

-- What a call of the reactor does to the outside. The request that `AddPeer` starts is a call of its own.
abbrev pub emitted : Net → Sorter BookRecord → WireCodec → SeedReactor → Peers × Event → List Effect
emitted net sorter codec r (peers, receives rand marshals try_send id payload now) =
    (receive net sorter codec r peers rand marshals try_send id payload now).1
emitted net sorter codec r (peers, requests marshals try_send id now) =
    (send_request r marshals try_send id now).1
emitted net sorter codec r (peers, adds peer now) = []
emitted net sorter codec r (peers, removes id) = []
emitted net sorter codec r (peers, sweeps now) = (sweep_once net sorter r peers now).1

emitted-ArePublished :
    (net : Net) (sorter : Sorter BookRecord) (codec : WireCodec) (r : SeedReactor)
    (e : Peers × Event)
    → ArePublished (emitted net sorter codec r e)
unfolding receive send_request
emitted-ArePublished net sorter codec r (peers, receives rand marshals try_send id payload now) =
    receive_message-ArePublished net sorter codec r peers rand marshals try_send id
      (decode_discovery codec payload) now
emitted-ArePublished net sorter codec r (peers, requests false try_send id now) = record {
  each = tt;
}
emitted-ArePublished net sorter codec r (peers, requests true false id now) = record { each = tt }
emitted-ArePublished net sorter codec r (peers, requests true true id now) = record {
  each = (tt, tt);
}
emitted-ArePublished net sorter codec r (peers, adds peer now) = record { each = tt }
emitted-ArePublished net sorter codec r (peers, removes id) = record { each = tt }
emitted-ArePublished net sorter codec r (peers, sweeps now) =
    sweep_once-ArePublished net sorter r peers now

-- A list of series is enough for a longer one.
IsOneOf-append : (s : Series) (xs ys : List Series) → IsOneOf s ys → IsOneOf s (xs ++ ys)
IsOneOf-append s [] ys h = h
IsOneOf-append s (x ∷ xs) ys h = inr (IsOneOf-append s xs ys h)

published_lem :
    (outside : Outside) (namespace : Text) (w : World) {metrics : SeedMetrics}
    → (new_seed_tm2_metrics outside namespace w).0 ≡ built metrics
    → (new_seed_tm2_metrics outside namespace w).1.published ≡ w.published ++ published_series
unfolding new_seed_tm2_metrics
published_lem outside namespace w h =
    let pairs : List Series = map (λ (outcome, stage). decision outcome stage) seed_tm2_outcomes in
    ground (arith, append_assoc w.published pairs (known_addresses ∷ fresh_addresses ∷ []))

-- Every effect of a list writes only series that have been published.
abbrev pub WritesOnly : List Series → List Effect → Type 0
WritesOnly published = All (λ f. All (λ s. IsOneOf s published) (written_series f))

written_before :
    (old series : List Series)
    → All (λ s. IsOneOf s published_series) series
    → All (λ s. IsOneOf s (old ++ published_series)) series
written_before old [] h = tt
written_before old (s ∷ series) h =
    (IsOneOf-append s old published_series h.0, written_before old series h.1)

ArePublished-WritesOnly :
    (old : List Series) (es : List Effect)
    → All IsPublished es
    → WritesOnly (old ++ published_series) es
ArePublished-WritesOnly old [] h = tt
ArePublished-WritesOnly old (e ∷ es) h =
    (written_before old (written_series e) h.0, ArePublished-WritesOnly old es h.1)

-- Where the metrics of a TM2 seed have been made, whatever a call of its reactor or a tick of its cycle
-- counts stands in a series that was published with them: no series appears later.
pub emitted-WritesOnly :
    (outside : Outside) (namespace : Text) (w : World) {metrics : SeedMetrics} (net : Net)
    (sorter : Sorter BookRecord) (codec : WireCodec) (r : SeedReactor) (e : Peers × Event)
    (peers : Peers)
    → (new_seed_tm2_metrics outside namespace w).0 ≡ built metrics
    → WritesOnly
        (new_seed_tm2_metrics outside namespace w).1.published
        (emitted net sorter codec r e ++ cycle_once r peers)
emitted-WritesOnly outside namespace w net sorter codec r e peers h =
    subst
      (λ (published : List Series).
        WritesOnly published (emitted net sorter codec r e ++ cycle_once r peers))
      (sym (published_lem outside namespace w h))
      (ArePublished-WritesOnly w.published (emitted net sorter codec r e ++ cycle_once r peers)
        (joined (emitted-ArePublished net sorter codec r e) (cycle_once-ArePublished r peers)).each)
