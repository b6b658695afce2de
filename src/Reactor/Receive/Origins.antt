-- ===== src/Reactor/Receive/Origins.antt =====
-- What a seed of internal/tenderseed/seedreactortm2.go has proof of, over any sequence of calls of its
-- reactor: the proofs it started with, and what its own outbound connections back.
use tenderseed.Common.{
  ℕ, List, [], ◌∷◌, ◌≡◌, refl, inl, inr, Bool, true, false, ◌==◌, Option, some, map, Text,
  text_equality, length, Bool-cases, Option-cases,
}
use tenderseed.Common.Sorting.{Sorter}
use tenderseed.Address.{NetAddress, Net}
use tenderseed.Book.{BookRecord, SeedBook, mark_attempt}
use tenderseed.Book.Origin.{
  AreReasons, mark_success-AreReasons, mark_attempt-AreReasons, drop_failing-AreReasons,
  add_peers-AreReasons,
}
use tenderseed.Reactor.{SeedReactor, Peer, Peers, max_consecutive_failures}
use tenderseed.Reactor.Budget.{renewal_window}
use tenderseed.Reactor.Notes.{
  remove_peer, note_request, answers_our_request, exploration_allowance, note_exploration,
}
use tenderseed.Reactor.Notes.Table.{exploration-book, note_exploration-book}
use tenderseed.Reactor.Spread.{Random}
use tenderseed.Reactor.Learn.{take_in_each, no_intake, learn}
use tenderseed.Reactor.Sweep.{credit, dialable, mark_attempts, plan, handed_over, sweep_once}
use tenderseed.Book.Queries.{stale_proven_batch, stale_unproven_batch}
use tenderseed.Reactor.Wire.{
  WireCodec, Decoded, undecodable, nothing, message, wire_request, wire_response, decode_discovery,
  parse_wire_addresses,
}
use tenderseed.Reactor.Receive.{send_request, add_peer, receive_response, receive_message, receive}
use tenderseed.Reactor.Receive.Exchange.{
  Event, receives, requests, adds, removes, sweeps, handle, may_serve-book, answers-book,
  forget_request-book, receive_request-state,
}

-- A call at some moment that makes the seed take the address of a key for reached. Either the switch gives it
-- a peer that it dialled at this very address; or a pass of the sweep finds a connection that it dialled to a
-- peer of the identity in the address. The sweep compares nothing but the identity, so the second case also
-- credits an address whose host and port no connection was made to.
pub data Backs (net : Net) (key : Text) : ℕ → Peers × Event → Type 0 where
  dialled :
      (peers : Peers) (peer : Peer) (now : ℕ)
      → peer.is_outbound ≡ true
      → net.to_string peer.socket_addr ≡ key
      → Backs net key now (peers, adds peer now)
  shares_identity :
      (peers : Peers) (peer : Peer) (addr : NetAddress) (now : ℕ)
      → peers.get addr.id ≡ some peer
      → peer.is_outbound ≡ true
      → net.to_string addr ≡ key
      → Backs net key now (peers, sweeps now)

-- Some call of a sequence backs the address of a key.
pub data BacksIn (net : Net) (key : Text) (t : ℕ) : List (Peers × Event) → Type 0 where
  here :
      (e : Peers × Event) (es : List (Peers × Event))
      → Backs net key t e
      → BacksIn net key t (e ∷ es)
  later :
      (e : Peers × Event) (es : List (Peers × Event))
      → BacksIn net key t es
      → BacksIn net key t (e ∷ es)

module _ (net : Net) (Reason : Text → ℕ → Type 0) where
  open net use {to_string}

  credit-AreReasons :
      (peers : Peers) (b : SeedBook) (addr : NetAddress) (now : ℕ)
      → ((key : Text) → Backs net key now (peers, sweeps now) → Reason key now)
      → AreReasons Reason b
      → AreReasons Reason (credit net peers b addr now)
  unfolding credit
  credit-AreReasons peers b addr now f a = elim (Option-cases (peers.get addr.id)) [
    | inl q ↦ rw (q, credit) a
    | inr (peer, q) ↦ elim (Bool-cases peer.is_outbound) [
      | inl o ↦
          rw (q, o, credit)
            (mark_success-AreReasons net Reason b addr now
              (f (to_string addr) (shares_identity peers peer addr now q o refl)) a)
      | inr o ↦ rw (q, o, credit) a
    ]
  ]

  dialable-AreReasons :
      (peers : Peers) (b : SeedBook) (addrs : List NetAddress) (now : ℕ)
      → ((key : Text) → Backs net key now (peers, sweeps now) → Reason key now)
      → AreReasons Reason b
      → AreReasons Reason (dialable net peers b addrs now).book
  unfolding dialable
  dialable-AreReasons peers b [] now f a = a
  dialable-AreReasons peers b (addr ∷ addrs) now f a = elim (Bool-cases (peers.has addr.id)) [
    | inl e ↦
        rw (e, dialable)
          (dialable-AreReasons peers (credit net peers b addr now) addrs now f
            (credit-AreReasons peers b addr now f a))
    | inr e ↦ rw (e, dialable) (dialable-AreReasons peers b addrs now f a)
  ]

  mark_attempts-AreReasons :
      (b : SeedBook) (addrs : List NetAddress) (now : ℕ)
      → AreReasons Reason b
      → AreReasons Reason (mark_attempts net b addrs now)
  unfolding mark_attempts
  mark_attempts-AreReasons b [] now a = a
  mark_attempts-AreReasons b (addr ∷ addrs) now a =
      mark_attempts-AreReasons (mark_attempt net b (some addr) now) addrs now
        (mark_attempt-AreReasons net Reason b addr now a)

  module _ (sorter : Sorter BookRecord) where
    sweep_once-AreReasons :
        (r : SeedReactor) (peers : Peers) (now : ℕ)
        → ((key : Text) → Backs net key now (peers, sweeps now) → Reason key now)
        → AreReasons Reason r.book
        → AreReasons Reason (sweep_once net sorter r peers now).0.book
    unfolding sweep_once plan
    sweep_once-AreReasons r peers now f a =
        let p = plan net sorter r peers now in
        drop_failing-AreReasons net Reason
          (mark_attempts net p.exploration.book (handed_over net sorter p) now)
          max_consecutive_failures
          (mark_attempts-AreReasons p.exploration.book (handed_over net sorter p) now (
            dialable-AreReasons peers p.renewal.book (stale_unproven_batch sorter p.renewal.book 0)
              now f
              (dialable-AreReasons peers r.book
                (stale_proven_batch sorter r.book (renewal_window r) 0 now) now f a)))

    learn-AreReasons :
        (r : SeedReactor) (peers : Peers) (id : Text) (addrs : List (Option NetAddress)) (now : ℕ)
        → AreReasons Reason r.book
        → AreReasons Reason (learn net sorter r peers id addrs now).0.book
    unfolding learn
    learn-AreReasons r peers id addrs now a =
        let explored = exploration_allowance r peers id now in
        let s = take_in_each net explored.0 explored.1 no_intake addrs in
        let noted = note_exploration explored.0 id s.discovered now in
        let same : AreReasons Reason noted.book =
          rw (note_exploration-book explored.0 id s.discovered now, exploration-book r peers id now)
            a in
        elim (Bool-cases (length s.kept == 0)) [
          | inl e ↦ rw (e, learn) same
          | inr e ↦
              rw (e, learn)
                (add_peers-AreReasons net Reason sorter noted.book (map some s.kept) now same)
        ]

    module _ (codec : WireCodec) where
      receive_message-AreReasons :
          (r : SeedReactor) (peers : Peers) (rand : Random) (marshals try_send : Bool) (id : Text)
          (d : Decoded) (now : ℕ)
          → AreReasons Reason r.book
          → AreReasons Reason
              (receive_message net sorter codec r peers rand marshals try_send id d now).0.book
      unfolding receive_message receive_response
      receive_message-AreReasons r peers rand marshals try_send id undecodable now a = a
      receive_message-AreReasons r peers rand marshals try_send id nothing now a = a
      receive_message-AreReasons r peers rand marshals try_send id (message wire_request) now a =
          rw
            (
              receive_request-state net sorter codec r rand marshals try_send id now,
              may_serve-book r id now,
            )
            a
      receive_message-AreReasons r peers rand marshals try_send id (message (wire_response raw)) now
            a =
          let same : AreReasons Reason (answers_our_request r id now).0.book =
            rw (answers-book r id now) a in
          elim (Bool-cases (answers_our_request r id now).1) [
            | inl e ↦
                rw (e, receive_response)
                  (learn-AreReasons (answers_our_request r id now).0 peers id
                    (map some (parse_wire_addresses codec raw).0) now same)
            | inr e ↦ rw (e, receive_response) same
          ]

      pub handle-AreReasons :
          (r : SeedReactor) (e : Peers × Event)
          → ((key : Text) (t : ℕ) → Backs net key t e → Reason key t)
          → AreReasons Reason r.book
          → AreReasons Reason (handle net sorter codec r e).book
      unfolding handle receive send_request note_request add_peer remove_peer
      handle-AreReasons r (peers, receives rand marshals try_send id payload now) f a =
          receive_message-AreReasons r peers rand marshals try_send id
            (decode_discovery codec payload) now a
      handle-AreReasons r (peers, requests false try_send id now) f a = a
      handle-AreReasons r (peers, requests true true id now) f a = a
      handle-AreReasons r (peers, requests true false id now) f a =
          rw (forget_request-book (note_request r id now) id) a
      handle-AreReasons r (peers, adds peer now) f a = elim (Bool-cases peer.is_outbound) [
        | inl o ↦
            rw (o, handle, add_peer)
              (mark_success-AreReasons net Reason r.book peer.socket_addr now
                (f (to_string peer.socket_addr) now (dialled peers peer now o refl)) a)
        | inr i ↦ rw (i, handle, add_peer) a
      ]
      handle-AreReasons r (peers, removes id) f a = a
      handle-AreReasons r (peers, sweeps now) f a =
          sweep_once-AreReasons r peers now (λ key h. f key now h) a
