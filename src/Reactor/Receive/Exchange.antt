-- ===== src/Reactor/Receive/Exchange.antt =====
-- The reactor of internal/tenderseed/seedreactortm2.go as a whole: what its handlers keep true, in any
-- order, and what an answer that nobody asked for changes.
use tenderseed.Common.{
  ℕ, List, [], ◌∷◌, map, ◌≡◌, refl, Bool, true, false, not, Option, some, inl, inr, ◌==◌, arith,
  Text, text_equality, Bool-cases, Option-cases, length,
}
use tenderseed.Common.Map.{lookup, Distinct, delete-Distinct}
use tenderseed.Common.Sorting.{Sorter}
use tenderseed.Common.Time.{is_zero}
use tenderseed.Address.{NetAddress, Net}
use tenderseed.Book.{BookRecord}
use tenderseed.Book.Invariant.{IsValid, step, step-IsValid, succeeds}
use tenderseed.Reactor.{SeedReactor, Peer, Peers}
use tenderseed.Reactor.Notes.{
  notes_of, remove_peer, note_request, forget_request, may_serve, answers_our_request,
  exploration_allowance,
}
use tenderseed.Reactor.Notes.Table.{exploration-Distinct, note_exploration-Distinct, notes_of-found}
use tenderseed.Reactor.Notes.Events.{note, note-Distinct, asks_us, asked, taken_back, answers}
use tenderseed.Reactor.Spread.{Random}
use tenderseed.Reactor.Learn.{take_in_each, no_intake, learn}
use tenderseed.Reactor.Learn.Bounds.{learn-IsValid}
use tenderseed.Reactor.Sweep.{sweep_once}
use tenderseed.Reactor.Sweep.Passes.{sweep_once-IsValid}
use tenderseed.Reactor.Wire.{
  WireCodec, Decoded, undecodable, nothing, message, wire_request, wire_response, decode_discovery,
  parse_wire_addresses,
}
use tenderseed.Reactor.Receive.{
  send_request, add_peer, receive_request, receive_response, receive_message, receive,
}

pub may_serve-book : (r : SeedReactor) (id : Text) (now : ℕ) → (may_serve r id now).0.book ≡ r.book
unfolding may_serve
may_serve-book r id now = ground arith

pub answers-book :
    (r : SeedReactor) (id : Text) (now : ℕ) → (answers_our_request r id now).0.book ≡ r.book
unfolding answers_our_request
answers-book r id now = elim (Option-cases (lookup id r.notes)) [
  | inl e ↦ rw (e, answers_our_request) refl
  | inr (n, e) ↦ ground arith
]

pub forget_request-book : (r : SeedReactor) (id : Text) → (forget_request r id).book ≡ r.book
unfolding forget_request
forget_request-book r id = elim (Option-cases (lookup id r.notes)) [
  | inl e ↦ rw (e, forget_request) refl
  | inr (n, e) ↦ rw (e, forget_request) refl
]

-- The book is valid, and no peer has two notes.
pub record IsSound (net : Net) (r : SeedReactor) : Type 0 where
  pub book : IsValid net r.book
  pub notes : Distinct r.notes

-- A call of the reactor, with what the switch and the outside give it.
pub data Event : Type 0 where
  receives : Random → (marshals try_send : Bool) → (id payload : Text) → ℕ → Event
  requests : (marshals try_send : Bool) → Text → ℕ → Event
  adds : Peer → ℕ → Event
  removes : Text → Event
  sweeps : ℕ → Event

module _ (net : Net) (sorter : Sorter BookRecord) (codec : WireCodec) where
  pub receive_request-state :
      (r : SeedReactor) (rand : Random) (marshals try_send : Bool) (id : Text) (now : ℕ)
      → (receive_request net sorter codec r rand marshals try_send id now).0
        ≡ (may_serve r id now).0
  unfolding receive_request
  receive_request-state r rand marshals try_send id now =
      elim (Bool-cases (not (may_serve r id now).1)) [
        | inl e ↦ rw (e, receive_request) refl
        | inr e ↦ rw (e, receive_request) refl
      ]

  answers-refused :
      (r : SeedReactor) (id : Text) (now : ℕ)
      → is_zero (notes_of r id).asked ≡ true
      → (answers_our_request r id now).1 ≡ false
  unfolding answers_our_request
  answers-refused r id now none_pending = elim (Option-cases (lookup id r.notes)) [
    | inl e ↦ rw (e, answers_our_request) refl
    | inr (n, e) ↦
        let q : is_zero n.asked ≡ true = rw (notes_of-found r id e) at none_pending in
        rw (e, q, answers_our_request) refl
  ]

  unasked :
      (r : SeedReactor) (peers : Peers) (rand : Random) (marshals try_send : Bool) (id : Text)
      (d : Decoded) (now : ℕ)
      → is_zero (notes_of r id).asked ≡ true
      → (receive_message net sorter codec r peers rand marshals try_send id d now).0.book ≡ r.book
  unfolding receive_message receive_response
  unasked r peers rand marshals try_send id undecodable now none_pending = refl
  unasked r peers rand marshals try_send id nothing now none_pending = refl
  unasked r peers rand marshals try_send id (message wire_request) now none_pending =
      rw (receive_request-state r rand marshals try_send id now) (may_serve-book r id now)
  unasked r peers rand marshals try_send id (message (wire_response raw)) now none_pending =
      rw (answers-refused r id now none_pending, receive_response) (answers-book r id now)

  -- Nothing that a peer sends changes the book while no request to that peer is pending, whatever the
  -- payload carries.
  pub receive-unasked :
      (r : SeedReactor) (peers : Peers) (rand : Random) (marshals try_send : Bool)
      (id payload : Text) (now : ℕ)
      → is_zero (notes_of r id).asked ≡ true
      → (receive net sorter codec r peers rand marshals try_send id payload now).0.book ≡ r.book
  unfolding receive
  receive-unasked r peers rand marshals try_send id payload now =
      unasked r peers rand marshals try_send id (decode_discovery codec payload) now

  unfoldable pub handle : SeedReactor → Peers × Event → SeedReactor
  handle r (peers, receives rand marshals try_send id payload now) =
      (receive net sorter codec r peers rand marshals try_send id payload now).0
  handle r (peers, requests marshals try_send id now) = (send_request r marshals try_send id now).0
  handle r (peers, adds peer now) = (add_peer net r peer now).0
  handle r (peers, removes id) = remove_peer r id
  handle r (peers, sweeps now) = (sweep_once net sorter r peers now).0

  unfoldable pub handle_each : SeedReactor → List (Peers × Event) → SeedReactor
  unfolding handle
  handle_each r [] = r
  handle_each r (e ∷ es) = handle_each (handle r e) es

  learn-IsSound :
      (r : SeedReactor) (peers : Peers) (id : Text) (addrs : List (Option NetAddress)) (now : ℕ)
      → IsSound net r
      → IsSound net (learn net sorter r peers id addrs now).0
  unfolding learn
  learn-IsSound r peers id addrs now v =
      let explored = exploration_allowance r peers id now in
      let s = take_in_each net explored.0 explored.1 no_intake addrs in
      let d =
        note_exploration-Distinct explored.0 id s.discovered now
          (exploration-Distinct r peers id now v.notes) in
      record {
        book = learn-IsValid net sorter r peers id addrs now v.book;
        notes = elim (Bool-cases (length s.kept == 0)) [
          | inl e ↦ rw (e, learn) d
          | inr e ↦ rw (e, learn) d
        ];
      }

  receive_message-IsSound :
      (r : SeedReactor) (peers : Peers) (rand : Random) (marshals try_send : Bool) (id : Text)
      (d : Decoded) (now : ℕ)
      → IsSound net r
      → IsSound net (receive_message net sorter codec r peers rand marshals try_send id d now).0
  unfolding receive_message receive_request receive_response note
  receive_message-IsSound r peers rand marshals try_send id undecodable now v = v
  receive_message-IsSound r peers rand marshals try_send id nothing now v = v
  receive_message-IsSound r peers rand marshals try_send id (message wire_request) now v =
      rw (receive_request-state r rand marshals try_send id now) (record {
        book = rw (may_serve-book r id now) v.book;
        notes = note-Distinct peers r (asks_us id now) v.notes;
      })
  receive_message-IsSound r peers rand marshals try_send id (message (wire_response raw)) now v =
      let asked' : IsSound net (answers_our_request r id now).0 = record {
        book = rw (answers-book r id now) v.book;
        notes = note-Distinct peers r (answers id now) v.notes;
      } in
      elim (Bool-cases (answers_our_request r id now).1) [
        | inl e ↦
            rw (e, receive_response)
              (learn-IsSound (answers_our_request r id now).0 peers id
                (map some (parse_wire_addresses codec raw).0) now asked')
        | inr e ↦ rw (e, receive_response) asked'
      ]

  pub handle-IsSound :
      (r : SeedReactor) (e : Peers × Event) → IsSound net r → IsSound net (handle r e)
  unfolding handle receive send_request note_request add_peer remove_peer note step sweep_once
  handle-IsSound r (peers, receives rand marshals try_send id payload now) v =
      receive_message-IsSound r peers rand marshals try_send id (decode_discovery codec payload) now
        v
  handle-IsSound r (peers, requests false try_send id now) v = v
  handle-IsSound r (peers, requests true true id now) v = record {
    book = v.book;
    notes = note-Distinct peers r (asked id now) v.notes;
  }
  handle-IsSound r (peers, requests true false id now) v =
      let noted = note_request r id now in
      record {
        book = rw (forget_request-book noted id) v.book;
        notes =
            note-Distinct peers noted (taken_back id now)
              (note-Distinct peers r (asked id now) v.notes);
      }
  handle-IsSound r (peers, adds peer now) v = elim (Bool-cases (not peer.is_outbound)) [
    | inl e ↦ rw (e, handle, add_peer) v
    | inr e ↦
        rw (e, handle, add_peer)
          (record {
            book = step-IsValid net sorter r.book (succeeds (some peer.socket_addr) now) v.book;
            notes = v.notes;
          })
  ]
  handle-IsSound r (peers, removes id) v = record {
    book = v.book;
    notes = delete-Distinct id r.notes v.notes;
  }
  handle-IsSound r (peers, sweeps now) v = record {
    book = sweep_once-IsValid net peers sorter r now v.book;
    notes = v.notes;
  }

  -- Whatever the switch calls, in whatever order and whatever the peers send: the book stays valid,
  -- and no peer has two notes.
  pub handle_each-IsSound :
      (r : SeedReactor) (es : List (Peers × Event)) → IsSound net r → IsSound net (handle_each r es)
  unfolding handle_each
  handle_each-IsSound r [] v = v
  handle_each-IsSound r (e ∷ es) v = handle_each-IsSound (handle r e) es (handle-IsSound r e v)
