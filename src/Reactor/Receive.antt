-- ===== src/Reactor/Receive.antt =====
-- The handlers of internal/tenderseed/seedreactortm2.go that the switch calls, and the request.
pub mod Exchange
pub mod Origins
pub mod Served
use tenderseed.Common.{
  ℕ, List, [], ◌∷◌, ◌++◌, map, Bool, true, false, not, Option, none, some, if◌then◌else◌, Text,
  length,
}
use tenderseed.Common.Sorting.{Sorter}
use tenderseed.Address.{NetAddress, Net}
use tenderseed.Book.{BookRecord, mark_success}
use tenderseed.Book.Queries.{size, fresh_batch}
use tenderseed.Reactor.Budget.{freshness, servable_ceiling}
use tenderseed.Reactor.{
  SeedReactor, Peer, Peers, Effect, set_book, sends, request, rejected, unsolicited, too_soon,
  stage_serve, stage_learn,
}
use tenderseed.Reactor.Notes.{note_request, forget_request, answers_our_request, may_serve}
use tenderseed.Reactor.Spread.{Random}
use tenderseed.Reactor.Serve.{observe, observe_count, serve}
use tenderseed.Reactor.Learn.{learn}
use tenderseed.Reactor.Wire.{
  WireCodec, WireMessage, wire_request, wire_response, Decoded, undecodable, nothing, message,
  decode_discovery, parse_wire_addresses,
}

-- `request`. Marshalling and `TrySend` may fail.
unfoldable pub send_request : SeedReactor → Bool → Bool → Text → ℕ → SeedReactor × List Effect
send_request r marshals try_send id now =
    if not marshals
    then (r, [])
    else let noted = note_request r id now in
      if not try_send then (forget_request noted id, []) else (noted, sends id request ∷ [])

-- `AddPeer`: whether it starts a request, in a routine of its own.
unfoldable pub add_peer : Net → SeedReactor → Peer → ℕ → SeedReactor × Bool
add_peer net r peer now =
    if not peer.is_outbound
    then (r, false)
    else (record r { book = mark_success net r.book (some peer.socket_addr) now }, true)

module _ (net : Net) (sorter : Sorter BookRecord) (codec : WireCodec) where
  unfoldable pub receive_request :
      SeedReactor → Random → Bool → Bool → Text → ℕ → SeedReactor × List Effect
  receive_request r rand marshals try_send id now =
      let may = may_serve r id now in
      if not may.1
      then (may.0, observe too_soon stage_serve)
      else (may.0, (serve net sorter may.0 rand marshals try_send id now).0)

  unfoldable pub receive_response :
      SeedReactor → Peers → Text → List Text → ℕ → SeedReactor × List Effect
  receive_response r peers id raw now =
      let asked = answers_our_request r id now in
      if not asked.1
      then (asked.0, observe unsolicited stage_learn)
      else let parsed = parse_wire_addresses codec raw in
        let learned = learn net sorter asked.0 peers id (map some parsed.0) now in
        (learned.0, observe_count rejected stage_learn parsed.1 ++ learned.1)

  unfoldable pub receive_message :
      SeedReactor → Peers → Random → Bool → Bool → Text → Decoded → ℕ → SeedReactor × List Effect
  unfolding receive_request receive_response
  receive_message r peers rand marshals try_send id undecodable now = (r, [])
  receive_message r peers rand marshals try_send id nothing now = (r, [])
  receive_message r peers rand marshals try_send id (message wire_request) now =
      receive_request r rand marshals try_send id now
  receive_message r peers rand marshals try_send id (message (wire_response raw)) now =
      receive_response r peers id raw now

  unfoldable pub receive :
      SeedReactor → Peers → Random → Bool → Bool → Text → Text → ℕ → SeedReactor × List Effect
  unfolding receive_message
  receive r peers rand marshals try_send id payload now =
      receive_message r peers rand marshals try_send id (decode_discovery codec payload) now
