-- ===== src/Tests/Samples.antt =====
-- Concrete inputs: three addresses, a network that knows them, books and reactors that hold them.
use tenderseed.Common.Int.{pos}
use tenderseed.Common.{
  ℕ, ◌+◌, ◌*◌, [], ◌∷◌, true, false, none, some, ◌==◌, if◌then◌else◌, text_eq, refl,
}
use tenderseed.Common.Sorting.{Sorter, insertion_sorter}
use tenderseed.Common.Time.{second, minute, unix_epoch}
use tenderseed.Address.{NetAddress, Net}
use tenderseed.Book.{BookRecord, SeedBook, may_hold}
use tenderseed.Book.Invariant.{IsValid}
use tenderseed.Reactor.{SeedReactor, Peers}
use tenderseed.Reactor.Spread.{Random}
use tenderseed.Reactor.Wire.{WireCodec, message, wire_response}

abbrev pub alice : NetAddress
alice = record { id = 1 ∷ []; ip = 1 ∷ 2 ∷ 3 ∷ 4 ∷ []; port = 26656 }

abbrev pub bob : NetAddress
bob = record { id = 2 ∷ []; ip = 1 ∷ 2 ∷ 9 ∷ 9 ∷ []; port = 26656 }

abbrev pub carol : NetAddress
carol = record { id = 3 ∷ []; ip = 8 ∷ 8 ∷ 8 ∷ 8 ∷ []; port = 26656 }

-- The node's own address.
abbrev pub seed : NetAddress
seed = record { id = 9 ∷ []; ip = 7 ∷ 7 ∷ 7 ∷ 7 ∷ []; port = 26656 }

-- An address is named by its identity, and is routable outside 10.0.0.0/8.
abbrev pub net : Net
net = record {
  validate = λ a. true;
  routable = λ a. elim a.ip [ [] ↦ false | first ∷ _ ↦ if first == 10 then false else true ];
  same = λ a b. text_eq a.id b.id;
  to_string = λ a. a.id;
  from_string =
      λ s. if text_eq s (1 ∷ []) then some alice else if text_eq s (2 ∷ []) then some bob else none;
}

abbrev pub sorter : Sorter BookRecord
sorter = insertion_sorter

-- The time of the samples: an hour into the second day after the epoch.
abbrev pub today : ℕ
today = (unix_epoch + 90000) * second

-- Alice answered half a minute ago; Bob was only mentioned.
abbrev pub alice_record : BookRecord
alice_record = record {
  addr = alice;
  last_seen = today;
  fails = pos 0;
  last_try = today;
  last_ok = today;
}

abbrev pub bob_record : BookRecord
bob_record = record { addr = bob; last_seen = today; fails = pos 0; last_try = 0; last_ok = 0 }

abbrev pub book : SeedBook
book = record {
  self = seed;
  max_peers = 1;
  strict = true;
  dirty = true;
  generation = 5;
  peers = (1 ∷ [], alice_record) ∷ (2 ∷ [], bob_record) ∷ [];
}

pub book-IsValid : IsValid net book
unfolding may_hold text_eq
book-IsValid = record { distinct = (refl, (refl, tt)); held = ((refl, refl), ((refl, refl), tt)) }

-- Alice is asked, and was served two seconds ago.
abbrev pub reactor : SeedReactor
reactor = record {
  book = book;
  strict = true;
  wait = 0;
  check_period = 10 * minute;
  max_outbound = 60;
  notes = (1 ∷ [], record { asked = today; served = today; learned = 0; since = today }) ∷ [];
}

abbrev pub peers : Peers
peers = record { has = λ id. text_eq id (1 ∷ []); get = λ id. none; list = []; num_outbound = 2 }

-- A source of randomness that fails.
abbrev pub no_random : Random
no_random = record { draw = λ n. none }

-- Every payload decodes to an answer with one address, which parses.
abbrev pub codec : WireCodec
codec = record {
  decode = λ payload. message (wire_response (payload ∷ []));
  valid_id = λ id. true;
  split_host_port = λ rest. some (rest, b'8' ∷ b'0' ∷ []);
  parse_ip = λ host. some (1 ∷ 2 ∷ 3 ∷ 4 ∷ []);
  from_ip_port = λ ip port. record { id = []; ip = ip; port = port };
}
