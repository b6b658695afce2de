-- ===== src/Reactor/Notes/Limits.antt =====
-- What the notes of internal/tenderseed/seedreactortm2.go hold a peer to, over any sequence of events:
-- one answer a second, and one answer taken in for one request of ours.
use tenderseed.Common.{
  ℕ, ◌+◌, ◌≤◌, ◌<◌, All, List, [], ◌∷◌, inl, inr, Bool, false, ◌&&◌, if◌then◌else◌, arith, Text,
  text_equality, text_eq, text_eq_iff, Bool-cases, Option-cases,
}
use tenderseed.Common.Map.{lookup, Distinct}
use tenderseed.Common.Time.{second}
use tenderseed.Reactor.{SeedReactor, Peers}
use tenderseed.Reactor.Notes.{
  notes_of, forget_old, note_request, forget_request, answers_our_request, may_serve,
  exploration_allowance,
}
use tenderseed.Reactor.Notes.Table.{
  notes_of-found, notes_of-absent, notes_of-remove_peer, notes_of-set_notes, notes_of-forget_old,
  exploration-clocks, note_exploration-clocks,
}
use tenderseed.Reactor.Notes.Events.{
  NoteEvent, time_of, note, note-Distinct, is_pending, Since, is_grant, served-note, served-grant,
  asks_us, asked, taken_back, answers, leaves, explores, Stays,
}

-- The times at which a peer's requests are let through.
unfoldable pub grants : Peers → Text → SeedReactor → List NoteEvent → List ℕ
grants peers id r [] = []
grants peers id r (e ∷ es) =
    let rest = grants peers id (note peers r e).0 es in
    if is_grant peers r id e then time_of e ∷ rest else rest

-- Events in the order of time, from `t` on.
abbrev pub InOrder : ℕ → List NoteEvent → Type 0
InOrder t [] = Unit
InOrder t (e ∷ es) = (t ≤ time_of e) × InOrder (time_of e) es

-- Each time is at least a second after the one before.
abbrev pub IsSpacedFrom : ℕ → List ℕ → Type 0
IsSpacedFrom t [] = Unit
IsSpacedFrom t (u ∷ us) = (t + second ≤ u) × IsSpacedFrom u us

abbrev pub IsSpaced : List ℕ → Type 0
IsSpaced [] = Unit
IsSpaced (t ∷ ts) = IsSpacedFrom t ts

grants-IsSpacedFrom :
    (peers : Peers) (id : Text) (r : SeedReactor) (t now : ℕ) (es : List NoteEvent)
    → Distinct r.notes
    → 0 < t
    → t ≤ now
    → InOrder now es
    → All (Stays id) es
    → Since id t now r
    → IsSpacedFrom t (grants peers id r es)
unfolding grants
grants-IsSpacedFrom peers id r t now [] d pos late o stay s = tt
grants-IsSpacedFrom peers id r t now (e ∷ es) d pos late o stay s =
    elim (Bool-cases (is_grant peers r id e)) [
      | inl g ↦
          let (set, apart) = served-grant peers r id e g in
          rw (g, grants)
            (
              omega arith,
              grants-IsSpacedFrom peers id (note peers r e).0 (time_of e) (time_of e) es
                  (note-Distinct peers r e d) (omega arith) (omega arith) o.1 stay.1 (inl set),
            )
      | inr g ↦
          rw (g, grants)
            (grants-IsSpacedFrom peers id (note peers r e).0 t (time_of e) es
              (note-Distinct peers r e d) pos (omega arith) o.1 stay.1
              (omega (arith, served-note peers r id e d stay.0 g, s)))
    ]

-- As long as a peer does not leave, its requests that are let through are at least a second apart, in any
-- order with whatever else happens to the notes, with the requests of other peers and with their leaving.
pub grants-IsSpaced :
    (peers : Peers) (id : Text) (r : SeedReactor) (now : ℕ) (es : List NoteEvent)
    → Distinct r.notes
    → 0 < now
    → InOrder now es
    → All (Stays id) es
    → IsSpaced (grants peers id r es)
unfolding grants
grants-IsSpaced peers id r now [] d pos o stay = tt
grants-IsSpaced peers id r now (e ∷ es) d pos o stay = elim (Bool-cases (is_grant peers r id e)) [
  | inl g ↦
      let (set, apart) = served-grant peers r id e g in
      rw (g, grants)
        (grants-IsSpacedFrom peers id (note peers r e).0 (time_of e) (time_of e) es
          (note-Distinct peers r e d) (omega arith) (omega arith) o.1 stay.1 (inl set))
  | inr g ↦
      rw (g, grants)
        (grants-IsSpaced peers id (note peers r e).0 (time_of e) es (note-Distinct peers r e d)
          (omega arith) o.1 stay.1)
]

abbrev is_our_request : Text → NoteEvent → Bool
is_our_request id (asked k now) = text_eq k id
is_our_request id _ = false

abbrev is_taken_in : Peers → SeedReactor → Text → NoteEvent → Bool
is_taken_in peers r id (answers k now) = text_eq k id && (note peers r (answers k now)).1
is_taken_in peers r id _ = false

abbrev pub count_if : Bool → ℕ
count_if b = if b then 1 else 0

-- A request of ours that is pending ends without an answer: its sending has failed, or the peer leaves.
abbrev is_dropped : SeedReactor → Text → NoteEvent → Bool
is_dropped r id (taken_back k now) = text_eq k id && is_pending r id
is_dropped r id (leaves k now) = text_eq k id && is_pending r id
is_dropped r id _ = false

-- A request of ours is pending until its answer comes, and an answer is taken in only then.
pending-note :
    (peers : Peers) (r : SeedReactor) (id : Text) (e : NoteEvent)
    → Distinct r.notes
    → count_if (is_taken_in peers r id e)
        + count_if (is_dropped r id e)
        + count_if (is_pending (note peers r e).0 id)
      ≤ count_if (is_pending r id) + count_if (is_our_request id e)
unfolding note may_serve note_request forget_request answers_our_request
pending-note peers r id (asks_us k u) d = ground (
  arith,
  text_eq_iff k id,
  notes_of-set_notes r k id (notes_of r k),
  notes_of-set_notes r k id (record (notes_of r k) { served = u }),
)
pending-note peers r id (asked k u) d =
    let old = record r { notes = forget_old r u r.notes } in
    ground (
      arith,
      text_eq_iff k id,
      notes_of-forget_old r u id d,
      notes_of-set_notes old k id (record (notes_of old k) { asked = u }),
    )
pending-note peers r id (taken_back k u) d = elim (Option-cases (lookup k r.notes)) [
  | inl e ↦ rw (e, forget_request) (ground (arith, text_eq_iff k id, notes_of-absent r k e))
  | inr (n, e) ↦ ground (
    arith,
    text_eq_iff k id,
    notes_of-set_notes r k id (record n { asked = 0 }),
    notes_of-found r k e,
  )
]
pending-note peers r id (answers k u) d = elim (Option-cases (lookup k r.notes)) [
  | inl e ↦ ground arith
  | inr (n, e) ↦ ground (
    arith,
    text_eq_iff k id,
    notes_of-set_notes r k id (record n { asked = 0 }),
    notes_of-found r k e,
  )
]
pending-note peers r id (leaves k u) d = ground (arith, notes_of-remove_peer r k id)
pending-note peers r id (explores k count u) d =
    let explored = (exploration_allowance r peers k u).0 in
    ground (arith, exploration-clocks r peers k id u, note_exploration-clocks explored k id count u)

-- How many of the peer's answers are taken in; how many requests to it are noted, which `request` does
-- before it sends; and how many of these are dropped before an answer, since their sending failed or the peer
-- left.
unfoldable pub taken_in : Peers → Text → SeedReactor → List NoteEvent → ℕ
taken_in peers id r [] = 0
taken_in peers id r (e ∷ es) =
    count_if (is_taken_in peers r id e) + taken_in peers id (note peers r e).0 es

unfoldable pub dropped_requests : Peers → Text → SeedReactor → List NoteEvent → ℕ
dropped_requests peers id r [] = 0
dropped_requests peers id r (e ∷ es) =
    count_if (is_dropped r id e) + dropped_requests peers id (note peers r e).0 es

abbrev pub requests : Text → List NoteEvent → ℕ
requests id [] = 0
requests id (e ∷ es) = count_if (is_our_request id e) + requests id es

-- Over any sequence of events, peers that leave and requests whose sending fails included: the answers of a peer
-- that are taken in, together with the requests to it that are dropped before an answer, are no more than
-- the requests to it that are noted, and one more if a request is pending at the start.
pub taken_in-requests :
    (peers : Peers) (id : Text) (r : SeedReactor) (es : List NoteEvent)
    → Distinct r.notes
    → taken_in peers id r es + dropped_requests peers id r es
      ≤ count_if (is_pending r id) + requests id es
unfolding taken_in dropped_requests
taken_in-requests peers id r [] d = omega arith
taken_in-requests peers id r (e ∷ es) d = omega (
  arith,
  pending-note peers r id e d,
  taken_in-requests peers id (note peers r e).0 es (note-Distinct peers r e d),
)
