-- ===== src/Reactor/Notes/Events.antt =====
-- The events in the notes of internal/tenderseed/seedreactortm2.go, and what each does to the two clocks
-- of a peer: when it was served, and when it was asked.
use tenderseed.Common.{
  ℕ, ◌+◌, ◌≤◌, ◌<◌, ◌≡◌, refl, sym, ◌⊎◌, inl, inr, Bool, true, false, not, ◌&&◌, ltb, arith, Text,
  text_equality, text_eq, text_eq_iff, Bool-cases, Option-cases, true≢false,
}
use tenderseed.Common.Map.{lookup, Distinct, insert-Distinct, delete-Distinct}
use tenderseed.Common.Time.{is_zero, elapsed}
use tenderseed.Reactor.{SeedReactor, Peers, answer_window, min_serve_interval}
use tenderseed.Reactor.Notes.{
  remove_peer, notes_of, forget_old, note_request, forget_request, answers_our_request, may_serve,
  exploration_allowance, note_exploration,
}
use tenderseed.Reactor.Notes.Table.{
  notes_of-found, notes_of-remove_peer, forget_old-Distinct, notes_of-set_notes,
  notes_of-forget_old, exploration-Distinct, note_exploration-Distinct, exploration-clocks,
  note_exploration-clocks,
}

-- What happens to the notes, each event with its time: a request of a peer, a request of ours that is noted, one
-- whose sending has failed, an answer, what an answer brought, and a peer that leaves.
pub data NoteEvent : Type 0 where
  asks_us asked taken_back answers leaves : Text → ℕ → NoteEvent
  explores : Text → ℕ → ℕ → NoteEvent

abbrev pub time_of : NoteEvent → ℕ
time_of (asks_us id now) = now
time_of (asked id now) = now
time_of (taken_back id now) = now
time_of (answers id now) = now
time_of (leaves id now) = now
time_of (explores id count now) = now

-- The notes after an event, and whether it was let through.
unfoldable pub note : Peers → SeedReactor → NoteEvent → SeedReactor × Bool
note peers r (asks_us id now) = may_serve r id now
note peers r (asked id now) = (note_request r id now, true)
note peers r (taken_back id now) = (forget_request r id, true)
note peers r (answers id now) = answers_our_request r id now
note peers r (leaves id now) = (remove_peer r id, true)
note peers r (explores id count now) =
    (note_exploration (exploration_allowance r peers id now).0 id count now, true)

pub note-Distinct :
    (peers : Peers) (r : SeedReactor) (e : NoteEvent)
    → Distinct r.notes
    → Distinct (note peers r e).0.notes
unfolding note may_serve note_request forget_request answers_our_request note_exploration
    exploration_allowance remove_peer
note-Distinct peers r (asks_us id now) d =
    let n = notes_of r id in
    elim (Bool-cases (not (is_zero n.served) && ltb (elapsed now n.served) min_serve_interval)) [
      | inl e ↦ rw (e, may_serve) (insert-Distinct id n r.notes d)
      | inr e ↦ rw (e, may_serve) (insert-Distinct id (record n { served = now }) r.notes d)
    ]
note-Distinct peers r (asked id now) d =
    insert-Distinct id
      (record (notes_of (record r { notes = forget_old r now r.notes }) id) { asked = now })
      (forget_old r now r.notes) (forget_old-Distinct r now r.notes d)
note-Distinct peers r (taken_back id now) d = elim (Option-cases (lookup id r.notes)) [
  | inl e ↦ rw (e, forget_request) d
  | inr (n, e) ↦ rw (e, forget_request) (insert-Distinct id (record n { asked = 0 }) r.notes d)
]
note-Distinct peers r (answers id now) d = elim (Option-cases (lookup id r.notes)) [
  | inl e ↦ rw (e, answers_our_request) d
  | inr (n, e) ↦ elim (Bool-cases (is_zero n.asked)) [
    | inl z ↦ rw (e, z, answers_our_request) d
    | inr z ↦ rw (e, z, answers_our_request) (insert-Distinct id (record n { asked = 0 }) r.notes d)
  ]
]
note-Distinct peers r (leaves id now) d = delete-Distinct id r.notes d
note-Distinct peers r (explores id count now) d =
    note_exploration-Distinct (exploration_allowance r peers id now).0 id count now
      (exploration-Distinct r peers id now d)

abbrev pub served_at : SeedReactor → Text → ℕ
served_at r id = (notes_of r id).served

abbrev pub is_pending : SeedReactor → Text → Bool
is_pending r id = not (is_zero (notes_of r id).asked)

-- The last answer to a peer is in its notes, or is more than a minute old.
abbrev pub Since : Text → ℕ → ℕ → SeedReactor → Type 0
Since id t now r = (served_at r id ≡ t) ⊎ (t + answer_window < now)

-- The event is not that the peer leaves.
abbrev pub Stays : Text → NoteEvent → Type 0
Stays id (leaves k now) = text_eq k id ≡ false
Stays id _ = Unit

-- The event is a request of the peer that is let through.
abbrev pub is_grant : Peers → SeedReactor → Text → NoteEvent → Bool
is_grant peers r id (asks_us k now) = text_eq k id && (note peers r (asks_us k now)).1
is_grant peers r id _ = false

pub served-note :
    (peers : Peers) (r : SeedReactor) (id : Text) (e : NoteEvent)
    → Distinct r.notes
    → Stays id e
    → is_grant peers r id e ≡ false
    → (served_at (note peers r e).0 id ≡ served_at r id)
      ⊎ (answer_window < elapsed (time_of e) (served_at r id))
unfolding note may_serve note_request forget_request answers_our_request note_exploration
    exploration_allowance
served-note peers r id (asks_us k u) d stays g = ground (
  arith,
  text_eq_iff k id,
  notes_of-set_notes r k id (notes_of r k),
  notes_of-set_notes r k id (record (notes_of r k) { served = u }),
)
served-note peers r id (asked k u) d stays g =
    let old = record r { notes = forget_old r u r.notes } in
    ground (
      arith,
      text_eq_iff k id,
      notes_of-forget_old r u id d,
      notes_of-forget_old r u k d,
      notes_of-set_notes old k id (record (notes_of old k) { asked = u }),
    )
served-note peers r id (taken_back k u) d stays g = elim (Option-cases (lookup k r.notes)) [
  | inl e ↦ rw (e, forget_request) (inl refl)
  | inr (n, e) ↦ ground (
    arith,
    text_eq_iff k id,
    notes_of-set_notes r k id (record n { asked = 0 }),
    notes_of-found r k e,
  )
]
served-note peers r id (answers k u) d stays g = elim (Option-cases (lookup k r.notes)) [
  | inl e ↦ ground arith
  | inr (n, e) ↦ ground (
    arith,
    text_eq_iff k id,
    notes_of-set_notes r k id (record n { asked = 0 }),
    notes_of-found r k e,
  )
]
served-note peers r id (leaves k u) d stays g = ground (arith, notes_of-remove_peer r k id)
served-note peers r id (explores k count u) d stays g =
    let explored = (exploration_allowance r peers k u).0 in
    ground (arith, exploration-clocks r peers k id u, note_exploration-clocks explored k id count u)

pub served-grant :
    (peers : Peers) (r : SeedReactor) (id : Text) (e : NoteEvent)
    → is_grant peers r id e ≡ true
    → (served_at (note peers r e).0 id ≡ time_of e)
      × ((served_at r id ≡ 0) ⊎ (min_serve_interval ≤ elapsed (time_of e) (served_at r id)))
unfolding note may_serve
served-grant peers r id (asks_us k u) g = ground (
  arith,
  text_eq_iff k id,
  notes_of-set_notes r k id (notes_of r k),
  notes_of-set_notes r k id (record (notes_of r k) { served = u }),
)
served-grant peers r id (asked k u) g = absurd (true≢false (sym g))
served-grant peers r id (taken_back k u) g = absurd (true≢false (sym g))
served-grant peers r id (answers k u) g = absurd (true≢false (sym g))
served-grant peers r id (leaves k u) g = absurd (true≢false (sym g))
served-grant peers r id (explores k count u) g = absurd (true≢false (sym g))
