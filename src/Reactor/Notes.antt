-- ===== src/Reactor/Notes.antt =====
-- What the reactor of internal/tenderseed/seedreactortm2.go remembers of its peers. Every function here
-- holds `notesMtx` while it runs.
pub mod Table
pub mod Events
pub mod Limits
use tenderseed.Common.{
  ℕ, ◌+◌, ◌-◌, List, [], ◌∷◌, Bool, true, false, not, ◌&&◌, ◌||◌, Option, none, some, ltb, leb,
  ◌==◌, if◌then◌else◌, Text, text_equality,
}
use tenderseed.Common.Map.{lookup, insert, delete}
use tenderseed.Common.Time.{is_zero, elapsed}
use tenderseed.Reactor.{SeedReactor, Peers, PeerNotes, no_notes, answer_window, min_serve_interval}
use tenderseed.Reactor.Budget.{exploration_window, exploration_share}

-- The notes of a peer, new ones if there are none.
unfoldable pub notes_of : SeedReactor → Text → PeerNotes
notes_of r id = elim (lookup id r.notes) [ none ↦ no_notes | some notes ↦ notes ]

abbrev pub set_notes : SeedReactor → Text → PeerNotes → SeedReactor
set_notes r id notes = record r { notes = insert id notes r.notes }

unfoldable pub remove_peer : SeedReactor → Text → SeedReactor
remove_peer r id = record r { notes = delete id r.notes }

unfoldable pub is_forgotten : SeedReactor → ℕ → PeerNotes → Bool
is_forgotten r now notes =
    ltb answer_window (elapsed now notes.asked)
    && ltb answer_window (elapsed now notes.served)
    && ltb (exploration_window r) (elapsed now notes.since)

-- The loop of `noteRequest` over the table.
unfoldable pub forget_old : SeedReactor → ℕ → List (Text × PeerNotes) → List (Text × PeerNotes)
unfolding is_forgotten
forget_old r now [] = []
forget_old r now ((id, notes) ∷ rest) =
    if is_forgotten r now notes then forget_old r now rest else (id, notes) ∷ forget_old r now rest

unfoldable pub note_request : SeedReactor → Text → ℕ → SeedReactor
unfolding forget_old notes_of
note_request r id now =
    let kept = record r { notes = forget_old r now r.notes } in
    set_notes kept id (record (notes_of kept id) { asked = now })

unfoldable pub forget_request : SeedReactor → Text → SeedReactor
forget_request r id = elim (lookup id r.notes) [
  | none ↦ r
  | some notes ↦ set_notes r id (record notes { asked = 0 })
]

-- The request is consumed whether or not the answer is in time.
unfoldable pub answers_our_request : SeedReactor → Text → ℕ → SeedReactor × Bool
answers_our_request r id now = elim (lookup id r.notes) [
  | none ↦ (r, false)
  | some notes ↦ if is_zero notes.asked then (r, false) else (
    set_notes r id (record notes { asked = 0 }),
    leb (elapsed now notes.asked) answer_window,
  )
]

-- The notes are created on the way, also when the answer is no.
unfoldable pub may_serve : SeedReactor → Text → ℕ → SeedReactor × Bool
unfolding notes_of
may_serve r id now =
    let notes = notes_of r id in
    if not (is_zero notes.served) && ltb (elapsed now notes.served) min_serve_interval
    then (set_notes r id notes, false)
    else (set_notes r id (record notes { served = now }), true)

unfoldable pub exploration_allowance : SeedReactor → Peers → Text → ℕ → SeedReactor × ℕ
unfolding notes_of
exploration_allowance r peers id now =
    let found = notes_of r id in
    let notes =
      if is_zero found.since || leb (exploration_window r) (elapsed now found.since)
      then record found { since = now; learned = 0 }
      else found in
    (
      set_notes r id notes,
      if ltb notes.learned (exploration_share r peers)
          then exploration_share r peers - notes.learned
          else 0,
    )

unfoldable pub note_exploration : SeedReactor → Text → ℕ → ℕ → SeedReactor
note_exploration r id count now = if count == 0 then r else elim (lookup id r.notes) [
  | none ↦ set_notes r id (record no_notes { since = now; learned = count })
  | some notes ↦ set_notes r id (record notes { learned = notes.learned + count })
]
