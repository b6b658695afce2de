-- ===== src/Reactor/Notes/Table.antt =====
-- The table of notes of internal/tenderseed/seedreactortm2.go: what an operation makes of the notes of
-- each peer.
use tenderseed.Common.{
  ◌∙◌, ℕ, ◌+◌, List, [], ◌∷◌, ◌≡◌, refl, inl, inr, none, some, ◌==◌, if◌then◌else◌, arith, Text,
  text_equality, text_eq, text_eq_iff, Bool-cases, Option-cases,
}
use tenderseed.Common.Map.{lookup, delete, lookup-delete, Distinct, insert-Distinct, lookup-insert}
use tenderseed.Reactor.{SeedReactor, Peers, PeerNotes, no_notes}
use tenderseed.Reactor.Notes.{
  remove_peer, notes_of, set_notes, is_forgotten, forget_old, exploration_allowance,
  note_exploration,
}

pub notes_of-found :
    (r : SeedReactor) (k : Text) {n : PeerNotes} → lookup k r.notes ≡ some n → notes_of r k ≡ n
unfolding notes_of
notes_of-found r k e = rw (e, notes_of) refl

pub lookup-forget_old :
    (r : SeedReactor) (now : ℕ) (id : Text) (m : List (Text × PeerNotes))
    → Distinct m
    → lookup id (forget_old r now m)
      ≡ elim (lookup id m) [ none ↦ none | some n ↦ if is_forgotten r now n then none else some n ]
unfolding forget_old
lookup-forget_old r now id [] d = refl
lookup-forget_old r now id ((k, n) ∷ m) d =
    ground (arith, lookup-forget_old r now id m, text_eq_iff k id)

pub forget_old-Distinct :
    (r : SeedReactor) (now : ℕ) (m : List (Text × PeerNotes))
    → Distinct m
    → Distinct (forget_old r now m)
unfolding forget_old
forget_old-Distinct r now [] d = d
forget_old-Distinct r now ((k, n) ∷ m) d = elim (Bool-cases (is_forgotten r now n)) [
  | inl e ↦ rw (e, forget_old) (forget_old-Distinct r now m d.1)
  | inr e ↦
      rw (e, forget_old)
        ((ground (arith, lookup-forget_old r now k m d.1)), forget_old-Distinct r now m d.1)
]

pub notes_of-set_notes :
    (r : SeedReactor) (k id : Text) (n : PeerNotes)
    → notes_of (set_notes r k n) id ≡ (if text_eq k id then n else notes_of r id)
unfolding notes_of
notes_of-set_notes r k id n = ground (arith, lookup-insert k id n r.notes)

pub notes_of-forget_old :
    (r : SeedReactor) (now : ℕ) (id : Text)
    → Distinct r.notes
    → notes_of (record r { notes = forget_old r now r.notes }) id
      ≡ (if is_forgotten r now (notes_of r id) then no_notes else notes_of r id)
unfolding notes_of
notes_of-forget_old r now id d = ground (arith, lookup-forget_old r now id r.notes d)

pub exploration-Distinct :
    (r : SeedReactor) (peers : Peers) (id : Text) (now : ℕ)
    → Distinct r.notes
    → Distinct (exploration_allowance r peers id now).0.notes
unfolding exploration_allowance
exploration-Distinct r peers id now d = insert-Distinct id _ r.notes d

pub note_exploration-Distinct :
    (r : SeedReactor) (id : Text) (count now : ℕ)
    → Distinct r.notes
    → Distinct (note_exploration r id count now).notes
unfolding note_exploration
note_exploration-Distinct r id count now d = elim (Bool-cases (count == 0)) [
  | inl z ↦ rw (z, note_exploration) d
  | inr z ↦ elim (Option-cases (lookup id r.notes)) [
    | inl e ↦
        rw (z, e, note_exploration)
          (insert-Distinct id (record no_notes { since = now; learned = count }) r.notes d)
    | inr (n, e) ↦
        rw (z, e, note_exploration)
          (insert-Distinct id (record n { learned = n.learned + count }) r.notes d)
  ]
]

-- An exploration leaves the two clocks of the exchange alone.
pub notes_of-absent :
    (r : SeedReactor) (id : Text) → lookup id r.notes ≡ none → notes_of r id ≡ no_notes
unfolding notes_of
notes_of-absent r id h = rw (h, notes_of) refl

-- A peer that leaves loses its notes, and no other does.
pub notes_of-remove_peer :
    (r : SeedReactor) (k id : Text)
    → notes_of (remove_peer r k) id ≡ (if text_eq k id then no_notes else notes_of r id)
unfolding notes_of remove_peer
notes_of-remove_peer r k id = elim (Bool-cases (text_eq k id)) [
  | inl e ↦
      let gone : lookup id (delete k r.notes) ≡ none = lookup-delete k id r.notes ∙ rw e refl in
      rw (gone, e, notes_of) refl
  | inr e ↦
      let kept : lookup id (delete k r.notes) ≡ lookup id r.notes =
        lookup-delete k id r.notes ∙ rw e refl in
      rw (kept, e, notes_of) refl
]

pub exploration-clocks :
    (r : SeedReactor) (peers : Peers) (k id : Text) (now : ℕ)
    → ((notes_of (exploration_allowance r peers k now).0 id).served ≡ (notes_of r id).served)
      × ((notes_of (exploration_allowance r peers k now).0 id).asked ≡ (notes_of r id).asked)
unfolding exploration_allowance
exploration-clocks r peers k id now =
    let found = notes_of r k in
    ground (
      arith,
      text_eq_iff k id,
      notes_of-set_notes r k id (record found { since = now; learned = 0 }),
      notes_of-set_notes r k id found,
    )

pub note_exploration-clocks :
    (r : SeedReactor) (k id : Text) (count now : ℕ)
    → ((notes_of (note_exploration r k count now) id).served ≡ (notes_of r id).served)
      × ((notes_of (note_exploration r k count now) id).asked ≡ (notes_of r id).asked)
unfolding note_exploration notes_of
note_exploration-clocks r k id count now = elim (Option-cases (lookup k r.notes)) [
  | inl e ↦ ground (
    arith,
    text_eq_iff k id,
    lookup-insert k id (record no_notes { since = now; learned = count }) r.notes,
  )
  | inr (n, e) ↦ ground (
    arith,
    text_eq_iff k id,
    lookup-insert k id (record n { learned = n.learned + count }) r.notes,
  )
]

pub exploration-book :
    (r : SeedReactor) (peers : Peers) (id : Text) (now : ℕ)
    → (exploration_allowance r peers id now).0.book ≡ r.book
unfolding exploration_allowance
exploration-book r peers id now = ground arith

pub note_exploration-book :
    (r : SeedReactor) (id : Text) (n now : ℕ) → (note_exploration r id n now).book ≡ r.book
unfolding note_exploration
note_exploration-book r id n now = ground arith
