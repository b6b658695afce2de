-- ===== src/Reactor/Learn/Bounds.antt =====
-- What `learn` of internal/tenderseed/seedreactortm2.go takes in.
use tenderseed.Common.{
  leb, if◌then◌else◌, ℕ, ◌+◌, ◌≤◌, List, [], ◌∷◌, ◌++◌, map, ◌≡◌, refl, true, not, ◌||◌, Option,
  none, some, inl, inr, ◌==◌, arith, Text, text_equality, length, length-append, All, Bool-cases,
}
use tenderseed.Common.Sorting.{Sorter}
use tenderseed.Address.{NetAddress, Net}
use tenderseed.Common.Time.{is_zero, elapsed}
use tenderseed.Book.{BookRecord, SeedBook}
use tenderseed.Book.Queries.{knows}
use tenderseed.Book.Invariant.{IsValid, step-IsValid, adds, step}
use tenderseed.Reactor.{SeedReactor, Peers, max_addresses_learned}
use tenderseed.Reactor.Budget.{exploration_window}
use tenderseed.Reactor.Notes.{notes_of, exploration_allowance, note_exploration}
use tenderseed.Reactor.Notes.Table.{note_exploration-book}
use tenderseed.Reactor.Serve.{acceptable}
use tenderseed.Reactor.Learn.{Intake, take_in, take_in_each, no_intake, learn}

module _ (net : Net) where
  -- How many of the addresses the book does not know.
  abbrev pub count_new : SeedBook → List NetAddress → ℕ
  count_new b [] = 0
  count_new b (a ∷ addrs) =
      if knows net b (some a) then count_new b addrs else count_new b addrs + 1

  count_new-last :
      (b : SeedBook) (addrs : List NetAddress) (a : NetAddress)
      → count_new b (addrs ++ a ∷ []) ≡ count_new b addrs + (if knows net b (some a) then 0 else 1)
  count_new-last b [] a = ground arith
  count_new-last b (x ∷ addrs) a = ground (arith, count_new-last b addrs a)

  -- What holds of the loop's variables after `seen` addresses of the announcement.
  pub record IsIntake (r : SeedReactor) (allowance seen : ℕ) (s : Intake) : Type 0 where
    pub few : length s.kept ≤ max_addresses_learned
    pub fit : All (λ a. acceptable net r (some a) ≡ true) s.kept
    pub counted : length s.kept + s.refused ≡ seen
    pub noted : s.discovered ≡ count_new r.book s.kept
    pub allowed : s.discovered ≤ allowance

  All-last :
      (P : NetAddress → Type 0) (xs : List NetAddress) (a : NetAddress)
      → All P xs
      → P a
      → All P (xs ++ a ∷ [])
  All-last P [] a h p = (p, tt)
  All-last P (x ∷ xs) a h p = (h.0, All-last P xs a h.1 p)

  take_in-IsIntake :
      (r : SeedReactor) (allowance seen : ℕ) (s : Intake) (addr : Option NetAddress)
      → IsIntake r allowance seen s
      → IsIntake r allowance (seen + 1) (take_in net r allowance s addr)
  unfolding take_in
  take_in-IsIntake r allowance seen s none v = record {
    few = v.few;
    fit = v.fit;
    counted = omega arith;
    noted = v.noted;
    allowed = v.allowed;
  }
  take_in-IsIntake r allowance seen s (some a) v = record {
    few = ground (arith, length-append s.kept (a ∷ []));
    fit = fit;
    counted = ground (arith, length-append s.kept (a ∷ []));
    noted = ground (arith, count_new-last r.book s.kept a, v.noted);
    allowed = ground arith;
  }
    where
      fit : All (λ a. acceptable net r (some a) ≡ true) (take_in net r allowance s (some a)).kept
      fit =
          elim (Bool-cases
            (length s.kept == max_addresses_learned || not (acceptable net r (some a)))) [
              | inl e ↦ rw (e, take_in) v.fit
              | inr e ↦
                  let more =
                    All-last (λ a. acceptable net r (some a) ≡ true) s.kept a v.fit
                      (ground arith) in
                  elim (Bool-cases (not (knows net r.book (some a)))) [
                    | inr k ↦ rw (e, k, take_in) more
                    | inl k ↦ elim (Bool-cases (s.discovered == allowance)) [
                      | inl q ↦ rw (e, k, q, take_in) v.fit
                      | inr q ↦ rw (e, k, q, take_in) more
                    ]
                  ]
            ]

  take_in_each-IsIntake :
      (r : SeedReactor) (allowance seen : ℕ) (s : Intake) (addrs : List (Option NetAddress))
      → IsIntake r allowance seen s
      → IsIntake r allowance (seen + length addrs) (take_in_each net r allowance s addrs)
  unfolding take_in_each
  take_in_each-IsIntake r allowance seen s [] v = record {
    few = v.few;
    fit = v.fit;
    counted = omega arith;
    noted = v.noted;
    allowed = v.allowed;
  }
  take_in_each-IsIntake r allowance seen s (addr ∷ addrs) v =
      let rest =
        take_in_each-IsIntake r allowance (seen + 1) (take_in net r allowance s addr) addrs
          (take_in-IsIntake r allowance seen s addr v) in
      record {
        few = rest.few;
        fit = rest.fit;
        counted = omega (arith, rest.counted);
        noted = rest.noted;
        allowed = rest.allowed;
      }

  -- Of an announcement, however long, at most 250 addresses are kept, and each of them is
  -- acceptable; every other entry is counted as refused; and those of them that the book does not know are
  -- counted, and at most the allowance.
  pub take_in_each_lem :
      (r : SeedReactor) (allowance : ℕ) (addrs : List (Option NetAddress))
      → IsIntake r allowance (length addrs) (take_in_each net r allowance no_intake addrs)
  take_in_each_lem r allowance addrs =
      let whole = take_in_each-IsIntake r allowance 0 no_intake addrs (record {
        few = omega arith;
        fit = tt;
        counted = refl;
        noted = refl;
        allowed = omega arith;
      }) in
      record {
        few = whole.few;
        fit = whole.fit;
        counted = omega (arith, whole.counted);
        noted = whole.noted;
        allowed = whole.allowed;
      }

-- What the notes of a peer count in the window of a moment: nothing where a new one begins.
abbrev pub carried : SeedReactor → Text → ℕ → ℕ
carried r id now =
    let found = notes_of r id in
    if is_zero found.since || leb (exploration_window r) (elapsed now found.since)
    then 0
    else found.learned

module _ (net : Net) (sorter : Sorter BookRecord) where
  -- What `learn` keeps of an answer.
  abbrev pub kept_of : SeedReactor → Peers → Text → List (Option NetAddress) → ℕ → List NetAddress
  kept_of r peers id addrs now =
      let allowed = exploration_allowance r peers id now in
      (take_in_each net allowed.0 allowed.1 no_intake addrs).kept

  -- One peer's answer, however long and whatever it says, leaves the book valid.
  pub learn-IsValid :
      (r : SeedReactor) (peers : Peers) (id : Text) (addrs : List (Option NetAddress)) (now : ℕ)
      → IsValid net r.book
      → IsValid net (learn net sorter r peers id addrs now).0.book
  unfolding learn exploration_allowance step
  learn-IsValid r peers id addrs now v =
      let explored = exploration_allowance r peers id now in
      let s = take_in_each net explored.0 explored.1 no_intake addrs in
      let same = note_exploration-book explored.0 id s.discovered now in
      let v' : IsValid net (note_exploration explored.0 id s.discovered now).book = rw same v in
      elim (Bool-cases (length s.kept == 0)) [
        | inl e ↦ rw e v'
        | inr e ↦ rw e (step-IsValid net sorter _ (adds (map some s.kept) now) v')
      ]
