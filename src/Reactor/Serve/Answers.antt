-- ===== src/Reactor/Serve/Answers.antt =====
-- What `serve` of internal/tenderseed/seedreactortm2.go may answer with, and how it ends.
use mathlib.Core.List.{exists_of_mem-map}
use mathlib.Core.List.Perm
use mathlib.Core.Logic.{∥∥₁_map}
use tenderseed.Common.{
  ◌<◌, ◌⊎◌, ℕ, ◌+◌, ◌≤◌, List, [], ◌∷◌, ◌≡◌, Bool, true, false, not, ◌&&◌, some, inl, inr, ltb,
  if◌then◌else◌, arith, Text, text_eq, text_eq_iff, length, select, length-take, take-subset,
  mem-select, Mem, Bool-cases, List-cases,
}
use tenderseed.Common.Sorting.{Sorter}
use tenderseed.Address.{NetAddress, Net}
use tenderseed.Book.{BookRecord, SeedBook}
use tenderseed.Book.Queries.{
  records, cut, collect_records, collect_sorted, fresh_batch, is_fresh, newer_proof,
}
use tenderseed.Reactor.{
  SeedReactor, Effect, observe_many, sends, stop_peer, stage_serve, response,
  max_addresses_per_answer,
}
use tenderseed.Reactor.Budget.{freshness, servable_ceiling}
use tenderseed.Reactor.Spread.{Random, shuffle_addresses, spread_by_group}
use tenderseed.Reactor.Spread.Shuffle.{shuffle_addresses-perm}
use tenderseed.Reactor.Spread.RoundRobin.{spread_by_group-perm}
use tenderseed.Reactor.Serve.{acceptable, hang_up, servable, selection, serve}

-- Every address of a collection is one of a record that passes its test.
pub collect_sorted-source :
    (sorter : Sorter BookRecord) (keep : BookRecord → Bool) (less : BookRecord → BookRecord → Bool)
    (limit : ℕ) (b : SeedBook) {a : NetAddress}
    → Mem a (collect_sorted sorter keep less limit b)
    → ∥ ((rec : BookRecord) × Mem rec (records b) × (keep rec ≡ true) × (rec.addr ≡ a)) ∥₁
unfolding collect_sorted collect_records cut
collect_sorted-source sorter keep less limit b m =
    ∥∥₁_map (exists_of_mem-map m)
      (λ (rec, found, e). let (held, kept) = from_pool rec found in (rec, held, kept, e))
  where
    pool : List BookRecord
    pool = select keep (records b)

    from_pool :
        (rec : BookRecord)
        → Mem rec (collect_records sorter keep less limit b)
        → Mem rec (records b) × (keep rec ≡ true)
    from_pool rec found = mem-select keep (records b) (
        Perm.subset (sorter.sort-perm less pool) rec
          (elim (Bool-cases (ltb 0 limit && ltb limit (length (sorter.sort less pool)))) [
            | inl e ↦ take-subset limit (sorter.sort less pool) (rw (e, collect_records) at found)
            | inr e ↦ rw (e, collect_records) at found
          ]))

-- Why an address may be in an answer: a record of the book is fresh, the address passes the rule, and
-- it is not the requester's own.
abbrev pub MayAnswer : Net → SeedReactor → Text → ℕ → NetAddress → Type 0
MayAnswer net r requester now a =
    ∥ (
      (rec : BookRecord) × Mem rec (records r.book)
      × (is_fresh (freshness r) now rec ≡ true)
      × (rec.addr ≡ a)) ∥₁
    × (acceptable net r (some a) ≡ true)
    × (text_eq a.id requester ≡ false)

module _ (net : Net) (sorter : Sorter BookRecord) where
  selection-subset :
      (r : SeedReactor) (rand : Random) (requester : Text) (now : ℕ) {a : NetAddress}
      → Mem a (selection net sorter r rand requester now)
      → Mem a (servable net sorter r requester now)
  unfolding selection
  selection-subset r rand requester now {a} m =
      let pool = servable net sorter r requester now in
      let spread = spread_by_group (shuffle_addresses rand pool) in
      let same =
        Perm.trans (spread_by_group-perm (shuffle_addresses rand pool))
          (shuffle_addresses-perm rand pool) in
      Perm.subset same a (elim (Bool-cases (ltb max_addresses_per_answer (length spread))) [
        | inl e ↦ take-subset max_addresses_per_answer spread (rw (e, selection) at m)
        | inr e ↦ rw (e, selection) at m
      ])

  -- An answer has at most thirty addresses, and each is the address of a record of the book whose
  -- proof is fresh, passes the rule, and is not the requester's own.
  pub selection_lem :
      (r : SeedReactor) (rand : Random) (requester : Text) (now : ℕ)
      → (length (selection net sorter r rand requester now) ≤ max_addresses_per_answer)
        × ((a : NetAddress)
            → Mem a (selection net sorter r rand requester now)
            → MayAnswer net r requester now a)
  unfolding selection servable fresh_batch
  selection_lem r rand requester now = (
    short,
    λ a m.
        let (batch, passes) =
          mem-select (λ addr. not (text_eq addr.id requester) && acceptable net r (some addr))
            (fresh_batch sorter r.book (freshness r) (servable_ceiling r) now)
            (selection-subset r rand requester now m) in
        (
          collect_sorted-source sorter (is_fresh (freshness r) now) newer_proof (servable_ceiling r)
              r.book batch,
          ground arith,
          ground arith,
        ),
  )
    where
      spread : List NetAddress
      spread = spread_by_group (shuffle_addresses rand (servable net sorter r requester now))

      short : length (selection net sorter r rand requester now) ≤ max_addresses_per_answer
      short = elim (Bool-cases (ltb max_addresses_per_answer (length spread))) [
        | inl e ↦ rw (e, selection) (omega (arith, length-take max_addresses_per_answer spread))
        | inr e ↦ rw (e, selection) (ground arith)
      ]

-- How many counters of the serve stage go up, and how many hang-ups and empty answers there are.
abbrev pub counts_served : List Effect → ℕ
counts_served [] = 0
counts_served (observe_many outcome stage_serve count ∷ es) = count + counts_served es
counts_served (_ ∷ es) = counts_served es

abbrev pub hang_ups : Text → List Effect → ℕ
hang_ups id [] = 0
hang_ups id (stop_peer k reason ∷ es) = if text_eq k id then 1 + hang_ups id es else hang_ups id es
hang_ups id (_ ∷ es) = hang_ups id es

abbrev pub empty_answers : List Effect → ℕ
empty_answers [] = 0
empty_answers (sends k (response []) ∷ es) = 1 + empty_answers es
empty_answers (_ ∷ es) = empty_answers es

module _ (net : Net) (sorter : Sorter BookRecord) where
  -- Unless the answer cannot be encoded, a request that is served counts once at its stage, whatever
  -- comes of it; with no wait the peer is stopped exactly once; and no empty answer is ever sent.
  pub serve_lem :
      (r : SeedReactor) (rand : Random) (try_send : Bool) (id : Text) (now : ℕ)
      → let effects = (serve net sorter r rand true try_send id now).0 in
        (counts_served effects ≡ 1)
        × (empty_answers effects ≡ 0)
        × ((0 < r.wait) ⊎ (hang_ups id effects ≡ 1))
  unfolding serve hang_up
  serve_lem r rand try_send id now = elim (List-cases (selection net sorter r rand id now)) [
    | inl e ↦ rw (e, serve) (ground (arith, text_eq_iff id id))
    | inr (a, addrs, e) ↦ rw (e, serve) (ground (arith, text_eq_iff id id))
  ]
