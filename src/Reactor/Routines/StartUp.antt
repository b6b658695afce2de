-- ===== src/Reactor/Routines/StartUp.antt =====
-- What the hand over of `OnStart` of internal/tenderseed/seedreactortm2.go leaves to the first pass of the
-- sweep.
use mathlib.Core.List.{mem-append, mem-cons, mem-cons_of_mem, Mem-prop, append-nil, append_assoc}
use mathlib.Core.Logic.{∥∥₁_elim, ∥∥₁_prop, ∥∥₁_map}
use mathlib.Core.Logic.Or
use mathlib.Core.HLevel.{⊥_prop}
use tenderseed.Common.{
  ◌⊎◌, ◌<◌, ◌≢◌, ℕ, List, [], ◌∷◌, ◌++◌, ◌≡◌, refl, ◌∙◌, ap, sym, subst, true, false, inl, inr,
  arith, length, take-subset, Mem, Bool-cases, ◌==◌, if◌then◌else◌, Text, text_equality, some-path,
}
use tenderseed.Common.Map.{lookup}
use tenderseed.Common.Sorting.{Sorter}
use tenderseed.Address.{NetAddress, Net}
use tenderseed.Book.{BookRecord, SeedBook}
use tenderseed.Book.Queries.{
  records, stale_proven_batch, stale_unproven_batch, fresh_batch, is_fresh, is_stale_proven,
  is_unproven, older_news, newer_proof,
}
use tenderseed.Book.Invariant.{IsValid}
use tenderseed.Book.Eviction.{lookup-values}
use tenderseed.Reactor.{SeedReactor, Peers, Effect, dial_peers}
use tenderseed.Reactor.Budget.{sweep_budget, renewal_window, freshness}
use tenderseed.Reactor.{Outcome, Stage}
use tenderseed.Reactor.Serve.{observe_count}
use tenderseed.Reactor.Serve.Answers.{collect_sorted-source}
use tenderseed.Reactor.Sweep.{credit, dialable, plan, handed_over, sweep_once, on_start}

-- The addresses that effects hand to the switch.
abbrev pub dialled : List Effect → List NetAddress
dialled [] = []
dialled (dial_peers addrs ∷ es) = addrs ++ dialled es
dialled (_ ∷ es) = dialled es

dialled-append : (xs ys : List Effect) → dialled (xs ++ ys) ≡ dialled xs ++ dialled ys
dialled-append [] ys = refl
dialled-append (dial_peers addrs ∷ xs) ys =
    ap (λ zs. addrs ++ zs) (dialled-append xs ys)
    ∙ sym (append_assoc addrs (dialled xs) (dialled ys))
dialled-append (Effect.observe_many o s n ∷ xs) ys = dialled-append xs ys
dialled-append (Effect.set_book k f ∷ xs) ys = dialled-append xs ys
dialled-append (Effect.sends id m ∷ xs) ys = dialled-append xs ys
dialled-append (Effect.flush_stop id ∷ xs) ys = dialled-append xs ys
dialled-append (Effect.stop_peer id r ∷ xs) ys = dialled-append xs ys

dialled-observe : (o : Outcome) (s : Stage) (n : ℕ) → dialled (observe_count o s n) ≡ []
dialled-observe o s n = elim (Bool-cases (n == 0)) [ inl e ↦ rw e refl | inr e ↦ rw e refl ]

-- One hand over, unless it is empty.
dialled-handed :
    (addrs : List NetAddress)
    → dialled (if length addrs == 0 then [] else dial_peers addrs ∷ []) ≡ addrs
dialled-handed [] = refl
dialled-handed (a ∷ addrs) =
    let some_left : (length (a ∷ addrs) == 0) ≡ false = ground arith in
    rw some_left (append-nil (a ∷ addrs))

module _ (net : Net) (peers : Peers) where
  dialable-subset :
      (b : SeedBook) (addrs : List NetAddress) (now : ℕ) {a : NetAddress}
      → Mem a (dialable net peers b addrs now).eligible
      → Mem a addrs
  unfolding dialable
  dialable-subset b [] now m = m
  dialable-subset b (addr ∷ addrs) now m = elim (Bool-cases (peers.has addr.id)) [
    | inl e ↦
        mem-cons_of_mem addr
          (dialable-subset (credit net peers b addr now) addrs now (rw (e, dialable) at m))
    | inr e ↦
        Or.elim Mem-prop (mem-cons.0 (rw (e, dialable) at m)) (λ q. mem-cons.1 (Or.inl q))
          (λ t. mem-cons_of_mem addr (dialable-subset b addrs now t))
  ]

  -- With no peer connected there is nobody to credit.
  dialable-book :
      (b : SeedBook) (addrs : List NetAddress) (now : ℕ)
      → ((id : Text) → peers.has id ≡ false)
      → (dialable net peers b addrs now).book ≡ b
  unfolding dialable
  dialable-book b [] now alone = refl
  dialable-book b (addr ∷ addrs) now alone =
      rw (alone addr.id, dialable) (dialable-book b addrs now alone)

  module _ (sorter : Sorter BookRecord) where
    -- The records that a pass may try when no peer is connected.
    abbrev IsDue : SeedReactor → ℕ → BookRecord → Type 0
    IsDue r now rec = (is_stale_proven (renewal_window r) now rec ≡ true) ⊎ (is_unproven rec ≡ true)

    abbrev DueRecord : SeedReactor → ℕ → NetAddress → Type 0
    DueRecord r now a =
        (rec : BookRecord) × Mem rec (records r.book) × IsDue r now rec × (rec.addr ≡ a)

    dialled-sweep_once :
        (r : SeedReactor) (now : ℕ)
        → dialled (sweep_once net sorter r peers now).1
          ≡ handed_over net sorter (plan net sorter r peers now)
    unfolding sweep_once
    dialled-sweep_once r now =
        simp (dialled-append, dialled-observe, dialled-handed, append-nil) refl

    swept-due :
        (r : SeedReactor) (now : ℕ) {a : NetAddress}
        → ((id : Text) → peers.has id ≡ false)
        → Mem a (dialled (sweep_once net sorter r peers now).1)
        → ∥ DueRecord r now a ∥₁
    unfolding sweep_once plan handed_over stale_proven_batch stale_unproven_batch
    swept-due r now alone m =
        let p = plan net sorter r peers now in
        Or.elim ∥∥₁_prop (mem-append.0 (rw (dialled-sweep_once r now) at m))
          (λ t.
            ∥∥₁_map
              (collect_sorted-source sorter (is_stale_proven (renewal_window r) now) older_news 0
                r.book
                (dialable-subset r.book (stale_proven_batch sorter r.book (renewal_window r) 0 now)
                  now (take-subset p.renewed p.renewal.eligible t)))
              (λ (rec, held, stale, e). (rec, held, inl stale, e)))
          (λ t.
            ∥∥₁_map
              (collect_sorted-source sorter is_unproven older_news 0 r.book (
                rw
                  (dialable-book r.book (stale_proven_batch sorter r.book (renewal_window r) 0 now)
                    now alone)
                  at
                  (dialable-subset p.renewal.book (stale_unproven_batch sorter p.renewal.book 0) now
                    (take-subset p.explored p.exploration.eligible t))))
              (λ (rec, held, never, e). (rec, held, inr never, e)))

    known-fresh :
        (r : SeedReactor) (now : ℕ) {a : NetAddress}
        → 0 < r.check_period
        → Mem a (dialled (on_start net sorter r peers now))
        → Mem a (fresh_batch sorter r.book (renewal_window r) (sweep_budget r peers) now)
    unfolding on_start
    known-fresh r now h m =
        let on : (r.check_period == 0) ≡ false = ground arith in
        rw
          (
            on,
            dialled-handed
                (fresh_batch sorter r.book (renewal_window r) (sweep_budget r peers) now),
          )
          at m

    fresh-not_due :
        (r : SeedReactor) (now : ℕ) (rec : BookRecord)
        → 0 < r.check_period
        → is_fresh (renewal_window r) now rec ≡ true
        → IsDue r now rec
        → ⊥
    unfolding is_fresh is_stale_proven is_unproven renewal_window freshness
    fresh-not_due r now rec on fresh due = ground arith

    -- At the start, with no peer connected yet, what `OnStart` hands to the switch and what the first pass of
    -- the sweep hands to it at the same moment are apart: no address of a valid book is handed over twice.
    pub on_start-apart :
        (r : SeedReactor) (now : ℕ) {a b : NetAddress}
        → IsValid net r.book
        → 0 < r.check_period
        → ((id : Text) → peers.has id ≡ false)
        → Mem a (dialled (on_start net sorter r peers now))
        → Mem b (dialled (sweep_once net sorter r peers now).1)
        → a ≢ b
    unfolding fresh_batch
    on_start-apart r now {a} {b} v on alone first second same =
        ∥∥₁_elim (swept-due r now alone second) ⊥_prop (λ (rec, held, due, e).
          ∥∥₁_elim
            (collect_sorted-source sorter (is_fresh (renewal_window r) now) newer_proof
              (sweep_budget r peers) r.book (known-fresh r now on first))
            ⊥_prop
            (λ (rec', held', fresh, e').
              let found = lookup-values net r.book.strict r.book.peers v.distinct v.held held in
              let found' = lookup-values net r.book.strict r.book.peers v.distinct v.held held' in
              let one : rec ≡ rec' = some-path (
                sym found
                ∙ ap (λ (x : NetAddress). lookup (net.to_string x) r.book.peers)
                    (e ∙ sym same ∙ sym e')
                ∙ found') in
              fresh-not_due r now rec' on fresh (subst (IsDue r now) one due)))
