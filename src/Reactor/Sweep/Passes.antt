-- ===== src/Reactor/Sweep/Passes.antt =====
-- What a pass of the sweep of internal/tenderseed/seedreactortm2.go hands to the switch.
use mathlib.Core.List.{not-mem-nil, mem-cons}
use mathlib.Core.Bool.{Bool-set}
use mathlib.Core.Logic.Or
use tenderseed.Common.{
  ℕ, ◌+◌, List, [], ◌∷◌, ◌≡◌, ◌∙◌, ap, false, some, inl, inr, arith, length, Mem, Bool-cases,
  Option-cases,
}
use tenderseed.Common.Sorting.{Sorter}
use tenderseed.Address.{NetAddress, Net}
use tenderseed.Book.{BookRecord, SeedBook, mark_attempt}
use tenderseed.Book.Queries.{stale_proven_batch, stale_unproven_batch}
use tenderseed.Book.Invariant.{IsValid, step, step-IsValid, succeeds, attempts, drops}
use tenderseed.Reactor.{SeedReactor, Peers, max_consecutive_failures}
use tenderseed.Reactor.Budget.{renewal_window}
use tenderseed.Reactor.Sweep.{credit, dialable, mark_attempts, plan, handed_over, sweep_once}

module _ (net : Net) (peers : Peers) where
  -- Each address given is counted as connected or is left for a dial.
  dialable-length :
      (b : SeedBook) (addrs : List NetAddress) (now : ℕ)
      → length (dialable net peers b addrs now).eligible
          + (dialable net peers b addrs now).connected
        ≡ length addrs
  unfolding dialable
  dialable-length b [] now = omega arith
  dialable-length b (addr ∷ addrs) now = elim (Bool-cases (peers.has addr.id)) [
    | inl e ↦
        rw (e, dialable) (omega (arith, dialable-length (credit net peers b addr now) addrs now))
    | inr e ↦ rw (e, dialable) (omega (arith, dialable-length b addrs now))
  ]

  pub dialable-not_connected :
      (b : SeedBook) (addrs : List NetAddress) (now : ℕ) {a : NetAddress}
      → Mem a (dialable net peers b addrs now).eligible
      → peers.has a.id ≡ false
  unfolding dialable
  dialable-not_connected b [] now m = absurd (not-mem-nil m)
  dialable-not_connected b (addr ∷ addrs) now m = elim (Bool-cases (peers.has addr.id)) [
    | inl e ↦ dialable-not_connected (credit net peers b addr now) addrs now (rw (e, dialable) at m)
    | inr e ↦
        Or.elim (Bool-set _ _) (mem-cons.0 (rw (e, dialable) at m))
          (λ q. ap (λ (z : NetAddress). peers.has z.id) q ∙ e)
          (λ t. dialable-not_connected b addrs now t)
  ]

  module _ (sorter : Sorter BookRecord) where
    pub dialable-IsValid :
        (b : SeedBook) (addrs : List NetAddress) (now : ℕ)
        → IsValid net b
        → IsValid net (dialable net peers b addrs now).book
    unfolding dialable credit step
    dialable-IsValid b [] now v = v
    dialable-IsValid b (addr ∷ addrs) now v = elim (Bool-cases (peers.has addr.id)) [
      | inr e ↦ rw (e, dialable) (dialable-IsValid b addrs now v)
      | inl e ↦
          rw (e, dialable)
            (dialable-IsValid (credit net peers b addr now) addrs now
              (elim (Option-cases (peers.get addr.id)) [
                | inl q ↦ rw (q, credit) v
                | inr (peer, q) ↦ elim (Bool-cases peer.is_outbound) [
                  | inl o ↦
                      rw (q, o, credit) (step-IsValid net sorter b (succeeds (some addr) now) v)
                  | inr o ↦ rw (q, o, credit) v
                ]
              ]))
    ]

    pub mark_attempts-IsValid :
        (b : SeedBook) (addrs : List NetAddress) (now : ℕ)
        → IsValid net b
        → IsValid net (mark_attempts net b addrs now)
    unfolding mark_attempts step
    mark_attempts-IsValid b [] now v = v
    mark_attempts-IsValid b (addr ∷ addrs) now v =
        mark_attempts-IsValid (mark_attempt net b (some addr) now) addrs now
          (step-IsValid net sorter b (attempts (some addr) now) v)

    -- A pass leaves the book valid.
    pub sweep_once-IsValid :
        (r : SeedReactor) (now : ℕ)
        → IsValid net r.book
        → IsValid net (sweep_once net sorter r peers now).0.book
    unfolding sweep_once plan step
    sweep_once-IsValid r now v =
        let p = plan net sorter r peers now in
        step-IsValid net sorter
          (mark_attempts net p.exploration.book (handed_over net sorter p) now)
          (drops max_consecutive_failures)
          (mark_attempts-IsValid p.exploration.book (handed_over net sorter p) now (
            dialable-IsValid p.renewal.book (stale_unproven_batch sorter p.renewal.book 0) now (
              dialable-IsValid r.book (stale_proven_batch sorter r.book (renewal_window r) 0 now)
                now v)))
