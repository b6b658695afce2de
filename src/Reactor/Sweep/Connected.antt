-- ===== src/Reactor/Sweep/Connected.antt =====
-- What the sweep of internal/tenderseed/seedreactortm2.go does to the record of a peer that is connected.
use mathlib.Core.Logic.{∥∥₁_elim}
use mathlib.Core.List.{Mem-prop, mem-cons, mem-cons_self, mem-cons_of_mem, mem-append}
use mathlib.Core.Bool.{Bool-set}
use mathlib.Core.Logic.Or
use tenderseed.Common.Int.{pos, pos_part}
use tenderseed.Common.{
  text_equality, true≢false, ℕ, ◌<◌, ◌≤◌, List, [], ◌∷◌, ◌≡◌, ◌∙◌, refl, sym, ap, subst, true,
  false, some, inl, inr, arith, text_eq, text_eq_iff, take-subset, Mem, Bool, Bool-cases,
  Option-cases, some-path,
}
use tenderseed.Common.Map.{lookup}
use tenderseed.Common.Sorting.{Sorter}
use tenderseed.Address.{NetAddress, Net}
use tenderseed.Book.{BookRecord, SeedBook, may_hold, mark_attempt}
use tenderseed.Book.Queries.{collect_sorted, stale_proven_batch, stale_unproven_batch}
use tenderseed.Book.Invariant.{IsValid}
use tenderseed.Book.Eviction.{lookup-values}
use tenderseed.Book.Promise.{View, view, prove, try, spare}
use tenderseed.Book.Promise.Changes.{
  mark_success-refines, mark_attempt-refines, drop_failing-refines,
}
use tenderseed.Reactor.{SeedReactor, Peers, max_consecutive_failures}
use tenderseed.Reactor.Budget.{renewal_window}
use tenderseed.Reactor.Serve.Answers.{collect_sorted-source}
use tenderseed.Reactor.Sweep.{credit, dialable, mark_attempts, plan, handed_over, sweep_once}
use tenderseed.Reactor.Sweep.Passes.{
  dialable-not_connected, dialable-IsValid, mark_attempts-IsValid,
}

module _ (net : Net) (a : NetAddress) where
  open net use {to_string}

  -- The record of the address, with so many failures at most.
  abbrev HeldIn : ℕ → View → Type 0
  HeldIn n v = (r : BookRecord) × (v (to_string a) ≡ some r) × (r.addr ≡ a) × (pos_part r.fails ≤ n)

  abbrev pub IsHeld : ℕ → SeedBook → Type 0
  IsHeld n b = HeldIn n (view b)

  -- An address under another text.
  abbrev IsOther : NetAddress → Type 0
  IsOther addr = text_eq (to_string addr) (to_string a) ≡ false

  prove-HeldIn :
      (n : ℕ) (strict : Bool) (self addr : NetAddress) (now : ℕ) (v : View)
      → HeldIn n v
      → HeldIn n (prove net strict self now v (some addr))
  prove-HeldIn n strict self addr now v (r, found, same, few) =
      elim (Bool-cases (may_hold net strict addr)) [
        | inr refused ↦ (r, rw refused found, same, few)
        | inl taken ↦ elim (Bool-cases (text_eq (to_string addr) (to_string a))) [
          | inr other ↦ (r, rw (taken, other) found, same, few)
          | inl own ↦ (
            record r { last_try = now; last_ok = now; fails = pos 0 },
            rw (taken, own, (text_eq_iff (to_string addr) (to_string a)).0 own, found) refl,
            same,
            omega arith,
          )
        ]
      ]

  try-HeldIn :
      (n : ℕ) (strict : Bool) (self addr : NetAddress) (now : ℕ) (v : View)
      → IsOther addr
      → HeldIn n v
      → HeldIn n (try net strict self now v (some addr))
  try-HeldIn n strict self addr now v other (r, found, same, few) =
      elim (Bool-cases (may_hold net strict addr)) [
        | inr refused ↦ (r, rw refused found, same, few)
        | inl taken ↦ (r, rw (taken, other) found, same, few)
      ]

  spare-HeldIn : (n limit : ℕ) (v : View) → n < limit → HeldIn n v → HeldIn n (spare limit v)
  spare-HeldIn n limit v below (r, found, same, few) = (r, ground (arith, found), same, few)

  module _ (peers : Peers) where
    credit-IsHeld :
        (n : ℕ) (b : SeedBook) (addr : NetAddress) (now : ℕ)
        → IsHeld n b
        → IsHeld n (credit net peers b addr now)
    unfolding credit
    credit-IsHeld n b addr now h = elim (Option-cases (peers.get addr.id)) [
      | inl q ↦ rw (q, credit) h
      | inr (peer, q) ↦ elim (Bool-cases peer.is_outbound) [
        | inr inbound ↦ rw (q, inbound, credit) h
        | inl outbound ↦
            rw (q, outbound, credit)
              (subst (HeldIn n) (sym (mark_success-refines net b (some addr) now).0)
                (prove-HeldIn n b.strict b.self addr now (view b) h))
      ]
    ]

    dialable-IsHeld :
        (n : ℕ) (b : SeedBook) (addrs : List NetAddress) (now : ℕ)
        → IsHeld n b
        → IsHeld n (dialable net peers b addrs now).book
    unfolding dialable
    dialable-IsHeld n b [] now h = h
    dialable-IsHeld n b (addr ∷ addrs) now h = elim (Bool-cases (peers.has addr.id)) [
      | inl e ↦
          rw (e, dialable)
            (dialable-IsHeld n (credit net peers b addr now) addrs now
              (credit-IsHeld n b addr now h))
      | inr e ↦ rw (e, dialable) (dialable-IsHeld n b addrs now h)
    ]

    dialable-subset :
        (b : SeedBook) (addrs : List NetAddress) (now : ℕ) {x : NetAddress}
        → Mem x (dialable net peers b addrs now).eligible
        → Mem x addrs
    unfolding dialable
    dialable-subset b [] now m = m
    dialable-subset b (addr ∷ addrs) now m = elim (Bool-cases (peers.has addr.id)) [
      | inl e ↦
          mem-cons_of_mem addr
            (dialable-subset (credit net peers b addr now) addrs now (rw (e, dialable) at m))
      | inr e ↦
          Or.elim Mem-prop (mem-cons.0 (rw (e, dialable) at m)) (λ q. mem-cons.1 (Or.inl q))
            (λ t. mem-cons_of_mem addr (dialable-subset b addrs now t))
    ]

    mark_attempts-IsHeld :
        (n : ℕ) (b : SeedBook) (addrs : List NetAddress) (now : ℕ)
        → ((x : NetAddress) → Mem x addrs → IsOther x)
        → IsHeld n b
        → IsHeld n (mark_attempts net b addrs now)
    unfolding mark_attempts
    mark_attempts-IsHeld n b [] now others h = h
    mark_attempts-IsHeld n b (addr ∷ addrs) now others h =
        mark_attempts-IsHeld n (mark_attempt net b (some addr) now) addrs now
          (λ x m. others x (mem-cons_of_mem addr m))
          (subst (HeldIn n) (sym (mark_attempt-refines net b (some addr) now).0)
            (try-HeldIn n b.strict b.self addr now (view b) (others addr mem-cons_self) h))

    module _ (sorter : Sorter BookRecord) (held : peers.has a.id ≡ true) where
      -- What is left for a dial of a sorted collection stands under another text: a record of this text
      -- would be the one of the address, which is connected.
      eligible-IsOther :
          (n : ℕ) (b : SeedBook) (keep : BookRecord → Bool) (less : BookRecord → BookRecord → Bool)
          (limit now : ℕ) {x : NetAddress}
          → IsValid net b
          → IsHeld n b
          → Mem x (dialable net peers b (collect_sorted sorter keep less limit b) now).eligible
          → IsOther x
      eligible-IsOther n b keep less limit now {x} v (r, found, same, few) m =
          let batch = collect_sorted sorter keep less limit b in
          let apart = dialable-not_connected net peers b batch now m in
          ∥∥₁_elim (collect_sorted-source sorter keep less limit b (dialable-subset b batch now m))
            (Bool-set _ _)
            (λ (rec, stored, kept, e). elim (Bool-cases (text_eq (to_string x) (to_string a))) [
              | inr other ↦ other
              | inl own ↦
                  let text : to_string rec.addr ≡ to_string a =
                    ap to_string e ∙ (text_eq_iff (to_string x) (to_string a)).0 own in
                  let stands : lookup (to_string a) b.peers ≡ some rec =
                    subst (λ k. lookup k b.peers ≡ some rec) text
                      (lookup-values net b.strict b.peers v.distinct v.held stored) in
                  let one : rec ≡ r = some-path (sym stands ∙ found) in
                  let here : x ≡ a = sym e ∙ ap (λ (z : BookRecord). z.addr) one ∙ same in
                  absurd (
                    true≢false
                      (sym held ∙ ap (λ (z : NetAddress). peers.has z.id) (sym here) ∙ apart))
            ])

      handed_over-IsOther :
          (n : ℕ) (r : SeedReactor) (now : ℕ) {x : NetAddress}
          → IsValid net r.book
          → IsHeld n r.book
          → Mem x (handed_over net sorter (plan net sorter r peers now))
          → IsOther x
      unfolding plan handed_over stale_proven_batch stale_unproven_batch
      handed_over-IsOther n r now v h m =
          let p = plan net sorter r peers now in
          let proven = stale_proven_batch sorter r.book (renewal_window r) 0 now in
          Or.elim (Bool-set _ _) (mem-append.0 m)
            (λ t.
              eligible-IsOther n r.book _ _ 0 now v h (take-subset p.renewed p.renewal.eligible t))
            (λ t.
              eligible-IsOther n p.renewal.book _ _ 0 now
                (dialable-IsValid net peers sorter r.book proven now v)
                (dialable-IsHeld n r.book proven now h)
                (take-subset p.explored p.exploration.eligible t))

      -- A pass keeps the record of a connected peer, with no more failures than it had.
      pub sweep_once-IsHeld :
          (n : ℕ) (r : SeedReactor) (now : ℕ)
          → n < max_consecutive_failures
          → IsValid net r.book
          → IsHeld n r.book
          → IsHeld n (sweep_once net sorter r peers now).0.book
      unfolding sweep_once plan
      sweep_once-IsHeld n r now few v h =
          let p = plan net sorter r peers now in
          let proven = stale_proven_batch sorter r.book (renewal_window r) 0 now in
          let unproven = stale_unproven_batch sorter p.renewal.book 0 in
          let credited = dialable-IsValid net peers sorter r.book proven now v in
          let marked = mark_attempts net p.exploration.book (handed_over net sorter p) now in
          let valid =
            mark_attempts-IsValid net peers sorter p.exploration.book (handed_over net sorter p) now
              (dialable-IsValid net peers sorter p.renewal.book unproven now credited) in
          subst (HeldIn n)
            (sym (drop_failing-refines net marked max_consecutive_failures valid.distinct).0)
            (spare-HeldIn n max_consecutive_failures (view marked) few (
              mark_attempts-IsHeld n p.exploration.book (handed_over net sorter p) now
                (λ x m. handed_over-IsOther n r now v h m)
                (dialable-IsHeld n p.renewal.book unproven now
                  (dialable-IsHeld n r.book proven now h))))
