-- ===== src/Reactor/Routines/Crawl.antt =====
-- Whom the loop `crawl` of internal/tenderseed/seedreactortm2.go asks.
use mathlib.Core.List.{Mem-prop, mem-cons_self, mem-cons_of_mem, not-mem-nil, mem-cons}
use mathlib.Core.Logic.{∥∥₁_elim, ∥∥₁_prop, ◌∨₁◌}
use mathlib.Core.Logic.Or
use mathlib.Core.Bool.{Bool-set}
use mathlib.Core.HLevel.{×_prop}
use tenderseed.Common.{
  ℕ, zero, suc, ◌<◌, List, [], ◌∷◌, map, ◌≡◌, refl, ap, ◌∙◌, inl, inr, ◌⊎◌, Bool, true, false, not,
  ◌==◌, Option, none, some, if◌then◌else◌, length, get_elem?, arith, Mem, All, subst, Bool-cases,
  Option-cases,
}
use tenderseed.Reactor.{Peer, Peers}
use tenderseed.Reactor.Spread.{Random, random_below}
use tenderseed.Reactor.Routines.{outbound_only, crawl_tick, ticks, run_crawl}

-- What `rand.Int` promises: a number below a positive bound.
abbrev pub IsInRange : Random → Type 0
IsInRange rand = (n i : ℕ) → 0 < n → rand.draw n ≡ some i → i < n

abbrev pub has_outbound : List (Option Peer) → Bool
has_outbound [] = false
has_outbound (none ∷ peers) = has_outbound peers
has_outbound (some peer ∷ peers) = if peer.is_outbound then true else has_outbound peers

-- The ticks that find a peer that this seed dialled.
abbrev pub outbound_ticks : List (Random × Peers) → ℕ
outbound_ticks [] = 0
outbound_ticks ((rand, peers) ∷ seen) =
    if has_outbound peers.list then suc (outbound_ticks seen) else outbound_ticks seen

random_below-lt : (rand : Random) (n : ℕ) → IsInRange rand → 0 < n → random_below rand n < n
unfolding random_below
random_below-lt rand n range pos = elim (Option-cases (rand.draw n)) [
  | inl fails ↦ rw fails (ground arith)
  | inr (i, q) ↦ rw q (ground (arith, range n i pos q))
]

get_elem?-total {ℓ} :
    {A : Type ℓ} (xs : List A) (i : ℕ)
    → i < length xs
    → (x : A) × (get_elem? xs i ≡ some x) × Mem x xs
get_elem?-total [] i h = absurd (omega arith)
get_elem?-total (x ∷ xs) zero h = (x, refl, mem-cons_self)
get_elem?-total (x ∷ xs) (suc i) h =
    let (y, q, m) = get_elem?-total xs i (omega arith) in (y, q, mem-cons_of_mem x m)

mem-outbound_only :
    (peers : List (Option Peer)) {peer : Peer}
    → Mem peer (outbound_only peers)
    → (peer.is_outbound ≡ true) × Mem (some peer) peers
unfolding outbound_only
mem-outbound_only [] m = absurd (not-mem-nil m)
mem-outbound_only (none ∷ peers) m =
    let (o, t) = mem-outbound_only peers m in (o, mem-cons_of_mem none t)
mem-outbound_only (some x ∷ peers) {peer} m = elim (Bool-cases x.is_outbound) [
  | inr inbound ↦
      let (o, t) = mem-outbound_only peers (rw (inbound, outbound_only) at m) in
      (o, mem-cons_of_mem (some x) t)
  | inl ours ↦
      let step : outbound_only (some x ∷ peers) ≡ x ∷ outbound_only peers = ground arith in
      kept ours (λ t. mem-outbound_only peers t) (mem-cons.0 (subst (Mem peer) step m))
]
  where
    kept :
        x.is_outbound ≡ true
        → (Mem peer (outbound_only peers) → (peer.is_outbound ≡ true) × Mem (some peer) peers)
        → (peer ≡ x) ∨₁ Mem peer (outbound_only peers)
        → (peer.is_outbound ≡ true) × Mem (some peer) (some x ∷ peers)
    kept ours rest h =
        Or.elim (×_prop (Bool-set _ _) Mem-prop) h
          (λ e. (ap (λ (p : Peer). p.is_outbound) e ∙ ours, mem-cons.1 (Or.inl (ap some e))))
          (λ t. let (o, u) = rest t in (o, mem-cons_of_mem (some x) u))

length-outbound_only :
    (peers : List (Option Peer)) → (length (outbound_only peers) == 0) ≡ not (has_outbound peers)
unfolding outbound_only
length-outbound_only [] = refl
length-outbound_only (none ∷ peers) = length-outbound_only peers
length-outbound_only (some x ∷ peers) = ground (arith, length-outbound_only peers)

-- A tick asks nobody, or one of the peers that this seed dialled.
crawl_tick_lem :
    (rand : Random) (peers : Peers)
    → IsInRange rand
    → ((has_outbound peers.list ≡ false) × (crawl_tick rand peers ≡ none))
      ⊎ ((has_outbound peers.list ≡ true)
          × (peer : Peer) × (crawl_tick rand peers ≡ some peer)
          × (peer.is_outbound ≡ true)
          × Mem (some peer) peers.list)
unfolding crawl_tick
crawl_tick_lem rand peers range =
    let count = length-outbound_only peers.list in
    elim (Bool-cases (has_outbound peers.list)) [
      | inr nobody ↦
          let empty : (length (outbound_only peers.list) == 0) ≡ true = rw nobody at count in
          inl (nobody, rw (empty, crawl_tick) refl)
      | inl somebody ↦
          let busy : (length (outbound_only peers.list) == 0) ≡ false = rw somebody at count in
          let n = length (outbound_only peers.list) in
          let (peer, q, m) =
            get_elem?-total (outbound_only peers.list) (random_below rand n)
              (random_below-lt rand n range (ground arith)) in
          let (ours, listed) = mem-outbound_only peers.list m in
          inr (somebody, peer, rw (busy, crawl_tick) q, ours, listed)
    ]

-- Each tick of the loop that finds a peer which this seed dialled asks one peer, and the other ticks ask
-- nobody; and each peer that is asked is one that this seed dialled, and was connected at some tick.
pub run_crawl-asks :
    (seen : List (Random × Peers))
    → All (λ s. IsInRange s.0) seen
    → (length (run_crawl (map ticks seen)) ≡ outbound_ticks seen)
      × ((peer : Peer)
          → Mem peer (run_crawl (map ticks seen))
          → (peer.is_outbound ≡ true)
            × ∥ ((s : Random × Peers) × Mem s seen × Mem (some peer) s.1.list) ∥₁)
unfolding run_crawl
run_crawl-asks [] range = (refl, λ peer m. absurd (not-mem-nil m))
run_crawl-asks ((rand, peers) ∷ seen) range =
    let (count, asked) = run_crawl-asks seen range.1 in
    elim (crawl_tick_lem rand peers range.0) [
      | inl (nobody, silent) ↦
          rw (silent, run_crawl, nobody)
            (
              count,
              λ peer m.
                  let (ours, listed) = asked peer m in
                  (
                    ours,
                    ∥∥₁_elim listed ∥∥₁_prop
                        (λ (s, found, on). ∣ (s, mem-cons_of_mem (rand, peers) found, on) ∣₁),
                  ),
            )
      | inr (somebody, first, q, mine, here) ↦
          rw (q, run_crawl, somebody)
            (
              ap suc count,
              λ peer m.
                  Or.elim (×_prop (Bool-set _ _) ∥∥₁_prop) (mem-cons.0 m)
                    (λ e. (rw e mine, ∣ ((rand, peers), mem-cons_self, rw e here) ∣₁))
                    (λ t.
                      let (ours, listed) = asked peer t in
                      (
                        ours,
                        ∥∥₁_elim listed ∥∥₁_prop
                            (λ (s, found, on). ∣ (s, mem-cons_of_mem (rand, peers) found, on) ∣₁),
                      )),
            )
    ]
