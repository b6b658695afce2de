-- ===== src/Reactor/Routines/Cycle.antt =====
-- How long a connection lasts under the loop `cycle` of internal/tenderseed/seedreactortm2.go.
use mathlib.Core.List.{
  Mem-prop, mem-append_left, mem-append_right, mem-cons_self, mem-cons_of_mem, mem-append,
  not-mem-nil, mem-cons,
}
use mathlib.Core.Logic.{∥∥₁_elim, ∥∥₁_prop}
use mathlib.Core.Logic.Or
use mathlib.Core.HLevel.{×_prop, ⊥_prop}
use native.Mathlib.Bridge.{le_prop}
use tenderseed.Common.{
  ℕ, zero, suc, ◌+◌, ◌-◌, ◌*◌, ◌≤◌, ◌<◌, List, [], ◌∷◌, ◌≡◌, sym, ap, inl, inr, true, ◌==◌, Option,
  none, some, ltb, arith, Text, Mem, subst, Bool-cases, none≢some, some-path,
}
use tenderseed.Reactor.{
  SeedReactor, Peer, Peers, Effect, stop_peer, seed_served, Reason, cycle_interval_ceiling, cycled,
  stage_cycle,
}
use tenderseed.Reactor.Budget.{cycle_interval}
use tenderseed.Reactor.Serve.{observe_count}
use tenderseed.Reactor.Routines.{overdue, stop_each, cycle_once, Wake, ticks, run_cycle}

-- Multiples of a positive step come within one step above any positive number.
next_multiple :
    (step x : ℕ) → 0 < step → 0 < x → (n : ℕ) × (x ≤ suc n * step) × (suc n * step < x + step)
next_multiple step zero pos h = absurd (omega arith)
next_multiple step (suc zero) pos h = (0, ground arith, ground arith)
next_multiple step (suc (suc x)) pos h =
    let (n, above, near) = next_multiple step (suc x) pos (omega arith) in
    elim (Bool-cases (ltb (suc x) (suc n * step))) [
      | inl beyond ↦ (n, ground arith, omega arith)
      | inr at ↦ (suc n, grind arith, grind arith)
    ]

cycle_interval_bounds :
    (r : SeedReactor) → (0 < cycle_interval r) × (cycle_interval r ≤ cycle_interval_ceiling)
unfolding cycle_interval
cycle_interval_bounds r = ground arith

overdue-mem :
    (wait : ℕ) (peers : List (Option Peer)) (peer : Peer)
    → Mem (some peer) peers
    → wait ≤ peer.duration
    → Mem peer (overdue wait peers)
unfolding overdue
overdue-mem wait [] peer m late = absurd (not-mem-nil m)
overdue-mem wait (none ∷ peers) peer m late =
    Or.elim Mem-prop (mem-cons.0 m) (λ e. absurd (none≢some (sym e)))
      (λ t. overdue-mem wait peers peer t late)
overdue-mem wait (some x ∷ peers) peer m late = elim (Bool-cases (ltb x.duration wait)) [
  | inl early ↦
      rw (early, overdue)
        (Or.elim Mem-prop (mem-cons.0 m) (λ e. absurd (too_early (some-path e) early))
          (λ t. overdue-mem wait peers peer t late))
  | inr old ↦
      rw (old, overdue)
        (Or.elim Mem-prop (mem-cons.0 m) (λ e. mem-cons.1 (Or.inl (some-path e)))
          (λ t. mem-cons_of_mem x (overdue-mem wait peers peer t late)))
]
  where
    too_early : peer ≡ x → ltb x.duration wait ≡ true → ⊥
    too_early e early = ground (arith, ap (λ (p : Peer). p.duration) e)

mem-overdue :
    (wait : ℕ) (peers : List (Option Peer)) {peer : Peer}
    → Mem peer (overdue wait peers)
    → Mem (some peer) peers × (wait ≤ peer.duration)
unfolding overdue
mem-overdue wait [] m = absurd (not-mem-nil m)
mem-overdue wait (none ∷ peers) m =
    let (t, late) = mem-overdue wait peers m in (mem-cons_of_mem none t, late)
mem-overdue wait (some x ∷ peers) {peer} m = elim (Bool-cases (ltb x.duration wait)) [
  | inl early ↦
      let (t, late) = mem-overdue wait peers (rw (early, overdue) at m) in
      (mem-cons_of_mem (some x) t, late)
  | inr old ↦
      Or.elim (×_prop Mem-prop le_prop) (mem-cons.0 (rw (old, overdue) at m))
        (λ e. (mem-cons.1 (Or.inl (ap some e)), rw e (ground arith)))
        (λ t. let (u, late) = mem-overdue wait peers t in (mem-cons_of_mem (some x) u, late))
]

stop_each-mem :
    (peers : List Peer) (peer : Peer)
    → Mem peer peers
    → Mem (stop_peer peer.id seed_served) (stop_each peers)
unfolding stop_each
stop_each-mem [] peer m = absurd (not-mem-nil m)
stop_each-mem (x ∷ peers) peer m =
    Or.elim Mem-prop (mem-cons.0 m)
      (λ e. mem-cons.1 (Or.inl (ap (λ (p : Peer). stop_peer p.id seed_served) e)))
      (λ t. mem-cons_of_mem (stop_peer x.id seed_served) (stop_each-mem peers peer t))

-- A stop is of one of the peers.
mem-stop_each :
    (peers : List Peer) {id : Text} {reason : Reason}
    → Mem (stop_peer id reason) (stop_each peers)
    → ∥ ((peer : Peer) × Mem peer peers × (peer.id ≡ id)) ∥₁
unfolding stop_each
mem-stop_each [] m = absurd (not-mem-nil m)
mem-stop_each (x ∷ peers) {id} {reason} m =
    Or.elim ∥∥₁_prop (mem-cons.0 m) (λ e. ∣ (x, mem-cons_self, cc) ∣₁)
      (λ t.
        ∥∥₁_elim (mem-stop_each peers t) ∥∥₁_prop
          (λ (peer, found, same). ∣ (peer, mem-cons_of_mem x found, same) ∣₁))

-- The ticks of the loop, from one on, with what the switch shows at each.
abbrev pub ticks_from : (ℕ → Peers) → ℕ → ℕ → List (Wake Peers)
ticks_from seen first zero = []
ticks_from seen first (suc n) = ticks (seen first) ∷ ticks_from seen (suc first) n

-- The moment of a tick of a loop that is started at the given moment.
abbrev pub tick_time : SeedReactor → ℕ → ℕ → ℕ
tick_time r start k = start + suc k * cycle_interval r

-- Some tick shows a connection of the identity that has lasted the wait.
abbrev pub HasLasted : SeedReactor → (ℕ → Peers) → Text → Type 0
HasLasted r seen id =
    (k : ℕ) × (peer : Peer) × Mem (some peer) (seen k).list
    × (peer.id ≡ id)
    × (r.wait ≤ peer.duration)

module _ (r : SeedReactor) (seen : ℕ → Peers) where
  cycle_once-stops :
      (peers : Peers) (peer : Peer)
      → Mem (some peer) peers.list
      → r.wait ≤ peer.duration
      → Mem (stop_peer peer.id seed_served) (cycle_once r peers)
  unfolding cycle_once
  cycle_once-stops peers peer m late =
      mem-append_left (observe_count cycled stage_cycle _)
        (stop_each-mem (overdue r.wait peers.list) peer (overdue-mem r.wait peers.list peer m late))

  run_cycle-tick :
      (e : Effect) (first n : ℕ)
      → Mem e (cycle_once r (seen (first + n)))
      → Mem e (run_cycle r (ticks_from seen first (suc n)))
  unfolding run_cycle
  run_cycle-tick e first zero m =
      mem-append_left [] (subst (λ (k : ℕ). Mem e (cycle_once r (seen k))) (omega arith) m)
  run_cycle-tick e first (suc n) m = mem-append_right (cycle_once r (seen first)) (
      run_cycle-tick e (suc first) n
        (subst (λ (k : ℕ). Mem e (cycle_once r (seen k))) (omega arith) m))

  observed-stops :
      (count : ℕ) {id : Text} {reason : Reason}
      → Mem (stop_peer id reason) (observe_count cycled stage_cycle count)
      → ⊥
  observed-stops count {id} {reason} m = elim (Bool-cases (count == 0)) [
    | inl none_cycled ↦ not-mem-nil {A = Effect} (rw none_cycled at m)
    | inr some_cycled ↦
        Or.elim ⊥_prop (mem-cons.0 (rw some_cycled at m)) (λ e. cc) (λ t. not-mem-nil t)
  ]

  cycle_once-HasLasted :
      (k : ℕ) {id : Text} {reason : Reason}
      → Mem (stop_peer id reason) (cycle_once r (seen k))
      → ∥ HasLasted r seen id ∥₁
  unfolding cycle_once
  cycle_once-HasLasted k m =
      Or.elim ∥∥₁_prop (mem-append.0 m)
        (λ stop.
          ∥∥₁_elim (mem-stop_each (overdue r.wait (seen k).list) stop) ∥∥₁_prop
            (λ (peer, found, same).
              let (listed, late) = mem-overdue r.wait (seen k).list found in
              ∣ (k, peer, listed, same, late) ∣₁))
        (λ counted. absurd (observed-stops _ counted))

  run_cycle-HasLasted :
      (first n : ℕ) {id : Text} {reason : Reason}
      → Mem (stop_peer id reason) (run_cycle r (ticks_from seen first n))
      → ∥ HasLasted r seen id ∥₁
  unfolding run_cycle
  run_cycle-HasLasted first zero m = absurd (not-mem-nil m)
  run_cycle-HasLasted first (suc n) m =
      Or.elim ∥∥₁_prop (mem-append.0 m) (λ now. cycle_once-HasLasted first now)
        (λ rest. run_cycle-HasLasted (suc first) n rest)

  -- No connection outlasts the wait by more than half a minute, and none is cut short. Suppose that the loop
  -- is started with a positive wait, and that a connection which begins later is shown by the switch with its
  -- age at every tick from its wait on, for half a minute: then a tick of that time stops its peer. And each
  -- peer that the loop ever stops has a connection that has lasted the wait.
  pub run_cycle-lifetime :
      (start since : ℕ) (id : Text)
      → 0 < r.wait
      → start ≤ since
      → ((k : ℕ)
          → since + r.wait ≤ tick_time r start k
          → tick_time r start k < since + r.wait + cycle_interval_ceiling
          → (peer : Peer) × Mem (some peer) (seen k).list
            × (peer.id ≡ id)
            × (peer.duration ≡ tick_time r start k - since))
      → ((n : ℕ) × (tick_time r start n < since + r.wait + cycle_interval_ceiling)
          × Mem (stop_peer id seed_served) (run_cycle r (ticks_from seen 0 (suc n))))
        × ((n : ℕ) (other : Text) (reason : Reason)
            → Mem (stop_peer other reason) (run_cycle r (ticks_from seen 0 n))
            → ∥ HasLasted r seen other ∥₁)
  run_cycle-lifetime start since id pos begun shown =
      let (positive, bound) = cycle_interval_bounds r in
      let (n, above, near) =
        next_multiple (cycle_interval r) (since + r.wait - start) positive (omega arith) in
      let soon : tick_time r start n < since + r.wait + cycle_interval_ceiling = omega arith in
      let (peer, listed, same, age) = shown n (omega arith) soon in
      (
        (
          n,
          soon,
          run_cycle-tick (stop_peer id seed_served) 0 n (
              subst (λ (x : Text). Mem (stop_peer x seed_served) (cycle_once r (seen (0 + n)))) same
                (cycle_once-stops (seen (0 + n)) peer
                  (subst (λ (k : ℕ). Mem (some peer) (seen k).list) (omega arith) listed)
                  (omega arith))),
        ),
        λ m other reason h. run_cycle-HasLasted 0 m h,
      )
