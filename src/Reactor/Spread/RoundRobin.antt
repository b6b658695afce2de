-- ===== src/Reactor/Spread/RoundRobin.antt =====
-- `spreadByGroup` of internal/tenderseed/seedreactortm2.go: it ends, and it only reorders.
use mathlib.Core.List.{
  flatten, append_assoc, append-nil, mem-cons_self, mem-append_left, mem-append_right,
}
use mathlib.Core.List.Perm
use tenderseed.Common.{
  ℕ, zero, suc, ◌+◌, ◌<◌, ◌≤◌, List, [], ◌∷◌, ◌++◌, ◌≡◌, refl, subst, inl, inr, arith, length, Perm,
  Mem, Option-cases, Bool-cases, none≢some, Text, text_equality, text_eq, text_eq_iff,
  length-append, perm-length, ltb,
}
use tenderseed.Common.Map.{lookup, Distinct, insert-Distinct, lookup-insert}
use tenderseed.Address.{NetAddress}
use tenderseed.Reactor.Spread.{
  network_group, Grouping, bucket_of, add_to_group, group_each, take_round, spread_rounds,
  spread_by_group,
}
use tenderseed.Reactor.Spread.Buckets.{
  Buckets, contents, contents-put, lookup-bucket_of, take_round-perm, take_round-progress, Covers,
  Covers-take_round, pending, Distinct-take_round,
}

no_length : (xs : List NetAddress) → length xs ≡ 0 → xs ≡ []
no_length [] h = refl
no_length (x ∷ xs) h = absurd (omega arith)

spread_rounds-perm :
    (fuel : ℕ) (order : List Text) (g : Buckets) (spread : List NetAddress) (total : ℕ)
    → Distinct g
    → Covers order g
    → length spread + length (contents g) ≡ total
    → length (contents g) ≤ fuel
    → Perm (spread_rounds fuel order g spread total) (spread ++ contents g)
unfolding spread_rounds
spread_rounds-perm zero order g spread total d c e enough =
    rw (no_length (contents g) (omega arith), append-nil) Perm.rfl
spread_rounds-perm (suc fuel) order g spread total d c e enough =
    elim (Bool-cases (ltb (length spread) total)) [
      | inr done ↦
          let empty : length (contents g) ≡ 0 = ground arith in
          rw (done, no_length (contents g) empty, append-nil) Perm.rfl
      | inl more ↦
          let left : 0 < length (contents g) = ground arith in
          let (key, a, bucket, has) = pending g d left in
          let progress =
            take_round-progress order g key a bucket
              (c key (a ∷ bucket) (lookup-bucket_of key g has)) has in
          let round = take_round order g in
          let same = take_round-perm order g in
          rw more (
            Perm.trans
              (spread_rounds-perm fuel order round.1 (spread ++ round.0) total
                (Distinct-take_round order g d) (Covers-take_round order g c)
                (omega (
                  arith,
                  length-append spread round.0,
                  length-append round.0 (contents round.1),
                  perm-length same,
                  e,
                ))
                (omega (
                  arith,
                  progress,
                  enough,
                  length-append round.0 (contents round.1),
                  perm-length same,
                )))
              (rw (append_assoc spread round.0 (contents round.1)) (Perm.append_left spread same)))
    ]

-- What grouping keeps true of the buckets.
record IsGrouped (g : Grouping) : Type 0 where
  distinct : Distinct g.groups
  covers : Covers g.order g.groups

order-add_to_group :
    (g : Grouping) (addr : NetAddress) (k : Text)
    → Mem k g.order
    → Mem k (add_to_group g addr).order
unfolding add_to_group
order-add_to_group g addr k m = elim (Option-cases (lookup (network_group addr.ip) g.groups)) [
  | inl e ↦ rw (e, add_to_group) (mem-append_left (network_group addr.ip ∷ []) m)
  | inr (w, e) ↦ rw (e, add_to_group) m
]

order-add_to_group_key :
    (g : Grouping) (addr : NetAddress)
    → Covers g.order g.groups
    → Mem (network_group addr.ip) (add_to_group g addr).order
unfolding add_to_group
order-add_to_group_key g addr c = elim (Option-cases (lookup (network_group addr.ip) g.groups)) [
  | inl e ↦ rw (e, add_to_group) (mem-append_right g.order mem-cons_self)
  | inr (w, e) ↦ rw (e, add_to_group) (c (network_group addr.ip) w e)
]

add_to_group-IsGrouped :
    (g : Grouping) (addr : NetAddress) → IsGrouped g → IsGrouped (add_to_group g addr)
unfolding add_to_group
add_to_group-IsGrouped g addr v =
    let key = network_group addr.ip in
    let new = bucket_of key g.groups ++ addr ∷ [] in
    record {
      distinct = insert-Distinct key new g.groups v.distinct;
      covers = λ k bucket h. elim (Bool-cases (text_eq key k)) [
        | inl same ↦
            subst (λ z. Mem z (add_to_group g addr).order) ((text_eq_iff key k).0 same)
              (order-add_to_group_key g addr v.covers)
        | inr other ↦
            order-add_to_group g addr k
              (v.covers k bucket (rw (lookup-insert key k new g.groups, other) at h))
      ];
    }

group_each-IsGrouped :
    (g : Grouping) (addrs : List NetAddress) → IsGrouped g → IsGrouped (group_each g addrs)
unfolding group_each
group_each-IsGrouped g [] v = v
group_each-IsGrouped g (addr ∷ addrs) v =
    group_each-IsGrouped (add_to_group g addr) addrs (add_to_group-IsGrouped g addr v)

contents-group_each :
    (g : Grouping) (addrs : List NetAddress)
    → Perm (contents (group_each g addrs).groups) (contents g.groups ++ addrs)
unfolding group_each add_to_group
contents-group_each g [] = rw append-nil Perm.rfl
contents-group_each g (addr ∷ addrs) =
    let key = network_group addr.ip in
    Perm.trans (contents-group_each (add_to_group g addr) addrs) (
      Perm.trans
        (Perm.append_right addrs (contents-put key g.groups addr (bucket_of key g.groups) refl))
        (rw (append_assoc (contents g.groups) (addr ∷ []) addrs) Perm.rfl))

-- Spreading the addresses over their network ranges neither loses nor repeats one: as many passes as
-- addresses place them all.
pub spread_by_group-perm : (addrs : List NetAddress) → Perm (spread_by_group addrs) addrs
unfolding spread_by_group flatten
spread_by_group-perm addrs =
    let start : Grouping = record { groups = []; order = [] } in
    let v =
      group_each-IsGrouped start addrs
        (record { distinct = tt; covers = λ key bucket h. absurd (none≢some h) }) in
    let same = contents-group_each start addrs in
    let g = group_each start addrs in
    Perm.trans
      (spread_rounds-perm (length addrs) g.order g.groups [] (length addrs) v.distinct v.covers
        (omega (arith, perm-length same)) (omega (arith, perm-length same)))
      same
