-- ===== src/Reactor/Spread/Opening.antt =====
-- The opening of what `spreadByGroup` of internal/tenderseed/seedreactortm2.go gives: one address of each
-- network range.
use mathlib.Core.List.{append_assoc, append-nil}
use tenderseed.Common.{
  ℕ, zero, suc, List, [], ◌∷◌, ◌++◌, map, ◌≡◌, refl, sym, ap, ◌∙◌, inl, inr, Bool, true, false,
  ◌||◌, Option, none, some, if◌then◌else◌, ltb, arith, Text, text_eq, text_eq_iff, text_equality,
  contains, NoRepeat, All, length, Bool-cases, Option-cases,
}
use tenderseed.Common.Map.{lookup, insert, lookup-insert}
use tenderseed.Address.{NetAddress}
use tenderseed.Reactor.Spread.{
  network_group, Grouping, bucket_of, add_to_group, group_each, take_round, spread_rounds,
  spread_by_group,
}
use tenderseed.Reactor.Spread.Buckets.{Buckets}

abbrev pub range_of : NetAddress → Text
range_of addr = network_group addr.ip

-- The ranges of a list of addresses, each once, in the order in which they first appear, behind those
-- already seen.
abbrev pub ranges_after : List Text → List NetAddress → List Text
ranges_after seen [] = seen
ranges_after seen (addr ∷ addrs) =
    ranges_after (if contains (range_of addr) seen then seen else seen ++ range_of addr ∷ []) addrs

-- The bucket of a key begins with an address of that range.
abbrev IsFilled : Buckets → Text → Type 0
IsFilled g key =
    (a : NetAddress) × (bucket : List NetAddress) × (bucket_of key g ≡ a ∷ bucket)
    × (range_of a ≡ key)

bucket_of-insert :
    (key k : Text) (bucket : List NetAddress) (g : Buckets)
    → bucket_of k (insert key bucket g) ≡ (if text_eq key k then bucket else bucket_of k g)
unfolding bucket_of
bucket_of-insert key k bucket g = ground (arith, lookup-insert key k bucket g)

-- A bucket of another key may change.
IsFilled-other :
    (g : Buckets) (key : Text) (bucket : List NetAddress) (order : List Text)
    → contains key order ≡ false
    → All (IsFilled g) order
    → All (IsFilled (insert key bucket g)) order
IsFilled-other g key bucket [] h a = tt
IsFilled-other g key bucket (k ∷ order) h a =
    let (x, rest, e, r) = a.0 in
    let other : text_eq key k ≡ false = ground (arith, text_eq_iff key k, text_eq_iff k key) in
    (
      (x, rest, bucket_of-insert key k bucket g ∙ rw other e, r),
      IsFilled-other g key bucket order (ground arith) a.1,
    )

-- A pass over filled buckets takes one address of each range, in order.
take_round-ranges :
    (order : List Text) (g : Buckets)
    → NoRepeat order
    → All (IsFilled g) order
    → map range_of (take_round order g).0 ≡ order
unfolding take_round
take_round-ranges [] g n a = refl
take_round-ranges (key ∷ order) g n a =
    let (x, rest, e, r) = a.0 in
    rw (e, take_round)
      (ap (λ z. z ∷ map range_of (take_round order (insert key rest g)).0) r
        ∙ ap (◌∷◌ key) (
            take_round-ranges order (insert key rest g) n.1
              (IsFilled-other g key rest order n.0 a.1)))

-- What has been spread stays in front.
spread_rounds-prefix :
    (fuel : ℕ) (order : List Text) (g : Buckets) (spread : List NetAddress) (total : ℕ)
    → (rest : List NetAddress) × (spread_rounds fuel order g spread total ≡ spread ++ rest)
unfolding spread_rounds
spread_rounds-prefix zero order g spread total = ([], sym (append-nil spread))
spread_rounds-prefix (suc fuel) order g spread total =
    elim (Bool-cases (ltb (length spread) total)) [
      | inr done ↦ ([], rw (done, append-nil) refl)
      | inl more ↦
          let round = take_round order g in
          let (rest, e) = spread_rounds-prefix fuel order round.1 (spread ++ round.0) total in
          (round.0 ++ rest, rw more (e ∙ append_assoc spread round.0 rest))
    ]

abbrev is_held : Option (List NetAddress) → Bool
is_held none = false
is_held (some w) = true

-- What grouping keeps: the order has each range once, every range of the order has a filled bucket, and no
-- other key has a bucket.
record IsOpen (g : Grouping) : Type 0 where
  unique : NoRepeat g.order
  filled : All (IsFilled g.groups) g.order
  seen : (key : Text) → contains key g.order ≡ is_held (lookup key g.groups)

contains-append :
    (key k : Text) (ks : List Text)
    → contains key (ks ++ k ∷ []) ≡ (contains key ks || text_eq k key)
contains-append key k [] = ground arith
contains-append key k (j ∷ ks) = ground (arith, contains-append key k ks)

NoRepeat-append :
    (k : Text) (ks : List Text) → contains k ks ≡ false → NoRepeat ks → NoRepeat (ks ++ k ∷ [])
NoRepeat-append k [] h n = (refl, tt)
NoRepeat-append k (j ∷ ks) h n =
    let other : text_eq k j ≡ false = ground (arith, text_eq_iff k j, text_eq_iff j k) in
    (contains-append j k ks ∙ ground (arith, n.0), NoRepeat-append k ks (ground arith) n.1)

All-append : (P : Text → Type 0) (ks : List Text) (k : Text) → All P ks → P k → All P (ks ++ k ∷ [])
All-append P [] k a h = (h, tt)
All-append P (j ∷ ks) k a h = (a.0, All-append P ks k a.1 h)

-- The bucket of a range grows at its end, so its first address stays.
IsFilled-grown :
    (g : Buckets) (key : Text) (addr : NetAddress) (order : List Text)
    → All (IsFilled g) order
    → All (IsFilled (insert key (bucket_of key g ++ addr ∷ []) g)) order
IsFilled-grown g key addr [] a = tt
IsFilled-grown g key addr (k ∷ order) a =
    let (x, rest, e, r) = a.0 in
    (
      elim (Bool-cases (text_eq key k)) [
        | inl same ↦
            let q = (text_eq_iff key k).0 same in
            (
              x,
              rest ++ addr ∷ [],
              bucket_of-insert key k (bucket_of key g ++ addr ∷ []) g
                  ∙ rw same (ap (λ z. bucket_of z g ++ addr ∷ []) q ∙ ap (λ z. z ++ addr ∷ []) e),
              r,
            )
        | inr other ↦
            (x, rest, bucket_of-insert key k (bucket_of key g ++ addr ∷ []) g ∙ rw other e, r)
      ],
      IsFilled-grown g key addr order a.1,
    )

held-insert :
    (key k : Text) (bucket : List NetAddress) (g : Buckets)
    → is_held (lookup k (insert key bucket g)) ≡ (text_eq key k || is_held (lookup k g))
held-insert key k bucket g =
    ap is_held (lookup-insert key k bucket g)
    ∙ elim (Bool-cases (text_eq key k)) [ inl same ↦ rw same refl | inr other ↦ rw other refl ]

-- A key that has a bucket is held after a change of that bucket exactly when it was before.
held-insert_old :
    (key k : Text) (bucket w : List NetAddress) (g : Buckets)
    → lookup key g ≡ some w
    → is_held (lookup k (insert key bucket g)) ≡ is_held (lookup k g)
held-insert_old key k bucket w g e =
    held-insert key k bucket g ∙ elim (Bool-cases (text_eq key k)) [
      | inl same ↦
          let found : is_held (lookup k g) ≡ true =
            ap (λ z. is_held (lookup z g)) (sym ((text_eq_iff key k).0 same)) ∙ ap is_held e in
          rw (same, found) refl
      | inr other ↦ rw other refl
    ]

bucket_of-first :
    (key : Text) (addr : NetAddress) (g : Buckets)
    → lookup key g ≡ none
    → bucket_of key (insert key (bucket_of key g ++ addr ∷ []) g) ≡ addr ∷ []
unfolding bucket_of
bucket_of-first key addr g e =
    bucket_of-insert key key (bucket_of key g ++ addr ∷ []) g
    ∙ rw ((text_eq_iff key key).1 refl, e, bucket_of) refl

add_to_group-IsOpen : (g : Grouping) (addr : NetAddress) → IsOpen g → IsOpen (add_to_group g addr)
unfolding add_to_group bucket_of
add_to_group-IsOpen g addr v =
    let key = range_of addr in
    let bucket = bucket_of key g.groups ++ addr ∷ [] in
    elim (Option-cases (lookup key g.groups)) [
      | inl e ↦
          let fresh : contains key g.order ≡ false = v.seen key ∙ rw e refl in
          rw (e, add_to_group)
            (record {
              unique = NoRepeat-append key g.order fresh v.unique;
              filled =
                  All-append (IsFilled (insert key bucket g.groups)) g.order key
                    (IsFilled-other g.groups key bucket g.order fresh v.filled)
                    (addr, [], bucket_of-first key addr g.groups e, refl);
              seen = λ k. ground (
                arith,
                contains-append k key g.order,
                held-insert key k bucket g.groups,
                v.seen k,
              );
            })
      | inr (w, e) ↦
          rw (e, add_to_group)
            (record {
              unique = v.unique;
              filled = IsFilled-grown g.groups key addr g.order v.filled;
              seen = λ k. v.seen k ∙ sym (held-insert_old key k bucket w g.groups e);
            })
    ]

add_to_group-order :
    (g : Grouping) (addr : NetAddress)
    → IsOpen g
    → (add_to_group g addr).order
      ≡ (if contains (range_of addr) g.order then g.order else g.order ++ range_of addr ∷ [])
unfolding add_to_group
add_to_group-order g addr v =
    let seen = v.seen (range_of addr) in
    elim (Option-cases (lookup (range_of addr) g.groups)) [
      | inl e ↦ rw (e, seen, e, add_to_group) refl
      | inr (w, e) ↦ rw (e, seen, e, add_to_group) refl
    ]

group_each-ranges :
    (g : Grouping) (addrs : List NetAddress)
    → IsOpen g
    → IsOpen (group_each g addrs) × ((group_each g addrs).order ≡ ranges_after g.order addrs)
unfolding group_each
group_each-ranges g [] v = (v, refl)
group_each-ranges g (addr ∷ addrs) v =
    let (open', same) =
      group_each-ranges (add_to_group g addr) addrs (add_to_group-IsOpen g addr v) in
    (open', same ∙ ap (λ seen. ranges_after seen addrs) (add_to_group-order g addr v))

-- The addresses are spread so that the first of them are one of each range that the list has, the ranges in the
-- order in which they first appear in it: however many addresses of a list share a range, one stands before each
-- other range has had its turn.
pub spread_by_group-opening :
    (addrs : List NetAddress)
    → (opening rest : List NetAddress) × (spread_by_group addrs ≡ opening ++ rest)
      × (map range_of opening ≡ ranges_after [] addrs)
unfolding spread_by_group spread_rounds
spread_by_group-opening [] = ([], [], refl, refl)
spread_by_group-opening (addr ∷ addrs) =
    let start : Grouping = record { groups = []; order = [] } in
    let g = group_each start (addr ∷ addrs) in
    let (open', same) =
      group_each-ranges start (addr ∷ addrs)
        (record { unique = tt; filled = tt; seen = λ key. refl }) in
    let more : ltb 0 (length (addr ∷ addrs)) ≡ true = ground arith in
    let round = take_round g.order g.groups in
    let (rest, e) =
      spread_rounds-prefix (length addrs) g.order round.1 round.0 (length (addr ∷ addrs)) in
    (round.0, rest, rw more e, take_round-ranges g.order g.groups open'.unique open'.filled ∙ same)
