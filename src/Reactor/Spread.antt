-- ===== src/Reactor/Spread.antt =====
-- The order of an answer, internal/tenderseed/seedreactortm2.go: the shuffle and the spread over
-- network ranges.
pub mod Shuffle
pub mod Buckets
pub mod RoundRobin
pub mod Opening
use tenderseed.Common.{
  ℕ, zero, suc, ◌+◌, ◌-◌, ◌/◌, ◌%◌, List, [], ◌∷◌, ◌++◌, Bool, Option, none, some, ◌&&◌, ltb, leb,
  ◌==◌, if◌then◌else◌, Text, text_equality, text_eq, length, take, drop, get_elem?, set,
}
use tenderseed.Common.Map.{lookup, insert}
use tenderseed.Address.{NetAddress}

-- `rand.Int(rand.Reader, n)`: a number below `n`, or no number when the source fails. The calls of one
-- shuffle have different bounds, so a source is a function of the bound.
pub record Random : Type 0 where
  pub draw : ℕ → Option ℕ

unfoldable pub random_below : Random → ℕ → ℕ
random_below rand n = if leb n 1 then 0 else elim (rand.draw n) [ none ↦ 0 | some index ↦ index ]

module _ {A : Type 0} where
  -- `xs[i], xs[j] = xs[j], xs[i]`
  unfoldable pub swap : ℕ → ℕ → List A → List A
  swap i j xs = elim (get_elem? xs i) [
    | none ↦ xs
    | some a ↦ elim (get_elem? xs j) [ none ↦ xs | some b ↦ set (set xs i b) j a ]
  ]

  -- The loop from `i` down to 1.
  unfoldable pub shuffle_from : Random → ℕ → List A → List A
  unfolding swap random_below
  shuffle_from rand zero xs = xs
  shuffle_from rand (suc i) xs =
      shuffle_from rand i (swap (suc i) (random_below rand (suc i + 1)) xs)

-- `len(addrs) - 1`; for an empty slice the loop of the source does not run either.
abbrev pub last_index : ℕ → ℕ
last_index zero = 0
last_index (suc n) = n

unfoldable pub shuffle_addresses : Random → List NetAddress → List NetAddress
unfolding shuffle_from
shuffle_addresses rand addrs = shuffle_from rand (last_index (length addrs)) addrs

-- The prefix of an IPv4 address in sixteen bytes.
abbrev mapped_prefix : List ℕ
mapped_prefix = 0 ∷ 0 ∷ 0 ∷ 0 ∷ 0 ∷ 0 ∷ 0 ∷ 0 ∷ 0 ∷ 0 ∷ 255 ∷ 255 ∷ []

-- `ip.To4()` of the standard library.
unfoldable pub to_4 : List ℕ → Option (List ℕ)
to_4 ip =
    if length ip == 4
    then some ip
    else if length ip == 16 && text_eq (take 12 ip) mapped_prefix
    then some (drop 12 ip)
    else none

hex_digit : ℕ → ℕ
hex_digit n = if ltb n 10 then b'0' + n else b'a' + (n - 10)

hex : List ℕ → Text
unfolding hex_digit
hex [] = []
hex (byte ∷ bytes) = hex_digit (byte / 16) ∷ hex_digit (byte % 16) ∷ hex bytes

-- `ip.String()` for an IP of fewer than four bytes, the only use.
short_ip_string : List ℕ → Text
unfolding hex
short_ip_string [] = b'<' ∷ b'n' ∷ b'i' ∷ b'l' ∷ b'>' ∷ []
short_ip_string ip = b'?' ∷ hex ip

unfoldable pub network_group : List ℕ → Text
unfolding to_4 short_ip_string
network_group ip = elim (to_4 ip) [
  | some v4 ↦ take 2 v4
  | none ↦ if leb 4 (length ip) then take 4 ip else short_ip_string ip
]

-- The buckets by group, and the groups in the order of their first address.
pub record Grouping : Type 0 where
  pub groups : List (Text × List NetAddress)
  pub order : List Text

unfoldable pub bucket_of : Text → List (Text × List NetAddress) → List NetAddress
bucket_of key groups = elim (lookup key groups) [ none ↦ [] | some bucket ↦ bucket ]

unfoldable pub add_to_group : Grouping → NetAddress → Grouping
unfolding bucket_of
add_to_group g addr =
    let key = network_group addr.ip in
    record {
      groups = insert key (bucket_of key g.groups ++ addr ∷ []) g.groups;
      order = elim (lookup key g.groups) [ none ↦ g.order ++ key ∷ [] | some _ ↦ g.order ];
    }

unfoldable pub group_each : Grouping → List NetAddress → Grouping
unfolding add_to_group
group_each g [] = g
group_each g (addr ∷ addrs) = group_each (add_to_group g addr) addrs

-- One pass over the groups: the first address of each bucket that has one, and the buckets left.
unfoldable pub take_round :
    List Text → List (Text × List NetAddress) → List NetAddress × List (Text × List NetAddress)
unfolding bucket_of
take_round [] groups = ([], groups)
take_round (key ∷ order) groups = elim (bucket_of key groups) [
  | [] ↦ take_round order groups
  | addr ∷ bucket ↦
      let rest = take_round order (insert key bucket groups) in (addr ∷ rest.0, rest.1)
]

-- `for len(spread) < len(addrs)`, with fuel.
unfoldable pub spread_rounds :
    ℕ → List Text → List (Text × List NetAddress) → List NetAddress → ℕ → List NetAddress
unfolding take_round
spread_rounds zero order groups spread total = spread
spread_rounds (suc fuel) order groups spread total =
    let round = take_round order groups in
    let rest = spread_rounds fuel order round.1 (spread ++ round.0) total in
    if ltb (length spread) total then rest else spread

-- Each pass takes an address while one is left, so as many passes as addresses are enough.
unfoldable pub spread_by_group : List NetAddress → List NetAddress
unfolding spread_rounds group_each
spread_by_group addrs =
    let g = group_each (record { groups = []; order = [] }) addrs in
    spread_rounds (length addrs) g.order g.groups [] (length addrs)
