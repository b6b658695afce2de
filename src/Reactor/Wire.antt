-- ===== src/Reactor/Wire.antt =====
-- Addresses as they come off the wire, internal/tenderseed/seedwire.go. Decoding a payload is the amino
-- codec of tm2, and checking an identity and building an address are code of tm2 too: parameters. So
-- are `net.SplitHostPort` and `net.ParseIP`, of which the seed relies on nothing but their results.
pub mod Parsing
use tenderseed.Common.{
  ℕ, suc, ◌+◌, ◌-◌, ◌*◌, List, [], ◌∷◌, Bool, true, false, not, ◌&&◌, Option, none, some, ltb, leb,
  ◌==◌, if◌then◌else◌, Text, ◌≡◌, refl, arith, length, ◌≤◌, inl, inr, Bool-cases, Option-cases,
  none≢some, some-path, subst, All, ◌<◌,
}
use tenderseed.Address.{NetAddress}

-- A discovery message, with its addresses as they are on the wire.
pub data WireMessage : Type 0 where
  wire_request : WireMessage
  wire_response : List Text → WireMessage

-- What `decodeDiscovery` may give: an error, no message, or one.
pub data Decoded : Type 0 where
  undecodable : Decoded
  nothing : Decoded
  message : WireMessage → Decoded

pub record WireCodec : Type 0 where
  pub decode : Text → Decoded
  pub valid_id : Text → Bool
  pub split_host_port : Text → Option (Text × Text)
  pub parse_ip : Text → Option (List ℕ)
  pub from_ip_port : List ℕ → ℕ → NetAddress

unfoldable pub decode_discovery : WireCodec → Text → Decoded
decode_discovery codec payload = codec.decode payload

-- Puts a byte in front of the first part.
to_first : ℕ → List Text → List Text
to_first c [] = (c ∷ []) ∷ []
to_first c (part ∷ parts) = (c ∷ part) ∷ parts

-- `strings.Split(raw, "@")`
unfoldable pub split_at_sign : Text → List Text
unfolding to_first
split_at_sign [] = [] ∷ []
split_at_sign (c ∷ raw) =
    if c == b'@' then [] ∷ split_at_sign raw else to_first c (split_at_sign raw)

-- The digits of `strconv.ParseUint(s, 10, 16)`: an error on another byte and past the bound.
parse_digits : ℕ → Text → Option ℕ
parse_digits acc [] = some acc
parse_digits acc (c ∷ s) =
    let value = acc * 10 + (c - b'0') in
    let rest = parse_digits value s in
    if leb b'0' c && leb c b'9' && ltb value 65536 then rest else none

unfoldable pub parse_port : Text → Option ℕ
unfolding parse_digits
parse_port [] = none
parse_port (c ∷ s) = parse_digits 0 (c ∷ s)

module _ (codec : WireCodec) where
  parse_host_port : Text → Text → Option NetAddress
  parse_host_port id rest = elim (codec.split_host_port rest) [
    | none ↦ none
    | some (host, port_string) ↦ elim (codec.parse_ip host) [
      | none ↦ none
      | some ip ↦ elim (parse_port port_string) [
        | none ↦ none
        | some port ↦ some (record (codec.from_ip_port ip port) { id = id })
      ]
    ]
  ]

  parse_parts : List Text → Option NetAddress
  unfolding parse_host_port
  parse_parts (id ∷ rest ∷ []) = if not (codec.valid_id id) then none else parse_host_port id rest
  parse_parts _ = none

  unfoldable pub parse_wire_address : Text → Option NetAddress
  unfolding parse_parts
  parse_wire_address raw = parse_parts (split_at_sign raw)

  -- The addresses, and how many entries were refused.
  unfoldable pub parse_wire_addresses : List Text → List NetAddress × ℕ
  unfolding parse_wire_address
  parse_wire_addresses [] = ([], 0)
  parse_wire_addresses (entry ∷ raw) =
      let rest = parse_wire_addresses raw in
      elim (parse_wire_address entry) [
        | none ↦ (rest.0, rest.1 + 1)
        | some addr ↦ (addr ∷ rest.0, rest.1)
      ]
