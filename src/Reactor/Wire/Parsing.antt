-- ===== src/Reactor/Wire/Parsing.antt =====
-- What internal/tenderseed/seedwire.go accepts as an address.
use tenderseed.Common.{
  ℕ, ◌+◌, ◌-◌, ◌*◌, ◌<◌, ◌≡◌, refl, sym, ◌∙◌, ap, subst, List, [], ◌∷◌, ◌++◌, true, false, not,
  ◌&&◌, some, inl, inr, ltb, leb, ◌==◌, arith, Text, length, All, Bool-cases, Option-cases,
  none≢some, some-path,
}
use tenderseed.Address.{NetAddress}
use tenderseed.Reactor.Wire.{
  WireCodec, to_first, split_at_sign, parse_digits, parse_port, parse_host_port, parse_parts,
  parse_wire_address, parse_wire_addresses,
}

-- Puts the parts together again, with an at sign between them.
abbrev joined : List Text → Text
joined [] = []
joined (part ∷ []) = part
joined (part ∷ parts) = part ++ b'@' ∷ joined parts

-- A text without an at sign.
abbrev pub NoAtSign : Text → Type 0
NoAtSign = All (λ c. (c == b'@') ≡ false)

joined-to_first :
    (c : ℕ) (part : Text) (parts : List Text)
    → joined (to_first c (part ∷ parts)) ≡ c ∷ joined (part ∷ parts)
unfolding to_first
joined-to_first c part [] = refl
joined-to_first c part (q ∷ parts) = refl

split-nonempty :
    (raw : Text) → (part : Text) × (parts : List Text) × (split_at_sign raw ≡ part ∷ parts)
unfolding split_at_sign to_first
split-nonempty [] = ([], [], refl)
split-nonempty (c ∷ raw) =
    let (part, parts, e) = split-nonempty raw in
    elim (Bool-cases (c == b'@')) [
      | inl at_sign ↦ ([], split_at_sign raw, rw (at_sign, split_at_sign) refl)
      | inr other ↦ (c ∷ part, parts, rw (other, e, split_at_sign) refl)
    ]

joined-split : (raw : Text) → joined (split_at_sign raw) ≡ raw
unfolding split_at_sign to_first
joined-split [] = refl
joined-split (c ∷ raw) =
    let (part, parts, e) = split-nonempty raw in
    let whole : joined (part ∷ parts) ≡ raw = rw e at (joined-split raw) in
    elim (Bool-cases (c == b'@')) [
      | inl at_sign ↦
          let q : c ≡ b'@' = ground arith in rw (at_sign, e, split_at_sign) (rw (whole, q) refl)
      | inr other ↦ rw (other, e, split_at_sign) (joined-to_first c part parts ∙ ap (◌∷◌ c) whole)
    ]

split-NoAtSign : (raw : Text) → All NoAtSign (split_at_sign raw)
unfolding split_at_sign to_first
split-NoAtSign [] = (tt, tt)
split-NoAtSign (c ∷ raw) =
    let (part, parts, e) = split-nonempty raw in
    let rest : All NoAtSign (part ∷ parts) = subst (All NoAtSign) e (split-NoAtSign raw) in
    elim (Bool-cases (c == b'@')) [
      | inl at_sign ↦ rw (at_sign, split_at_sign) (tt, split-NoAtSign raw)
      | inr other ↦ rw (other, e, split_at_sign) ((other, rest.0), rest.1)
    ]

parse_digits-bound :
    (s : Text) (acc port : ℕ) → acc < 65536 → parse_digits acc s ≡ some port → port < 65536
unfolding parse_digits
parse_digits-bound [] acc port h e = subst (λ n. n < 65536) (some-path e) h
parse_digits-bound (c ∷ s) acc port h e =
    let value = acc * 10 + (c - b'0') in
    elim (Bool-cases (leb b'0' c && leb c b'9' && ltb value 65536)) [
      | inl fits ↦ parse_digits-bound s value port (ground arith) (rw (fits, parse_digits) at e)
      | inr out ↦ absurd (none≢some (rw (out, parse_digits) at e))
    ]

-- A port that is accepted fits in sixteen bits.
parse_port-bound : (s : Text) (port : ℕ) → parse_port s ≡ some port → port < 65536
unfolding parse_port
parse_port-bound [] port e = absurd (none≢some e)
parse_port-bound (c ∷ s) port e = parse_digits-bound (c ∷ s) 0 port (omega arith) e

-- What an accepted text is: an identity and an endpoint about its one at sign, the endpoint a literal
-- IP address and a port of sixteen bits.
pub record IsParsed (codec : WireCodec) (raw : Text) (addr : NetAddress) : Type 0 where
  pub id : Text
  pub rest : Text
  pub host : Text
  pub port_string : Text
  pub ip : List ℕ
  pub port : ℕ
  pub whole : raw ≡ id ++ b'@' ∷ rest
  pub one_sign : NoAtSign id × NoAtSign rest
  pub identity : codec.valid_id id ≡ true
  pub endpoint : codec.split_host_port rest ≡ some (host, port_string)
  pub literal : codec.parse_ip host ≡ some ip
  pub number : parse_port port_string ≡ some port
  pub bounded : port < 65536
  pub built : addr ≡ record (codec.from_ip_port ip port) { id = id }

module _ (codec : WireCodec) where
  parse_parts-two :
      (raw id rest : Text) (addr : NetAddress)
      → raw ≡ id ++ b'@' ∷ rest
      → NoAtSign id × NoAtSign rest
      → parse_parts codec (id ∷ rest ∷ []) ≡ some addr
      → IsParsed codec raw addr
  unfolding parse_parts parse_host_port
  parse_parts-two raw id rest addr whole clean e = elim (Bool-cases (not (codec.valid_id id))) [
    | inl bad ↦ absurd (none≢some (rw (bad, parse_parts) at e))
    | inr good ↦ elim (Option-cases (codec.split_host_port rest)) [
      | inl out ↦ absurd (none≢some (rw (good, out, parse_parts, parse_host_port) at e))
      | inr ((host, port_string), split) ↦ elim (Option-cases (codec.parse_ip host)) [
        | inl name ↦ absurd (none≢some (rw (good, split, name, parse_parts, parse_host_port) at e))
        | inr (ip, literal) ↦ elim (Option-cases (parse_port port_string)) [
          | inl wide ↦
              absurd
                (none≢some (rw (good, split, literal, wide, parse_parts, parse_host_port) at e))
          | inr (port, number) ↦ record {
            id = id;
            rest = rest;
            host = host;
            port_string = port_string;
            ip = ip;
            port = port;
            whole = whole;
            one_sign = clean;
            identity = ground arith;
            endpoint = split;
            literal = literal;
            number = number;
            bounded = parse_port-bound port_string port number;
            built =
                sym (
                  some-path (rw (good, split, literal, number, parse_parts, parse_host_port) at e));
          }
        ]
      ]
    ]
  ]

  parsed :
      (raw : Text) (parts : List Text) (addr : NetAddress)
      → joined parts ≡ raw
      → All NoAtSign parts
      → parse_parts codec parts ≡ some addr
      → IsParsed codec raw addr
  unfolding parse_parts
  parsed raw [] addr whole clean e = absurd (none≢some e)
  parsed raw (id ∷ []) addr whole clean e = absurd (none≢some e)
  parsed raw (id ∷ rest ∷ []) addr whole clean e =
      parse_parts-two raw id rest addr (sym whole) (clean.0, clean.1.0) e
  parsed raw (id ∷ rest ∷ more ∷ parts) addr whole clean e = absurd (none≢some e)

  -- A text that is accepted is an identity and an endpoint about its one at sign; the identity is
  -- valid, the endpoint splits into a literal IP address and a number of sixteen bits, and the
  -- address is built from these.
  pub parse_wire_address_lem :
      (raw : Text) (addr : NetAddress)
      → parse_wire_address codec raw ≡ some addr
      → IsParsed codec raw addr
  unfolding parse_wire_address
  parse_wire_address_lem raw addr h =
      parsed raw (split_at_sign raw) addr (joined-split raw) (split-NoAtSign raw) h

  -- Every entry of an answer is parsed or counted as refused.
  pub length-parse_wire_addresses :
      (raw : List Text)
      → length (parse_wire_addresses codec raw).0 + (parse_wire_addresses codec raw).1 ≡ length raw
  unfolding parse_wire_addresses
  length-parse_wire_addresses [] = omega arith
  length-parse_wire_addresses (entry ∷ raw) = elim (Option-cases (parse_wire_address codec entry)) [
    | inl e ↦ rw (e, parse_wire_addresses) (omega (arith, length-parse_wire_addresses raw))
    | inr (addr, e) ↦ rw (e, parse_wire_addresses) (omega (arith, length-parse_wire_addresses raw))
  ]
