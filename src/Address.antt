-- ===== src/Address.antt =====
-- Addresses of the TM2 stack. `NetAddress` is `p2ptypes.NetAddress` of tm2/pkg/p2p/types, whose code
-- is not in this repository: its three fields are read directly by the seed, and its methods are
-- parameters.
use tenderseed.Common.{ℕ, List, Bool, Option, Text}

-- `ip` holds the bytes of a `net.IP`.
pub record NetAddress : Type 0 where
  pub id : Text
  pub ip : List ℕ
  pub port : ℕ

-- `Validate` (true for a nil error), `Routable`, `Same`, `String` and `NewNetAddressFromString`.
pub record Net : Type 0 where
  pub validate : NetAddress → Bool
  pub routable : NetAddress → Bool
  pub same : NetAddress → NetAddress → Bool
  pub to_string : NetAddress → Text
  pub from_string : Text → Option NetAddress
