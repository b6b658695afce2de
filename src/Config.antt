-- ===== src/Config.antt =====
-- The configuration of a seed, internal/tenderseed/config.go, and what the commands make of it,
-- cmd/tenderseed/main.go. Reading a duration and a TOML text is code of Go's and of go-toml's
-- libraries: parameters. Error messages are named, not spelled.
pub mod Checks
pub mod Files
pub mod Command
pub mod Settled
use tenderseed.Common.{
  ℕ, ◌*◌, List, [], ◌∷◌, Bool, true, false, not, ◌&&◌, ◌||◌, Option, none, some, ltb, leb, ◌==◌,
  if◌then◌else◌, Text, text_eq, length,
}
use tenderseed.Common.Int.{ℤ, pos, negsuc, is_zero_ℤ}
use tenderseed.Common.Time.{minute}

abbrev pub default_seed_disconnect_wait_period : ℕ
default_seed_disconnect_wait_period = 5 * minute

abbrev pub default_peer_check_period : ℕ
default_peer_check_period = 10 * minute

abbrev pub default_peer_check_workers : ℕ
default_peer_check_workers = 8

abbrev pub stack_cosmos : Text
stack_cosmos = b'c' ∷ b'o' ∷ b's' ∷ b'm' ∷ b'o' ∷ b's' ∷ []

abbrev pub stack_tm2 : Text
stack_tm2 = b't' ∷ b'm' ∷ b'2' ∷ []

pub record Config : Type 0 where
  pub chain_id : Text
  pub stack : Text
  pub seeds : Text
  pub listen_address : Text
  pub moniker : Text
  pub app_version : Text
  pub node_key_file : Text
  pub addr_book_file : Text
  pub max_num_inbound_peers : ℤ
  pub max_num_outbound_peers : ℤ
  pub max_packet_msg_payload_size : ℤ
  pub allow_duplicate_ip : Bool
  pub addr_book_strict : Bool
  pub seed_disconnect_wait_period : Text
  pub peer_check_period : Text
  pub peer_check_workers : ℤ
  pub log_level : Text
  pub metrics_listen_address : Text
  pub metrics_namespace : Text

-- The two stacks that `SeedStack` may give.
pub data Stack : Type 0 where
  cosmos tm2 : Stack

-- The key that an error names.
pub data ConfigError : Type 0 where
  bad_stack bad_inbound bad_outbound bad_payload bad_workers bad_moniker bad_chain_id : ConfigError
  bad_wait_period bad_check_period contradicting_stack : ConfigError

pub data Result {ℓ} (A : Type ℓ) : Type ℓ where
  ok : A → Result A
  error : ConfigError → Result A

unfoldable pub stack_named : Text → Result Stack
stack_named name =
    if text_eq name [] || text_eq name stack_cosmos
    then ok cosmos
    else if text_eq name stack_tm2
    then ok tm2
    else error bad_stack

unfoldable pub seed_stack : Config → Result Stack
unfolding stack_named
seed_stack config = stack_named config.stack

-- The common part of the two periods: an empty value takes the default, and a negative one is refused.
read_period : (Text → Option ℤ) → ConfigError → ℕ → Text → Result ℕ
read_period parse refusal default value =
    if text_eq value [] then ok default else elim (parse value) [
      | none ↦ error refusal
      | some (pos d) ↦ ok d
      | some (negsuc d) ↦ error refusal
    ]

unfoldable pub disconnect_wait_period : (Text → Option ℤ) → Config → Result ℕ
unfolding read_period
disconnect_wait_period parse config =
    read_period parse bad_wait_period default_seed_disconnect_wait_period
      config.seed_disconnect_wait_period

unfoldable pub check_period : (Text → Option ℤ) → Config → Result ℕ
unfolding read_period
check_period parse config =
    read_period parse bad_check_period default_peer_check_period config.peer_check_period

unfoldable pub check_workers : Config → Result ℕ
check_workers config = elim config.peer_check_workers [
  | pos n ↦ if n == 0 then ok default_peer_check_workers else ok n
  | negsuc n ↦ error bad_workers
]

-- The loop of `isPrintableASCII`.
unfoldable pub printable_from : Bool → Text → Bool
printable_from trimmed [] = trimmed
printable_from trimmed (char ∷ value) =
    let rest = printable_from (if char == 32 then trimmed else true) value in
    if ltb char 32 || ltb 126 char then false else rest

unfoldable pub is_printable_ascii : Text → Bool
unfolding printable_from
is_printable_ascii value = printable_from false value

abbrev pub is_positive : ℤ → Bool
is_positive (pos n) = ltb 0 n
is_positive (negsuc n) = false

abbrev pub is_negative : ℤ → Bool
is_negative (pos n) = false
is_negative (negsuc n) = true

-- `Validate`: the first refusal, if any.
unfoldable pub validate : Config → Option ConfigError
unfolding seed_stack is_printable_ascii
validate config = elim (seed_stack config) [
  | error e ↦ some e
  | ok _ ↦
      if not (is_positive config.max_num_inbound_peers)
      then some bad_inbound
      else if not (is_positive config.max_num_outbound_peers)
      then some bad_outbound
      else if not (is_positive config.max_packet_msg_payload_size)
      then some bad_payload
      else if is_negative config.peer_check_workers
      then some bad_workers
      else if not (text_eq config.moniker []) && not (is_printable_ascii config.moniker)
      then some bad_moniker
      else if not (text_eq config.chain_id []) && not (is_printable_ascii config.chain_id)
      then some bad_chain_id
      else none
]

abbrev same_stack : Stack → Stack → Bool
same_stack cosmos cosmos = true
same_stack tm2 tm2 = true
same_stack _ _ = false

-- The stack that the flag names against the one that the file names.
compare_stacks : Result Stack → Result Stack → Option ConfigError
compare_stacks (error e) current = some e
compare_stacks (ok wanted) (error e) = some e
compare_stacks (ok wanted) (ok current) =
    if not (same_stack wanted current) then some contradicting_stack else none

unfoldable pub check_stack_flag : Config → Text → Option ConfigError
unfolding compare_stacks
check_stack_flag config flag =
    if text_eq flag [] then none else compare_stacks (stack_named flag) (seed_stack config)

-- A flag before the environment, and the environment before the file; an empty value counts as unset.
unfoldable pub overridden : (flag env file : Text) → Text
overridden flag env file =
    if not (text_eq flag []) then flag else if not (text_eq env []) then env else file

-- The two overrides of `main`.
unfoldable pub with_overrides : (chain_flag chain_env seeds_flag seeds_env : Text) → Config → Config
unfolding overridden
with_overrides chain_flag chain_env seeds_flag seeds_env config = record config {
  chain_id = overridden chain_flag chain_env config.chain_id;
  seeds = overridden seeds_flag seeds_env config.seeds;
}

abbrev pub default_config : Config
default_config = record {
  chain_id = [];
  stack = stack_cosmos;
  seeds = [];
  listen_address =
      b't' ∷ b'c' ∷ b'p' ∷ b':' ∷ b'/' ∷ b'/' ∷ b'0' ∷ b'.' ∷ b'0' ∷ b'.' ∷ b'0' ∷ b'.' ∷ b'0'
      ∷ b':' ∷ b'2' ∷ b'6' ∷ b'6' ∷ b'5' ∷ b'6' ∷ [];
  moniker = [];
  app_version = [];
  node_key_file =
      b'c' ∷ b'o' ∷ b'n' ∷ b'f' ∷ b'i' ∷ b'g' ∷ b'/' ∷ b'n' ∷ b'o' ∷ b'd' ∷ b'e' ∷ b'_' ∷ b'k'
      ∷ b'e' ∷ b'y' ∷ b'.' ∷ b'j' ∷ b's' ∷ b'o' ∷ b'n' ∷ [];
  addr_book_file =
      b'd' ∷ b'a' ∷ b't' ∷ b'a' ∷ b'/' ∷ b'a' ∷ b'd' ∷ b'd' ∷ b'r' ∷ b'b' ∷ b'o' ∷ b'o' ∷ b'k'
      ∷ b'.' ∷ b'j' ∷ b's' ∷ b'o' ∷ b'n' ∷ [];
  max_num_inbound_peers = pos 100;
  max_num_outbound_peers = pos 60;
  max_packet_msg_payload_size = pos 1024;
  allow_duplicate_ip = true;
  addr_book_strict = true;
  seed_disconnect_wait_period = b'5' ∷ b'm' ∷ [];
  peer_check_period = b'1' ∷ b'0' ∷ b'm' ∷ [];
  peer_check_workers = pos default_peer_check_workers;
  log_level = b'i' ∷ b'n' ∷ b'f' ∷ b'o' ∷ [];
  metrics_listen_address = [];
  metrics_namespace = b'c' ∷ b'o' ∷ b'm' ∷ b'e' ∷ b't' ∷ b'b' ∷ b'f' ∷ b't' ∷ [];
}
