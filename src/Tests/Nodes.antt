-- ===== src/Tests/Nodes.antt =====
-- The properties of the building and the life of a node, internal/tenderseed/node.go, seed.go and
-- seedtm2.go, of its log handler and of its command line, at small configurations.
use tenderseed.Common.{◌⊎◌, ℕ, ◌*◌, [], ◌∷◌, ◌≡◌, refl, true, false, none, some, Text, text_eq}
use tenderseed.Common.Int.{pos}
use tenderseed.Common.Time.{minute}
use tenderseed.Book.File.{new_seed_book, missing}
use tenderseed.Config.{
  Config, tm2, stack_tm2, default_config, validate, seed_stack, stack_named, disconnect_wait_period,
  check_period, check_stack_flag, with_overrides,
}
use tenderseed.Config.Files.{Toml, absent, holds, load_or_gen_config}
use tenderseed.Config.Settled.{Overrides, settle_config, IsSettled}
use tenderseed.Config.Command.{
  System, main_config, main_config-IsSettled, opens_home, zero_config, start_text,
}
use tenderseed.Node.{version, untouched, built, Outside, registered, under_home, moniker_of}
use tenderseed.Node.Lists.{slog_level, split_and_trim_list, level_info, level_error}
use tenderseed.Node.Tm2.{Tm2Calls, SeedTm2, new_seed_tm2, new_seed_reactor}
use tenderseed.Node.Cosmos.{CosmosCalls}
use tenderseed.Node.Choice.{tm2_node, announced, announced_version, new_node}
use tenderseed.Node.Sockets.{Leaves, new_node-Leaves}
use tenderseed.Node.Accepted.{IsAccepted, new_seed_tm2-IsAccepted}
use tenderseed.Node.Shown.{execute_show_node_id, execute_version, execute_show_node_id-announced}
use tenderseed.Node.Lifecycle.{Process, constructed, execute_start, exit_success, started}
use tenderseed.Node.Quiet.{LogRecord}
use tenderseed.Tests.Samples.{seed, net, today}

-- A seed of the TM2 stack for the chain "a".
abbrev pub config : Config
config = record default_config { stack = stack_tm2; chain_id = b'a' ∷ [] }

-- Every call succeeds. A duration is ten minutes, whatever its text.
abbrev pub outside : Outside
outside = record {
  is_abs = λ path. false;
  join = λ home path. path;
  dir = λ path. path;
  mkdir_all = λ path. true;
  parse_duration = λ text. some (pos (10 * minute));
  decisions_vec = λ namespace. 0;
  book_vec = λ namespace. 1;
  dials_vec = λ namespace. 2;
  register = λ vec. registered;
}

abbrev pub calls : Tm2Calls
calls = record {
  node_key = λ path. some (9 ∷ []);
  net_address = λ id listen. some seed;
  net_addresses = λ texts. ([], []);
  listen = λ addr. true;
  discovery_channel = 80;
  trim_space = λ text. text;
  book_file = λ path. missing;
}

abbrev cosmos_calls : CosmosCalls Text
cosmos_calls = record {
  node_key = λ path. none;
  net_address = λ id listen. none;
  is_unspecified = λ addr. false;
  listen = λ addr. false;
  allow_level = λ level. true;
  pex_channel = 0;
  split_and_trim = λ text. [];
}

new_node-Leaves_example :
    Leaves true false (new_node outside cosmos_calls calls net [] config today untouched)
new_node-Leaves_example =
    new_node-Leaves outside cosmos_calls calls net [] config today untouched refl

abbrev built_seed : SeedTm2
built_seed = record {
  config = config;
  level = level_info;
  info = record {
    id = 9 ∷ [];
    address = seed;
    network = b'a' ∷ [];
    channels = 80 ∷ [];
    moniker = b'a' ∷ b'-' ∷ b's' ∷ b'e' ∷ b'e' ∷ b'd' ∷ [];
    version = version;
    app_version = some [];
  };
  reactor = record {
    book = record {
      self = seed;
      max_peers = 1000;
      strict = true;
      dirty = false;
      generation = 0;
      peers = [];
    };
    strict = true;
    wait = 10 * minute;
    check_period = 10 * minute;
    max_outbound = 60;
    notes = [];
  };
  metrics = none;
  seeds = [];
  max_inbound = 100;
  max_outbound = 60;
}

is_built : (new_seed_tm2 outside calls net [] config today untouched).0 ≡ built built_seed
unfolding new_seed_tm2 under_home moniker_of slog_level split_and_trim_list new_seed_reactor
    new_seed_book validate disconnect_wait_period check_period text_eq
is_built = refl

new_seed_tm2-IsAccepted_example : IsAccepted calls net config built_seed
new_seed_tm2-IsAccepted_example =
    new_seed_tm2-IsAccepted outside calls net [] config today untouched is_built

node_is_built :
    (new_node outside cosmos_calls calls net [] config today untouched).0
    ≡ built (tm2_node built_seed)
unfolding new_node new_seed_tm2 under_home moniker_of slog_level split_and_trim_list
    new_seed_reactor new_seed_book validate seed_stack disconnect_wait_period check_period text_eq
node_is_built = refl

execute_show_node_id-announced_example :
    (execute_show_node_id outside cosmos_calls calls net [] config untouched
      ≡ (announced {Addr = Text} (tm2_node built_seed) ∷ [], exit_success))
    × (execute_version ≡ (announced_version {Addr = Text} (tm2_node built_seed) ∷ [], exit_success))
execute_show_node_id-announced_example =
    execute_show_node_id-announced outside cosmos_calls calls net [] config today untouched
      untouched node_is_built

-- The node is started, and a signal stops it.
abbrev after_start : Process
after_start = record { listening = true; serving_metrics = false; switch_running = true; saves = 0 }

is_started :
    ((execute_start tm2 config true constructed).1 ≡ started)
    × ((execute_start tm2 config true constructed).0 ≡ after_start)
unfolding execute_start text_eq
is_started = (refl, refl)

-- A hang-up, as the switch logs it: the value 1 stands for the reason.
abbrev hang_up_record : LogRecord ℕ
hang_up_record = record {
  time = today;
  level = level_error;
  message = [];
  attrs =
      record { key = b'p' ∷ []; value = 7 }
      ∷ record { key = b'e' ∷ b'r' ∷ b'r' ∷ []; value = 1 }
      ∷ [];
}

abbrev toml : Toml
toml = record { decode = λ text base. some config; encode = λ c. none; keys = λ text. some [] }

abbrev overrides : Overrides
overrides = record {
  stack = stack_tm2;
  chain_flag = [];
  chain_env = b'b' ∷ [];
  seeds_flag = [];
  seeds_env = [];
}

abbrev system : System
system = record { finds_home = true; makes_directory = true; writes = true }

abbrev settled : Config
settled = record config { chain_id = b'b' ∷ [] }

is_settled : (main_config toml system (holds []) overrides start_text).0 ≡ some settled
unfolding main_config settle_config load_or_gen_config check_stack_flag with_overrides text_eq
    stack_named seed_stack opens_home
is_settled = refl

main_config-IsSettled_example :
    (((opens_home start_text ≡ true)
        × (true ≡ true)
        × IsSettled toml true (holds []) overrides settled)
      ⊎ ((opens_home start_text ≡ false) × (settled ≡ zero_config)))
    × (((main_config toml system (holds []) overrides start_text).1 ≡ holds [])
        ⊎ ((opens_home start_text ≡ true) × (holds [] ≡ absent)))
main_config-IsSettled_example =
    main_config-IsSettled toml system (holds []) overrides start_text is_settled
