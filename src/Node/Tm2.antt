-- ===== src/Node/Tm2.antt =====
-- The building of a seed of the TM2 stack, internal/tenderseed/seedtm2.go: `NewSeedTM2`.
use tenderseed.Common.{
  ℕ, List, [], ◌∷◌, Bool, not, Option, none, some, ltb, ◌&&◌, ◌==◌, if◌then◌else◌, Text, text_eq,
  length,
}
use tenderseed.Common.Int.{ℤ, pos_part}
use tenderseed.Address.{NetAddress, Net}
use tenderseed.Book.{SeedBook}
use tenderseed.Book.File.{Disk, new_seed_book}
use tenderseed.Config.{Config, validate, disconnect_wait_period, check_period}
use tenderseed.Reactor.{SeedReactor, dial_cost}
use tenderseed.Node.{
  Build, ◌>>=◌, ◌>>◌, pure, or_raise, read, raise_if, refuse, announce, or_close, Outside, NodeInfo,
  version, moniker_of, under_home, make_directory, start_listening, no_chain_id, bad_log_level,
  bad_node_key, bad_address, bad_book, short_check_period, empty_metrics_namespace, bad_seeds,
}
use tenderseed.Node.Lists.{slog_level, split_and_trim_list}
use tenderseed.Node.Metrics.{SeedMetrics, new_seed_tm2_metrics}

-- The calls of the TM2 libraries, and of `strings.TrimSpace`.
pub record Tm2Calls : Type 0 where
  -- The identity in a key file, made if there is no file.
  pub node_key : Text → Option Text
  -- The address made of an identity and a listen address.
  pub net_address : Text → Text → Option NetAddress
  -- `NewNetAddressFromStrings`: the addresses, and the texts that are none.
  pub net_addresses : List Text → List NetAddress × List Text
  pub listen : NetAddress → Bool
  pub discovery_channel : ℕ
  pub trim_space : Text → Text
  -- What is found at the book's path.
  pub book_file : Text → Disk

-- `NewSeedReactorTM2`. The limit of connections is positive in a configuration that passes.
unfoldable pub new_seed_reactor : SeedBook → Config → (wait period : ℕ) → SeedReactor
new_seed_reactor store config wait period = record {
  book = store;
  strict = config.addr_book_strict;
  wait = wait;
  check_period = period;
  max_outbound = pos_part config.max_num_outbound_peers;
  notes = [];
}

-- `SeedTM2`, with what its switch is given.
pub record SeedTm2 : Type 0 where
  pub config : Config
  pub level : ℤ
  pub info : NodeInfo NetAddress
  pub reactor : SeedReactor
  pub metrics : Option SeedMetrics
  pub seeds : List NetAddress
  pub max_inbound : ℕ
  pub max_outbound : ℕ

module _ (outside : Outside) (calls : Tm2Calls) (net : Net) where
  open outside use {parse_duration}
  open calls use {node_key, net_address, net_addresses, listen, trim_space}

  -- `NewSeedTM2` up to the building of the transport: the level of the log and what is announced.
  unfoldable pub prepare : Text → Config → Build (ℤ × NodeInfo NetAddress)
  prepare home config = do
    raise_if (text_eq config.chain_id []) no_chain_id
    refuse (validate config)
    level ← or_raise (slog_level config.log_level) bad_log_level
    make_directory outside (under_home outside home config.node_key_file)
    make_directory outside (under_home outside home config.addr_book_file)
    id ← or_raise (node_key (under_home outside home config.node_key_file)) bad_node_key
    addr ← or_raise (net_address id config.listen_address) bad_address
    announce id
    pure (
      level,
      record {
        id = id;
        address = addr;
        network = config.chain_id;
        channels = calls.discovery_channel ∷ [];
        moniker = moniker_of config;
        version = version;
        app_version = some config.app_version;
      },
    )

  -- The metrics, where they have an endpoint.
  unfoldable pub metrics_of : Config → Build (Option SeedMetrics)
  metrics_of config = if text_eq config.metrics_listen_address [] then pure none else do
    raise_if (text_eq config.metrics_namespace []) empty_metrics_namespace
    metrics ← new_seed_tm2_metrics outside config.metrics_namespace
    pure (some metrics)

  -- The rest of `NewSeedTM2`, each of whose failing paths closes the transport.
  unfoldable pub complete : Text → Config → ℕ → ℤ × NodeInfo NetAddress → Build SeedTm2
  unfolding metrics_of
  complete home config now (level, info) = do
    let file = calls.book_file (under_home outside home config.addr_book_file)
    store ← or_raise (new_seed_book net info.address config.addr_book_strict file now) bad_book
    wait ← read (disconnect_wait_period parse_duration config)
    period ← read (check_period parse_duration config)
    raise_if (ltb 0 period && ltb period dial_cost) short_check_period
    metrics ← metrics_of config
    let parsed = net_addresses (split_and_trim_list trim_space config.seeds)
    raise_if (not (length parsed.1 == 0)) bad_seeds
    pure (record {
      config = config;
      level = level;
      info = info;
      reactor = new_seed_reactor store config wait period;
      metrics = metrics;
      seeds = parsed.0;
      max_inbound = pos_part config.max_num_inbound_peers;
      max_outbound = pos_part config.max_num_outbound_peers;
    })

  unfoldable pub new_seed_tm2 : Text → Config → ℕ → Build SeedTm2
  unfolding prepare complete
  new_seed_tm2 home config now = do
    prepared ← prepare home config
    start_listening (listen prepared.1.address)
    or_close (complete home config now prepared)
