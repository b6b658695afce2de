-- ===== src/Node/Cosmos.antt =====
-- The building of a seed of the Cosmos stack, internal/tenderseed/seed.go: `NewSeed`.
use tenderseed.Common.{
  ℕ, List, [], ◌∷◌, Bool, not, Option, none, some, if◌then◌else◌, Text, text_eq,
}
use tenderseed.Common.Int.{pos_part}
use tenderseed.Config.{Config, validate, disconnect_wait_period, check_period, check_workers}
use tenderseed.Cosmos.{CosmosReactor}
use tenderseed.Cosmos.State.{new_cosmos_reactor}
use tenderseed.Node.{
  Build, ◌>>=◌, ◌>>◌, pure, or_raise, read, raise_if, refuse, announce, or_close, Outside, NodeInfo,
  version, moniker_of, under_home, make_directory, start_listening, no_chain_id, bad_log_level,
  bad_node_key, bad_address, empty_metrics_namespace,
}
use tenderseed.Node.Metrics.{new_verify_metrics}

-- The calls of the cometbft libraries. `Addr` is their `p2p.NetAddress`.
pub record CosmosCalls (Addr : Type 0) : Type 0 where
  -- The identity in a key file, made if there is no file.
  pub node_key : Text → Option Text
  -- The address made of an identity and a listen address, and whether its IP is unspecified.
  pub net_address : Text → Text → Option Addr
  pub is_unspecified : Addr → Bool
  pub listen : Addr → Bool
  -- Whether `log.AllowLevel` knows a level.
  pub allow_level : Text → Bool
  pub pex_channel : ℕ
  pub split_and_trim : Text → List Text

-- `Seed`, with what its reactor and its switch are given. `own` is the address registered in the book.
pub record Seed (Addr : Type 0) : Type 0 where
  pub config : Config
  pub info : NodeInfo Addr
  pub own : Option Addr
  pub reactor : CosmosReactor Addr
  pub dials : Option ℕ
  pub seeds : List Text
  pub wait : ℕ
  pub max_inbound : ℕ
  pub max_outbound : ℕ

-- The typed settings.
pub record Periods : Type 0 where
  pub wait : ℕ
  pub check : ℕ
  pub workers : ℕ

module _ {Addr : Type 0} (outside : Outside) (calls : CosmosCalls Addr) where
  open outside use {parse_duration}
  open calls use {node_key, net_address, is_unspecified, listen, allow_level, split_and_trim}

  -- `NewSeed` up to the building of the transport.
  unfoldable pub prepare : Text → Config → Build (Periods × NodeInfo Addr)
  prepare home config = do
    raise_if (text_eq config.chain_id []) no_chain_id
    refuse (validate config)
    make_directory outside (under_home outside home config.node_key_file)
    make_directory outside (under_home outside home config.addr_book_file)
    wait ← read (disconnect_wait_period parse_duration config)
    check ← read (check_period parse_duration config)
    workers ← read (check_workers config)
    id ← or_raise (node_key (under_home outside home config.node_key_file)) bad_node_key
    raise_if (not (allow_level config.log_level)) bad_log_level
    announce id
    addr ← or_raise (net_address id config.listen_address) bad_address
    pure (
      record { wait = wait; check = check; workers = workers },
      record {
        id = id;
        address = addr;
        network = config.chain_id;
        channels = calls.pex_channel ∷ [];
        moniker = moniker_of config;
        version = version;
        app_version = none;
      },
    )

  -- The metrics, where they have an endpoint.
  unfoldable pub metrics_of : Config → Build (Option ℕ)
  metrics_of config = if text_eq config.metrics_listen_address [] then pure none else do
    raise_if (text_eq config.metrics_namespace []) empty_metrics_namespace
    dials ← new_verify_metrics outside config.metrics_namespace
    pure (some dials)

  -- The rest of `NewSeed`, each of whose failing paths closes the transport.
  unfoldable pub complete : Config → Periods × NodeInfo Addr → Build (Seed Addr)
  unfolding metrics_of
  complete config (periods, info) = do
    dials ← metrics_of config
    pure (record {
      config = config;
      info = info;
      own = if is_unspecified info.address then none else some info.address;
      reactor = new_cosmos_reactor periods.workers periods.check;
      dials = dials;
      seeds = split_and_trim config.seeds;
      wait = periods.wait;
      max_inbound = pos_part config.max_num_inbound_peers;
      max_outbound = pos_part config.max_num_outbound_peers;
    })

  unfoldable pub new_seed : Text → Config → Build (Seed Addr)
  unfolding prepare complete
  new_seed home config = do
    prepared ← prepare home config
    start_listening (listen prepared.1.address)
    or_close (complete config prepared)
