-- ===== src/Config/Command.antt =====
-- `main` of cmd/tenderseed/main.go up to the call of the library that runs a command.
use tenderseed.Common.{
  [], ◌∷◌, ◌≡◌, refl, ◌⊎◌, inl, inr, Bool, true, false, not, Option, none, some, if◌then◌else◌,
  Text, text_eq, arith,
}
use tenderseed.Common.Int.{pos}
use tenderseed.Config.{Config}
use tenderseed.Config.Files.{ConfigFile, absent, unreadable, holds, Toml, load_or_gen_config}
use tenderseed.Config.Settled.{Overrides, settle_config, IsSettled, settle_config-IsSettled}

-- The names in `switch flag.Arg(0)`.
abbrev pub start_text : Text
start_text = b's' ∷ b't' ∷ b'a' ∷ b'r' ∷ b't' ∷ []

abbrev pub show_node_id_text : Text
show_node_id_text =
    b's' ∷ b'h' ∷ b'o' ∷ b'w' ∷ b'-' ∷ b'n' ∷ b'o' ∷ b'd' ∷ b'e' ∷ b'-' ∷ b'i' ∷ b'd' ∷ []

unfoldable pub opens_home : Text → Bool
opens_home command = if text_eq command start_text then true else text_eq command show_node_id_text

-- `&tenderseed.Config{}`
abbrev pub zero_config : Config
zero_config = record {
  chain_id = [];
  stack = [];
  seeds = [];
  listen_address = [];
  moniker = [];
  app_version = [];
  node_key_file = [];
  addr_book_file = [];
  max_num_inbound_peers = pos 0;
  max_num_outbound_peers = pos 0;
  max_packet_msg_payload_size = pos 0;
  allow_duplicate_ip = false;
  addr_book_strict = false;
  seed_disconnect_wait_period = [];
  peer_check_period = [];
  peer_check_workers = pos 0;
  log_level = [];
  metrics_listen_address = [];
  metrics_namespace = [];
}

-- What the system answers: `homedir.Dir`, `os.MkdirAll`, and the write of a new file.
pub record System : Type 0 where
  pub finds_home : Bool
  pub makes_directory : Bool
  pub writes : Bool

-- The configuration that the commands are registered with, none where `main` fails, and the file.
unfoldable pub main_config :
    Toml → System → ConfigFile → Overrides → Text → Option Config × ConfigFile
unfolding opens_home
main_config toml system file o command =
    if not system.finds_home
    then (none, file)
    else if not (opens_home command)
    then (some zero_config, file)
    else if not system.makes_directory
    then (none, file)
    else settle_config toml system.writes file o

-- Nothing but a first run of a command that opens a home changes the file.
keeps_file :
    (toml : Toml) (written : Bool) (file : ConfigFile) (stack : Text)
    → ((load_or_gen_config toml written file stack).1 ≡ file) ⊎ (file ≡ absent)
unfolding load_or_gen_config
keeps_file toml written absent stack = inr refl
keeps_file toml written unreadable stack = inl refl
keeps_file toml written (holds text) stack = inl refl

main_config-file :
    (toml : Toml) (system : System) (file : ConfigFile) (o : Overrides) (command : Text)
    → ((main_config toml system file o command).1 ≡ file)
      ⊎ ((opens_home command ≡ true) × (file ≡ absent))
unfolding main_config settle_config
main_config-file toml system file o command = elim (keeps_file toml system.writes file o.stack) [
  | inl kept ↦ ground arith
  | inr missing ↦ ground arith
]

-- Where `main` gives a configuration to the commands: for a command that opens a home, its directory is made,
-- and the configuration is the loaded one with nothing but the chain and the seeds replaced, each by its flag,
-- else by its variable, where one is given, and with a stack flag that is empty or names its stack; any other
-- command gets the empty configuration. The file is as it was, unless there was none and the command opens a
-- home.
pub main_config-IsSettled :
    (toml : Toml) (system : System) (file : ConfigFile) (o : Overrides) (command : Text)
    {config : Config}
    → (main_config toml system file o command).0 ≡ some config
    → (((opens_home command ≡ true)
          × (system.makes_directory ≡ true)
          × IsSettled toml system.writes file o config)
        ⊎ ((opens_home command ≡ false) × (config ≡ zero_config)))
      × (((main_config toml system file o command).1 ≡ file)
          ⊎ ((opens_home command ≡ true) × (file ≡ absent)))
unfolding main_config
main_config-IsSettled toml system file o command {config} h =
    let settled = settle_config-IsSettled toml system.writes file o {config = config} in
    (ground arith, main_config-file toml system file o command)
