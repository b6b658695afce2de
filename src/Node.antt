-- ===== src/Node.antt =====
-- The building of a seed, internal/tenderseed/seed.go, seedtm2.go and node.go: what a construction does
-- to the outside, how it fails, and what of it both stacks share. The p2p libraries, the file system
-- and `filepath` are not in this repository: `Outside` holds what their calls answer.
pub mod Lists
pub mod Metrics
pub mod Published
pub mod Tm2
pub mod Cosmos
pub mod Sockets
pub mod Accepted
pub mod Identity
pub mod Choice
pub mod Lifecycle
pub mod Shown
pub mod Quiet
use tenderseed.Common.{
  ℕ, List, [], ◌∷◌, ◌++◌, Bool, true, false, Option, none, some, if◌then◌else◌, Text, text_eq,
}
use tenderseed.Common.Int.{ℤ}
use tenderseed.Address.{NetAddress}
use tenderseed.Book.File.{Disk}
use tenderseed.Config.{Config, ConfigError, Result}
use tenderseed.Config
use tenderseed.Reactor.{Outcome, Stage}
use tenderseed.Cosmos.{VerifyOutcome}

-- Why a construction fails. `bad_config` carries the refusal of config.go.
pub data NodeError : Type 0 where
  no_chain_id bad_log_level no_directory bad_node_key bad_address cannot_listen : NodeError
  bad_book short_check_period empty_metrics_namespace bad_metrics bad_seeds : NodeError
  bad_config : ConfigError → NodeError

-- A series of the metrics: a decision of the TM2 reactor at its stage, a state of the book's
-- addresses, or a verification of the Cosmos reactor.
pub data Series : Type 0 where
  decision : Outcome → Stage → Series
  known_addresses fresh_addresses : Series
  dial : VerifyOutcome → Series

-- What the construction has done: the directories made, the identities in the banner, whether the
-- transport holds the listening socket, and the series published in the registry.
pub record World : Type 0 where
  pub directories : List Text
  pub banner : List Text
  pub listening : Bool
  pub published : List Series

abbrev pub untouched : World
untouched = record { directories = []; banner = []; listening = false; published = [] }

pub data Built {ℓ} (A : Type ℓ) : Type ℓ where
  built : A → Built A
  stopped : NodeError → Built A

-- A part of a construction: a value or an error, and what it has done by then.
abbrev pub Build : Type 0 → Type 0
Build A = World → Built A × World

module _ {A : Type 0} where
  abbrev pub pure : A → Build A
  pure a w = (built a, w)

  abbrev pub or_raise : Option A → NodeError → Build A
  or_raise none e w = (stopped e, w)
  or_raise (some a) e w = (built a, w)

  -- The readers of config.go return its errors as they are.
  abbrev pub read : Result A → Build A
  read (Config.ok a) w = (built a, w)
  read (Config.error e) w = (stopped (bad_config e), w)

infixl 5 ◌>>=◌ ◌>>◌
abbrev pub ◌>>=◌ : {A B : Type 0} → Build A → (A → Build B) → Build B
◌>>=◌ m f w = let (r, w') = m w in elim r [ built a ↦ f a w' | stopped e ↦ (stopped e, w') ]

abbrev pub ◌>>◌ : {A B : Type 0} → Build A → Build B → Build B
m >> k = m >>= λ _. k

abbrev pub raise_if : Bool → NodeError → Build Unit
raise_if c e w = (if c then stopped e else built tt, w)

abbrev pub refuse : Option ConfigError → Build Unit
refuse none w = (built tt, w)
refuse (some e) w = (stopped (bad_config e), w)

abbrev pub announce : Text → Build Unit
announce id w = (built tt, record w { banner = w.banner ++ id ∷ [] })

abbrev pub publish : List Series → Build Unit
publish labels w = (built tt, record w { published = w.published ++ labels })

-- `closeTransport`, of a transport that has been built.
abbrev pub close_transport : World → World
close_transport w = record w { listening = false }

-- `if err != nil { s.closeTransport(); return nil, err }` around a part.
abbrev pub or_close : {A : Type 0} → Build A → Build A
or_close m w =
    let (r, w') = m w in
    elim r [ built a ↦ (built a, w') | stopped e ↦ (stopped e, close_transport w') ]

-- What a registration in the Prometheus registry answers. Collectors are named by numbers; an existing
-- one is none where it is of another type.
pub data Registration : Type 0 where
  registered : Registration
  already : Option ℕ → Registration
  refused : Registration

-- The calls that both stacks make.
pub record Outside : Type 0 where
  -- `filepath.IsAbs`, `filepath.Join`, `filepath.Dir`, `os.MkdirAll`
  pub is_abs : Text → Bool
  pub join : Text → Text → Text
  pub dir : Text → Text
  pub mkdir_all : Text → Bool
  -- `time.ParseDuration`
  pub parse_duration : Text → Option ℤ
  -- The new vectors of the three metrics under a namespace, and a registration.
  pub decisions_vec : Text → ℕ
  pub book_vec : Text → ℕ
  pub dials_vec : Text → ℕ
  pub register : ℕ → Registration

-- `Version`, as the source declares it; a build can set another text.
abbrev pub version : Text
version = b'3' ∷ b'.' ∷ b'1' ∷ b'.' ∷ b'0' ∷ []

-- What a stack announces in the handshake: the fields of `NodeInfo`, without the versions of the protocols.
-- `app_version` is the entry "app" of the version set of the TM2 stack; the Cosmos stack has none.
pub record NodeInfo (Addr : Type 0) : Type 0 where
  pub id : Text
  pub address : Addr
  pub network : Text
  pub channels : List ℕ
  pub moniker : Text
  pub version : Text
  pub app_version : Option Text

-- `fmt.Sprintf("%s-seed", chainID)` for an empty moniker.
unfoldable pub moniker_of : Config → Text
moniker_of config =
    if text_eq config.moniker []
    then config.chain_id ++ b'-' ∷ b's' ∷ b'e' ∷ b'e' ∷ b'd' ∷ []
    else config.moniker

module _ (outside : Outside) where
  open outside use {is_abs, join, dir, mkdir_all}

  -- A path of the configuration, from the home.
  unfoldable pub under_home : Text → Text → Text
  under_home home path = if is_abs path then path else join home path

  -- `os.MkdirAll(filepath.Dir(path), 0o750)`
  abbrev pub make_directory : Text → Build Unit
  make_directory path w =
      if mkdir_all (dir path)
      then (built tt, record w { directories = w.directories ++ dir path ∷ [] })
      else (stopped no_directory, w)

-- `Transport.Listen`, by whether it succeeds.
abbrev pub start_listening : Bool → Build Unit
start_listening listens w =
    if listens then (built tt, record w { listening = true }) else (stopped cannot_listen, w)
