-- ===== src/Node/Choice.antt =====
-- The choice of the stack and the identity of a node, internal/tenderseed/node.go, which the start and
-- show-node-id commands use.
use tenderseed.Common.{ℕ, Option, Text}
use tenderseed.Address.{Net}
use tenderseed.Config.{Config, Stack, cosmos, tm2, seed_stack}
use tenderseed.Node.{
  Build, ◌>>=◌, ◌>>◌, pure, or_raise, read, Outside, under_home, make_directory, bad_node_key,
}
use tenderseed.Node.Tm2.{Tm2Calls, SeedTm2, new_seed_tm2}
use tenderseed.Node.Cosmos.{CosmosCalls, Seed, new_seed}

-- `Node`: a seed of one stack.
pub data Node (Addr : Type 0) : Type 0 where
  cosmos_node : Seed Addr → Node Addr
  tm2_node : SeedTm2 → Node Addr

-- The identity that a node announces.
abbrev pub announced : {Addr : Type 0} → Node Addr → Text
announced (cosmos_node s) = s.info.id
announced (tm2_node s) = s.info.id

-- The version that it announces.
abbrev pub announced_version : {Addr : Type 0} → Node Addr → Text
announced_version (cosmos_node s) = s.info.version
announced_version (tm2_node s) = s.info.version

module _ {Addr : Type 0} (outside : Outside) (cosmos_calls : CosmosCalls Addr) (calls : Tm2Calls)
    (net : Net) where
  -- The two cases of `NewNode`.
  unfoldable pub new_node_of : Text → Config → ℕ → Stack → Build (Node Addr)
  new_node_of home config now cosmos = do
    seed ← new_seed outside cosmos_calls home config
    pure (cosmos_node seed)
  new_node_of home config now tm2 = do
    seed ← new_seed_tm2 outside calls net home config now
    pure (tm2_node seed)

  unfoldable pub new_node : Text → Config → ℕ → Build (Node Addr)
  unfolding new_node_of
  new_node home config now = do stack ← read (seed_stack config); new_node_of home config now stack

  -- The two cases of `NodeID`.
  unfoldable pub key_of : Stack → Text → Option Text
  key_of cosmos path = cosmos_calls.node_key path
  key_of tm2 path = calls.node_key path

  unfoldable pub node_id : Text → Config → Build Text
  unfolding key_of
  node_id home config = do
    stack ← read (seed_stack config)
    make_directory outside (under_home outside home config.node_key_file)
    or_raise (key_of stack (under_home outside home config.node_key_file)) bad_node_key
