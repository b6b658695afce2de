-- ===== src/Node/Identity.antt =====
-- Which identity a node of internal/tenderseed/node.go announces, and what a configuration that is
-- refused leaves untouched.
use tenderseed.Common.{
  ℕ, [], ◌≡◌, refl, sym, ap, ◌⊎◌, true, false, some, Option, subst, arith, Text, text_eq,
}
use tenderseed.Common.Int.{ℤ}
use tenderseed.Address.{NetAddress, Net}
use tenderseed.Config.{
  Config, ConfigError, Stack, Result, ok, error, cosmos, tm2, seed_stack, validate,
}
use tenderseed.Node.{
  World, built, stopped, NodeError, ◌>>◌, Outside, NodeInfo, version, or_close, start_listening,
  under_home, pure,
}
use tenderseed.Node.Tm2.{Tm2Calls, SeedTm2, new_seed_tm2}
use tenderseed.Node.Tm2
use tenderseed.Node.Cosmos.{CosmosCalls, Seed, new_seed}
use tenderseed.Node.Cosmos
use tenderseed.Node.Accepted.{bind-built, listening-built}
use tenderseed.Node.Choice.{
  Node, cosmos_node, tm2_node, announced, announced_version, new_node_of, new_node, node_id,
}

-- The two checks that come first.
abbrev IsRefused : Config → Type 0
IsRefused config =
    (text_eq config.chain_id [] ≡ true)
    ⊎ ((text_eq config.chain_id [] ≡ false) × (c : ConfigError) × (validate config ≡ some c))

built≢stopped : {A : Type 0} {a : A} {e : NodeError} → built a ≡ stopped e → ⊥
built≢stopped h = cc

-- What is announced, for a key file that can be made and an answer of the reader of keys.
IsKeyed : {Addr : Type 0} → Outside → (Text → Option Text) → Text → Config → NodeInfo Addr → Type 0
IsKeyed outside node_key home config info =
    let path = under_home outside home config.node_key_file in
    (outside.mkdir_all (outside.dir path) ≡ true)
    × (node_key path ≡ some info.id)
    × (info.version ≡ version)

module _ (outside : Outside) (calls : Tm2Calls) (net : Net) where
  tm2_prepare-id :
      (home : Text) (config : Config) (w : World) {p : ℤ × NodeInfo NetAddress}
      → (Tm2.prepare outside calls net home config w).0 ≡ built p
      → IsKeyed outside calls.node_key home config p.1
  unfolding Tm2.prepare IsKeyed
  tm2_prepare-id home config w h = ground arith

  tm2_complete-info :
      (home : Text) (config : Config) (now : ℕ) (p : ℤ × NodeInfo NetAddress) (w : World)
      {s : SeedTm2}
      → (Tm2.complete outside calls net home config now p w).0 ≡ built s
      → s.info ≡ p.1
  unfolding Tm2.complete
  tm2_complete-info home config now p w h = ground arith

  -- The key file of a TM2 seed that is built.
  new_seed_tm2-id :
      (home : Text) (config : Config) (now : ℕ) (w : World) {s : SeedTm2}
      → (new_seed_tm2 outside calls net home config now w).0 ≡ built s
      → IsKeyed outside calls.node_key home config s.info
  unfolding new_seed_tm2
  new_seed_tm2-id home config now w {s} h =
      let (p, w', prepared, rest) =
        bind-built (Tm2.prepare outside calls net home config)
          (λ p. do
            start_listening (calls.listen p.1.address)
            or_close (Tm2.complete outside calls net home config now p))
          w h in
      let (w'', completed) =
        listening-built (calls.listen p.1.address)
          (Tm2.complete outside calls net home config now p) w' rest in
      subst (IsKeyed outside calls.node_key home config)
        (sym (tm2_complete-info home config now p w'' completed))
        (tm2_prepare-id home config w (ap (λ x. x.0) prepared))

module _ {Addr : Type 0} (outside : Outside) (calls : CosmosCalls Addr) where
  cosmos_prepare-id :
      (home : Text) (config : Config) (w : World) {p : Cosmos.Periods × NodeInfo Addr}
      → (Cosmos.prepare outside calls home config w).0 ≡ built p
      → IsKeyed outside calls.node_key home config p.1
  unfolding Cosmos.prepare IsKeyed
  cosmos_prepare-id home config w h = ground arith

  cosmos_complete-info :
      (config : Config) (p : Cosmos.Periods × NodeInfo Addr) (w : World) {s : Seed Addr}
      → (Cosmos.complete outside calls config p w).0 ≡ built s
      → s.info ≡ p.1
  unfolding Cosmos.complete
  cosmos_complete-info config p w h = ground arith

  -- The key file of a Cosmos seed that is built.
  new_seed-id :
      (home : Text) (config : Config) (w : World) {s : Seed Addr}
      → (new_seed outside calls home config w).0 ≡ built s
      → IsKeyed outside calls.node_key home config s.info
  unfolding new_seed
  new_seed-id home config w {s} h =
      let (p, w', prepared, rest) =
        bind-built (Cosmos.prepare outside calls home config)
          (λ p. do
            start_listening (calls.listen p.1.address)
            or_close (Cosmos.complete outside calls config p))
          w h in
      let (w'', completed) =
        listening-built (calls.listen p.1.address) (Cosmos.complete outside calls config p) w'
          rest in
      subst (IsKeyed outside calls.node_key home config)
        (sym (cosmos_complete-info config p w'' completed))
        (cosmos_prepare-id home config w (ap (λ x. x.0) prepared))

module _ {Addr : Type 0} (outside : Outside) (cosmos_calls : CosmosCalls Addr) (calls : Tm2Calls)
    (net : Net) where
  node_of-id :
      (home : Text) (config : Config) (now : ℕ) (stack : Stack) (w w' : World) {node : Node Addr}
      → seed_stack config ≡ ok stack
      → (new_node_of outside cosmos_calls calls net home config now stack w).0 ≡ built node
      → ((node_id outside cosmos_calls calls net home config w').0 ≡ built (announced node))
        × (announced_version node ≡ version)
  unfolding new_node_of node_id IsKeyed
  node_of-id home config now cosmos w w' q h =
      let (s, w'', seed, made) =
        bind-built (new_seed outside cosmos_calls home config) (λ s. pure (cosmos_node s)) w h in
      let keyed = new_seed-id outside cosmos_calls home config w (ap (λ x. x.0) seed) in
      ground arith
  node_of-id home config now tm2 w w' q h =
      let (s, w'', seed, made) =
        bind-built (new_seed_tm2 outside calls net home config now) (λ s. pure (tm2_node s)) w h in
      let keyed = new_seed_tm2-id outside calls net home config now w (ap (λ x. x.0) seed) in
      ground arith

  -- The identity that `show-node-id` shows for a home, at whatever time, is the one that a node built from
  -- the same home and configuration announces, on either stack, and it announces the seed's version.
  pub node_id-announced :
      (home : Text) (config : Config) (now : ℕ) (w w' : World) {node : Node Addr}
      → (new_node outside cosmos_calls calls net home config now w).0 ≡ built node
      → ((node_id outside cosmos_calls calls net home config w').0 ≡ built (announced node))
        × (announced_version node ≡ version)
  unfolding new_node
  node_id-announced home config now w w' {node} h = go (seed_stack config) refl
    where
      go :
          (r : Result Stack)
          → seed_stack config ≡ r
          → ((node_id outside cosmos_calls calls net home config w').0 ≡ built (announced node))
            × (announced_version node ≡ version)
      go (ok stack) q = node_of-id home config now stack w w' q (rw q at h)
      go (error e) q = absurd (built≢stopped (sym (rw q at h)))
