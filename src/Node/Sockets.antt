-- ===== src/Node/Sockets.antt =====
-- What a construction that fails leaves behind: `NewNode` of internal/tenderseed/node.go with
-- `NewSeedTM2` of seedtm2.go and `NewSeed` of seed.go; and which identity a node announces.
use tenderseed.Common.{ℕ, ◌≡◌, refl, subst, Bool, true, false, arith, Text}
use tenderseed.Common.Int.{ℤ}
use tenderseed.Address.{NetAddress, Net}
use tenderseed.Config.{Config, Stack, cosmos, tm2, seed_stack}
use tenderseed.Node.{
  World, Build, Built, built, stopped, ◌>>=◌, ◌>>◌, read, Outside, NodeInfo, or_close,
  start_listening,
}
use tenderseed.Node.Tm2.{Tm2Calls, SeedTm2, new_seed_tm2}
use tenderseed.Node.Tm2
use tenderseed.Node.Cosmos.{CosmosCalls, Seed, new_seed}
use tenderseed.Node.Cosmos
use tenderseed.Node.Metrics.{new_seed_tm2_metrics, new_verify_metrics}
use tenderseed.Node.Choice.{new_node_of, new_node}

-- Whether the socket is held after a part: after a success, and after a failure.
abbrev pub Leaves : {A : Type 0} → (ok error : Bool) → Built A × World → Type 0
Leaves ok error (built a, w) = w.listening ≡ ok
Leaves ok error (stopped e, w) = w.listening ≡ error

-- A part, and what follows it where it succeeds.
bind-Leaves :
    {A B : Type 0} (m : Build A) (f : A → Build B) (held error ok : Bool) (w : World)
    → Leaves held error (m w)
    → ((a : A) (w' : World) → w'.listening ≡ held → Leaves ok error (f a w'))
    → Leaves ok error ((m >>= f) w)
bind-Leaves {A} {B} m f held error ok w h k = go (m w) h
  where
    go :
        (out : Built A × World)
        → Leaves held error out
        → Leaves ok error (◌>>=◌ (λ (_ : World). out) f w)
    go (built a, w') h' = k a w' h'
    go (stopped e, w') h' = h'

-- A part that keeps the socket, wrapped so that a failure closes it.
or_close-Leaves :
    {A : Type 0} (m : Build A) (w : World)
    → Leaves w.listening w.listening (m w)
    → Leaves w.listening false (or_close m w)
or_close-Leaves {A} m w h = go (m w) h
  where
    go :
        (out : Built A × World)
        → Leaves w.listening w.listening out
        → Leaves w.listening false (or_close (λ (_ : World). out) w)
    go (built a, w') h' = h'
    go (stopped e, w') h' = refl

-- The end of both constructions: the socket is opened, and a failure behind it closes it.
listen-Leaves :
    {A : Type 0} (listens : Bool) (m : Build A) (w : World)
    → w.listening ≡ false
    → ((w' : World) → Leaves w'.listening w'.listening (m w'))
    → Leaves true false (◌>>◌ (start_listening listens) (or_close m) w)
listen-Leaves true m w h k =
    let opened : World = record w { listening = true } in or_close-Leaves m opened (k opened)
listen-Leaves false m w h k = h

module _ (outside : Outside) (calls : Tm2Calls) (net : Net) where
  tm2_prepare-Leaves :
      (home : Text) (config : Config) (w : World)
      → Leaves w.listening w.listening (Tm2.prepare outside calls net home config w)
  unfolding Tm2.prepare
  tm2_prepare-Leaves home config w = ground arith

  tm2_metrics-Leaves :
      (config : Config) (w : World)
      → Leaves w.listening w.listening (Tm2.metrics_of outside calls net config w)
  unfolding Tm2.metrics_of new_seed_tm2_metrics
  tm2_metrics-Leaves config w = ground arith

  tm2_complete-Leaves :
      (home : Text) (config : Config) (now : ℕ) (prepared : ℤ × NodeInfo NetAddress) (w : World)
      → Leaves w.listening w.listening (Tm2.complete outside calls net home config now prepared w)
  unfolding Tm2.complete
  tm2_complete-Leaves home config now prepared w = ground (arith, tm2_metrics-Leaves config w)

  new_seed_tm2-Leaves :
      (home : Text) (config : Config) (now : ℕ) (w : World)
      → w.listening ≡ false
      → Leaves true false (new_seed_tm2 outside calls net home config now w)
  unfolding new_seed_tm2
  new_seed_tm2-Leaves home config now w h =
      bind-Leaves (Tm2.prepare outside calls net home config)
        (λ prepared. do
          start_listening (calls.listen prepared.1.address)
          or_close (Tm2.complete outside calls net home config now prepared))
        false false true w
        (subst (λ b. Leaves b b (Tm2.prepare outside calls net home config w)) h
          (tm2_prepare-Leaves home config w))
        (λ prepared w' h'.
          listen-Leaves (calls.listen prepared.1.address)
            (Tm2.complete outside calls net home config now prepared) w' h'
            (tm2_complete-Leaves home config now prepared))

module _ {Addr : Type 0} (outside : Outside) (calls : CosmosCalls Addr) where
  cosmos_prepare-Leaves :
      (home : Text) (config : Config) (w : World)
      → Leaves w.listening w.listening (Cosmos.prepare outside calls home config w)
  unfolding Cosmos.prepare
  cosmos_prepare-Leaves home config w = ground arith

  cosmos_complete-Leaves :
      (config : Config) (prepared : Cosmos.Periods × NodeInfo Addr) (w : World)
      → Leaves w.listening w.listening (Cosmos.complete outside calls config prepared w)
  unfolding Cosmos.complete Cosmos.metrics_of new_verify_metrics
  cosmos_complete-Leaves config prepared w = ground arith

  new_seed-Leaves :
      (home : Text) (config : Config) (w : World)
      → w.listening ≡ false
      → Leaves true false (new_seed outside calls home config w)
  unfolding new_seed
  new_seed-Leaves home config w h =
      bind-Leaves (Cosmos.prepare outside calls home config)
        (λ prepared. do
          start_listening (calls.listen prepared.1.address)
          or_close (Cosmos.complete outside calls config prepared))
        false false true w
        (subst (λ b. Leaves b b (Cosmos.prepare outside calls home config w)) h
          (cosmos_prepare-Leaves home config w))
        (λ prepared w' h'.
          listen-Leaves (calls.listen prepared.1.address)
            (Cosmos.complete outside calls config prepared) w' h'
            (cosmos_complete-Leaves config prepared))

module _ {Addr : Type 0} (outside : Outside) (cosmos_calls : CosmosCalls Addr) (calls : Tm2Calls)
    (net : Net) where
  new_node_of-Leaves :
      (home : Text) (config : Config) (now : ℕ) (stack : Stack) (w : World)
      → w.listening ≡ false
      → Leaves true false (new_node_of outside cosmos_calls calls net home config now stack w)
  unfolding new_node_of
  new_node_of-Leaves home config now cosmos w h =
      ground (arith, new_seed-Leaves outside cosmos_calls home config w h)
  new_node_of-Leaves home config now tm2 w h =
      ground (arith, new_seed_tm2-Leaves outside calls net home config now w h)

  -- A construction that succeeds holds the listening socket, and one that fails, on whatever path and
  -- whichever stack, holds none.
  pub new_node-Leaves :
      (home : Text) (config : Config) (now : ℕ) (w : World)
      → w.listening ≡ false
      → Leaves true false (new_node outside cosmos_calls calls net home config now w)
  unfolding new_node
  new_node-Leaves home config now w h =
      bind-Leaves (read (seed_stack config))
        (new_node_of outside cosmos_calls calls net home config now) false false true w
        (ground arith) (λ stack w' h'. new_node_of-Leaves home config now stack w' h')
