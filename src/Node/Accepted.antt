-- ===== src/Node/Accepted.antt =====
-- What a seed that `NewSeedTM2` of internal/tenderseed/seedtm2.go has built is.
use tenderseed.Common.{
  ℕ, [], ◌≡◌, ◌≤◌, refl, sym, ap, subst, ◌∙◌, ◌⊎◌, Bool, true, false, none, some, arith, Text,
  text_eq, text_eq_iff, text_equality,
}
use tenderseed.Common.Int.{ℤ}
use tenderseed.Common.Map.{Distinct}
use tenderseed.Address.{NetAddress, Net}
use tenderseed.Book.File.{new_seed_book}
use tenderseed.Book.File.Loading.{new_seed_book-IsValid}
use tenderseed.Config.{Config, validate}
use tenderseed.Config.Checks.{IsUsable, validate_iff}
use tenderseed.Reactor.{dial_cost}
use tenderseed.Reactor.Receive.Exchange.{IsSound}
use tenderseed.Node.{
  World, Build, Built, built, stopped, ◌>>=◌, ◌>>◌, Outside, NodeInfo, or_close, start_listening,
  under_home,
}
use tenderseed.Node.Lists.{slog_level, split_and_trim_list}
use tenderseed.Node.Tm2.{
  Tm2Calls, SeedTm2, new_seed_tm2, prepare, complete, metrics_of, new_seed_reactor,
}

-- The inversion of a part that succeeds.
pub bind-built :
    {A B : Type 0} (m : Build A) (f : A → Build B) (w : World) {b : B}
    → (◌>>=◌ m f w).0 ≡ built b
    → (a : A) × (w' : World) × (m w ≡ (built a, w')) × ((f a w').0 ≡ built b)
bind-built {A} {B} m f w {b} h = go (m w) refl h
  where
    go :
        (out : Built A × World)
        → m w ≡ out
        → (◌>>=◌ (λ (_ : World). out) f w).0 ≡ built b
        → (a : A) × (w' : World) × (m w ≡ (built a, w')) × ((f a w').0 ≡ built b)
    go (built a, w') e h' = (a, w', e, h')
    go (stopped x, w') e h' = absurd (cc)

or_close-built :
    {A : Type 0} (m : Build A) (w : World) {a : A} → (or_close m w).0 ≡ built a → (m w).0 ≡ built a
or_close-built m w h = ground arith

pub listening-built :
    {A : Type 0} (listens : Bool) (m : Build A) (w : World) {a : A}
    → (◌>>◌ (start_listening listens) (or_close m) w).0 ≡ built a
    → (w' : World) × ((m w').0 ≡ built a)
listening-built true m w h =
    (record w { listening = true }, or_close-built m (record w { listening = true }) h)
listening-built false m w h = absurd (cc)

-- What a seed that is built is: its configuration passes, its chain is named and its level known; its
-- reactor is sound and has no notes; its period is none or long enough for one dial; its metrics, if any,
-- have a namespace; and every seed of its list is an address.
pub record IsAccepted (calls : Tm2Calls) (net : Net) (config : Config) (s : SeedTm2) : Type 0 where
  pub usable : IsUsable config
  pub named : text_eq config.chain_id [] ≡ false
  pub level : slog_level config.log_level ≡ some s.level
  pub sound : IsSound net s.reactor
  pub period : (s.reactor.check_period ≡ 0) ⊎ (dial_cost ≤ s.reactor.check_period)
  pub metered : (config.metrics_listen_address ≡ []) ⊎ (text_eq config.metrics_namespace [] ≡ false)
  pub seeds :
      calls.net_addresses (split_and_trim_list calls.trim_space config.seeds) ≡ (s.seeds, [])

module _ (outside : Outside) (calls : Tm2Calls) (net : Net) where
  -- The part before the socket.
  prepare-built :
      (home : Text) (config : Config) (w : World) {level : ℤ} {info : NodeInfo NetAddress}
      → (prepare outside calls net home config w).0 ≡ built (level, info)
      → (validate config ≡ none)
        × (text_eq config.chain_id [] ≡ false)
        × (slog_level config.log_level ≡ some level)
  unfolding prepare
  prepare-built home config w h = ground arith

  complete-built :
      (home : Text) (config : Config) (now : ℕ) (level : ℤ) (info : NodeInfo NetAddress) (w : World)
      {s : SeedTm2}
      → (complete outside calls net home config now (level, info) w).0 ≡ built s
      → (s.level ≡ level)
        × (s.reactor.notes ≡ [])
        × (new_seed_book net info.address config.addr_book_strict
              (calls.book_file (under_home outside home config.addr_book_file))
              now
            ≡ some s.reactor.book)
        × ((s.reactor.check_period ≡ 0) ⊎ (dial_cost ≤ s.reactor.check_period))
        × ((config.metrics_listen_address ≡ []) ⊎ (text_eq config.metrics_namespace [] ≡ false))
        × (calls.net_addresses (split_and_trim_list calls.trim_space config.seeds) ≡ (s.seeds, []))
  unfolding complete metrics_of new_seed_reactor
  complete-built home config now level info w h =
      ground (arith, text_eq_iff config.metrics_listen_address [])

  -- The parts of a construction that succeeds.
  new_seed_tm2-parts :
      (home : Text) (config : Config) (now : ℕ) (w : World) {s : SeedTm2}
      → (new_seed_tm2 outside calls net home config now w).0 ≡ built s
      → (level : ℤ) × (info : NodeInfo NetAddress) × (w' : World) × ((prepare outside calls net home
            config w).0
          ≡ built (level, info))
        × ((complete outside calls net home config now (level, info) w').0 ≡ built s)
  unfolding new_seed_tm2
  new_seed_tm2-parts home config now w {s} h =
      let ((level, info), w', prepared, rest) =
        bind-built (prepare outside calls net home config)
          (λ p. do
            start_listening (calls.listen p.1.address)
            or_close (complete outside calls net home config now p))
          w h in
      let (w'', completed) =
        listening-built (calls.listen info.address)
          (complete outside calls net home config now (level, info)) w' rest in
      (level, info, w'', ap (λ x. x.0) prepared, completed)

  -- The book of a seed that is built is the one that its file opens as.
  pub new_seed_tm2-opened :
      (home : Text) (config : Config) (now : ℕ) (w : World) {s : SeedTm2}
      → (new_seed_tm2 outside calls net home config now w).0 ≡ built s
      → (self : NetAddress) × (new_seed_book net self config.addr_book_strict
            (calls.book_file (under_home outside home config.addr_book_file))
            now
          ≡ some s.reactor.book)
  new_seed_tm2-opened home config now w h =
      let (level, info, w', prepared, completed) = new_seed_tm2-parts home config now w h in
      (info.address, (complete-built home config now level info w' completed).2)

  -- A seed of the TM2 stack is built only as its configuration tells: with a usable configuration, a
  -- named chain and a known level; with a sound reactor, whatever the book's file holds; with a period that is
  -- zero, which turns the sweep off, or not shorter than one dial; with a namespace where the metrics have an endpoint; and with every
  -- entry of its list of seeds.
  pub new_seed_tm2-IsAccepted :
      (home : Text) (config : Config) (now : ℕ) (w : World) {s : SeedTm2}
      → (new_seed_tm2 outside calls net home config now w).0 ≡ built s
      → IsAccepted calls net config s
  new_seed_tm2-IsAccepted home config now w h =
      let (level, info, w'', prepared, completed) = new_seed_tm2-parts home config now w h in
      let (passes, named, known) = prepare-built home config w prepared in
      let (same, no_notes, opened, period, metered, seeds) =
        complete-built home config now level info w'' completed in
      record {
        usable = (validate_iff config).0 passes;
        named = named;
        level = known ∙ ap some (sym same);
        sound = record {
          book =
              new_seed_book-IsValid net info.address config.addr_book_strict
                (calls.book_file (under_home outside home config.addr_book_file)) now opened;
          notes = subst Distinct (sym no_notes) tt;
        };
        period = period;
        metered = metered;
        seeds = seeds;
      }
