-- ===== src/Node/Lifecycle.antt =====
-- The life of a built node: `Start` and `Stop` of internal/tenderseed/seed.go and seedtm2.go, and the
-- command that runs it, internal/cmd/start.go. The switch and the metrics server are code of
-- libraries: whether their calls succeed is an argument.
use tenderseed.Common.{
  ℕ, ◌+◌, ◌≡◌, ◌⊎◌, Bool, true, false, not, text_eq, if◌then◌else◌, [], Option, none, some,
}
use tenderseed.Config.{Config, Stack, cosmos, tm2}

-- What a node holds: the listening socket, the metrics server, the running switch; and how often its
-- address book was told to save.
pub record Process : Type 0 where
  pub listening : Bool
  pub serving_metrics : Bool
  pub switch_running : Bool
  pub saves : ℕ

-- What a construction hands over.
abbrev pub constructed : Process
constructed = record {
  listening = true;
  serving_metrics = false;
  switch_running = false;
  saves = 0;
}

abbrev pub stop_metrics : Process → Process
stop_metrics p = record p { serving_metrics = false }

abbrev pub close_transport : Process → Process
close_transport p = record p { listening = false }

-- `if addr := s.Config.MetricsListenAddress; addr != ""`, at the start of either `Start`.
serve_metrics : Config → Process → Process
serve_metrics config p =
    if text_eq config.metrics_listen_address [] then p else record p { serving_metrics = true }

-- `Start` of the Cosmos stack, by whether the switch starts: the process and whether it returned no error.
unfoldable seed_start : Config → Bool → Process → Process × Bool
unfolding serve_metrics
seed_start config switch_starts p =
    let metered = serve_metrics config p in
    if switch_starts
    then (record metered { switch_running = true }, true)
    else (close_transport (stop_metrics metered), false)

-- `Stop` of the Cosmos stack, by whether `Switch.Stop` returns no error. The switch runs no more either way.
unfoldable seed_stop : Bool → Process → Process × Bool
seed_stop switch_stops p =
    if not p.switch_running
    then (close_transport (stop_metrics p), true)
    else let saved = record p { saves = p.saves + 1 } in
      let stopped = record (stop_metrics saved) { switch_running = false } in
      (close_transport stopped, switch_stops)

-- `Start` of the TM2 stack.
unfoldable seed_tm2_start : Config → Bool → Process → Process × Bool
unfolding serve_metrics
seed_tm2_start config switch_starts p =
    let metered = serve_metrics config p in
    if switch_starts
    then (record metered { switch_running = true }, true)
    else (close_transport (stop_metrics metered), false)

-- `Stop` of the TM2 stack, whose reactor saves the book as the switch stops it.
unfoldable seed_tm2_stop : Bool → Process → Process × Bool
seed_tm2_stop switch_stops p =
    if not p.switch_running
    then (close_transport (stop_metrics p), true)
    else let stopped = record (stop_metrics p) { switch_running = false } in
      (close_transport stopped, switch_stops)

-- The two methods of the interface `Node`, by the stack of the node.
unfoldable start : Stack → Config → Bool → Process → Process × Bool
unfolding seed_start seed_tm2_start
start cosmos config switch_starts p = seed_start config switch_starts p
start tm2 config switch_starts p = seed_tm2_start config switch_starts p

unfoldable pub stop : Stack → Bool → Process → Process × Bool
unfolding seed_stop seed_tm2_stop
stop cosmos switch_stops p = seed_stop switch_stops p
stop tm2 switch_stops p = seed_tm2_stop switch_stops p

-- Where a process is: before `Start`; while the command waits; after a failed start or a trapped signal; and
-- after `Wait` has returned by itself, when the command ends without `Stop`.
pub data Phase : Type 0 where
  waiting started ended returned : Phase

pub data ExitStatus : Type 0 where
  exit_success exit_failure : ExitStatus

-- `Execute` of the start command once `NewNode` has returned a node: what `Start` gives, and the status.
unfoldable pub execute_start : Stack → Config → Bool → Process → Process × Phase × Option ExitStatus
unfolding start
execute_start stack config switch_starts p =
    let out = start stack config switch_starts p in
    if not out.1 then (out.0, ended, some exit_failure) else (out.0, started, none)

-- The end of `Execute`: `Wait` returns once the switch runs no more, and the command succeeds.
unfoldable pub execute_wait : Process → Process × Phase × Option ExitStatus
execute_wait p = if p.switch_running then (p, started, none) else (p, returned, some exit_success)

module _ (config : Config) (stack : Stack) where
  -- What happens to a process, in any order that the command allows.
  pub data Step : Phase × Process → Phase × Process → Type 0 where
    starts :
        (switch_starts : Bool) (p : Process)
        → Step
            (waiting, p)
            (
              (execute_start stack config switch_starts p).1,
              (execute_start stack config switch_starts p).0,
            )
    -- The metrics server ends by itself, say on a port that is taken.
    loses_metrics : (p : Process) → Step (started, p) (started, stop_metrics p)
    -- The switch stops by itself.
    loses_switch : (p : Process) → Step (started, p) (started, record p { switch_running = false })
    -- The command waits, and ends if the switch runs no more.
    waits : (p : Process) → Step (started, p) ((execute_wait p).1, (execute_wait p).0)
    -- The trapped signal.
    signals :
        (switch_stops : Bool) (p : Process)
        → Step (started, p) (ended, (stop stack switch_stops p).0)

  pub data Reach : Phase × Process → Type 0 where
    begins : Reach (waiting, constructed)
    goes : (s t : Phase × Process) → Reach s → Step s t → Reach t

  -- What is held in each phase. Only the Cosmos stack saves its book as `Stop` is called.
  abbrev pub Holds : Phase × Process → Type 0
  Holds (waiting, p) = p ≡ constructed
  Holds (started, p) =
      (p.listening ≡ true)
      × (p.saves ≡ 0)
      × ((p.serving_metrics ≡ false) ⊎ (text_eq config.metrics_listen_address [] ≡ false))
  Holds (returned, p) = (p.listening ≡ true) × (p.saves ≡ 0) × (p.switch_running ≡ false)
  Holds (ended, p) =
      (p.listening ≡ false)
      × (p.serving_metrics ≡ false)
      × (p.switch_running ≡ false)
      × ((p.saves ≡ 0) ⊎ ((stack ≡ cosmos) × (p.saves ≡ 1)))
