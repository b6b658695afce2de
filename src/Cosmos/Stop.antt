-- ===== src/Cosmos/Stop.antt =====
-- The routines that `Start` of internal/tenderseed/seedreactor.go starts, and how `Stop` ends them.
use tenderseed.Common.{
  ℕ, zero, suc, ◌+◌, ◌≤◌, ◌≡◌, ◌≢◌, refl, Bool, true, false, not, ◌&&◌, ◌==◌, if◌then◌else◌, arith,
}
use tenderseed.Cosmos.{CosmosReactor}
use tenderseed.Cosmos.Life.{start_routines}

-- The routines that the group waits for, how often the channel `quit` was closed, whether `once` is used
-- up, and whether the upstream reactor runs.
record Group : Type 0 where
  pub workers : ℕ
  pub sweepers : ℕ
  pub once_done : Bool
  pub closes : ℕ
  pub upstream_runs : Bool

abbrev no_routines : Group
no_routines = record {
  workers = 0;
  sweepers = 0;
  once_done = false;
  closes = 0;
  upstream_runs = false;
}

-- `Start`, by whether the upstream reactor starts: the group and whether it returned no error.
unfoldable start_group : {Addr : Type 0} → CosmosReactor Addr → Bool → Group → Group × Bool
start_group r upstream_starts g = if not upstream_starts then (g, false) else (
  record g {
    workers = g.workers + (start_routines r).0;
    sweepers = if (start_routines r).1 then g.sweepers + 1 else g.sweepers;
    upstream_runs = true;
  },
  true,
)

-- `r.once.Do(func() { close(r.quit) })`
unfoldable close_quit : Group → Group
close_quit g = if g.once_done then g else record g { once_done = true; closes = g.closes + 1 }

-- `r.wg.Wait()` returns.
abbrev is_waited : Group → Bool
is_waited g = (g.workers == 0) && (g.sweepers == 0)

-- The group once `Stop` has returned.
unfoldable stop_group : Group → Group
unfolding close_quit
stop_group g = record (close_quit g) { workers = 0; sweepers = 0; upstream_runs = false }

module _ {Addr : Type 0} (r : CosmosReactor Addr) where
  data Step : Group → Group → Type 0 where
    starts : (upstream_starts : Bool) (g : Group) → Step g (start_group r upstream_starts g).0
    -- A call of `Stop` begins.
    closes_quit : (g : Group) → Step g (close_quit g)
    -- A routine takes the closed channel.
    worker_leaves :
        (g : Group) (n : ℕ) → g.closes ≢ 0 → g.workers ≡ suc n → Step g (record g { workers = n })
    sweeper_leaves :
        (g : Group) (n : ℕ) → g.closes ≢ 0 → g.sweepers ≡ suc n → Step g (record g { sweepers = n })
    -- A call of `Stop` that has closed the channel is past its wait.
    stops_upstream :
        (g : Group)
        → g.once_done ≡ true
        → is_waited g ≡ true
        → Step g (record g { upstream_runs = false })

  data Steps : Group → Group → Type 0 where
    rests : (g : Group) → Steps g g
    moves : (g h k : Group) → Step g h → Steps h k → Steps g k

  -- The channel is closed as often as `once` is used up.
  abbrev IsClosedOnce : Group → Type 0
  IsClosedOnce g = g.closes ≡ (if g.once_done then 1 else 0)

  Step-IsClosedOnce : (g h : Group) → Step g h → IsClosedOnce g → IsClosedOnce h
  unfolding start_group close_quit
  Step-IsClosedOnce g h (starts upstream_starts g') c = ground arith
  Step-IsClosedOnce g h (closes_quit g') c = ground arith
  Step-IsClosedOnce g h (worker_leaves g' n quit e) c = c
  Step-IsClosedOnce g h (sweeper_leaves g' n quit e) c = c
  Step-IsClosedOnce g h (stops_upstream g' done waited) c = c

  Steps-IsClosedOnce : (g h : Group) → Steps g h → IsClosedOnce g → IsClosedOnce h
  Steps-IsClosedOnce g h (rests g') c = c
  Steps-IsClosedOnce g h (moves g' m h' step steps) c =
      Steps-IsClosedOnce m h' steps (Step-IsClosedOnce g' m step c)

  -- A group whose channel is closed.
  abbrev closed : ℕ → ℕ → Bool → Group
  closed workers sweepers upstream_runs = record {
    workers = workers;
    sweepers = sweepers;
    once_done = true;
    closes = 1;
    upstream_runs = upstream_runs;
  }

  sweepers_leave : (n : ℕ) (u : Bool) → Steps (closed 0 n u) (closed 0 0 false)
  sweepers_leave zero u =
      moves (closed 0 0 u) (closed 0 0 false) (closed 0 0 false)
        (stops_upstream (closed 0 0 u) refl refl) (rests (closed 0 0 false))
  sweepers_leave (suc n) u =
      moves (closed 0 (suc n) u) (closed 0 n u) (closed 0 0 false)
        (sweeper_leaves (closed 0 (suc n) u) n (omega arith) refl) (sweepers_leave n u)

  workers_leave : (m n : ℕ) (u : Bool) → Steps (closed m n u) (closed 0 0 false)
  workers_leave zero n u = sweepers_leave n u
  workers_leave (suc m) n u =
      moves (closed (suc m) n u) (closed m n u) (closed 0 0 false)
        (worker_leaves (closed (suc m) n u) m (omega arith) refl) (workers_leave m n u)

  close_quit-closed :
      (g : Group) → IsClosedOnce g → close_quit g ≡ closed g.workers g.sweepers g.upstream_runs
  unfolding close_quit
  close_quit-closed g c = ground arith

  stop_group-closed : (g : Group) → IsClosedOnce g → stop_group g ≡ closed 0 0 false
  unfolding stop_group
  stop_group-closed g c = rw (close_quit-closed g c) refl

  -- However often and in whatever order the reactor is started and stopped, the channel is never closed
  -- twice, which would be a panic, and a call of `Stop` can run to its end: the routines that are left take
  -- the closed channel one by one, and what is left is a group without routines whose channel was closed once.
  Steps-stop_group :
      (g : Group)
      → Steps no_routines g
      → (g.closes ≤ 1) × Steps g (stop_group g) × (stop_group g ≡ closed 0 0 false)
  Steps-stop_group g reached =
      let c = Steps-IsClosedOnce no_routines g reached refl in
      let e = close_quit-closed g c in
      let last = workers_leave g.workers g.sweepers g.upstream_runs in
      (
        ground arith,
        moves g (close_quit g) (stop_group g) (closes_quit g) (rw (e, stop_group-closed g c) last),
        stop_group-closed g c,
      )
