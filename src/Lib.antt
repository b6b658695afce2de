-- ===== src/Lib.antt =====
-- A model of tenderseed, the seed node of AviaOne/tenderseed, and proofs about it.
--
-- A seed answers nodes that look for peers with addresses that it takes for reached. One binary serves two
-- stacks. On TM2 the seed has its own address book and its own discovery reactor; on Cosmos the
-- reactor and the book are cometbft's, and the seed adds the verification of the addresses it serves.
--
-- Files and what they model:
--   Address              the addresses of tm2, whose methods are parameters.
--   Book                 internal/tenderseed/seedbook.go: the record SeedBook, and one function for each
--                        method that changes it (AddPeers, MarkSuccess, MarkAttempt, DropFailing, evict).
--   Book/Queries         its queries (FreshBatch, StaleProvenBatch, Knows and the others).
--   Book/File            Save, Flush, load and NewSeedBook, with what is found at the book's path.
--   Reactor              internal/tenderseed/seedreactortm2.go: the state of the reactor, what it sees of
--                        the switch, and its effects; Reactor/Budget has what may be dialled and
--                        promised, Reactor/Notes what is remembered of each peer, Reactor/Spread the
--                        order of an answer, Reactor/Serve, Reactor/Learn and Reactor/Receive the
--                        handlers, Reactor/Sweep one pass of the sweep, and Reactor/Routines the loops.
--   Reactor/Wire         internal/tenderseed/seedwire.go: addresses as they come off the wire.
--   Cosmos               internal/tenderseed/seedreactor.go: Cosmos/State has the verdicts and how long
--                        they hold, Cosmos/Verify the queue, the verification and its counters.
--   Cosmos/Life          the life of that reactor: what Start starts, and a step relation. Cosmos/Stop has
--                        Start and Stop with the routines that are waited for.
--   Config               internal/tenderseed/config.go; Config/Files has the file, and Config/Settled
--                        and Config/Command what cmd/tenderseed/main.go makes of it.
--   Node                 the building of a seed: what it does to the outside and how it fails. Node/Tm2
--                        has internal/tenderseed/seedtm2.go, Node/Cosmos seed.go, Node/Choice node.go,
--                        Node/Metrics the registration of metrics.go and metricstm2.go, Node/Lists the
--                        level of the log and the list of seeds, Node/Quiet seedquiet.go, and
--                        Node/Lifecycle Start and Stop of both stacks and internal/cmd/start.go, and
--                        Node/Shown internal/cmd/show_node_id.go and version.go.
--   Life                 the processes that run one after another over one home: calls of the reactor, the
--                        steps of a save, crashes and new starts, with the file that outlives them.
--   Common               numbers, lists, maps, sorting and time.
--   Tests                the properties at concrete inputs.
-- The other files hold the proofs and are named for what they prove.
--
-- The reactor of TM2 calls the book directly: an announcement goes through Learn to AddPeers, a
-- connection through AddPeer to MarkSuccess, a pass of the sweep through MarkAttempt and DropFailing,
-- and an answer is drawn from FreshBatch. The book is saved while the lock is free, so Book/File takes
-- what the others do to it meanwhile as a function.
--
-- NewNode builds the seed of the configured stack: it checks the configuration, opens the socket, loads
-- the book through Book/File and makes the reactor. A construction is a do block over what has been
-- done so far, with a value or an error. The calls of the two stacks' libraries are records of
-- functions; a key file is what one call of the library makes of a path, at any time.
--
-- Life puts the parts together: a process is made by NewSeedTM2 over the file that is there, its reactor
-- handles any calls, Save reads the book in one step and puts the file in its place in another, and the
-- process may end between any two steps. WriteFileAtomic leaves the old file or the new one.
--
-- A Go map is an association list whose order stands for one order of iteration. A moment is a number
-- of nanoseconds since the zero time, so that 0 is the zero value, and a duration a number of
-- nanoseconds; now.Sub saturates as it does in Go. The generation of the book is counted modulo 2^64.
-- A string is the list of its bytes. A method that holds a lock while it runs is one step. sort.Slice
-- is a parameter with its contract, which insertion sort meets in Common/Sorting.
--
-- The loops are structural, except the passes of spreadByGroup: these run on fuel, one pass for each
-- address, and each pass takes an address while one is left, so the fuel is enough.
--
-- The version is the one that seed.go declares; a build can set another.
--
-- Not modelled: the metrics server behind its start and its end, the parsing of the command line and the
-- texts of errors; the code of cometbft, tm2, amino, go-toml and Prometheus, and the calls
-- of the file system and the clock, of which the results are parameters; log lines. A ticker and a
-- goroutine are steps that may come at any time; for the length of a connection the ticks of the cycle are
-- taken to come on time.
pub mod Common
pub mod Address
pub mod Book
pub mod Reactor
pub mod Cosmos
pub mod Config
pub mod Node
pub mod Life
pub mod Tests
