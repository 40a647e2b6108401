-- ===== src/Lib.antt =====
-- poll-bot: a Discord bot that queues polls until they expire, fetches their results, keeps them in
-- tables beside polls entered by hand, and serves them over HTTP. All paths are below
-- backend/core/root.
--
-- The parts and their files:
--   * GoHeap: `container/heap` of Go's standard library, over a list and a Boolean order.
--   * FileHeap: datas/fileheap/fileheap.go, a heap with a table behind it. Each method that locks is a
--     function of the heap; the codec and the success of its statement are arguments.
--   * FileDict: datas/filedict/filedict.go, a map that is written to and read from a table.
--   * Datas.Set: datas/set/set.go.
--   * Datas.AtomicQueue: datas/atomicqueue. The module has New and the operations on the ring, Waiters
--     is subscribers.go, Steps the step relation of the worker and the goroutines around it, Fifo the
--     bounded list that it refines.
--   * Polls: managers/polls. Polls has the types of polls.go and `less`; Polls.Tables the two tables
--     of finalized.go and the view over them; Polls.Manager the queue, its set of ids and the tables,
--     with Push, CleanQueue, Has and GetTopOrdered of data.go and tryAddToBatch of
--     results_worker.go; Polls.Batch Insert of finalized.go together with the worker that answers it;
--     Polls.Workers how workers are started and stopped; Polls.Overlap the calls of several
--     goroutines that overlap.
--   * Login: api/login. Login.RateLimit is ratelimit.go, Login.Rules and Login.Session are login.go,
--     Login.Users is the users table of db.go, Login.Address is clientip.go, and Login.Tokens the token
--     middleware and CheckLogin.
--   * Access: managers/authorize, managers/aliases, commands/modrank and commands/alias, over FileDict.
--   * Components: managers/components.
--   * Credentials: the form of commands/credentials/set.go, over Login.Users and Components.
--   * Session: the handler of interactions of bot/session.go, over the ranks of Access and Components.
--   * Unix: SnowflakeToTime and TimeToSnowflake of info/unix/time.go.
--   * Audit: the flags of managers/audit, and what the logger's consumer does with an entry;
--     Audit.Consumer the goroutines of log.go as a step relation over the list that the atomic queue
--     refines.
--   * Api.Polls: the handlers of api/polls/polls.go over Polls.Tables. Api.Aliases: those of
--     api/alias/alias.go over the aliases of Access. Api.Web: the handler of api/web/web.go, over the
--     embedded files as an argument.
--   * Csv: ToCSV of csv/csv.go, over the records of Polls.Tables and the aliases of Access. Csv.Text has
--     the bytes of a text, Csv.Rating the pattern of a rating's title, Csv.Reference a definition
--     that looks at one record at a time.
--   * Rate: commands/rate/rate.go, over Polls.Manager.
--   * Status: view_queue and fromMessage of commands/status/queue.go, over Polls.Manager.
--   * Load: the interaction of commands/loadchannel, over Polls.Manager.
--   * Tests: the theorems at concrete inputs.
--
-- A method of the source is a function from its arguments and the state to its results and the new
-- state. A method that holds a lock throughout is one step; what goroutines do between the locks of
-- one call is not modelled, and neither are contexts and time outs. The exceptions are the atomic
-- queue, whose channels and atomics are the state of its step relation, with New, Stop and each
-- operation of the subscribers as one step, the consumer and the Close of the logger, and
-- Polls.Overlap, where a step is one call that locks, or one of the set, which has no lock. The
-- clock, the answers of Discord, the driver of the database, JSON, net/netip, JWT, digests and what
-- the BIGINT column makes of an id that InsertManual writes are arguments. One flag stands for all
-- the queries of a Push, save in Polls.Overlap. A time is a count of nanoseconds since the epoch, and
-- of milliseconds where Unix reads one from a snowflake. A Go string is its bytes where the code looks
-- into it and a text otherwise. int64 wraps where a request can make it (page numbers).
--
-- There is fuel in GoHeap, Status and Unix. In GoHeap `up` runs on the index it starts from and
-- `down` on the length, which its theorems show to be enough, since they state the order of the
-- whole result. In Status one turn of the loop of view_queue takes one unit, and a theorem shows that
-- as many as there are queued polls, and one more, are enough. In Unix a decimal digit takes one unit,
-- and a uint64 has at most 20.
--
-- Not modelled: the texts and the registration of the commands, the order of the groups in a line of the
-- log, the routing and the notice of the API, the server of the embedded files, and the start and stop
-- of the process.
pub mod Common
pub mod GoHeap
pub mod FileHeap
pub mod Datas
pub mod FileDict
pub mod Access
pub mod Components
pub mod Unix
pub mod Polls
pub mod Status
pub mod Load
pub mod Audit
pub mod Login
pub mod Api
pub mod Csv
pub mod Rate
pub mod Session
pub mod Credentials
pub mod Tests
