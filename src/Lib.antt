-- ===== src/Lib.antt =====
-- A model of swat4master, the master server of SWAT 4. Game servers report themselves to the
-- reporter (UDP), the prober finds their query port and asks for their details, and players read
-- the list of servers from the browser (TCP) or the API. What is known of a server is kept in Redis.
--
-- Prelude holds what the other files share: lists, binary digits, integers and byte strings. Strconv
-- is Go's package strconv, as far as the program uses it: Atoi and FormatInt.
-- - Crypt: pkg/gamespy/crypt, the stream cipher of the browser's answers. State is state.go (the key
--   schedule and the bytes), Crypt itself crypt.go (the frame and the mixing of keys).
-- - Params: pkg/gamespy/serverquery/params. A struct is the list of its exported fields.
-- - Entities: internal/core/entities, a module per package: Addr, Status, Details, Server, Probe,
--   Instance and Filterset.
-- - Slice: pkg/slice, set operations on slices of keys.
-- - Redis: what is assumed of Redis commands and of the JSON encoding, as records of operations and
--   laws. Redis/Model and Redis/Forms are instances of them, so the laws can be satisfied.
-- - Servers: internal/persistence/redis/repositories/servers. A write is a function from the contents
--   of the database to the new contents and the result; a conflict handler, which gets a pointer in
--   the source, returns the server as it left it. The time of the clock is an argument. Exclusive
--   has the five attempts of updateExclusive and the control flow of Guard, where what Redis answers
--   and what other processes store in each attempt are arguments. Counts has Count and CountByStatus,
--   where Redis/Cardinals is assumed of the commands that count.
-- - Lock: internal/persistence/redis/redislock, which guards each write of Servers. Guard is a step
--   relation between any number of calls, where a lease can end at any moment.
-- - Probers: internal/prober/probers, what the outcome of a probe does to a server, and which response
--   is preferred. Probing is Probe of the two probers, where the query of a port, the validator and
--   the order in which the responses arrive are arguments.
-- - Probes: internal/persistence/redis/repositories/probes, the queue of probes: enqueue and pop; Many
--   has PopMany, Pop, Peek and Count.
-- - Runner: internal/prober/proberunner with the metrics that it writes: the scheduler, the channel
--   and the workers as a step relation between states, in which a tick calls PopMany.
-- - Instances: internal/persistence/redis/repositories/instances, the reported instances. The JSON of
--   an item reads an IP address of 4 bytes back with 16, as net.ParseIP gives it.
-- - ProbeServer: internal/core/usecases/probeserver. What other processes do between the steps of the
--   use case is an argument, and so are the prober's answer and the delay of a retry.
-- - RenewServer: internal/core/usecases/renewserver, in the same way.
-- - ReportServer, RemoveServer, AddServer and ListServers: internal/core/usecases/reportserver,
--   removeserver, addserver and listservers. What other processes do before each step is an argument,
--   and so is the answer of the validator of reported fields.
-- - GetServer, RefreshServers and ReviveServers: internal/core/usecases/getserver, refreshservers and
--   reviveservers. The fresh identifiers and the random numbers are arguments.
-- - Cleaners: internal/cleanup/cleaners, the removal of outdated servers and instances.
-- - Observers: internal/metrics/observers/serverobserver, the gauges of the stored and the active
--   servers. The conversion to float64 is an argument.
-- - Api: internal/rest/api, the handlers as functions to the status and the body, with net.ParseIP and
--   the bound request as arguments.
-- - Gs1: pkg/gamespy/serverquery/gs1, the responses of game servers. Gs1 is a single fragment, Collect
--   the order of fragments, Fields the parameters of a payload and Expand the response. The decoder
--   of Latin-1 is an argument.
-- - Browsing: pkg/gamespy/browsing and pkg/binutils, the requests for the list of servers. Filter and
--   Query are the packages of these names below it.
-- - Reporter: internal/reporter and internal/core/entities/master. Dispatch is dispatcher.go, Fields
--   and Heartbeat are the handler of heartbeats; Reporter itself has the other handlers. A handler is
--   a function from the world and the datagram to the new world and the reply.
-- - Browser: internal/browser, which uses Browsing, ListServers, Params and Crypt. Reader is the
--   reader on the side of the game, by which the answers are judged.
-- Servers, Probes and Instances use Redis and Entities, Probers uses Entities, and the use cases use
-- these. Runner takes from Probes what ProbeServer probes, and Cleaners, RefreshServers and
-- ReviveServers work on the servers that a query of Servers gives. The use cases call a write of
-- Servers as one step: Lock has the calls of Guard on one address in any interleaving, and
-- Servers/Exclusive the attempts of one call and what it does of the write.
--
-- A loop without a bound in the source recurses on fuel: digits are printed with the number
-- itself plus one, and Bits goes through as many bits as the value plus one, which is more than
-- either needs; the redraws of the key schedule end after their own limit of eleven, and its
-- mask has eight bits; both give `none` if they have not ended by then, which is proved not to
-- happen. The loops that read names, filters and fields take a byte or more in each round, and
-- get the number of bytes as fuel. The loop of PopMany takes its fuel as an argument: a round
-- that does not end it takes one of the ready identifiers out of the queue at least, so more
-- fuel than there are of them is enough.
--
-- Not modelled: sockets, goroutines of the servers, the other metrics, logging, settings and wiring,
-- since they hold no logic of the program's own; the JSON of the API, which the library slug and
-- regular expressions make of names; errors of the connection to Redis; wrap-around of versions and
-- times, which count from 0; code that only tests or logs use.
pub mod Prelude
pub mod Strconv
pub mod Params
pub mod Entities
pub mod Slice
pub mod Redis
pub mod Servers
pub mod Lock
pub mod Probes
pub mod Instances
pub mod Probers
pub mod ProbeServer
pub mod Runner
pub mod RenewServer
pub mod Gs1
pub mod Browsing
pub mod ReportServer
pub mod RemoveServer
pub mod AddServer
pub mod ListServers
pub mod GetServer
pub mod Api
pub mod RefreshServers
pub mod ReviveServers
pub mod Cleaners
pub mod Observers
pub mod Reporter
pub mod Browser
pub mod Crypt
