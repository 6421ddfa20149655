-- ===== src/Lib.antt =====
-- mesh-manager: tunnels of a mesh node, from their rows in the database to the kernel.
--
-- The program keeps a table of tunnels. The API creates, edits and deletes rows and hands them to
-- the Wireguard manager, which brings a network device up for each of them. A watcher matches the
-- devices of the host with the rows, marks them active or inactive, and has the traffic of each
-- active one counted. The link quality manager keeps a tracker for each neighbor and shows the API how
-- good a tunnel is. Beside these, a walker visits the nodes of the mesh, parsers read the files of the
-- routing daemons, and generators write their configuration.
--
-- The files, and the code that each of them models:
--   Common      shared names, lists, byte strings as Go's strings, results, association lists
--   Net         net.IP for IPv4: the four octets, their text, and net.ParseIP
--   Store       the table behind gorm.DB: operations and the laws that the documentation gives them;
--               Store/Memory is a table in memory that meets them
--   Config      internal/config/config.go: the settings, and Validate
--   Models      internal/db/models/tunnel.go: the row and its queries; Models/NextIp and
--               Models/NextPort: GetNextWireguardIP and GetNextWireguardPort
--   Bandwidth   internal/bandwidth/stat_counter.go: a round of StatCounter.Start; Bandwidth/Manager:
--               StatCounterManager
--   Wireguard   internal/wireguard/wireguard.go: Wireguard/SetUp is addPeer, Wireguard/Peers is
--               removePeer and the active peers, Wireguard/Manager is the goroutines and channels
--               of Manager; GenerateIPv6LinkLocalAddress of internal/utils/ip.go is link_local
--   Watcher     internal/ifacewatcher/watcher.go: Watcher/Drop, Watcher/Attach and
--               Watcher/Reconcile are the two loops of watch and reconcileDB, Watcher/Pass joins them
--   Api         internal/server/api/controllers/v1/tunnels.go: Api/Create is POSTTunnel, Api/Edit is
--               PATCHTunnel, Api/Remove is DELETETunnel, Api/Listing is GETTunnels, Api/Quality is
--               GETTunnelLQM and the counts; the requests are those of
--               internal/server/api/apimodels/tunnels.go
--   Users       internal/db/models/user.go; Users/Accounts is
--               internal/server/api/controllers/v1/users.go with the name's check of
--               internal/server/api/apimodels/user.go; Users/Login is
--               internal/server/api/controllers/v1/auth.go, internal/server/api/middleware/auth.go
--               and the start of VerifyPassword of internal/utils/password.go
--   Lqm         internal/services/lqm/lqm.go: Lqm/Neighbors, Lqm/Routes, Lqm/Averages, Lqm/Ping and
--               Lqm/Refresh are the parts of a tick, Lqm/Tick joins them, Lqm/Names has the functions
--               on texts and addresses
--   Babel       internal/services/babel/generator.go and socket.go; Babel/Metrics is
--               FetchInstalledRouteMetrics
--   Migrate     cmd/migrate.go: what the migration report takes from tunnels and users
--   Walker      internal/walker/walker/walk.go and
--               internal/walker/concurrentarray/concurrentarray.go: what a walk has seen, and
--               Walker/Steps, in which the tasks take turns in any order; Walker/Retry is
--               internal/walker/http/retry.go
--   Olsr        internal/services/olsr/services_parser.go and hosts_parser.go: Olsr/Hosts reads the
--               lines of the hosts file, Olsr/Services puts the services under the hosts, Olsr/Pages is
--               the parser's state and its pages; Olsr/Generator is
--               internal/services/olsr/generator.go and internal/utils/strings.go
--   Meshlink    internal/services/meshlink/parser.go: the services of a node, Meshlink/Files reads the
--               files of nodes, Meshlink/State is the parser's state and Parse in its pieces
-- Definitions keep the names of the code in lower case (addPeer is add_peer). The other children
-- hold lemmas, and those called Tests run the definitions.
--
-- State is passed explicitly. A row is the record Tunnel; a handler of the API runs on a Site, the
-- table and the calls made so far; addPeer runs on the state of a Kernel; a pass of the watcher runs
-- on the record Watcher. The slice that the watcher ranges over is modelled with the array behind
-- it, since the loop shifts that array. Errors are values, and a panic is a result of its own.
--
-- Parameters, since their code is not the repository's: the table (Store), the kernel behind netlink
-- and wgctrl (Kernel), random bytes, keys, a free port, if there is one, and name resolution (World), the services and
-- the parser of URIs (Outside), the reader of IPv6 texts, what the host shows (Host), the
-- answers of nodes, the contents of files, the database's LIKE, what the libraries scan and compare
-- in a password's hash, what Babel's socket takes and gives, and whether a session can be saved. Rows
-- come in the order of their ids.
--
-- Numbers are natural; an integer of w bits keeps its wrap-around, as in the 64-bit byte counters, the
-- octets and the ports. The scan for a port has 65536 rounds, one for each 16-bit port, after which
-- the counter is 0 and the loop of the code ends; the text of a number has as many digits at most as
-- the number counts, which is the bound of itoa. The lists of addresses are read five times, as in
-- the code.
--
-- Floating-point numbers are a parameter as well (Floats), of which no law is assumed. Times are seconds
-- since 1970, or nanoseconds where the code compares finer ones.
--
-- Where goroutines meet, a step relation has one step for each meeting (Wireguard/Manager), for each
-- host that a task visits (Walker/Steps), or the pieces of a call between which others run (Meshlink/State). What a
-- goroutine of the Wireguard manager does to the kernel is one step.
--
-- Not modelled: totals in MB are counted in bytes, without the rounding of floating-point numbers;
-- logging and sleeps are left out. The start and stop of the link quality manager, the registry of
-- services and their processes, the compatibility API for AREDN and the handlers that only read a
-- value, the prose of the migration report, metrics, the web server and its sockets, and the frontend
-- have no model.
pub mod Common
pub mod Net
pub mod Config
pub mod Store
pub mod Models
pub mod Babel
pub mod Bandwidth
pub mod Wireguard
pub mod Watcher
pub mod Users
pub mod Lqm
pub mod Api
pub mod Walker
pub mod Olsr
pub mod Meshlink
pub mod Migrate
