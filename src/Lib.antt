-- ===== src/Lib.antt =====
-- A model of kknode, the node of a proxy panel: it fetches users and configuration from the panel,
-- runs the inbounds of xray-core for them, limits their devices and rates, and reports traffic.
--
-- Parts, and how they interact:
--
-- - Panel (api/panel/user.go, server.go, node.go): the data that the panel sends. Panel/Client is
--   `GetUserList` and `GetUserAlive`, Panel/Config is `GetServerConfig`, Panel/Secrets is
--   `RedactCertDNSEnv` and `MergeCertDNSEnv`.
-- - Limiter (limiter/limiter.go, limiter/dynamic.go, common/format/user.go): the limits of the users
--   of a node. `AddLimiter` is `new_limiter` and `add_limiter`, `UpdateUser` is `update_user`,
--   `CheckLimit` is `check_limit` in Limiter/Access, `GetOnlineDevice` is `get_online_device`. Its
--   record has the fields of the Go type. Limiter/Expiry has the runs of these operations,
--   Limiter/Period the calls between two reports.
-- - Portmap (common/portmap/portmap.go): `ParseHopPorts`, `FindAllConflicts`, `FormatConflicts`;
--   Portmap/Mapping is `ApplyHopPorts` and the removal of rules.
-- - Counter (common/counter): `TrafficCounter`; Links (core/app/dispatcher/linkmanager.go):
--   `LinkManager`, whose writers and readers are numbers.
-- - Users (core/user.go): `DelUsers`, `AddUsers`, `GetUserTrafficSlice` on the uids, the counters and
--   the link managers of the core; Users/Accounts is what `AddUsers` builds.
-- - Node (node/node.go, node/controller.go, node/task.go): `compareUserList`, `userListMonitor`, which
--   calls Users and then Limiter, and `reportUserTrafficTask`, which asks both.
-- - Inbounds (core/inbound.go, core/node.go): the inbound that `buildInbound` makes for a node, and
--   `AddNode` and `DelNode`. Inbounds/Protocols has one function for each builder of a protocol.
-- - Certs (node/cert.go, node/lego.go, common/file/file.go): the certificate of a node, as steps on the
--   files and the environment. Certs/Lego is the account and the certificates, Certs/Request is
--   `requestCert` and `renewCertTask`, Certs/Served compares the files with what the inbound names.
-- - Lifecycle (node/controller.go, node/node.go): `Start` and `Close` of a controller and of a node,
--   which call Limiter, Certs, Inbounds and Users in this order and start the tasks.
-- - Outbounds (core/custom.go, core/outbound.go): the routing rules, the settings and streams of
--   outbounds; Outbounds/Custom is `GetCustomConfig`.
-- - Xray (core/xray.go): `Start`, `Close` and `ServerConfigMonitor` of the core, and the files that the
--   start saves; Xray/Config is `getCoreConfig`, which calls Outbounds/Custom.
-- - Sniffing (core/app/dispatcher/sniffer.go, fakednssniffer.go, default.go): the sniffers and how they
--   are asked; Sniffing/Reader is the cached reader and the function `sniffer`, Sniffing/Override is
--   `shouldOverride` and what the sniffing does to a destination.
-- - Dispatcher (core/app/dispatcher/default.go): `getLink` and the first part of `DispatchLink`, which
--   ask the limiter of the node and enter a connection in the link manager and the counters.
--   Dispatcher/Routing is `routedDispatch`.
-- - Server (cmd/server.go, conf/conf.go): `startBackends` and `reload`, which start Xray and then
--   Lifecycle for each panel, apply the rules of Portmap/Mapping and hand the ports to Portmap.
--   Server/Loading has what a backend is started from; its `Platform` holds the parameters of the parts.
--   Server/Running and Server/Rounds have the rounds of the loop, Server/Closing its end, Server/Reload
--   both.
-- - Check (cmd/check.go): the ports of all backends, which it hands to Portmap; Check/Uses has the
--   ports that a protocol uses.
-- - Task (common/task/task.go): a periodic task and its goroutines, which read the field `Stop` at every
--   `select`, as a step relation.
-- - Base: Go's integers, texts, maps and results. Tests: runs on small inputs.
--
-- How the code is modelled. An `int` or `int64` is a signed integer (Base/Int); a sum or product that
-- the code can overflow is wrapped to 64 bits. A Go string is a text over code points. A `map` and a
-- `sync.Map` are association lists, whose order stands for the order of iteration. A pointer that may
-- be nil is an option, and an error is a value of the component's own type. Loops are recursion on
-- the list that they run over. There is fuel in two places: `itoa` has 20 digits, enough for every
-- number below 10 to the power of 20, and the loop of `sniffer` has two rounds, enough as it counts
-- every round that does not return. State is passed on explicitly; `Controller.limiter` is the object
-- that the registry of limiters holds. A Go pointer that a builder changes (the server key of a node)
-- is returned. Of the file system the model has whole files; a call that the system refuses leaves
-- them as they are.
--
-- Parameters: the inbound and outbound handlers of xray-core, its router, `Build` of its configurations
-- and its sniffers; the package lego, keys and self-signed certificates; what the system refuses, the
-- runs of iptables, random bytes; the hash and the decoding of a body, the parsers of addresses, the
-- validity of JSON. Locks are not modelled: an operation is one step, but for the tasks, whose
-- goroutines interleave.
--
-- Not modelled: `Dispatch` behind `getLink`, which does what `DispatchLink` does; the
-- command around the server; configuration files, HTTP transport, system status and generated code, which are
-- calls of libraries and input and output.
pub mod Base
pub mod Panel
pub mod Limiter
pub mod Portmap
pub mod Counter
pub mod Links
pub mod Users
pub mod Node
pub mod Inbounds
pub mod Certs
pub mod Lifecycle
pub mod Outbounds
pub mod Xray
pub mod Server
pub mod Check
pub mod Sniffing
pub mod Dispatcher
pub mod Task
pub mod Tests
