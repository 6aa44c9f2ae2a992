-- ===== src/Lib.antt =====
-- The control plane of Shield-Core, a DDoS shield: a Go daemon that loads an XDP program, drives
-- its BPF maps, watches the machine and serves an administration API. This library models the
-- control plane (src/control_plane) and proves how it behaves.
--
-- The program's parts, and the files that model them:
--
-- - src/control_plane/main.go, startAutoMitigation, once a second: it reads the machine, grades
--   the readings (Mitigation/Levels), steps a defence level with a hold time
--   (Mitigation/Hysteresis), and imposes what the level asks for (Mitigation/Policy): limits, a
--   scan budget and the life of a block. Engine joins these to the maps: `tick` is one pass of the
--   loop, `cycle` one behind the warm-up, `enforce` its part from the policy on.
-- - src/control_plane/map_manager.go, MapManager, the record of that name in Maps: the sets of
--   targets (Maps/Targets), the configuration map (Maps/Config), the two tries of networks
--   (Maps/Cidr), the sweeps ScanAndMitigate and CleanExpiredBlacklist (Maps/Scan), the health and
--   statistics (Maps/Health) and the backends of the served addresses (Maps/Backends). Its text
--   forms of keys are in Net/Lpm, over readers of package net (Net/Addr, Net/Decimal), and the
--   peers of WireGuard tunnels in Wireguard.
-- - src/control_plane/geoip.go, GeoIPManager: Geoip, with the fields of each database as one
--   record.
-- - src/control_plane/persist.go: Server, which holds the global state of the daemon: the manager,
--   the databases, the state file, and the events that the handlers leave.
-- - src/control_plane/main.go, handleBlacklist, handleWhitelist and handleRulesPolicy: Api;
--   handleLogs: Logs; loadReputationDatabase: Server/Reputation.
-- - src/control_plane/main.go, the middleware in main, and src/control_plane/config.go: Gate.
-- - src/control_plane/main.go, the multiplexer in main: Routes/Serve, whose `serve` takes a
--   request through the rate limit, the key and the handler of its path. Routes holds
--   handleStats, handleGeoIPHealth, handleGeoIPReload and handleRouting, Routes/Health the answer
--   of /health, Routes/Metrics that of /metrics, with the gauges of src/control_plane/metrics.go.
-- - src/control_plane/main.go, the functions that tell the other nodes of an event: Cluster, with
--   the requests in Cluster/Events, over the queries of URLs in Strings/Query. Cluster/Delivery,
--   Cluster/Policy and Cluster/Backends take a request to `serve` or to the handler's readers on
--   the node that receives it.
-- - src/control_plane/main.go, getMemoryStats, getCPUStats and getQueueStats: Proc, whose
--   `machine_of` is what a cycle of the engine reads.
-- - src/control_plane/main.go, main: Startup, with src/control_plane/loader.go in Startup/Loader,
--   the certificate in Startup/Certificate, and in Startup/Privileges the process from the load
--   of its program to its end. Startup/Daemon joins these to the listener and to ServeTLS, and
--   starts the daemon again on what an earlier start has left.
--
-- System joins all of it: its Step relation is a request, a tick of the engine, or a restart that
-- loads the program and can write the state file, on what is on the disk; a start that cannot load
-- the program has no manager, and is no move of Step. System/Restarts says what holds in every
-- state that such moves reach. The rules that a restart brings back are compared as in
-- Server/Rules, a quotient that forgets the order of the lists: a Go map has none. The state file
-- holds what encoding/json makes of the targets (Strings/Utf8): a byte that belongs to no UTF-8
-- sequence becomes the replacement character.
--
-- The handlers and the engine work on the same manager. Each method, handler and tick is one
-- step: the methods of the manager and of the databases hold a lock, and what a goroutine sends
-- to the other nodes is an event of the step. The rate limiter changes the count of an entry
-- without a lock: its steps are those of requests that come one after another. A function that
-- changes state takes it and returns it; an error is a value beside it, and state that the source
-- changes before the error is kept.
--
-- Numbers are natural numbers, with the wrap-around of uint64, uint32 and uint16 written out
-- where the source computes. Go strings are lists of bytes (Prelude/Bytes); case and spaces are
-- those of ASCII. A Go map of strings to true is a list without duplicates, whose order the
-- source leaves open. Loops recurse on the list that they read. Decimal numbers are printed with
-- fuel for 20 digits, which a uint64 does not exceed.
--
-- Parameters, code that is not in the repository: the BPF maps (Kernel: what the documentation of
-- the maps promises of calls that succeed and of iterations is in KeepsPut and IsMap, and
-- Kernel/Table is a bounded table that keeps it; a call may fail for any reason); float64 (Float:
-- the order laws, on literals below 2^16, are IsOrdered, and Float/Fraction keeps them); the
-- reader of IPv6 text; the capacity that the kernel reports of a map; what the disk, /proc, the
-- network card and the databases of package maxminddb hold. An iteration over a map yields a list
-- that depends on the map at its start, and says whether it ended without an error.
--
-- Further parameters: whether url.Parse accepts a text and which host it finds, the addresses of
-- the interfaces and the host name (Cluster); how netlink, cilium/ebpf, the crypto packages and
-- the file system answer each step (Startup/Loader, Startup/Certificate); the texts of float64;
-- and the two calls of handleRouting to the manager, which do not match map_manager.go.
--
-- The requests of an event are a list in the order of the nodes, while the source sends each from
-- its own goroutine and only logs the answer. A request has the pairs of its query; its path is
-- compared as it is. The lines of /metrics have no help texts, those of the Prometheus client
-- stand in the order of metrics.go, the metrics of that client about itself and the process are
-- left out, and so is the gzip with which it answers a client that accepts it. Of a line of the
-- mitigation log it is asked whether it is a JSON value.
--
-- Not modelled: the log of package log; the inside of package net/http, of which is asked whether
-- it listens and serves; the maps that loading pins by itself; the pages of the dashboard. The
-- data path in C (src/bpf, src/af_xdp) and the dashboard are other programs.
mod Prelude
pub mod Float
pub mod Mitigation
pub mod Net
pub mod Proc
pub mod Cluster
pub mod Routes
pub mod Startup
pub mod System
pub mod Strings
pub mod Wireguard
pub mod Geoip
pub mod Gate
pub mod Server
pub mod Api
pub mod Engine
pub mod Logs
pub mod Kernel
pub mod Maps
mod Tests
