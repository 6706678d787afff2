-- ===== src/Lib.antt =====
-- RustSocks, a SOCKS4, SOCKS4a and SOCKS5 proxy server, as functions on explicit state.
--
-- The program's parts and how they interact. A connection is accepted by src/server, which reads the
-- client's messages with src/protocol, checks the user with src/auth, asks src/acl whether the user
-- may open the connection, takes an upstream connection from the pool of src/server/pool.rs or opens
-- one, records the session in src/session and copies bytes under the limits of src/qos. The HTTP
-- interface of src/api edits the access control lists with src/acl/crud.rs and has the engine reload
-- them, after which the sessions that it no longer allows are ended. Modelled are the protocol, the
-- access control lists, the check of users, the pool, the limits, the sessions and the handler of a
-- connection, which calls all of these.
--
-- Which file models which part:
--   Prelude, Prelude/*      lists, texts in bytes, decimals, words of 64 bits, maps as association
--                           lists, sorting
--   Utils, Utils/Result     src/utils/error.rs: RustSocksError, and the results of calls. Outcome has
--                           a third case for a panic, so that indexing out of range is a value
--   Protocol/Types          src/protocol/types.rs, with the codes on the wire
--   Protocol/Stream         the stream of tokio: the bytes that will come, the bytes written, and
--                           whether the peer has gone; reading past the end is an I/O error
--   Protocol/Socks5, Socks4, GssApi, Udp
--                           src/protocol/parser.rs, one function for each of the file's, under its
--                           name; a block inside a function that is long has a name of its own
--   Acl/Types, Acl/Ports    src/acl/types.rs and the port matcher
--   Acl/Matcher             src/acl/matcher.rs; `Externals` holds the parsers and tests of std, ipnet
--                           and regex and Unicode's lowercasing, as parameters
--   Acl/Engine              src/acl/engine.rs; `UnstableSort` stands for `sort_unstable_by`, any sort
--                           that permutes and orders
--   Acl/Crud                src/acl/crud.rs; the operations that the file has twice, for groups and for
--                           users, are written once over the interface `Owner`, then instantiated
--   Acl/Stats               src/acl/stats.rs
--   Qos/TokenBucket         src/qos/token_bucket.rs; `Runtime` holds the floating-point products and
--                           quotients and the timer, `IsRuntime` what the code relies on. Shared has
--                           the two compare_exchange loops as steps of tasks that interleave
--   Qos/Htb, Rebalance, Bandwidth
--                           src/qos/htb.rs: the users' counts, the rates, a transfer
--   Qos, Qos/Types          src/qos/mod.rs, types.rs and the gauge of metrics.rs
--   Qos/Guards              src/server/handler.rs: how a connection is admitted, and its guard
--   Auth                    src/auth/mod.rs without the optional feature gssapi; `System` holds PAM and
--                           the groups of the system, as parameters
--   Session, Session/Types, Revocation, Stats
--                           src/session/manager.rs and types.rs; a token and a sender of the source
--                           are entries of a list of signals, the channel of the traffic worker is a
--                           list, and its map is a copy, as `DashMap::clone` makes one
--                           `Chrono` holds the conversion and the subtraction of get_stats
--   Session/Batch, Metrics  src/session/batch.rs and metrics.rs
--   Session/History         src/session/history.rs and src/telemetry.rs
--   Server/Pool             src/server/pool.rs; an operation takes the pool and the time and returns
--                           the pool it leaves. The types of addresses and streams are parameters, and
--                           what connecting gives is an argument
--   Server/Resolver         src/server/resolver.rs; what `lookup_host` gives is a parameter
--   Server/Steps            the state that a connection's handler works on, Served, and its steps, a
--                           state monad with errors
--   Server/Handler          src/server/handler.rs: Upstream has handle_connect and
--                           handle_udp_associate, Requests the rest. `Peer` holds what the connection
--                           meets, and the results of proxy_data and of the relays
--
-- Numbers are natural numbers. Values of 8, 16 and 64 bits keep their bound in a hypothesis or their
-- wrap-around in the definition: the 16-bit length of a GSS-API token, the atomic counters. Instants and
-- durations are nanoseconds. Loops are structural recursion on the list that they run over, except
-- that `consume` of a bucket runs on a number of sleeps, of which 1,001 for each token and 1,000 more
-- are enough, and that a port is printed with five digits and a count with twenty, which numbers of 16
-- and 64 bits have at most.
--
-- Not modelled: that operations of the pool, of the engine of the limits and of the sessions
-- interleave (each is one step, with one reading of the clock), so that a connection is handled
-- without others meanwhile; the buffer of BufReader, which holds what the client sends ahead; logging;
-- the formatting of most messages, which are constructors; reading and watching files; the loops of
-- src/server/proxy.rs, bind.rs and udp.rs; and the other parts of the program, src/session/store.rs,
-- src/config, src/api and the rest of src/server and src/auth.
pub mod Prelude
pub mod Utils
pub mod Protocol
pub mod Acl
pub mod Qos
pub mod Auth
pub mod Session
pub mod Server
