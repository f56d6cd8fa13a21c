-- ===== src/Lib.antt =====
-- yuha, a tool for remote development: a command line and a client talk to a remote process over
-- SSH, TCP, a local process or WSL. This library models the core crate (the session subsystem, the
-- errors with their retry logic, the transport configuration, the wire protocol, the metrics and
-- the configuration), the daemon's handler of requests in the client crate, and the remote server.
--
-- The parts and their files:
--   * Session/Manager: crates/core/src/session/manager.rs. `SessionManager` is the record
--     `Manager` of a registry, a pool, optional metrics and the lifecycle; each method takes a
--     manager and gives the next one with its result. Manager/Requests runs sequences of calls,
--     Manager/Sound has the invariant of the whole, Manager/Reuse what a caller sees.
--   * Session/Registry: crates/core/src/session/registry.rs. The sessions by id, with an index by
--     name and one by connection key. Registry/Race takes `register` apart at the point where it
--     lets go of its locks, and runs several of them at the same time.
--   * Session/Pool: crates/core/src/session/pool.rs. The idle sessions that may be reused, listed
--     by connection key, with their limits, the search for the best one and the expiry.
--   * Session/Lifecycle: crates/core/src/session/lifecycle.rs. Expiry and reconnection rules, and
--     the flag that the cleanup loop reads, with the number of loops that are alive.
--   * Session/Metrics: crates/core/src/session/metrics.rs. The collector, over the counters
--     and samples of Metrics/Counts; Metrics/Gauges says when the counters are exact.
--   * Session: crates/core/src/session/mod.rs. Session metadata and status.
--   * Errors, Errors/Classification, Errors/Retry, Errors/Breaker: crates/core/src/error/mod.rs,
--     categories.rs and retry.rs (the policy and the loop, and the circuit breaker);
--     Errors/Context: context.rs.
--   * Transport, Transport/Types: crates/core/src/transport/mod.rs and types.rs. The transport
--     configuration, its connection key and its validation.
--   * Protocol/Channel: crates/core/src/message_channel.rs. Messages over a byte stream, each behind
--     its length in two bytes. The stream is the list of what its reads give. Channel/Typed has the
--     requests and responses on it.
--   * Protocol/Buffer: crates/core/src/protocol/buffer.rs. The response buffer and the bounded
--     message buffer.
--   * Protocol/Messages: crates/core/src/protocol/request_response.rs. Requests and responses.
--   * Transport/Builder: crates/core/src/transport/builder.rs. A module for each builder.
--   * Client/Factory: crates/client/src/transport_factory.rs. A transport from a configuration.
--   * Client/Adapter: crates/client/src/transport/ssh.rs. The byte stream over a channel of SSH.
--   * Daemon, Daemon/Handler: crates/client/src/daemon_protocol.rs and daemon/handler.rs. The
--     messages of the daemon, and its answers over the session manager.
--   * Daemon/Server: crates/client/src/daemon/server.rs. The accept loop and the loops of the
--     clients, over the handler, and the turns of the cleanup task. Server/Clients is about one
--     client, Server/Counting about the count of the connections, Server/Accepting about the
--     shutdown.
--   * Daemon/Client, Daemon/Client/SessionClient: crates/client/src/daemon_client.rs. The requests
--     to the daemon over the message channel, and what is made of its responses; Handler/Conformance
--     compares that with the handler.
--   * Remote/Server: crates/remote/src/main.rs. `RemoteServer` with what its tasks share: the
--     requests, and the steps of the tasks that accept, announce, connect and relay a forwarded
--     connection. A run is a sequence of such events, in any order. Server/Queue compares the
--     response buffer with a queue, Server/Valid and Server/Ids relate tasks and connections,
--     Server/Forwards has what becomes of data, Server/Stops and Server/Stops/Again what becomes of
--     stopped forwards. `stop_port_forward` holds the lock of the connections while it waits for
--     that of the buffer, once per connection: what needs the first lock, and the next request, is
--     blocked meanwhile, and other tasks run.
--   * Remote/Ipc, Remote/Ipc/Client: crates/remote/src/ipc.rs and the shell commands of
--     crates/remote/src/main.rs. Commands of a shell to the remote process, a line each, read and
--     trimmed as in Remote/Lines; Ipc/Connection has the commands of one connection.
--   * Desktop: crates/core/src/clipboard.rs and browser.rs.
--   * Metrics: crates/core/src/metrics.rs. Metrics/Performance has the sums over operations,
--     Metrics/Collector the collector with its two background loops.
--   * Config: crates/core/src/config.rs. Config/Fallback has the files, Config/Environment what
--     the environment changes, Config/Profiles the connection profiles.
--   * Base: the types and lemmas that the parts share. A `HashMap` is an association list that
--     holds a key once (Base/Table); an index from a key to the ids that have it is
--     Base/Index, and what it means that it is right Base/Indexed; Base/Tally counts the entries
--     of a map by a test.
--
-- The manager calls the registry first, then the pool, then the metrics; a session enters the
-- pool when it becomes idle and leaves it when it becomes active, failed or closed, or is removed
-- from the registry. The pool is searched by the connection key of the transport configuration.
-- The daemon's handler calls the manager and keeps the clients of the sessions beside it. The
-- remote server puts what its tasks have to tell into the response buffer, which the client polls;
-- it shares the clipboard of the process with the IPC server.
--
-- What is taken as an argument: the clock (a number of nanoseconds, an `Instant` and a
-- `SystemTime` alike; a duration since a later time is zero, as the code's `unwrap_or` makes it),
-- the random id of a new session (a number for a `Uuid`), the `f64` arithmetic of the rates
-- (`Floats`) and of the backoff, the random jitter, the outcomes of the operation that is retried,
-- what the file system and the platform answer to the validation, and the outcomes of the reads
-- and writes of a stream; the JSON of lines (`Codec`), TOML, the environment and the faults of the file
-- system (`System`), the scheme of a URL, what `Display` prints (`Texts`), and whether a port can
-- be bound. A panic is the result `none`. A `u32` or `u64` that is
-- counted up wraps at its width. The retry loop has as many rounds as the code's range
-- `0..=max_attempts`; twenty digits print every `u64`. Log lines are left out.
--
-- Except in Registry/Race, Remote/Server and the loops of Daemon/Server, each async method runs as
-- one step: the interleavings of tasks at its await points are not modelled; so a request of the
-- daemon and a turn of its cleanup task are steps that nothing comes between. Not modelled either: the sockets, processes and
-- the SSH library behind the transports, the command line, the
-- set-up of the logging, the wait of a long poll, the JSON of serde_json, and the texts of errors.
mod Base
pub mod Errors
pub mod Transport
pub mod Protocol
pub mod Session
pub mod Daemon
pub mod Desktop
pub mod Remote
pub mod Client
pub mod Metrics
pub mod Config
