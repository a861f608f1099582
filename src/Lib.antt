-- ===== src/Lib.antt =====
-- Verification of the r9p core: a 9P2000 server and client library with the dialect 9P2000.R.
--
-- The program. A connection reads a frame, decodes it to a request and hands it to the server, which
-- admits it: it answers at once, or dispatches a request to a backend after reserving the fids
-- that the request needs. When the backend answers, the server completes the request: it releases
-- the reservations, checks the answer, updates the fids and builds the reply, which is encoded to a
-- frame within the negotiated message size. A flush cancels a request in between.
-- On the other side, the protocol client gives each operation a tag and builds its request, and takes
-- the reply to the request that waits under its tag; the blocking client writes the request on a
-- stream, waits for the reply, and composes operations on fids to operations on paths.
--
-- Files and the code that they model (paths from the repository's root):
--   Qid                crates/core/src/qid.rs and mode.rs: qids and open modes.
--   Wire               crates/core/src/stat.rs, the second half: little-endian writers and `Cursor`. Wire/Reads
--                      relates a reader to the bytes that it consumes.
--   Stat               crates/core/src/stat.rs, the first half: `Stat::encode` here, `Stat::decode` and
--                      `decode_dir_entries` in Stat/Decode, `dirread_chunk` in Stat/Directory.
--   Referral           crates/core/src/referral.rs. Canonical paths are related to lists of names in
--                      Referral/Names and Referral/Canonical.
--   Message            crates/core/src/message.rs: `TMessage` and `RMessage`.
--   Codec              crates/core/src/codec.rs: variants and limits here, the encoders and decoders in the
--                      children named for them, frames on a stream in Codec/Stream.
--   Flush              crates/core/src/flush.rs: `RequestTable`.
--   Session            crates/core/src/fid.rs, server/config.rs and server/session.rs: the state in
--                      Session/State, the methods in Session.
--   Server             crates/core/src/server/types.rs and validation.rs, and the checks of
--                      handlers.rs. `Server::admit` is Server/Admit over Server/Arms, `Server::complete`
--                      is Server/Complete, and the `FileTree` trait with `Server::handle` is
--                      Server/Handle.
--   Snapshot           crates/core/src/server/read_snapshot.rs: `FidReadSnapshots`.
--   Rpc                crates/core/src/rpc.rs: `validate_request_chunk`.
--   Client             crates/core/src/client.rs: `Client` and the allocation of tags and fids here, the
--                      operations in Client/Ops, `receive` in Client/Receive; client_support.rs in
--                      Client/Support. Client/Calls lists the operations as data.
--   Blocking           crates/core/src/blocking.rs: the exchange of one request here, the operations in
--                      Blocking/Fids and Blocking/Paths, the handshake in Blocking/Connect.
--   Cache              crates/session/src/cache.rs: `NamespaceCache`, its map in Cache/Keyed.
--   Endpoint           crates/core/src/endpoint.rs: `TcpEndpoint::parse` and its display, decimal text in
--                      Endpoint/Decimal.
--   Exchange           crates/core/src/client.rs over server/handlers.rs: a request of the client that the
--                      server handles.
--   Tests              runs at concrete inputs.
--
-- How the code is modelled. A method on `&mut self` that returns `Result` is a function from the
-- state to a result and the state it leaves, also when it fails; Base/Stateful and Base/Run hold the
-- do blocks of such methods. A map is an association list with one entry for a key. A mutex stands
-- for the value that it guards, and poisoning is left out. Numbers are natural numbers, and the bound
-- of their machine type is a hypothesis where a theorem needs it; `saturating_add` is a minimum,
-- `saturating_sub` is the subtraction of natural numbers, and `usize` has 64 bits. Error messages are
-- the source's.
--
-- Fuel. The loop of `decode_dir_entries` has the length of its input as fuel, since every round
-- consumes at least two bytes; `write_in_chunks` and `read_delimited_with` a round for each byte and
-- one more, since every round handles a byte; `alloc_tag` counts its rounds as the source does. The
-- reading of a frame's size may be interrupted for ever, and `read_all` goes on while the server
-- sends: these take the fuel of the environment, and a result of `none` says that it ran out. The
-- loops over lists are structural.
--
-- Parameters. The backend is any record of the trait's methods over any state of its own. The lossy
-- text conversion that words one error of `routed_path` is an argument.
-- The stream of the blocking client is a record of the calls `read`, `read_exact`, `write_all` and
-- `flush` over any state, and the texts of numbers and of values in debugging form are functions.
--
-- Not modelled: the multiplexed client and the session crate around it but for its namespace cache,
-- the opening of sockets and their timeouts, the worker threads of the connection driver, and export
-- descriptors; and the crates around the core (fuse, front, auth, reverse, cli, beam-port, fs), which
-- are input and output, foreign functions or third-party protocols.
pub mod Base
pub mod Qid
pub mod Wire
pub mod Stat
pub mod Referral
pub mod Message
pub mod Codec
pub mod Flush
pub mod Session
pub mod Server
pub mod Snapshot
pub mod Rpc
pub mod Client
pub mod Blocking
pub mod Cache
pub mod Endpoint
pub mod Exchange
pub mod Tests
