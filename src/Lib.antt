-- ===== src/Lib.antt =====
-- Verification of edfs, a distributed file system: each peer serves a FUSE mount over a replicated
-- tree of nodes and a store of chunks that are addressed by content.
--
-- Parts, with the source of each and the files here that model it:
--   domain types        src/domain.rs                            Domain
--   configuration       src/config.rs                            Config
--   chunk storage       src/filesystem/storage.rs                Storage
--   chunking            src/filesystem/chunk.rs                  Chunking
--   clock               src/filesystem/tree/hlc.rs               Hlc
--   node tree           src/filesystem/tree/mod.rs, error.rs     Tree, over Crates
--   file system         src/filesystem/mod.rs, error.rs,         FileSystem, with Read (reads), Mutate
--                       mutation.rs                              (changes), Chunks (calls passed on)
--   inode numbers       src/fuse/inode.rs                        Fuse/Inode
--   open files          src/fuse/open_file.rs                    Fuse/OpenFile
--   attributes, errors  src/fuse/attr.rs, error.rs               Fuse/Attr, Fuse/Errno
--   handlers            src/fuse/mod.rs, gateway.rs              Fuse/Actions, Fuse/Handlers,
--                                                                Fuse/Transfer (and what the
--                                                                fetch gives in Fuse/Fetched, a write
--                                                                and its release in Fuse/Saved)
--   reachable chunks    src/filesystem/mod.rs                    FileSystem/Reachable
--   messages, events    src/network/protocol.rs, event.rs        Network/Protocol, Network/Swarm
--   chunk fetcher       src/network/handlers/chunk.rs            Network/Fetcher, Fetcher/Responses
--   replication         src/network/handlers/replication.rs      Network/Replication, with Handling
--   exchange            src/network/handlers/tree_sync.rs,       Network/Exchange
--                       gossip.rs, mdns.rs
--   bridge              src/network/network_bridge.rs            Network/Bridge
--   dispatcher          src/network/dispatcher.rs, src/app.rs    Network/Dispatcher
--   peer ranking        src/network/hrw.rs                       Hrw
-- Prelude has the shared notation and lemmas (lists, slices, maps, words), Tests the concrete crates,
-- runs and witnesses.
--
-- How the parts interact: a handler resolves inode numbers, then calls a method of `FileSystem` under
-- its lock, and gives the operations that the method returns to the gateway. `FileSystem` has a
-- `NodeTree` (the replica and the clock) and a `ChunkStorage`; a file's metadata lists references to
-- chunks, and a read finds the chunks in the storage. Operations keep the names of the source's
-- functions, and a method on `&mut self`, or one that locks, returns the new state beside its result.
--
-- Choices. Numbers are natural numbers; an operation of the source that can leave 64 bits has its
-- wrap-around written out (`Prelude/Words`), and a panic is a result of its own (`panic`), also that
-- of a vector that would have 2 ^ 63 bytes or more; that memory runs out before is not modelled. A hash map
-- is an association list. Loops are structural recursion over the list that they walk through, but for
-- some that take fuel: the search of `reachable_chunk_hashes`, for which one more than the number of nodes
-- is enough (Reachable/Ends), the task of the bridge and its sending loop, for which the number of
-- arrivals and the length of the batch are (Bridge/Batches), and `chunks` of Prelude/Lists, which has the
-- length of its list. Each handler is one step, and the calls that it makes under the locks follow one
-- another. The wall clock is an argument.
--
-- Crates that are called (sha2, fastcdc, uuid, crdt_tree) are parameters, the record `Crates`; what is
-- assumed of the replica are the records `TreeLaws`, `LogLaws` and `UnionLaw`, which Tests/Samples shows
-- can hold. The gateway of the handlers is a function that answers each request.
-- In the network part libp2p's swarm is the
-- record `Libp2p` and a command channel of tokio the record `CommandChannel`; what is assumed of them is
-- `SwarmLaws` and `ChannelLaws`, which Tests/Swarm shows can hold. The answers that go through reply
-- channels are kept in the context of an event, oldest first.
--
-- A `Dispatcher` gives each event of the swarm, and each command of the bridge, to all handlers in turn,
-- and lets them tick; they share the swarm and the file system. A fetch that FUSE asks for goes as a
-- command through the bridge to the chunk fetcher, which asks peers in the order of the ranking and
-- answers the reply channel; the replication handler sends such commands to itself to pin chunks.
--
-- Not modelled: the configuration of the swarm (src/network/behaviour.rs) and the program's start, its
-- arguments and the mount (src/app.rs but for its list of handlers, main.rs, cli.rs, fuse/mount.rs), which
-- are I/O.
pub mod Prelude
pub mod Config
pub mod Domain
pub mod Storage
pub mod Chunking
pub mod Hlc
pub mod Crates
pub mod Tree
pub mod FileSystem
pub mod Hrw
pub mod Network
pub mod Fuse
pub mod Tests
