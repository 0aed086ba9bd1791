-- ===== src/Lib.antt =====
-- selium: shared-memory rings, their frames and channels, the kernel's registries, the authority of
-- processes, the messaging patterns over a transport, the system guests that account, schedule and
-- supervise, and DNS messages.
--
-- Processes pass framed messages through a ring in a mapped region. A writer reserves a span at the
-- tail (`reserve_tail`), writes the frame there and makes it READY; a reader looks at READY and at
-- the checksum of the header. Blocking readers and writers hold slots in the ring's header, whose
-- least position holds the writers back. The kernel's registries hand out the ids, count what a
-- tenant allocates, and keep queues, logs, blobs and processes. The runtime checks a host call
-- against the grants of the process that makes it, and what a process may confer on its children.
-- Over a transport of frames, a live table projects a topic, and a client matches replies to its
-- requests. Resources and services have addresses, and services wire names under a domain.
-- The accountant sets the ceilings of the kernel's quota table from the usage of the tenants.
--
-- The parts, and the code that each file models:
--   Base: shared helpers. Base/Tests has Boolean tests, Base/Lists lists over native numbers,
--   Base/Exec the state and error monad, Base/Map the hash maps, Base/Bits and Base/Xor bit lemmas,
--   Base/Text what the program uses of texts, Base/Text/Parts their parts between separators.
--   Memory/Bytes, Memory/Backend: crates/memory/src/lib.rs `PointerBackend`, as a size and a
--   function from offsets to bytes; Memory/Backend/Words has the laws of its atomic words.
--   Memory/Frame: crates/memory/src/frame.rs `FrameHeader`; Memory/Frame/Codec and
--   Memory/Frame/Torn are about its codec and its checksum.
--   Shm/Error: crates/wire/src/error.rs.
--   Shm/Layout: crates/shm/src/layout.rs. Its constants are in the file itself, `Cursor` and the
--   capacities in Layout/Cursor, the shared words and slots in Layout/Words, `reserve_tail` in
--   Layout/Reserve, `read_at` and `write_at` in Layout/Data, `write_frame`, `read_frame` and
--   `drain_frames` in Layout/Frames. Layout/Window, Access, Commit, Slots, Loads, Exchange, Alone,
--   Spurious and Backpressure prove properties of them.
--   Shm/Channels: crates/shm/src/channels/writer.rs and mod.rs; Shm/Channels/Stall is about
--   `BlockingWriter::new`.
--   Shm/Readers: crates/shm/src/channels/reader.rs; Readers/Raw, Polls, Upgrade and Late
--   are about `read_raw`, frames read in parts, readers upgraded within a frame, and readers that
--   come late.
--   Wire/Topic, Wire/Tables, Wire/LiveTable: crates/wire/src/pubsub.rs, and of
--   crates/wire/src/tables.rs the records with `apply_message_to`, and the operations of `LiveTable`
--   on a topic. LiveTable/Replica, Steps and Publishing say what an operation does to the map and the
--   position, LiveTable/Agree, Versions, Races, Exclusion and Success are about several tables.
--   Wire/Framed, Wire/Writes: crates/wire/src/framed.rs, the codec and the writes; Framed/Buffers and
--   Chunks are about the first, Writes/Once is about the second.
--   Wire/Subscriber: the stream of `Subscriber` of crates/wire/src/pubsub.rs on a ring;
--   Subscriber/Overwritten is about one that has fallen behind.
--   Wire/Rpc: crates/wire/src/rpc.rs; Rpc/Replies and Rpc/Parked are about its two loops.
--   Kernel/Error, Ids, Quota, Queues, Storage, Datagram, Processes: crates/kernel/src/error.rs,
--   kernel.rs with the id counters, quota.rs, host_queue.rs, storage.rs, the
--   datagram codec of network.rs, and process.rs without log channels. Their child files
--   prove properties of them.
--   Abi/Classes, Endpoint, Grants, Framing: crates/abi/src/lib.rs, in this order the resource
--   classes, `NetworkEndpoint`, `CapabilityGrant` with its selectors, and `frame_bytes`;
--   Endpoint/Ports is about the second, Framing/Codec about the last.
--   Abi/Uri, Abi/Names: crates/abi/src/uri.rs, the addresses, and the wire names; Uri/Decimal,
--   Uri/Typed, Names/Projection, Names/Hosts and Names/Wire are about them.
--   Runtime/Authority: `authorises`, `is_descendant_of` and `validate_grants` of
--   crates/runtime/src/process.rs; Authority/Chains is about the second.
--   Runtime/Delegation: `validate_child_grants`, `resolve_spawn_tenant` and their helpers in
--   crates/runtime/src/hostcall.rs, and `narrow_grants` of guests/bridge/src/lib.rs;
--   Delegation/Attenuation, Confinement and Escalation are about them.
--   Guests/Accountant: guests/accountant/src/lib.rs, `Usage`, `Account` and the enforcement in the
--   file itself, `AccountBook` in Accountant/Book, `RollingWindow` and `Shared` in
--   Accountant/Windows, `reduce_samples` in Accountant/Samples; Accountant/Enforced,
--   Windows/Replay, Windows/Totals, Windows/Lost, Samples/Counted and Samples/Deltas are about
--   them.
--   Guests/Scheduler, Supervisor, Cluster: guests/scheduler, supervisor and cluster, src/lib.rs each;
--   Scheduler/Placement and Supervisor/Recovery are about the first two.
--   Dns/Wire, Dns/Response: crates/proto-dns/src/wire.rs, queries and names, and responses;
--   Wire/Termination, Wire/Names, Response/Total and Response/Echo are about them.
--   The Tests of each folder: the theorems at concrete inputs.
--
-- A `u64` is a natural number below 2 ^ 64, and each operation that wraps has its `% 2 ^ 64`. An
-- operation on a mapping is a function from a backend to a result and a backend: what was written
-- before an error stays written. Concurrency is in the schedule of `reserve_tail`: a round gives what
-- other participants do to the mapping between the steps of the loop, and whether the weak exchange
-- fails spuriously; `none` is a loop that still spins when the schedule ends, and one quiet round
-- is enough. `drain_loop` has a round for every byte up to the tail and `next_id_loop` needs two
-- rounds. Memory fences, back-off delays and wake-ups of waiting threads change no byte and have no
-- counterpart. A registry of the kernel is behind a lock, so that an operation is one step.
--
-- A text of the ABI is a list of ASCII bytes. A poll of a reader sees one state of the mapping. A
-- host call of the accountant goes well, but the log may refuse a payload.
--
-- The loop of `parse_name` has fuel for every byte between two of its 33 jumps. Whether bytes are
-- UTF-8 is a parameter of the DNS parser.
--
-- A topic keeps the frames that its transport took, and the transport may refuse one. Other
-- publishers write to it between the steps of an operation: `compare_and_set` has the frames of that
-- time as an argument. Messages are encoded and decoded by parameters, of which some theorems suppose
-- that what is encoded decodes. The loops over frames end with the frames; the loop of a request on a
-- ring has its wakes as a number, and the decoding of a buffer has a round for every byte.
--
-- Not modelled: the futex waits and the region providers of crates/memory, the RPC layer of
-- crates/shm, the streams of crates/wire, the poller, the sockets and the memory registry of the
-- kernel, the handlers of the runtime's host calls, the bookkeeper's inventory, the other guests
-- and their SDK, the clients. The digest SHA-256 is a parameter of `put_blob`, the text of a
-- metering observation one of `observe_metering`, and the ids that the counters give are
-- arguments. The payloads of the accountant's ledger, their encoding and their decoding are
-- parameters.
pub mod Base
pub mod Memory
pub mod Shm
pub mod Wire
pub mod Kernel
pub mod Abi
pub mod Runtime
pub mod Guests
pub mod Dns
