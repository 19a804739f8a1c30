-- ===== src/Lib.antt =====
-- A model of CephInC, an object store in C with a client and a storage daemon (OSD), and the
-- theorems about it: the maps, the transactions, the store in memory, the functions over any object
-- store, the byte buffers and what is encoded in them, the messages and how they go over a socket,
-- the messenger, the daemon, and the requests of a client that wait for their acknowledgements.
--
-- The parts of the program and how they interact. `cceph_client_write_obj` of a client puts a
-- request on its list and sends it to each OSD of the map (src/client/client.c). Messages are
-- integers, strings and data on a socket (src/message/io.c, msg_header.c and msg_write_obj.c); the
-- messenger keeps the connections, and its threads wait on them, read a message and hand it to the
-- callback `msg_process` (src/message/messenger.c). The callback of an OSD writes the data into a
-- file and sends an acknowledgement back (src/osd/osd_msg_process.c); the callback of a client
-- counts it, and wakes the writers that wait. An OSD accepts its connections in
-- src/message/server_messenger.c, and keeps its metadata in an object store (src/osd/osd_create.c).
-- System follows a write along this way.
--
-- The object store is an interface, a record of functions (src/os/object_store.h); the one
-- implementation keeps collections, their objects and the maps of both in memory, in red-black
-- trees (src/os/mem_store.c). Changes to a store are transactions, growing buffers of operations
-- (src/os/transaction.c) that `submit_tran` does in order. The maps of collections and objects, and
-- their update by another map, are src/os/types.c; the trees are searched and changed by a family of
-- functions that a macro of src/common/rbtree.h writes for each key type.
--
-- Which file models which part:
--   Base           shared names, lists over the native numbers, C strings and `strcmp`, the codes of
--                  src/common/errno.h and failed assertions (Errno), `malloc` (Alloc), integers (Int)
--   Atomic         src/common/atomic.c: the counters that number connections and requests
--   Map            CCEPH_IMPL_MAP of src/common/rbtree.h. Map.Assoc and Map.Paths have the lemmas on
--                  sorted lists and on walks, Map.Laws and Map.Refine the laws of the functions, and
--                  Map.Plain a concrete RbTree
--   OsTypes        src/os/types.c: coll_id_cmp, map_node_*, map_update. OsTypes.Update is about runs
--                  in which no allocation fails, OsTypes.Failure about the others
--   Tran           src/os/transaction.c: `Tran` is cceph_os_tran, `tran_*` are cceph_os_tran_*.
--                  Tran.Ops and Tran.Failure as above
--   MemStore       src/os/mem_store.c: `do_op*`, `submit_tran`, and in MemStore.Read the calls that
--                  read. MemStore.Spec is the abstract store of finite functions, MemStore.View what
--                  a store in memory stands for and its invariant, MemStore.Content and
--                  MemStore.Splice the bytes of objects; MemStore.Colls, .Objects, .Writes,
--                  .ObjectOps, .Refine and .Submit have the refinement, MemStore.Safe and
--                  MemStore.Invariant the invariant on every path
--   ObjectStore    src/os/object_store.c, over any store. ObjectStore.Contract is the contract of a
--                  store, which ObjectStore.Memory fills for the store in memory
--   Buffer         src/common/buffer.c: a buffer of nodes of 4096 bytes and its reader. Buffer.Append is
--                  about every outcome of the allocations, Buffer.Plentiful about success,
--                  Buffer.Reader and Buffer.Start about reading
--   Encode         src/common/encode.c: integers of k bytes and strings, over a buffer
--   Osdmap         src/common/osdmap.c: the map of the daemons, encoded and decoded
--   Io             src/message/io.c: `send_int` and `recv_int` are cceph_send_int16, _int32 and _int64
--                  and their inverses by the number of bytes; Io.Bytes, Io.Receive and Io.Send are
--                  about what arrives of what was sent
--   Message        src/message/msg_header.c and msg_write_obj.c: the header, the write request and its
--                  acknowledgement, each sent and received; Message.Request and Message.Ack have the
--                  round trips
--   Messenger      src/message/messenger.c: the list of connections and its calls, and in
--                  Messenger.Talk `write_message`, `send_msg` and `read_msg`, in Messenger.Poll a round
--                  of `start_epoll`, in Messenger.Life the calls that make, start, stop and free a
--                  messenger. `Messenger.Reach.Step` is one call of one thread, and Messenger.Steps
--                  about what each does to the list; Messenger.Numbers and Messenger.Adding are about
--                  the numbers of connections
--   Osd            src/osd/osd_msg_process.c, in Osd.Start src/message/server_messenger.c, osd.c and
--                  osd_create.c of src/osd, in Osd.Main src/cceph_osd.c, and in Osd.Pg src/osd/pg.c, a
--                  map that nothing uses yet
--   Client         src/client/client.c: the requests that wait and their acknowledgements, each function
--                  under the lock, and the sends to the OSDs; Client.Quorum is about any interleaving
--                  of writers and messages, Client.Waiting about a writer that waits.
--                  Client.WriteObj has `client_new`, `client_init` and `client_write_obj`
--   System         a write from the client to an OSD and the acknowledgement back
--   Tests          runs and theorems at concrete inputs
--
-- How the code is modelled. A pointer that is asserted not to be NULL is a value; a node of a tree
-- is reached by the path from the root. The store's lock is held by each call from its first look
-- at the trees to its return, so calls are functions from a store to a store. A log id, LOG and
-- free leave no trace. `malloc` takes its outcomes from a list (Alloc), so every failure path is
-- there; after the end of the list every call succeeds, and `Plenty` says that no call fails. A
-- failed assertion is `abort`, and so is what has no defined result in C, such as a read through
-- NULL or past an array. Bytes are natural numbers; integers in messages are their bit patterns.
-- Counts and sums such as `offset + length` in the store are taken not to overflow int32_t and
-- int64_t, but the cuts of a length or a number to an `int` or an int16_t are written out (to_int,
-- signed16). Memory that was allocated or declared and is read before it is written is an argument,
-- named `garbage` or `stack`; the slot of a transaction that was just allocated is such memory for
-- `tran_obj_touch`.
--
-- System calls are inputs. A socket that is written to is an `Out`: what comes of the next calls of
-- `send`, and the bytes that the kernel took. A socket that is read from is an `Inbox`: the segments
-- that come, each of them cut by `recv` at the size that was asked for, failures, and at the end the
-- close by the peer; a peer that is silent for ever is a call that does not return and is not
-- modelled. What `socket`, `connect`, `bind`, `accept`, `epoll_ctl`, `open`, `pwrite`,
-- `pthread_create` and the others return is an argument. The set of an epoll descriptor is the list
-- of the descriptors that are armed: EPOLLONESHOT takes one out when its event comes, and the next
-- wait puts it back. The list of connections is used under its lock, so a call is one step of a
-- relation; the locks of the single connections are not modelled, and a thread that uses a
-- connection after another closed it is not either. An allocation that is one byte short of its
-- string is not modelled as an overflow.
--
-- Loops over trees are structural recursion on the tree, the loop over a map's entries recursion
-- on the list of its entries, and the loop of submit_tran takes the count of the operations as its
-- rounds, as the code does. The loop of recv is recursion on what has come to the socket.
--
-- The rebalancing of src/common/rbtree.c is a copy of the Linux kernel's library. It is the
-- parameter RbTree: insertion and removal keep the order of the other nodes, and the visit by
-- first and next meets the nodes in order, for trees that these calls alone have built
-- (IsBalanced).
--
-- The loops of the buffers copy a byte at least in each round, or end by an assertion, so they
-- take the number of bytes as fuel, which is enough; the clause at the end of the fuel is `abort`.
-- A reader has the nodes that its buffer had when it was made.
--
-- Not modelled: the rebalancing and the lists, which are copies of the Linux kernel's; what only
-- frees memory; the strings that name a code or an operation in the log; the logs, the options, the
-- utilities and the tests.
pub mod Base
pub mod Atomic
pub mod Map
pub mod OsTypes
pub mod Tran
pub mod MemStore
pub mod ObjectStore
pub mod Buffer
pub mod Encode
pub mod Io
pub mod Message
pub mod Messenger
pub mod Osd
pub mod Osdmap
pub mod Client
pub mod System
pub mod Tests
