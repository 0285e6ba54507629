-- ===== src/Lib.antt =====
-- KRCore: connecting and communicating by RDMA from the kernel and from user space (KRdmaKit and
-- KRdmaKit-syscall, in Rust). This library models eleven parts of it.
--
-- Doorbell (KRdmaKit/src/queue_pairs/doorbell_helper.rs). A doorbell batches work requests in two
-- arrays, which are linked to a ring once, and hands them to the NIC by one call. Doorbell.antt
-- has the state, DoorbellHelper, and its methods, Doorbell/Operations the four posting operations,
-- post_send_wr of operations_user.rs and flush_doorbell, all under the functions' names. A pointer
-- into an array is its index, `isize` and `usize` are bit patterns below 2^64, and a call that
-- panics is the outcome `panic`. The NIC library's post_send is a parameter. Doorbell/Chain says
-- what the NIC reads at a pointer, Doorbell/Ring has the representation invariant, Doorbell/Batch
-- and Doorbell/Post are about posting, Doorbell/Flush about the flush, and Doorbell/Script about
-- clients.
--
-- Syscall (KRdmaKit-syscall/src/virtual_queue.rs, core.rs, client.rs, lib.rs and
-- include/common.h). A virtual queue is the state behind an open file of the device; a process
-- works on it by ioctl commands, which connect it to a remote machine, post requests and receives,
-- poll completions and messages, and bind it to a port. Syscall/Abi has the statuses and requests,
-- Syscall/Queue the state Vq with its caches, Syscall/Request and Syscall/Send rc_push_impl and
-- dc_push_impl, Syscall/Recv the receiving side, Syscall/Server bind_server_push_impl,
-- Syscall/Connect connect_impl, and Syscall/Ioctl the commands; Syscall/Batching, Counting,
-- Reposting, Polling, Binding and Caching are about one of these each, and Syscall/Unchanged,
-- Invariant and Reach about sequences of commands. The configuration is the default one, with the
-- Cargo features KRdmaKit and virtual_queue. What the module calls of the kernel's KRdmaKit crate
-- is the interface record Kernel of Syscall/Kernel, a parameter of every definition: each call
-- runs on a world of the kernel's choice, and may panic. A command is given by the data that ioctl
-- copies from the process, and `n` requests of its array by a function from indices. Additions of
-- addresses wrap around at 2^64.
--
-- Bringup (KRdmaKit/src/queue_pairs/builder.rs, mod.rs, operations_user.rs and
-- KRdmaKit/src/completion_queue.rs). A builder collects the parameters of a queue pair, builds it,
-- and the queue pair is brought up by the transitions RESET, INIT, RTR and RTS. Bringup/Builder
-- has the builder, Bringup/Device the verbs as a parameter and QueuePair, Bringup/Build the
-- building, Bringup/Prepared the transitions for UD, RC (as in user space) and DC, Bringup/Kernel
-- the transitions of RC in the kernel (KRdmaKit/src/queue_pairs/operations_kernel.rs), and
-- Bringup/Verbs what is documented of the verbs.
--
-- Receive (KRdmaKit-syscall/two-sided-dc/KRdmaKit/src/qp/recv_helper.rs). The receive buffers that
-- a controller keeps: Receive.antt has RecvHelper, its creation and post_recvs, with the
-- functions' names; Receive/Walk says what the NIC reads, Receive/Post is about posting and
-- Receive/Make about the creation. The NIC library's post_recv is a parameter, and a pointer into
-- an array is its index. The virtual queue above is given these operations by its interface
-- Kernel.
--
-- Runtime (KRdmaKit/src/runtime). A worker is a thread that polls asynchronous tasks; worker
-- groups start, stop and feed workers. Runtime.antt has futures and their statuses, Runtime/Worker
-- the state and the parts of the main loop, and Runtime/Group the worker groups. A task is what is
-- left of its calls of yield_now and wait_on; what it waits for is a parameter, and the box to
-- which the answer is written is an index. Runtime/Tracking and Rounds are about where the tasks
-- are, Runtime/Reach has every interleaving of a worker's thread with threads that spawn tasks, a
-- `spawn` being one step that nothing interrupts, Runtime/Loop is about the main loop,
-- Runtime/Order about the scheduling queue, Runtime/Boxes, Separate, Asked, Wakes and Answers
-- about waiting, and Runtime/Lifetime about groups.
--
-- Manager (KRdmaKit/src/services_user/mod.rs and cm.rs,
-- KRdmaKit/src/queue_pairs/handshake_user.rs). The user-space connection manager connects RC queue
-- pairs: a client sends its connection data over a stream, and the server brings a queue pair up
-- for it and answers with its own. Manager.antt has the messages, and as parameters serde_json
-- (Serde) and what a host is asked besides the verbs (Host); Manager/Server has the default
-- handler and the service of one stream, Manager/Client handshake, dereg and query_mr_info over a
-- network that is a parameter (Net). Manager/Line is the network between a client and a server,
-- where what is written at once arrives at once; Manager/Link, Service and Failure are about a
-- handshake, the other requests and failed requests. Both sides use the queue pairs of Bringup.
--
-- Posting (KRdmaKit/src/queue_pairs/operations_user.rs, and post_recv of mod.rs). Requests that
-- are posted one at a time: Posting.antt has the operations, with the functions' names, and
-- Posting/Direct relates them to the doorbells of Doorbell; Posting/Kernel has the operations of
-- the kernel (KRdmaKit/src/queue_pairs/operations_kernel.rs), which take physical addresses, and
-- Posting/Physical what they ask the NIC to do.
--
-- Control (KRdmaKit-syscall/two-sided-dc/KRdmaKit/src: ctrl.rs, and qp/rc.rs, cm/client.rs and
-- qp/conn.rs as far as that calls them). The controller of a thread, RCtrl, accepts the RC
-- connections that clients ask for. Control.antt has its state with the ids of ib_cm and the boxes
-- of contexts that it shares with ib_cm, both as stores by address; Control/Operations makes and
-- numbers connections, replies for them and deregisters them; Control/Raise brings a queue pair up
-- with the attributes of ib_cm, and Control/Handler has cm_handler and the callbacks. A use of
-- memory that is freed or of another type is an outcome of its own. Control/Sound and Closing are
-- about what registering and disconnecting do to the memory, Control/Ensures, Steps, Requests and
-- Safe about the calls of a request, Control/Reach about the states that a controller reaches,
-- Control/Lost about what it loses in them, and Control/Rising and Accepting about a NIC and an
-- ib_cm that behave as documented, which is a hypothesis there. The NIC, ib_cm and the posting of
-- receive requests are parameters (Kernel). The addresses of boxes are counted, and
-- `KRdmaKit/src/ctrl.rs`, which no module names, is not modelled.
--
-- Services (KRdmaKit/src/comm_manager/mod.rs and KRdmaKit/src/services/mod.rs). In the kernel the
-- events of ib_cm are passed on to callbacks, and a service tells clients of registered queue
-- pairs. Services.antt has cm_handler, explicit_drop and ConnectionService, with callbacks, queue
-- pairs and the sending of a reply as parameters; Services/Lifetime is about the life of an
-- ib_cm_id, which ib_cm destroys when a callback fails, and Services/Registry about registrations.
-- Services/Reliable has the server of RC queue pairs (KRdmaKit/src/services/rc.rs), which brings a
-- queue pair up as Bringup/Kernel does, and Services/Requests is about its registered queue pairs.
-- Services/Handshake has the handshake of a client in the kernel and its callbacks
-- (KRdmaKit/src/queue_pairs/handshake_kernel.rs, rc_comm.rs and callbacks.rs), over an ib_cm that
-- is a parameter: what it answers, and which events arrive before the wait for the completion is
-- over. Services/Query has the query for the end point of a datagram queue pair
-- (KRdmaKit/src/queue_pairs/endpoint.rs), over such an ib_cm; Services/Query/Exchange is that
-- ib_cm where the other end is the service of Services.antt, and Services/Query/Served is about
-- the two together. Services/Explore has the query for a path
-- (KRdmaKit/src/comm_manager/explorer.rs), over a subnet administrator that is a parameter, and
-- Services/Explored is about the clients that it leaves and about its answers. Services/Peer is
-- the ib_cm where the other end is the server of Services/Reliable; Services/Established, Refused
-- and Outcomes are about a handshake that succeeds, one that the server rejects, and any.
--
-- Metadata (KRdmaKit-syscall/src/rpc/protocol.rs, client.rs and query_dct_meta of
-- virtual_queue.rs). In the configuration meta_kv machines register the end points of their DC
-- targets at a server, which copies all of them into memory, where virtual queues read them by
-- RDMA. Metadata.antt has the handlers and the reader; the end points' bytes, the texts of gids
-- and the order of a HashMap are parameters (Kit). Metadata/Bytes is the memory, Image and Regions
-- what the handler's loops leave in it, Gather the lookup by gid, Reading, Registration and Agree
-- what a reader finds.
--
-- Resources (KRdmaKit/src/memory_region.rs and context.rs). What the library owns of the operating
-- system and the NIC. Resources.antt has their calls as a parameter (Os) and what is documented of
-- them (Accounts): how often each resource is held. Resources/Region has the constructors and the
-- drop of memory regions, History programs that use them, Owned and Balance what is held then;
-- Resources/Context has contexts, and Opening what is held after one is opened and dropped.
--
-- Prelude has the shared names: Boolean tests, lists over native numbers, panics, machine words,
-- ordered maps, and calls that change a world, which Prelude/Effects has.
--
-- Bounds. The loop of Push is given as many rounds as there are requests, and it makes one for
-- every 64, so they are enough; a loop that ran out would panic in the model. The loop of PopMsgs
-- is given 50,002 rounds, which its bound on retries does not exceed. The rounds of a worker's
-- main loop are a number that the theorems leave open.
--
-- Not modelled: the configurations of the system calls with dct_qp, meta_cache and migrate_qp, and
-- of meta_kv the RPC that carries the requests and the handlers that connect RC queue pairs;
-- start-up of the kernel module; the creation of DC targets; of the variant two-sided-dc all but
-- its receive buffers and its controller; in user space the listener of the connection manager and
-- block_on of the runtime, which wait for the operating system; post_datagram_batch, whose
-- requests point to locals that are dead when they are posted; memory windows, polling of the
-- receive buffers, bindings of devices and contexts, vendored code, examples and benchmarks.
pub mod Bringup
pub mod Control
pub mod Doorbell
pub mod Manager
pub mod Metadata
pub mod Posting
pub mod Prelude
pub mod Receive
pub mod Resources
pub mod Runtime
pub mod Services
pub mod Syscall
