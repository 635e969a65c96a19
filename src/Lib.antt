-- ===== src/Lib.antt =====
-- BlueTAS, a TCP acceleration service whose fast and slow path run on a SmartNIC (README.md). An
-- application links lib/tas; tas_host connects it to the NIC; tas_nic/fast moves packets and bytes,
-- and tas_nic/slow sets connections up and controls their rates. Host and NIC exchange bytes through
-- the RDMA queues of lib/utils/rdma_queue.c.
--
-- Prelude      the shared names: Boolean tests, lists, C's unsigned arithmetic with its wrap-around,
--              memory read off as a list, lists of numbers in which none stands twice.
-- Rdma         lib/utils/rdma_queue.c and include/rdma_queue.h. Ring has the record of a queue, its
--              byte counts (rq_nbytes and its kin) and the copying of enqueue and dequeue; Verbs has
--              rdma_write, rdma_read (lib/utils/rdma.c) and rq_nflush as a state monad that may
--              return -1; Ops has rq_try_enqueue, rq_nbytes_can_reserve and rq_try_reserve_flush.
--              ibv_post_send and what a posted read leaves in memory are parameters. Bounds, Fifo,
--              Contents and Local prove the queue that one process uses from both ends; Peer,
--              Overshoot and Reserve the queue that is paired with a peer.
-- Tcp          tas_nic/fast/tcp_common.h: Window has the four computations on sequence numbers, Trim
--              and Accept prove them against arithmetic modulo 2^32. Options has tcp_parse_options and
--              fast_flows_packet_parse, and Scan says when the option loop ends.
-- Flows        tas_nic/fast/fast_flows.c. State has the flow, with the queue it fills (a Side of Rdma)
--              and the queue it empties, the packets, and the calls of other parts as actions;
--              Buffer, Send, Receive and Packet have the routines, Packet the whole of
--              fast_flows_packet. Slots, Ring and Overlap are lemmas for Reassembly, Delivery,
--              Merging and InOrder, which follow the received bytes; Sending and Acks are about the sent ones.
-- Qman         tas_nic/fast/qman.c. Times has the order of 32-bit stamps, Thread the state and the list of
--              queues without a rate, Skiplist the rate-limited ones and queue_fire, Polling qman_poll,
--              qman_set and qman_next_ts. Fifo, Same, Conserved and Ends are about the lists and the bytes.
-- Conn         tas_nic/slow/tcp.c. State has the connection at hand, the tables and the calls of other
--              parts; Ports has port_alloc, Table the hash table, Handlers the connection's state
--              machine, Options parse_options, Listener the backlog and tcp_accept, Opening tcp_open
--              and tcp_listen, Dispatch tcp_packet and listener_lookup. Invariant, Keeps and Events
--              follow a connection through its events; Lookup, Backlog, Accepting, Opened, Dispatching,
--              Answers and Release are about the tables. What routing_resolve answers tcp_open is
--              Resolved, which Resolve gives.
-- Cc           tas_nic/slow/cc.c. State has the counters and what a connection keeps, Dctcp and Timely
--              the algorithms, Control the list of connections, cc_poll, the retransmissions, cc_next_ts
--              and the sleep of slowpath_block (tas_nic/slow/kernel.c). Bounds, Windows, Rates and
--              Backing are about the rates; Silence about the rounds before a retransmission; Rounds
--              and Members about the list; Sleeping about the deadlines.
-- Epoll        lib/sockets/epoll.c. State has the bindings of sockets to epolls and the es_ functions,
--              Control tas_epoll_ctl, flextcp_epoll_set, flextcp_epoll_clear and the closing of sockets
--              and epolls, Waiting ep_poll_tas and a poll of tas_epoll_wait. Invariant says how the
--              lists fit together; Lists, Moves, Activation, Deactivation, Masks, Operations,
--              Binding, Adding, Removing, Unbinding, Closing and Destroying show that the operations
--              keep it, Controlled that tas_epoll_ctl does; Polled, Reaching and Waits say what is reported.
-- Resolve      tas_nic/slow/routing.c (Routing) and tas_nic/slow/arp.c (Arp); Waiting follows the
--              connections that wait for an address.
-- Packetmem    tas_nic/slow/packetmem.c: Freelist has the operations, Cover says which addresses
--              they move, System follows a history of calls, Fit says which block is taken.
-- Timeout      lib/utils/timeout.c: Clock has the distance of 28-bit stamps, Manager the operations,
--              Order, Moves and Calls prove the order of deadlines and what a poll hands over.
--
-- Machine integers are natural numbers with the wrap-around written out; `-` and `+` that may wrap
-- are sub32, add32, sub64 and add64, and a size_t kept in an `int` goes through `through_int`.
-- poll_due recurs on MAX_TIMEOUTS = 64, the bound of the C loop. The other loops that are not over
-- a list take fuel. scan_options and parse_scan: one pass more than there are option bytes is
-- enough unless an option claims a length of 0, for which none is. port_alloc: 57344 passes, one
-- for each ephemeral port, unless the hint is below these. next_hops: two passes if every gateway
-- is in the host's network. cc_poll makes at most 128 rounds, as in C, and poll_active at most
-- num_active. poll_nolimit: one pass more than the queues asked for and those in its list. walk and
-- skiplist_loop, along the skip list: no bound is shown yet.
-- Not modelled: DPDK, ibverbs and libc, and the files that only call them (NIC interface, network
-- drivers, KNI, RDMA connection setup), the bytes of the headers that are sent, and what a SYN
-- shorter than its headers leaves in a slot of the backlog; that tas_epoll_wait blocks between two
-- polls, and the locks and reference counts of the socket layer. The application contexts of both
-- paths (fast_appctx.c, appif.c), lib/tas and the rest of lib/sockets hold state of their own and
-- are only seen as calls here. The configuration parser is input and output, and the tests and
-- tools are no part of the program.
pub mod Cc
pub mod Conn
pub mod Epoll
pub mod Flows
pub mod Packetmem
pub mod Prelude
pub mod Qman
pub mod Rdma
pub mod Resolve
pub mod Tcp
pub mod Timeout
