-- ===== src/Lib.antt =====
-- BDSPro_UDP_v2: the UDP channel with acknowledgments and flow control, the receiver that looks for
-- gaps, and the TCP data plane that carries tuple buffers between nodes.
--
-- Parts and files:
--   external/BDSPro_UDP_Channel/src/message.rs and the types of src/lib.rs: Udp/Message (Message,
--     UdpChannelError, FlowControlConfig); the semaphore of tokio is the interface Udp/Semaphore.
--   external/BDSPro_UDP_Channel/src/lib.rs, UdpSender: Udp/Sender. A call is a function from the state
--     to an Outcome (state, datagrams, result): send_message, send_message_auto_seq. The tasks that
--     `new_with_config` spawns are listen and dispatch (on_datagram for both) and tick.
--     Udp/Sender/Events has the calls and tasks as events of a run; Window, Runs, Resend and Overshoot
--     have what is proved of it.
--   The same file, UdpReceiver: Udp/Receiver (receive_message, receive_from_buffer,
--     request_retransmit), with Events, Buffer, Order and Overflow.
--   Both ends: Udp/Network, where every datagram handed to a socket may be delivered any number of
--     times, in any order, or never; Moves, Sends, Receives, Invariant and Safety.
--   external/BDSPro_UDP_Channel/src/lib_simple.rs: Udp/Simple, with Refines for the full channel.
--   external/BDSPro_UDP_Channel/src/bin/auto_sender.rs: Udp/Auto (send is one turn of its loop), with
--     Numbered. src/bin/sender.rs there, and the receiver of the former version in
--     external/BDSPro_UDP_Channal/src/bin/receiver.rs (the directory is spelled so): Udp/Cli, with Lines
--     and Answers for the two together.
--   external/BDSPro_UDP_Channel/src/bin/receiver.rs: Gap (turn is one turn of the main loop), with
--     Gap/Missing for the search, Gap/Range for the range and its invariant, and Budget, Asking, Timeouts,
--     Turns and Bounded for how often a number is asked for, Complete for what a detection leaves, and
--     Reached for the states that the loop comes to.
--   network/src/protocol.rs: Tcp/Protocol. network/src/sender.rs, mod channel_handler: Tcp/Channel
--     (run_turn and flush_turn are one turn of the two loops), with Window, History, Held, Flush, Dropped
--     and Finish.
--   network/src/receiver.rs, channel_handler: Tcp/Intake (turn is one turn of its loop) with Delivery.
--   Both ends of a data channel: Tcp/Link, where each end reads what the other wrote in its order, as over
--     TCP; Sending and Receiving have their turns, Kept and Side what they keep, Delivered and Drains have
--     both under a flush.
--   create_connection and create_channel of network/src/sender.rs, identify_connection and the loop that
--     accepts of network/src/receiver.rs: Tcp/Identify with Handshake.
--   network/src/receiver.rs, control_socket_handler and control_socket: Tcp/Registry (one function for
--     each message, and one for the task that is spawned for a channel) with Attached and Once.
--     NetworkService and the loop that reads its messages: Service, with Offers and Stopped for what
--     becomes of the channels when the loop ends.
--   network/src/sender.rs, network_sender_dispatcher and NetworkService: Tcp/Dispatcher (dispatch is one
--     turn) with Handlers. The same file, connection_handler, establish_channel and
--     attempt_channel_registration: Tcp/Connection (step moves one of the two tasks) with Attempts and
--     Single.
--   test-node/src/main.rs: Node/Sink is NetworkSink, Node/Tracker is MissingSequenceTracker, and
--     Node/Generator has GeneratorSource, verify_tuple_buffer and PrintSink. Node/Source has the loops of
--     the two sources, with Received for a generator's buffers at a sink, and Node/Thread what they do
--     with their threads, with Slots. main, generator, sink and bridge, and test-node/src/config.rs:
--     Node/Program, with Commands.
--   test-node/src/engine.rs: Node/Engine (work is one turn of the worker), with Queries and Tasks. The
--     bounded queue of crossbeam is the interface Node/ArrayQueue.
--   bridge-of-bridges/network/lib.rs: Bridge, with Carried for what one side sends and the other builds.
--   Common and HashMap are shared: lists and tests on native numbers, and maps as association lists.
--   Tests has a codec with the law of the codec interface, and runs at concrete inputs.
--
-- How the program is read: every call that waits (socket, clock, queue, cancellation) takes the
-- answer as an argument. `acquire` under a timeout either takes a permit that is there or times
-- out. An early return drops a permit, which gives it back. A datagram is cut at 1024 bytes, as
-- the buffers are. u64, u32 and i32 counters wrap, except in the test node, where the counter of
-- PrintSink and the number after the highest seen are taken to stay below 2^64. What `select!`
-- picks is an argument, and a branch that was begun and dropped is marked as such. The loops that
-- never end are given one turn at a time, so that no fuel is needed; loops over a table or a range
-- are structural. flush_loop of Tcp/Channel/Finish takes fuel as an argument: an answered turn
-- sends a pending buffer or takes the acknowledgment of one that waits. The two loops of
-- Node/Generator that write eight bytes a turn have the length of the buffer as fuel, which is
-- more than their turns.
--
-- Not modelled: peer addresses and socket errors other than their occurrence, logging, the framing and
-- JSON codec (a parameter with its round trip), the runtime's scheduling beyond the order of events,
-- the set-up of tasks in NetworkService::start of network/src/receiver.rs, how long a thread of the test
-- node takes to end, its command line, the code that cxx generates, and the bridge to spdlog, which passes
-- log lines on.
pub mod Common
pub mod HashMap
pub mod Udp
pub mod Gap
pub mod Tcp
pub mod Node
pub mod Bridge
mod Tests
