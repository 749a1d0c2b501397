-- ===== src/Lib.antt =====
-- The node of iu: a network of servers and clients that relay texts and files to each other. This
-- library models its parts and states what each of them promises.
--
-- A node runs one main loop (src/server.cpp, src/client.cpp). It takes the next message from the
-- network (src/net.cpp), which polls the connections in turn and lets the maintenance send what the
-- streams of messages hold. A server relays an item to its receiver or to another server
-- (src/relay.cpp); a client adds it to a conversation (src/messenger.cpp). A file goes over a stream
-- of messages (include/concat.h), which one thread fills (src/file.cpp) while the main thread empties
-- it; a thread that ends leaves its last steps to the main thread as todos (src/todo.cpp), over a
-- queue of many producers (include/mpsc.h). src/datacenters.cpp knows which node is where.
--
-- Which file models which part:
--   Prelude      shared names; lists by native numbers; std::map and std::set as lists that ascend by
--                their keys; texts and decimal digits.
--   Datacenters  include/datacenters.h, src/datacenters.cpp. `Directory` is the two static maps;
--                set_node_location, get_node_location, get_nodes_in and get_server are the calls.
--   Msg          include/msg.h, src/msg.cpp, include/types.h, src/types.cpp. `Msg` is `struct msg` with
--                what follows it, as values; the constructors compute the lengths, in words of 64 bits
--                that wrap. The sizes of the structs are an argument (`Sizeof`).
--   Concat       include/concat.h. `Stream` is the linked list from the consumer's side: the nodes that
--                were read and are not freed, the nodes to read, and the flag of close. Threads has the
--                interleavings of a thread that fills a given stream with a loop that reads. Shared is
--                the same code as accesses of memory that two threads share, and a pointer to the field
--                `next` of a node is the address of that node.
--   Mpsc         include/mpsc.h. Memory is a function from addresses to cells; put is in two halves, at
--                its exchange, and the other threads run between them.
--   Todo         src/todo.cpp, over any queue with the laws of `Fifo`, which Todo/Queue.antt fills with
--                that of include/mpsc.h.
--   File         src/file.cpp: send_file_thread and recv_file_deputy, over `FileOps`, what POSIX says of
--                the calls that go through a file descriptor; save_file in File/Saving.antt. What becomes
--                of a thread, also where it does not end, is a `Course`.
--   Net          src/net.cpp. `Net` is the static variables; Send and Receive have the calls. What a call
--                of the system returns is an argument; `Run` is what a call comes to. Service, Draining,
--                Rounds and Drained follow one maintenance from queue to queue.
--   Dispatch     src/node.cpp, src/relay.cpp, src/server.cpp, src/client.cpp, recv_file and
--                recv_file_finisher of src/file.cpp: what a node does with a message.
--   Control      src/iuctl.cpp, src/iuctl_server.cpp, iuctl.cpp: the requests of the program iuctl, over
--                `Ipc`, the message queue of the system. Startup is the file with the pid by which iuctl
--                finds the server, Listing the text of net_addresses, Command the choice of
--                the request, and Failing what iuctl does about the errors of that queue.
--   Program      main_loop of src/server.cpp and src/client.cpp, on_finished of src/relay.cpp, send_file of
--                src/file.cpp, iuserver.cpp, iuclient.cpp, and the signals of src/iuctl_server.cpp: the
--                turns of a loop, over all the parts above. Relaying and Texting follow a file and a
--                text from one client to another.
--   Messenger    src/messenger.cpp, over `Network`, the calls of the network that it makes.
--
-- Results of the system and of the other parts are arguments. What the code leaves uninitialised is an
-- argument too. A fault (a null or dangling pointer that is followed) and a loop that does not end are
-- the value `none`, or a result of their own.
--
-- Fuel: a call on a stream takes as fuel at least the number of the stream's pending nodes, nested
-- ones included (`size` of Concat/View.antt), which is more than the rounds and the depth of any
-- call. The loop that sends an item takes the number of its tries; how many it needs depends on
-- the network, and the theorems on it say so. The loop over the todos takes the number of jobs
-- that run, and one more. The loop that brings `start` into its range takes `start` and one more.
-- The maintenance takes an answer of the system for each message that it sends, so as many as the
-- queues hold. The destructor of the queue takes two more than there are items, and that of a
-- stream one more than items were put. Digits of a number take the number and one more. The loops
-- of the network that wait for the system take a list of its answers, and spin when that is used
-- up.
--
-- Not modelled: the layout of messages in memory (but for the field that the cast of a first
-- message reads), the printing of the programs, the parsing of addresses, the errors of the
-- system's queue in the calls of a server, the calls that a receiving thread makes of the network
-- between those of the main loop, the copies of other libraries (include/capitalC.h,
-- include/stream.h), and, where the accesses of a stream are single ones, what the streams do that
-- were given to it.
pub mod Prelude
pub mod Datacenters
pub mod Msg
pub mod Concat
pub mod Mpsc
pub mod Todo
pub mod File
pub mod Messenger
pub mod Net
pub mod Dispatch
pub mod Control
pub mod Program
