-- ===== src/Lib.antt =====
-- This library is about the routing core of unstrung, an implementation of RPL (RFC 6550): what a
-- node does with the DIO, DIS, DAO and DAO-ACK messages that it receives, which messages it builds,
-- how it chooses a parent and commits to it, how it helps a neighbour to join, how it runs its
-- events, and how it follows the interfaces of its system.
--
-- The parts and the files, with paths from the root of the repository:
--   Prelude: shared names, lists measured by native numbers, Boolean tests, signed integers, tables
--     over a byte.
--   Wire: include/rpl.h: the codes, option types and flags, and the addresses as lists of bytes;
--     Wire/Bytes has the laws of slices.
--   Sequence: lib/libndmgmt/dag.cpp (seq_too_old, seq_update): the counter of a DAG, of 32 bits,
--     against the 8 bits of a message; laws in Sequence/Laws.
--   Timer: include/event.h and lib/libndmgmt/event.cpp (set_alarm, passed, rpl_eventless,
--     occurs_in, miliseconds_util); laws in Timer/Alarm and Timer/Interval.
--   RplMsg: lib/libndmgmt/rplmsg.cpp: the walk over the suboptions of a message. RplMsg/Progress
--     and RplMsg/Steps show that it ends, RplMsg/Chain describes a well-formed chain,
--     RplMsg/Finding, RplMsg/Contents and RplMsg/Reads what the walk reads in one.
--   Node: include/node.h and lib/libndmgmt/node.cpp: members and neighbours and the map of them;
--     laws in Node/Joining.
--   Prefix: include/prefix.h and lib/libndmgmt/prefix.cpp: the entries of the three prefix maps;
--     laws in Prefix/Order.
--   Stats: include/counter_names.h: the counters, of 32 bits.
--   Dag: include/dag.h and lib/libndmgmt/dag.cpp: the state of a DAG. Dag/Schedule has schedule_dio
--     and its relatives, Dag/Install the addresses and routes (with lib/libndmgmt/netlink.cpp),
--     Dag/Parent has potentially_lower_rank, commit_parent and receive_daoack, Dag/Receive the
--     other handlers. Dag/Choice, Dag/Choosing, Dag/Received and Dag/Reachable follow the parents
--     and ranks through them; the files below Dag/Receive, Dag/Parent, Dag/Install and Dag/Schedule
--     are about one operation each.
--   Message: lib/libndmgmt/dio.cpp, dao.cpp, daoack.cpp and dis.cpp, the building halves;
--     Message/Writing, Message/Dao, Message/Dio and Message/Daoack say what they write.
--   Iface: lib/libndmgmt/iface.cpp (receive_packet) and the receiving halves of dio.cpp, dao.cpp,
--     daoack.cpp and dis.cpp: a packet is taken apart and handed to the DAG of its instance.
--     Iface/Exchange, Iface/Announced and Iface/Handshake join a sender and a receiver,
--     Iface/Dispatch sorts a packet by its type and code, and Iface/Kept, Iface/Routing,
--     Iface/Isolation, Iface/Solicited, Iface/Rounds and Iface/Overrun are about the delivery.
--   Link: lib/libndmgmt/ifacefuncs.cpp and the EUI and checksum functions of
--     lib/libndmgmt/iface.cpp; Link/Text and Link/Checksum have their laws.
--   Grasp: lib/libgrasp/client.cpp and include/grasp.h: the queries to the registrar.
--   NdMessage: the neighbour discovery messages that lib/libndmgmt/neighboursolicit.cpp and
--     neighbouradvert.cpp build.
--   Neighbour: include/neighbour.h, lib/libndmgmt/neighboursolicit.cpp and neighbouradvert.cpp: the
--     neighbours of an interface, the solicitations and advertisements. Neighbour/Options and
--     Neighbour/Solicits are about the loop over the options, Neighbour/Nodes about the map,
--     Neighbour/Asking and Neighbour/Joining about the start of a query, Neighbour/Registrar
--     (lib/libgrasp/client.cpp) and Neighbour/Answers about the reply, and Neighbour/Reachable
--     about all states that messages lead to.
--   Discovery: lib/libndmgmt/iface.cpp (receive_packet): the branches for neighbour discovery;
--     Discovery/Walk shows that the walk over their options ends.
--   Queue: include/event.h, lib/libndmgmt/event.cpp (doit, requeue) and the loop of main_loop over
--     the due events in lib/libndmgmt/iface.cpp; Queue/Due, Queue/Run and Queue/Endless have its
--     laws.
--   Interfaces: lib/libndmgmt/iface.cpp: the list of all interfaces; laws in Interfaces/Listed and
--     Interfaces/Marks.
--   Filters: lib/libndmgmt/dag.cpp: the patterns and subnets by which a DAG takes up the addresses
--     of new interfaces; Filters/Memory, Filters/Rows and Filters/Wildcards follow the patterns
--     through the memory of their rows, Filters/Announced the addresses.
--   Netlink: lib/libndmgmt/netlink.cpp: the messages of the kernel about links; Netlink/Lookup and
--     Netlink/Managed follow the list through them, Netlink/Addresses the addresses, and
--     Netlink/Refines compares it with a set of indices.
--   IpInfo: lib/libndmgmt/netlink.cpp (adddel_ipinfo, update_addr): the messages of the kernel
--     about addresses; IpInfo/Announced follows them to the DAGs.
--   Acp: lib/libidevid/rfc8994acp.cpp: the address in the name of a device; Acp/Names reads what a
--     name says.
--   Tests: concrete data, and examples to which the theorems are applied.
--
-- A packet goes from Iface, which finds the DAG by the instance, to the handler in Dag, which walks
-- over the options with RplMsg, changes the maps of Node and Prefix, and asks for effects: commands
-- of `ip`, events and messages, which stand in the field `out` in their order. A handler is a
-- function from a state to an optional state; `none` is an access through NULL or outside an array,
-- which C++ leaves undefined. What the code reads of the system (the clock, addresses of
-- interfaces, whether a subnet is valid) is the record `Env`; the neighbour discovery branches of
-- receive_packet are a parameter of `dispatch`, and Discovery is what stands there. It hands a
-- solicitation to Neighbour, which sends messages and, for a node that wants to join, a query of
-- Grasp; the registrar's reply comes back through Neighbour/Registrar. The events that a DAG
-- schedules stand in Queue. The kernel's messages about links and addresses go through Netlink and
-- IpInfo to the list of Interfaces and, by the Filters, to the DAGs. The heap of the queue (boost)
-- is an interface with the laws of a priority queue; the reader of CBOR items, `sscanf`, `fnmatch`
-- and `addrinsubnet` are given functions.
--
-- Loops run on fuel. The walk over the options has 2049 rounds for an array of 2048 bytes, each of
-- which moves on by a byte at least, and the loops over targets, prefixes and solicitations have as
-- many; the loop of `set_alarm` has one round for each million microseconds and one more; the loops
-- over the options of neighbour discovery take as many rounds as a message has bytes, and the loop
-- over the due events one for each of them and one more, as long as the lengths and repetitions are
-- not zero. That this is enough is among the results.
--
-- A pointer to a node or to a prefix is the key of the map that holds it. The standard leaves open
-- what a map does with the comparison of include/prefix.h; the model tells keys apart where they
-- differ. Memory that a constructor leaves unset is an argument; that of a new node comes with the
-- map that makes the node. The alarms of the queue are compared as the code does it, by differences
-- that are cut to an `int`; the laws of the heap are asked for as long as only alarms before second
-- 2 ^ 31 are put in. Not modelled: sockets and `poll`, the connection to the registrar, the
-- requests to netlink, certificates, logs and the programs; lib/libosw and lib/libnetlink are
-- copies of other projects' libraries.
pub mod Prelude
pub mod Sequence
pub mod Timer
pub mod Wire
pub mod RplMsg
pub mod Node
pub mod Prefix
pub mod Stats
pub mod Dag
pub mod Message
pub mod Iface
pub mod Link
pub mod Grasp
pub mod NdMessage
pub mod Neighbour
pub mod Queue
pub mod Discovery
pub mod Interfaces
pub mod Netlink
pub mod Filters
pub mod IpInfo
pub mod Acp
pub mod Tests
