-- ===== src/Lib.antt =====
-- GRNVS course programs: the C parts.
--
-- The repository holds four programs. assignment1 prints the 3n + 1 sequence of a number. assignment2
-- reads Ethernet frames from a raw socket and prints statistics by EtherType. assignment3 is a
-- traceroute in Java over a C library. assignment4 is a chat client which sends netstrings over TCP.
-- assignment2/libraw holds the raw socket library that assignment2 and assignment3 use.
--
-- Files and code:
--   Prelude, Prelude/...    numbers, lists, integers, casts, commands over a state
--   Args                    strtol and argp_parse as the argument parsers use them
--   Collatz                 assignment1/src/assignment1.c; Reach is the 3n + 1 sequence, Laws one
--                           round and the loop, Returns when a call returns; Arguments is its
--                           arguments.c, Main its main
--   Checksum                assignment2/libraw/src/checksum.c; Sums, Fold, Order and Laws lead from
--                           its loops to RFC 1071, Prefix treats a payload in a longer buffer
--   TypeInfo                assignment2/src/assignment2.c, the list of `struct typeInfo`; Seg says
--                           which cells a list in the heap stands for, Find, Insert, Remove and Free
--                           treat one operation each, History a sequence of calls
--   EthFrame                assignment2/src/assignment2.c, isMulticast, getMac, macsEqual, getType
--   Ethstats                assignment2/src/assignment2.c, assignment2; Table is the abstract table,
--                           Heap one frame, Receive the receive loop, Summary the summary loop,
--                           Order frames in another order; Arguments is its arguments.c, Main its
--                           main
--   Memory, Decimal         byte buffers and strings in them; sprintf of %ld, countDigits, atol
--   Netstring               assignment4/src/assignment4.c, writeNet, readNet, sendMessage,
--                           recvMessage, checkMessage, updateNets. Write treats writeNet, Check and
--                           Checked checkMessage; Start, Rounds, Accept and Read are about readNet,
--                           Glued, Segments and Fragment about netstrings that it gets piece by piece;
--                           Receive, Messages and Stream about recvMessage
--   Session                 assignment4/src/assignment4.c, assignment4, parse_ip, set_socket_options;
--                           Steps has its variables, Peer is a server, Exchange and Parts its parts
--                           against one and Run the whole run, Queue and Grouped texts that come in
--                           one segment, Closing and Closed which descriptors are open; Arguments is
--                           its arguments.c, which Parsing and Accepting treat, Main its main, which
--                           Started and NotNull treat
--   Timespec                assignment2/libraw/src/timespec.h
--   Raw                     assignment2/libraw/src/raw.c; Laws treats the calls by themselves, Addresses
--                           what grnvs_open finds on an interface, Writing where grnvs_write sends
--   Hexdump                 assignment2/libraw/src/hexdump.c, hexdump2; Laws keeps it inside its buffer,
--                           Text is what it writes for one byte, Rows the rows that this adds up to,
--                           Buffer what the whole call leaves
--   Crc                     assignment2/libraw/src/crc.c
--   Jni                     assignment3/deps/GRNVS_RAW.c; Documented is what it relies on in the Java
--                           native interface, Laws treats write_, Reading read_, Sums checksum_
--
-- State: assignment2 acts on a heap, a function from addresses to nodes; a NULL or dangling access is
-- the outcome `fault`. The functions of assignment4 act on the replies of the peer, what was sent and
-- what was printed; an access outside a buffer is the outcome `crash`. Numbers are natural numbers,
-- with the wrap-around of their C type written out; `long` in assignment1 is an integer whose
-- overflow is an outcome. Session runs the functions of Netstring over two connections, and keeps
-- which of its three descriptors are open. Raw acts on the static variables of its file, and Jni on
-- Raw, Checksum and Hexdump. The three main functions are functions of the command line; their result
-- tells how the program ends.
--
-- Fuel: loops over a list take more fuel than the list is long; the checksum's carry loop takes more
-- than the sum; assignment1 takes more than the sequence is long. Each theorem names its bound.
-- `countDigits` and `%ld` take the number itself, which is more than its digits.
--
-- Parameters: `double` and its operations; what each read of the socket, each clock and each `malloc`
-- gives; the answers of the socket calls; the functions of the Java native interface, among them what
-- CallObjectMethod does for methods that return no object. The condition of writeNet is undefined in
-- C: the code that is modelled reads len in it before or behind the assignment (`Order`).
--
-- Not modelled: the Java program; what a usage message prints; what socket options change.
-- assignment3/deps/libraw is a copy of assignment2/libraw.
mod Prelude
pub mod Collatz
pub mod Args
pub mod Checksum
pub mod TypeInfo
pub mod EthFrame
pub mod Ethstats
pub mod Memory
pub mod Decimal
pub mod Netstring
pub mod Session
pub mod Timespec
pub mod Raw
pub mod Crc
pub mod Hexdump
pub mod Jni
