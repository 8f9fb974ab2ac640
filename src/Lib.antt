-- ===== src/Lib.antt =====
-- Verification library of the remote file copy over UDP: a server that sends a file in numbered
-- packets with selective reject, and the client `rcopy` that receives it.
--
-- Parts of the program, and the files that model them:
--
--   Workspace/functions.c, functions.h (createPDU, printPDU, send_rr, send_srej): Pdu. A C array is a
--     list of bytes, and a call returns the array as it is afterwards. Pdu.Build has the functions
--     that build, Pdu.Parse those that read.
--   Workspace/circularQueue.c, circularQueue.h: CircularQueue. The struct and its slots are records
--     with the source's fields (CircularQueue.Defs); a pointer to a slot is the slot itself, a fault
--     (a division by zero, a slot outside of the array) is `none`. CircularQueue.Valid has the
--     representation invariant, View the abstract map, Window the sliding window;
--     Slots has a table by remainders, with which Refine compares the queue.
--   Workspace/pollLib.c, safeUtil.c: Poll. The static variables are a record, and `poll` is a parameter.
--     Poll.Table and Poll.Refine compare the table with a set of sockets, Poll.Call has its bounds,
--     Poll.Socket the case of one socket. Net has what the state functions meet at pollCall and
--     safeRecvfrom, as a list of events in the order in which they come: a time-out, a datagram, a
--     failure at which the program exits.
--   Workspace/networks.c, gethostbyname.c: Address has the UDP functions and the resolver (Defs) and the
--     printing of addresses (Text), Tcp the TCP functions with safeSend and safeRecv of safeUtil.c; the
--     system calls are parameters, and what is printed is a list of lines (Output).
--   Workspace/server.c (processClient and its state functions): Server. State has `enum State` and
--     `ServerInfo`; Setup filename_state and write_file_ok_ack_state; Send wait_on_ack_state and the
--     resending; Transfer the loops of send_data_state; Eof wait_on_eof_ack_state and resend_eof_state;
--     Process the loop of processClient. Serves, Session and Closes have whole runs; the other files of
--     Server hold the proofs about their parts.
--   Workspace/rcopy.c (wait_on_data_state, process_transfer_state, send_eof_ack_state) and
--     buffer_packet of functions.c: Receiver. State and Buffer have the data, Transfer the functions,
--     the other files the proofs.
--   Workspace/rcopy.c (main, processFile, start_state, wait_on_file_ok_state, checkArgs): Client. Defs
--     has the process with its descriptors and checkArgs, Request the PDU, Handshake the rounds of
--     wait_on_file_ok_state, Main the state loop. Client.Sockets, Connected and Retries have the proofs;
--     Opening relates the request to filename_state of the server, Agreement the rest of the handshake.
--   Workspace/server.c (main, processServer, checkArgs, getErrorRate): Server.Listen, with
--     the list of the requests that the parent has started a child for; Server.Forks has the proofs.
--     handleZombies is in Server.Zombies, on the table of the children that `waitpid` reads.
--   Workspace/server.c (send_data_state and the states behind it) with Workspace/rcopy.c
--     (process_transfer_state): System, the two side by side with the network between them. Defs has
--     their steps and the runs, Loops relates the steps to the loops of the source, Invariant has what
--     holds of both ends; Sender and Acks have the steps of the sender, Moves, Receiver and Deliver those
--     of the receiver, Steps and Safety the runs; Turns, Copies and Lossless a network that loses nothing;
--     Session has the handshake in front of that.
--   Workspace/myClient.c, myServer.c: Sample, with State for what they share, Client and Server for the
--     programs, and Line, Session and Overrun for the proofs.
--   Examples has the theorems applied to concrete inputs; Base the shared helpers.
--
-- How the parts meet: the server's window keeps the PDUs of createPDU; the client's RR and SREJ move
-- and answer it; the client's buffer holds what comes out of order. The statements about a run of the
-- receiver take as a hypothesis that the data packets which arrive carry chunks of the file; packets
-- may be lost, repeated and reordered at will. System has no such hypothesis: there the packets are those
-- that the child has sent. Its acknowledgements may be lost, but come in order and once, and the child's
-- window is no wider than the client's: a late SREJ, or a window that the byte order of the host makes
-- wider, can break the file.
--
-- Bounds and fuel. Numbers are natural numbers; a `uint32_t` that is increased wraps at 2^32 (`inc32`),
-- and theorems name the length of the file up to which it does not. The loop of processClient has fuel:
-- two rounds for each event and those of the state that it starts in (`rank` of Server.Fuel) are enough.
-- The state loop of the client has fuel as well: three states more than there are events.
-- The flush loop has one round for each slot, since each round frees one. All other loops are structural
-- in the events or in an array.
--
-- Parameters: the checksum function in_cksum, which is linked from a library; the byte order of the
-- host; whether a file can be opened, and its bytes; the bytes that an array on the stack holds before.
-- The client's World has the system: `poll`, `socket`, `fopen`, `getaddrinfo` and `atoi`, and memory that
-- realloc has not written. Statements about it assume what the documents of `poll` and `socket` say
-- (IsPoll, IsLowest, HasRoom), and that the descriptor 0, which the unused entries of the table name, has
-- no error or hang-up to report. getaddrinfo answers one host always alike.
-- calloc and malloc of the queue have an argument that says whether they succeed; the other allocations,
-- sockets and writes to the disk succeed. What sendtoErr drops or flips is the network's.
--
-- The sample programs take `send`, `recv`, `connect`, `accept` and the like as parameters; `waitpid` is
-- one of handleZombies, with what its document says (IsWaitpid).
--
-- Not modelled: safeSendto, which nothing calls; the closing of the sockets of the sample programs, which
-- has no effect that shows; signals that interrupt a system call; and the headers cpe464.h and checksum.h,
-- whose library is linked in binary form.
pub mod Base
pub mod Pdu
pub mod CircularQueue
pub mod Net
pub mod Address
pub mod Output
pub mod Tcp
pub mod Sample
pub mod Poll
pub mod Server
pub mod Receiver
pub mod Client
pub mod System
pub mod Examples
