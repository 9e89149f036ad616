-- ===== src/Lib.antt =====
-- The TRTP protocol of this repository: a sender and a receiver that move a file over UDP with
-- selective repeat, on windows of at most 31 packets with sequence numbers modulo 256.
--
-- The program. The sender (src/read-write/read_write_sender.c) reads a file in pieces of 512 bytes, sends
-- each as a PTYPE_DATA packet, keeps the packets in a window until they are acknowledged, and sends
-- them again when an acknowledgement is late. The receiver (src/read-write/read_write_receiver.c) keeps
-- what it gets in a list in the order of the numbers, writes what has become consecutive to its standard
-- output, and answers with PTYPE_ACK, or with PTYPE_NACK to a truncated packet. Both call the codec
-- pkt_encode and pkt_decode (src/packet_implem.c), and share the window (window_pkt_t of
-- src/read-write/read_write_sender.h) and the linked list (src/linkedList/linkedList.c). For every four
-- packets the sender may send a PTYPE_FEC packet with their parity (src/fec.c).
--
-- The files.
-- Base: lists and tests on native numbers, bytes of words, masks of a byte.
-- Packet: src/packet_implem.h and src/packet_implem.c. Struct has the types and `struct pkt`, Access
--   pkt_new, the getters and the setters, Decode pkt_decode as steps on the packet, each of which goes on,
--   returns a status or is undefined, Encode pkt_encode. RoundTrip, Total and Length hold
--   the proofs about them.
-- Fec: fec_generation of src/fec.c.
-- Window: window_pkt_t and the tests of sequence numbers of the sender and the receiver.
-- Receiver: src/read-write/read_write_receiver.c. The record Receiver is its static variables with the
--   window, and what has left the program; start_receiver is what comes before the loop. Response has
--   increase_window, decrease_window, send_response, send_troncated_nack and send_ack; Insert
--   is_in_window with its counter and linkedList_add_increasing; Receive receive_data; Flush
--   flush_file; Recover deal_with_fec; Loop read_write_receiver, on a sequence of turns, each of which
--   is what poll and read bring. Shrink, Answers, Sound, Order, Flushes, History, Delivery and Progress
--   hold the proofs.
-- Sender: src/read-write/read_write_sender.c, in the same way: the record Sender is its static
--   variables with the window and the datagrams sent, start_sender what comes before the loop. Buffer
--   has send_final_pkt and what pkt_encode and write do together, Fill fill_window, Resend resent_pkt,
--   Nack resent_nack, Acks ack_window and update_window, Loop read_write_sender. Removal, Resize,
--   Pieces and Sound hold the proofs.
-- LinkedList: src/linkedList/linkedList.c and pkt_del, on an explicit heap of nodes and packets. Chain says which
--   list a struct stands for; Grow, Shrink, Ends, Middle and Delete hold the proofs about the operations,
--   Refine that they are those of a sequence.
-- Network: a file between the sender and the receiver. Arrivals and Prefix hold the proofs about the receiver,
--   Pieces and Sent those about the file and the sender, EndToEnd puts the two together.
-- Program: src/sender.c and src/receiver.c with src/read-write/create_socket.c,
--   src/read-write/wait_for_client.c and src/read-write/real_address.c. The record Process has the
--   descriptors in use and the calls that have given a socket an address, Os what the system answers.
--   Port has the port and strtol, Sending and Receiving the two main functions, each a chain of functions on what
--   the last call has found. Starts, Sends and Receives hold the proofs.
--
-- Conventions. Undefined behaviour of C (a read outside a block, a double free, the use of a NULL) is
-- the result none, so that a theorem that gives a result says that there is none of it. The C library
-- and zlib are parameters: whether malloc finds a block, and the CRC of some bytes (Libs), whether a
-- datagram is sent, how much of some bytes a write takes, the clock and what pread finds (World,
-- System). A word of w bits is a number with its wrap-around written out; counters are numbers without
-- a bound (global_pkt, which the code lowers too, is one modulo 2 ^ 64). A window's list is the list of
-- its packets, head first, with its length in place of the uint8_t size; LinkedList justifies it. The
-- host is little-endian.
-- Loops on fuel: those of decrease_window and update_window take a packet in every round, and have as many
-- rounds as there are packets; that of fill_window adds one in every round that goes on, and has as many
-- rounds as the window has places; that of deal_with_fec has at most four. The
-- other loops run along a list or a counter.
--
-- Not modelled: what the programs print, the statistics among it, with the logging (src/log.c, src/log.h);
-- getopt, whose result is a parameter; and the unit tests of src/linkedList.
pub mod Base
pub mod Packet
pub mod Window
pub mod Fec
pub mod Receiver
pub mod Sender
pub mod LinkedList
pub mod Network
pub mod Program
