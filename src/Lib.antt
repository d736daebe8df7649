-- ===== src/Lib.antt =====
-- A verification of the selective repeat protocol of this repository: packets, the receiver and the
-- sender that exchange them over UDP, and the simulator of a lossy link with its priority queue.
--
-- The parts and the files that model them:
--   Base     shared helpers: how C code ends (`Exec`: a value, undefined behaviour, or the fuel of
--            a loop running out), arrays as lists with checked accesses, fixed-width numbers and
--            the byte orders of a little-endian host, signed integers, and lemmas on them.
--   Packet   packet_interface.h and packet_implem.c: `struct pkt`, its accessors, and in Encode and
--            Decode `pkt_encode` and `pkt_decode`. Wire describes the format on the wire
--            independently of the code.
--   MinQueue linksim/min_queue.c: the heap in its growing array, statement by statement.
--   Receiver sel_repeat_read.c: `round` is one turn of the loop of `sel_repeat_read`, for one
--            datagram; its result lists what is written to the output and to the sender.
--   Sender   sel_repeat_write.c: `turn` is one turn of the loop of `sel_repeat_write`: the timers,
--            the next data of the file, and an answer of the receiver; its result lists the
--            datagrams sent and says whether the program exits. Run is about any number of turns.
--   Link     linksim/link_sim.c: dates, the queue of delayed packets, and the random treatment of a
--            packet; in Proxy the addresses of the two parties and a turn of `proxy_loop`, in Options
--            the options of the command line.
--   Protocol the parts together: damaged and repeated packets at the receiver, and its answers
--            at the sender. System runs the sender, the proxy and the receiver with the queues of
--            datagrams between them: `step` is one event, a turn of one of the programs or a loss,
--            and `run` any sequence of events; Consistent is the invariant, and File reads a file in
--            chunks of 512 bytes.
--   Startup  sender.c, receiver.c and chatUDP: the calls that give a socket, the three mains, and a turn
--            of `read_write_loop`.
-- The receiver and the sender call the encoder and the decoder; the link keeps its delayed packets
-- in the priority queue, with the comparison of Link.
--
-- A byte is a number below 256. A buffer is the list of its bytes, and an access outside it is a
-- fault. The CRC32 of zlib is a parameter, as are the contents of fresh memory, the random numbers
-- and the results of `sendto` and of the allocations that the code tests; `malloc` is taken to
-- succeed where the code does not test it. A second pointer to a packet that is released leads to
-- one whose payload can neither be read nor released again; a read of its other fields is not
-- seen as a fault. The loops of the heap run on fuel: a number greater than
-- the size of the queue, which `minq_push` and `minq_pop` give, is enough, since every turn of the
-- one loop halves the index and every turn of the other moves down the tree. The delivery of delayed
-- packets runs on fuel too: it takes one packet from the queue in a turn, so that a number greater
-- than the size of the queue is enough. All other loops have the bounds of the source. Signed
-- integers are modelled without bounds.
--
-- The receiver and the sender are each followed over any sequence of datagrams, as a relation on the
-- states that are reached (Receiver/Run and Sender/Run). What may come in is a hypothesis on each
-- datagram: bytes that are no packet at all, or a packet that the other side may send in that state.
-- The stream is a function from packet numbers to payloads. In Protocol/System nothing is assumed of
-- the datagrams: they are those that the programs have sent. There each way between two programs
-- loses any datagrams and keeps the order of the others, as a link without delay does, the events come
-- in any order, and a proxy that has ended counts as one that gets no datagram any more.
--
-- Not modelled: the set-up of the link's socket and its seeding, reads and selects that fail in the
-- sender and the receiver, datagrams that overtake each other in Protocol/System, and log output.
pub mod Base
pub mod Packet
pub mod MinQueue
pub mod Receiver
pub mod Link
pub mod Sender
pub mod Protocol
pub mod Startup
