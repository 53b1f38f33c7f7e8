-- ===== src/Lib.antt =====
-- sdrproxy: a proxy between one WinSDR server and many clients. A client thread (src/client.c)
-- receives channel information and packets of samples from the server into a byte ring, and stores
-- each packet in the data ring, which holds four hours of them. A server thread (src/server.c) takes
-- the packets from the data ring, for each of its clients after the last one sent to it, and sends
-- them over a byte ring of the connection. The main thread (src/main.c) allocates the data ring anew
-- when the channels change.
--
-- The files:
--   Prelude, and Prelude/Tests, Lists, Int: names of the libraries, tests on numbers, lists over the
--     native numbers, integers.
--   Memory: `memcpy` and the bytes at a place of an array.
--   Buffer: `ring_ops` of src/buffer.c on `struct ringset` (src/sdrproxy.h). Buffer/Valid has the
--     invariant, Buffer/Contents the bytes held, Buffer/Store what RING_STORE writes, Buffer/Queue
--     the specification, Buffer/Refine the refinement, Buffer/Search `search_ring`.
--   Util: the sizes, the CRC and `bytes_in_bytes` of src/util.c; Util/Search is about the latter,
--     Util/Crc about the CRC.
--   Databfr: `data_ring_ops` of src/databfr.c, on the globals of that file as a record. The
--     structures behind `data_store_g` are a store from pointers to structures, since the code moves
--     pointers and overwrites what they point at. Databfr/Spec has the list of packets that the ring
--     stands for, Databfr/Valid the invariant, Databfr/Rotate `datar_rotate_right`, Databfr/Search
--     `search_data_bfr`, Databfr/Placed, Room, Replace and Store RING_STORE, Databfr/Retrieve
--     RING_RETR, Databfr/Ops the mutex and the whole `switch`, Databfr/Alloc RING_ALLOC, Databfr/Run
--     sequences of calls.
--   History: `clhistory_lookup` of src/server.c; History/Records and History/Laws what it finds and
--     keeps.
--   Server: `service_connection` of src/server.c and what it calls, for one connection.
--     Server/Incoming is about the request, Server/Outgoing about what is put on the send ring,
--     Server/Sending about what is sent, Server/Heard about what a client
--     says, Server/States and Server/Moves about the states, Server/Idle
--     about a client that is silent; Server/Invariant and Server/Service about an
--     invariant of the rounds. Server/Stream is about what a client gets over many rounds, while the
--     data ring stays as it is: Server/Stream/Later has the packets that are to come, Round one
--     round, Rounds many of them, Whole sockets that take all; Arriving has packets that
--     come last, Feed rounds between which they are stored.
--   Channels: the channel information, which src/server.c prints and src/client.c and src/buffer.c
--     scan; Channels/RoundTrip is about both ends.
--   Client: `get_adc_data`, `add_to_data_ring` and `check_data` of src/client.c, and the time of a
--     packet, of src/time.c; Client/Taken and Client/Rounds are about the loop of
--     `check_data`, Client/Refused about the test of the token, Client/Stored about a
--     packet that is good, Client/Damaged about one of which a byte has changed, Client/Stream about
--     a stream of packets, with Client/Behind for what stands behind other bytes.
--   Client/Thread: `client_thread` of src/client.c, a round of its loop at a time: Client/Thread/Moves
--     is about its states, Client/Thread/Sound about its rings and about CHANCHANGE, with
--     Client/Thread/Invariant for what is to hold, Client/Thread/Heard for what the server says and
--     Client/Thread/Inhibited for `check_data`, Client/Thread/Changes about what the main thread is
--     told, Client/Thread/Request about what the server makes of the request,
--     Client/Thread/Connecting about the rounds in which it connects again.
--   Socket: `send_all`, `send_to_host`, `get_socket` and `sdr_connect` of src/socket.c;
--     Socket/Whole, Socket/ToHost and Socket/Connecting are about them.
--   Server/Loop: `server_thread` of src/server.c, a round of its loop over ten connections, with
--     `create_connection_data` and `get_new_connection`: Server/Loop/Stay and Server/Loop/Safe are
--     about the service of all connections, Server/Loop/Remembering about the history of a new
--     client, Server/Loop/Accepting about its connection, Server/Loop/Closing and
--     Server/Loop/Sockets about the sockets that are open, Server/Loop/Rounds about the whole round.
--   Server/Setup: `server_setup` of src/server.c, with the descriptors that are open;
--     Server/Setup/Opened is about opening and closing them, Server/Setup/Listening about the ports.
--   Server/Thread: `server_thread` of src/server.c from its start over its rounds to its end;
--     Server/Thread/Orderly has what is asked of the rounds and what they leave open,
--     Server/Thread/Life is about the whole.
--   Main: the loop of src/main.c and the flags that the three threads share, as steps of one system,
--     and what comes before the loop. Main/Order is about who uses the data ring when, Main/Change
--     about a change of the channels, Main/Number about the number of the client, Main/Start about the
--     way to the loop.
--   Time: the conversions of src/time.c between times and the header of a packet; Time/RoundTrip is
--     about writing and reading a header.
--   Log: `hexdumplog` of src/util.c with the memory of its text; Log/Reference has the lines that it
--     means, Log/Writing is about one `sprintf`, Log/Widths about widths, Log/Dump about the loop,
--     Log/Whole about the whole.
--   Forward: the way of a packet from the client's receive ring to a connection's send ring.
--   Outcomes: what holds of a call if it returns.
--   Descriptors: the descriptors that src/server.c has open, and `close`.
--   The modules named Tests hold the concrete rings and connections that the theorems are applied
--     to.
--
-- The functions keep their names; a `switch` is a function by clauses on the action. A call that may
-- end the program in `fail`, touch memory that is not allocated, or wait for ever for the mutex says
-- so in its result (`failed`, `fault`, `blocked`), so a theorem that names the result says that it
-- returns. `int`s that are counts or positions are natural numbers: all of them are far below 2 ^ 31.
-- A PACKETTIME is a number of milliseconds: the `double`s of the source hold the whole milliseconds
-- that packets carry, in the same order. What goes to the log is left out.
--
-- Loops: the search of `bytes_in_bytes` has (haysize + 1) * (nsize + 1) + 1 rounds, of which it uses
-- fewer, since a round either lengthens the match or moves its start; the binary search has
-- `datar_cnt` rounds, and its distance at least halves; the rotation has DATASIZE rounds, one for each
-- slot; the loop of `check_data` has a round for each byte of the ring, and one more, since a round
-- that goes on takes bytes off the ring; the digits of a number are fewer than its value plus one.
--
-- Parameters: what `malloc` gives, what `recv`, `send`, `bind` and `listen` do, which sockets
-- `select` found ready, the time of day, `timegm` and `gmtime_r`. `Serves` says that `malloc` gives
-- different structures and as many bytes as are asked for, `IsSocket` that a socket takes at most
-- what it is given and fails only with EAGAIN or EPIPE, `OpensSockets` that `socket` gives a
-- descriptor that is not open, `IsOrderly` that `select` works, `accept` gives a descriptor that is
-- not open, and the other threads leave the data ring valid and its mutex free.
--
-- The steps of Main: the main thread moves between the points of its loop at which another thread can
-- see a difference. Of the client's thread the steps are the reading of CHANCHANGE, and the end of
-- `check_data` with or without new channel information; of the server's thread its end. The data ring
-- is there only the channel information that its memory was allocated for; `reallocate` has the two
-- calls on the ring itself.
--
-- The time of a client that comes back is computed without the rounding of `double`s, which is far
-- below a millisecond.
--
-- The sizes are those of the 32-bit program that src/Makefile builds: an `unsigned long` has 4 bytes.
--
-- Not modelled: what only calls the system, as the look-up of addresses of the host, the creation of
-- threads and the log.
pub mod Prelude
pub mod Memory
pub mod Buffer
pub mod Util
pub mod Databfr
pub mod History
pub mod Descriptors
pub mod Server
pub mod Channels
pub mod Outcomes
pub mod Client
pub mod Socket
pub mod Time
pub mod Main
pub mod Forward
pub mod Log
