-- ===== src/Lib.antt =====
-- dragon-ntpd: the core of the NTP daemon.
--
-- The daemon receives packets (socket.c, threads.c), parses them (ntp_packet.c), hands extension fields
-- to the I-DO and Autokey negotiation (ido.c, autokey.c), which share one state, and asks the mode
-- handler (mode_handler.c) whether a client is served. The files:
--   Base          numbers, lists, integers, results, and `Lock`, code of one thread under a mutex
--   Bytes         ntpd.c: read_u32be, write_u32be
--   Ido           ido.c, ido.h: the negotiation state `IdoState` and its operations
--   Autokey       autokey.c: the operations on the same state, keys and MAC (Keys, Fields, Mac)
--   Negotiation   every call of the two on the shared state, as steps, and what they can reach
--   Packet        ntp_packet.c and the packet of ntpd.h: Extension (the fields behind the header), Parse,
--                 Request
--   Mode          mode_handler.c: configuration and checks, Network (addresses), Acl (access list),
--                 RateLimit, Auth (the search for a MAC), Locks, ConfigFile (modes.conf)
--   Correction    time_sync.c: apply_time_correction_slew_or_step
--   CommandLine   config.c: the command line; Family and Exclusive: the options -4 and -6
--   ReferenceClock
--                 reference_clock.c: the state of the reference clock and its operations
--   Leap          leap_second.c and handle_leap_indicator; Files: leap_second_check_file and file names
--   Filter        filter.c: the sample buffer, marx_median and, in Outliers, marx_filter_outliers
--   Algorithms    ntp_algorithms.c: timestamps and the on-wire calculation; Selection: the choice of peers,
--                 where a difference of offsets that leaves 64 bits is undefined
--   Network4      network4.c: addresses and datagrams; Options: those of a socket, and receiving
--   Network6      network6.c: addresses, datagrams and multicast groups
--   Daemon        the globals that server and synchronisation share, and code under several mutexes;
--                 Unsynced: rules for code that leaves the clock unsynchronised
--   Server        socket.c: handle_peer_request_thread, send_broadcast_response; Response (the bytes),
--                 Admission, Answer, RoundTrip, Lifetime (handle_client_request)
--   Sync          time_sync.c: sync_ntp_time; Examine (the checks of a reply), Commit (what follows),
--                 Poll, Acceptance, Deadlock
--   Precision     time_sync.c: get_system_precision
--   Frequency     time_sync.c: the frequency discipline; Adjtime: its call of adjtime; Discipline: its states
--   Threads       threads.c: the objects of the thread library; Clock: the clock thread (Offset: the time
--                 it waits for); Peer: a request; Peer.Loop: the thread that receives them; Peer.Lifetime: its
--                 start, end and clean-up
--   Listeners     socket.c, network4.c, network6.c: the creation of sockets (Created, and Families with the
--                 command line); Endpoints, Open, Reach: those that the daemon keeps; Ntpq: the listener of ntpq
--   Main          main.c: dntpd.conf (Laws, Lines); Rounds: the loop of synchronisation; Shutdown:
--                 cleanup_resources
--   Examples      concrete runs
-- A function keeps its name. Where a component has several files, the definitions stand in the file of
-- the component's or the operation's name and the proofs in the files below it.
--
-- State. A global struct is a record that is passed and returned; a pointer to it is the state itself.
-- An array with its count is the list of its live entries. A buffer is the list of its bytes, beside
-- the size that the code passes with it. A null pointer is `none`. The result `none` of a function on
-- buffers is a read outside the buffer, which C leaves undefined, or a loop that does not end. What is
-- under a mutex runs in the monad of Base.Lock, where locking a mutex twice blocks: the program's
-- mutexes are not recursive. Numbers are natural numbers, with the wrap-around of the code's fields
-- written out; signed values are integers.
--
-- Loops with a bound on arrays are structural recursion. The two `while` loops over extension fields run
-- on fuel `size`: a round of the search for a MAC moves on by four bytes at least, so it has at most
-- size / 4 rounds; the other never comes further than its first. The loops of get_system_precision run on
-- 31 rounds, enough for a milliard, and on the number itself, which is halved.
--
-- Parameters: inet_addr, sscanf and htonl (`Libc`), sscanf, strtoll and strtod (`Scanner`), inet_pton,
-- the byte order, socket, setsockopt and sendto (`Net`), strtoul (`Server.Env`), strtol, getaddrinfo
-- and recvfrom (`Sync.Env`), strtol on the command line, libgcrypt (`Gcrypt`), the thread library
-- (`Threads.System`), socket, bind and listen behind the calls made so far (`Kernel`), the IPv6 calls
-- (`Net6`) and the rest of IPv4 (`Net4`), memory (`Main`), the clock (`Os`, `World`, `Clock`), the
-- contents of key and leap files, the byte order of the host, floating-point numbers (`Floats`), and
-- floating-point results (`Discipline`).
--
-- Not modelled: the log and the texts that are printed (config.c, the replies to ntpq); the order of
-- the start, signals, privileges and the pid file of main.c; the floating-point arithmetic of the
-- dispersion and of filter.c; update_clock_accuracy, which writes g_clock_accuracy alone, and the
-- frequency file itself.
-- Operations are those of one thread. Server.Lifetime has two threads, in every order of their actions,
-- and in Threads the others act between two rounds of a loop.
pub mod Base
pub mod Bytes
pub mod Ido
pub mod Autokey
pub mod Negotiation
pub mod Packet
pub mod Mode
pub mod Correction
pub mod ReferenceClock
pub mod CommandLine
pub mod Leap
pub mod Filter
pub mod Algorithms
pub mod Network4
pub mod Network6
pub mod Daemon
pub mod Server
pub mod Sync
pub mod Threads
pub mod Precision
pub mod Frequency
pub mod Listeners
pub mod Main
pub mod Examples
