-- ===== src/Lib.antt =====
-- A model of the example programs of the repository c-examples that have logic of their own.
--
-- Base holds what all modules share: tests on numbers, lists with sizes, and `Run`, what a part of a
-- program does: it returns, ends the process by `exit`, does what C leaves undefined, or (only here)
-- runs out of the fuel of a loop. Each `perror` or `usage` with `exit` is `exits failure`; the texts
-- printed are left out, but for the words that the servers print: a `%s` prints up to the first NUL
-- (`c_string`). In Poll and Select each access to an array of clients is checked, and is `undefined`
-- out of bounds, but for the stores of `initialize_pollfds`, whose arrays have four and five elements.
--
-- Io: `read` and `read_full` (io-multiplexing/poll/main.c). The input of a descriptor is a list of
--   events, chunks of bytes, interruptions and failures, chosen by the peer and the scheduler.
--   A `read` that is never answered, for a peer that stays silent, is no event.
--   `read_full` has as much fuel as there are events, and one more: each round uses up an event or
--   fills the buffer.
-- Poll: the server io-multiplexing/poll/main.c, and what io-multiplexing/client.c sends it.
--   State: the variables of `main`, the descriptors closed, the words printed, the allocator.
--   Clients: `initialize_pollfds`, `handle_new_connection`, `handle_client_disconnection`.
--   Growth, Invariant: well-formed tables. Held: the clients as a multiset.
--   Receive, Frames: the service of one client; `send_word` of the client against it.
--   Service, Served: `handle_client_data`. A round passes over a slot or shortens the table, so as
--   many rounds as clients, and one more, are enough.
--   Main, Balance, NoLeak, Finishes: `main` from `initialize_pollfds` on, Program: all of it. The rounds
--   are given by a list: what `poll` reports, what `accept` returns, and the signal. The program loops
--   as long as the list lasts.
-- Select: the server io-multiplexing/select/main.c, whose service of one client is that of Poll.
--   Server: the table, the two loops of a round and the rounds. A round of a loop goes to the next slot
--   or drops a client, so as many as clients, and one more, are enough.
--   Invariant, Arrivals: well-formed tables. Held: the clients as a multiset. Watching: what is handed
--   to `select`. Loop: the rounds. Main, Cleanup, NoLeak: `main` from the test of the socket to its end,
--   Program: all of it.
-- Shm: shared-memory/mmap-munmap/client.c and server.c, two processes over one buffer and two
--   semaphores, as a step relation, from the first `sem_wait` to the last. The words of the file come
--   from `strtok_r`, which gives none that is empty.
-- Pipe: pipe/reliable/main.c, parent and child over a pipe and two semaphores.
--   Splitter: `child_process`, and the words of a file. Processes: the step relation, from the `fork`
--   on, with `send_word`, `write_fully`, `parent_process` and `read_fully`. Together, Preserved: how
--   far the two are in each state. Ending, Bounds, Termination: the printed words, the pipe, the runs.
--   Simple, Following, Order: the same over a pipe alone,
--   pipe/simple/main.c.
--   Synchronized: that with two semaphores, pipe/synchronized/main.c. Mirrors, Lead, Ahead, Waits: what
--   these add.
--   In both `child_process` splits the file in the same way.
-- Cond: pthread-condition/pthread_cond_wait-pthread_cond_signal/main.c, two threads over a mutex, a
--   condition variable and one pointer, for the words that `strtok_r` gives.
--   Threads: the step relation, with wakeups without a signal. Safe: who holds the mutex, and what is
--   waited for. Progress: no deadlock. Unlocked: the read behind `pthread_mutex_unlock`.
-- Serial: the servers of one client at a time. Effects: what they do, as a log, and which calls succeed.
--   Words: `handle_connection` of domain-socket/read-write/server.c, which send-recv/server.c repeats
--   with `recv`. Its fuel is the number of bytes and one more: a round takes a byte.
--   Loop: the loop over `accept`. Servers: the two of domain-socket, tcp/shutdown/server.c,
--   networking-functions/listen-accept/main.c and sockets/setsockopt/server.c, from that loop on.
--   Runs: what they do from there to their end. Domain, Named: the two of domain-socket from their
--   beginning on, with the name of the socket in the file system. Client:
--   domain-socket/read-write/client.c, and send-recv/client.c, which sends the same.
-- Net: the programs with an internet socket, from the command line to the end of `main`. What the system
--   answers to each call is a parameter (`System`, and `World` of Serial).
--   Address: `sockaddr_storage` and `convert_address`. Sockets: `socket_create`, `socket_bind`,
--   `start_listening`, `setup_signal_handler` and `socket_connect`, on the kernel's view of a socket,
--   with the lines printed. Names, Setup, Serving: what these leave, and the beginning of `main`.
--   TcpServer and TcpClient (tcp/shutdown), SetsockoptServer, SetsockoptClient and GetSockopt (sockets),
--   Bind, ListenAccept, Connect and SocketProgram (networking-functions), UdpServer and UdpClient
--   (udp/sendto-recvfrom): `main`, and the functions that the file repeats.
--   Served, Listened, Total, Willing: the servers. Reached, Sent: the clients. Datagram: the datagram
--   client against the server. Created: SocketProgram and GetSockopt.
-- Counter: pthread-mutex/pthread_mutex_lock-pthread_mutex_unlock/main.c, any number of threads.
--   Threads: `thread_function` as a step relation. Counted: who is inside the section, and what has been
--   counted. Ending: the end of the threads.
-- Cli: the command lines of fifteen programs; the others in Net have one of these.
--   Strto: `strtoumax` and `strtoimax` as ISO C describes them, where `intmax_t` has 64 bits.
--   Decimal: numerals, and how they are read back. Its fuel is the number and one more, and a number
--   has no more digits than that.
--   Numbers, Parsed: `parse_in_port_t` and the other functions that check a range.
--   Getopt: what `getopt` leaves: the options it returned, `optind` and `argv`.
--   TcpServer and TcpClient (tcp/shutdown), UdpClient (udp/sendto-recvfrom/client.c), ListenAccept, Bind
--   and Socket (networking-functions), Strncmp (strings/strncmp), Lseek (files/lseek), Setuid
--   (users/setuid), Difftime (time/difftime), Sleep and Nanosleep (sleep), Nice (process/nice), Chown
--   (file-system/chown), TimedWait (pthread-condition/pthread_cond_timedwait): `parse_arguments` is
--   the loop of `getopt` (`options`) and what follows it (`positional`); `arguments` is what `main`
--   does with it and `handle_arguments`.
-- Tests: the theorems at concrete inputs, and runs of the definitions.
--
-- Not modelled: the set-up of mappings, semaphores and pipes and the naming of clients, which are
-- calls of the system; and the other programs, most of which show one call of the system or of the
-- library each.
pub mod Base
pub mod Io
pub mod Poll
pub mod Shm
pub mod Cli
pub mod Select
pub mod Pipe
pub mod Cond
pub mod Serial
pub mod Net
pub mod Counter
mod Tests
