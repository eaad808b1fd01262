-- ===== src/Lib.antt =====
-- sys_programming_exploration: a line reader, a fixed-string grep, tail, cat and three TCP
-- servers, written to explore Linux system calls.
--
-- The parts and how they interact:
--   commons/src/readbuffer/src/readbuffer.c: a growing byte buffer, from which a client reads
--     at the front and to which it writes at the back. ReadBuffer has `struct ReadBuffer` as a
--     record and one function per entry point (`readbuffer__assure` is `ReadBuffer.assure`);
--     ReadBuffer/Nullable adds the answers to a NULL buffer. The blocks come from a heap
--     (Libc): an allocator that grants or denies each request is a parameter, and the names of
--     the live blocks are kept. `size_t` sums wrap at 2 ^ 64.
--   commons/src/linestream/src/linestream.c: lines of a descriptor, through a ReadBuffer.
--     LineStream has `linestream__create`, `next` and `destroy`. read(2) is a parameter: what a
--     read answers and which bytes a descriptor still has to deliver, tied by the law that a
--     read of some size hands out the next bytes, end of file only where there are none.
--   tcp/polling/message_q.c: a ring of messages that several clients read, each from an offset
--     of its own. MessageQueue has one function per entry point, and MessageQueue/Nullable
--     their tests for NULL. The sds strings, the allocator and write(2) are parameters
--     (`Memory`, `Writer`); the vendored sds library itself is not modelled.
--   tcp/polling/fds_state.c: the descriptors that the server polls (Fds), and the blocks they
--     are kept in (Fds/Storage).
--   tcp/polling/poll_server_impl.c: the chat server. PollServer has its two handlers, one round
--     of its loop, and any number of rounds, over the state that they share: the descriptors,
--     the queue, the memory and the network. The system calls are the fields of `Network`.
--     PollServer/Ready says what a start leaves that was granted its blocks (else
--     fds_state__init ends the process). PollServer/Sound and Endless follow the queue through
--     the handlers and the rounds, PollServer/Table the descriptors and the clients, with
--     Table/Progress whether the loop goes on, and PollServer/Delivery what the clients have been
--     handed. There the network is a parameter with laws (`IsNetwork`, `IsHearing`): a log of
--     what was written on each descriptor, which descriptors are open, and what was read;
--     accept(2) is taken not to fail. PollServer/Invariants says when rounds keep a property of
--     the state. PollServer/Main is main of tcp/polling/main.c, which puts together the port,
--     the socket and the rounds.
--   fixed_grep/fgrep.c: the searches of a file for a fixed string, mapped into memory
--     (`read_and_search_mmap`) and in chunks (`read_and_search`), in Fgrep; by lines, over a
--     LineStream, with main, in Fgrep/LineSearch. There a search also reads behind its line;
--     what stands behind the block of the buffer is the parameter `beyond`. Fgrep/Scan says
--     what a search is to write. Libc/Memmem has memmem(3). Standard output is the list of the
--     bytes, or of the reports.
--   tail/tail.c: writing out what a followed file has gained, the loop over the events of
--     inotify, and main (Tail). An event comes with what others did to the file before it.
--   cat/cat.c: the loop that copies a file, and main (Cat). It does not look at what write
--     answers.
--   The sockets of the servers: Posix has the system calls. What the system answers may depend
--     on all earlier calls, and every call is recorded with its answer; a program is a function
--     on this history that may end the process. ListenSocket has the three ways to a listening
--     socket (tcp/polling/utils.c, tcp/pthreads/tcp_pthread.c, tcp/single_connection/
--     single_connection_server.c), Port the three readings of a port argument, with strtol, and
--     the port that is printed for getaddrinfo.
--   tcp/pthreads/tcp_pthread.c: an echo server with a thread or a process for each client
--     (EchoServer). tcp/single_connection/single_connection_server.c: an echo server for one
--     connection at a time (SingleServer).
--
-- Loops and fuel. The loop of `next_power_of_two` has 65 rounds at most, since a size_t doubles
-- 64 times. `linestream__next` takes fuel, and any fuel above the number of bytes left to read
-- gives the answer. A flush has a round for each slot of the ring, and so has the freeing of a
-- queue. The walk over the clients in a round of the server has as many steps as there are
-- descriptors, since a handler of a client only takes descriptors out. `serve` takes the number
-- of rounds. A round of read_and_search drops a byte of its chunk or moves bytes of the file to
-- it, and a byte is at most once moved and once dropped. A round of the loops of tail writes a
-- byte or reads one. A round of the search of one line moves on by the pattern, and one of the
-- loop over the lines takes a line of the file. The loops of the echo servers take the number
-- of their rounds, since a peer may send for ever; what is stated of them holds behind any
-- number of rounds.
--
-- Not modelled: signals, above all SIGPIPE, which the sources do not handle (a write or a send
-- to a peer that is gone answers -1 in the model, as it does where SIGPIPE is ignored), the log
-- lines on standard error, the texts of usage and of system errors, timeouts (a poll that times
-- out is a round without events), the vendored string library commons/src/sds/ sds.c, whose
-- calls are parameters, the printing of the addresses of peers, the attributes of threads, the
-- interleaving of threads (a thread is run on the system as it answers that thread), the C
-- tests and the build files.
pub mod Base
pub mod Libc
pub mod ReadBuffer
pub mod LineStream
pub mod MessageQueue
pub mod Fds
pub mod PollServer
pub mod Fgrep
pub mod Tail
pub mod Cat
pub mod Posix
pub mod ListenSocket
pub mod Port
pub mod EchoServer
pub mod SingleServer
