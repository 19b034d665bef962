-- ===== src/Lib.antt =====
-- Programs of the collection in unpv13e/, a library of network functions and the clients and
-- servers that are built on it, and the kernel module of kernel_lab/, as functions over explicit
-- states.
--
-- The parts and the files that model them:
-- - Base: names of the libraries, integers over the native ℕ, lists, texts and decimal
--   numbers. Unix: the results of system
--   calls, and what read() and write() promise on a stream of bytes (IsReader, IsWriter).
-- - Io: lib/readn.c, lib/writen.c and lib/readline.c, on a descriptor that is a state of any type
--   with a parameter read or write. Io/Readline has the static variables read_cnt, read_ptr and
--   read_buf as the record ReadBuffer, my_read with its loop for EINTR as fill and my_read, and
--   readline and readlinebuf. Io/Echo has lib/str_echo.c, on the model of writen, and Io/Select has
--   select/strcliselect02.c, by what select() and the reads give in each turn. What a caller of
--   my_read can still get is `pending` in Io/Readline/Pending; the line that readline gives back is
--   described in Io/Readline/Lines.
-- - Nonblock: nonblock/strclinonb.c. Nonblock/Buf has a buffer with the indices of toiptr and
--   tooptr (friptr and froptr); Nonblock/StrCli has the loop of str_cli, whose body is the four
--   parts that stand under the tests of FD_ISSET, each a function of its own. The record Client has
--   the variables of str_cli, and the bytes that went over each of the four descriptors so far. One
--   turn takes what select, read and write do in it as its input, a Turn.
-- - Gai: libgai/. Gai/Types has the structures; the flags of ai_flags are Booleans, a text is a
--   list of bytes, and an address a record. Gai/Entry has ga_aistruct, ga_clone and ga_port,
--   Gai/Serv has ga_serv, Gai/Lookup has ga_echeck, ga_nsearch and ga_unix, and Gai/Search has
--   getaddrinfo. All run in a monad G with the state of the allocator and of the file system and
--   three outcomes: a value, an error of the function, and err_quit. The list that aipnext grows is
--   a list. The code is read with IPv4, IPv6 and UNIXdomain defined and without
--   HAVE_SOCKADDR_SA_LEN, as config.h has it. Gai/Names has
--   getnameinfo and gn_ipv46, whose `none` is a return of 1.
-- - Server: server/serv05.c, server/child05.c and server/child.h. Server/Prefork has the array of
--   children and one turn of the parent's loop; `phase` says what the child at the other end of a
--   pipe is at. Server/Prefork/Turns has the accounts over a turn, and Server/Prefork/Accounts the
--   steps of the parent and of the children. Server/Select has one turn of the loop of
--   tcpcliserv/tcpservselect01.c, with the array client of any size; what the calls give in a turn
--   is its input. Server/Select/Clients has the loop over the clients, and Server/Select/Turns the
--   whole turn. Server/Poll has a turn of tcpcliserv/tcpservpoll01.c in the same way, with the
--   array of pollfd from its entry 1 on; Server/Poll/Marked has its loop over the clients.
-- - Rtt: lib/rtt.c and lib/unprtt.h, and rtt/dg_send_recv.c in Rtt/SendRecv. The signal SIGALRM and
--   the datagrams that arrive while a call waits are a list of events; the 32-bit counters wrap
--   around.
-- - Conn: lib/tcp_connect.c, tcp_listen.c, udp_connect.c, udp_client.c and udp_server.c in
--   Conn/Walk, one loop with a parameter for what is tried on a new socket, behind a call of
--   getaddrinfo of Gai; Conn/First has the theory of that loop and Conn/Programs the functions'
--   results. Conn/Nonb has lib/connect_nonb.c. In Conn/Walk the state of the process and the
--   network is a parameter, with the system calls on sockets (Sockets, IsSockets).
-- - Threads: programs whose threads share variables, as relations between states; a thread's place
--   in its code is a Phase, and a step is what it does between two accesses that others could see.
--   Threads/Counter has threads/example01.c and example02.c, Threads/Buffer has
--   threads/example03.c, and Threads/Pool has server/serv08.c and pthread08.c; Threads/Ring has the
--   circular arrays of the last two. A mutex is free or held; a thread in pthread_cond_wait goes on
--   when it is signalled, or for nothing. NLOOP, BUFFSIZE, MAXNCLI and the number of threads are
--   any numbers. Threads/Web has threads/web03.c, for any number of files and of connections; the
--   flags of a file are part of its thread's Phase.
-- - Nonblock/Web: nonblock/web.c with start_connect.c and write_get_cmd.c, one turn of the main
--   loop by what connect, select and read give in it. Its loop that starts connections runs on fuel
--   for one more than the files left to connect, which turn gives it; Web/Connects has that this is
--   enough.
-- - Trace: traceroute/recv_v4.c and recv_v6.c in Trace/Recv, by the bytes of recvbuf, and the loops
--   of traceroute/traceloop.c in Trace/Loop. What recvfrom and the signals bring is a list of
--   arrivals.
-- - Icmpd: the daemon of icmpd. Icmpd/Table has its table of clients with readable_listen.c,
--   readable_conn.c and the loop over the clients of icmpd.c; Icmpd/Messages has readable_v4.c and
--   readable_v6.c by the bytes of the receive buffer; Icmpd/Loop has a turn of icmpd.c's loop by
--   what the system calls give in it. Icmpd/Rounds relates its loop over the clients to that of
--   Server/Select, Icmpd/Delivery has who is told of an error, and Icmpd/Stale what a
--   reused entry keeps.
-- - Sock: lib/sock_get_port.c, sock_set_port.c, sock_set_addr.c, sock_set_wild.c, sock_cmp_port.c,
--   sock_cmp_addr.c and sock_bind_wild.c on the socket addresses of Gai; memcmp() and strcmp() are
--   parameters, and so is what bind() and getsockname() give. Sock/Ntop has lib/sock_ntop.c and
--   sock_ntop_host.c, as the text that their static buffer holds.
-- - SigIo: sigio/dgecho01.c, in the same way: the main loop, the handler of SIGIO and the network
--   take steps, where the handler runs only while the signal is pending and not blocked. QSIZE is
--   any number.
-- - Crlf: sock/crlf.c, where a buffer is the list of the bytes that were stored in it.
-- - SockLoop: sock/looptcp.c, by what select() and the calls give in each turn, with the
--   conversions of Crlf between the buffers. SockLoop/Texts has what they make of a text in pieces.
-- - SourceRoute: ipopts/sourceroute.c; the 44 bytes are a list, and optr an index into it.
-- - PartialDelivery: sctp/sctp_pdapircv.c, with Sctp_recvmsg() and realloc() as parameters; the
--   buffer is the list of the bytes it holds, and its size.
-- - Interfaces: lib/get_ifi_info.c, in the build with neither sa_len nor sockaddr_dl. The loop that
--   finds the size of the report is get_conf, and get_ifi_info goes over the bytes of the report,
--   on fuel for each of them; Interfaces/Packed relates it to a loop over a list of entries.
-- - Ping: tv_sub.c, send_v4.c, send_v6.c, proc_v4.c and proc_v6.c of ping, by the bytes of a
--   packet. How a struct timeval stands in memory and in_cksum() are parameters, and the clock's
--   microseconds are below 1000000.
-- - Udpcksum: libfree/in_cksum.c, udpcksum/udpwrite.c and udpread.c, by the bytes of a packet on a
--   little-endian host. The code is read with `linux` defined; what next_pcap() gives is an
--   argument.
-- - KernelLab: kernel_lab/kernel_lab.c, the module's state with its three calls; the mutex makes
--   each of them one step. The kernel's functions are a record, Kernel, and IsKernel has what their
--   documentation says. KernelLab/Reads has the reads, each at its moment.
--
-- Io uses Unix alone, and Nonblock uses its results of read() and write(); Conn and Sock use Gai,
-- and Icmpd uses Gai's families and the sets of Server/Select, Interfaces uses Gai's families;
-- SigIo uses the ring of Threads/Ring, SockLoop uses Crlf; the other parts each stand for
-- themselves, as the programs do. Base.Tests has the facts on Boolean tests.
--
-- The loops of readn, writen and my_read, and with it readline, repeat a call that a signal
-- interrupted. They run on fuel; the theorems ask for more fuel than the stream has interruptions
-- left (and bytes wanted, for readn and writen), and say that the loop then returns. str_echo runs
-- on fuel for the bytes and the interruptions of its stream, pdapi_recvmsg for the bytes of the
-- message and two turns, get_conf for the bytes of the report and two turns, and get_ifi_info for
-- the bytes of the report. All other loops follow a list or a number that the code counts.
--
-- Parameters: read and write of a descriptor, and the calls on sockets; the floating-point
-- arithmetic of rtt.c (Floats), of which only three comparisons of the limits are assumed, and only
-- where a result needs them; the resolver, the services, the allocator and the file system of
-- getaddrinfo (System); what select and poll find; memcmp() and strcmp(); inet_ntop(), ntohs() and
-- the lookups of getnameinfo (Resolver); Sctp_recvmsg() and realloc(); what ioctl() reports of the
-- interfaces; strim(), strscpy(), scnprintf() and simple_read_from_buffer() of the kernel;
-- in_cksum() and the clock of ping, for any checksum.
--
-- Not modelled: the wrappers that end the process when a call fails, diagnostic output, the fcntl
-- calls and the masks of select, the memory that getaddrinfo frees on an error, and the programs of
-- unpv13e/ that show one system call each; of kernel_lab, the log and the removal of the module.
-- The other directories of the repository have no file here.
pub mod Base
pub mod Unix
pub mod Io
pub mod Nonblock
pub mod Gai
pub mod Server
pub mod Rtt
pub mod Conn
pub mod Threads
pub mod Trace
pub mod Icmpd
pub mod Sock
pub mod Crlf
pub mod SourceRoute
pub mod PartialDelivery
pub mod Interfaces
pub mod KernelLab
pub mod Ping
pub mod SigIo
pub mod Udpcksum
pub mod SockLoop
