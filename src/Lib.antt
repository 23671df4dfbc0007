-- ===== src/Lib.antt =====
-- Verification of the exercises of a UNIX system programming course.
--
-- The programs are independent of one another:
--   buffer/     a buffer cache in the manner of the early UNIX kernels, driven by commands
--   mydhcp/     a DHCP-like address server and its client, over datagrams
--   myftp/      a file transfer server and client, over a byte stream
--   mysh/       a shell; mycp/ a copy command
--   dijkstra/, getargs/, tcpcli/, udpcli/ small exercises
--
-- Base holds what the files share: tests and lists over the native numbers, and the monad `Cmd` of
-- commands over a state, in which C code that goes through pointers is written. Its `fault` is an
-- access through a null pointer, its `out_of_fuel` a loop that was given too few rounds.
--
-- Ring models circular doubly linked lists with a sentinel. A pointer is a number, 0 is NULL, and a
-- node's two pointers are cells of a memory. Ring.Frame, Ring.Insert and Ring.Remove say what a
-- write to a cell does to the lists.
--
-- Buffer models buffer/buffer.c and buffer/blockfunc.c. Buffer.Store holds the fields of
-- `buf_header` and the six flags of the status byte (Buffer.Status), Buffer.Lists the functions on
-- hash queues and free list, Buffer.Block the operations `_getblk`, `_brelse`, `_set_stat` and
-- `_reset_stat`. Function and field names are those of the C code without a leading underscore. The
-- arrays `freelist`, `hash_head` and `buffer` lie at the addresses 1, 2 to 5 and 6 to 17. A block
-- number is a natural number: the commands refuse negative ones before they call these functions.
-- `search_hash` is given one round more than there are buffers, and `_getblk` too, since each
-- `continue` takes a buffer off the free list. Buffer.Show is what `show_buffer`, `show_hash` and
-- `show_free` print, and Buffer.Listing is about it; the messages of the other functions are left
-- out. Buffer.Command is buffer/command.c and the loop of main.c: a line is split by `getargs`, and
-- a command runs on the words; `strtol` is a parameter of the model. Buffer.Lines says that
-- `parse_command` runs the words of the line, CommandSafety and Prompt what that does to the cache.
--
-- Dhcp models mydhcp/. Dhcp.Message is common.h and `get_msg`: a datagram is a list of bytes, and
-- `get_msg` gives no message, one of a wrong length, one whose type or code has no entry in the
-- tables of names that it prints from (`bad_index`), or a message. Dhcp.Counter holds the counters
-- of seconds. Dhcp.Server.Store is the memory of mydhcpserver.c: client records and pool entries
-- are nodes of two rings, each with its sentinel at 1; an access to a record that is not allocated
-- is a fault. Dhcp.Server.Lists, Machine and Loop are the functions on the lists, the table `pstab`
-- with its actions, and the event loop of `main`; Lease says who holds which address, and Relink,
-- Change, Actions and Admission what the functions do to that. What `malloc` returns and which
-- calls of `sendto` succeed are given to the model. The loops take fuel, one round more than the
-- list is long; the two that look for expired counters start again after each timeout and take the
-- rounds that Quiet counts. Weight, Timeouts, Expire, Quiet and Tick are about the passing of time,
-- Handle and Sender about a message, and Rounds puts them together. Dhcp.Server.Config is the start
-- of `main`, with `read_config`, `getargs` and `normalize_path`; the lines that `fgets` gives,
-- `atoi`, `inet_aton`, `realpath` and `getenv` are parameters, and `&addr_pool[n]` has the address
-- n + 2. A round is told how many SIGALRM arrived since the round before read `alarm_flag`: nothing
-- else reads it. BadRelease follows a RELEASE with a wrong field through a round. ConfigArgs,
-- ConfigPool and Start follow a config file into the pool, Finish is about the last loop of `main`,
-- and Main is the whole of it. Dhcp.Client.Machine and Loop are mydhcpclient.c, with the globals as
-- one record, and Diagram its states. Grant, Welcome and Dhcp.Client.Answers are the steps in which
-- a client gets its address, on either side, and Dhcp.Handshake puts the two programs together: the
-- bytes that one gives to `sendto` are what the other's `get_msg` reads. Addresses and ports are
-- numbers that the programs only copy and compare. The set-up of sockets, signals and timers, and
-- the output, are left out.
--
-- Args models `getargs` of getargs/getargs.c, on a memory of characters; Args.Words says what the
-- words of a line are. The loops take one round more than the line has characters.
--
-- Dijkstra.Run is dijkstra/dijkstra.c with its table of costs, and Dijkstra.Paths says what a path
-- is. A node number that may be -1 is an option, and an access to D[-1] ends the run with `none`.
--
-- Ftp models myftp/. Ftp.System is one side of a connection, its `Peer`: the bytes that the other
-- side sent, those that it sent itself, the globals, and the state of its system, whose calls are a
-- parameter; in which pieces bytes arrive is given to the model. Ftp.Message is `send_msg` and the
-- two functions `recv_msg`, Common the rest of common.c, Server myftpd.c, and Client myftpc.c.
-- `send` sends all bytes or fails, file sizes fit an int, and `int pos` of `send_file` faults where
-- it would overflow. Stream, Blocks, Sending and Receiving follow a file through the stream; Get,
-- Put, Stale and LongPath are about commands of both sides. Ftp.Command is the client's
-- `exec_command` with its table and its `getargs`, CommandArgs and CommandLine are about it. The
-- loops over a file take one round more than it has bytes. Sockets, forking, signals, and what is
-- printed are left out.
--
-- Mysh.Token and Mysh.Line model `gettoken` and `parseline` of mysh/parseline.c: the input is the
-- list of the characters to come, a line its blocks. Mysh.Grammar says which lines are accepted.
-- Mysh.Search is `search_path` of mysh/execline.c, with the byte behind the copy of PATH, which the
-- code does not write, as a parameter, and Mysh.FirstDir is about it. Mysh.Exec is `exec_recursive`
-- with the state of the process that runs it: its two descriptors, the pipes, and the children in
-- the order in which they are started; Redirect, Pipeline and Reaped follow a line through it.
-- Mysh.Shell is the rest of execline.c and the loop of main.c, and Session a session of lines.
-- `exec_recursive` is given one round more than the line has blocks. The reading of whole lines,
-- `read_command`, is left out, and so are signals and the terminal's group.
--
-- Mycp.Copy is `main` of mycp/mycp.c, and Mycp.Whole is about what it leaves in the destination;
-- the loop takes one round more than the file has bytes, and a sum in `int pos` that overflows is a
-- fault.
--
-- tcpcli/ and udpcli/ only call the socket library and are not modelled.
pub mod Base
pub mod Ring
pub mod Buffer
pub mod Dhcp
pub mod Args
pub mod Dijkstra
pub mod Ftp
pub mod Mycp
pub mod Mysh
