-- ===== src/Lib.antt =====
-- A model of PDIP (Programmed Dialogues with Interactive Programs): of the library pdip_lib.c, which
-- drives an interactive program over a pseudo-terminal, with the dump of pdip_util.c; of the tool
-- pdip.c, whose scripts hold such dialogues; of the server rsys/rsystemd.c, whose shells run the
-- commands of its clients and which uses that library; and of its client, rsystem() of
-- rsys/rsystem.c.
--
-- Recv: pdip_recv of pdip_lib.c. Recv/Machine holds the state (the outstanding data of the context,
--   the buffer of the user, the time left) and the recorded answers of read, select and the
--   allocator; a call whose answers are used up is waiting. Recv/Steps holds the internal functions
--   pdip_read, pdip_read_until_timeout, pdip_flush_internal, pdip_flush_outstanding,
--   pdip_append_to_outstanding and pdip_look_for_regex, on blocks of bytes with their bounds and the
--   assertions of the source. Recv itself holds pdip_recv. The other modules below it are the
--   invariant, the proofs on each function, and the calls. A buffer is its block, its size and the
--   amount of data. regcomp and regexec are parameters; what is relied on is that a match ends inside
--   the string. The loops of pdip_recv are on fuel: one round for each answer of select, and one for
--   each answer of read and each byte it holds, which is enough since each round takes an answer of
--   select, or of read at least a byte. The sizes are natural numbers: a buffer grows by the
--   increment, far below the bound of size_t. The increment is the PDIP_RESIZE_INCREMENT of the
--   context, which has to be above 1.
-- Send: pdip_write and pdip_send of pdip_lib.c, by recursion on the answers of write; the answers of
--   vsnprintf are an argument.
-- Child: the controlled process, pdip_wait_child, pdip_check_child, pdip_status, pdip_kill_child,
--   pdip_terminate_child, pdip_sig and pdip_fd of pdip_lib.c, by recursion on the answers of waitpid.
--   An int that is -1 or not negative is an option. The object is given: the callers' test for a null
--   one is left out.
-- Objects: the objects of pdip_lib.c and their doubly linked list, as pointers in a store. Objects
--   itself holds the fields, the configuration of the user, pdip_new and pdip_unlink_ctx,
--   Objects/Calls pdip_delete, pdip_signal_handler, pdip_configure, pdip_lib_initialize,
--   pdip_child_fork and pdip_lib_exit. The process of an object is that of Child. Links tells what the
--   pointers stand for, a list of addresses; Creation is about pdip_new, and
--   Walks, Unlinking, Removal, Reaction, Leaving and Exit are about the other calls. A walk over the list is on fuel, the number of objects being enough. Each call is one
--   step, as the mutex and the masks of signals make it; the deallocation of memory is not recorded.
-- Cpu: the bitmaps of CPUs, pdip_cpu_alloc to pdip_cpu_dup of pdip_lib.c. The parameter is
--   pdip_nb_cpu, 32 bits wide, and the bytes keep their 8 bits.
-- Rsysd/Affinity: rsysd_get_affinity of rsys/rsystemd.c, the parser of the CPUs of a shell, with its
--   labels as data and its gotos as a run on fuel: the length of the text and one more, since each
--   goto reads a character. Numbers wrap around at 32 bits as in the source, and the loop over an
--   interval whose end is the biggest of them, as it is with no CPU, is told apart as endless.
-- Rsysd/Fsm: rsysd_shell_fsm of rsys/rsystemd.c, the state machine of a shell, with the functions
--   that read the display and the status, type a command, unlink and delete a client. The store is
--   a shell and a client with the pointers between them; what pdip_recv, pdip_send and the messages
--   of rsys/rsys_msg.c answer is given for each event, and atoi is a parameter. A message that write
--   does not take as a whole is recorded as lost. A client with no block for its command has a null
--   one, and what vsnprintf writes for it is any bytes. Rsysd/Fsm/Linked,
--   Answering and Transitions are the links and the account of a transition, Traces what a shell can
--   reach, Ending the end of a command, Deletion the state of its client.
-- Rsysd/Server: the shells and the clients of rsys/rsystemd.c together: rsysd_new_client,
--   rsysd_free_client, rsysd_get_shell, rsysd_read_client, and in Loop a round of the select loop of
--   main. A shell is known by its index and a client by its address; the list of the clients is their
--   addresses in order. What is ready is given for each shell and client instead of its descriptor,
--   and the links prev and next of the clients are those of the list. The other modules are the
--   pointers between the two (Wiring), the steps for a client (Serving, Dispatching, Answering,
--   Members, Clients) and for a shell (Idle, Shells), and the round (Rounds).
-- Rsysd/Fds: rsysd_add_set and rsysd_remove_set of rsys/rsystemd.c; a set of descriptors is the test
--   of FD_ISSET.
-- Dump: ptr2char and pdip_dump of pdip_util.c, over the digits of an address; the result is the lines
--   printed. Dump/Rows is about the columns of a line, Blocks about a line, Lines about all of them.
-- Rsystem: rsystem() of rsys/rsystem.c, with the answers of the server and of the two writes recorded;
--   vsnprintf and vasprintf are arguments. Rsystem/Trimming is about the request, Displays about the
--   answers.
-- Tool/Params: pdip_format_params of pdip.c, with its labels as data.
-- Tool/Cmdline: pdip_split_cmdline of pdip.c and its table pdip_argv. The words, which are slices of
--   the line, are copied to where the code ends them with a NUL, or to the end of the line.
-- Prelude and Outcome: shared lists, memory blocks, Boolean tests, errno and results.
--
-- Not modelled: the start of the child and the terminal settings of pdip_lib.c, the interactive loop,
-- the synchronizations and the options of pdip.c, the sockets, the options and the start of the
-- shells of rsys/rsystemd.c, the connection of rsys/rsystem.c, and isys/isys.c. A SIGCHLD handler
-- that runs in the middle of a call is not modelled either. The debug messages are left out.
pub mod Prelude
pub mod Outcome
pub mod Cpu
pub mod Recv
pub mod Child
pub mod Send
pub mod Tool
pub mod Rsysd
pub mod Dump
pub mod Objects
pub mod Rsystem
