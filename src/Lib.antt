-- ===== src/Lib.antt =====
-- A model of the IPK25-CHAT client (src/*.c) and theorems about it.
--
-- The client reads lines and sends AUTH, JOIN, MSG and BYE to a chat server over UDP or TCP; a
-- second thread receives the server's datagrams, or over TCP the lines that it sends. Over UDP
-- every message but CONFIRM is confirmed: the sender repeats it until the listener has recorded the
-- CONFIRM. The parts and the files that model them:
--
--   src/messages.{c,h}     Messages       the structs, the type bytes, `create_*_msg`
--   src/serialize.c        Serialize      Serialize/Layout: the bytes of each message
--   src/deserialize.c      Deserialize    Deserialize/RoundTrip, Deserialize/Inverse,
--                                         Deserialize/Safety
--   src/validation.c       Validation     Validation/Charset
--   src/id.c               Ids            Ids/Cells: the arrays; Ids/Dedup: `is_message_duplicate`;
--                                         Ids/Confirm: `add_confirmed_msg_id`; Ids/Sizes
--   src/network_udp.c      Udp            `send_network_msg_udp`; Udp/Rounds
--                          Handlers       `process_received_udp_message` and the handlers of REPLY in
--                                         src/state_auth.c, src/state_open.c and src/state_join.c;
--                                         Handlers/Requests, Handlers/Replies, Handlers/Failures,
--                                         Handlers/Moves
--                          Listener       the loop of `udp_listener`; Listener/Receive, Listener/Delivery,
--                                         Listener/Late, Listener/Inbox,
--                                         Listener/Answer, Listener/Relay, Listener/Effects,
--                                         Listener/Transitions
--   src/network_tcp.c      Tcp            the sending side
--                          TcpListener    the four kinds of lines and the loop of `tcp_listener`;
--                                         TcpListener/Chunks and Stream: chunks and lines,
--                                         TcpListener/Messages and Replies: the lines,
--                                         TcpListener/Wire, TcpListener/Posts,
--                                         TcpListener/Transitions
--                          Scan, Lines    its `sscanf`, its `line_buffer`; Lines/Growth
--   src/args.c             Args           `parse_args`; Args/Numbers: `strtol`, Args/Options,
--                                         Args/Termination
--   src/main.c             Startup        `main` up to its loop, and src/defaults.h; Startup/Ready,
--                                         Startup/Connected
--   src/cmd_*.c            Commands       `cmd_auth`, `cmd_join`, `cmd_rename`, `cmd_msg`, `cmd_help`;
--                                         Commands/Rename, Commands/Words, Commands/Login,
--                                         Commands/Message, Commands/Join, Commands/Moves,
--                                         Commands/Transitions
--   src/state_*.c          States         `state_*_logic` and the switch of src/main.c
--   src/main.c             Client         the loop on the lines of the user, `graceful_quit`;
--                                         Client/Transitions, Client/Sound, Client/Guards,
--                                         Client/Room: where `getline` stores a line,
--                                         Client/Entry, Client/Login, Client/Chat, Client/Session,
--                                         Client/TcpChat, Client/Quit, Client/InOpen,
--                                         Client/TcpTalk: a conversation over TCP,
--                                         Client/TcpTurns, Client/TcpConversation,
--                                         Client/TcpWhole,
--                                         Client/Talk: the protocol of a conversation,
--                                         Client/Turns, Client/Conversation, Client/Whole
--                          Program        `main`: the start, and then the loop; Program/Session,
--                                         Program/TcpSession
--                          Cleanup        `cleanup`, with the end of src/network_tcp.c; Cleanup/Once
--   src/messages.c         Blocks         `free_*`, and who takes and frees blocks; Blocks/Release
--   src/global.h           World          the global variables
--
-- Strings has `strstr`, `strncmp` and the scanning of the standard library, with lemmas in
-- Strings/Search. Base has lists, tests, texts and results on the native numbers, Memory what the
-- code uses of the memory of C. Examples has runs and the theorems at concrete inputs.
--
-- A function of the program takes a `World` (the global variables, the buffer of the listener, what
-- was printed and sent) and returns one, with a result that is a value, an exit with a status, or a
-- fault: undefined behaviour such as a read past an array, a use of NULL or a second `free`. What
-- is printed is one constructor of `Output` for each format.
--
-- The two threads interleave where the main thread sleeps in `send_network_msg_udp` and between the
-- lines of the user: `arrivals` says what the listener receives in each sleep, and it handles each
-- datagram as one step. While the listener itself sleeps, nobody receives anything: its sleeps are
-- `idle`. Races inside a step are not modelled.
--
-- Parameters are what is not in the repository: `malloc` is any function that returns NULL or a
-- block of the size asked for; `getaddrinfo` and the success of each `sendto` are fields of
-- `Config`, and the start takes what the system answers to it, the datagrams of each sleep
-- included, from `System`. Bytes are numbers, a
-- `uint16_t` wraps at 65536, and a `size_t` does not wrap. `isalnum` is that of the C locale.
-- Struct sizes are those of a 64-bit machine.
--
-- The loop of the retransmissions recurs on the rounds that are left, `udp_retransmissions + 1` at
-- first, which is when the loop ends in the source; the decimal digits of a port have fuel 10, and
-- a 16-bit port has 5. The loop over the lines of a chunk has one round more than the chunk has
-- characters, and each line takes two of them; the loop over the arguments has a round for each.
--
-- Over TCP one call of `recv` is one step, with the bytes that it returned; the thread keeps what
-- is left of a line in `line_buffer`, which is part of `World`. `send` takes what it is given
-- whole.
--
-- Memory is modelled twice: a `Result` of Memory says what stands in a block and whether `malloc`
-- succeeds, and Blocks says which blocks are in use, on the paths on which the code returns. The list of
-- addresses that `getaddrinfo` takes counts as one block there. Cleanup has the calls of the system
-- in the order in which they are made. World/Keeps has the rules by which a property of the state and
-- of the arrays is carried through a program.
--
-- Not modelled: leaks on the paths that end in `exit`,
-- the waiting in `recvfrom` and `recv`, output for debugging, the registration of the handler of
-- SIGINT, signals inside a step, and threads that overlap inside a function. `line` is modelled by
-- its place in the block of `getline`, `len` as keeping its value from round to round.
pub mod Base
pub mod Memory
pub mod Messages
pub mod Serialize
pub mod Deserialize
pub mod Validation
pub mod Ids
pub mod World
pub mod Udp
pub mod Handlers
pub mod Listener
pub mod Tcp
pub mod Strings
pub mod Scan
pub mod Lines
pub mod TcpListener
pub mod Commands
pub mod States
pub mod Args
pub mod Startup
pub mod Client
pub mod Program
pub mod Blocks
pub mod Cleanup
pub mod Examples
