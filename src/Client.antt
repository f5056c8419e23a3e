-- ===== src/Client.antt =====
-- The loop of src/main.c: each line of the user, the end of the input, and what the listener thread
-- receives between two lines.
pub mod Transitions
pub mod Sound
pub mod Guards
pub mod Entry
pub mod InOpen
pub mod Room
pub mod Login
pub mod Chat
pub mod TcpChat
pub mod TcpTalk
pub mod TcpTurns
pub mod TcpConversation
pub mod TcpWhole
pub mod Session
pub mod Quit
pub mod Talk
pub mod Turns
pub mod Conversation
pub mod Whole
use ipk_projekt.World.{
  print, getline_failed, Config, Prog, ◌>>=◌, ◌>>◌, skip, exit, get, lift, Arrival, Line, in_block,
  no_block,
}
use ipk_projekt.Handlers.{display_name_text}
use ipk_projekt.Base.{
  List, Option, ok, Result, ◌∷◌, fault, if◌then◌else◌, [], take, some, codes, ◌-◌, none,
  exit_success, exit_failure, ℕ, same_text, length, ◌+◌, leb, ◌==◌,
}
use ipk_projekt.States.{state_logic, Command, auth, join, rename, help, msg}
use ipk_projekt.Commands.{strtok}
use ipk_projekt.Listener.{listen, sleep}
use ipk_projekt.Memory.{Bytes}
use ipk_projekt.Tcp.{send_tcp_bye_msg}
use ipk_projekt.Messages.{create_bye_msg}
use ipk_projekt.Serialize.{serialize_bye_msg}
use ipk_projekt.Validation.{max_message_content_len}
use ipk_projekt.Udp.{send_network_msg_udp}
use ipk_projekt.TcpListener.{receive_tcp}

-- The search through `commands`; any other first word is a message.
unfoldable pub select_command : Bytes → Command
select_command token =
    if same_text token (codes "/auth")
    then auth
    else if same_text token (codes "/join")
    then join
    else if same_text token (codes "/rename")
    then rename
    else if same_text token (codes "/help")
    then help
    else msg

-- All of `c ∷ s` but the last character.
unfoldable pub front : ℕ → Bytes → Bytes
front c [] = []
front c (d ∷ s) = c ∷ front d s

-- `line[strlen(line)-1] = 0`. On an empty text this writes before the line.
unfoldable pub chop : Bytes → Result Bytes
chop [] = fault
chop (c ∷ s) = ok (front c s)

unfoldable pub set_unprocessed_line : Bytes → Prog (Unit {0})
set_unprocessed_line line w =
    (ok tt, record w { unprocessed_line = take (max_message_content_len - 1) line })

-- The comparisons read through the token, which `strtok` leaves NULL for a line of spaces.
unfoldable pub run_token : Config → Option Bytes → Prog (Unit {0})
run_token cfg none w = (fault, w)
run_token cfg (some token) w = state_logic w.state (select_command token) cfg w

unfoldable pub run_line : Config → Bytes → Prog (Unit {0})
run_line cfg [] = skip
run_line cfg (c ∷ s) = do set_unprocessed_line (c ∷ s); token ← strtok (c ∷ s); run_token cfg token

-- One round of the loop, on the line that `getline` returned, newline included.
unfoldable pub main_round : Config → Bytes → Prog (Unit {0})
main_round cfg line = do chopped ← lift (chop line); run_line cfg chopped

-- What `getline` does with a line, its newline included, and a NUL: at NULL it takes a block, what fits into
-- `len` it stores where `line` points, and otherwise it calls `realloc`, which wants the start of a
-- block. `len` is not initialised in each round; it is taken to keep what `getline` stored there.
unfoldable pub stored : (ℕ → ℕ) → ℕ → Line → Option Line
stored getline_size n no_block = some (in_block 0 (getline_size (n + 1)) (n - 1))
stored getline_size n (in_block offset size end) =
    if leb (n + 1) size
    then (if leb (offset + (n + 1)) size
        then some (in_block offset size (offset + n - 1))
        else none)
    else (if offset == 0 then some (in_block 0 (getline_size (n + 1)) (n - 1)) else none)

-- A write past the block and a `realloc` inside of it are faults.
abbrev pub read_into : Option Line → Prog (Unit {0})
read_into none w = (fault, w)
read_into (some line) w = (ok tt, record w { line = line })

unfoldable pub get_line : Config → Bytes → Prog (Unit {0})
unfolding stored
get_line cfg text w = read_into (stored cfg.getline_size (length text) w.line) w

-- The BYE over UDP.
abbrev pub send_bye : Config → Prog (Unit {0})
send_bye cfg = do
  name ← display_name_text
  w ← get
  out ← lift (serialize_bye_msg cfg.malloc (create_bye_msg w.confirmed.index name))
  send_network_msg_udp (sleep cfg) cfg out

-- At the end of the input, and on SIGINT.
unfoldable pub graceful_quit : Config → Prog (Unit {0})
graceful_quit cfg =
    (if cfg.use_tcp_protocol
      then (λ w.
          if w.tcp_connected then (display_name_text >>= send_tcp_bye_msg cfg) w else (ok tt, w))
      else send_bye cfg)
    >> exit exit_success

pub data Event : Type 0 where
  input : Bytes → Event
  end_of_input input_error interrupt : Event
  datagrams : List Arrival → Event
  tcp_bytes : Bytes → Event

unfoldable pub step : Config → Event → Prog (Unit {0})
step cfg (input line) = do get_line cfg line; main_round cfg line
step cfg end_of_input = graceful_quit cfg
step cfg input_error = do print getline_failed; exit exit_failure
step cfg interrupt = graceful_quit cfg
step cfg (datagrams batch) = listen cfg batch
step cfg (tcp_bytes chunk) = receive_tcp cfg chunk

unfoldable pub run : Config → List Event → Prog (Unit {0})
run cfg [] = skip
run cfg (e ∷ events) = do step cfg e; run cfg events
