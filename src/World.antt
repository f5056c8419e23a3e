-- ===== src/World.antt =====
-- The global variables of src/global.h and src/main.c, the local ones that live as long as the
-- listener of src/network_udp.c, and what the program does to the outside: the lines that it prints
-- and the bytes that it sends. A program is a function on this state.
pub mod Laws
pub mod Keeps
use ipk_projekt.Memory.{Bytes, Malloc}
use ipk_projekt.Ids.{Confirmed, Seen}
use ipk_projekt.Base.{ok, Bool, Result, ℕ, List, exits, ◌++◌, Option, some, ◌∷◌, fault, none, []}
use Prim.Native.Nat.{ℕ}

-- `enum APP_STATE`
pub data AppState : Type 0 where
  state_start state_auth state_open state_join : AppState

-- What is printed, one constructor for each format string.
pub data Output : Type 0 where
  action_success : Bytes → Output
  action_failure : Bytes → Output
  chat : Bytes → Bytes → Output
  error_from : Bytes → Bytes → Output
  not_confirmed : ℕ → Output
  getline_failed : Output
  usage : Output
  -- "ERROR: ..." lines with a fixed text
  malformed_reply malformed_from_server unexpected_reply unexpected_msg : Output
  already_authenticated already_joining not_authenticated_join not_authenticated_msg : Output
  msg_while_joining unknown_input : Output
  invalid_username invalid_secret invalid_display_name invalid_channel_id : Output
  invalid_content truncated_content no_memory_truncate no_memory_message : Output
  -- what the listener of TCP prints
  malformed_tcp_reply invalid_reply_type malformed_bye : Output
  msg_without_from msg_without_is err_without_from err_without_is : Output
  unknown_type : Bytes → Output
  -- the hints on stderr about missing arguments
  auth_needs_arguments join_needs_argument rename_needs_argument : Output

-- A datagram that was sent: the address it went to and its bytes.
pub record Datagram : Type 0 where
  pub to : ℕ
  pub payload : Bytes

-- A datagram that arrives: the port of its sender and its bytes.
pub record Arrival : Type 0 where
  pub sender_port : ℕ
  pub payload : Bytes

-- What does not change once the arguments are parsed, and the operating system's answers:
-- `getaddrinfo` for a host and a port, and for each `sendto` whether it succeeds.
pub record Config : Type 0 where
  -- the size of the block that `getline` takes for so many bytes
  pub getline_size : ℕ → ℕ
  pub use_tcp_protocol : Bool
  pub hostname : Bytes
  pub udp_retransmissions : ℕ
  pub malloc : Malloc
  pub resolve : Bytes → Bytes → Option ℕ
  pub sendto_succeeds : ℕ → Bool

-- The text in `line_buffer` and `line_buffer_size`; at size 0 the pointer is NULL.
pub record LineBuffer : Type 0 where
  pub text : Bytes
  pub size : ℕ

-- Where `line` of src/main.c points: nowhere, or into a block of `getline`, whose size `len` holds; the
-- characters of the line that was read last end at `end`.
pub data Line : Type 0 where
  no_block : Line
  in_block : (offset size end : ℕ) → Line

pub record World : Type 0 where
  pub state : AppState
  -- the array `char display_name[20]`
  pub display_name : Bytes
  pub unprocessed_line : Bytes
  pub line : Line
  -- where the next `strtok(NULL, " ")` goes on
  pub strtok_rest : Bytes
  pub confirmed : Confirmed
  pub seen : Seen
  pub port : Bytes
  pub has_changed_to_dyn_port : Bool
  -- the array `recv_buffer` of the listener, with whatever earlier datagrams left in it
  pub recv_buffer : Bytes
  pub tcp_connected : Bool
  pub line_buffer : LineBuffer
  pub printed : List Output
  pub sent : List Datagram
  pub tcp_sent : List Bytes
  -- the calls of `sendto` and `send` so far
  pub attempts : ℕ
  -- what the listener thread receives during each of the coming sleeps of the main thread
  pub arrivals : List (List Arrival)

abbrev pub Prog : Type 0 → Type 0
Prog A = World → Result A × World

abbrev pub continue : {A B : Type 0} → Result A × World → (A → Prog B) → Result B × World
continue (ok a, w) f = f a w
continue (exits n, w) f = (exits n, w)
continue (fault, w) f = (fault, w)

infixl 5 ◌>>=◌ ◌>>◌
abbrev pub ◌>>=◌ : {A B : Type 0} → Prog A → (A → Prog B) → Prog B
◌>>=◌ m f w = continue (m w) f

abbrev pub ◌>>◌ : {A B : Type 0} → Prog A → Prog B → Prog B
◌>>◌ m k w = continue (m w) (λ _. k)

abbrev pub pure : {A : Type 0} → A → Prog A
pure a w = (ok a, w)

abbrev pub skip : Prog (Unit {0})
skip w = (ok tt, w)

abbrev pub exit : ℕ → Prog (Unit {0})
exit status w = (exits status, w)

abbrev pub get : Prog World
get w = (ok w, w)

-- Code that does not touch the state.
abbrev pub lift : {A : Type 0} → Result A → Prog A
lift r w = (r, w)

-- A pointer that a function returned, read through.
abbrev pub through : {A : Type 0} → Result (Option A) → Prog A
through (ok (some a)) w = (ok a, w)
through (ok none) w = (fault, w)
through (exits n) w = (exits n, w)
through fault w = (fault, w)

abbrev pub print : Output → Prog (Unit {0})
print line w = (ok tt, record w { printed = w.printed ++ (line ∷ []) })

abbrev pub set_state : AppState → Prog (Unit {0})
set_state s w = (ok tt, record w { state = s })
