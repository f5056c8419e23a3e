-- ===== src/Client/TcpTalk.antt =====
-- What a conversation over TCP in OPEN is: the lines of the user, the chunks of whole lines that the server
-- sends between them, and what the client sends and shows.
use Prim.Native.Nat.{ℕ}
use ipk_projekt.Memory.{Bytes, c_str, IsText}
use ipk_projekt.Base.{List, ◌∷◌, ◌++◌, length, [], ◌≡◌, map, ◌≤◌, ◌⊎◌, ok, true, codes}
use ipk_projekt.World.{Output, World, state_open, usage, Line}
use ipk_projekt.Client.Entry.{IsMessage, message_line}
use ipk_projekt.TcpListener.Messages.{msg_line}
use ipk_projekt.TcpListener.Posts.{Post, line_of, chat_of}
use ipk_projekt.Client.{Event, tcp_bytes, input}
use ipk_projekt.Validation.Charset.{Fits, IsWordChar, IsBetween}
use ipk_projekt.Commands.Join.{join_text}
use ipk_projekt.TcpListener.Stream.{stream, empty}
use ipk_projekt.Tcp.{crlf}
use ipk_projekt.Client.InOpen.{rename_line, join_line}
use ipk_projekt.TcpListener.Replies.{IsContent, reply_line}
use ipk_projekt.Handlers.Replies.{outcome}
use ipk_projekt.Client.Room.{HasRoom, next_line, argument_line}

-- A channel that the user joins, the server's REPLY, and messages in the chunk of the REPLY.
pub record Joining : Type 0 where
  pub channel : Bytes
  pub result : ℕ
  pub content : Bytes
  pub posts : List Post
  pub channel_ok : Fits 20 (λ c. IsWordChar c ⊎ (c ≡ 46)) channel
  pub result_ok : result ≤ 1
  pub content_ok : IsContent content
  pub content_text : IsText content

-- A line of the user, with what answers it, or a chunk that arrives between two lines.
pub data TcpTurn : Type 0 where
  said : (c : ℕ) (s : Bytes) → IsMessage (c ∷ s) → length (c ∷ s) ≤ 59971 → TcpTurn
  passed : Post → List Post → TcpTurn
  renamed : (name : Bytes) → Fits 19 (IsBetween 0x21 0x7E) name → TcpTurn
  joined : Joining → TcpTurn
  helped : TcpTurn

-- The user's name afterwards.
abbrev pub after : TcpTurn → Bytes → Bytes
after (said c s h fits) name = name
after (passed p posts) name = name
after (renamed new h) name = new
after (joined j) name = name
after helped name = name

abbrev pub chunk_of : List Bytes → Event
chunk_of lines = tcp_bytes (stream lines)

abbrev pub events_of : TcpTurn → List Event
events_of (said c s h fits) = input (message_line c s) ∷ []
events_of (passed p posts) = chunk_of (map line_of (p ∷ posts)) ∷ []
events_of (renamed name h) = input (rename_line name) ∷ []
events_of (joined j) =
    input (join_line j.channel)
    ∷ (chunk_of (reply_line j.result j.content ∷ map line_of j.posts) ∷ [])
events_of helped = input (codes "/help\n") ∷ []

-- "MSG FROM ... IS ..." with the end of its line.
abbrev pub msg_text : Bytes → Bytes → Bytes
msg_text name text = msg_line name (text ++ crlf)

abbrev pub sends : TcpTurn → Bytes → List Bytes
sends (said c s h fits) name = msg_text name (c ∷ s) ∷ []
sends (passed p posts) name = []
sends (renamed new h) name = []
sends (joined j) name = join_text j.channel name ∷ []
sends helped name = []

abbrev pub shows : TcpTurn → List Output
shows (said c s h fits) = []
shows (passed p posts) = map chat_of (p ∷ posts)
shows (renamed new h) = []
shows (joined j) = outcome j.result j.content ∷ map chat_of j.posts
shows helped = usage ∷ []

-- Is there room for its line where `line` of src/main.c points?
abbrev pub LineFits : TcpTurn → Line → Type 0
LineFits (said c s h fits) l = HasRoom (message_line c s) l
LineFits (passed p posts) l = Unit
LineFits (renamed name h) l = HasRoom (rename_line name) l
LineFits (joined j) l = HasRoom (join_line j.channel) l
LineFits helped l = HasRoom (codes "/help\n") l

-- Where it points afterwards.
abbrev pub line_after : (ℕ → ℕ) → TcpTurn → Line → Line
line_after getline_size (said c s h fits) l = next_line getline_size (message_line c s) l
line_after getline_size (passed p posts) l = l
line_after getline_size (renamed name h) l = argument_line getline_size (rename_line name) name l
line_after getline_size (joined j) l = argument_line getline_size (join_line j.channel) j.channel l
line_after getline_size helped l = next_line getline_size (codes "/help\n") l

-- The same for all turns, one after the other.
abbrev pub LinesFit : (ℕ → ℕ) → List TcpTurn → Line → Type 0
LinesFit getline_size [] l = Unit
LinesFit getline_size (turn ∷ turns) l =
    LineFits turn l × LinesFit getline_size turns (line_after getline_size turn l)

abbrev pub after_turns : List TcpTurn → Bytes → Bytes
after_turns [] name = name
after_turns (turn ∷ turns) name = after_turns turns (after turn name)

abbrev pub events_by : List TcpTurn → List Event → List Event
events_by [] events = events
events_by (turn ∷ turns) events = events_of turn ++ events_by turns events

abbrev pub sent_by : List TcpTurn → Bytes → List Bytes
sent_by [] name = []
sent_by (turn ∷ turns) name = sends turn name ++ sent_by turns (after turn name)

abbrev pub shown_by : List TcpTurn → List Output
shown_by [] = []
shown_by (turn ∷ turns) = shows turn ++ shown_by turns

-- A connected client in OPEN under the name, with no line begun.
pub record IsOn (name : Bytes) (w : World) : Type 0 where
  pub in_open : w.state ≡ state_open
  pub called : c_str w.display_name ≡ ok name
  pub name_ok : Fits 20 (IsBetween 0x21 0x7E) name
  pub connected : w.tcp_connected ≡ true
  pub size : ℕ
  pub no_line : w.line_buffer ≡ empty size
