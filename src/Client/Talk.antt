-- ===== src/Client/Talk.antt =====
-- What a conversation in OPEN is, as the protocol sees it: the lines of the user and the datagrams between
-- them, and what they make of the name, the next id and the known ids.
use Prim.Native.Nat.{ℕ, ◌+◌}
use ipk_projekt.Memory.{Bytes, IsText, c_str}
use ipk_projekt.Ids.Dedup.{view}
use ipk_projekt.Base.{
  ◌+◌, List, codes, ◌++◌, ◌∷◌, length, ◌⊎◌, ◌<◌, [], ◌≡◌, map, ◌≤◌, ok, some, true,
}
use ipk_projekt.World.{Config, Datagram, World, Output, Arrival, state_open, usage, Line}
use ipk_projekt.Listener.Inbox.{AllFit, remembered, Incoming, fresh, arrival_of, confirmation}
use ipk_projekt.Serialize.Layout.{header}
use ipk_projekt.Client.{Event, input, datagrams}
use ipk_projekt.Validation.Charset.{Fits, IsWordChar, IsBetween}
use ipk_projekt.Client.Entry.{IsMessage, message_line}
use ipk_projekt.Listener.Delivery.{confirm_arrival}
use ipk_projekt.Commands.Message.{msg_packet}
use ipk_projekt.Listener.Answer.{join_arrival}
use ipk_projekt.Handlers.Replies.{outcome}
use ipk_projekt.Client.InOpen.{rename_line, join_line}
use ipk_projekt.Commands.Join.{join_packet}
use ipk_projekt.Client.Room.{next_line, HasRoom, argument_line}
use ipk_projekt.Ids.Confirm
use ipk_projekt.Ids.Dedup

-- A channel that the user joins, and the server's REPLY.
pub record Joining : Type 0 where
  pub channel : Bytes
  pub confirm_port : ℕ
  pub reply_port : ℕ
  pub result : ℕ
  pub id : ℕ
  pub ref : ℕ
  pub content : Bytes
  pub channel_ok : Fits 20 (λ c. IsWordChar c ⊎ (c ≡ 46)) channel
  pub result_ok : result ≤ 1
  pub id_ok : id < 65536
  pub ref_ok : ref < 65536
  pub content_ok : IsText content
  pub some_content : 1 ≤ length content
  pub content_short : length content ≤ 59999

-- A line of the user, or what arrives between two lines.
pub data Turn : Type 0 where
  said : (c : ℕ) (s : Bytes) → IsMessage (c ∷ s) → Turn
  heard : List Incoming → Turn
  renamed : (name : Bytes) → Fits 19 (IsBetween 0x21 0x7E) name → Turn
  joined : Joining → Turn
  helped : Turn

-- Between two turns: the user's name, the id of the next message, and the ids that were heard.
pub record Talk : Type 0 where
  pub name : Bytes
  pub next : ℕ
  pub known : List ℕ

abbrev pub after : Turn → Talk → Talk
after (said c s h) t = record t { next = t.next + 1 }
after (heard ms) t = record t { known = remembered t.known ms }
after (renamed name h) t = record t { name = name }
after (joined j) t = record t { next = t.next + 1 }
after helped t = t

abbrev pub event_of : Turn → Event
event_of (said c s h) = input (message_line c s)
event_of (heard ms) = datagrams (map arrival_of ms)
event_of (renamed name h) = input (rename_line name)
event_of (joined j) = input (join_line j.channel)
event_of helped = input (codes "/help\n")

-- What the server sends during the sleeps.
abbrev pub brought : ℕ → Turn → Talk → List (List Arrival)
brought port (said c s h) t = (confirm_arrival port t.next ∷ []) ∷ []
brought port (heard ms) t = []
brought port (renamed name h) t = []
brought port (joined j) t =
    (confirm_arrival j.confirm_port t.next
      ∷ (join_arrival j.reply_port j.id j.result j.ref j.content ∷ []))
    ∷ []
brought port helped t = []

-- What the client sends: a message under the next id, and a CONFIRM for each datagram.
abbrev pub sends : ℕ → Turn → Talk → List Datagram
sends address (said c s h) t =
    record { to = address; payload = msg_packet t.next t.name (c ∷ s) } ∷ []
sends address (heard ms) t = map (confirmation address) ms
sends address (renamed name h) t = []
sends address (joined j) t =
    record { to = address; payload = join_packet t.next j.channel t.name }
    ∷ (record { to = address; payload = header 0 j.id [] } ∷ [])
sends address helped t = []

-- What it shows.
abbrev pub shows : Turn → Talk → List Output
shows (said c s h) t = []
shows (heard ms) t = fresh t.known ms
shows (renamed name h) t = []
shows (joined j) t = outcome j.result j.content ∷ []
shows helped t = usage ∷ []

-- Is there room in a buffer of this size?
abbrev pub TurnFits : ℕ → Turn → Type 0
TurnFits size (said c s h) = Unit
TurnFits size (heard ms) = AllFit size ms
TurnFits size (renamed name h) = Unit
TurnFits size (joined j) = length j.content + 7 < size
TurnFits size helped = Unit

-- Is there room for its line where `line` of src/main.c points?
abbrev pub LineFits : Turn → Line → Type 0
LineFits (said c s h) l = HasRoom (message_line c s) l
LineFits (heard ms) l = Unit
LineFits (renamed name h) l = HasRoom (rename_line name) l
LineFits (joined j) l = HasRoom (join_line j.channel) l
LineFits helped l = HasRoom (codes "/help\n") l

-- Where it points afterwards.
abbrev pub line_after : (ℕ → ℕ) → Turn → Line → Line
line_after getline_size (said c s h) l = next_line getline_size (message_line c s) l
line_after getline_size (heard ms) l = l
line_after getline_size (renamed name h) l = argument_line getline_size (rename_line name) name l
line_after getline_size (joined j) l = argument_line getline_size (join_line j.channel) j.channel l
line_after getline_size helped l = next_line getline_size (codes "/help\n") l

-- The same for all turns, one after the other.
abbrev pub after_turns : List Turn → Talk → Talk
after_turns [] t = t
after_turns (turn ∷ turns) t = after_turns turns (after turn t)

abbrev pub brought_all : ℕ → List Turn → Talk → List (List Arrival) → List (List Arrival)
brought_all port [] t later = later
brought_all port (turn ∷ turns) t later =
    brought port turn t ++ brought_all port turns (after turn t) later

abbrev pub sent_by : ℕ → List Turn → Talk → List Datagram
sent_by address [] t = []
sent_by address (turn ∷ turns) t = sends address turn t ++ sent_by address turns (after turn t)

abbrev pub shown_by : List Turn → Talk → List Output
shown_by [] t = []
shown_by (turn ∷ turns) t = shows turn t ++ shown_by turns (after turn t)

abbrev pub LinesFit : (ℕ → ℕ) → List Turn → Line → Type 0
LinesFit getline_size [] l = Unit
LinesFit getline_size (turn ∷ turns) l =
    LineFits turn l × LinesFit getline_size turns (line_after getline_size turn l)

-- A client in OPEN that agrees with it. Its tables have `limit` cells at least.
pub record IsOpen (cfg : Config) (address size limit : ℕ) (t : Talk) (w : World) : Type 0 where
  pub in_open : w.state ≡ state_open
  pub called : c_str w.display_name ≡ ok t.name
  pub name_ok : Fits 20 (IsBetween 0x21 0x7E) t.name
  pub counts : w.confirmed.index ≡ t.next
  pub knows : view w.seen ≡ t.known
  pub resolves : cfg.resolve cfg.hostname w.port ≡ some address
  pub port_changed : w.has_changed_to_dyn_port ≡ true
  pub valid : ipk_projekt.Ids.Confirm.IsValid w.confirmed
  pub seen_valid : ipk_projekt.Ids.Dedup.IsValid w.seen
  pub sized : length w.recv_buffer ≡ size
  pub cells : limit ≤ w.confirmed.array_size
