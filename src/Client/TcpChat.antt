-- ===== src/Client/TcpChat.antt =====
-- A chat message over TCP, from the line that one user enters to the screen of another: src/main.c,
-- src/state_open.c, src/cmd_msg.c and the two halves of src/network_tcp.c.
use Prim.Native.Nat.{ℕ}
use ipk_projekt.Memory.{Bytes, c_str}
use ipk_projekt.Base.{
  All, ◌≡◌, ◌⊎◌, ◌∷◌, true, arith, [], length, ◌≤◌, ok, ◌++◌, ◌+◌, ◌∙◌, ap, refl,
}
use ipk_projekt.World.{Config, World, state_open, chat, continue}
use ipk_projekt.Validation.Charset.{IsBetween, Fits}
use ipk_projekt.TcpListener.Stream.{IsLine, empty}
use ipk_projekt.Commands.Words.{IsWord}
use ipk_projekt.Deserialize.RoundTrip.{Succeeds}
use ipk_projekt.Udp.Rounds.{Delivers}
use ipk_projekt.Client.Entry.{message_taken, IsMessage, message_line, message_line_lem}
use ipk_projekt.Client.{main_round}
use ipk_projekt.TcpListener.{receive_tcp, take_chunk, set_line_buffer}
use ipk_projekt.TcpListener.Wire.{send_tcp_msg_msg-take_chunk}
use ipk_projekt.TcpListener.Messages.{msg_line}
use ipk_projekt.Tcp.{crlf}
use ipk_projekt.Commands.Rename.{name-IsText}
use ipk_projekt.Commands.Message.{content-IsText, send_msg-send_tcp_msg_msg}
use ipk_projekt.TcpListener.Posts.{receive_tcp_some}

content-IsLine : (s : Bytes) → All (λ d. (d ≡ 0x0A) ⊎ IsBetween 0x20 0x7E d) s → IsLine s
content-IsLine [] h = tt
content-IsLine (c ∷ s) (p, h) = ((λ z. ground arith), content-IsLine s h)

name-IsLine : (s : Bytes) → All (IsBetween 0x21 0x7E) s → IsLine s
name-IsLine [] h = tt
name-IsLine (c ∷ s) (p, h) = ((λ z. omega arith), name-IsLine s h)

name-IsWord : (s : Bytes) → All (IsBetween 0x21 0x7E) s → IsWord s
name-IsWord [] h = tt
name-IsWord (c ∷ s) (p, h) = ((λ z. omega arith), name-IsWord s h)

-- A message over TCP from one user to another: a line in OPEN that is not empty, begins neither with a
-- space nor with a slash and holds at most 59971 printable characters, from a client with a valid
-- display name, is handed to `send` once; the sender stays in OPEN and prints nothing. Another
-- connected client, in any state, that receives just these bytes prints the name and the text and
-- does nothing else. The sender is connected, there is memory, the send succeeds, and the receiver
-- has no line begun.
pub tcp_send_and_show :
    (cfg : Config) (name : Bytes) (c : ℕ) (s : Bytes) (size : ℕ) (w v : World)
    → Succeeds cfg.malloc
    → Delivers cfg
    → cfg.use_tcp_protocol ≡ true
    → Fits 20 (IsBetween 0x21 0x7E) name
    → IsMessage (c ∷ s)
    → length (c ∷ s) ≤ 59971
    → w.state ≡ state_open
    → w.tcp_connected ≡ true
    → c_str w.display_name ≡ ok name
    → v.tcp_connected ≡ true
    → v.line_buffer ≡ empty size
    → (packet : Bytes) × (w' : World) × (v' : World) × (main_round cfg (message_line c s) w
        ≡ (ok tt, w'))
      × (w'.tcp_sent ≡ w.tcp_sent ++ (packet ∷ []))
      × (w'.state ≡ state_open)
      × (w'.printed ≡ w.printed)
      × (receive_tcp cfg packet v ≡ (ok tt, v'))
      × (v'.printed ≡ v.printed ++ (chat name (c ∷ s) ∷ []))
      × (v'.state ≡ v.state)
      × (v'.line_buffer.text ≡ [])
      × (v'.tcp_sent ≡ v.tcp_sent)
tcp_send_and_show cfg name c s size w v roomy delivers tcp name_ok message fits open' up called up'
      clean =
    let (_, _, chars, short) = message in
    let packet : Bytes = msg_line name ((c ∷ s) ++ crlf) in
    let (size', sends, takes) =
      send_tcp_msg_msg-take_chunk cfg name (c ∷ s) size (message_taken c s w) v roomy delivers up
        (name-IsWord name name_ok.2) (name-IsLine name name_ok.2) (content-IsLine (c ∷ s) chars)
        (name-IsText name name_ok.2) (content-IsText (c ∷ s) chars) name_ok.1 fits in
    (
      packet,
      record (message_taken c s w) {
        attempts = w.attempts + 1;
        tcp_sent = w.tcp_sent ++ (packet ∷ []);
      },
      record v { printed = v.printed ++ (chat name (c ∷ s) ∷ []); line_buffer = empty size' },
      message_line_lem cfg name c s w roomy name_ok message open' called
          ∙ send_msg-send_tcp_msg_msg cfg name (c ∷ s) (message_taken c s w) tcp
          ∙ sends,
      refl,
      open',
      refl,
      receive_tcp_some cfg packet v (omega arith) up'
          ∙ ap (λ b. continue (take_chunk cfg packet b v) set_line_buffer) clean
          ∙ ap (λ r. continue r set_line_buffer) takes,
      refl,
      refl,
      refl,
      refl,
    )
