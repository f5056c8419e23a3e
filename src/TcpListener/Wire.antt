-- ===== src/TcpListener/Wire.antt =====
-- A chat message from `send_tcp_msg_msg` to the screen, and what happens to a line end that is cut in
-- two: src/network_tcp.c on both sides.
use ipk_projekt.Base.{
  ◌∷◌, ◌++◌, length, All-append, ℕ, ◌≤◌, ◌≢◌, ◌≡◌, arith, codes, length-append, true, ok, All, [],
  ◌+◌, append_assoc, append-nil, List, take-all, ◌∙◌, ap, sym, refl, none, suc,
}
use ipk_projekt.Tcp.{send_tcp_msg_msg, send_network_msg_tcp, crlf}
use ipk_projekt.Memory.{Bytes, IsText}
use ipk_projekt.World.{skip, Config, World, chat, continue, pure, LineBuffer}
use ipk_projekt.TcpListener.Stream.{IsLine, stream, empty, grown, cut_lines-stream}
use ipk_projekt.TcpListener.Messages.{msg_line, process_msg_line}
use ipk_projekt.Deserialize.RoundTrip.{Succeeds}
use ipk_projekt.Udp.Rounds.{Delivers}
use ipk_projekt.TcpListener.{take_chunk, cut_lines}
use ipk_projekt.TcpListener.Chunks.{take_chunk-text, saved, saved-HasRoom, cut_lines-none}
use ipk_projekt.Lines.Growth.{HasRoom}
use ipk_projekt.Strings.Search.{find_crlf_half, find_crlf_absent}
use ipk_projekt.Strings.{strstr}

line-crlf :
    (name content : Bytes) → msg_line name (content ++ crlf) ≡ stream (msg_line name content ∷ [])
line-crlf name content = simp (append_assoc, append-nil)

length-packet :
    (name content : Bytes)
    → length name ≤ 20
    → length content ≤ 59971
    → length (msg_line name (content ++ crlf)) ≤ 60006
length-packet name content h k =
    omega
      (arith, length-append name (codes " IS " ++ (content ++ crlf)), length-append content crlf)

-- A message of a connected client is handed to `send` whole.
pub send_network_msg_tcp_lem :
    (cfg : Config) (message : Bytes) (w : World)
    → Delivers cfg
    → w.tcp_connected ≡ true
    → send_network_msg_tcp cfg message w
      ≡ (ok tt, record w { attempts = w.attempts + 1; tcp_sent = w.tcp_sent ++ (message ∷ []) })
unfolding send_network_msg_tcp
send_network_msg_tcp_lem cfg message w delivers up = ground (arith, up, delivers w.attempts)

-- So is a MSG whose content leaves room for the rest.
pub send_tcp_msg_msg_lem :
    (cfg : Config) (name content : Bytes) (w : World)
    → Delivers cfg
    → w.tcp_connected ≡ true
    → length name ≤ 20
    → length content ≤ 59971
    → send_tcp_msg_msg cfg name content w ≡ (
      ok tt,
      record w {
        attempts = w.attempts + 1;
        tcp_sent = w.tcp_sent ++ (msg_line name (content ++ crlf) ∷ []);
      },
    )
unfolding send_tcp_msg_msg
send_tcp_msg_msg_lem cfg name content w delivers up short short' =
    let packet : Bytes = msg_line name (content ++ crlf) in
    rw (take-all 60006 packet (length-packet name content short short'))
      (send_network_msg_tcp_lem cfg packet w delivers up)

-- What holds for every character of a MSG line.
pub msg_line-All :
    (P : ℕ → Type 0) (name content : Bytes)
    → All P (codes "MSG FROM ")
    → All P (codes " IS ")
    → All P name
    → All P content
    → All P (msg_line name content)
msg_line-All P name content from is hn hc =
    All-append P (codes "MSG FROM ") (name ++ (codes " IS " ++ content)) from
      (All-append P name (codes " IS " ++ content) hn (All-append P (codes " IS ") content is hc))

-- What is sent for a MSG is taken, in one chunk, as one line, and printed with its name and content;
-- nothing else happens to the receiver. The name has up to 20 characters and no space, neither text
-- has CR or NUL, and the content leaves room for the rest in the buffer of the sender. The sender is
-- connected and the send succeeds; the receiver has memory and no line begun.
pub send_tcp_msg_msg-take_chunk :
    (cfg : Config) (name content : Bytes) (size : ℕ) (w w' : World)
    → Succeeds cfg.malloc
    → Delivers cfg
    → w.tcp_connected ≡ true
    → All (λ c. c ≢ 32) name
    → IsLine name
    → IsLine content
    → IsText name
    → IsText content
    → length name ≤ 20
    → length content ≤ 59971
    → let packet : Bytes = msg_line name (content ++ crlf) in
      (size' : ℕ) × (send_tcp_msg_msg cfg name content w
        ≡ (ok tt, record w { attempts = w.attempts + 1; tcp_sent = w.tcp_sent ++ (packet ∷ []) }))
      × (take_chunk cfg packet (empty size) w'
          ≡ (ok (empty size'), record w' { printed = w'.printed ++ (chat name content ∷ []) }))
send_tcp_msg_msg-take_chunk cfg name content size w w' roomy delivers up no_space ln lc tn tc short
      short' =
    let packet : Bytes = msg_line name (content ++ crlf) in
    let lines : List Bytes = msg_line name content ∷ [] in
    (
      grown size lines,
      send_tcp_msg_msg_lem cfg name content w delivers up short short',
      take_chunk-text cfg roomy packet (empty size) w' (
            msg_line-All (λ c. c ≢ 0) name (content ++ crlf) (omega arith) (omega arith) tn
              (All-append (λ c. c ≢ 0) content crlf tc (omega arith)))
          ∙ ap (λ s. cut_lines (length packet + 1) cfg s (empty size) w') (line-crlf name content)
          ∙ (cut_lines-stream cfg roomy (length packet + 1) size lines w'
                (msg_line-All (λ c. c ≢ 13) name content (omega arith) (omega arith) ln lc, tt)
                (omega (arith, ap length (line-crlf name content)))
              ∙ ap (λ r. continue (continue r (λ _. skip)) (λ _. pure (empty (grown size lines))))
                  (process_msg_line cfg name content w' no_space short (omega (arith, short')))),
    )

take_chunk_unmatched :
    (cfg : Config) (s : Bytes) (b : LineBuffer) (w : World)
    → Succeeds cfg.malloc
    → HasRoom b
    → IsText s
    → strstr crlf s ≡ none
    → take_chunk cfg s b w ≡ (ok (saved s b), w)
take_chunk_unmatched cfg s b w roomy v text e =
    let f : length s + 1 ≡ suc (length s) = omega arith in
    take_chunk-text cfg roomy s b w text ∙ rw f (cut_lines-none cfg roomy (length s) s b w v e)

saved-text : (s : Bytes) (b : LineBuffer) → (saved s b).text ≡ b.text ++ s
saved-text [] b = sym (append-nil b.text)
saved-text (c ∷ s) b = refl

-- A line whose CR and LF come in two chunks is not processed: the listener finds no end of a line, and
-- keeps both characters in the middle of its buffer, before whatever comes next. The line and what
-- follows hold no NUL and no CR, there is memory, and the buffer has room for its text.
pub take_chunk_split :
    (cfg : Config) (line more : Bytes) (b : LineBuffer) (w : World)
    → Succeeds cfg.malloc
    → HasRoom b
    → IsLine line
    → IsText line
    → IsLine more
    → IsText more
    → (b' : LineBuffer) × (continue
          (take_chunk cfg (line ++ (13 ∷ [])) b w)
          (take_chunk cfg (10 ∷ more))
        ≡ (ok b', w))
      × (b'.text ≡ b.text ++ (line ++ (crlf ++ more)))
take_chunk_split cfg line more b w roomy v ln lt mn mt =
    let first : Bytes = line ++ (13 ∷ []) in
    let b1 : LineBuffer = saved first b in
    (
      saved (10 ∷ more) b1,
      rw
          (take_chunk_unmatched cfg first b w roomy v
            (All-append (λ c. c ≢ 0) line (13 ∷ []) lt (omega arith)) (find_crlf_half line ln))
          (take_chunk_unmatched cfg (10 ∷ more) b1 w roomy (saved-HasRoom first b v)
            ((λ z. omega arith), mt) (find_crlf_absent (10 ∷ more) ((λ z. omega arith), mn))),
      ap (λ t. t ++ (10 ∷ more)) (saved-text first b) ∙ simp (append_assoc),
    )
