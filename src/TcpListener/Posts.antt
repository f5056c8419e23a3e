-- ===== src/TcpListener/Posts.antt =====
-- Chat messages and a REPLY, as a server sends them over TCP, a chunk of whole lines at a time:
-- `tcp_listener` of src/network_tcp.c.
use Prim.Native.Nat.{ℕ}
use ipk_projekt.Memory.{Bytes, IsText}
use ipk_projekt.TcpListener.{receive_tcp, take_chunk, set_line_buffer}
use ipk_projekt.Base.{
  List, All, map, ◌≢◌, length, ◌∷◌, ◌≤◌, ◌++◌, All-append, ◌≡◌, arith, ok, true, [], ap, sym,
  append-nil, ◌+◌, length-append, ◌∙◌, append_assoc,
}
use ipk_projekt.World.{pure, Config, Output, chat, World, continue}
use ipk_projekt.TcpListener.Messages.{msg_line, process_msg_line}
use ipk_projekt.TcpListener.Stream.{stream, IsLine, process_all, empty, grown, cut_lines-stream}
use ipk_projekt.Deserialize.RoundTrip.{Succeeds}
use ipk_projekt.TcpListener.Wire.{msg_line-All}
use ipk_projekt.Tcp.{crlf}
use ipk_projekt.TcpListener.Chunks.{take_chunk-text}

-- A message that fits the arrays and is one line, its name one word.
pub record Post : Type 0 where
  pub name : Bytes
  pub content : Bytes
  pub one_word : All (λ c. c ≢ 32) name
  pub name_line : IsLine name
  pub content_line : IsLine content
  pub name_text : IsText name
  pub content_text : IsText content
  pub name_short : length name ≤ 20
  pub content_short : length content ≤ 60000

abbrev pub line_of : Post → Bytes
line_of p = msg_line p.name p.content

abbrev pub chat_of : Post → Output
chat_of p = chat p.name p.content

abbrev pub heard : List Post → World → World
heard posts w = record w { printed = w.printed ++ map chat_of posts }

pub process_all-posts :
    (cfg : Config) (posts : List Post) (w : World)
    → process_all cfg (map line_of posts) w ≡ (ok tt, heard posts w)
process_all-posts cfg [] w =
    ap (λ p. (ok tt, record w { printed = p })) (sym (append-nil w.printed))
process_all-posts cfg (p ∷ posts) w =
    ap (λ r. continue r (λ _. process_all cfg (map line_of posts)))
      (process_msg_line cfg p.name p.content w p.one_word p.name_short p.content_short)
    ∙ process_all-posts cfg posts (record w { printed = w.printed ++ (chat_of p ∷ []) })
    ∙ ap (λ o. (ok tt, record w { printed = o }))
        (append_assoc w.printed (chat_of p ∷ []) (map chat_of posts))

pub posts-IsLine : (posts : List Post) → All IsLine (map line_of posts)
posts-IsLine [] = tt
posts-IsLine (p ∷ posts) = (
  msg_line-All (λ c. c ≢ 13) p.name p.content (omega arith) (omega arith) p.name_line
      p.content_line,
  posts-IsLine posts,
)

pub posts-IsText : (posts : List Post) → All IsText (map line_of posts)
posts-IsText [] = tt
posts-IsText (p ∷ posts) = (
  msg_line-All (λ c. c ≢ 0) p.name p.content (omega arith) (omega arith) p.name_text p.content_text,
  posts-IsText posts,
)

stream-IsText : (lines : List Bytes) → All IsText lines → IsText (stream lines)
stream-IsText [] h = tt
stream-IsText (line ∷ lines) (p, h) =
    All-append (λ c. c ≢ 0) line (crlf ++ stream lines) p
      (All-append (λ c. c ≢ 0) crlf (stream lines) (omega arith) (stream-IsText lines h))

pub receive_tcp_some :
    (cfg : Config) (chunk : Bytes) (w : World)
    → 1 ≤ length chunk
    → w.tcp_connected ≡ true
    → receive_tcp cfg chunk w ≡ continue (take_chunk cfg chunk w.line_buffer w) set_line_buffer
unfolding receive_tcp
receive_tcp_some cfg [] w some_bytes up = absurd (omega arith)
receive_tcp_some cfg (c ∷ chunk) w some_bytes up = rw up

-- A chunk of one whole line or more, from a client with no line begun.
pub receive_tcp-lines :
    (cfg : Config) (line : Bytes) (lines : List Bytes) (size : ℕ) (w w' : World)
    → Succeeds cfg.malloc
    → w.tcp_connected ≡ true
    → w.line_buffer ≡ empty size
    → All IsLine (line ∷ lines)
    → All IsText (line ∷ lines)
    → process_all cfg (line ∷ lines) w ≡ (ok tt, w')
    → receive_tcp cfg (stream (line ∷ lines)) w
      ≡ (ok tt, record w' { line_buffer = empty (grown size (line ∷ lines)) })
receive_tcp-lines cfg line lines size w w' roomy up clean hl ht e =
    let chunk : Bytes = stream (line ∷ lines) in
    let n : ℕ = length chunk + 1 in
    receive_tcp_some cfg chunk w (omega (arith, length-append line (crlf ++ stream lines))) up
    ∙ ap (λ b. continue (take_chunk cfg chunk b w) set_line_buffer) clean
    ∙ ap (λ r. continue r set_line_buffer)
        (take_chunk-text cfg roomy chunk (empty size) w (stream-IsText (line ∷ lines) ht)
          ∙ cut_lines-stream cfg roomy n size (line ∷ lines) w hl (omega arith)
          ∙ ap (λ r. continue r (λ _. pure (empty (grown size (line ∷ lines))))) e)
