-- ===== src/TcpListener/Stream.antt =====
-- `tcp_listener` of src/network_tcp.c against the lines of the stream that it receives.
use Prim.Native.Nat.{ℕ, suc}
use ipk_projekt.Memory.{Bytes, IsText}
use ipk_projekt.Base.{
  ℕ, List, ◌∷◌, All, ◌++◌, [], ◌≢◌, length, ◌+◌, ◌<◌, ◌≡◌, arith, inl, ◌∙◌, zero, refl,
  length-append, sym, All-append, ap, subst,
}
use ipk_projekt.World.{Config, LineBuffer, Prog, World, skip, ◌>>◌, continue, pure}
use ipk_projekt.Deserialize.RoundTrip.{Succeeds}
use ipk_projekt.TcpListener.{process_tcp_message, cut_lines, take_chunks, take_chunk}
use ipk_projekt.Tcp.{crlf}
use ipk_projekt.TcpListener.Chunks.{
  cut_lines-none, cut_lines-some, IsWhole, take_chunks-concat, take_chunk-text,
}
use ipk_projekt.Strings.Search.{find_crlf_line, find_crlf_nil}
use ipk_projekt.World.Laws.{continue_cong, continue-continue}
use ipk_projekt.Memory.Laws.{concat}
use ipk_projekt.Lines.Growth.{extended}

-- The stream that the server sends.
abbrev pub stream : List Bytes → Bytes
stream [] = []
stream (line ∷ lines) = line ++ (crlf ++ stream lines)

abbrev pub IsLine : Bytes → Type 0
IsLine = All (λ c. c ≢ 13)

-- The messages, in order.
abbrev pub process_all : Config → List Bytes → Prog (Unit {0})
process_all cfg [] = skip
process_all cfg (line ∷ lines) = process_tcp_message cfg line >> process_all cfg lines

-- The buffer without text, and its size after a line and after all.
abbrev pub empty : ℕ → LineBuffer
empty size = record { text = []; size = size }

abbrev pub grown : ℕ → List Bytes → ℕ
grown size [] = size
grown size (line ∷ lines) = grown (extended line (empty size)).size lines

module _ (cfg : Config) (roomy : Succeeds cfg.malloc) where
  pub cut_lines-stream :
      (fuel size : ℕ) (lines : List Bytes) (w : World)
      → All IsLine lines
      → length (stream lines) < fuel
      → cut_lines fuel cfg (stream lines) (empty size) w
        ≡ continue (process_all cfg lines w) (λ _. pure (empty (grown size lines)))
  cut_lines-stream zero size lines w h k = absurd (omega arith)
  cut_lines-stream (suc fuel) size [] w h k =
      cut_lines-none cfg roomy fuel [] (empty size) w (inl refl) find_crlf_nil
  cut_lines-stream (suc fuel) size (line ∷ lines) w (hl, h) k =
      cut_lines-some cfg roomy fuel (stream (line ∷ lines)) line (stream lines) (empty size) w
        (inl refl) (find_crlf_line line (stream lines) hl)
      ∙ continue_cong (process_tcp_message cfg line w) _ _ (λ _ w'.
        cut_lines-stream fuel _ lines w' h
          (omega (arith, length-append line (crlf ++ stream lines))))
      ∙ sym (continue-continue (process_tcp_message cfg line w) _ _)

  -- A server that sends CRLF-terminated lines has exactly these lines processed, one after the other,
  -- into however many chunks the network cuts the stream, provided that no cut stands between CR and LF.
  -- The lines hold no NUL and no CR, there is memory, and the buffer has no text left from before.
  pub take_chunks-stream :
      (chunk : Bytes) (chunks lines : List Bytes) (size : ℕ) (w : World)
      → IsWhole chunk
      → All IsWhole chunks
      → All IsLine lines
      → chunk ++ concat chunks ≡ stream lines
      → take_chunks cfg (chunk ∷ chunks) (empty size) w
        ≡ continue (process_all cfg lines w) (λ _. pure (empty (grown size lines)))
  take_chunks-stream chunk chunks lines size w hc hs hl e =
      take_chunks-concat cfg roomy chunk chunks (empty size) w (inl refl) hc hs
      ∙ ap (λ s. take_chunk cfg s (empty size) w) e
      ∙ take_chunk-text cfg roomy (stream lines) (empty size) w
          (subst IsText e (texts chunk chunks hc hs))
      ∙ cut_lines-stream (length (stream lines) + 1) size lines w hl (omega arith)
    where
      texts : (c : Bytes) (cs : List Bytes) → IsWhole c → All IsWhole cs → IsText (c ++ concat cs)
      texts c [] h _ = All-append (λ b. b ≢ 0) c [] h.0 tt
      texts c (d ∷ cs) h (g, gs) = All-append (λ b. b ≢ 0) c (d ++ concat cs) h.0 (texts d cs g gs)
