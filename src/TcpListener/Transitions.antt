-- ===== src/TcpListener/Transitions.antt =====
-- The states that bytes of TCP can lead to, whatever they are: src/network_tcp.c.
use ipk_projekt.TcpListener.{
  reply_ok, reply_nok, bye_from, answer_reply, handle_reply, process_unknown_tcp,
  process_tcp_message, process_tcp_reply_message, at_from, after_from, process_tcp_msg_message,
  process_tcp_err_message, handle_from_is, process_tcp_bye_message, process_from_is,
  unknown_type_text, cut_lines, finish_line, save_rest, receive_tcp, take_chunk, set_line_buffer,
  chunk_text,
}
use ipk_projekt.World.{
  AppState, Config, Prog, World, malformed_tcp_reply, print, state_start, Output, malformed_bye,
  state_auth, unknown_type, state_open, lift, state_join, chat, exit, msg_without_from,
  msg_without_is, error_from, ◌>>◌, err_without_from, err_without_is, LineBuffer, ◌>>=◌,
}
use ipk_projekt.Handlers.Moves.{ByServer, stay, joined, accepted, from}
use ipk_projekt.Tcp.{send_network_msg_tcp, send_tcp_err_msg, crlf}
use ipk_projekt.Memory.{Bytes}
use ipk_projekt.Base.{
  Option, same_text, codes, some, none, take, exit_success, ℕ, fault, suc, zero, ◌∷◌, [], length,
  ◌+◌,
}
use ipk_projekt.World.Keeps.{
  Keeps, print-Keeps, seq-Keeps, bind-Keeps, if-Keeps, lift-Keeps, exit-Keeps, Arrays, any_arrays,
  SoundIn, Invariant, if-At, At,
}
use ipk_projekt.Listener.Transitions.{ByServer-trans}
use ipk_projekt.Strings.{strstr, starts_with, strcpy}
use ipk_projekt.Handlers.{display_name_text}
use ipk_projekt.Scan.{scan_reply}
use ipk_projekt.Lines.{append_line}

ByServer-reply_ok : (s : AppState) → ByServer s (reply_ok s)
unfolding reply_ok
ByServer-reply_ok state_start = stay
ByServer-reply_ok state_auth = accepted
ByServer-reply_ok state_open = stay
ByServer-reply_ok state_join = joined

ByServer-reply_nok : (s : AppState) → ByServer s (reply_nok s)
unfolding reply_nok
ByServer-reply_nok state_start = stay
ByServer-reply_nok state_auth = stay
ByServer-reply_nok state_open = stay
ByServer-reply_nok state_join = joined

module _ (arrays : Arrays) (s : AppState) where
  abbrev Q : Invariant
  Q = from arrays s

  answer_reply-Keeps : (result content : Bytes) → Keeps Q (answer_reply result content)
  unfolding answer_reply
  answer_reply-Keeps result content = record {
    holds = λ w q.
        if-At Q (same_text result (codes "OK")) _ _
          (ByServer-trans q.0 (ByServer-reply_ok w.state), q.1)
          (if-At Q (same_text result (codes "NOK")) _ _
            (ByServer-trans q.0 (ByServer-reply_nok w.state), q.1) q);
  }

  handle_reply-Keeps : (parsed : Option (Bytes × Bytes)) → Keeps Q (handle_reply parsed)
  unfolding handle_reply
  handle_reply-Keeps none = print-Keeps Q malformed_tcp_reply
  handle_reply-Keeps (some (result, content)) =
      bind-Keeps Q (lift (strcpy 60001 content)) _ (lift-Keeps Q (strcpy 60001 content))
        (λ text. answer_reply-Keeps result text)

  module _ (show : Bytes → Bytes → Prog (Unit {0}))
      (keeps : (name content : Bytes) → Keeps Q (show name content)) where
    after_from-Keeps :
        (no_is : Output) (found : Option (Bytes × Bytes)) → Keeps Q (after_from no_is show found)
    unfolding after_from handle_from_is
    after_from-Keeps no_is none = print-Keeps Q no_is
    after_from-Keeps no_is (some (name, content)) =
        bind-Keeps Q (lift (strcpy 60001 content)) _ (lift-Keeps Q (strcpy 60001 content))
          (λ text. keeps (take 20 name) text)

    at_from-Keeps :
        (no_from no_is : Output) (found : Option (Bytes × Bytes))
        → Keeps Q (at_from no_from no_is show found)
    unfolding at_from
    at_from-Keeps no_from no_is none = print-Keeps Q no_from
    at_from-Keeps no_from no_is (some (before, from)) =
        after_from-Keeps no_is (strstr (codes " IS ") from)

  bye-Keeps : (found : Option (Bytes × Bytes)) → Keeps Q (bye_from found)
  unfolding bye_from
  bye-Keeps none = print-Keeps Q malformed_bye
  bye-Keeps (some (before, from)) =
      bind-Keeps Q (lift (strcpy 21 from)) _ (lift-Keeps Q (strcpy 21 from))
        (λ _. exit-Keeps Q exit_success)

  send_tcp-Keeps : (cfg : Config) (message : Bytes) → Keeps Q (send_network_msg_tcp cfg message)
  unfolding send_network_msg_tcp
  send_tcp-Keeps cfg message = record { holds = λ w q. if-At Q w.tcp_connected _ _ q q }

  unknown-Keeps : (cfg : Config) (message : Bytes) → Keeps Q (process_unknown_tcp cfg message)
  unfolding process_unknown_tcp
  unknown-Keeps cfg message =
      seq-Keeps Q (print (unknown_type message)) _ (print-Keeps Q (unknown_type message)) (
        bind-Keeps Q display_name_text _ (unfold display_name_text in record { holds = λ w q. q })
          (λ name.
            seq-Keeps Q (send_tcp_err_msg cfg name (unknown_type_text message)) (exit exit_success)
              (unfold send_tcp_err_msg in send_tcp-Keeps cfg _) (exit-Keeps Q exit_success)))

  process_tcp_message-Keeps :
      (cfg : Config) (message : Bytes) → Keeps Q (process_tcp_message cfg message)
  unfolding process_tcp_message process_tcp_reply_message process_tcp_msg_message
      process_tcp_err_message process_tcp_bye_message process_from_is
  process_tcp_message-Keeps cfg message =
      if-Keeps Q (starts_with (codes "REPLY ") message) _ _
        (handle_reply-Keeps (scan_reply message))
        (if-Keeps Q (starts_with (codes "MSG FROM ") message) _ _
          (at_from-Keeps (λ name content. print (chat name content))
            (λ name content. print-Keeps Q (chat name content)) msg_without_from msg_without_is
            (strstr (codes "FROM ") message))
          (if-Keeps Q (starts_with (codes "ERR FROM ") message) _ _
            (at_from-Keeps (λ name content. print (error_from name content) >> exit exit_success)
              (λ name content.
                seq-Keeps Q (print (error_from name content)) (exit exit_success)
                  (print-Keeps Q (error_from name content)) (exit-Keeps Q exit_success))
              err_without_from err_without_is (strstr (codes "FROM ") message))
            (if-Keeps Q (starts_with (codes "BYE FROM ") message) _ _
              (bye-Keeps (strstr (codes "FROM ") message)) (unknown-Keeps cfg message))))

  save_rest-Keeps :
      (cfg : Config) (start : Bytes) (b : LineBuffer) → Keeps Q (save_rest cfg start b)
  unfolding save_rest
  save_rest-Keeps cfg [] b = record { holds = λ w q. q }
  save_rest-Keeps cfg (c ∷ start) b = lift-Keeps Q (append_line cfg.malloc (c ∷ start) b)

  finish_line-Keeps :
      (cfg : Config) (line : Bytes) (b : LineBuffer) → Keeps Q (finish_line cfg line b)
  unfolding finish_line
  finish_line-Keeps cfg line b =
      bind-Keeps Q (lift (append_line cfg.malloc line b)) _
        (lift-Keeps Q (append_line cfg.malloc line b))
        (λ whole.
          seq-Keeps Q (process_tcp_message cfg whole.text) _
            (process_tcp_message-Keeps cfg whole.text) (record { holds = λ w q. q }))

  cut_lines-Keeps :
      (fuel : ℕ) (cfg : Config) (start : Bytes) (b : LineBuffer)
      → Keeps Q (cut_lines fuel cfg start b)
  unfolding cut_lines
  cut_lines-Keeps zero cfg start b = lift-Keeps Q fault
  cut_lines-Keeps (suc fuel) cfg start b = next (cut_lines-Keeps fuel cfg) (strstr crlf start)
    where
      next :
          ((rest : Bytes) (b' : LineBuffer) → Keeps Q (cut_lines fuel cfg rest b'))
          → (found : Option (Bytes × Bytes))
          → Keeps Q (elim found as (λ _. Prog LineBuffer) [
            | none ↦ save_rest cfg start b
            | some (line, rest) ↦ finish_line cfg line b >>= cut_lines fuel cfg rest
          ])
      next later none = save_rest-Keeps cfg start b
      next later (some (line, rest)) =
          bind-Keeps Q (finish_line cfg line b) (cut_lines fuel cfg rest)
            (finish_line-Keeps cfg line b) (later rest)

  receive_tcp-Keeps : (cfg : Config) (chunk : Bytes) → Keeps Q (receive_tcp cfg chunk)
  unfolding receive_tcp take_chunk
  receive_tcp-Keeps cfg [] = record { holds = λ w q. q }
  receive_tcp-Keeps cfg (c ∷ chunk) = record {
    holds = λ w q.
        if-At Q w.tcp_connected _ _
          ((bind-Keeps Q (take_chunk cfg (c ∷ chunk) w.line_buffer) set_line_buffer
              (bind-Keeps Q (lift (chunk_text (c ∷ chunk))) _
                (lift-Keeps Q (chunk_text (c ∷ chunk)))
                (λ start. cut_lines-Keeps (length start + 1) cfg start w.line_buffer))
              (λ b. record { holds = λ w' q'. q' })).holds
            w q)
          q;
  }

pub receive_tcp-At :
    (arrays : Arrays) (cfg : Config) (chunk : Bytes) (w : World)
    → SoundIn arrays w
    → At (from arrays w.state) (receive_tcp cfg chunk w).1
receive_tcp-At arrays cfg chunk w sound =
    (receive_tcp-Keeps arrays w.state cfg chunk).holds w (stay, sound)

-- Whatever bytes arrive over TCP, and however their handling ends, the state stays as it is, or goes
-- from AUTH or from JOIN to OPEN.
pub receive_tcp-ByServer :
    (cfg : Config) (chunk : Bytes) (w : World) → ByServer w.state (receive_tcp cfg chunk w).1.state
receive_tcp-ByServer cfg chunk w = (receive_tcp-At any_arrays cfg chunk w tt).0
