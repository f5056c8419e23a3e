-- ===== src/TcpListener.antt =====
-- The receiving half of src/network_tcp.c: the handlers of the four kinds of message, and the loop of
-- `tcp_listener` that cuts what `recv` returns into lines.
pub mod Chunks
pub mod Stream
pub mod Messages
pub mod Replies
pub mod Wire
pub mod Posts
pub mod Transitions
-- `switch (state)` after OK
use ipk_projekt.Strings.{strstr, starts_with, strcpy}
use ipk_projekt.World.{
  AppState, Config, LineBuffer, Output, Prog, state_open, state_auth, state_join, ◌>>=◌,
  msg_without_from, print, err_without_from, pure, lift, action_success, malformed_tcp_reply,
  err_without_is, msg_without_is, ◌>>◌, chat, error_from, set_state, exit, unknown_type,
  malformed_bye, action_failure, invalid_reply_type,
}
use ipk_projekt.Base.{
  same_text, Option, ℕ, take, Result, codes, ok, if◌then◌else◌, false, fault, ◌-◌, ◌++◌, length,
  ◌∷◌, ◌+◌, suc, [], some, none, exit_success, zero, List,
}
use ipk_projekt.Memory.{Bytes, c_str}
use ipk_projekt.Validation.{max_message_content_len, max_display_name_len}
use ipk_projekt.Scan.{scan_reply}
use ipk_projekt.Lines.{append_line}
use ipk_projekt.Tcp.{crlf, send_tcp_err_msg}
use ipk_projekt.Handlers.{display_name_text}

unfoldable pub reply_ok : AppState → AppState
reply_ok state_auth = state_open
reply_ok state_join = state_open
reply_ok s = s

-- after NOK
unfoldable pub reply_nok : AppState → AppState
reply_nok state_join = state_open
reply_nok s = s

unfoldable pub answer_reply : Bytes → Bytes → Prog (Unit {0})
unfolding reply_ok reply_nok same_text
answer_reply result content w =
    if same_text result (codes "OK")
    then (print (action_success content) >> set_state (reply_ok w.state)) w
    else if same_text result (codes "NOK")
    then (print (action_failure content) >> set_state (reply_nok w.state)) w
    else print invalid_reply_type w

-- The content has no width in the format: `sscanf` writes past the array if it is too long.
unfoldable pub handle_reply : Option (Bytes × Bytes) → Prog (Unit {0})
handle_reply none = print malformed_tcp_reply
handle_reply (some (result, content)) = do
  text ← lift (strcpy (max_message_content_len + 1) content)
  answer_reply result text

unfoldable pub process_tcp_reply_message : Bytes → Prog (Unit {0})
process_tcp_reply_message message = handle_reply (scan_reply message)

-- The display name, cut to its array, and the content, which is copied whole.
unfoldable pub handle_from_is : (Bytes → Bytes → Prog (Unit {0})) → Bytes → Bytes → Prog (Unit {0})
handle_from_is show name content = do
  text ← lift (strcpy (max_message_content_len + 1) content)
  show (take max_display_name_len name) text

unfoldable pub after_from :
    Output → (Bytes → Bytes → Prog (Unit {0})) → Option (Bytes × Bytes) → Prog (Unit {0})
after_from no_is show none = print no_is
after_from no_is show (some (name, content)) = handle_from_is show name content

unfoldable pub at_from :
    Output → Output → (Bytes → Bytes → Prog (Unit {0})) → Option (Bytes × Bytes) → Prog (Unit {0})
at_from no_from no_is show none = print no_from
at_from no_from no_is show (some (before, from)) =
    after_from no_is show (strstr (codes " IS ") from)

unfoldable pub process_from_is :
    Output → Output → (Bytes → Bytes → Prog (Unit {0})) → Bytes → Prog (Unit {0})
process_from_is no_from no_is show message =
    at_from no_from no_is show (strstr (codes "FROM ") message)

unfoldable pub process_tcp_msg_message : Bytes → Prog (Unit {0})
process_tcp_msg_message =
    process_from_is msg_without_from msg_without_is (λ name content. print (chat name content))

unfoldable pub process_tcp_err_message : Bytes → Prog (Unit {0})
process_tcp_err_message =
    process_from_is err_without_from err_without_is
      (λ name content. print (error_from name content) >> exit exit_success)

-- The name is copied whole into an array of 21 bytes.
unfoldable pub bye_from : Option (Bytes × Bytes) → Prog (Unit {0})
bye_from none = print malformed_bye
bye_from (some (before, from)) =
    lift (strcpy (max_display_name_len + 1) from) >>= λ _. exit exit_success

unfoldable pub process_tcp_bye_message : Bytes → Prog (Unit {0})
process_tcp_bye_message message = bye_from (strstr (codes "FROM ") message)

-- "Received unknown message type: %.20s"
abbrev pub unknown_type_text : Bytes → Bytes
unknown_type_text message =
    take (max_message_content_len - 1) (codes "Received unknown message type: " ++ take 20 message)

unfoldable pub process_unknown_tcp : Config → Bytes → Prog (Unit {0})
process_unknown_tcp cfg message = do
  print (unknown_type message)
  name ← display_name_text
  send_tcp_err_msg cfg name (unknown_type_text message)
  exit exit_success

unfoldable pub process_tcp_message : Config → Bytes → Prog (Unit {0})
unfolding starts_with
process_tcp_message cfg message =
    if starts_with (codes "REPLY ") message
    then process_tcp_reply_message message
    else if starts_with (codes "MSG FROM ") message
    then process_tcp_msg_message message
    else if starts_with (codes "ERR FROM ") message
    then process_tcp_err_message message
    else if starts_with (codes "BYE FROM ") message
    then process_tcp_bye_message message
    else process_unknown_tcp cfg message

-- A complete line: the segment joins what earlier chunks left, and the line is processed.
unfoldable pub finish_line : Config → Bytes → LineBuffer → Prog LineBuffer
finish_line cfg start b = do
  line ← lift (append_line cfg.malloc start b)
  process_tcp_message cfg line.text
  pure (record line { text = [] })

-- An incomplete line at the end is saved, unless it is empty.
unfoldable pub save_rest : Config → Bytes → LineBuffer → Prog LineBuffer
save_rest cfg [] b = pure b
save_rest cfg (c ∷ start) b = lift (append_line cfg.malloc (c ∷ start) b)

-- `while ((end = strstr(start, "\r\n")) != NULL)`, on fuel.
unfoldable pub cut_lines : ℕ → Config → Bytes → LineBuffer → Prog LineBuffer
unfolding strstr
cut_lines zero cfg start b = lift fault
cut_lines (suc fuel) cfg start b = elim (strstr crlf start) [
  | none ↦ save_rest cfg start b
  | some (line, rest) ↦ finish_line cfg line b >>= cut_lines fuel cfg rest
]

-- The text of `recv_buffer` with its NUL, which ends at the first NUL received.
unfoldable pub chunk_text : Bytes → Result Bytes
chunk_text chunk = c_str (chunk ++ (0 ∷ []))

-- What the loop does with the bytes of one `recv`, 60006 at most.
unfoldable pub take_chunk : Config → Bytes → LineBuffer → Prog LineBuffer
take_chunk cfg chunk b = do
  start ← lift (chunk_text chunk)
  cut_lines (length start + 1) cfg start b

-- The bytes of several calls of `recv`, one after the other.
unfoldable pub take_chunks : Config → List Bytes → LineBuffer → Prog LineBuffer
take_chunks cfg [] b = pure b
take_chunks cfg (chunk ∷ chunks) b = take_chunk cfg chunk b >>= take_chunks cfg chunks

abbrev pub set_line_buffer : LineBuffer → Prog (Unit {0})
set_line_buffer b w = (ok tt, record w { line_buffer = b })

-- One round of the loop. Without bytes the server has closed the connection, and the thread closes
-- its side and ends.
unfoldable pub receive_tcp : Config → Bytes → Prog (Unit {0})
receive_tcp cfg [] w = (ok tt, record w { tcp_connected = false })
receive_tcp cfg (c ∷ chunk) w =
    if w.tcp_connected
    then (take_chunk cfg (c ∷ chunk) w.line_buffer >>= set_line_buffer) w
    else (ok tt, w)
