-- ===== src/Handlers.antt =====
-- The receiving side: the handlers of REPLY in src/state_auth.c, src/state_open.c and
-- src/state_join.c, and `process_received_udp_message` of src/network_udp.c.
pub mod Requests
pub mod Replies
pub mod Failures
pub mod Moves
use ipk_projekt.World.{
  Config, Prog, ◌>>=◌, ◌>>◌, skip, exit, get, lift, through, print, set_state, AppState,
  unexpected_reply, unexpected_msg, error_from, state_start, chat, action_success, state_auth,
  action_failure, malformed_from_server, state_open, state_join, malformed_reply,
}
use ipk_projekt.Memory.{byte_at, c_str, Bytes, host16_at}
use Prim.Native.Nat.{ℕ}
use ipk_projekt.Ids.{is_message_duplicate, add_confirmed_msg_id}
use ipk_projekt.Udp.{send_confirm, send_network_msg_udp, idle}
use ipk_projekt.Base.{
  ℕ, if◌then◌else◌, codes, Bool, exit_success, ◌==◌, exit_failure, ok, exits, fault,
}
use ipk_projekt.Deserialize.{
  deserialize_err_msg, deserialize_bye_msg, deserialize_reply_msg, deserialize_ping_msg,
  deserialize_confirm_msg, deserialize_msg,
}
use ipk_projekt.Messages.{create_err_msg}
use ipk_projekt.Serialize.{serialize_err_msg}

unfoldable pub handle_reply_msg_state_auth : Config → Bytes → ℕ → Prog (Unit {0})
handle_reply_msg_state_auth cfg buffer length = do
  reply_msg ← through (deserialize_reply_msg cfg.malloc buffer length)
  if reply_msg.result == 1
      then (do print (action_success reply_msg.message_contents); set_state state_open)
      else if reply_msg.result == 0
      then print (action_failure reply_msg.message_contents)
      else (do print malformed_reply; exit exit_failure)
  send_confirm cfg reply_msg.message_id

-- Every branch exits, so the CONFIRM that the source has behind them is never sent.
unfoldable pub handle_reply_msg_state_open : Config → Bytes → ℕ → Prog (Unit {0})
handle_reply_msg_state_open cfg buffer length = do
  reply_msg ← through (deserialize_reply_msg cfg.malloc buffer length)
  if reply_msg.result == 1
      then (do print (action_success reply_msg.message_contents); exit exit_success)
      else if reply_msg.result == 0
      then (do print (action_failure reply_msg.message_contents); exit exit_success)
      else (do print malformed_reply; exit exit_failure)
  send_confirm cfg reply_msg.message_id

unfoldable pub handle_reply_msg_state_join : Config → Bytes → ℕ → Prog (Unit {0})
handle_reply_msg_state_join cfg buffer length = do
  reply_msg ← through (deserialize_reply_msg cfg.malloc buffer length)
  if reply_msg.result == 1
      then (do print (action_success reply_msg.message_contents); set_state state_open)
      else if reply_msg.result == 0
      then (do print (action_failure reply_msg.message_contents); set_state state_open)
      else (do print malformed_reply; exit exit_failure)
  send_confirm cfg reply_msg.message_id

-- `is_message_duplicate` on the listener's memory.
unfoldable pub duplicate : Config → ℕ → Prog Bool
duplicate cfg id w = elim (is_message_duplicate cfg.malloc w.seen id) [
  | ok (seen, answer) ↦ (ok answer, record w { seen = seen })
  | exits status ↦ (exits status, w)
  | fault ↦ (fault, w)
]

-- case 0x00
unfoldable pub receive_confirm : Config → Bytes → ℕ → Prog (Unit {0})
receive_confirm cfg buffer length = do
  con_msg ← through (deserialize_confirm_msg cfg.malloc buffer length)
  w ← get
  confirmed ← lift (add_confirmed_msg_id cfg.malloc w.confirmed con_msg.ref_message_id)
  λ w'. (ok tt, record w' { confirmed = confirmed })

-- case 0x01
unfoldable pub receive_reply : AppState → Config → Bytes → ℕ → Prog (Unit {0})
receive_reply state_start cfg buffer length = do print unexpected_reply; exit exit_failure
receive_reply state_auth cfg buffer length = handle_reply_msg_state_auth cfg buffer length
receive_reply state_open cfg buffer length = handle_reply_msg_state_open cfg buffer length
receive_reply state_join cfg buffer length = handle_reply_msg_state_join cfg buffer length

-- case 0x04 in the states AUTH, OPEN and JOIN
unfoldable pub handle_msg : Config → Bytes → ℕ → Prog (Unit {0})
handle_msg cfg buffer length = do
  msg ← through (deserialize_msg cfg.malloc buffer length)
  old ← duplicate cfg msg.message_id
  if old then skip else print (chat msg.display_name msg.message_contents)
  send_confirm cfg msg.message_id

-- case 0x04
unfoldable pub receive_msg : AppState → Config → Bytes → ℕ → Prog (Unit {0})
receive_msg state_start cfg buffer length = print unexpected_msg
receive_msg state_auth cfg buffer length = handle_msg cfg buffer length
receive_msg state_open cfg buffer length = handle_msg cfg buffer length
receive_msg state_join cfg buffer length = handle_msg cfg buffer length

-- case 0xFD
unfoldable pub receive_ping : Config → Bytes → ℕ → Prog (Unit {0})
receive_ping cfg buffer length = do
  ping_msg ← through (deserialize_ping_msg cfg.malloc buffer length)
  send_confirm cfg ping_msg.message_id

-- case 0xFE
unfoldable pub receive_err : Config → Bytes → ℕ → Prog (Unit {0})
receive_err cfg buffer length = do
  err_msg ← through (deserialize_err_msg cfg.malloc buffer length)
  old ← duplicate cfg err_msg.message_id
  if old then skip else print (error_from err_msg.display_name err_msg.message_contents)
  send_confirm cfg err_msg.message_id
  exit exit_success

-- case 0xFF
unfoldable pub receive_bye : Config → Bytes → ℕ → Prog (Unit {0})
receive_bye cfg buffer length = do
  bye_msg ← through (deserialize_bye_msg cfg.malloc buffer length)
  send_confirm cfg bye_msg.message_id
  exit exit_success

-- The text of `display_name`, up to its NUL.
unfoldable pub display_name_text : Prog Bytes
display_name_text w = (c_str w.display_name, w)

-- "received malformed message from server"
abbrev pub err_string : Bytes
err_string = codes "received malformed message from server"

-- A second `free` of the same block.
abbrev double_free : Prog (Unit {0})
double_free w = (fault, w)

-- default. The sender has freed the ERR when it returns, and it is freed again here; the
-- `exit(EXIT_FAILURE)` behind that is not reached.
unfoldable pub receive_malformed : Config → Bytes → Prog (Unit {0})
receive_malformed cfg buffer = do
  print malformed_from_server
  msg_id ← lift (host16_at buffer 1)
  send_confirm cfg msg_id
  name ← display_name_text
  w ← get
  out ← lift (serialize_err_msg cfg.malloc (create_err_msg w.confirmed.index name err_string))
  send_network_msg_udp idle cfg out
  double_free

-- The switch on the type byte; the state is read when the message is handled.
unfoldable pub dispatch_udp : ℕ → Config → Bytes → ℕ → Prog (Unit {0})
dispatch_udp type cfg buffer length w =
    if type == 0x00
    then receive_confirm cfg buffer length w
    else if type == 0x01
    then receive_reply w.state cfg buffer length w
    else if type == 0x04
    then receive_msg w.state cfg buffer length w
    else if type == 0xFD
    then receive_ping cfg buffer length w
    else if type == 0xFE
    then receive_err cfg buffer length w
    else if type == 0xFF
    then receive_bye cfg buffer length w
    else receive_malformed cfg buffer w

unfoldable pub process_received_udp_message : Config → Bytes → ℕ → Prog (Unit {0})
unfolding dispatch_udp byte_at
process_received_udp_message cfg buffer length = do
  type ← lift (byte_at buffer 0)
  dispatch_udp type cfg buffer length
