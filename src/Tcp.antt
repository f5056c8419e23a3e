-- ===== src/Tcp.antt =====
-- The sending half of src/network_tcp.c.
use ipk_projekt.World.{Config, Prog, skip}
use ipk_projekt.Memory.{Bytes}
use ipk_projekt.Base.{
  if◌then◌else◌, codes, ◌∷◌, take, ok, [], ◌++◌, ◌-◌, ◌+◌, fault, same_text, ◌||◌,
}
use ipk_projekt.Listener.{max_msg_size}

-- `snprintf(buffer, MAX_MSG_SIZE, ...)`
abbrev pub formatted : Bytes → Bytes
formatted text = take (max_msg_size - 1) text

abbrev pub crlf : Bytes
crlf = 13 ∷ 10 ∷ []

-- Without a connection, or if `send` fails, nothing is sent and nothing else happens.
unfoldable pub send_network_msg_tcp : Config → Bytes → Prog (Unit {0})
send_network_msg_tcp cfg message w =
    if w.tcp_connected
    then (
      ok tt,
      record w {
        attempts = w.attempts + 1;
        tcp_sent =
            if cfg.sendto_succeeds w.attempts then w.tcp_sent ++ (message ∷ []) else w.tcp_sent;
      },
    )
    else (ok tt, w)

-- "AUTH %s AS %s USING %s\r\n"
unfoldable pub send_tcp_auth_msg : Config → Bytes → Bytes → Bytes → Prog (Unit {0})
send_tcp_auth_msg cfg username display_name secret = send_network_msg_tcp cfg (
    formatted (
      codes "AUTH "
      ++ (username ++ (codes " AS " ++ (display_name ++ (codes " USING " ++ (secret ++ crlf)))))))

-- "JOIN %s AS %s\r\n"
unfoldable pub send_tcp_join_msg : Config → Bytes → Bytes → Prog (Unit {0})
send_tcp_join_msg cfg channel_id display_name =
    send_network_msg_tcp cfg
      (formatted (codes "JOIN " ++ (channel_id ++ (codes " AS " ++ (display_name ++ crlf)))))

-- "MSG FROM %s IS %s\r\n"
unfoldable pub send_tcp_msg_msg : Config → Bytes → Bytes → Prog (Unit {0})
send_tcp_msg_msg cfg display_name message_content =
    send_network_msg_tcp cfg (
      formatted
        (codes "MSG FROM " ++ (display_name ++ (codes " IS " ++ (message_content ++ crlf)))))

-- "BYE FROM %s\r\n"
unfoldable pub send_tcp_bye_msg : Config → Bytes → Prog (Unit {0})
send_tcp_bye_msg cfg display_name =
    send_network_msg_tcp cfg (formatted (codes "BYE FROM " ++ (display_name ++ crlf)))

-- "ERR FROM %s IS %s\r\n"
unfoldable pub send_tcp_err_msg : Config → Bytes → Bytes → Prog (Unit {0})
send_tcp_err_msg cfg display_name message_content =
    send_network_msg_tcp cfg (
      formatted
        (codes "ERR FROM " ++ (display_name ++ (codes " IS " ++ (message_content ++ crlf)))))

-- The structs of src/messages.h that `send_network_msg_tcp_wrapper` is given as a `void *`.
pub data TcpData : Type 0 where
  auth_data : Bytes → Bytes → Bytes → TcpData
  join_data : Bytes → Bytes → TcpData
  msg_data : Bytes → Bytes → TcpData
  bye_data : Bytes → TcpData
  err_data : Bytes → Bytes → TcpData

-- A struct of another type than the text names is a fault.
abbrev wrong_data : Prog (Unit {0})
wrong_data w = (fault, w)

-- A text that names no type at all sends nothing.
abbrev mismatched : Bytes → Prog (Unit {0})
mismatched type =
    if same_text type (codes "AUTH")
      || same_text type (codes "JOIN")
      || same_text type (codes "MSG")
      || same_text type (codes "BYE")
      || same_text type (codes "ERR")
    then wrong_data
    else skip

unfoldable pub send_network_msg_tcp_wrapper : Config → Bytes → TcpData → Prog (Unit {0})
send_network_msg_tcp_wrapper cfg type (auth_data username display_name secret) =
    if same_text type (codes "AUTH")
    then send_tcp_auth_msg cfg username display_name secret
    else mismatched type
send_network_msg_tcp_wrapper cfg type (join_data channel_id display_name) =
    if same_text type (codes "JOIN")
    then send_tcp_join_msg cfg channel_id display_name
    else mismatched type
send_network_msg_tcp_wrapper cfg type (msg_data display_name message_content) =
    if same_text type (codes "MSG")
    then send_tcp_msg_msg cfg display_name message_content
    else mismatched type
send_network_msg_tcp_wrapper cfg type (bye_data display_name) =
    if same_text type (codes "BYE") then send_tcp_bye_msg cfg display_name else mismatched type
send_network_msg_tcp_wrapper cfg type (err_data display_name message_content) =
    if same_text type (codes "ERR")
    then send_tcp_err_msg cfg display_name message_content
    else mismatched type
