-- ===== src/Messages.antt =====
-- src/messages.h and src/messages.c: the message structs of the UDP variant and their constructors.
-- A `char *` field is the text that it points to.
use ipk_projekt.Base.{ℕ, ◌%◌}
use ipk_projekt.Memory.{Bytes}

pub data MsgType : Type 0 where
  confirm reply auth join msg ping err bye : MsgType

-- `MSG_TYPE_VAL`
abbrev pub msg_type_val : MsgType → ℕ
msg_type_val confirm = 0x00
msg_type_val reply = 0x01
msg_type_val auth = 0x02
msg_type_val join = 0x03
msg_type_val msg = 0x04
msg_type_val ping = 0xFD
msg_type_val err = 0xFE
msg_type_val bye = 0xFF

pub record ConfirmMsg : Type 0 where
  pub type : ℕ
  pub ref_message_id : ℕ

pub record ReplyMsg : Type 0 where
  pub type : ℕ
  pub message_id : ℕ
  pub result : ℕ
  pub ref_message_id : ℕ
  pub message_contents : Bytes

pub record AuthMsg : Type 0 where
  pub type : ℕ
  pub message_id : ℕ
  pub username : Bytes
  pub display_name : Bytes
  pub secret : Bytes

pub record JoinMsg : Type 0 where
  pub type : ℕ
  pub message_id : ℕ
  pub channel_id : Bytes
  pub display_name : Bytes

pub record Msg : Type 0 where
  pub type : ℕ
  pub message_id : ℕ
  pub display_name : Bytes
  pub message_contents : Bytes

pub record PingMsg : Type 0 where
  pub type : ℕ
  pub message_id : ℕ

pub record ErrMsg : Type 0 where
  pub type : ℕ
  pub message_id : ℕ
  pub display_name : Bytes
  pub message_contents : Bytes

pub record ByeMsg : Type 0 where
  pub type : ℕ
  pub message_id : ℕ
  pub display_name : Bytes

-- A `uint16_t` parameter takes its argument modulo 2^16.
abbrev pub uint16 : ℕ → ℕ
uint16 n = n % 65536

unfoldable pub create_confirm_msg : ℕ → ConfirmMsg
create_confirm_msg ref_message_id = record {
  type = msg_type_val confirm;
  ref_message_id = uint16 ref_message_id;
}

unfoldable pub create_reply_msg : ℕ → ℕ → ℕ → Bytes → ReplyMsg
create_reply_msg message_id result ref_message_id message_contents = record {
  type = msg_type_val reply;
  message_id = uint16 message_id;
  result = result % 256;
  ref_message_id = uint16 ref_message_id;
  message_contents = message_contents;
}

unfoldable pub create_auth_msg : ℕ → Bytes → Bytes → Bytes → AuthMsg
create_auth_msg message_id username display_name secret = record {
  type = msg_type_val auth;
  message_id = uint16 message_id;
  username = username;
  display_name = display_name;
  secret = secret;
}

unfoldable pub create_join_msg : ℕ → Bytes → Bytes → JoinMsg
create_join_msg message_id channel_id display_name = record {
  type = msg_type_val join;
  message_id = uint16 message_id;
  channel_id = channel_id;
  display_name = display_name;
}

unfoldable pub create_msg : ℕ → Bytes → Bytes → Msg
create_msg message_id display_name message_contents = record {
  type = msg_type_val msg;
  message_id = uint16 message_id;
  display_name = display_name;
  message_contents = message_contents;
}

unfoldable pub create_err_msg : ℕ → Bytes → Bytes → ErrMsg
create_err_msg message_id display_name message_contents = record {
  type = msg_type_val err;
  message_id = uint16 message_id;
  display_name = display_name;
  message_contents = message_contents;
}

unfoldable pub create_bye_msg : ℕ → Bytes → ByeMsg
create_bye_msg message_id display_name = record {
  type = msg_type_val bye;
  message_id = uint16 message_id;
  display_name = display_name;
}

unfoldable pub create_ping_msg : ℕ → PingMsg
create_ping_msg message_id = record { type = msg_type_val ping; message_id = uint16 message_id }
