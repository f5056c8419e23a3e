-- ===== src/Deserialize.antt =====
-- src/deserialize.c. `none` is the NULL that is returned for a buffer that is too small. The struct
-- and each text get a block by `malloc`; the sizes of the structs are those of a 64-bit machine.
-- The buffer may be longer than `buffer_size`: texts are read up to their NUL, wherever it stands.
pub mod RoundTrip
pub mod Safety
pub mod Inverse
use ipk_projekt.Memory.{Malloc, c_str_at, byte_at, host16_at, Bytes, or_exit}
use Prim.Native.Nat.{ℕ}
use ipk_projekt.Base.{Result, Option, ◌>>=◌, if◌then◌else◌, length, ok, ltb, ◌+◌, none, some, fault}
use ipk_projekt.Messages.{ReplyMsg, ByeMsg, ErrMsg, Msg, PingMsg, ConfirmMsg}

-- `malloc(size)`, where only the success matters. On NULL the source frees the buffer before it exits,
-- and the buffer is the array of the listener, which `malloc` did not give out: a fault.
unfoldable pub grab : Malloc → ℕ → Result (Unit {0})
grab malloc size = elim (malloc.alloc size) [ none ↦ fault | some block ↦ ok tt ]

-- `malloc(strlen(&buffer[offset]) + 1)` and `strcpy` into it.
unfoldable pub copy_str : Malloc → Bytes → ℕ → Result Bytes
copy_str malloc buffer offset = do
  s ← c_str_at buffer offset
  grab malloc (length s + 1) >>= λ _. ok s

unfoldable pub deserialize_confirm_msg : Malloc → Bytes → ℕ → Result (Option ConfirmMsg)
unfolding byte_at host16_at
deserialize_confirm_msg malloc buffer buffer_size = if ltb buffer_size (1 + 2) then ok none else do
  _ ← grab malloc 4
  type ← byte_at buffer 0
  ref_message_id ← host16_at buffer 1
  ok (some (record { type = type; ref_message_id = ref_message_id }))

unfoldable pub deserialize_reply_msg : Malloc → Bytes → ℕ → Result (Option ReplyMsg)
unfolding byte_at host16_at
deserialize_reply_msg malloc buffer buffer_size =
    if ltb buffer_size (1 + 2 + 1 + 2 + 1 + 1) then ok none else do
      _ ← grab malloc 16
      type ← byte_at buffer 0
      message_id ← host16_at buffer 1
      result ← byte_at buffer 3
      ref_message_id ← host16_at buffer 4
      message_contents ← copy_str malloc buffer 6
      ok (
          some (record {
            type = type;
            message_id = message_id;
            result = result;
            ref_message_id = ref_message_id;
            message_contents = message_contents;
          }))

unfoldable pub deserialize_msg : Malloc → Bytes → ℕ → Result (Option Msg)
unfolding byte_at host16_at
deserialize_msg malloc buffer buffer_size = if ltb buffer_size (1 + 2 + 2 + 2) then ok none else do
  _ ← grab malloc 24
  type ← byte_at buffer 0
  message_id ← host16_at buffer 1
  display_name ← copy_str malloc buffer 3
  message_contents ← copy_str malloc buffer (3 + (length display_name + 1))
  ok (
      some (record {
        type = type;
        message_id = message_id;
        display_name = display_name;
        message_contents = message_contents;
      }))

unfoldable pub deserialize_err_msg : Malloc → Bytes → ℕ → Result (Option ErrMsg)
unfolding byte_at host16_at
deserialize_err_msg malloc buffer buffer_size =
    if ltb buffer_size (1 + 2 + 2 + 2) then ok none else do
      _ ← grab malloc 24
      type ← byte_at buffer 0
      message_id ← host16_at buffer 1
      display_name ← copy_str malloc buffer 3
      message_contents ← copy_str malloc buffer (3 + (length display_name + 1))
      ok (
          some (record {
            type = type;
            message_id = message_id;
            display_name = display_name;
            message_contents = message_contents;
          }))

unfoldable pub deserialize_bye_msg : Malloc → Bytes → ℕ → Result (Option ByeMsg)
unfolding byte_at host16_at
deserialize_bye_msg malloc buffer buffer_size =
    if ltb buffer_size (1 + 2 + 1 + 1) then ok none else do
      _ ← grab malloc 16
      type ← byte_at buffer 0
      message_id ← host16_at buffer 1
      display_name ← copy_str malloc buffer 3
      ok (some (record { type = type; message_id = message_id; display_name = display_name }))

unfoldable pub deserialize_ping_msg : Malloc → Bytes → ℕ → Result (Option PingMsg)
unfolding byte_at host16_at
deserialize_ping_msg malloc buffer buffer_size = if ltb buffer_size (1 + 2) then ok none else do
  _ ← grab malloc 4
  type ← byte_at buffer 0
  message_id ← host16_at buffer 1
  ok (some (record { type = type; message_id = message_id }))
