-- ===== src/Serialize.antt =====
-- src/serialize.c. Each function allocates `*out_size` bytes and copies the fields into them at a
-- growing offset; it returns the buffer and `*out_size`.
pub mod Layout
use ipk_projekt.Base.{ℕ, ◌+◌, List, [], ◌∷◌, length, Result, ok, ◌>>=◌}
use ipk_projekt.Memory.{Bytes, Malloc, or_exit, store_all, net16}
use ipk_projekt.Messages.{ConfirmMsg, AuthMsg, JoinMsg, Msg, ErrMsg, ByeMsg}

-- `malloc(*out_size)`, the exit on NULL, and the copies from offset 0 on.
unfoldable pub fill : Malloc → ℕ → List Bytes → Result (Bytes × ℕ)
unfolding store_all
fill malloc out_size pieces = do
  buffer ← or_exit (malloc.alloc out_size)
  written ← store_all buffer 0 pieces
  ok (written, out_size)

abbrev pub nul : Bytes
nul = 0 ∷ []

unfoldable pub serialize_confirm_msg : Malloc → ConfirmMsg → Result (Bytes × ℕ)
serialize_confirm_msg malloc m = fill malloc (1 + 2) ((m.type ∷ []) ∷ net16 m.ref_message_id ∷ [])

unfoldable pub serialize_auth_msg : Malloc → AuthMsg → Result (Bytes × ℕ)
serialize_auth_msg malloc m =
    fill malloc (1 + 2 + length m.username + length m.display_name + length m.secret + 3) (
      (m.type ∷ [])
      ∷ net16 m.message_id
      ∷ m.username
      ∷ nul
      ∷ m.display_name
      ∷ nul
      ∷ m.secret
      ∷ nul
      ∷ [])

unfoldable pub serialize_join_msg : Malloc → JoinMsg → Result (Bytes × ℕ)
serialize_join_msg malloc m =
    fill malloc (1 + 2 + length m.channel_id + length m.display_name + 2)
      ((m.type ∷ []) ∷ net16 m.message_id ∷ m.channel_id ∷ nul ∷ m.display_name ∷ nul ∷ [])

unfoldable pub serialize_msg : Malloc → Msg → Result (Bytes × ℕ)
serialize_msg malloc m =
    fill malloc (1 + 2 + length m.display_name + length m.message_contents + 2)
      ((m.type ∷ []) ∷ net16 m.message_id ∷ m.display_name ∷ nul ∷ m.message_contents ∷ nul ∷ [])

unfoldable pub serialize_err_msg : Malloc → ErrMsg → Result (Bytes × ℕ)
serialize_err_msg malloc m =
    fill malloc (1 + 2 + length m.display_name + length m.message_contents + 2)
      ((m.type ∷ []) ∷ net16 m.message_id ∷ m.display_name ∷ nul ∷ m.message_contents ∷ nul ∷ [])

unfoldable pub serialize_bye_msg : Malloc → ByeMsg → Result (Bytes × ℕ)
serialize_bye_msg malloc m =
    fill malloc (1 + 2 + length m.display_name + 1)
      ((m.type ∷ []) ∷ net16 m.message_id ∷ m.display_name ∷ nul ∷ [])
