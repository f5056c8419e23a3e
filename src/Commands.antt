-- ===== src/Commands.antt =====
-- src/cmd_auth.c, src/cmd_join.c, src/cmd_rename.c, src/cmd_msg.c and src/cmd_help.c, run by the
-- main thread. A local array that is cleared and filled by `strncpy` is the text that it holds.
pub mod Rename
pub mod Moves
pub mod Transitions
pub mod Words
pub mod Login
pub mod Join
pub mod Message
use ipk_projekt.World.{
  Config, Prog, ◌>>=◌, ◌>>◌, lift, print, set_state, usage, Output, join_needs_argument, continue,
  rename_needs_argument, auth_needs_arguments, invalid_display_name, invalid_channel_id, get,
  invalid_content, state_auth, state_join, invalid_username, invalid_secret, no_memory_truncate,
  truncated_content, no_memory_message, World, Line, no_block, in_block,
}
use ipk_projekt.Validation.{
  validate_id, validate_display_name, validate_secret, validate_message_content,
  truncate_message_content, max_display_name_len, max_username_len, max_channel_id_len,
  max_secret_len, max_message_content_len,
}
use ipk_projekt.Base.{
  Option, Bool, true, ◌∷◌, ok, some, none, if◌then◌else◌, false, replicate, take, [], ◌==◌, ◌++◌,
  ltb, length, ◌+◌, ◌-◌,
}
use ipk_projekt.Memory.{Malloc, store, Bytes}
use ipk_projekt.Tcp.{send_tcp_msg_msg, send_tcp_auth_msg, send_tcp_join_msg}
use ipk_projekt.Handlers.{display_name_text}
use ipk_projekt.Messages.{create_msg, create_join_msg, create_auth_msg}
use ipk_projekt.Serialize.{serialize_msg, serialize_join_msg, serialize_auth_msg}
use ipk_projekt.Udp.{send_network_msg_udp}
use ipk_projekt.Listener.{sleep}

unfoldable pub drop_spaces : Bytes → Bytes
drop_spaces [] = []
drop_spaces (c ∷ s) = if c == b' ' then drop_spaces s else c ∷ s

unfoldable pub token : Bytes → Bytes
token [] = []
token (c ∷ s) = if c == b' ' then [] else c ∷ token s

-- What is behind the token and the space that ends it.
unfoldable pub after_token : Bytes → Bytes
after_token [] = []
after_token (c ∷ s) = if c == b' ' then s else after_token s

-- The token of a text that does not begin with a space, NULL at the end of the text.
unfoldable pub next_token : Bytes → Prog (Option Bytes)
next_token [] w = (ok none, record w { strtok_rest = [] })
next_token (c ∷ s) w = (ok (some (token (c ∷ s))), record w { strtok_rest = after_token (c ∷ s) })

-- `strtok(s, " ")`, and `strtok(NULL, " ")` on what is left.
unfoldable pub strtok : Bytes → Prog (Option Bytes)
strtok s = next_token (drop_spaces s)

-- The token that begins with the text, NULL at the end of the line.
abbrev pub token_at : Bytes → Line → Line
token_at [] l = no_block
token_at (c ∷ s) no_block = no_block
token_at (c ∷ s) (in_block offset size end) = in_block (end - length (c ∷ s)) size end

abbrev pub pointed : World → World
pointed w = record w { line = token_at (drop_spaces w.strtok_rest) w.line }

-- `line = strtok(NULL, " ")`
unfoldable pub strtok_next : Prog (Option Bytes)
strtok_next w = strtok w.strtok_rest (pointed w)

-- `if (line == NULL) { print; return; }` and what follows otherwise.
abbrev pub or_print : Output → Option Bytes → (Bytes → Prog (Unit {0})) → Prog (Unit {0})
or_print message none next = print message
or_print message (some line) next = next line

-- `if (!test) { print; return; }`
abbrev pub unless : Bool → Output → Prog (Unit {0}) → Prog (Unit {0})
unless true message next = next
unless false message next = print message

-- `memset(display_name, 0, 20); strcpy(display_name, name);` into the array of 20 bytes.
unfoldable pub set_display_name : Bytes → Prog (Unit {0})
set_display_name name w =
    continue (lift (store (replicate max_display_name_len 0) 0 (name ++ (0 ∷ []))) w)
      (λ array w'. (ok tt, record w' { display_name = array }))

unfoldable pub send_auth : Config → Bytes → Bytes → Prog (Unit {0})
send_auth cfg username secret =
    if cfg.use_tcp_protocol
    then (do
      set_state state_auth
      name ← display_name_text
      send_tcp_auth_msg cfg username name secret)
    else (do
      name ← display_name_text
      w ← get
      out ←
          lift
            (serialize_auth_msg cfg.malloc (create_auth_msg w.confirmed.index username name secret))
      send_network_msg_udp (sleep cfg) cfg out)

unfoldable pub cmd_auth : Config → Prog (Unit {0})
cmd_auth cfg = do
  line1 ← strtok_next
  or_print auth_needs_arguments line1 λ first. do
    line2 ← strtok_next
    or_print auth_needs_arguments line2 λ second. do
      line3 ← strtok_next
      or_print auth_needs_arguments line3 λ third.
          let username = take max_username_len first in
          let secret = take max_secret_len second in
          let temp_display_name = take max_display_name_len third in
          unless (validate_id (some username)) invalid_username (
            unless (validate_secret (some secret)) invalid_secret (
              unless (validate_display_name (some temp_display_name)) invalid_display_name
                (set_display_name temp_display_name >> send_auth cfg username secret)))

unfoldable pub send_join : Config → Bytes → Prog (Unit {0})
send_join cfg channel_id =
    if cfg.use_tcp_protocol
    then (do name ← display_name_text; send_tcp_join_msg cfg channel_id name)
    else (do
      name ← display_name_text
      w ← get
      out ← lift (serialize_join_msg cfg.malloc (create_join_msg w.confirmed.index channel_id name))
      send_network_msg_udp (sleep cfg) cfg out)

unfoldable pub cmd_join : Config → Prog (Unit {0})
cmd_join cfg = do
  line ← strtok_next
  or_print join_needs_argument line λ argument.
      let channel_id = take max_channel_id_len argument in
      unless (validate_id (some channel_id)) invalid_channel_id (do
        name ← display_name_text
        unless (validate_display_name (some name)) invalid_display_name
            (do set_state state_join; send_join cfg channel_id))

unfoldable pub cmd_rename : Prog (Unit {0})
cmd_rename = do
  line ← strtok_next
  or_print rename_needs_argument line λ argument.
      let new_display_name = take max_display_name_len argument in
      unless (validate_display_name (some new_display_name)) invalid_display_name
        (set_display_name new_display_name)

unfoldable pub cmd_help : Prog (Unit {0})
cmd_help = print usage

unfoldable pub send_msg : Config → Bytes → Bytes → Prog (Unit {0})
send_msg cfg name message = if cfg.use_tcp_protocol then send_tcp_msg_msg cfg name message else (do
  w ← get
  out ← lift (serialize_msg cfg.malloc (create_msg w.confirmed.index name message))
  send_network_msg_udp (sleep cfg) cfg out)

-- `strdup`, NULL without memory.
abbrev pub strdup : Malloc → Bytes → Option Bytes
strdup malloc s = elim (malloc.alloc (length s + 1)) [ none ↦ none | some block ↦ some s ]

unfoldable pub cmd_msg : Config → Prog (Unit {0})
cmd_msg cfg = do
  name ← display_name_text
  unless (validate_display_name (some name)) invalid_display_name (do
    w ← get
    unless (validate_message_content (some w.unprocessed_line)) invalid_content (
        if ltb max_message_content_len (length w.unprocessed_line)
        then or_print no_memory_truncate
            (truncate_message_content cfg.malloc (some w.unprocessed_line))
            (λ message. print truncated_content >> send_msg cfg name message)
        else or_print no_memory_message (strdup cfg.malloc w.unprocessed_line)
            (λ message. send_msg cfg name message)))
