-- ===== src/Commands/Transitions.antt =====
-- The states that a command of the user can lead to: src/cmd_*.c, called from src/state_*.c.
use ipk_projekt.Commands.{
  cmd_rename, cmd_auth, next_token, cmd_join, send_auth, strtok, set_display_name, send_msg,
  send_join, strtok_next, cmd_msg, cmd_help, unless, drop_spaces, strdup, pointed,
}
use ipk_projekt.World.{
  AppState, Config, state_open, state_auth, print, World, ◌>>◌, state_join, join_needs_argument,
  rename_needs_argument, set_state, get, usage, Arrival, lift, invalid_display_name,
  invalid_username, invalid_channel_id, invalid_content, invalid_secret, auth_needs_arguments,
  no_memory_truncate, truncated_content, no_memory_message, continue,
}
use ipk_projekt.Handlers.{display_name_text}
use ipk_projekt.Tcp.{
  send_tcp_bye_msg, send_network_msg_tcp, send_tcp_join_msg, send_tcp_auth_msg, send_tcp_msg_msg,
}
use ipk_projekt.Memory.{Bytes, store}
use ipk_projekt.Listener.{sleep, listen_next}
use ipk_projekt.Base.{
  ℕ, ◌≡◌, ◌∷◌, List, ok, Result, some, [], take, ◌++◌, replicate, ltb, refl, length, exits, fault,
  Option,
}
use ipk_projekt.World.Keeps.{
  Keeps, bind-Keeps, if-Keeps, print-Keeps, get-Keeps, lift-Keeps, Arrays, Invariant, if-At, At,
}
use ipk_projekt.Udp.{send_network_msg_udp}
use ipk_projekt.Validation.{
  validate_display_name, validate_id, validate_secret, validate_message_content,
  truncate_message_content,
}
use ipk_projekt.Listener.Effects.{send_network_msg_udp-Keeps}
use ipk_projekt.Listener.Transitions.{listen-At}
use ipk_projekt.Serialize.{serialize_auth_msg, serialize_join_msg, serialize_msg}
use ipk_projekt.Messages.{create_msg, create_join_msg, create_auth_msg}
use ipk_projekt.Commands.Moves.{
  by_server, From, Moves, unless-From, bind-From, still, seq-From, if-From, or_print-From,
  Keeps-From, change_channel,
}
use ipk_projekt.States.{Command, join}

module _ (Q : Invariant) where
  next_token-Keeps : (text : Bytes) → Keeps Q (next_token text)
  unfolding next_token
  next_token-Keeps [] = record { holds = λ w q. q }
  next_token-Keeps (c ∷ text) = record { holds = λ w q. q }

  strtok_next-Keeps : Keeps Q strtok_next
  unfolding strtok_next strtok
  strtok_next-Keeps = record {
    holds = λ w q. (next_token-Keeps (drop_spaces w.strtok_rest)).holds (pointed w) q;
  }

  pub strtok-Keeps : (text : Bytes) → Keeps Q (strtok text)
  unfolding strtok
  strtok-Keeps text = next_token-Keeps (drop_spaces text)

  pub display_name_text-Keeps : Keeps Q display_name_text
  unfolding display_name_text
  display_name_text-Keeps = record { holds = λ w q. q }

  -- The new array, stored.
  named-At :
      (text : Bytes) (w : World) (r : Result Bytes)
      → store (replicate 20 0) 0 text ≡ r
      → At Q w
      → At Q (continue (lift r w) (λ array w'. (ok tt, record w' { display_name = array }))).1
  named-At text w (ok array) e q = (
    q.0,
    Q.arrays.set_display_name_lem text w.display_name array w.recv_buffer w.confirmed w.seen e q.1,
  )
  named-At text w (exits status) e q = q
  named-At text w fault e q = q

  set_display_name-Keeps : (name : Bytes) → Keeps Q (set_display_name name)
  unfolding set_display_name
  set_display_name-Keeps name = record {
    holds =
        λ w q. named-At (name ++ (0 ∷ [])) w (store (replicate 20 0) 0 (name ++ (0 ∷ []))) refl q;
  }

  send_tcp-Keeps : (cfg : Config) (message : Bytes) → Keeps Q (send_network_msg_tcp cfg message)
  unfolding send_network_msg_tcp
  send_tcp-Keeps cfg message = record { holds = λ w q. if-At Q w.tcp_connected _ _ q q }

  pub send_tcp_bye_msg-Keeps : (cfg : Config) (name : Bytes) → Keeps Q (send_tcp_bye_msg cfg name)
  unfolding send_tcp_bye_msg
  send_tcp_bye_msg-Keeps cfg name = send_tcp-Keeps cfg _

  pub cmd_help-Keeps : Keeps Q cmd_help
  unfolding cmd_help
  cmd_help-Keeps = print-Keeps Q usage

-- `/rename` and `/help`, in every state.
pub cmd_rename-From : (s : AppState) (Q : Invariant) → Q.on_state s → From s Q cmd_rename
unfolding cmd_rename
cmd_rename-From s Q q =
    bind-From s Q q strtok_next _ (strtok_next-Keeps (still Q.arrays s)) (λ line.
      or_print-From s Q q rename_needs_argument line _ (λ argument.
        unless-From s Q q (validate_display_name (some (take 20 argument))) invalid_display_name _
          (Keeps-From s Q q _ (set_display_name-Keeps Q (take 20 argument)))))

-- The commands that send, from the states in which they are called.
module _ (arrays : Arrays) (cfg : Config) (c : Option Command) (a : AppState) where
  abbrev Q : Invariant
  Q = record { on_state = Moves c a; arrays = arrays }

  pub sleep-Keeps : Keeps Q (sleep cfg)
  unfolding sleep listen_next
  sleep-Keeps = record { holds = λ w q. next w.arrivals w q }
    where
      next :
          (batches : List (List Arrival)) (w : World) → At Q w → At Q (listen_next batches cfg w).1
      next [] w q = q
      next (batch ∷ later) w q =
          let r = listen-At arrays cfg batch (record w { arrivals = later }) q.1 in
          (by_server q.0 r.0, r.1)

  pub send-Keeps : (out : Bytes × ℕ) → Keeps Q (send_network_msg_udp (sleep cfg) cfg out)
  send-Keeps out = send_network_msg_udp-Keeps Q (sleep cfg) cfg out sleep-Keeps

  send_msg-Keeps : (name message : Bytes) → Keeps Q (send_msg cfg name message)
  unfolding send_msg send_tcp_msg_msg
  send_msg-Keeps name message = if-Keeps Q cfg.use_tcp_protocol _ _ (send_tcp-Keeps Q cfg _) (
      bind-Keeps Q get _ (get-Keeps Q) (λ w.
        let out = serialize_msg cfg.malloc (create_msg w.confirmed.index name message) in
        bind-Keeps Q (lift out) _ (lift-Keeps Q out) send-Keeps))

  send_join-Keeps : (channel : Bytes) → Keeps Q (send_join cfg channel)
  unfolding send_join send_tcp_join_msg
  send_join-Keeps channel =
      if-Keeps Q cfg.use_tcp_protocol _ _
        (bind-Keeps Q display_name_text _ (display_name_text-Keeps Q)
          (λ name. send_tcp-Keeps Q cfg _))
        (bind-Keeps Q display_name_text _ (display_name_text-Keeps Q) (λ name.
          bind-Keeps Q get _ (get-Keeps Q) (λ w.
            let out =
              serialize_join_msg cfg.malloc (create_join_msg w.confirmed.index channel name) in
            bind-Keeps Q (lift out) _ (lift-Keeps Q out) send-Keeps)))

  send_auth-From :
      (username secret : Bytes)
      → Moves c a state_auth
      → From state_auth Q (send_auth cfg username secret)
  unfolding send_auth send_tcp_auth_msg
  send_auth-From username secret q =
      let I = still arrays state_auth in
      if-From state_auth Q q cfg.use_tcp_protocol _ _
        (seq-From state_auth Q q (set_state state_auth) _ (record { holds = λ w e. (refl, e.1) })
          (Keeps-From state_auth Q q _ (
            bind-Keeps Q display_name_text _ (display_name_text-Keeps Q)
              (λ name. send_tcp-Keeps Q cfg _))))
        (Keeps-From state_auth Q q _ (
          bind-Keeps Q display_name_text _ (display_name_text-Keeps Q) (λ name.
            bind-Keeps Q get _ (get-Keeps Q) (λ w.
              let out =
                serialize_auth_msg cfg.malloc
                  (create_auth_msg w.confirmed.index username name secret) in
              bind-Keeps Q (lift out) _ (lift-Keeps Q out) send-Keeps))))

  pub cmd_auth-From : Moves c a state_auth → From state_auth Q (cmd_auth cfg)
  unfolding cmd_auth
  cmd_auth-From q =
      let word = strtok_next-Keeps (still arrays state_auth) in
      bind-From state_auth Q q strtok_next _ word (λ line1.
        or_print-From state_auth Q q auth_needs_arguments line1 _ (λ first.
          bind-From state_auth Q q strtok_next _ word (λ line2.
            or_print-From state_auth Q q auth_needs_arguments line2 _ (λ second.
              bind-From state_auth Q q strtok_next _ word (λ line3.
                or_print-From state_auth Q q auth_needs_arguments line3 _
                  (λ third. checked (take 20 first) (take 128 second) (take 20 third)))))))
    where
      checked :
          (username secret name : Bytes)
          → From state_auth Q (
              unless (validate_id (some username)) invalid_username (
                unless (validate_secret (some secret)) invalid_secret (
                  unless
                    (validate_display_name (some name))
                    invalid_display_name
                    (set_display_name name >> send_auth cfg username secret))))
      checked username secret name = unless-From state_auth Q q _ invalid_username _ (
          unless-From state_auth Q q _ invalid_secret _ (
            unless-From state_auth Q q _ invalid_display_name _ (
              seq-From state_auth Q q (set_display_name name) _
                (set_display_name-Keeps (still arrays state_auth) name)
                (send_auth-From username secret q))))

  pub cmd_join-From : c ≡ some join → Moves c a state_open → From state_open Q (cmd_join cfg)
  unfolding cmd_join
  cmd_join-From e0 q =
      let I = still arrays state_open in
      bind-From state_open Q q strtok_next _ (strtok_next-Keeps I) (λ line.
        or_print-From state_open Q q join_needs_argument line _ (λ argument.
          unless-From state_open Q q (validate_id (some (take 20 argument))) invalid_channel_id _ (
            bind-From state_open Q q display_name_text _ (display_name_text-Keeps I) (λ name.
              unless-From state_open Q q (validate_display_name (some name)) invalid_display_name _
                (record {
                  leads = λ w e sound.
                      (send_join-Keeps (take 20 argument)).holds (record w { state = state_join })
                        (change_channel e0 q, sound);
                })))))

  pub cmd_msg-From : (s : AppState) → Moves c a s → From s Q (cmd_msg cfg)
  unfolding cmd_msg
  cmd_msg-From s q =
      let I = still arrays s in
      bind-From s Q q display_name_text _ (display_name_text-Keeps I) (λ name.
        unless-From s Q q (validate_display_name (some name)) invalid_display_name _ (
          bind-From s Q q get _ (get-Keeps I) (λ w.
            unless-From s Q q (validate_message_content (some w.unprocessed_line)) invalid_content _
              (if-From s Q q (ltb 60000 (length w.unprocessed_line)) _ _
                (or_print-From s Q q no_memory_truncate
                  (truncate_message_content cfg.malloc (some w.unprocessed_line)) _
                  (λ message.
                    seq-From s Q q (print truncated_content) _ (print-Keeps I truncated_content)
                      (Keeps-From s Q q _ (send_msg-Keeps name message))))
                (or_print-From s Q q no_memory_message (strdup cfg.malloc w.unprocessed_line) _
                  (λ message. Keeps-From s Q q _ (send_msg-Keeps name message)))))))
