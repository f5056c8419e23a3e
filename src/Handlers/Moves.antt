-- ===== src/Handlers/Moves.antt =====
-- The states that a datagram can lead to, whatever its bytes: `process_received_udp_message` of
-- src/network_udp.c with the handlers of REPLY in src/state_auth.c, src/state_open.c and
-- src/state_join.c.
use ipk_projekt.World.{
  AppState, Config, state_auth, state_open, state_join, Output, through, print, ◌>>◌,
  unexpected_reply, exit, state_start, action_success, set_state, action_failure, malformed_reply,
  unexpected_msg, World, malformed_from_server, continue, get, lift, chat, error_from,
}
use ipk_projekt.Memory.{Bytes, host16_at, byte_at}
use Prim.Native.Nat.{ℕ}
use ipk_projekt.Base.{ℕ, exit_failure, ◌==◌, exit_success, Result, ok, exits, fault, ◌≡◌, refl}
use ipk_projekt.Handlers.{
  receive_reply, handle_reply_msg_state_auth, handle_reply_msg_state_open,
  handle_reply_msg_state_join, receive_malformed, receive_bye, receive_msg, display_name_text,
  process_received_udp_message, receive_err, handle_msg, dispatch_udp, receive_confirm,
  receive_ping, duplicate, err_string,
}
use ipk_projekt.World.Keeps.{
  Keeps, bind-Keeps, seq-Keeps, through-Keeps, print-Keeps, if-Keeps, exit-Keeps, get-Keeps,
  skip-Keeps, lift-Keeps, Arrays, Invariant, SoundIn, At, if-At,
}
use ipk_projekt.Deserialize.{
  deserialize_reply_msg, deserialize_bye_msg, deserialize_ping_msg, deserialize_err_msg,
  deserialize_msg, deserialize_confirm_msg,
}
use ipk_projekt.Udp.{send_confirm, send_network_msg_udp, idle}
use ipk_projekt.Listener.Effects.{send_confirm-Keeps, duplicate-Keeps, send_network_msg_udp-Keeps}
use ipk_projekt.Ids.{add_confirmed_msg_id, Confirmed}
use ipk_projekt.Serialize.{serialize_err_msg}
use ipk_projekt.Messages.{create_err_msg}

-- What the server can do to the state of the client.
pub data ByServer : AppState → AppState → Type 0 where
  stay : {s : AppState} → ByServer s s
  accepted : ByServer state_auth state_open
  joined : ByServer state_join state_open

-- ... from the state `s`, with a property of the arrays.
abbrev pub from : Arrays → AppState → Invariant
from arrays s = record { on_state = ByServer s; arrays = arrays }

module _ (arrays : Arrays) (cfg : Config) (buffer : Bytes) (size : ℕ) where
  reply_auth-Keeps : Keeps (from arrays state_auth) (handle_reply_msg_state_auth cfg buffer size)
  unfolding handle_reply_msg_state_auth
  reply_auth-Keeps =
      let Q = from arrays state_auth in
      bind-Keeps Q (through (deserialize_reply_msg cfg.malloc buffer size)) _
        (through-Keeps Q (deserialize_reply_msg cfg.malloc buffer size))
        (λ m.
          seq-Keeps Q _ (send_confirm cfg m.message_id)
            (if-Keeps Q (m.result == 1) _ _
              (seq-Keeps Q (print (action_success m.message_contents)) (set_state state_open)
                (print-Keeps Q (action_success m.message_contents))
                (record { holds = λ w q. (accepted, q.1) }))
              (if-Keeps Q (m.result == 0) _ _ (print-Keeps Q (action_failure m.message_contents)) (
                seq-Keeps Q (print malformed_reply) (exit exit_failure)
                  (print-Keeps Q malformed_reply) (exit-Keeps Q exit_failure))))
            (send_confirm-Keeps Q cfg m.message_id))

  reply_join-Keeps : Keeps (from arrays state_join) (handle_reply_msg_state_join cfg buffer size)
  unfolding handle_reply_msg_state_join
  reply_join-Keeps =
      let Q = from arrays state_join in
      bind-Keeps Q (through (deserialize_reply_msg cfg.malloc buffer size)) _
        (through-Keeps Q (deserialize_reply_msg cfg.malloc buffer size))
        (λ m.
          seq-Keeps Q _ (send_confirm cfg m.message_id)
            (if-Keeps Q (m.result == 1) _ _
              (seq-Keeps Q (print (action_success m.message_contents)) (set_state state_open)
                (print-Keeps Q (action_success m.message_contents))
                (record { holds = λ w q. (joined, q.1) }))
              (if-Keeps Q (m.result == 0) _ _
                (seq-Keeps Q (print (action_failure m.message_contents)) (set_state state_open)
                  (print-Keeps Q (action_failure m.message_contents))
                  (record { holds = λ w q. (joined, q.1) }))
                (seq-Keeps Q (print malformed_reply) (exit exit_failure)
                  (print-Keeps Q malformed_reply) (exit-Keeps Q exit_failure))))
            (send_confirm-Keeps Q cfg m.message_id))

  reply_open-Keeps : (Q : Invariant) → Keeps Q (handle_reply_msg_state_open cfg buffer size)
  unfolding handle_reply_msg_state_open
  reply_open-Keeps Q =
      bind-Keeps Q (through (deserialize_reply_msg cfg.malloc buffer size)) _
        (through-Keeps Q (deserialize_reply_msg cfg.malloc buffer size))
        (λ m.
          seq-Keeps Q _ (send_confirm cfg m.message_id)
            (if-Keeps Q (m.result == 1) _ _
              (says_and_exits (action_success m.message_contents) exit_success)
              (if-Keeps Q (m.result == 0) _ _
                (says_and_exits (action_failure m.message_contents) exit_success)
                (says_and_exits malformed_reply exit_failure)))
            (send_confirm-Keeps Q cfg m.message_id))
    where
      says_and_exits : (line : Output) (status : ℕ) → Keeps Q (print line >> exit status)
      says_and_exits line status =
          seq-Keeps Q (print line) (exit status) (print-Keeps Q line) (exit-Keeps Q status)

  reply-Keeps : (s : AppState) → Keeps (from arrays s) (receive_reply s cfg buffer size)
  unfolding receive_reply
  reply-Keeps state_start =
      seq-Keeps (from arrays state_start) (print unexpected_reply) (exit exit_failure)
        (print-Keeps (from arrays state_start) unexpected_reply)
        (exit-Keeps (from arrays state_start) exit_failure)
  reply-Keeps state_auth = reply_auth-Keeps
  reply-Keeps state_open = reply_open-Keeps (from arrays state_open)
  reply-Keeps state_join = reply_join-Keeps

  module _ (Q : Invariant) where
    -- The result of `add_confirmed_msg_id`, stored.
    recorded-At :
        (id : ℕ) (w : World) (r : Result Confirmed)
        → add_confirmed_msg_id cfg.malloc w.confirmed id ≡ r
        → At Q w
        → At Q (continue (lift r w) (λ c w'. (ok tt, record w' { confirmed = c }))).1
    recorded-At id w (ok c) e q = (
      q.0,
      Q.arrays.add_confirmed_lem cfg.malloc id w.display_name w.recv_buffer w.confirmed c w.seen e
          q.1,
    )
    recorded-At id w (exits status) e q = q
    recorded-At id w fault e q = q

    confirm-Keeps : Keeps Q (receive_confirm cfg buffer size)
    unfolding receive_confirm
    confirm-Keeps =
        bind-Keeps Q (through (deserialize_confirm_msg cfg.malloc buffer size)) _
          (through-Keeps Q (deserialize_confirm_msg cfg.malloc buffer size))
          (λ m. record {
            holds = λ w q.
                recorded-At m.ref_message_id w
                  (add_confirmed_msg_id cfg.malloc w.confirmed m.ref_message_id) refl q;
          })

    handle_msg-Keeps : Keeps Q (handle_msg cfg buffer size)
    unfolding handle_msg
    handle_msg-Keeps =
        bind-Keeps Q (through (deserialize_msg cfg.malloc buffer size)) _
          (through-Keeps Q (deserialize_msg cfg.malloc buffer size))
          (λ m.
            bind-Keeps Q (duplicate cfg m.message_id) _ (duplicate-Keeps Q cfg m.message_id) (λ old.
              seq-Keeps Q _ (send_confirm cfg m.message_id)
                (if-Keeps Q old _ _ (skip-Keeps Q)
                  (print-Keeps Q (chat m.display_name m.message_contents)))
                (send_confirm-Keeps Q cfg m.message_id)))

    msg-Keeps : (s : AppState) → Keeps Q (receive_msg s cfg buffer size)
    unfolding receive_msg
    msg-Keeps state_start = print-Keeps Q unexpected_msg
    msg-Keeps state_auth = handle_msg-Keeps
    msg-Keeps state_open = handle_msg-Keeps
    msg-Keeps state_join = handle_msg-Keeps

    ping-Keeps : Keeps Q (receive_ping cfg buffer size)
    unfolding receive_ping
    ping-Keeps =
        bind-Keeps Q (through (deserialize_ping_msg cfg.malloc buffer size)) _
          (through-Keeps Q (deserialize_ping_msg cfg.malloc buffer size))
          (λ m. send_confirm-Keeps Q cfg m.message_id)

    err-Keeps : Keeps Q (receive_err cfg buffer size)
    unfolding receive_err
    err-Keeps =
        bind-Keeps Q (through (deserialize_err_msg cfg.malloc buffer size)) _
          (through-Keeps Q (deserialize_err_msg cfg.malloc buffer size))
          (λ m.
            bind-Keeps Q (duplicate cfg m.message_id) _ (duplicate-Keeps Q cfg m.message_id) (λ old.
              seq-Keeps Q _ _
                (if-Keeps Q old _ _ (skip-Keeps Q)
                  (print-Keeps Q (error_from m.display_name m.message_contents)))
                (seq-Keeps Q (send_confirm cfg m.message_id) (exit exit_success)
                  (send_confirm-Keeps Q cfg m.message_id) (exit-Keeps Q exit_success))))

    bye-Keeps : Keeps Q (receive_bye cfg buffer size)
    unfolding receive_bye
    bye-Keeps =
        bind-Keeps Q (through (deserialize_bye_msg cfg.malloc buffer size)) _
          (through-Keeps Q (deserialize_bye_msg cfg.malloc buffer size))
          (λ m.
            seq-Keeps Q (send_confirm cfg m.message_id) (exit exit_success)
              (send_confirm-Keeps Q cfg m.message_id) (exit-Keeps Q exit_success))

    name-Keeps : Keeps Q display_name_text
    unfolding display_name_text
    name-Keeps = record { holds = λ w q. q }

    malformed-Keeps : Keeps Q (receive_malformed cfg buffer)
    unfolding receive_malformed
    malformed-Keeps =
        seq-Keeps Q (print malformed_from_server) _ (print-Keeps Q malformed_from_server) (
          bind-Keeps Q (lift (host16_at buffer 1)) _ (lift-Keeps Q (host16_at buffer 1)) (λ id.
            seq-Keeps Q (send_confirm cfg id) _ (send_confirm-Keeps Q cfg id) (
              bind-Keeps Q display_name_text _ name-Keeps (λ name.
                bind-Keeps Q get _ (get-Keeps Q) (λ w.
                  let out =
                    serialize_err_msg cfg.malloc
                      (create_err_msg w.confirmed.index name err_string) in
                  bind-Keeps Q (lift out) _ (lift-Keeps Q out) (λ packet.
                    seq-Keeps Q (send_network_msg_udp idle cfg packet) _
                      (send_network_msg_udp-Keeps Q idle cfg packet (skip-Keeps Q))
                      (record { holds = λ w' q. q })))))))

  dispatch-At :
      (type : ℕ) (w : World)
      → SoundIn arrays w
      → At (from arrays w.state) (dispatch_udp type cfg buffer size w).1
  unfolding dispatch_udp
  dispatch-At type w sound =
      let Q = from arrays w.state in
      let q : At Q w = (stay, sound) in
      if-At Q (type == 0x00) _ _ ((confirm-Keeps Q).holds w q) (
        if-At Q (type == 0x01) _ _ ((reply-Keeps w.state).holds w q) (
          if-At Q (type == 0x04) _ _ ((msg-Keeps Q w.state).holds w q) (
            if-At Q (type == 0xFD) _ _ ((ping-Keeps Q).holds w q) (
              if-At Q (type == 0xFE) _ _ ((err-Keeps Q).holds w q) (
                if-At Q (type == 0xFF) _ _ ((bye-Keeps Q).holds w q)
                  ((malformed-Keeps Q).holds w q))))))

  -- Whatever a datagram holds, and however its handling ends, the state stays as it is, or goes from
  -- AUTH or from JOIN to OPEN, and the arrays stay sound.
  pub process-At :
      (w : World)
      → SoundIn arrays w
      → At (from arrays w.state) (process_received_udp_message cfg buffer size w).1
  unfolding process_received_udp_message
  process-At w sound = first (byte_at buffer 0)
    where
      first :
          (r : Result ℕ)
          → At
              (from arrays w.state)
              (continue (lift r w) (λ type. dispatch_udp type cfg buffer size)).1
      first (ok type) = dispatch-At type w sound
      first (exits status) = (stay, sound)
      first fault = (stay, sound)
