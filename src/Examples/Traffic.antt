-- ===== src/Examples/Traffic.antt =====
-- The theorems on the sender, the handlers and the listener of src/network_udp.c at concrete messages.
use ipk_projekt.Handlers.{process_received_udp_message}
use ipk_projekt.Ids.{Seen, scan}
use ipk_projekt.Handlers.Failures.{IsUnknown, process_short, err_payload, process_unknown}
use ipk_projekt.Memory.{Bytes, IsText, host16_at}
use ipk_projekt.Udp.{send_network_msg_udp, send_until_confirmed}
use ipk_projekt.Listener.{sleep}
use ipk_projekt.World.{
  World, continue, state_open, state_auth, state_join, malformed_from_server, error_from,
  not_confirmed, action_success,
}
use ipk_projekt.Ids.Dedup.{IsValid}
use ipk_projekt.Base.{
  arith, codes, ◌≡◌, [], ◌∷◌, exits, ok, refl, ◌++◌, true, exit_failure, fault, take, exit_success,
  ◌+◌, replicate, inl,
}
use ipk_projekt.Examples.Setup.{
  udp_config, started, in_state, nick, hi, hi-IsText, plenty-Succeeds, answering, nick-IsText,
}
use ipk_projekt.Serialize.Layout.{header, field}
use ipk_projekt.Handlers.Replies.{
  reply_buffer, expected, said, process_reply-expected, answered, process_reply_twice,
}
use ipk_projekt.Handlers.Requests.{err_buffer, process_err-After}
use ipk_projekt.Listener.Late.{send_until_confirmed-late}
use ipk_projekt.Listener.Delivery.{confirm_arrival, send_until_confirmed-confirm, sleep-Quiet}
use ipk_projekt.Udp.Rounds.{
  sent_to, send_until_confirmed-confirmed, sent_times, counted, send_network_msg_udp_silent,
}
use ipk_projekt.Messages.{ping}

abbrev waiting : World
waiting = started ((confirm_arrival 4567 0 ∷ []) ∷ [])

-- Nothing arrives in the first sleep.
abbrev waiting_longer : World
waiting_longer = started ([] ∷ (confirm_arrival 4567 0 ∷ []) ∷ [])

abbrev packet : Bytes
packet = header 0xFF 0 (field nick [])

send_until_confirmed-late_example :
    (w' : World) × (send_until_confirmed (sleep udp_config) udp_config 4 packet 8 waiting_longer
      ≡ (ok tt, w'))
    × (w'.sent ≡ waiting_longer.sent ++ replicate 2 (record { to = 4; payload = take 8 packet }))
    × (w'.confirmed.index ≡ waiting_longer.confirmed.index + 1)
    × (w'.state ≡ waiting_longer.state)
    × (w'.printed ≡ waiting_longer.printed)
unfolding host16_at scan
send_until_confirmed-late_example =
    send_until_confirmed-late udp_config 4 4567 8 0 packet [] plenty-Succeeds (λ _. refl)
      (omega arith) 1 waiting_longer (omega arith) refl (omega arith)
      (record { sized = refl; nonempty = omega arith }) (omega arith) refl refl

process_reply-expected_example :
    process_received_udp_message udp_config (reply_buffer 3 0 1 hi []) 9 (in_state state_join)
    ≡ expected udp_config 4 3 0 1 9 hi []
        (omega arith)
        (omega arith)
        hi-IsText
        (omega arith)
        state_join
        (in_state state_join)
process_reply-expected_example =
    process_reply-expected udp_config 4 3 0 1 9 hi [] (omega arith) (omega arith) hi-IsText
      (omega arith) (in_state state_join) (answering state_join) (omega arith)

process_reply_twice_example :
    continue
      (process_received_udp_message udp_config (reply_buffer 3 1 1 hi []) 9 (in_state state_auth))
      (λ _. process_received_udp_message udp_config (reply_buffer 3 1 1 hi []) 9)
    ≡ (
      exits exit_success,
      said (action_success hi) (answered 4 3 (action_success hi) state_open (in_state state_auth)),
    )
process_reply_twice_example =
    process_reply_twice udp_config 4 3 1 1 9 hi [] (omega arith) (omega arith) hi-IsText
      (omega arith) (in_state state_auth) (answering state_auth) refl (inl refl)

seen-IsValid : IsValid (started []).seen
seen-IsValid = record { sized = refl; nonempty = omega arith; within = omega arith }

process_err-After_example :
    (s : Seen) × (process_received_udp_message udp_config
        (err_buffer 3 nick hi [])
        11
        (in_state state_open)
      ≡ (
        exits exit_success,
        sent_to 4
            (header 0 3 [])
            (record (in_state state_open) { seen = s; printed = error_from nick hi ∷ [] }),
      ))
process_err-After_example =
    process_err-After udp_config 4 3 11 nick hi [] (omega arith) nick-IsText hi-IsText (omega arith)
      (in_state state_open) (answering state_open) seen-IsValid

process_short_example :
    process_received_udp_message udp_config (0xFD ∷ 0 ∷ []) 2 (in_state state_open)
    ≡ (fault, in_state state_open)
process_short_example =
    process_short udp_config ping 2 (0 ∷ []) (in_state state_open) (omega arith) (λ e. cc)

-- The same message once more, for the world in which it ends.
confirmed_run :
    (w' : World) × (send_until_confirmed (sleep udp_config) udp_config 4 packet 8 waiting
      ≡ (ok tt, w'))
unfolding host16_at
confirmed_run =
    let (w', e, _, _, _, _) =
      send_until_confirmed-confirm udp_config 4 4567 8 0 packet [] waiting plenty-Succeeds
        (λ _. refl) (omega arith) refl (omega arith)
        (record { sized = refl; nonempty = omega arith }) (omega arith) refl in
    (w', e)

send_until_confirmed-confirmed_example :
    scan 0 confirmed_run.0.confirmed.ids confirmed_run.0.confirmed.index ≡ ok true
unfolding host16_at
send_until_confirmed-confirmed_example =
    send_until_confirmed-confirmed (sleep udp_config) udp_config 4 packet 8 0 waiting
      confirmed_run.0 refl confirmed_run.1

send_network_msg_udp_silent_example :
    send_network_msg_udp (sleep udp_config) udp_config (packet, 8) (started []) ≡ (
      exits exit_failure,
      record (sent_times 4 4 packet (counted (started []))) { printed = not_confirmed 0 ∷ [] },
    )
unfolding scan
send_network_msg_udp_silent_example =
    send_network_msg_udp_silent (sleep udp_config) udp_config 4 0xFF 0 8 (field nick [])
      (started []) (sleep-Quiet udp_config) (λ _. refl) refl (λ e. ground arith) (omega arith) refl
      refl

nine-IsUnknown : IsUnknown 9
nine-IsUnknown = (
  (λ e. ground arith),
  (λ e. ground arith),
  (λ e. ground arith),
  (λ e. ground arith),
  (λ e. ground arith),
  (λ e. ground arith),
)

unknown-IsText : IsText (codes "unknown")
unknown-IsText = (
  (λ h. omega arith),
  (
    (λ h. omega arith),
    (
      (λ h. omega arith),
      ((λ h. omega arith), ((λ h. omega arith), ((λ h. omega arith), ((λ h. omega arith), tt)))),
    ),
  ),
)

process_unknown_example :
    (w' : World) × (process_received_udp_message udp_config (header 9 3 []) 3 (in_state state_open)
      ≡ (exits exit_failure, w'))
    × (w'.printed ≡ malformed_from_server ∷ (not_confirmed 0 ∷ []))
    × (w'.sent
        ≡ record { to = 4; payload = header 0 3 [] }
          ∷ replicate 4 (record { to = 4; payload = err_payload 0 (codes "unknown") }))
unfolding scan
process_unknown_example =
    process_unknown udp_config 4 9 3 3 [] (codes "unknown") (replicate 12 0) (in_state state_open)
      (answering state_open) nine-IsUnknown (omega arith) refl unknown-IsText (omega arith) refl
