-- ===== src/Handlers/Replies.antt =====
-- REPLY datagrams in each state: src/state_auth.c, src/state_open.c, src/state_join.c and the inner
-- switch of src/network_udp.c.
use ipk_projekt.Handlers.{
  process_received_udp_message, handle_reply_msg_state_auth, handle_reply_msg_state_open,
  handle_reply_msg_state_join, receive_reply,
}
use ipk_projekt.Handlers.Requests.{Answering}
use ipk_projekt.World.{
  Config, World, continue, Output, AppState, action_success, action_failure, state_auth, state_open,
  state_join, state_start, unexpected_reply,
}
use ipk_projekt.Base.{
  ℕ, ◌++◌, ◌∷◌, if◌then◌else◌, ◌<◌, ◌/◌, [], ◌==◌, ◌%◌, ◌≤◌, Result, ◌≡◌, ok, exits, exit_success,
  exit_failure, false, ◌⊎◌, Bool-cases, true, arith, inl, inr, refl, ◌∙◌,
}
use ipk_projekt.Memory.{Bytes, IsText}
use ipk_projekt.Udp.Rounds.{sent_to, send_confirm_lem}
use ipk_projekt.Serialize.Layout.{header, field}
use ipk_projekt.Deserialize.RoundTrip.{deserialize_reply_msg-header}
use ipk_projekt.Udp.{send_confirm}

abbrev pub reply_buffer : ℕ → ℕ → ℕ → Bytes → Bytes → Bytes
reply_buffer id result ref content after =
    header 0x01 id (result ∷ (ref / 256 % 256) ∷ (ref % 256) ∷ field content after)

-- The line for a result of 1 or 0.
abbrev pub outcome : ℕ → Bytes → Output
outcome result content = if result == 1 then action_success content else action_failure content

-- The line is printed, the state is set, and the CONFIRM is sent.
abbrev pub answered : ℕ → ℕ → Output → AppState → World → World
answered address id line s w =
    sent_to address (header 0 id []) (record w { printed = w.printed ++ (line ∷ []); state = s })

abbrev pub said : Output → World → World
said line w = record w { printed = w.printed ++ (line ∷ []) }

module _ (cfg : Config) (address id result ref size : ℕ) (content after : Bytes)
    (small : id < 65536) (small_ref : ref < 65536) (content_text : IsText content)
    (big : 8 ≤ size) where
  abbrev pub process : World → Result (Unit {0}) × World
  process w = process_received_udp_message cfg (reply_buffer id result ref content after) size w

  -- What the code does with it, by state.
  unfoldable pub expected : AppState → World → Result (Unit {0}) × World
  expected state_auth w = (
    ok tt,
    answered address id (outcome result content) (if result == 1 then state_open else w.state) w,
  )
  expected state_join w = (ok tt, answered address id (outcome result content) state_open w)
  expected state_open w = (exits exit_success, said (outcome result content) w)
  expected state_start w = (exits exit_failure, said unexpected_reply w)

  result_zero : result ≤ 1 → (result == 1) ≡ false → (result == 0) ≡ true
  result_zero h n = ground arith

  confirmed_after :
      (w : World) (line : Output) (s : AppState)
      → Answering cfg address w
      → send_confirm cfg id (record w { printed = w.printed ++ (line ∷ []); state = s })
        ≡ (ok tt, answered address id line s w)
  confirmed_after w line s a =
      send_confirm_lem cfg id address (record w { printed = w.printed ++ (line ∷ []); state = s })
        a.roomy a.delivers small a.resolves

  receive_reply-expected :
      (s : AppState) (w : World)
      → Answering cfg address w
      → result ≤ 1
      → receive_reply s cfg (reply_buffer id result ref content after) size w ≡ expected s w
  unfolding receive_reply handle_reply_msg_state_auth handle_reply_msg_state_open
      handle_reply_msg_state_join expected
  receive_reply-expected state_start w a h = refl
  receive_reply-expected state_auth w a h =
      rw
        (deserialize_reply_msg-header cfg.malloc a.roomy 0x01 id after size result ref content small
          small_ref content_text big)
        (elim (Bool-cases (result == 1)) [
          | inl e ↦ rw e (confirmed_after w (action_success content) state_open a)
          | inr n ↦ rw (n, result_zero h n) (confirmed_after w (action_failure content) w.state a)
        ])
  receive_reply-expected state_open w a h =
      rw
        (deserialize_reply_msg-header cfg.malloc a.roomy 0x01 id after size result ref content small
          small_ref content_text big)
        (elim (Bool-cases (result == 1)) [ inl e ↦ rw e | inr n ↦ rw (n, result_zero h n) ])
  receive_reply-expected state_join w a h =
      rw
        (deserialize_reply_msg-header cfg.malloc a.roomy 0x01 id after size result ref content small
          small_ref content_text big)
        (elim (Bool-cases (result == 1)) [
          | inl e ↦ rw e (confirmed_after w (action_success content) state_open a)
          | inr n ↦
              rw (n, result_zero h n) (confirmed_after w (action_failure content) state_open a)
        ])

  -- With memory and a network that delivers: a laid out REPLY of 8 bytes at least, with result 1 or 0,
  -- in any state. In AUTH a positive one opens the conversation and a
  -- negative one leaves the client in AUTH; in JOIN both return to OPEN; each is printed and
  -- confirmed. In OPEN any REPLY is printed and ends the process with success, unconfirmed, and in
  -- START it is a failure.
  pub process_reply-expected :
      (w : World) → Answering cfg address w → result ≤ 1 → process w ≡ expected w.state w
  unfolding process_received_udp_message
  process_reply-expected w a h = receive_reply-expected w.state w a h

  -- With memory and a network that delivers: the positive laid out REPLY, of 8 bytes at least, to AUTH or
  -- JOIN that arrives a second time, because its CONFIRM was lost, ends the
  -- process: it is looked at as a new one, in the state OPEN, and it gets no second CONFIRM.
  pub process_reply_twice :
      (w : World)
      → Answering cfg address w
      → result ≡ 1
      → (w.state ≡ state_auth) ⊎ (w.state ≡ state_join)
      → continue (process w) (λ _. process) ≡ (
        exits exit_success,
        said (action_success content) (answered address id (action_success content) state_open w),
      )
  unfolding expected
  process_reply_twice w a one s = rw (first s) second
    where
      h : result ≤ 1
      h = omega arith

      positive : (result == 1) ≡ true
      positive = ground arith

      opened : World
      opened = answered address id (action_success content) state_open w

      first :
          (w.state ≡ state_auth) ⊎ (w.state ≡ state_join)
          → process w ≡ (ok tt, answered address id (action_success content) state_open w)
      first (inl p) = process_reply-expected w a h ∙ rw (p, positive)
      first (inr p) = process_reply-expected w a h ∙ rw (p, positive)

      second : process opened ≡ (exits exit_success, said (action_success content) opened)
      second =
          process_reply-expected opened
            (record { roomy = a.roomy; delivers = a.delivers; resolves = a.resolves }) h
          ∙ rw positive
