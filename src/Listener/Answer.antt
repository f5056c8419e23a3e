-- ===== src/Listener/Answer.antt =====
-- The server's answer to a message that waits for one: the CONFIRM, and behind it a REPLY, the first
-- that comes from the server's port of its own. src/network_udp.c with src/state_auth.c.
use Prim.Native.Nat.{ℕ}
use ipk_projekt.World.{Config, World, Arrival, action_success, state_open, state_auth, state_join}
use ipk_projekt.Base.{
  ℕ, take, [], ◌<◌, true, ◌≡◌, some, length, ◌∷◌, ◌+◌, false, ◌≤◌, ok, arith, ap, length-append,
  ◌/◌, ◌∙◌, ◌%◌, append_assoc,
}
use ipk_projekt.Memory.{Bytes, IsText}
use ipk_projekt.Deserialize.RoundTrip.{Succeeds}
use ipk_projekt.Listener.{show_decimal, follow_port, receive}
use ipk_projekt.Handlers.Replies.{reply_buffer, answered, expected, process_reply-expected, outcome}
use ipk_projekt.Udp.Rounds.{Delivers}
use ipk_projekt.Deserialize.Safety.{received}
use ipk_projekt.Serialize.Layout.{header}
use ipk_projekt.Listener.Receive.{stale_after, receive-handled, arrived, length-received}
use ipk_projekt.Handlers.{process_received_udp_message}

-- "REPLY" with a positive result, as it arrives.
abbrev pub reply_arrival : ℕ → ℕ → ℕ → Bytes → Arrival
reply_arrival sender id ref content = record {
  sender_port = sender;
  payload = reply_buffer id 1 ref content [];
}

-- The text of the server's port.
abbrev pub port_text : ℕ → Bytes
port_text sender = take 5 (show_decimal 10 sender)

-- After a positive REPLY in AUTH: printed, confirmed to the new port, and the state is OPEN.
abbrev pub opened : ℕ → ℕ → ℕ → Bytes → Bytes → World → World
opened address id sender content buffer w =
    answered address id (action_success content) state_open
      (record w { recv_buffer = buffer; port = port_text sender; has_changed_to_dyn_port = true })

module _ (cfg : Config) (address sender id ref : ℕ) (content : Bytes) (w : World)
    (roomy : Succeeds cfg.malloc) (delivers : Delivers cfg) (small : id < 65536)
    (small_ref : ref < 65536) (text : IsText content)
    (resolves : cfg.resolve cfg.hostname (port_text sender) ≡ some address) where
  abbrev datagram : Bytes
  datagram = reply_buffer id 1 ref content []

  received-reply :
      (stale : Bytes) → received datagram stale ≡ reply_buffer id 1 ref content (0 ∷ stale)
  received-reply stale =
      ap (λ t. header 1 id (1 ∷ (ref / 256 % 256) ∷ (ref % 256) ∷ t))
        (append_assoc content (0 ∷ []) (0 ∷ stale))

  follow_port-reply :
      (v : World)
      → v.has_changed_to_dyn_port ≡ false
      → follow_port cfg 1 sender v
        ≡ (ok tt, record v { port = port_text sender; has_changed_to_dyn_port = true })
  unfolding follow_port
  follow_port-reply v first = let (block, e) = roomy 6 in rw (first, e)

  length-datagram : length datagram ≡ length content + 7
  length-datagram = omega (arith, length-append content (0 ∷ []))

  pub reply-received :
      w.state ≡ state_auth
      → w.has_changed_to_dyn_port ≡ false
      → 1 ≤ length content
      → length content ≤ 59999
      → length content + 7 < length w.recv_buffer
      → (buffer : Bytes) × (receive cfg (reply_arrival sender id ref content) w
          ≡ (ok tt, opened address id sender content buffer w))
        × (length buffer ≡ length w.recv_buffer)
  unfolding expected
  reply-received auth first some_content fits room =
      let stale = stale_after datagram w in
      let v : World = record w {
        recv_buffer = received datagram stale;
        port = port_text sender;
        has_changed_to_dyn_port = true;
      } in
      let processed : process_received_udp_message cfg (received datagram stale) (length datagram) v
          ≡ (ok tt, opened address id sender content (received datagram stale) w) =
        ap (λ b. process_received_udp_message cfg b (length datagram) v) (received-reply stale)
        ∙ process_reply-expected cfg address id 1 ref (length datagram) content (0 ∷ stale) small
            small_ref text (omega (arith, length-datagram)) v
            (record { roomy = roomy; delivers = delivers; resolves = resolves }) (omega arith)
        ∙ rw auth in
      (
        received datagram stale,
        receive-handled cfg sender 1 _ w (omega (arith, length-datagram))
              (omega (arith, length-datagram))
            ∙ rw (follow_port-reply (arrived datagram w) first) processed,
        length-received datagram w (omega (arith, length-datagram)),
      )

-- A REPLY with any result, as it arrives.
abbrev pub join_arrival : ℕ → ℕ → ℕ → ℕ → Bytes → Arrival
join_arrival sender id result ref content = record {
  sender_port = sender;
  payload = reply_buffer id result ref content [];
}

module _ (cfg : Config) (address sender id result ref : ℕ) (content : Bytes) (w : World)
    (roomy : Succeeds cfg.malloc) (delivers : Delivers cfg) (small : id < 65536)
    (small_ref : ref < 65536) (text : IsText content) (small_result : result ≤ 1)
    (resolves : cfg.resolve cfg.hostname w.port ≡ some address) where
  abbrev reply : Bytes
  reply = reply_buffer id result ref content []

  -- In JOIN the REPLY is printed and confirmed, whatever it says, and the state is OPEN again; the port is
  -- kept.
  pub join-received :
      w.state ≡ state_join
      → w.has_changed_to_dyn_port ≡ true
      → 1 ≤ length content
      → length content ≤ 59999
      → length content + 7 < length w.recv_buffer
      → (buffer : Bytes) × (receive cfg (join_arrival sender id result ref content) w ≡ (
        ok tt,
        answered address id (outcome result content) state_open (record w { recv_buffer = buffer }),
      ))
        × (length buffer ≡ length w.recv_buffer)
  unfolding expected follow_port
  join-received in_join changed some_content fits room =
      let stale = stale_after reply w in
      let v : World = record w { recv_buffer = received reply stale } in
      let len : length reply ≡ length content + 7 = omega (arith, length-append content (0 ∷ [])) in
      let whole : received reply stale ≡ reply_buffer id result ref content (0 ∷ stale) =
        ap (λ t. header 1 id (result ∷ (ref / 256 % 256) ∷ (ref % 256) ∷ t))
          (append_assoc content (0 ∷ []) (0 ∷ stale)) in
      let kept : follow_port cfg 1 sender (arrived reply w) ≡ (ok tt, arrived reply w) =
        rw changed in
      let processed : process_received_udp_message cfg (received reply stale) (length reply) v
          ≡ (ok tt, answered address id (outcome result content) state_open v) =
        ap (λ b. process_received_udp_message cfg b (length reply) v) whole
        ∙ process_reply-expected cfg address id result ref (length reply) content (0 ∷ stale) small
            small_ref text (omega (arith, len)) v
            (record { roomy = roomy; delivers = delivers; resolves = resolves }) small_result
        ∙ rw in_join in
      (
        received reply stale,
        receive-handled cfg sender 1 _ w (omega (arith, len)) (omega (arith, len))
            ∙ rw kept processed,
        length-received reply w (omega (arith, len)),
      )
