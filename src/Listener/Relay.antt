-- ===== src/Listener/Relay.antt =====
-- A MSG that the server relays, from the socket to the screen: `udp_listener` of src/network_udp.c with
-- `process_received_udp_message`, in the state OPEN.
use Prim.Native.Nat.{ℕ}
use ipk_projekt.Memory.{Bytes, IsText}
use ipk_projekt.World.{Arrival, Config, World, state_open, chat}
use ipk_projekt.Ids.{Seen}
use ipk_projekt.Handlers.Requests.{
  msg_buffer, Answering, process_msg-After, elem-learned, MsgAllowed, shown, learned,
}
use ipk_projekt.Base.{
  ◌<◌, [], length, ◌≡◌, ok, ◌+◌, ◌∷◌, ◌++◌, arith, ap, refl, append_assoc, length-append, false,
  ◌≤◌, ◌∙◌, true, inr, inl,
}
use ipk_projekt.Deserialize.Safety.{received}
use ipk_projekt.Udp.Rounds.{sent_to}
use ipk_projekt.Listener.{follow_port, receive}
use ipk_projekt.Ids.Dedup.{IsValid, view}
use ipk_projekt.Serialize.Layout.{header, field}
use ipk_projekt.Ids.Cells.{elem}
use ipk_projekt.Listener.Receive.{stale_after, receive-handled, arrived, length-received}
use ipk_projekt.Handlers.{process_received_udp_message}

-- A MSG, as it arrives.
abbrev pub msg_arrival : ℕ → ℕ → Bytes → Bytes → Arrival
msg_arrival sender id name content = record {
  sender_port = sender;
  payload = msg_buffer id name content [];
}

-- After a MSG: printed, confirmed, and remembered.
abbrev pub relayed : ℕ → ℕ → Bytes → Bytes → Bytes → Seen → World → World
relayed address id name content buffer seen w = sent_to address (header 0 id []) (record w {
  recv_buffer = buffer;
  seen = seen;
  printed = w.printed ++ (chat name content ∷ []);
})

module _ (cfg : Config) (address sender id : ℕ) (name content : Bytes) (small : id < 65536)
    (name_text : IsText name) (content_text : IsText content) where
  abbrev datagram : Bytes
  datagram = msg_buffer id name content []

  received-msg : (stale : Bytes) → received datagram stale ≡ msg_buffer id name content (0 ∷ stale)
  received-msg stale = ap (header 4 id) (
      append_assoc name (0 ∷ field content []) (0 ∷ stale)
      ∙ ap (λ t. name ++ (0 ∷ t)) (append_assoc content (0 ∷ []) (0 ∷ stale)))

  length-datagram : length datagram ≡ length name + length content + 5
  length-datagram =
      omega (arith, length-append name (0 ∷ field content []), length-append content (0 ∷ []))

  follow_port-msg : (w : World) → follow_port cfg 4 sender w ≡ (ok tt, w)
  unfolding follow_port
  follow_port-msg w = refl

  -- Whether it is new or not.
  pub receive-shown :
      (w : World)
      → Answering cfg address w
      → IsValid w.seen
      → MsgAllowed w.state
      → 2 ≤ length name + length content
      → length name + length content ≤ 60001
      → length name + length content + 5 < length w.recv_buffer
      → (buffer : Bytes) × (seen : Seen) × (receive cfg (msg_arrival sender id name content) w ≡ (
        ok tt,
        sent_to address (header 0 id []) (record w {
          recv_buffer = buffer;
          seen = seen;
          printed = shown id (chat name content) w;
        }),
      ))
        × IsValid seen
        × (view seen ≡ learned id (view w.seen))
        × (length buffer ≡ length w.recv_buffer)
  receive-shown w a v allowed some_text fits room =
      let stale = stale_after datagram w in
      let v1 : World = record w { recv_buffer = received datagram stale } in
      let (seen, e, v', m) =
        process_msg-After cfg address id (length datagram) name content (0 ∷ stale) small name_text
          content_text (omega (arith, length-datagram)) v1
          (record { roomy = a.roomy; delivers = a.delivers; resolves = a.resolves }) v allowed in
      (
        received datagram stale,
        seen,
        receive-handled cfg sender 4 _ w (omega (arith, length-datagram))
              (omega (arith, length-datagram))
            ∙ rw (follow_port-msg (arrived datagram w)) (
                ap (λ b. process_received_udp_message cfg b (length datagram) v1)
                  (received-msg stale)
                ∙ e),
        v',
        m,
        length-received datagram w (omega (arith, length-datagram)),
      )

  pub msg-received :
      (w : World)
      → Answering cfg address w
      → IsValid w.seen
      → w.state ≡ state_open
      → elem id (view w.seen) ≡ false
      → 2 ≤ length name + length content
      → length name + length content ≤ 60001
      → length name + length content + 5 < length w.recv_buffer
      → (buffer : Bytes) × (seen : Seen) × (receive cfg (msg_arrival sender id name content) w
          ≡ (ok tt, relayed address id name content buffer seen w))
        × (elem id (view seen) ≡ true)
  msg-received w a v open' new some_text fits room =
      let (buffer, seen, e, _, m, _) = receive-shown w a v (inr (inl open')) some_text fits room in
      (buffer, seen, e ∙ rw new, ap (elem id) m ∙ elem-learned id (view w.seen))
