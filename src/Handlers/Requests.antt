-- ===== src/Handlers/Requests.antt =====
-- `process_received_udp_message` of src/network_udp.c on well-formed MSG, PING, ERR and BYE
-- datagrams: what is printed, what is sent, and how a repeated datagram is treated.
use ipk_projekt.Handlers.{
  duplicate, handle_msg, process_received_udp_message, receive_ping, receive_err, receive_bye,
  receive_msg,
}
use ipk_projekt.World.{
  Config, World, Output, AppState, state_auth, state_open, state_join, chat, continue, error_from,
  Datagram,
}
use ipk_projekt.Ids.Dedup.{IsValid, view, is_message_duplicate-Answers}
use ipk_projekt.Ids.Cells.{elem, elem-append}
use ipk_projekt.Base.{
  ℕ, List, if◌then◌else◌, ◌++◌, ◌≡◌, ◌∷◌, ok, some, [], true, Bool-cases, ap, ◌∙◌, inl, inr,
  ==_self, ◌<◌, ◌⊎◌, ◌≤◌, exits, append_assoc, exit_success, arith, refl,
}
use ipk_projekt.Deserialize.RoundTrip.{
  Succeeds, deserialize_msg-header, deserialize_ping_msg-header, deserialize_err_msg-header,
  deserialize_bye_msg-header,
}
use ipk_projekt.Ids.{Seen}
use ipk_projekt.Udp.Rounds.{Delivers, sent_to, send_confirm_lem}
use ipk_projekt.Memory.{Bytes, IsText}
use ipk_projekt.Serialize.Layout.{header, field}

-- The surroundings in which an answer can be sent.
pub record Answering (cfg : Config) (address : ℕ) (w : World) : Type 0 where
  pub roomy : Succeeds cfg.malloc
  pub delivers : Delivers cfg
  pub resolves : cfg.resolve cfg.hostname w.port ≡ some address

-- The line is printed if the id is new.
abbrev pub shown : ℕ → Output → World → List Output
shown id line w = if elem id (view w.seen) then w.printed else w.printed ++ (line ∷ [])

-- The ids that are known once this one is.
abbrev pub learned : ℕ → List ℕ → List ℕ
learned id ids = if elem id ids then ids else ids ++ (id ∷ [])

pub elem-learned : (id : ℕ) (ids : List ℕ) → elem id (learned id ids) ≡ true
elem-learned id ids = elim (Bool-cases (elem id ids)) [
  | inl old ↦ rw old old
  | inr new ↦ rw (new, elem-append id ids (id ∷ []), ==_self id, new)
]

duplicate_lem :
    (cfg : Config) (id : ℕ) (w : World)
    → Succeeds cfg.malloc
    → IsValid w.seen
    → (s : Seen) × (duplicate cfg id w ≡ (ok (elem id (view w.seen)), record w { seen = s }))
      × IsValid s
      × (view s ≡ learned id (view w.seen))
unfolding duplicate
duplicate_lem cfg id w roomy v =
    let (s, e, v', f) = is_message_duplicate-Answers cfg.malloc w.seen id roomy v in
    (s, rw (e, duplicate), v', f)

-- A MSG datagram, as it stands in the buffer.
abbrev pub msg_buffer : ℕ → Bytes → Bytes → Bytes → Bytes
msg_buffer id name content after = header 0x04 id (field name (field content after))

abbrev pub err_buffer : ℕ → Bytes → Bytes → Bytes → Bytes
err_buffer id name content after = header 0xFE id (field name (field content after))

abbrev pub MsgAllowed : AppState → Type 0
MsgAllowed s = (s ≡ state_auth) ⊎ ((s ≡ state_open) ⊎ (s ≡ state_join))

module _ (cfg : Config) (address id size : ℕ) (name content after : Bytes) (small : id < 65536)
    (name_text : IsText name) (content_text : IsText content) (big : 7 ≤ size) where
  abbrev pub After : Seen → Output → World → World
  After s line w =
      sent_to address (header 0 id []) (record w { seen = s; printed = shown id line w })

  handle_msg_lem :
      (w : World)
      → Answering cfg address w
      → IsValid w.seen
      → (s : Seen) × (handle_msg cfg (msg_buffer id name content after) size w
          ≡ (ok tt, After s (chat name content) w))
        × IsValid s
        × (view s ≡ learned id (view w.seen))
  unfolding handle_msg
  handle_msg_lem w a v =
      let (s, e, v', m) = duplicate_lem cfg id w a.roomy v in
      (
        s,
        rw
            (
              deserialize_msg-header cfg.malloc a.roomy 0x04 id after size name content small
                  name_text content_text big,
              e,
            )
            (elim (Bool-cases (elem id (view w.seen))) [
              | inl old ↦ rw (
                old,
                send_confirm_lem cfg id address (record w { seen = s }) a.roomy a.delivers small
                    a.resolves,
              )
              | inr new ↦ rw (
                new,
                send_confirm_lem cfg id address
                    (record w { seen = s; printed = w.printed ++ (chat name content ∷ []) }) a.roomy
                    a.delivers small a.resolves,
              )
            ]),
        v',
        m,
      )

  -- The type byte and the state lead to `handle_msg`.
  process_msg :
      (w : World)
      → MsgAllowed w.state
      → process_received_udp_message cfg (msg_buffer id name content after) size w
        ≡ handle_msg cfg (msg_buffer id name content after) size w
  unfolding process_received_udp_message receive_msg handle_msg
  process_msg w (inl p) = rw p
  process_msg w (inr (inl p)) = rw p
  process_msg w (inr (inr p)) = rw p

  -- With memory, a network that delivers and a valid table of ids, in AUTH, OPEN and JOIN: a laid out MSG
  -- of 7 bytes at least is printed if its id is new, and confirmed in any case; its id is remembered
  -- beside those that were. Nothing else changes.
  pub process_msg-After :
      (w : World)
      → Answering cfg address w
      → IsValid w.seen
      → MsgAllowed w.state
      → (s : Seen) × (process_received_udp_message cfg (msg_buffer id name content after) size w
          ≡ (ok tt, After s (chat name content) w))
        × IsValid s
        × (view s ≡ learned id (view w.seen))
  process_msg-After w a v p =
      let (s, e, v', m) = handle_msg_lem w a v in (s, process_msg w p ∙ e, v', m)

  -- With memory, a network that delivers and a valid table of ids, in AUTH, OPEN and JOIN: a laid out MSG
  -- of 7 bytes at least that arrives a second time, because its CONFIRM was lost, is confirmed
  -- again and not printed again, and the state stays as it is.
  pub process_msg_twice :
      (w : World)
      → Answering cfg address w
      → IsValid w.seen
      → MsgAllowed w.state
      → let process = process_received_udp_message cfg (msg_buffer id name content after) size in
        let confirmation : Datagram = record { to = address; payload = header 0 id [] } in
        (w' : World) × (continue (process w) (λ _. process) ≡ (ok tt, w'))
        × (w'.printed ≡ shown id (chat name content) w)
        × (w'.sent ≡ w.sent ++ (confirmation ∷ (confirmation ∷ [])))
        × (w'.state ≡ w.state)
  process_msg_twice w a v p =
      let (s, e, v', m) = process_msg-After w a v p in
      let (s2, e2, _, _) =
        process_msg-After (After s (chat name content) w)
          (record { roomy = a.roomy; delivers = a.delivers; resolves = a.resolves }) v' p in
      (
        After s2 (chat name content) (After s (chat name content) w),
        rw (e, e2),
        rw (ap (elem id) m ∙ elem-learned id (view w.seen)),
        append_assoc w.sent _ _,
        refl,
      )

  -- With memory, a network that delivers and a valid table of ids, in every state: a laid out ERR of 7
  -- bytes at least is printed if its id is new, and confirmed; then the process ends with success.
  pub process_err-After :
      (w : World)
      → Answering cfg address w
      → IsValid w.seen
      → (s : Seen) × (process_received_udp_message cfg (err_buffer id name content after) size w
          ≡ (exits exit_success, After s (error_from name content) w))
  unfolding process_received_udp_message receive_err
  process_err-After w a v =
      let (s, e, v', m) = duplicate_lem cfg id w a.roomy v in
      (
        s,
        rw
            (
              deserialize_err_msg-header cfg.malloc a.roomy 0xFE id after size name content small
                  name_text content_text big,
              e,
            )
            (elim (Bool-cases (elem id (view w.seen))) [
              | inl old ↦ rw (
                old,
                send_confirm_lem cfg id address (record w { seen = s }) a.roomy a.delivers small
                    a.resolves,
              )
              | inr new ↦ rw (
                new,
                send_confirm_lem cfg id address
                    (record w { seen = s; printed = w.printed ++ (error_from name content ∷ []) })
                    a.roomy a.delivers small a.resolves,
              )
            ]),
      )

-- With memory and a network that delivers, in every state: a PING and a laid out BYE, of 5 bytes at
-- least, are confirmed; after the BYE the process ends with success.
pub process_ping_bye :
    (cfg : Config) (address id size : ℕ) (name after : Bytes) (w : World)
    → Answering cfg address w
    → id < 65536
    → IsText name
    → 5 ≤ size
    → (process_received_udp_message cfg (header 0xFD id after) size w
        ≡ (ok tt, sent_to address (header 0 id []) w))
      × (process_received_udp_message cfg (header 0xFF id (field name after)) size w
          ≡ (exits exit_success, sent_to address (header 0 id []) w))
unfolding process_received_udp_message receive_ping receive_bye
process_ping_bye cfg address id size name after w a small name_text big = (
  rw (
    deserialize_ping_msg-header cfg.malloc a.roomy 0xFD id after size small (omega arith),
    send_confirm_lem cfg id address w a.roomy a.delivers small a.resolves,
  ),
  rw (
    deserialize_bye_msg-header cfg.malloc a.roomy 0xFF id after size name small name_text big,
    send_confirm_lem cfg id address w a.roomy a.delivers small a.resolves,
  ),
)
