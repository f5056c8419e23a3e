-- ===== src/Handlers/Failures.antt =====
-- Datagrams on which `process_received_udp_message` of src/network_udp.c ends the process or runs
-- into undefined behaviour: unknown types, and datagrams that are too short.
use ipk_projekt.Messages.{
  MsgType, confirm, reply, auth, join, msg, ping, err, bye, msg_type_val, create_err_msg, ErrMsg,
}
use ipk_projekt.Handlers.{
  process_received_udp_message, receive_malformed, receive_confirm, receive_reply, receive_msg,
  receive_ping, receive_err, receive_bye, handle_msg, handle_reply_msg_state_auth,
  handle_reply_msg_state_open, handle_reply_msg_state_join, err_string, dispatch_udp,
  display_name_text,
}
use ipk_projekt.Handlers.Requests.{Answering}
use ipk_projekt.World.{
  Config, World, state_start, AppState, state_auth, state_open, state_join, malformed_from_server,
  not_confirmed,
}
use ipk_projekt.Base.{
  ℕ, ◌<◌, ◌≢◌, ◌∷◌, ◌≡◌, fault, ◌++◌, arith, [], ◌+◌, refl, ok, false, exits, exit_failure,
  replicate, ==_ne, length, inl, none, some, sym, ◌∙◌, inr,
}
use ipk_projekt.Memory.{Bytes, IsText, Malloc, c_str, host16_at}
use ipk_projekt.Serialize.Layout.{header, field, serialize_err_msg-Gives}
use ipk_projekt.Deserialize.Safety.{deserialize_null}
use ipk_projekt.Ids.{scan}
use mathlib.Core.Logic.{◌≢◌}
use ipk_projekt.Deserialize.RoundTrip.{Succeeds, net16-value}
use ipk_projekt.Serialize.{serialize_err_msg}
use ipk_projekt.Udp.Rounds.{
  uint16-small, sent_to, send_confirm_lem, send_network_msg_udp_silent, sent_times, counted,
}
use ipk_projekt.Memory.Laws.{c_str-text}
use ipk_projekt.Udp.{idle}

-- The smallest length that the deserializer of a type accepts; the server sends no AUTH or JOIN.
abbrev pub min_size : MsgType → ℕ
min_size confirm = 3
min_size reply = 8
min_size auth = 0
min_size join = 0
min_size msg = 7
min_size ping = 3
min_size err = 7
min_size bye = 5

module _ (cfg : Config) (buffer : Bytes) (size : ℕ) where
  short_reply :
      (s : AppState) (w : World)
      → size < 8
      → s ≢ state_start
      → receive_reply s cfg buffer size w ≡ (fault, w)
  unfolding receive_reply handle_reply_msg_state_auth handle_reply_msg_state_open
      handle_reply_msg_state_join
  short_reply state_start w h s = absurd (s refl)
  short_reply state_auth w h s = rw ((deserialize_null cfg.malloc buffer size).1.1 h)
  short_reply state_open w h s = rw ((deserialize_null cfg.malloc buffer size).1.1 h)
  short_reply state_join w h s = rw ((deserialize_null cfg.malloc buffer size).1.1 h)

  short_msg :
      (s : AppState) (w : World)
      → size < 7
      → s ≢ state_start
      → receive_msg s cfg buffer size w ≡ (fault, w)
  unfolding receive_msg handle_msg
  short_msg state_start w h s = absurd (s refl)
  short_msg state_auth w h s = rw ((deserialize_null cfg.malloc buffer size).2.1 h)
  short_msg state_open w h s = rw ((deserialize_null cfg.malloc buffer size).2.1 h)
  short_msg state_join w h s = rw ((deserialize_null cfg.malloc buffer size).2.1 h)

-- A datagram of a type that the server may send, shorter than its minimum, is read through NULL: a
-- fault, in every state but START.
pub process_short :
    (cfg : Config) (type : MsgType) (size : ℕ) (rest : Bytes) (w : World)
    → size < min_size type
    → w.state ≢ state_start
    → process_received_udp_message cfg (msg_type_val type ∷ rest) size w ≡ (fault, w)
unfolding process_received_udp_message receive_confirm receive_ping receive_err receive_bye
process_short cfg confirm size rest w h s =
    rw ((deserialize_null cfg.malloc (0x00 ∷ rest) size).0.1 h)
process_short cfg reply size rest w h s = short_reply cfg (0x01 ∷ rest) size w.state w h s
process_short cfg auth size rest w h s = absurd (omega arith)
process_short cfg join size rest w h s = absurd (omega arith)
process_short cfg msg size rest w h s = short_msg cfg (0x04 ∷ rest) size w.state w h s
process_short cfg ping size rest w h s = rw ((deserialize_null cfg.malloc (0xFD ∷ rest) size).5.1 h)
process_short cfg err size rest w h s = rw ((deserialize_null cfg.malloc (0xFE ∷ rest) size).3.1 h)
process_short cfg bye size rest w h s = rw ((deserialize_null cfg.malloc (0xFF ∷ rest) size).4.1 h)

-- The type bytes that have no case in the switch.
abbrev pub IsUnknown : ℕ → Type 0
IsUnknown t = (t ≢ 0x00) × (t ≢ 0x01) × (t ≢ 0x04) × (t ≢ 0xFD) × (t ≢ 0xFE) × (t ≢ 0xFF)

-- The ERR that answers an unknown type.
abbrev pub err_payload : ℕ → Bytes → Bytes
err_payload id name = header 0xFE id (field name (field err_string []))

dispatch_unknown :
    (cfg : Config) (type size : ℕ) (buffer : Bytes) (w : World)
    → IsUnknown type
    → dispatch_udp type cfg buffer size w ≡ receive_malformed cfg buffer w
unfolding dispatch_udp
dispatch_unknown cfg type size buffer w (n0, n1, n4, nd, ne, nf) = rw (
  ==_ne type 0x00 n0,
  ==_ne type 0x01 n1,
  ==_ne type 0x04 n4,
  ==_ne type 0xFD nd,
  ==_ne type 0xFE ne,
  ==_ne type 0xFF nf,
)

-- The serialized ERR, given memory.
serialized_err :
    (malloc : Malloc) (id : ℕ) (name : Bytes)
    → Succeeds malloc
    → id < 65536
    → (size : ℕ) × (serialize_err_msg malloc (create_err_msg id name err_string)
        ≡ ok (err_payload id name, size))
      × (length (err_payload id name) ≡ size)
unfolding create_err_msg
serialized_err malloc id name roomy h =
    rw (uint16-small id h) (elim (serialize_err_msg-Gives malloc plain) [
      | inl (short, _) ↦
          let (block, f) = roomy (length name + length err_string + 5) in
          let f' : none ≡ some block = sym short ∙ f in cc
      | inr (r, len) ↦ (length name + length err_string + 5, r, len)
    ])
  where
    plain : ErrMsg
    plain = record {
      type = 0xFE;
      message_id = id;
      display_name = name;
      message_contents = err_string;
    }

-- With memory, a network that delivers and less than 65536 messages sent so far: an unknown type is
-- answered with a CONFIRM and an ERR. The listener itself waits for the ERR to be
-- confirmed and receives nothing meanwhile: with no earlier confirmation of that id the ERR goes
-- out once for each try, and the process reports it as unconfirmed and fails.
pub process_unknown :
    (cfg : Config) (address type id size : ℕ) (after name rest : Bytes) (w : World)
    → Answering cfg address w
    → IsUnknown type
    → id < 65536
    → w.display_name ≡ name ++ (0 ∷ rest)
    → IsText name
    → w.confirmed.index < 65536
    → scan w.confirmed.index w.confirmed.ids (w.confirmed.index + 1) ≡ ok false
    → (w' : World) × (process_received_udp_message cfg (header type id after) size w
        ≡ (exits exit_failure, w'))
      × (w'.printed
          ≡ (w.printed ++ (malformed_from_server ∷ [])) ++ (not_confirmed w.confirmed.index ∷ []))
      × (w'.sent
          ≡ (w.sent ++ (record { to = address; payload = header 0 id [] } ∷ []))
            ++ replicate
                (cfg.udp_retransmissions + 1)
                (record { to = address; payload = err_payload w.confirmed.index name }))
unfolding process_received_udp_message receive_malformed host16_at display_name_text
process_unknown cfg address type id size after name rest w a u small display text small_err
      none_yet =
    let (packet, e, len) = serialized_err cfg.malloc w.confirmed.index name a.roomy small_err in
    (
      last,
      dispatch_unknown cfg type size (header type id after) w u
          ∙ rw (
            net16-value id small,
            send_confirm_lem cfg id address w1 a.roomy a.delivers small a.resolves,
            read,
            e,
            send_network_msg_udp_silent idle cfg address 0xFE w.confirmed.index packet _ w2
                (λ _ _. refl) a.delivers a.resolves (λ z. ground arith) small_err len none_yet,
          ),
      refl,
      refl,
    )
  where
    w1 : World
    w1 = record w { printed = w.printed ++ (malformed_from_server ∷ []) }

    w2 : World
    w2 = sent_to address (header 0 id []) w1

    last : World
    last =
        record (sent_times (cfg.udp_retransmissions + 1) address
          (err_payload w.confirmed.index name) (counted w2)) {
            printed = w1.printed ++ (not_confirmed w.confirmed.index ∷ []);
          }

    read : c_str w.display_name ≡ ok name
    read = rw display (c_str-text name rest text)
