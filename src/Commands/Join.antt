-- ===== src/Commands/Join.antt =====
-- `/join` with a valid channel, over UDP and over TCP: src/cmd_join.c up to the JOIN that it sends.
use Prim.Native.Nat.{ℕ}
use ipk_projekt.Udp.Rounds.{uint16-small, Delivers}
use ipk_projekt.Memory.{Bytes, c_str}
use ipk_projekt.Serialize.Layout.{header, field, serialize_join_msg-Gives}
use ipk_projekt.World.{Config, World, state_join}
use ipk_projekt.Base.{
  All, length, ◌≡◌, ◌⊎◌, ◌+◌, [], arith, false, length-append, ◌∷◌, ◌<◌, ok, some, ap, inl, none,
  ◌∙◌, sym, inr, take-all, refl, ◌≤◌, codes, ◌++◌, true,
}
use ipk_projekt.Validation.Charset.{
  validate_id_iff, validate_display_name_iff, IsWordChar, Fits, IsBetween,
}
use ipk_projekt.Deserialize.RoundTrip.{Succeeds}
use ipk_projekt.Commands.Rename.{IsName, strtok_word}
use ipk_projekt.Commands.{cmd_join, send_join, strtok_next, strtok, pointed}
use ipk_projekt.Handlers.{display_name_text}
use ipk_projekt.Messages.{create_join_msg, JoinMsg}
use ipk_projekt.Udp.{send_network_msg_udp}
use ipk_projekt.Listener.{sleep}
use ipk_projekt.Tcp.{send_tcp_join_msg, crlf, send_network_msg_tcp}
use ipk_projekt.TcpListener.Wire.{send_network_msg_tcp_lem}

-- "JOIN" with the channel and the name.
abbrev pub join_packet : ℕ → Bytes → Bytes → Bytes
join_packet id channel name = header 3 id (field channel (field name []))

pub length-join_packet :
    (id : ℕ) (channel name : Bytes)
    → length (join_packet id channel name) ≡ length channel + length name + 5
length-join_packet id channel name =
    omega (arith, length-append channel (0 ∷ field name []), length-append name (0 ∷ []))

id-IsName : (s : Bytes) → All (λ c. IsWordChar c ⊎ (c ≡ 46)) s → IsName s
id-IsName [] h = tt
id-IsName (c ∷ s) (p, h) = (ground arith, id-IsName s h)

-- The client that waits for the REPLY.
abbrev pub joining : World → World
joining w = record (pointed w) { strtok_rest = []; state = state_join }

-- A valid channel is read, and the JOIN is sent under a valid name.
cmd_join-send_join :
    (cfg : Config) (channel name : Bytes) (w : World)
    → Fits 20 (λ c. IsWordChar c ⊎ (c ≡ 46)) channel
    → Fits 20 (IsBetween 0x21 0x7E) name
    → c_str w.display_name ≡ ok name
    → w.strtok_rest ≡ channel
    → cmd_join cfg w ≡ send_join cfg channel (joining w)
unfolding cmd_join strtok_next display_name_text
cmd_join-send_join cfg channel name w channel_ok name_ok called e =
    let read : strtok w.strtok_rest (pointed w)
        ≡ (ok (some channel), record (pointed w) { strtok_rest = [] }) =
      ap (λ s. strtok s (pointed w)) e
      ∙ strtok_word channel (pointed w) (id-IsName channel channel_ok.2) channel_ok.0 in
    rw (
      read,
      take-all 20 channel channel_ok.1,
      (validate_id_iff channel).1 channel_ok,
      called,
      (validate_display_name_iff name).1 name_ok,
    )

module _ (cfg : Config) (channel name : Bytes) (w : World) (roomy : Succeeds cfg.malloc)
    (udp : cfg.use_tcp_protocol ≡ false) (small : w.confirmed.index < 65536)
    (channel_ok : Fits 20 (λ c. IsWordChar c ⊎ (c ≡ 46)) channel)
    (name_ok : Fits 20 (IsBetween 0x21 0x7E) name) (called : c_str w.display_name ≡ ok name) where
  send_join_lem :
      send_join cfg channel (joining w)
      ≡ send_network_msg_udp
          (sleep cfg)
          cfg
          (join_packet w.confirmed.index channel name, length channel + length name + 5)
          (joining w)
  unfolding send_join display_name_text create_join_msg
  send_join_lem =
      let m : JoinMsg = create_join_msg w.confirmed.index channel name in
      elim (serialize_join_msg-Gives cfg.malloc m) [
        | inl (short, _) ↦
            let (block, f) = roomy (length channel + length name + 5) in
            let f' : none ≡ some block = sym short ∙ f in cc
        | inr (r, _) ↦ rw (udp, called, r, uint16-small w.confirmed.index small) refl
      ]

  pub cmd_join_lem :
      w.strtok_rest ≡ channel
      → cmd_join cfg w
        ≡ send_network_msg_udp
            (sleep cfg)
            cfg
            (join_packet w.confirmed.index channel name, length channel + length name + 5)
            (joining w)
  cmd_join_lem e = cmd_join-send_join cfg channel name w channel_ok name_ok called e ∙ send_join_lem

-- "JOIN ... AS ..." with the end of its line.
abbrev pub join_text : Bytes → Bytes → Bytes
join_text channel name = codes "JOIN " ++ (channel ++ (codes " AS " ++ (name ++ crlf)))

length-join_text :
    (channel name : Bytes)
    → length channel ≤ 20
    → length name ≤ 20
    → length (join_text channel name) ≤ 60006
length-join_text channel name h k =
    omega (arith, length-append channel (codes " AS " ++ (name ++ crlf)), length-append name crlf)

-- Over TCP: the state is JOIN before the text is sent.
pub cmd_join_tcp :
    (cfg : Config) (channel name : Bytes) (w : World)
    → Delivers cfg
    → cfg.use_tcp_protocol ≡ true
    → w.tcp_connected ≡ true
    → Fits 20 (λ c. IsWordChar c ⊎ (c ≡ 46)) channel
    → Fits 20 (IsBetween 0x21 0x7E) name
    → c_str w.display_name ≡ ok name
    → w.strtok_rest ≡ channel
    → cmd_join cfg w ≡ (
      ok tt,
      record (joining w) {
        attempts = w.attempts + 1;
        tcp_sent = w.tcp_sent ++ (join_text channel name ∷ []);
      },
    )
unfolding send_join display_name_text send_tcp_join_msg send_network_msg_tcp
cmd_join_tcp cfg channel name w delivers tcp up channel_ok name_ok called e =
    cmd_join-send_join cfg channel name w channel_ok name_ok called e
    ∙ rw
        (
          tcp,
          called,
          take-all 60006 (join_text channel name)
              (length-join_text channel name channel_ok.1 name_ok.1),
        )
        (send_network_msg_tcp_lem cfg (join_text channel name) (joining w) delivers up)
