-- ===== src/Commands/Message.antt =====
-- `cmd_msg` of src/cmd_msg.c over UDP: what a text in OPEN makes it send.
use Prim.Native.Nat.{ℕ}
use ipk_projekt.World.{Config, World}
use ipk_projekt.Memory.{Bytes, IsText, c_str, Malloc}
use ipk_projekt.Base.{
  ℕ, ◌∷◌, length, All, [], ◌≡◌, ◌⊎◌, ◌+◌, false, arith, ◌<◌, length-append, ◌≤◌, ok, ltb, inl, none,
  some, sym, ◌∙◌, inr, true,
}
use ipk_projekt.Handlers.Requests.{msg_buffer}
use ipk_projekt.Deserialize.RoundTrip.{Succeeds}
use ipk_projekt.Validation.Charset.{
  IsBetween, Fits, validate_display_name_iff, validate_message_content_iff,
}
use ipk_projekt.Serialize.Layout.{field, serialize_msg-Gives}
use ipk_projekt.Commands.{cmd_msg, send_msg, strdup}
use ipk_projekt.Handlers.{display_name_text}
use ipk_projekt.Messages.{create_msg, Msg}
use ipk_projekt.Udp.{send_network_msg_udp}
use ipk_projekt.Listener.{sleep}
use ipk_projekt.Udp.Rounds.{uint16-small}
use ipk_projekt.Tcp.{send_tcp_msg_msg}

pub content-IsText : (s : Bytes) → All (λ d. (d ≡ 0x0A) ⊎ IsBetween 0x20 0x7E d) s → IsText s
content-IsText [] h = tt
content-IsText (c ∷ s) (p, h) = ((λ z. ground arith), content-IsText s h)

strdup_lem : (malloc : Malloc) (s : Bytes) → Succeeds malloc → strdup malloc s ≡ some s
strdup_lem malloc s roomy = let (block, e) = roomy (length s + 1) in rw (e, strdup)

-- The MSG that carries it.
abbrev pub msg_packet : ℕ → Bytes → Bytes → Bytes
msg_packet id name text = msg_buffer id name text []

pub length-msg_packet :
    (id : ℕ) (name text : Bytes) → length (msg_packet id name text) ≡ length name + length text + 5
length-msg_packet id name text =
    omega (arith, length-append name (0 ∷ field text []), length-append text (0 ∷ []))

-- A valid text is sent under a valid name.
pub cmd_msg-send_msg :
    (cfg : Config) (name : Bytes) (w : World)
    → Succeeds cfg.malloc
    → Fits 20 (IsBetween 0x21 0x7E) name
    → c_str w.display_name ≡ ok name
    → (1 ≤ length w.unprocessed_line)
      × All (λ d. (d ≡ 0x0A) ⊎ IsBetween 0x20 0x7E d) w.unprocessed_line
    → length w.unprocessed_line ≤ 59981
    → cmd_msg cfg w ≡ send_msg cfg name w.unprocessed_line w
unfolding cmd_msg display_name_text
cmd_msg-send_msg cfg name w roomy name_ok called h short =
    let fits : ltb 60000 (length w.unprocessed_line) ≡ false = ground arith in
    rw (
      called,
      (validate_display_name_iff name).1 name_ok,
      (validate_message_content_iff w.unprocessed_line).1 h,
      fits,
      strdup_lem cfg.malloc w.unprocessed_line roomy,
    )

-- Over UDP the MSG is laid out and sent.
pub send_msg_lem :
    (cfg : Config) (name text : Bytes) (w : World)
    → Succeeds cfg.malloc
    → cfg.use_tcp_protocol ≡ false
    → w.confirmed.index < 65536
    → send_msg cfg name text w
      ≡ send_network_msg_udp
          (sleep cfg)
          cfg
          (msg_packet w.confirmed.index name text, length name + length text + 5)
          w
unfolding send_msg create_msg
send_msg_lem cfg name text w roomy udp small =
    let m : Msg = create_msg w.confirmed.index name text in
    elim (serialize_msg-Gives cfg.malloc m) [
      | inl (short, _) ↦
          let (block, f) = roomy (length name + length text + 5) in
          let f' : none ≡ some block = sym short ∙ f in cc
      | inr (r, _) ↦ rw (udp, r, uint16-small w.confirmed.index small)
    ]

-- Over TCP it is a line.
pub send_msg-send_tcp_msg_msg :
    (cfg : Config) (name text : Bytes) (w : World)
    → cfg.use_tcp_protocol ≡ true
    → send_msg cfg name text w ≡ send_tcp_msg_msg cfg name text w
unfolding send_msg
send_msg-send_tcp_msg_msg cfg name text w tcp = rw tcp
