-- ===== src/Client/Chat.antt =====
-- A chat message over UDP, from the line that one user enters to the screen of another: src/main.c,
-- src/state_open.c, src/cmd_msg.c, src/serialize.c and src/network_udp.c on one side,
-- src/network_udp.c and src/deserialize.c on the other.
use Prim.Native.Nat.{ℕ}
use ipk_projekt.World.{Config, World, state_open, Arrival, chat}
use ipk_projekt.Client.{main_round}
use ipk_projekt.Memory.{Bytes, c_str}
use ipk_projekt.Base.{
  ℕ, ◌∷◌, length, [], ◌≡◌, ◌+◌, false, arith, ◌<◌, ok, some, ◌∙◌, ◌++◌, take-all, ap, List, take,
  true, refl, ◌≤◌, Result,
}
use ipk_projekt.Handlers.Requests.{Answering}
use ipk_projekt.Deserialize.RoundTrip.{Succeeds}
use ipk_projekt.Validation.Charset.{IsBetween, Fits}
use ipk_projekt.Serialize.Layout.{field, header}
use ipk_projekt.Udp.{send_until_confirmed}
use ipk_projekt.Listener.{sleep, receive}
use ipk_projekt.Udp.Rounds.{send_network_msg_udp_lem, Delivers, sent_to}
use ipk_projekt.Client.Entry.{IsMessage, message_line_lem, message_line, message_taken}
use ipk_projekt.Ids.Dedup.{view}
use ipk_projekt.Ids.Confirm.{IsValid}
use ipk_projekt.Listener.Delivery.{confirm_arrival, send_until_confirmed_once}
use ipk_projekt.Listener.Relay.{msg_arrival, msg-received, relayed}
use ipk_projekt.Memory.Laws.{host16_at-net16}
use ipk_projekt.Ids.Cells.{elem}
use ipk_projekt.Commands.Rename.{name-IsText}
use ipk_projekt.Commands.Message.{content-IsText, msg_packet, length-msg_packet, send_msg_lem}
use ipk_projekt.Ids.{Confirmed}
use ipk_projekt.Ids.Dedup

module _ (cfg : Config) (name : Bytes) (c : ℕ) (s : Bytes) (roomy : Succeeds cfg.malloc)
    (udp : cfg.use_tcp_protocol ≡ false) (name_ok : Fits 20 (IsBetween 0x21 0x7E) name)
    (message : IsMessage (c ∷ s)) where
  abbrev line : Bytes
  line = message_line c s

  abbrev taken : World → World
  taken = message_taken c s

  -- What the line makes of a client in OPEN with this name: the MSG is sent until it is confirmed.
  main_round-msg :
      (address : ℕ) (w : World)
      → w.state ≡ state_open
      → w.confirmed.index < 65536
      → c_str w.display_name ≡ ok name
      → cfg.resolve cfg.hostname w.port ≡ some address
      → main_round cfg line w
        ≡ send_until_confirmed
            (sleep cfg)
            cfg
            address
            (msg_packet w.confirmed.index name (c ∷ s))
            (length name + length (c ∷ s) + 5)
            (taken w)
  main_round-msg address w open' small called resolves =
      message_line_lem cfg name c s w roomy name_ok message open' called
      ∙ send_msg_lem cfg name (c ∷ s) (taken w) roomy udp small
      ∙ send_network_msg_udp_lem (sleep cfg) cfg address 4 w.confirmed.index
          (length name + length (c ∷ s) + 5) (field name (field (c ∷ s) [])) (taken w) resolves
          (λ e. omega arith)

  -- A client in OPEN that goes by the name, whose MSG is confirmed during the first sleep.
  pub record CanSend (address port : ℕ) (w : World) : Type 0 where
    pub in_open : w.state ≡ state_open
    pub small : w.confirmed.index < 65536
    pub called : c_str w.display_name ≡ ok name
    pub resolves : cfg.resolve cfg.hostname w.port ≡ some address
    pub room : 3 < length w.recv_buffer
    pub valid : IsValid w.confirmed
    pub cell : w.confirmed.index < w.confirmed.array_size
    pub later : List (List Arrival)
    pub confirmed_next : w.arrivals ≡ (confirm_arrival port w.confirmed.index ∷ []) ∷ later

  -- The client after its MSG was confirmed.
  abbrev pub confirmed_in : ℕ → Bytes → List (List Arrival) → Bytes → Confirmed → World → World
  confirmed_in address packet later b ids w = record (sent_to address packet (taken w)) {
    arrivals = later;
    recv_buffer = b;
    confirmed = ids;
  }

  pub line-confirmed :
      (address port : ℕ) (w : World)
      → Delivers cfg
      → (can : CanSend address port w)
      → (ids : Confirmed) × (b : Bytes) × (main_round cfg line w ≡ (
        ok tt,
        confirmed_in address (msg_packet w.confirmed.index name (c ∷ s)) can.later b ids w,
      ))
        × (ids.index ≡ w.confirmed.index + 1)
        × (length b ≡ length w.recv_buffer)
        × (w.confirmed.array_size ≤ ids.array_size)
        × IsValid ids
  line-confirmed address port w delivers can =
      let size : ℕ = length name + length (c ∷ s) + 5 in
      let packet : Bytes = msg_packet w.confirmed.index name (c ∷ s) in
      let whole : take size packet ≡ packet =
        take-all size packet (omega (arith, length-msg_packet w.confirmed.index name (c ∷ s))) in
      let (ids, b, e, i, l, a, v) =
        send_until_confirmed_once cfg address port size w.confirmed.index packet can.later (taken w)
          roomy delivers can.small
          (host16_at-net16 (4 ∷ []) (field name (field (c ∷ s) [])) w.confirmed.index 1 refl
            can.small)
          can.room (record { sized = can.valid.sized; nonempty = can.valid.nonempty }) can.cell
          can.confirmed_next in
      (
        ids,
        b,
        main_round-msg address w can.in_open can.small can.called can.resolves
            ∙ e
            ∙ ap {B = Result (Unit {0}) × World}
                (λ p. (ok tt, confirmed_in address p can.later b ids w)) whole,
        i,
        l,
        a,
        v,
      )

  -- The MSG, sent once and confirmed.
  abbrev Sends : ℕ → World → Type 0
  Sends address w =
      (w' : World) × (main_round cfg line w ≡ (ok tt, w'))
      × (w'.sent
          ≡ w.sent
            ++ (record { to = address; payload = msg_packet w.confirmed.index name (c ∷ s) } ∷ []))
      × (w'.confirmed.index ≡ w.confirmed.index + 1)
      × (w'.state ≡ state_open)
      × (w'.printed ≡ w.printed)

  line-Sends :
      (address port : ℕ) (w : World) → Delivers cfg → CanSend address port w → Sends address w
  line-Sends address port w delivers can =
      let (ids, b, e, i, _, _, _) = line-confirmed address port w delivers can in
      (_, e, refl, i, can.in_open, refl)

  -- Another client in OPEN, to which the MSG is new.
  pub record CanShow (cfg' : Config) (address id : ℕ) (v : World) : Type 0 where
    pub in_open : v.state ≡ state_open
    pub answering : Answering cfg' address v
    pub valid : ipk_projekt.Ids.Dedup.IsValid v.seen
    pub new : elem id (view v.seen) ≡ false
    pub room : length name + length (c ∷ s) + 5 < length v.recv_buffer

  -- A message over UDP from one user to another: a line in OPEN that is not empty, begins neither with a
  -- space nor with a slash and holds at most 59981 printable characters, from a client with a valid
  -- display name, goes out once, as the MSG with this name and this text, when its CONFIRM comes
  -- during the first sleep; the sender stays in OPEN and prints nothing. Another client in OPEN that
  -- receives this MSG, under whatever new id of 16 bits the server relays it, prints the name and
  -- the text, confirms that id and remembers it. There is memory, the networks deliver, the buffers
  -- have room and the tables of ids are valid.
  pub send_and_show :
      (cfg' : Config) (address port address' port' id : ℕ) (w v : World)
      → Delivers cfg
      → CanSend address port w
      → id < 65536
      → CanShow cfg' address' id v
      → Sends address w
        × (v' : World) × (receive cfg' (msg_arrival port' id name (c ∷ s)) v ≡ (ok tt, v'))
        × (v'.printed ≡ v.printed ++ (chat name (c ∷ s) ∷ []))
        × (v'.sent ≡ v.sent ++ (record { to = address'; payload = header 0 id [] } ∷ []))
        × (elem id (view v'.seen) ≡ true)
        × (v'.state ≡ v.state)
  send_and_show cfg' address port address' port' id w v delivers can small shows =
      let (_, _, chars, short) = message in
      let (buffer, seen, e, m) =
        msg-received cfg' address' port' id name (c ∷ s) small (name-IsText name name_ok.2)
          (content-IsText (c ∷ s) chars) v shows.answering shows.valid shows.in_open shows.new
          (omega (arith, name_ok.0)) (omega (arith, name_ok.1, short)) shows.room in
      (
        line-Sends address port w delivers can,
        relayed address' id name (c ∷ s) buffer seen v,
        e,
        refl,
        refl,
        m,
        refl,
      )
