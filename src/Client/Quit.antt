-- ===== src/Client/Quit.antt =====
-- The end of a session over UDP: `graceful_quit` of src/main.c, at the end of the input and on SIGINT, with
-- `send_network_msg_udp` of src/network_udp.c.
use Prim.Native.Nat.{ℕ}
use ipk_projekt.Memory.{Bytes, c_str}
use ipk_projekt.Listener.{sleep}
use ipk_projekt.Serialize.Layout.{header, field, serialize_bye_msg-Gives}
use ipk_projekt.World.{◌>>◌, Config, World, continue, Arrival, not_confirmed, exit}
use ipk_projekt.Client.{
  Event, input, datagrams, tcp_bytes, step, run, end_of_input, input_error, graceful_quit,
  interrupt, send_bye,
}
use ipk_projekt.Base.{
  length, ◌≡◌, ◌+◌, [], false, arith, length-append, ok, ◌∷◌, ◌<◌, some, refl, List, exits,
  exit_success, inl, none, sym, ◌∙◌, inr, exit_failure, ◌++◌, take, take-all, ap, Bool,
  if◌then◌else◌,
}
use ipk_projekt.Deserialize.RoundTrip.{Succeeds}
use ipk_projekt.Udp.Rounds.{
  Delivers, uint16-small, sent_times, counted, send_network_msg_udp_silent,
  send_network_msg_udp_lem,
}
use ipk_projekt.Handlers.{display_name_text}
use ipk_projekt.Messages.{create_bye_msg, ByeMsg}
use ipk_projekt.Udp.{send_network_msg_udp}
use ipk_projekt.World.Laws.{continue-continue}
use ipk_projekt.Ids.{scan}
use ipk_projekt.Ids.Confirm.{IsValid}
use ipk_projekt.Listener.Delivery.{confirm_arrival, send_until_confirmed-confirm, sleep-Quiet}
use ipk_projekt.Memory.Laws.{host16_at-net16}

-- The events that make the client quit.
abbrev pub Quits : Event → Type 0
Quits (input line) = ⊥
Quits end_of_input = Unit
Quits input_error = ⊥
Quits interrupt = Unit
Quits (datagrams batch) = ⊥
Quits (tcp_bytes chunk) = ⊥

-- The BYE.
abbrev pub bye_packet : ℕ → Bytes → Bytes
bye_packet id name = header 0xFF id (field name [])

length-bye_packet : (id : ℕ) (name : Bytes) → length (bye_packet id name) ≡ length name + 4
length-bye_packet id name = omega (arith, length-append name (0 ∷ []))

if_false {ℓ} : {A : Type ℓ} (b : Bool) (x y : A) → b ≡ false → (if b then x else y) ≡ y
if_false b x y e = rw e

graceful_quit-send_bye :
    (cfg : Config)
    → cfg.use_tcp_protocol ≡ false
    → graceful_quit cfg ≡ (send_bye cfg >> exit exit_success)
unfolding graceful_quit
graceful_quit-send_bye cfg udp =
    ap (λ p. p >> exit exit_success) (if_false cfg.use_tcp_protocol _ (send_bye cfg) udp)

pub step-graceful_quit : (cfg : Config) (d : Event) → Quits d → step cfg d ≡ graceful_quit cfg
unfolding step
step-graceful_quit cfg (input line) h = absurd h
step-graceful_quit cfg end_of_input h = refl
step-graceful_quit cfg input_error h = absurd h
step-graceful_quit cfg interrupt h = refl
step-graceful_quit cfg (datagrams batch) h = absurd h
step-graceful_quit cfg (tcp_bytes chunk) h = absurd h

module _ (cfg : Config) (e : Event) (name : Bytes) (roomy : Succeeds cfg.malloc)
    (delivers : Delivers cfg) (udp : cfg.use_tcp_protocol ≡ false) (quits : Quits e) where
  -- A client that goes by the name, and what is sent.
  pub record CanQuit (address : ℕ) (w : World) : Type 0 where
    pub called : c_str w.display_name ≡ ok name
    pub small : w.confirmed.index < 65536
    pub resolves : cfg.resolve cfg.hostname w.port ≡ some address

  abbrev bye : World → Bytes
  bye w = bye_packet w.confirmed.index name

  -- The BYE is laid out and sent.
  send_bye_lem :
      (address : ℕ) (w : World)
      → CanQuit address w
      → send_bye cfg w ≡ send_network_msg_udp (sleep cfg) cfg (bye w, length name + 4) w
  unfolding display_name_text create_bye_msg
  send_bye_lem address w can =
      let m : ByeMsg = create_bye_msg w.confirmed.index name in
      elim (serialize_bye_msg-Gives cfg.malloc m) [
        | inl (short, _) ↦
            let (block, f) = roomy (length name + 4) in
            let f' : none ≡ some block = sym short ∙ f in cc
        | inr (r, _) ↦ rw (can.called, r, uint16-small w.confirmed.index can.small)
      ]

  quit_lem :
      (address : ℕ) (events : List Event) (w : World)
      → CanQuit address w
      → run cfg (e ∷ events) w
        ≡ continue
            (send_network_msg_udp (sleep cfg) cfg (bye w, length name + 4) w)
            (λ _ w'. (exits exit_success, w'))
  unfolding run
  quit_lem address events w can =
      ap (λ p. continue (p w) (λ _. run cfg events))
        (step-graceful_quit cfg e quits ∙ graceful_quit-send_bye cfg udp)
      ∙ ap (λ r. continue (continue r (λ _. exit exit_success)) (λ _. run cfg events))
          (send_bye_lem address w can)
      ∙ continue-continue (send_network_msg_udp (sleep cfg) cfg (bye w, length name + 4) w) _ _

  -- Quitting over UDP, at the end of the input or on SIGINT, in any state: if the server confirms the BYE
  -- during the first sleep, the BYE with the display name goes out once, and the process ends with
  -- success; whatever else would happen is not seen any more. The client has a display name and an
  -- id of 16 bits, there is memory, the network delivers, the table of ids is valid with a cell for
  -- the BYE, and the buffer has 4 bytes at least.
  pub run_quits :
      (address port : ℕ) (later : List (List Arrival)) (events : List Event) (w : World)
      → CanQuit address w
      → 3 < length w.recv_buffer
      → IsValid w.confirmed
      → w.confirmed.index < w.confirmed.array_size
      → w.arrivals ≡ (confirm_arrival port w.confirmed.index ∷ []) ∷ later
      → (w' : World) × (run cfg (e ∷ events) w ≡ (exits exit_success, w'))
        × (w'.sent ≡ w.sent ++ (record { to = address; payload = bye w } ∷ []))
        × (w'.printed ≡ w.printed)
        × (w'.state ≡ w.state)
  run_quits address port later events w can room valid cell next =
      let size : ℕ = length name + 4 in
      let id : ℕ = w.confirmed.index in
      let (w', e', sent, _, state, printed) =
        send_until_confirmed-confirm cfg address port size id (bye w) later w roomy delivers
          can.small (host16_at-net16 (0xFF ∷ []) (field name []) id 1 refl can.small) room valid
          cell next in
      let whole : take size (bye w) ≡ bye w =
        take-all size (bye w) (omega (arith, length-bye_packet id name)) in
      (
        w',
        quit_lem address events w can
            ∙ rw
                (send_network_msg_udp_lem (sleep cfg) cfg address 0xFF id size (field name []) w
                  can.resolves (λ z. omega arith))
                (rw e'),
        sent ∙ ap (λ p. w.sent ++ (record { to = address; payload = p } ∷ [])) whole,
        printed,
        state,
      )

  -- Quitting over UDP when the server is silent: the BYE goes out once and once more for each
  -- retransmission, and the process reports that it is not confirmed, and ends with failure. The
  -- client has a display name and an id of 16 bits that is not among the confirmed ones, the next
  -- cell included, there is memory, and the network delivers.
  pub run_quits_silent :
      (address : ℕ) (events : List Event) (w : World)
      → CanQuit address w
      → w.arrivals ≡ []
      → scan w.confirmed.index w.confirmed.ids (w.confirmed.index + 1) ≡ ok false
      → run cfg (e ∷ events) w ≡ (
        exits exit_failure,
        record (sent_times (cfg.udp_retransmissions + 1) address (bye w) (counted w)) {
          printed = w.printed ++ (not_confirmed w.confirmed.index ∷ []);
        },
      )
  run_quits_silent address events w can nothing none_yet =
      quit_lem address events w can
      ∙ rw (
          send_network_msg_udp_silent (sleep cfg) cfg address 0xFF w.confirmed.index
            (length name + 4) (field name []) w (λ u same. sleep-Quiet cfg u (same ∙ nothing))
            delivers can.resolves (λ z. omega arith) can.small
            (length-bye_packet w.confirmed.index name) none_yet)
