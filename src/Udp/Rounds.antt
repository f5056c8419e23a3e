-- ===== src/Udp/Rounds.antt =====
-- What the sender of src/network_udp.c sends, when it stops, and what it has established then.
use ipk_projekt.Udp.{
  is_msg_confirmed, send_rounds, count_message, send_until_confirmed, send_network_msg_udp,
  send_confirm, sendto, send_resolved,
}
use ipk_projekt.World.{Config, World, Prog, not_confirmed, Arrival}
use ipk_projekt.Base.{
  ℕ, ◌≡◌, ◌<◌, true, ◌+◌, [], some, ◌++◌, ok, ◌∷◌, inl, inr, ◌%◌, none, sym, arith, ◌∙◌, append-nil,
  false, suc, replicate, append_assoc, take, ap, add-one, exits, Result, exit_failure, zero, ◌≢◌,
  length, ==_ne, take-all, refl, List,
}
use ipk_projekt.Messages.{create_confirm_msg}
use ipk_projekt.Deserialize.RoundTrip.{Succeeds}
use ipk_projekt.Memory.{Bytes, host16_at, byte_at}
use ipk_projekt.Serialize.Layout.{header, serialize_confirm_msg-Gives}
use ipk_projekt.Ids.{scan}
use ipk_projekt.World.Laws.{continue-eq-ok}
use mathlib.Core.Logic.{◌≢◌}
use ipk_projekt.Memory.Laws.{host16_at-net16}

-- The network takes every datagram.
abbrev pub Delivers : Config → Type 0
Delivers cfg = (n : ℕ) → cfg.sendto_succeeds n ≡ true

pub uint16-small : (n : ℕ) → n < 65536 → n % 65536 ≡ n
uint16-small n h = omega arith

abbrev pub sent_to : ℕ → Bytes → World → World
sent_to address payload w = record w {
  attempts = w.attempts + 1;
  sent = w.sent ++ (record { to = address; payload = payload } ∷ []);
}

-- A CONFIRM is one datagram with the id, high byte first; whether it gets through is not looked at.
pub send_confirm_lem :
    (cfg : Config) (id address : ℕ) (w : World)
    → Succeeds cfg.malloc
    → Delivers cfg
    → id < 65536
    → cfg.resolve cfg.hostname w.port ≡ some address
    → send_confirm cfg id w ≡ (ok tt, sent_to address (header 0 id []) w)
unfolding send_confirm send_network_msg_udp create_confirm_msg send_resolved byte_at sendto
send_confirm_lem cfg id address w roomy delivers h e =
    elim (serialize_confirm_msg-Gives cfg.malloc (create_confirm_msg id)) [
      | inl (short, _) ↦
          let (block, f) = roomy 3 in let f' : none ≡ some block = sym short ∙ f in cc
      | inr (r, _) ↦ rw (r, e, delivers w.attempts, uint16-small id h)
    ]

-- Whatever happens during the sleeps, the sender returns only when the id of its message stands
-- among the confirmed ones.
pub send_until_confirmed-confirmed :
    (sleep : Prog (Unit {0})) (cfg : Config) (address : ℕ) (buffer : Bytes) (size id : ℕ)
    (w w' : World)
    → host16_at buffer 1 ≡ ok id
    → send_until_confirmed sleep cfg address buffer size w ≡ (ok tt, w')
    → scan id w'.confirmed.ids w'.confirmed.index ≡ ok true
unfolding send_until_confirmed count_message is_msg_confirmed
send_until_confirmed-confirmed sleep cfg address buffer size id w w' e h =
    let (_, w1, _, last) =
      continue-eq-ok
        (send_rounds sleep cfg address buffer size id (cfg.udp_retransmissions + 1)
          (count_message w).1)
        _ (rw e at h) in
    ground arith

-- `n` copies of a datagram.
abbrev pub sent_times : ℕ → ℕ → Bytes → World → World
sent_times n address payload w = record w {
  attempts = w.attempts + n;
  sent = w.sent ++ replicate n (record { to = address; payload = payload });
}

sent_times-suc :
    (n address : ℕ) (payload : Bytes) (w : World)
    → sent_times n address payload (sent_to address payload w)
      ≡ sent_times (suc n) address payload w
sent_times-suc n address payload w =
    let e : w.attempts + 1 + n ≡ w.attempts + suc n = omega arith in rw (e, append_assoc)

sent_times-zero : (address : ℕ) (payload : Bytes) (w : World) → sent_times 0 address payload w ≡ w
sent_times-zero address payload w =
    let e : w.attempts + 0 ≡ w.attempts = omega arith in rw (e, append-nil)

-- Sleeps during which nothing happens, from worlds with these datagrams to come.
abbrev pub Quiet : Prog (Unit {0}) → List (List Arrival) → Type 0
Quiet sleep arrivals = (w : World) → w.arrivals ≡ arrivals → sleep w ≡ (ok tt, w)

-- Rounds in which nobody confirms.
send_rounds_silent :
    (sleep : Prog (Unit {0})) (cfg : Config) (address : ℕ) (buffer : Bytes) (size id rounds : ℕ)
    (w : World)
    → Quiet sleep w.arrivals
    → Delivers cfg
    → scan id w.confirmed.ids w.confirmed.index ≡ ok false
    → send_rounds sleep cfg address buffer size id rounds w
      ≡ (ok tt, sent_times rounds address (take size buffer) w)
unfolding send_rounds sendto is_msg_confirmed
send_rounds_silent sleep cfg address buffer size id zero w quiet delivers h =
    ap {B = Result (Unit {0}) × World} (λ v. (ok tt, v))
      (sym (sent_times-zero address (take size buffer) w))
send_rounds_silent sleep cfg address buffer size id (suc rounds) w quiet delivers h =
    rw (delivers w.attempts, quiet (sent_to address (take size buffer) w) refl, h)
      (send_rounds_silent sleep cfg address buffer size id rounds
          (sent_to address (take size buffer) w) quiet delivers h
        ∙ ap {B = Result (Unit {0}) × World} (λ v. (ok tt, v))
            (sent_times-suc rounds address (take size buffer) w))

abbrev pub counted : World → World
counted w = record w { confirmed = record w.confirmed { index = w.confirmed.index + 1 } }

-- A message that nobody confirms goes out once and once more for each retransmission; then the
-- process says so and fails.
pub send_until_confirmed_silent :
    (sleep : Prog (Unit {0})) (cfg : Config) (address : ℕ) (buffer : Bytes) (size id : ℕ)
    (w : World)
    → Quiet sleep w.arrivals
    → Delivers cfg
    → host16_at buffer 1 ≡ ok id
    → scan id w.confirmed.ids (w.confirmed.index + 1) ≡ ok false
    → send_until_confirmed sleep cfg address buffer size w ≡ (
      exits exit_failure,
      record (sent_times (cfg.udp_retransmissions + 1) address (take size buffer) (counted w)) {
        printed = w.printed ++ (not_confirmed id ∷ []);
      },
    )
unfolding send_until_confirmed count_message is_msg_confirmed
send_until_confirmed_silent sleep cfg address buffer size id w quiet delivers e h = rw (
  e,
  send_rounds_silent sleep cfg address buffer size id (cfg.udp_retransmissions + 1) (counted w)
      quiet delivers h,
  h,
)

-- A message that is confirmed during the first sleep goes out once.
pub send_until_confirmed_first :
    (sleep : Prog (Unit {0})) (cfg : Config) (address : ℕ) (buffer : Bytes) (size id : ℕ)
    (w w' : World)
    → Delivers cfg
    → host16_at buffer 1 ≡ ok id
    → sleep (sent_to address (take size buffer) (counted w)) ≡ (ok tt, w')
    → scan id w'.confirmed.ids w'.confirmed.index ≡ ok true
    → send_until_confirmed sleep cfg address buffer size w ≡ (ok tt, w')
unfolding send_until_confirmed count_message is_msg_confirmed send_rounds sendto
send_until_confirmed_first sleep cfg address buffer size id w w' delivers e slept h =
    rw (e, add-one cfg.udp_retransmissions, delivers w.attempts, slept, h, h)

-- A laid out message that is no CONFIRM is sent until it is confirmed.
pub send_network_msg_udp_lem :
    (sleep : Prog (Unit {0})) (cfg : Config) (address type id size : ℕ) (rest : Bytes) (w : World)
    → cfg.resolve cfg.hostname w.port ≡ some address
    → type ≢ 0
    → send_network_msg_udp sleep cfg (header type id rest, size) w
      ≡ send_until_confirmed sleep cfg address (header type id rest) size w
unfolding send_network_msg_udp send_resolved byte_at
send_network_msg_udp_lem sleep cfg address type id size rest w e t = rw (e, ==_ne type 0 t)

-- With a network that delivers: a laid out message that is no CONFIRM, and during whose sleeps nothing
-- happens, goes out once and once more for each retransmission; then the process reports it and
-- fails. Its id must not be among the confirmed ones, the next cell included.
pub send_network_msg_udp_silent :
    (sleep : Prog (Unit {0})) (cfg : Config) (address type id size : ℕ) (rest : Bytes) (w : World)
    → Quiet sleep w.arrivals
    → Delivers cfg
    → cfg.resolve cfg.hostname w.port ≡ some address
    → type ≢ 0
    → id < 65536
    → length (header type id rest) ≡ size
    → scan id w.confirmed.ids (w.confirmed.index + 1) ≡ ok false
    → send_network_msg_udp sleep cfg (header type id rest, size) w ≡ (
      exits exit_failure,
      record (sent_times (cfg.udp_retransmissions + 1) address (header type id rest) (counted w)) {
        printed = w.printed ++ (not_confirmed id ∷ []);
      },
    )
send_network_msg_udp_silent sleep cfg address type id size rest w quiet delivers e t h len
      none_yet =
    rw (send_network_msg_udp_lem sleep cfg address type id size rest w e t) (
      send_until_confirmed_silent sleep cfg address (header type id rest) size id w quiet delivers
        (host16_at-net16 (type ∷ []) rest id 1 refl h) none_yet
      ∙ rw (take-all size (header type id rest) (omega (arith, len))))
