-- ===== src/Listener/Late.antt =====
-- A message of the main thread whose CONFIRM comes late: the retransmissions of `send_network_msg_udp` in
-- src/network_udp.c.
use ipk_projekt.Listener.Delivery.{confirm_arrival, confirm-received, sleep-arrivals}
use ipk_projekt.Listener.{listen, sleep}
use ipk_projekt.World.{Config, World, Arrival, Datagram}
use ipk_projekt.Ids.Confirm.{IsValid}
use ipk_projekt.Base.{
  ℕ, List, ◌<◌, length, [], ◌≤◌, ◌≡◌, ok, ◌∷◌, true, ◌++◌, arith, take, ◌+◌, ◌∙◌, refl, Result, suc,
  replicate, zero, false, append_assoc,
}
use ipk_projekt.Deserialize.RoundTrip.{Succeeds}
use ipk_projekt.Memory.{Bytes, host16_at}
use ipk_projekt.Udp.Rounds.{Delivers, sent_to, counted}
use ipk_projekt.Ids.{scan}
use ipk_projekt.Udp.{send_until_confirmed, send_rounds, sendto, is_msg_confirmed, count_message}

-- Nothing arrives during `k` sleeps, and then the CONFIRM.
abbrev pub late : ℕ → ℕ → ℕ → List (List Arrival) → List (List Arrival)
late zero sender id later = (confirm_arrival sender id ∷ []) ∷ later
late (suc k) sender id later = [] ∷ late k sender id later

module _ (cfg : Config) (address sender size id : ℕ) (buffer : Bytes) (later : List (List Arrival))
    (roomy : Succeeds cfg.malloc) (delivers : Delivers cfg) (h : id < 65536) where
  abbrev datagram : Datagram
  datagram = record { to = address; payload = take size buffer }

  -- What the rounds have done when they end.
  abbrev Confirms : ℕ → World → Result (Unit {0}) × World → Type 0
  Confirms n w r =
      (w' : World) × (r ≡ (ok tt, w'))
      × (scan id w'.confirmed.ids w'.confirmed.index ≡ ok true)
      × (w'.sent ≡ w.sent ++ replicate n datagram)
      × (w'.confirmed.index ≡ w.confirmed.index)
      × (w'.state ≡ w.state)
      × (w'.printed ≡ w.printed)

  send_rounds-late :
      (k rounds : ℕ) (w : World)
      → k < rounds
      → 3 < length w.recv_buffer
      → IsValid w.confirmed
      → 0 < w.confirmed.index
      → w.confirmed.index ≤ w.confirmed.array_size
      → scan id w.confirmed.ids w.confirmed.index ≡ ok false
      → w.arrivals ≡ late k sender id later
      → Confirms (suc k) w (send_rounds (sleep cfg) cfg address buffer size id rounds w)
  unfolding send_rounds sendto is_msg_confirmed listen
  send_rounds-late k zero w lt room v some_sent fits none_yet next = absurd (omega arith)
  send_rounds-late zero (suc rounds) w lt room v some_sent fits none_yet next =
      let w1 : World = record (sent_to address (take size buffer) w) { arrivals = later } in
      let (c, b, r, found, i, _, _, _) =
        confirm-received cfg sender id w1 roomy h room v some_sent fits in
      let slept : sleep cfg (sent_to address (take size buffer) w)
          ≡ (ok tt, record w1 { recv_buffer = b; confirmed = c }) =
        sleep-arrivals cfg (confirm_arrival sender id ∷ []) later
          (sent_to address (take size buffer) w) next
        ∙ rw r in
      (
        record w1 { recv_buffer = b; confirmed = c },
        rw (delivers w.attempts, slept, found),
        found,
        refl,
        i,
        refl,
        refl,
      )
  send_rounds-late (suc k) (suc rounds) w lt room v some_sent fits none_yet next =
      let w1 : World = record (sent_to address (take size buffer) w) {
        arrivals = late k sender id later;
      } in
      let (w', e, found, sent, i, s, p) =
        send_rounds-late k rounds w1 (omega arith) room v some_sent fits none_yet refl in
      let slept : sleep cfg (sent_to address (take size buffer) w) ≡ (ok tt, w1) =
        sleep-arrivals cfg [] (late k sender id later) (sent_to address (take size buffer) w)
          next in
      (
        w',
        rw (delivers w.attempts, slept, none_yet) e,
        found,
        sent ∙ append_assoc w.sent (datagram ∷ []) (replicate (suc k) datagram),
        i,
        s,
        p,
      )

  -- Nothing arrives during the first `k` sleeps of the main thread, and the CONFIRM for its message
  -- during the next one: for every `k` up to the number of retransmissions, the message went out
  -- `k + 1` times, the sender returns, and one message more is counted. This takes memory, a network
  -- that delivers, a valid table with a cell for the message, in which its id does not stand yet, and
  -- a buffer of 4 bytes at least.
  pub send_until_confirmed-late :
      (k : ℕ) (w : World)
      → k ≤ cfg.udp_retransmissions
      → host16_at buffer 1 ≡ ok id
      → 3 < length w.recv_buffer
      → IsValid w.confirmed
      → w.confirmed.index < w.confirmed.array_size
      → scan id w.confirmed.ids (w.confirmed.index + 1) ≡ ok false
      → w.arrivals ≡ late k sender id later
      → (w' : World) × (send_until_confirmed (sleep cfg) cfg address buffer size w ≡ (ok tt, w'))
        × (w'.sent ≡ w.sent ++ replicate (suc k) datagram)
        × (w'.confirmed.index ≡ w.confirmed.index + 1)
        × (w'.state ≡ w.state)
        × (w'.printed ≡ w.printed)
  unfolding send_until_confirmed count_message is_msg_confirmed
  send_until_confirmed-late k w fewer e room v fits none_yet next =
      let (w', r, found, sent, i, s, p) =
        send_rounds-late k (cfg.udp_retransmissions + 1) (counted w) (omega arith) room
          (record { sized = v.sized; nonempty = v.nonempty }) (omega arith) (omega arith) none_yet
          next in
      (w', rw (e, r, found), sent, i, s, p)
