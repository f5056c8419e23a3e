-- ===== src/Listener/Delivery.antt =====
-- A message of the main thread and its CONFIRM: the sender of src/network_udp.c sleeps, the listener
-- receives the datagram, `add_confirmed_msg_id` records the id, and the sender finds it.
use ipk_projekt.Listener.{receive, listen, listen_next, sleep, follow_port}
use ipk_projekt.World.{Config, World, Arrival}
use ipk_projekt.Ids.Confirm.{IsValid, is_confirmed, add_confirmed_msg_id-Records}
use ipk_projekt.Ids.Cells.{scan_hit}
use ipk_projekt.Base.{
  ℕ, List, ◌<◌, length, [], ◌≤◌, ◌≡◌, ok, ◌∷◌, true, ◌++◌, arith, take, ◌+◌, ◌∙◌, refl, ap,
}
use ipk_projekt.Handlers.{process_received_udp_message, receive_confirm}
use ipk_projekt.Deserialize.RoundTrip.{Succeeds, deserialize_confirm_msg-header}
use ipk_projekt.Memory.{Bytes, host16_at}
use ipk_projekt.Serialize.Layout.{header}
use ipk_projekt.Udp.Rounds.{Delivers, sent_to, counted, send_until_confirmed_first, Quiet}
use ipk_projekt.Ids.{Confirmed, scan}
use ipk_projekt.Listener.Receive.{handled, stale_after, arrived, receive-handled, length-received}
use ipk_projekt.Deserialize.Safety.{received}
use ipk_projekt.Udp.{send_until_confirmed}

confirm-handled :
    (cfg : Config) (id : ℕ) (stale : Bytes) (w : World)
    → Succeeds cfg.malloc
    → id < 65536
    → IsValid w.confirmed
    → 0 < w.confirmed.index
    → w.confirmed.index ≤ w.confirmed.array_size
    → (c : Confirmed) × (handled cfg (header 0 id []) stale w
        ≡ (ok tt, record w { recv_buffer = received (header 0 id []) stale; confirmed = c }))
      × (is_confirmed id c ≡ true)
      × (c.index ≡ w.confirmed.index)
      × (w.confirmed.array_size ≤ c.array_size)
      × IsValid c
unfolding process_received_udp_message receive_confirm
confirm-handled cfg id stale w roomy h v some_sent fits =
    let (c, e, found, i, s, v') =
      add_confirmed_msg_id-Records cfg.malloc w.confirmed id roomy v some_sent fits in
    (
      c,
      rw (deserialize_confirm_msg-header cfg.malloc roomy 0 id (0 ∷ stale) 3 h (omega arith), e),
      found,
      i,
      s,
      v',
    )

-- The server's CONFIRM, as it arrives.
abbrev pub confirm_arrival : ℕ → ℕ → Arrival
confirm_arrival sender id = record { sender_port = sender; payload = header 0 id [] }

pub confirm-received :
    (cfg : Config) (sender id : ℕ) (w : World)
    → Succeeds cfg.malloc
    → id < 65536
    → 3 < length w.recv_buffer
    → IsValid w.confirmed
    → 0 < w.confirmed.index
    → w.confirmed.index ≤ w.confirmed.array_size
    → (c : Confirmed) × (buffer : Bytes) × (receive cfg (confirm_arrival sender id) w
        ≡ (ok tt, record w { recv_buffer = buffer; confirmed = c }))
      × (scan id c.ids c.index ≡ ok true)
      × (c.index ≡ w.confirmed.index)
      × (length buffer ≡ length w.recv_buffer)
      × (w.confirmed.array_size ≤ c.array_size)
      × IsValid c
unfolding follow_port
confirm-received cfg sender id w roomy h room v some_sent fits =
    let stale = stale_after (header 0 id []) w in
    let (c, e, found, i, s, v') =
      confirm-handled cfg id stale (arrived (header 0 id []) w) roomy h v some_sent fits in
    (
      c,
      received (header 0 id []) stale,
      receive-handled cfg sender 0 _ w (omega arith) room ∙ e,
      scan_hit id c.ids c.index found,
      i,
      length-received (header 0 id []) w room,
      s,
      v',
    )

-- The main thread sends a message and sleeps, and the CONFIRM for it arrives during that sleep: the
-- message went out once, the sender returns, and the table is valid with a cell taken.
pub send_until_confirmed_once :
    (cfg : Config) (address sender size id : ℕ) (buffer : Bytes) (later : List (List Arrival))
    (w : World)
    → Succeeds cfg.malloc
    → Delivers cfg
    → id < 65536
    → host16_at buffer 1 ≡ ok id
    → 3 < length w.recv_buffer
    → IsValid w.confirmed
    → w.confirmed.index < w.confirmed.array_size
    → w.arrivals ≡ (confirm_arrival sender id ∷ []) ∷ later
    → (c : Confirmed) × (b : Bytes) × (send_until_confirmed (sleep cfg) cfg address buffer size w
        ≡ (
          ok tt,
          record (sent_to address (take size buffer) w) {
            arrivals = later;
            recv_buffer = b;
            confirmed = c;
          },
        ))
      × (c.index ≡ w.confirmed.index + 1)
      × (length b ≡ length w.recv_buffer)
      × (w.confirmed.array_size ≤ c.array_size)
      × IsValid c
unfolding sleep listen_next listen
send_until_confirmed_once cfg address sender size id buffer later w roomy delivers h e room v fits
      next =
    let w1 : World = record (sent_to address (take size buffer) (counted w)) { arrivals = later } in
    let (c, b, r, found, i, l, s, v') =
      confirm-received cfg sender id w1 roomy h room
        (record { sized = v.sized; nonempty = v.nonempty }) (omega arith) (omega arith) in
    (
      c,
      b,
      send_until_confirmed_first (sleep cfg) cfg address buffer size id w
          (record w1 { recv_buffer = b; confirmed = c }) delivers e (rw (next, r)) found,
      i,
      l,
      s,
      v',
    )

-- ... and whatever else the sender shows is as it was. This takes memory,
-- a network that delivers, a valid table with a cell for the message, and a buffer of 4 bytes at least.
pub send_until_confirmed-confirm :
    (cfg : Config) (address sender size id : ℕ) (buffer : Bytes) (later : List (List Arrival))
    (w : World)
    → Succeeds cfg.malloc
    → Delivers cfg
    → id < 65536
    → host16_at buffer 1 ≡ ok id
    → 3 < length w.recv_buffer
    → IsValid w.confirmed
    → w.confirmed.index < w.confirmed.array_size
    → w.arrivals ≡ (confirm_arrival sender id ∷ []) ∷ later
    → (w' : World) × (send_until_confirmed (sleep cfg) cfg address buffer size w ≡ (ok tt, w'))
      × (w'.sent ≡ w.sent ++ (record { to = address; payload = take size buffer } ∷ []))
      × (w'.confirmed.index ≡ w.confirmed.index + 1)
      × (w'.state ≡ w.state)
      × (w'.printed ≡ w.printed)
send_until_confirmed-confirm cfg address sender size id buffer later w roomy delivers h e room v
      fits next =
    let (c, b, r, i, _, _, _) =
      send_until_confirmed_once cfg address sender size id buffer later w roomy delivers h e room v
        fits next in
    (_, r, refl, i, refl, refl)

-- A sleep handles the datagrams that arrive during it.
pub sleep-arrivals :
    (cfg : Config) (batch : List Arrival) (later : List (List Arrival)) (w : World)
    → w.arrivals ≡ batch ∷ later
    → sleep cfg w ≡ listen cfg batch (record w { arrivals = later })
unfolding sleep listen_next
sleep-arrivals cfg batch later w next = ap (λ l. listen_next l cfg w) next

-- Without datagrams to come, the main thread sleeps alone.
pub sleep-Quiet : (cfg : Config) → Quiet (sleep cfg) []
unfolding sleep listen_next
sleep-Quiet cfg w none_to_come = rw none_to_come
