-- ===== src/Client/Turns/Join.antt =====
-- Joining a channel in OPEN, from `/join` to the REPLY: src/cmd_join.c, src/network_udp.c and
-- src/state_join.c.
use Prim.Native.Nat.{ℕ}
use ipk_projekt.Memory.{Bytes}
use ipk_projekt.World.{Config, Arrival, World, state_open, state_join}
use ipk_projekt.Client.Turns.{Grants, Does, same-IsOpen}
use ipk_projekt.Client.Talk.{joined, Joining, Talk, IsOpen}
use ipk_projekt.Base.{
  List, length, ◌∷◌, ◌+◌, ◌≡◌, [], ◌≤◌, ◌<◌, ok, true, arith, take, ◌∙◌, take-all, codes, ap, ◌++◌,
  sym, refl, append_assoc,
}
use ipk_projekt.Ids.{Confirmed, scan}
use ipk_projekt.Listener.Delivery.{confirm-received, sleep-arrivals, confirm_arrival}
use ipk_projekt.Listener.{listen, sleep}
use ipk_projekt.Handlers.Replies.{answered, outcome}
use ipk_projekt.Commands.Join.{join_packet, length-join_packet, cmd_join_lem, joining}
use ipk_projekt.Listener.Answer.{join_arrival, join-received}
use ipk_projekt.Udp.Rounds.{sent_to, counted, send_network_msg_udp_lem, send_until_confirmed_first}
use ipk_projekt.Udp.{send_network_msg_udp}
use ipk_projekt.Serialize.Layout.{field, header}
use ipk_projekt.Client.InOpen.{join_line_lem, command_taken, join_line}
use ipk_projekt.Memory.Laws.{host16_at-net16}
use ipk_projekt.Client.Room.{HasRoom, read_in, step-main_round}
use ipk_projekt.Ids.Confirm

module _ (cfg : Config) (address port size limit : ℕ) (g : Grants cfg size limit) (j : Joining)
    (t : Talk) (later : List (List Arrival)) where
  abbrev batch : List Arrival
  batch =
      confirm_arrival j.confirm_port t.next
      ∷ (join_arrival j.reply_port j.id j.result j.ref j.content ∷ [])

  -- The JOIN, with the id of the client's next message.
  abbrev packet : World → Bytes
  packet w = join_packet w.confirmed.index j.channel t.name

  abbrev packet_size : ℕ
  packet_size = length j.channel + length t.name + 5

  -- Sent, and answered during the sleep.
  abbrev joined_in : Bytes → Confirmed → World → World
  joined_in b ids w =
      answered address j.id (outcome j.result j.content) state_open
        (record (sent_to address (packet w) w) {
          arrivals = later;
          recv_buffer = b;
          confirmed = ids;
        })

  -- The first sleep, in which CONFIRM and REPLY are handled.
  slept :
      (w : World)
      → IsOpen cfg address size limit t (record w { state = state_open })
      → w.state ≡ state_join
      → t.next + 1 ≤ limit
      → length j.content + 7 < size
      → w.arrivals ≡ batch ∷ later
      → (ids : Confirmed) × (b : Bytes) × (sleep cfg (sent_to address (packet w) (counted w))
          ≡ (ok tt, joined_in b ids w))
        × (scan w.confirmed.index ids.ids ids.index ≡ ok true)
        × (ids.index ≡ w.confirmed.index + 1)
        × (length b ≡ length w.recv_buffer)
        × (w.confirmed.array_size ≤ ids.array_size)
        × Confirm.IsValid ids
  unfolding listen
  slept w o in_join fits content_fits next =
      let w0 : World = record (sent_to address (packet w) (counted w)) { arrivals = later } in
      let (ids, b, confirmed, found, i, n, a, v) =
        confirm-received cfg j.confirm_port w.confirmed.index w0 g.roomy
          (omega (arith, o.counts, g.limited)) (omega (arith, o.sized, g.room))
          (record { sized = o.valid.sized; nonempty = o.valid.nonempty }) (omega arith)
          (omega (arith, o.counts, o.cells)) in
      let (b', replied, n') =
        join-received cfg address j.reply_port j.id j.result j.ref j.content
          (record w0 { recv_buffer = b; confirmed = ids }) g.roomy g.delivers j.id_ok j.ref_ok
          j.content_ok j.result_ok o.resolves in_join o.port_changed j.some_content j.content_short
          (omega (arith, n, o.sized, content_fits)) in
      let batch' : List Arrival =
        confirm_arrival j.confirm_port w.confirmed.index
        ∷ (join_arrival j.reply_port j.id j.result j.ref j.content ∷ []) in
      (
        ids,
        b',
        sleep-arrivals cfg batch' later (sent_to address (packet w) (counted w)) (
              next
              ∙ ap
                  (λ k.
                    (confirm_arrival j.confirm_port k
                      ∷ (join_arrival j.reply_port j.id j.result j.ref j.content ∷ []))
                    ∷ later)
                  (sym o.counts))
            ∙ rw (confirmed, replied),
        found,
        i,
        n' ∙ n,
        a,
        v,
      )

  sends_join :
      (w : World)
      → IsOpen cfg address size limit t (record w { state = state_open })
      → w.state ≡ state_join
      → t.next + 1 ≤ limit
      → length j.content + 7 < size
      → w.arrivals ≡ batch ∷ later
      → (ids : Confirmed) × (b : Bytes) × (send_network_msg_udp
            (sleep cfg)
            cfg
            (packet w, packet_size)
            w
          ≡ (ok tt, joined_in b ids w))
        × (ids.index ≡ w.confirmed.index + 1)
        × (length b ≡ length w.recv_buffer)
        × (w.confirmed.array_size ≤ ids.array_size)
        × Confirm.IsValid ids
  sends_join w o in_join fits content_fits next =
      let (ids, b, asleep, found, i, n, a, v) = slept w o in_join fits content_fits next in
      let whole : take packet_size (packet w) ≡ packet w =
        take-all packet_size (packet w)
          (omega (arith, length-join_packet w.confirmed.index j.channel t.name)) in
      (
        ids,
        b,
        send_network_msg_udp_lem (sleep cfg) cfg address 3 w.confirmed.index packet_size
              (field j.channel (field t.name [])) w o.resolves (λ e. omega arith)
            ∙ send_until_confirmed_first (sleep cfg) cfg address (packet w) packet_size
                w.confirmed.index w (joined_in b ids w) g.delivers
                (host16_at-net16 (3 ∷ []) (field j.channel (field t.name [])) w.confirmed.index 1
                  refl (omega (arith, o.counts, g.limited)))
                (ap (λ p. sleep cfg (sent_to address p (counted w))) whole ∙ asleep) found,
        i,
        n,
        a,
        v,
      )

  pub joined-Does :
      (w : World)
      → IsOpen cfg address size limit t w
      → HasRoom (join_line j.channel) w.line
      → t.next + 1 ≤ limit
      → length j.content + 7 < size
      → w.arrivals ≡ batch ∷ later
      → (w1 : World) × Does cfg address port size limit g (joined j) t later w w1
  joined-Does w o room fits content_fits next =
      let w0 : World = read_in cfg (join_line j.channel) w in
      let o0 : IsOpen cfg address size limit t w0 =
        same-IsOpen cfg address port size limit g t w w0 o refl refl refl refl refl refl refl in
      let line : Bytes = codes "/join " ++ j.channel in
      let wj : World = joining (command_taken line j.channel w0) in
      let (ids, b, e, i, n, a, v) =
        sends_join wj
          (same-IsOpen cfg address port size limit g t w0 (record wj { state = state_open }) o0
            (sym o0.in_open) refl refl refl refl refl refl)
          refl fits content_fits next in
      (
        joined_in b ids wj,
        record {
          steps =
              step-main_round cfg (join_line j.channel) w room
              ∙ join_line_lem cfg j.channel w0 o0.in_open
              ∙ cmd_join_lem cfg j.channel t.name (command_taken line j.channel w0) g.roomy g.udp
                  (omega (arith, o0.counts, g.limited)) j.channel_ok o0.name_ok o0.called refl
              ∙ e;
          is_open = record {
            in_open = refl;
            called = o0.called;
            name_ok = o0.name_ok;
            counts = i ∙ ap (λ k. k + 1) o0.counts;
            knows = o0.knows;
            resolves = o0.resolves;
            port_changed = o0.port_changed;
            valid = v;
            seen_valid = record {
              sized = o0.seen_valid.sized;
              nonempty = o0.seen_valid.nonempty;
              within = o0.seen_valid.within;
            };
            sized = n ∙ o0.sized;
            cells = omega (arith, o0.cells);
          };
          sent =
              append_assoc w0.sent _ _
              ∙ ap
                  (λ k.
                    w0.sent
                    ++ (record { to = address; payload = join_packet k j.channel t.name }
                        ∷ (record { to = address; payload = header 0 j.id [] } ∷ [])))
                  o0.counts;
          shown = refl;
          to_come = refl;
          line_kept = refl;
        },
      )
