-- ===== src/Client/Login.antt =====
-- Logging in over UDP, from the line that the user enters to the state OPEN: src/main.c,
-- src/state_start.c, src/cmd_auth.c, src/network_udp.c and src/state_auth.c together.
use ipk_projekt.Commands.Login.{
  Account, auth_packet, auth_size, cmd_auth_lem, length-auth_packet, name_text, login_line,
  arguments, named,
}
use ipk_projekt.Client.{main_round}
use ipk_projekt.World.{Config, Arrival, World, state_auth, state_open, action_success, state_start}
use ipk_projekt.Base.{
  List, ℕ, ◌≡◌, ok, ◌<◌, ◌++◌, ◌∷◌, false, ◌≤◌, [], ap, refl, length, some, ◌+◌, true, arith, take,
  ◌∙◌, take-all,
}
use Prim.Native.Nat.{ℕ}
use ipk_projekt.Memory.{Bytes, IsText, c_str, byte_at, host16_at}
use ipk_projekt.Deserialize.RoundTrip.{Succeeds}
use ipk_projekt.Listener.Delivery.{confirm-received, confirm_arrival, sleep-arrivals}
use ipk_projekt.Udp.Rounds.{Delivers, sent_to, counted, send_until_confirmed_first}
use ipk_projekt.Listener.Answer.{reply_arrival, port_text, reply-received, opened}
use ipk_projekt.Listener.{listen, sleep}
use ipk_projekt.Ids.Confirm.{IsValid}
use ipk_projekt.Ids.{scan}
use ipk_projekt.Serialize.Layout.{header, field}
use ipk_projekt.Udp.{send_network_msg_udp, send_resolved, send_until_confirmed}
use ipk_projekt.Memory.Laws.{host16_at-net16}
use ipk_projekt.Client.Entry.{auth_line, taken, auth_line_lem}
use ipk_projekt.Commands.{token_at, drop_spaces}

-- What the server answers during the first sleep, and where its answers are sent.
pub record Answer : Type 0 where
  pub confirm_port : ℕ
  pub reply_port : ℕ
  pub id : ℕ
  pub ref : ℕ
  pub content : Bytes
  pub id_ok : id < 65536
  pub ref_ok : ref < 65536
  pub content_ok : IsText content
  pub some_content : 1 ≤ length content
  pub content_short : length content ≤ 59999

abbrev pub answers : Answer → List Arrival
answers r =
    confirm_arrival r.confirm_port 0 ∷ (reply_arrival r.reply_port r.id r.ref r.content ∷ [])

module _ (cfg : Config) (a : Account) (r : Answer) (address address' : ℕ)
    (later : List (List Arrival)) (roomy : Succeeds cfg.malloc) (delivers : Delivers cfg)
    (udp : cfg.use_tcp_protocol ≡ false)
    (resolves' : cfg.resolve cfg.hostname (port_text r.reply_port) ≡ some address') where
  -- The client as it is when nothing has been sent yet.
  pub record IsFresh (w : World) : Type 0 where
    pub valid : IsValid w.confirmed
    pub nothing_sent : w.confirmed.index ≡ 0
    pub first : w.has_changed_to_dyn_port ≡ false
    pub room : length r.content + 7 < length w.recv_buffer
    pub resolves : cfg.resolve cfg.hostname w.port ≡ some address
    pub answered_next : w.arrivals ≡ answers r ∷ later

  -- What the rest of the program relies on.
  pub record Carried (w w' : World) : Type 0 where
    pub valid : IsValid w'.confirmed
    pub cells_kept : w.confirmed.array_size ≤ w'.confirmed.array_size
    pub buffer_kept : length w'.recv_buffer ≡ length w.recv_buffer
    pub seen_kept : w'.seen ≡ w.seen
    pub rest_to_come : w'.arrivals ≡ later
    pub port_changed : w'.has_changed_to_dyn_port ≡ true

  -- The first sleep, in which CONFIRM and REPLY are handled.
  slept :
      (w : World)
      → IsFresh w
      → w.state ≡ state_auth
      → (w' : World) × (sleep cfg (sent_to address (auth_packet a) (counted w)) ≡ (ok tt, w'))
        × (scan 0 w'.confirmed.ids w'.confirmed.index ≡ ok true)
        × (w'.confirmed.index ≡ 1)
        × (w'.state ≡ state_open)
        × (w'.printed ≡ w.printed ++ (action_success r.content ∷ []))
        × (w'.sent
            ≡ (w.sent ++ (record { to = address; payload = auth_packet a } ∷ []))
              ++ (record { to = address'; payload = header 0 r.id [] } ∷ []))
        × (w'.display_name ≡ w.display_name)
        × (w'.port ≡ port_text r.reply_port)
        × Carried w w'
        × (w'.line ≡ w.line)
  unfolding listen
  slept w f in_auth =
      let w0 : World = record (sent_to address (auth_packet a) (counted w)) { arrivals = later } in
      let (c, b, confirmed, found, i, n, s, v) =
        confirm-received cfg r.confirm_port 0 w0 roomy (omega arith) (omega (arith, f.room))
          (record { sized = f.valid.sized; nonempty = f.valid.nonempty }) (omega arith)
          (omega (arith, f.nothing_sent, f.valid.nonempty)) in
      let (b', replied, n') =
        reply-received cfg address' r.reply_port r.id r.ref r.content
          (record w0 { recv_buffer = b; confirmed = c }) roomy delivers r.id_ok r.ref_ok
          r.content_ok resolves' in_auth f.first r.some_content r.content_short
          (omega (arith, n, f.room)) in
      (
        opened address' r.id r.reply_port r.content b'
            (record w0 { recv_buffer = b; confirmed = c }),
        sleep-arrivals cfg (answers r) later (sent_to address (auth_packet a) (counted w))
              f.answered_next
            ∙ rw (confirmed, replied),
        found,
        omega (arith, i, f.nothing_sent),
        refl,
        refl,
        refl,
        refl,
        refl,
        record {
          valid = v;
          cells_kept = s;
          buffer_kept = n' ∙ n;
          seen_kept = refl;
          rest_to_come = refl;
          port_changed = refl;
        },
        refl,
      )

  send_packet_lem :
      (w w' : World)
      → cfg.resolve cfg.hostname w.port ≡ some address
      → sleep cfg (sent_to address (auth_packet a) (counted w)) ≡ (ok tt, w')
      → scan 0 w'.confirmed.ids w'.confirmed.index ≡ ok true
      → send_network_msg_udp (sleep cfg) cfg (auth_packet a, auth_size a) w ≡ (ok tt, w')
  unfolding send_network_msg_udp send_resolved send_until_confirmed byte_at host16_at
  send_packet_lem w w' resolves asleep found =
      let whole : take (auth_size a) (auth_packet a) ≡ auth_packet a =
        take-all (auth_size a) (auth_packet a) (omega (arith, length-auth_packet a)) in
      let asleep' : sleep cfg (sent_to address (take (auth_size a) (auth_packet a)) (counted w))
          ≡ (ok tt, w') =
        ap (λ p. sleep cfg (sent_to address p (counted w))) whole ∙ asleep in
      rw resolves (
        send_until_confirmed_first (sleep cfg) cfg address (auth_packet a) (auth_size a) 0 w w'
          delivers
          (host16_at-net16 (2 ∷ []) (field a.username (field a.name (field a.secret []))) 0 1 refl
            (omega arith))
          asleep' found)

  pub logged_in :
      (w : World)
      → IsFresh w
      → w.state ≡ state_start
      → (w' : World) × (main_round cfg (auth_line a) w ≡ (ok tt, w'))
        × (w'.state ≡ state_open)
        × (w'.printed ≡ w.printed ++ (action_success r.content ∷ []))
        × (w'.sent
            ≡ (w.sent ++ (record { to = address; payload = auth_packet a } ∷ []))
              ++ (record { to = address'; payload = header 0 r.id [] } ∷ []))
        × (c_str w'.display_name ≡ ok a.name)
        × (w'.port ≡ port_text r.reply_port)
        × (w'.confirmed.index ≡ 1)
        × Carried w w'
        × (w'.line ≡ login_line a (token_at (drop_spaces (arguments a)) w.line))
  logged_in w f start =
      let (w', asleep, found, i, s, p, sent, d, port, carried, l) =
        slept (named a (taken a w))
          (record {
            valid = f.valid;
            nothing_sent = f.nothing_sent;
            first = f.first;
            room = f.room;
            resolves = f.resolves;
            answered_next = f.answered_next;
          })
          refl in
      (
        w',
        auth_line_lem cfg a w start
            ∙ cmd_auth_lem cfg a (taken a w) roomy udp f.nothing_sent refl
            ∙ send_packet_lem (named a (taken a w)) w' f.resolves asleep found,
        s,
        p,
        sent,
        ap c_str d ∙ name_text a,
        port,
        i,
        record {
          valid = carried.valid;
          cells_kept = carried.cells_kept;
          buffer_kept = carried.buffer_kept;
          seen_kept = carried.seen_kept;
          rest_to_come = carried.rest_to_come;
          port_changed = carried.port_changed;
        },
        l,
      )

  -- Logging in over UDP: the user enters `/auth` with a valid user name, secret and display name of 1
  -- to 19 characters, and during the first sleep the server confirms the AUTH and replies to it with
  -- success, from the port of its own. Then the client is in OPEN, it has printed the server's
  -- success and nothing else, it has sent the AUTH once to the old address and the CONFIRM of the
  -- REPLY to the new one, it goes by the display name, and it sends to the new port from now on. The
  -- client was in START and had sent nothing; there is memory, and the network delivers.
  pub login :
      (w : World)
      → IsFresh w
      → w.state ≡ state_start
      → (w' : World) × (main_round cfg (auth_line a) w ≡ (ok tt, w'))
        × (w'.state ≡ state_open)
        × (w'.printed ≡ w.printed ++ (action_success r.content ∷ []))
        × (w'.sent
            ≡ (w.sent ++ (record { to = address; payload = auth_packet a } ∷ []))
              ++ (record { to = address'; payload = header 0 r.id [] } ∷ []))
        × (c_str w'.display_name ≡ ok a.name)
        × (w'.port ≡ port_text r.reply_port)
        × (w'.confirmed.index ≡ 1)
  login w f start =
      let (w', e, s, p, sent, d, port, i, _, _) = logged_in w f start in
      (w', e, s, p, sent, d, port, i)
