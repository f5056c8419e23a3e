-- ===== src/Client/Whole.antt =====
-- A whole session over UDP, from `/auth` to the end of the input: the loop of src/main.c with everything that
-- it calls, and the listener of src/network_udp.c beside it.
use Prim.Native.Nat.{ℕ}
use ipk_projekt.Ids.Dedup.{view, Answers}
use ipk_projekt.Client.Login.{Answer, answers, IsFresh, logged_in}
use ipk_projekt.Commands.Login.{Account, auth_packet}
use ipk_projekt.World.{
  Config, Arrival, Datagram, World, state_start, action_success, state_open, no_block,
}
use ipk_projekt.Base.{
  exit_success, List, ◌∷◌, ◌≡◌, map, false, [], ◌+◌, ◌++◌, some, arith, length, ◌≤◌, exits, ap, ◌∙◌,
  subst, sym, append_assoc,
}
use ipk_projekt.Client.Talk.{
  event_of, Turn, Talk, brought_all, after_turns, sent_by, shown_by, IsOpen, LinesFit,
}
use ipk_projekt.Client.{Event, input, run, step}
use ipk_projekt.Deserialize.RoundTrip.{Succeeds}
use ipk_projekt.Client.Entry.{auth_line}
use ipk_projekt.Udp.Rounds.{Delivers}
use ipk_projekt.Serialize.Layout.{header}
use ipk_projekt.Listener.Delivery.{confirm_arrival}
use ipk_projekt.Client.Quit.{Quits, bye_packet, run_quits}
use ipk_projekt.Listener.Answer.{port_text}
use ipk_projekt.Validation.Charset.{Fits, IsBetween}
use ipk_projekt.Client.Conversation.{AllTurnsFit, run-Talked}
use ipk_projekt.Client.Room.{after_login, read_in, step-main_round, HasRoom}
use ipk_projekt.Ids.Dedup

-- The user logs in, talks, and ends the session.
abbrev pub session_events : Account → List Turn → Event → List Event → List Event
session_events a turns e rest = input (auth_line a) ∷ (map event_of turns ++ (e ∷ rest))

-- The conversation begins under the name of the account, with the id 1.
abbrev pub first_talk : Account → List ℕ → Talk
first_talk a ids = record { name = a.name; next = 1; known = ids }

abbrev pub last_talk : Account → List ℕ → List Turn → Talk
last_talk a ids turns = after_turns turns (first_talk a ids)

-- What the server sends during the sleeps: the answers to AUTH, those of the conversation, and the CONFIRM
-- of the BYE.
abbrev pub bye_confirmed : ℕ → Talk → List (List Arrival) → List (List Arrival)
bye_confirmed port t later = (confirm_arrival port t.next ∷ []) ∷ later

abbrev pub talk_arrivals :
    Account → List ℕ → ℕ → List Turn → List (List Arrival) → List (List Arrival)
talk_arrivals a ids port turns later =
    brought_all port turns (first_talk a ids) (bye_confirmed port (last_talk a ids turns) later)

abbrev pub session_arrivals :
    Account → Answer → List ℕ → ℕ → List Turn → List (List Arrival) → List (List Arrival)
session_arrivals a r ids port turns later = answers r ∷ talk_arrivals a ids port turns later

-- What the client sends: AUTH to the port that it was given, and all the rest to the port of the REPLY.
abbrev pub session_sent : Account → Answer → List ℕ → ℕ → ℕ → List Turn → List Datagram
session_sent a r ids address address' turns =
    record { to = address; payload = auth_packet a }
    ∷ (record { to = address'; payload = header 0 r.id [] }
        ∷ (sent_by address' turns (first_talk a ids)
            ++ (record {
              to = address';
              payload = bye_packet (last_talk a ids turns).next (last_talk a ids turns).name;
            }
                ∷ [])))

module _ (cfg : Config) (a : Account) (r : Answer) (address address' port limit : ℕ) (ids : List ℕ)
    (turns : List Turn) (e : Event) (later : List (List Arrival)) (roomy : Succeeds cfg.malloc)
    (delivers : Delivers cfg) (udp : cfg.use_tcp_protocol ≡ false) (quits : Quits e)
    (resolves' : cfg.resolve cfg.hostname (port_text r.reply_port) ≡ some address') where
  abbrev pub IsFirst : World → Type 0
  IsFirst w =
      IsFresh cfg a r address address' (talk_arrivals a ids port turns later) roomy delivers udp
        resolves' w

  valid_name : Fits 20 (IsBetween 0x21 0x7E) a.name
  valid_name = (a.name_ok.0, omega (arith, a.name_ok.1), a.name_ok.2)

  abbrev last : Talk
  last = last_talk a ids turns

  -- Logging in, a conversation and the end, from a fresh client in START whose known ids are given: what is
  -- sent and printed is what the three make, and the process ends with success.
  pub run-whole :
      (rest : List Event) (w : World)
      → IsFirst w
      → w.state ≡ state_start
      → Dedup.IsValid w.seen
      → view w.seen ≡ ids
      → w.line ≡ no_block
      → LinesFit cfg.getline_size turns (after_login cfg.getline_size a no_block)
      → AllTurnsFit (length w.recv_buffer) turns
      → last.next + 1 ≤ limit
      → limit ≤ w.confirmed.array_size
      → limit ≤ 65536
      → (w' : World) × (run cfg (session_events a turns e rest) w ≡ (exits exit_success, w'))
        × (w'.sent ≡ w.sent ++ session_sent a r ids address address' turns)
        × (w'.printed ≡ w.printed ++ (action_success r.content ∷ shown_by turns (first_talk a ids)))
        × (w'.state ≡ state_open)
  unfolding run step
  run-whole rest w fresh' start seen_ok known first_line room fits few cells small =
      let w0 : World = read_in cfg (auth_line a) w in
      let fresh0 : IsFirst w0 = record {
        valid = fresh'.valid;
        nothing_sent = fresh'.nothing_sent;
        first = fresh'.first;
        room = fresh'.room;
        resolves = fresh'.resolves;
        answered_next = fresh'.answered_next;
      } in
      let (w1, e1, open1, printed1, sent1, called1, port1, index1, carried, moved) =
        logged_in cfg a r address address' (talk_arrivals a ids port turns later) roomy delivers udp
          resolves' w0 fresh0 start in
      let size : ℕ = length w.recv_buffer in
      let is_open : IsOpen cfg address' size limit (first_talk a ids) w1 = record {
        in_open = open1;
        called = called1;
        name_ok = valid_name;
        counts = index1;
        knows = ap view carried.seen_kept ∙ known;
        resolves = ap (cfg.resolve cfg.hostname) port1 ∙ resolves';
        port_changed = carried.port_changed;
        valid = carried.valid;
        seen_valid = subst Dedup.IsValid (sym carried.seen_kept) seen_ok;
        sized = carried.buffer_kept;
        cells = omega (arith, carried.cells_kept);
      } in
      let (w2, talked) =
        run-Talked cfg address' port size limit
          (record {
            roomy = roomy;
            delivers = delivers;
            udp = udp;
            room = omega (arith, fresh'.room);
            limited = small;
          })
          turns (first_talk a ids) (bye_confirmed port last later) w1 is_open
          (subst (LinesFit cfg.getline_size turns)
            (sym (moved ∙ ap (after_login cfg.getline_size a) first_line)) room)
          fits (omega arith) carried.rest_to_come in
      let (w3, e3, sent3, printed3, state3) =
        run_quits cfg e last.name roomy delivers udp quits address' port later rest w2
          (record {
            called = talked.is_open.called;
            small = omega (arith, talked.is_open.counts);
            resolves = talked.is_open.resolves;
          })
          (omega (arith, talked.is_open.sized, fresh'.room)) talked.is_open.valid
          (omega (arith, talked.is_open.counts, talked.is_open.cells))
          (talked.to_come
            ∙ ap (λ k. (confirm_arrival port k ∷ []) ∷ later) (sym talked.is_open.counts)) in
      (
        w3,
        rw
            (
              step-main_round cfg (auth_line a) w
                  (subst (HasRoom (auth_line a)) (sym first_line) tt),
              e1,
            )
            (talked.runs (e ∷ rest) ∙ e3),
        sent3
            ∙ (λ i.
                talked.sent i
                ++ (record {
                  to = address';
                  payload = bye_packet (talked.is_open.counts i) last.name;
                }
                    ∷ []))
            ∙ (λ i.
                (sent1 i ++ sent_by address' turns (first_talk a ids))
                ++ (record { to = address'; payload = bye_packet last.next last.name } ∷ []))
            ∙ simp (append_assoc),
        printed3
            ∙ talked.shown
            ∙ (λ i. printed1 i ++ shown_by turns (first_talk a ids))
            ∙ append_assoc w.printed _ _,
        state3 ∙ talked.is_open.in_open,
      )
