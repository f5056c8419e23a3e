-- ===== src/Examples/Session.antt =====
-- The theorems on whole runs of src/main.c, on blocks of memory and on the cleanup, at concrete inputs.
use ipk_projekt.Base.{
  List, codes, arith, [], ◌∷◌, ◌≡◌, refl, ok, Result, length, true, some, none, fault, ℕ, false,
  exits, ◌++◌, Bool, replicate,
}
use ipk_projekt.Commands.Login.{Account, auth_packet}
use ipk_projekt.Listener.{show_decimal, receive}
use ipk_projekt.Client.Entry.{auth_line}
use ipk_projekt.Client.Login.{Answer, answers, login}
use ipk_projekt.Client.{main_round, Event, input, datagrams, end_of_input}
use ipk_projekt.World.{World, state_open, action_success, chat, Config, in_block}
use ipk_projekt.Examples.Setup.{
  answering, started, udp_config, hi, nick, hi-IsText, plenty-Succeeds, in_state, nick-IsText,
}
use ipk_projekt.Commands.{token, drop_spaces}
use ipk_projekt.Handlers.Replies.{reply_buffer}
use ipk_projekt.Serialize.Layout.{header}
use ipk_projekt.Memory.{c_str, Bytes}
use ipk_projekt.Blocks.{
  remove, malformed_case, confirm_case, reply_case, msg_case, ping_case, err_case, bye_case,
  send_command, cmd_msg_blocks,
}
use ipk_projekt.Blocks.Release.{Leaks, Restores, malformed_case_twice, handlers-Restores}
use ipk_projekt.Cleanup.Once.{
  closed_in, open_udp_unbound, call_all, listener_ends, closes, cleanup_once,
}
use ipk_projekt.Cleanup.{Resources, open_udp, ends_unbound, cleanup}
use ipk_projekt.Commands.Message.{msg_packet}
use ipk_projekt.Listener.Delivery.{confirm_arrival}
use ipk_projekt.Listener.Relay.{msg_arrival}
use ipk_projekt.Ids.Cells.{elem}
use ipk_projekt.Ids.Dedup.{view}
use ipk_projekt.Client.Chat.{send_and_show}
use ipk_projekt.TcpListener.Posts.{Post}

-- `/auth` took a block of 40 bytes, and left `line` behind its user name and secret.
abbrev moved_line : World
moved_line = record (started []) { state = state_open; line = in_block 10 40 14 }

abbrev unknown_user : List Event
unknown_user =
    input (codes "/rename me\n")
    ∷ (datagrams (record { sender_port = 5000; payload = reply_buffer 3 1 0 hi [] } ∷ [])
        ∷ (end_of_input ∷ []))

abbrev first_word_length : Result Bytes → ℕ
first_word_length (ok text) = length (token (drop_spaces text))
first_word_length (exits status) = 0
first_word_length fault = 0

abbrev pub account : Account
account = record {
  username = codes "u";
  secret = codes "s";
  name = nick;
  username_ok = omega arith;
  secret_ok = omega arith;
  name_ok = omega arith;
}

abbrev pub welcome : Answer
welcome = record {
  confirm_port = 4567;
  reply_port = 5000;
  id = 3;
  ref = 0;
  content = hi;
  id_ok = omega arith;
  ref_ok = omega arith;
  content_ok = hi-IsText;
  some_content = omega arith;
  content_short = omega arith;
}

abbrev expecting : World
expecting = started (answers welcome ∷ [])

login_example :
    (w' : World) × (main_round udp_config (auth_line account) expecting ≡ (ok tt, w'))
    × (w'.state ≡ state_open)
    × (w'.printed ≡ action_success hi ∷ [])
    × (w'.sent
        ≡ record { to = 4; payload = auth_packet account }
          ∷ (record { to = 4; payload = header 0 3 [] } ∷ []))
    × (c_str w'.display_name ≡ ok nick)
    × (w'.port ≡ codes "5000")
    × (w'.confirmed.index ≡ 1)
unfolding show_decimal
login_example =
    login udp_config account welcome 4 4 [] plenty-Succeeds (λ _. refl) refl refl expecting
      (record {
        valid = record { sized = refl; nonempty = omega arith };
        nothing_sent = refl;
        first = refl;
        room = omega arith;
        resolves = refl;
        answered_next = refl;
      })
      refl

abbrev pub talking : World
talking = record (started ((confirm_arrival 4567 0 ∷ []) ∷ [])) {
  state = state_open;
  display_name = nick ++ replicate 16 0;
}

send_and_show_example :
    ((w' : World) × (main_round udp_config (codes "hi\n") talking ≡ (ok tt, w'))
      × (w'.sent ≡ record { to = 4; payload = msg_packet 0 nick hi } ∷ [])
      × (w'.confirmed.index ≡ 1)
      × (w'.state ≡ state_open)
      × (w'.printed ≡ []))
    × (v' : World) × (receive udp_config (msg_arrival 4567 9 nick hi) (in_state state_open)
        ≡ (ok tt, v'))
    × (v'.printed ≡ chat nick hi ∷ [])
    × (v'.sent ≡ record { to = 4; payload = header 0 9 [] } ∷ [])
    × (elem 9 (view v'.seen) ≡ true)
    × (v'.state ≡ state_open)
unfolding c_str
send_and_show_example =
    send_and_show udp_config nick 104 (codes "i") plenty-Succeeds refl (omega arith) (omega arith)
      udp_config 4 4567 4 4567 9 talking (in_state state_open) (λ _. refl)
      (record {
        in_open = refl;
        small = omega arith;
        called = refl;
        resolves = refl;
        room = omega arith;
        valid = record { sized = refl; nonempty = omega arith };
        cell = omega arith;
        later = [];
        confirmed_next = refl;
      })
      (omega arith)
      (record {
        in_open = refl;
        answering = answering state_open;
        valid = record { sized = refl; nonempty = omega arith; within = omega arith };
        new = refl;
        room = omega arith;
      })

handlers-Restores_example :
    Restores (λ _. true) (λ _. refl) (confirm_case (λ _. true))
    × Leaks (λ _. true) (λ _. refl) (reply_case (λ _. true))
    × Leaks (λ _. true) (λ _. refl) (msg_case (λ _. true))
    × Leaks (λ _. true) (λ _. refl) (ping_case (λ _. true))
    × Leaks (λ _. true) (λ _. refl) (err_case (λ _. true))
    × Leaks (λ _. true) (λ _. refl) (bye_case (λ _. true))
    × Restores (λ _. true) (λ _. refl) (send_command (λ _. true))
    × ((tcp : Bool) → Restores (λ _. true) (λ _. refl) (cmd_msg_blocks (λ _. true) tcp))
handlers-Restores_example = handlers-Restores (λ _. true) (λ _. refl)

malformed_case_twice_example :
    malformed_case (λ _. true) (record { next = 3; live = 2 ∷ (1 ∷ []) }) ≡ fault
unfolding remove
malformed_case_twice_example =
    malformed_case_twice (λ _. true) (λ _. refl) (record { next = 3; live = 2 ∷ (1 ∷ []) })
      (omega arith) refl

abbrev connected_process : Resources
connected_process = record {
  tcp_socket = some 5;
  udp_socket = none;
  listener_thread_running = true;
  has_servinfo = false;
  done = [];
}

cleanup_once_example :
    closed_in (cleanup true (call_all (listener_ends ∷ (closes ∷ [])) connected_process)).done
    ≡ 5 ∷ []
unfolding closed_in
cleanup_once_example = cleanup_once 5 (listener_ends ∷ (closes ∷ [])) connected_process refl refl

open_udp_unbound_example :
    (r' : Resources) × (open_udp (some 6) false connected_process ≡ ends_unbound r')
    × (closed_in (cleanup false r').done ≡ closed_in connected_process.done ++ (6 ∷ (6 ∷ [])))
open_udp_unbound_example = open_udp_unbound 6 connected_process

abbrev pub tcp_config : Config
tcp_config = record udp_config { use_tcp_protocol = true }

abbrev pub over_tcp : World
over_tcp = record (started []) { tcp_connected = true }

abbrev pub post : Post
post = record {
  name = nick;
  content = hi;
  one_word = omega arith;
  name_line = omega arith;
  content_line = omega arith;
  name_text = nick-IsText;
  content_text = hi-IsText;
  name_short = omega arith;
  content_short = omega arith;
}
