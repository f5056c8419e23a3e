-- ===== src/Examples/Program.antt =====
-- A whole run of src/main.c and the theorems on conversations at concrete inputs.
use ipk_projekt.Examples.Session.{account, welcome}
use ipk_projekt.Base.{
  List, [], codes, arith, false, map, ◌∷◌, ◌≡◌, ok, exits, exit_success, length, inr, inl, refl,
  ◌++◌, replicate, true,
}
use ipk_projekt.Startup.{System}
use ipk_projekt.Memory.{Bytes, c_str}
use ipk_projekt.Listener.{show_decimal, listen}
use ipk_projekt.World.{World, state_open, chat, action_success, action_failure, usage}
use ipk_projekt.Listener.Inbox.{Incoming, arrival_of, listen-fresh}
use ipk_projekt.Examples.Setup.{
  nick, started, hi, udp_config, nick-IsText, hi-IsText, plenty-Succeeds,
}
use ipk_projekt.Program.{main}
use ipk_projekt.Program.Session.{Offers, main-session}
use ipk_projekt.Client.Conversation.{AllTurnsFit, Talked, run-Talked}
use ipk_projekt.Client.Talk.{Turn, Talk, Joining, said, heard, renamed, joined, helped, brought_all}
use ipk_projekt.Client.Turns.{Grants}
use ipk_projekt.Examples.Start.{host}
use ipk_projekt.Ids.{Seen}
use ipk_projekt.Args.Options.{spelled, transport, server}
use ipk_projekt.Client.Whole.{session_arrivals, session_events}
use ipk_projekt.Client.{end_of_input}
use ipk_projekt.Serialize.Layout.{header}
use ipk_projekt.Commands.Login.{auth_packet}
use ipk_projekt.Ids.Dedup.{IsValid, view}
use ipk_projekt.Commands.Message.{msg_packet}
use ipk_projekt.Client.Quit.{bye_packet}
use ipk_projekt.Commands.Join.{join_packet}
use ipk_projekt.Commands.{drop_spaces}

-- A message that the server relays, which comes twice.
abbrev news : Incoming
news = record {
  sender = 5000;
  id = 9;
  name = nick;
  content = hi;
  small = omega arith;
  name_text = nick-IsText;
  content_text = hi-IsText;
  some_text = omega arith;
  fits = omega arith;
}

-- A channel that the server refuses.
abbrev refused : Joining
refused = record {
  channel = codes "room";
  confirm_port = 5000;
  reply_port = 5000;
  result = 0;
  id = 10;
  ref = 2;
  content = hi;
  channel_ok = omega arith;
  result_ok = omega arith;
  id_ok = omega arith;
  ref_ok = omega arith;
  content_ok = hi-IsText;
  some_content = omega arith;
  content_short = omega arith;
}

abbrev turns : List Turn
turns =
    said 104 (codes "i") (omega arith)
    ∷ (heard (news ∷ (news ∷ []))
        ∷ (joined refused
            ∷ (renamed (codes "me") (omega arith)
                ∷ (helped ∷ (said 111 (codes "k") (omega arith) ∷ [])))))

turns_fit : AllTurnsFit 64 turns
turns_fit = (tt, ((omega arith, (omega arith, tt)), (omega arith, (tt, (tt, (tt, tt))))))

abbrev online : System
online = record host { network = session_arrivals account welcome [] 5000 turns [] }

online-Offers :
    Offers online
      (transport false)
      (server hi ∷ [])
      hi
      account
      welcome
      4
      4
      5000
      turns
      end_of_input
      []
unfolding show_decimal drop_spaces
online-Offers = record {
  roomy = plenty-Succeeds;
  delivers = λ _. refl;
  registered = refl;
  thread = refl;
  resolves = refl;
  resolves' = refl;
  room = omega arith;
  lines_fit = (omega arith, (tt, (omega arith, (omega arith, (omega arith, (omega arith, tt))))));
  fits = turns_fit;
  network = refl;
}

main-session_example :
    (w' : World) × (main online
        (spelled (transport false ∷ (server hi ∷ [])))
        (session_events account turns end_of_input [])
      ≡ ok (exits exit_success, w'))
    × (w'.sent
        ≡ record { to = 4; payload = auth_packet account }
          ∷ (record { to = 4; payload = header 0 3 [] }
              ∷ (record { to = 4; payload = msg_packet 1 nick hi }
                  ∷ (record { to = 4; payload = header 0 9 [] }
                      ∷ (record { to = 4; payload = header 0 9 [] }
                          ∷ (record { to = 4; payload = join_packet 2 (codes "room") nick }
                              ∷ (record { to = 4; payload = header 0 10 [] }
                                  ∷ (record {
                                    to = 4;
                                    payload = msg_packet 3 (codes "me") (codes "ok");
                                  }
                                      ∷ (record { to = 4; payload = bye_packet 4 (codes "me") }
                                          ∷ [])))))))))
    × (w'.printed ≡ action_success hi ∷ (chat nick hi ∷ (action_failure hi ∷ (usage ∷ []))))
main-session_example =
    main-session online (transport false) (server hi ∷ []) hi account welcome 4 4 5000 turns
      end_of_input [] [] (tt, ((λ e. omega arith), tt)) refl refl online-Offers tt (omega arith)

-- A client in OPEN, and the messages that it hears.
abbrev listening : World
listening = record (started []) { state = state_open }

listen-fresh_example :
    (buffer : Bytes) × (seen : Seen) × (listen udp_config
        (map arrival_of (news ∷ (news ∷ [])))
        listening
      ≡ (
        ok tt,
        record listening {
          recv_buffer = buffer;
          seen = seen;
          printed = chat nick hi ∷ [];
          sent =
              record { to = 4; payload = header 0 9 [] }
              ∷ (record { to = 4; payload = header 0 9 [] } ∷ []);
          attempts = 2;
        },
      ))
    × IsValid seen
    × (view seen ≡ 9 ∷ [])
    × (length buffer ≡ 64)
listen-fresh_example = listen-fresh udp_config 4 (news ∷ (news ∷ [])) listening (record {
  answering = record { roomy = plenty-Succeeds; delivers = λ _. refl; resolves = refl };
  valid = record { sized = refl; nonempty = omega arith; within = omega arith };
  allowed = inr (inl refl);
  room = (omega arith, (omega arith, tt));
})

abbrev opening : Talk
opening = record { name = nick; next = 0; known = [] }

chatting_Grants : Grants udp_config 64 4
chatting_Grants = record {
  roomy = plenty-Succeeds;
  delivers = λ _. refl;
  udp = refl;
  room = omega arith;
  limited = omega arith;
}

-- A client in OPEN in the middle of it all.
abbrev chatting : World
chatting = record (started (brought_all 5000 turns opening [])) {
  state = state_open;
  display_name = nick ++ replicate 16 0;
  has_changed_to_dyn_port = true;
}

run-Talked_example :
    (w' : World) × Talked udp_config 4 5000 64 4 chatting_Grants turns opening [] chatting w'
unfolding c_str drop_spaces
run-Talked_example =
    run-Talked udp_config 4 5000 64 4 chatting_Grants turns opening [] chatting
      (record {
        in_open = refl;
        called = refl;
        name_ok = omega arith;
        counts = refl;
        knows = refl;
        resolves = refl;
        port_changed = refl;
        valid = record { sized = refl; nonempty = omega arith };
        seen_valid = record { sized = refl; nonempty = omega arith; within = omega arith };
        sized = refl;
        cells = omega arith;
      })
      (tt, (tt, (omega arith, (omega arith, (omega arith, (omega arith, tt)))))) turns_fit
      (omega arith) refl
