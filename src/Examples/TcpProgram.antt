-- ===== src/Examples/TcpProgram.antt =====
-- A whole run of src/main.c over TCP at a concrete input.
use ipk_projekt.Client.TcpTalk.{TcpTurn, Joining, said, passed, renamed, joined, helped}
use ipk_projekt.Program.TcpSession.{Connects, main-tcp_session}
use ipk_projekt.Program.{main}
use ipk_projekt.Base.{
  codes, List, arith, true, ◌∷◌, some, [], false, ◌≡◌, refl, ok, exits, exit_success,
}
use ipk_projekt.World.{World, action_success, chat, action_failure, usage}
use ipk_projekt.Args.Options.{transport, spelled, server}
use ipk_projekt.Startup.{System}
use ipk_projekt.Examples.Start.{host}
use ipk_projekt.Examples.Setup.{hi, hi-IsText, plenty-Succeeds, nick}
use ipk_projekt.Examples.Session.{post, account}
use ipk_projekt.Client.TcpWhole.{whole}
use ipk_projekt.Examples.Stream.{hi-IsContent}
use ipk_projekt.Client.{interrupt}
use ipk_projekt.Commands.{drop_spaces}

-- A channel that the server refuses, with a message behind the REPLY.
abbrev refused : Joining
refused = record {
  channel = codes "room";
  result = 0;
  content = hi;
  posts = post ∷ [];
  channel_ok = omega arith;
  result_ok = omega arith;
  content_ok = hi-IsContent;
  content_text = hi-IsText;
}

abbrev turns : List TcpTurn
turns =
    said 104 (codes "i") (omega arith) (omega arith)
    ∷ (passed post (post ∷ [])
        ∷ (joined refused
            ∷ (renamed (codes "me") (omega arith)
                ∷ (helped ∷ (said 111 (codes "k") (omega arith) (omega arith) ∷ [])))))

-- The first address refuses the connection.
abbrev server_online : System
server_online = record host { addresses = λ _ _. some ((true, false) ∷ ((true, true) ∷ [])) }

server_online-Connects :
    Connects server_online
      (transport true)
      (server hi ∷ [])
      hi
      ((true, false) ∷ [])
      []
      account
      hi
      (post ∷ [])
      turns
      interrupt
unfolding drop_spaces
server_online-Connects = record {
  roomy = plenty-Succeeds;
  delivers = λ _. refl;
  registered = refl;
  thread = refl;
  lines_fit = (omega arith, (tt, (omega arith, (omega arith, (omega arith, (omega arith, tt))))));
  connects = refl;
}

main-tcp_session_example :
    (w' : World) × (main server_online
        (spelled (transport true ∷ (server hi ∷ [])))
        (whole account hi (post ∷ []) turns interrupt [])
      ≡ ok (exits exit_success, w'))
    × (w'.tcp_sent
        ≡ codes "AUTH u AS nick USING s\r\n"
          ∷ (codes "MSG FROM nick IS hi\r\n"
              ∷ (codes "JOIN room AS nick\r\n"
                  ∷ (codes "MSG FROM me IS ok\r\n" ∷ (codes "BYE FROM me\r\n" ∷ [])))))
    × (w'.printed
        ≡ action_success hi
          ∷ (chat nick hi
              ∷ (chat nick hi
                  ∷ (chat nick hi ∷ (action_failure hi ∷ (chat nick hi ∷ (usage ∷ [])))))))
    × (w'.sent ≡ [])
main-tcp_session_example =
    main-tcp_session server_online (transport true) (server hi ∷ []) hi ((true, false) ∷ []) []
      account hi (post ∷ []) turns interrupt [] (tt, ((λ e. omega arith), tt)) refl refl
      server_online-Connects hi-IsContent hi-IsText tt
