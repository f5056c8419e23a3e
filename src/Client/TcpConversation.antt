-- ===== src/Client/TcpConversation.antt =====
-- A conversation over TCP, both ways: the loop of src/main.c with the commands on the user's side, and
-- `tcp_listener` of src/network_tcp.c on the server's, against Client/TcpTalk.
use ipk_projekt.Client.TcpTalk.{
  LineFits, LinesFit, said, passed, renamed, joined, helped, TcpTurn, after, after_turns, events_by,
  sent_by, shown_by, IsOn,
}
use ipk_projekt.Client.TcpTurns.{
  Talked, Does, said-Does, passed-Does, renamed-Does, joined-Does, helped-Does,
}
use ipk_projekt.World.{Config, World}
use ipk_projekt.Deserialize.RoundTrip.{Succeeds}
use ipk_projekt.Udp.Rounds.{Delivers}
use ipk_projekt.Base.{
  refl, ◌≡◌, true, List, sym, append-nil, ◌∷◌, ◌∙◌, ◌++◌, append_assoc, [], subst,
}
use ipk_projekt.Memory.{Bytes}
use ipk_projekt.Client.{Event}

module _ (cfg : Config) (roomy : Succeeds cfg.malloc) (delivers : Delivers cfg)
    (tcp : cfg.use_tcp_protocol ≡ true) where
  turn-Does :
      (turn : TcpTurn) (name : Bytes) (rest : List Event) (w : World)
      → IsOn name w
      → LineFits turn w.line
      → (w1 : World) × Does cfg roomy delivers tcp turn name rest w w1
  turn-Does (said c s h fits) name rest w o room =
      said-Does cfg roomy delivers tcp c s h fits name rest w o room
  turn-Does (passed p posts) name rest w o room =
      passed-Does cfg roomy delivers tcp p posts name rest w o
  turn-Does (renamed new h) name rest w o room =
      renamed-Does cfg roomy delivers tcp new h name rest w o room
  turn-Does (joined j) name rest w o room = joined-Does cfg roomy delivers tcp j name rest w o room
  turn-Does helped name rest w o room = helped-Does cfg roomy delivers tcp name rest w o room

  -- A conversation over TCP in OPEN, of any length and in any order of lines and chunks: what the client
  -- sends and shows is what Client/TcpTalk says, turn by turn, and it is in OPEN again, provided that
  -- each line has room where `line` points.
  pub run-Talked :
      (turns : List TcpTurn) (name : Bytes) (rest : List Event) (w : World)
      → IsOn name w
      → LinesFit cfg.getline_size turns w.line
      → (w' : World) × Talked cfg roomy delivers tcp
          (sent_by turns name)
          (shown_by turns)
          (after_turns turns name)
          (events_by turns rest)
          rest
          w
          w'
  run-Talked [] name rest w o room = (
    w,
    record {
      runs = refl;
      is_on = o;
      sent = sym (append-nil w.tcp_sent);
      shown = sym (append-nil w.printed);
      no_datagram = refl;
    },
  )
  run-Talked (turn ∷ turns) name rest w o room =
      let (w1, turned) = turn-Does turn name (events_by turns rest) w o room.0 in
      let first = turned.talked in
      let (w', others) =
        run-Talked turns (after turn name) rest w1 first.is_on
          (subst (LinesFit cfg.getline_size turns) (sym turned.line_kept) room.1) in
      (
        w',
        record {
          runs = first.runs ∙ others.runs;
          is_on = others.is_on;
          sent =
              others.sent
              ∙ (λ i. first.sent i ++ sent_by turns (after turn name))
              ∙ append_assoc w.tcp_sent _ _;
          shown =
              others.shown ∙ (λ i. first.shown i ++ shown_by turns) ∙ append_assoc w.printed _ _;
          no_datagram = others.no_datagram ∙ first.no_datagram;
        },
      )
