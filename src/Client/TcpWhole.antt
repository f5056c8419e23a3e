-- ===== src/Client/TcpWhole.antt =====
-- A whole session over TCP, from `/auth` to the end of the input: the loop of src/main.c and `tcp_listener`
-- of src/network_tcp.c.
use Prim.Native.Nat.{ℕ}
use ipk_projekt.Client.Quit.{Quits, step-graceful_quit}
use ipk_projekt.Client.TcpTalk.{
  LinesFit, TcpTurn, events_by, sent_by, shown_by, after_turns, IsOn, chunk_of,
}
use ipk_projekt.Client.TcpConversation.{run-Talked}
use ipk_projekt.Memory.{Bytes, IsText}
use ipk_projekt.Commands.Login.{name_text, Account, auth_text}
use ipk_projekt.World.{Config, Output, action_success, World, state_start, state_open, no_block}
use ipk_projekt.Base.{
  List, codes, ◌++◌, ◌≡◌, ◌∷◌, [], true, map, exits, exit_success, ◌+◌, length, ◌≤◌, arith,
  length-append, ◌∙◌, append_assoc, refl, take-all, subst, sym,
}
use ipk_projekt.Deserialize.RoundTrip.{Succeeds}
use ipk_projekt.TcpListener.Posts.{Post, chat_of, line_of}
use ipk_projekt.Udp.Rounds.{Delivers}
use ipk_projekt.Client.{Event, input, run, graceful_quit}
use ipk_projekt.Tcp.{crlf, send_tcp_bye_msg, send_network_msg_tcp}
use ipk_projekt.Client.Entry.{auth_line}
use ipk_projekt.TcpListener.Replies.{reply_line, IsContent}
use ipk_projekt.Handlers.{display_name_text}
use ipk_projekt.TcpListener.Stream.{empty}
use ipk_projekt.Client.Session.{logged_in_tcp, welcomed}
use ipk_projekt.Client.Room.{after_login}

-- The user logs in, talks, and ends the session; messages may come in the chunk of the REPLY.
abbrev pub whole : Account → Bytes → List Post → List TcpTurn → Event → List Event → List Event
whole a content posts turns e rest =
    input (auth_line a)
    ∷ (chunk_of (reply_line 1 content ∷ map line_of posts) ∷ events_by turns (e ∷ rest))

-- "BYE FROM ..." with the end of its line.
abbrev pub bye_text : Bytes → Bytes
bye_text name = codes "BYE FROM " ++ (name ++ crlf)

-- AUTH, what the turns send, and the BYE.
abbrev pub whole_sent : Account → List TcpTurn → List Bytes
whole_sent a turns =
    auth_text a ∷ (sent_by turns a.name ++ (bye_text (after_turns turns a.name) ∷ []))

abbrev pub whole_shown : Bytes → List Post → List TcpTurn → List Output
whole_shown content posts turns = action_success content ∷ (map chat_of posts ++ shown_by turns)

module _ (cfg : Config) (roomy : Succeeds cfg.malloc) (delivers : Delivers cfg)
    (tcp : cfg.use_tcp_protocol ≡ true) where
  -- At the end of the input and on SIGINT the BYE goes out.
  run_ends_tcp :
      (e : Event) (name : Bytes) (events : List Event) (w : World)
      → Quits e
      → IsOn name w
      → run cfg (e ∷ events) w ≡ (
        exits exit_success,
        record w { attempts = w.attempts + 1; tcp_sent = w.tcp_sent ++ (bye_text name ∷ []) },
      )
  unfolding run graceful_quit display_name_text send_tcp_bye_msg send_network_msg_tcp
  run_ends_tcp e name events w quits o =
      let short : length (bye_text name) ≤ 60006 =
        omega (arith, length-append name crlf, o.name_ok.1) in
      rw
        (
          step-graceful_quit cfg e quits,
          tcp,
          o.connected,
          o.called,
          take-all 60006 (bye_text name) short,
          delivers w.attempts,
        )
        refl

  -- Logging in, a conversation and the end, from a connected client in START with no line begun: what is
  -- sent and printed is what the three make, and the process ends with success.
  pub run-whole :
      (a : Account) (content : Bytes) (posts : List Post) (turns : List TcpTurn) (e : Event)
      (rest : List Event) (size : ℕ) (w : World)
      → IsContent content
      → IsText content
      → Quits e
      → w.state ≡ state_start
      → w.tcp_connected ≡ true
      → w.line_buffer ≡ empty size
      → w.line ≡ no_block
      → LinesFit cfg.getline_size turns (after_login cfg.getline_size a no_block)
      → (w' : World) × (run cfg (whole a content posts turns e rest) w ≡ (exits exit_success, w'))
        × (w'.tcp_sent ≡ w.tcp_sent ++ whole_sent a turns)
        × (w'.printed ≡ w.printed ++ whole_shown content posts turns)
        × (w'.state ≡ state_open)
        × (w'.sent ≡ w.sent)
  run-whole a content posts turns e rest size w content_ok text quits start up clean first_line
        room =
      let (size1, e1) =
        logged_in_tcp cfg a content posts roomy content_ok text (events_by turns (e ∷ rest)) size w
          delivers tcp start up clean first_line in
      let w2 : World = welcomed cfg a content posts roomy content_ok text size1 w in
      let (n1, n2, n3) = a.name_ok in
      let (w3, talked) =
        run-Talked cfg roomy delivers tcp turns a.name (e ∷ rest) w2
          (record {
            in_open = refl;
            called = name_text a;
            name_ok = (n1, omega (arith, n2), n3);
            connected = up;
            size = size1;
            no_line = refl;
          })
          (subst (λ l. LinesFit cfg.getline_size turns (after_login cfg.getline_size a l))
            (sym first_line) room) in
      let name : Bytes = after_turns turns a.name in
      (
        record w3 { attempts = w3.attempts + 1; tcp_sent = w3.tcp_sent ++ (bye_text name ∷ []) },
        e1 ∙ talked.runs ∙ run_ends_tcp e name rest w3 quits talked.is_on,
        (λ i. talked.sent i ++ (bye_text name ∷ [])) ∙ simp (append_assoc),
        talked.shown ∙ simp (append_assoc),
        talked.is_on.in_open,
        talked.no_datagram,
      )
