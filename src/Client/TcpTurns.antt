-- ===== src/Client/TcpTurns.antt =====
-- One turn of a conversation over TCP: a line of the user, with its command, or a chunk that `tcp_listener`
-- of src/network_tcp.c takes.
use Prim.Native.Nat.{ℕ}
use ipk_projekt.Client.TcpTalk.{
  line_after, said, passed, renamed, joined, helped, TcpTurn, Joining, after, events_of, sends,
  shows, IsOn, msg_text,
}
use ipk_projekt.World.{Config, Output, World, usage, continue}
use ipk_projekt.Deserialize.RoundTrip.{Succeeds}
use ipk_projekt.Udp.Rounds.{Delivers}
use ipk_projekt.Base.{
  ◌≡◌, true, List, map, sym, ◌∷◌, ◌++◌, codes, [], append-nil, length, ◌∙◌, ◌≤◌, ◌+◌, append_assoc,
  refl, arith, ap,
}
use ipk_projekt.Memory.{Bytes}
use ipk_projekt.Client.{run, step, Event}
use ipk_projekt.Commands.{cmd_help, pointed}
use ipk_projekt.Validation.Charset.{Fits, IsBetween}
use ipk_projekt.Client.Entry.{IsMessage, message_line_lem, message_taken, message_line}
use ipk_projekt.TcpListener.Posts.{
  Post, line_of, heard, receive_tcp-lines, posts-IsLine, posts-IsText, process_all-posts, chat_of,
}
use ipk_projekt.Commands.Rename.{cmd_rename_short}
use ipk_projekt.Commands.Join.{joining, join_text, cmd_join_tcp}
use ipk_projekt.Client.InOpen.{
  command_taken, help_line_lem, rename_line_lem, join_line_lem, rename_line, join_line,
}
use ipk_projekt.TcpListener.Stream.{empty, grown}
use ipk_projekt.Commands.Message.{send_msg-send_tcp_msg_msg}
use ipk_projekt.Client.Session.{receive_tcp-replied}
use ipk_projekt.TcpListener.Wire.{send_tcp_msg_msg_lem}
use ipk_projekt.TcpListener.Replies.{replied}
use ipk_projekt.Handlers.Replies.{outcome}
use ipk_projekt.Client.Room.{HasRoom, read_in, step-main_round}

module _ (cfg : Config) (roomy : Succeeds cfg.malloc) (delivers : Delivers cfg)
    (tcp : cfg.use_tcp_protocol ≡ true) where
  -- From a client that goes by the name to one that goes by the next.
  pub record Talked (sent_texts : List Bytes) (outputs : List Output) (name : Bytes)
      (events rest : List Event) (w w' : World) : Type 0 where
    pub runs : run cfg events w ≡ run cfg rest w'
    pub is_on : IsOn name w'
    pub sent : w'.tcp_sent ≡ w.tcp_sent ++ sent_texts
    pub shown : w'.printed ≡ w.printed ++ outputs
    pub no_datagram : w'.sent ≡ w.sent

  -- One turn, after which `line` stands where the turn leaves it.
  pub record Does (turn : TcpTurn) (name : Bytes) (rest : List Event) (w w' : World) : Type 0 where
    pub talked :
        Talked (sends turn name) (shows turn) (after turn name) (events_of turn ++ rest) rest w w'
    pub line_kept : w'.line ≡ line_after cfg.getline_size turn w.line

  pub said-Does :
      (c : ℕ) (s : Bytes) (h : IsMessage (c ∷ s)) (fits : length (c ∷ s) ≤ 59971) (name : Bytes)
      (rest : List Event) (w : World)
      → IsOn name w
      → HasRoom (message_line c s) w.line
      → (w1 : World) × Does (said c s h fits) name rest w w1
  unfolding run
  said-Does c s h fits name rest w o room =
      let w0 : World = read_in cfg (message_line c s) w in
      let e =
        message_line_lem cfg name c s w0 roomy o.name_ok h o.in_open o.called
        ∙ send_msg-send_tcp_msg_msg cfg name (c ∷ s) (message_taken c s w0) tcp
        ∙ send_tcp_msg_msg_lem cfg name (c ∷ s) (message_taken c s w0) delivers o.connected
            o.name_ok.1 fits in
      (
        record (message_taken c s w0) {
          attempts = w0.attempts + 1;
          tcp_sent = w0.tcp_sent ++ (msg_text name (c ∷ s) ∷ []);
        },
        record {
          talked = record {
            runs = rw (step-main_round cfg (message_line c s) w room, e) refl;
            is_on = record {
              in_open = o.in_open;
              called = o.called;
              name_ok = o.name_ok;
              connected = o.connected;
              size = o.size;
              no_line = o.no_line;
            };
            sent = refl;
            shown = sym (append-nil w0.printed);
            no_datagram = refl;
          };
          line_kept = refl;
        },
      )

  pub passed-Does :
      (p : Post) (posts : List Post) (name : Bytes) (rest : List Event) (w : World)
      → IsOn name w
      → (w1 : World) × Does (passed p posts) name rest w w1
  unfolding run step
  passed-Does p posts name rest w o =
      let lines : List Bytes = map line_of (p ∷ posts) in
      (
        record (heard (p ∷ posts) w) { line_buffer = empty (grown o.size lines) },
        record {
          talked = record {
            runs =
                ap (λ r. continue r (λ _. run cfg rest))
                  (receive_tcp-lines cfg (line_of p) (map line_of posts) o.size w
                    (heard (p ∷ posts) w) roomy o.connected o.no_line (posts-IsLine (p ∷ posts))
                    (posts-IsText (p ∷ posts)) (process_all-posts cfg (p ∷ posts) w));
            is_on = record {
              in_open = o.in_open;
              called = o.called;
              name_ok = o.name_ok;
              connected = o.connected;
              size = grown o.size lines;
              no_line = refl;
            };
            sent = sym (append-nil w.tcp_sent);
            shown = refl;
            no_datagram = refl;
          };
          line_kept = refl;
        },
      )

  pub renamed-Does :
      (new : Bytes) (h : Fits 19 (IsBetween 0x21 0x7E) new) (name : Bytes) (rest : List Event)
      (w : World)
      → IsOn name w
      → HasRoom (rename_line new) w.line
      → (w1 : World) × Does (renamed new h) name rest w w1
  unfolding run
  renamed-Does new h name rest w o room =
      let w0 : World = read_in cfg (rename_line new) w in
      let line : Bytes = codes "/rename " ++ new in
      let (array, e, called, _) = cmd_rename_short new (command_taken line new w0) h refl in
      (
        record (pointed (command_taken line new w0)) { strtok_rest = []; display_name = array },
        record {
          talked = record {
            runs =
                rw
                  (
                    step-main_round cfg (rename_line new) w room,
                    rename_line_lem cfg new w0 o.in_open,
                    e,
                  )
                  refl;
            is_on = record {
              in_open = o.in_open;
              called = called;
              name_ok = (h.0, omega (arith, h.1), h.2);
              connected = o.connected;
              size = o.size;
              no_line = o.no_line;
            };
            sent = sym (append-nil w0.tcp_sent);
            shown = sym (append-nil w0.printed);
            no_datagram = refl;
          };
          line_kept = refl;
        },
      )

  pub joined-Does :
      (j : Joining) (name : Bytes) (rest : List Event) (w : World)
      → IsOn name w
      → HasRoom (join_line j.channel) w.line
      → (w1 : World) × Does (joined j) name rest w w1
  unfolding run step
  joined-Does j name rest w o room =
      let w0 : World = read_in cfg (join_line j.channel) w in
      let line : Bytes = codes "/join " ++ j.channel in
      let w1 : World = record (joining (command_taken line j.channel w0)) {
        attempts = w0.attempts + 1;
        tcp_sent = w0.tcp_sent ++ (join_text j.channel name ∷ []);
      } in
      let (size', e) =
        receive_tcp-replied cfg j.result j.content j.posts o.size w1 roomy j.result_ok j.content_ok
          j.content_text o.connected o.no_line in
      (
        record (heard j.posts (replied j.result j.content w1)) { line_buffer = empty size' },
        record {
          talked = record {
            runs =
                rw
                  (
                    step-main_round cfg (join_line j.channel) w room,
                    join_line_lem cfg j.channel w0 o.in_open,
                    cmd_join_tcp cfg j.channel name (command_taken line j.channel w0) delivers tcp
                        o.connected j.channel_ok o.name_ok o.called refl,
                    e,
                  )
                  refl;
            is_on = record {
              in_open = refl;
              called = o.called;
              name_ok = o.name_ok;
              connected = o.connected;
              size = size';
              no_line = refl;
            };
            sent = refl;
            shown = append_assoc w0.printed (outcome j.result j.content ∷ []) (map chat_of j.posts);
            no_datagram = refl;
          };
          line_kept = refl;
        },
      )

  pub helped-Does :
      (name : Bytes) (rest : List Event) (w : World)
      → IsOn name w
      → HasRoom (codes "/help\n") w.line
      → (w1 : World) × Does helped name rest w w1
  unfolding run cmd_help
  helped-Does name rest w o room =
      let w0 : World = read_in cfg (codes "/help\n") w in
      (
        record (command_taken (codes "/help") [] w0) { printed = w.printed ++ (usage ∷ []) },
        record {
          talked = record {
            runs =
                rw (step-main_round cfg (codes "/help\n") w room, help_line_lem cfg w0 o.in_open)
                  refl;
            is_on = record {
              in_open = o.in_open;
              called = o.called;
              name_ok = o.name_ok;
              connected = o.connected;
              size = o.size;
              no_line = o.no_line;
            };
            sent = sym (append-nil w.tcp_sent);
            shown = refl;
            no_datagram = refl;
          };
          line_kept = refl;
        },
      )
