-- ===== src/Client/Session.antt =====
-- A session over TCP: the user logs in, and the server answers and passes messages on. src/main.c,
-- src/cmd_auth.c and src/network_tcp.c together.
use Prim.Native.Nat.{ℕ, suc}
use ipk_projekt.Memory.{Bytes, IsText, c_str}
use ipk_projekt.World.{
  no_block, Config, Output, World, continue, state_start, state_open, action_success,
}
use ipk_projekt.TcpListener.Replies.{IsContent, InLine, reply_line, replied, process_reply_line}
use ipk_projekt.Base.{
  All, List, codes, ◌∷◌, ◌≤◌, length, map, All-append, [], ◌++◌, ◌≡◌, true, ok, ap, Result, sym,
  append-nil, arith, ◌∙◌, ◌≢◌, append_assoc, ◌+◌, refl, zero, subst,
}
use ipk_projekt.Deserialize.RoundTrip.{Succeeds}
use ipk_projekt.TcpListener.Stream.{IsLine, stream, empty, grown, process_all}
use ipk_projekt.TcpListener.Posts.{
  posts-IsLine, Post, chat_of, line_of, heard, receive_tcp-lines, posts-IsText, process_all-posts,
}
use ipk_projekt.Client.Room.{HasRoom, read_in, step-main_round}
use ipk_projekt.Client.{Event, run, step, tcp_bytes, input}
use ipk_projekt.Commands.Login.{Account, name_text, auth_text, named, cmd_auth_tcp}
use ipk_projekt.Udp.Rounds.{Delivers}
use ipk_projekt.TcpListener.{receive_tcp}
use ipk_projekt.Client.Entry.{auth_line, taken, auth_line_lem}

reply_line-All :
    (P : ℕ → Type 0) (result : ℕ) (content : Bytes)
    → result ≤ 1
    → All P (codes "REPLY OK IS ")
    → All P (codes "REPLY NOK IS ")
    → All P content
    → All P (reply_line result content)
reply_line-All P zero content h ok_all nok_all =
    All-append P (codes "REPLY NOK IS ") content nok_all
reply_line-All P (suc zero) content h ok_all nok_all =
    All-append P (codes "REPLY OK IS ") content ok_all
reply_line-All P (suc (suc n)) content h ok_all nok_all = absurd (omega arith)

InLine-IsLine : (s : Bytes) → All InLine s → IsLine s
InLine-IsLine [] h = tt
InLine-IsLine (c ∷ s) (p, h) = (p.0, InLine-IsLine s h)

content-IsLine : (content : Bytes) → IsContent content → IsLine content
content-IsLine [] h = absurd h
content-IsLine (c ∷ s) h = InLine-IsLine (c ∷ s) h.0

-- Chunks of whole messages.
abbrev pub passed_on : List (List Post) → List Event
passed_on [] = []
passed_on (posts ∷ groups) = tcp_bytes (stream (map line_of posts)) ∷ passed_on groups

abbrev pub all_chats : List (List Post) → List Output
all_chats [] = []
all_chats (posts ∷ groups) = map chat_of posts ++ all_chats groups

-- No chunk is empty.
abbrev pub AllSome : List (List Post) → Type 0
AllSome groups = All (λ posts. 1 ≤ length posts) groups

module _ (cfg : Config) (roomy : Succeeds cfg.malloc) where
  run-passed_on :
      (groups : List (List Post)) (size : ℕ) (w : World)
      → AllSome groups
      → w.tcp_connected ≡ true
      → w.line_buffer ≡ empty size
      → (size' : ℕ) × (run cfg (passed_on groups) w ≡ (
        ok tt,
        record w { printed = w.printed ++ all_chats groups; line_buffer = empty size' },
      ))
  unfolding run step
  run-passed_on [] size w h up clean = (
    size,
    ap {B = Result (Unit {0}) × World} (λ o. (ok tt, record w { printed = o }))
          (sym (append-nil w.printed))
        ∙ ap {B = Result (Unit {0}) × World}
            (λ b. (ok tt, record w { printed = w.printed ++ []; line_buffer = b })) clean,
  )
  run-passed_on ([] ∷ groups) size w h up clean = absurd (omega (arith, h.0))
  run-passed_on ((p ∷ posts) ∷ groups) size w h up clean =
      let lines : List Bytes = map line_of (p ∷ posts) in
      let w1 : World = record (heard (p ∷ posts) w) { line_buffer = empty (grown size lines) } in
      let (size', e) = run-passed_on groups (grown size lines) w1 h.1 up refl in
      (
        size',
        ap (λ r. continue r (λ _. run cfg (passed_on groups)))
              (receive_tcp-lines cfg (line_of p) (map line_of posts) size w (heard (p ∷ posts) w)
                roomy up clean (posts-IsLine (p ∷ posts)) (posts-IsText (p ∷ posts))
                (process_all-posts cfg (p ∷ posts) w))
            ∙ e
            ∙ ap (λ o. (ok tt, record w { printed = o; line_buffer = empty size' }))
                (append_assoc w.printed (map chat_of (p ∷ posts)) (all_chats groups)),
      )

-- The user logs in; the first chunk begins with the REPLY, and messages come behind it, in as many
-- chunks as there are groups.
abbrev pub session : Account → Bytes → List Post → List (List Post) → List Event
session a content posts groups =
    input (auth_line a)
    ∷ (tcp_bytes (stream (reply_line 1 content ∷ map line_of posts)) ∷ passed_on groups)

-- A chunk that begins with a REPLY, in any state.
pub receive_tcp-replied :
    (cfg : Config) (result : ℕ) (content : Bytes) (posts : List Post) (size : ℕ) (w : World)
    → Succeeds cfg.malloc
    → result ≤ 1
    → IsContent content
    → IsText content
    → w.tcp_connected ≡ true
    → w.line_buffer ≡ empty size
    → (size' : ℕ) × (receive_tcp cfg (stream (reply_line result content ∷ map line_of posts)) w
        ≡ (ok tt, record (heard posts (replied result content w)) { line_buffer = empty size' }))
receive_tcp-replied cfg result content posts size w roomy result_ok content_ok text up clean = (
  grown size (reply_line result content ∷ map line_of posts),
  receive_tcp-lines cfg (reply_line result content) (map line_of posts) size w
      (heard posts (replied result content w)) roomy up clean
      (
        reply_line-All (λ c. c ≢ 13) result content result_ok (omega arith) (omega arith)
            (content-IsLine content content_ok),
        posts-IsLine posts,
      )
      (
        reply_line-All (λ c. c ≢ 0) result content result_ok (omega arith) (omega arith) text,
        posts-IsText posts,
      )
      (ap (λ r. continue r (λ _. process_all cfg (map line_of posts)))
          (process_reply_line cfg result content w result_ok content_ok)
        ∙ process_all-posts cfg posts (replied result content w)),
)

module _ (cfg : Config) (a : Account) (content : Bytes) (posts : List Post)
    (roomy : Succeeds cfg.malloc) (content_ok : IsContent content) (text : IsText content) where
  -- The client that has sent its AUTH.
  abbrev asked : World → World
  asked w = record (named a (taken a (read_in cfg (auth_line a) w))) {
    attempts = w.attempts + 1;
    tcp_sent = w.tcp_sent ++ (auth_text a ∷ []);
  }

  -- The client that has taken the REPLY, and what stood behind it.
  abbrev pub welcomed : ℕ → World → World
  welcomed size w = record (heard posts (replied 1 content (asked w))) { line_buffer = empty size }

  -- `/auth` and the chunk of the REPLY.
  pub logged_in_tcp :
      (rest : List Event) (size : ℕ) (w : World)
      → Delivers cfg
      → cfg.use_tcp_protocol ≡ true
      → w.state ≡ state_start
      → w.tcp_connected ≡ true
      → w.line_buffer ≡ empty size
      → w.line ≡ no_block
      → (size' : ℕ) × (run cfg
            (input (auth_line a)
              ∷ (tcp_bytes (stream (reply_line 1 content ∷ map line_of posts)) ∷ rest))
            w
          ≡ run cfg rest (welcomed size' w))
  unfolding run step receive_tcp-replied
  logged_in_tcp rest size w delivers tcp start up clean first_line =
      let w0 : World = read_in cfg (auth_line a) w in
      let (size', e) =
        receive_tcp-replied cfg 1 content posts size (asked w) roomy (omega arith) content_ok text
          up clean in
      (
        size',
        rw
            (
              step-main_round cfg (auth_line a) w
                  (subst (HasRoom (auth_line a)) (sym first_line) tt),
              auth_line_lem cfg a w0 start,
              cmd_auth_tcp cfg a (taken a w0) delivers tcp up refl,
              e,
            )
            refl,
      )

  -- A session over TCP: the user enters `/auth` with a valid user name, secret and display name of 1 to 19
  -- characters, and the server replies with success and passes messages on, some of them in the
  -- chunk of the REPLY, and any number of further chunks of whole lines. Then the client is in
  -- OPEN, it has sent the AUTH line and nothing else, it has printed the success and then every
  -- message in order, it goes by the display name, no text is left in its line buffer, and it runs
  -- on. The client was in START, connected, with no line begun; there is memory, and the send
  -- succeeds.
  pub run-session :
      (groups : List (List Post)) (size : ℕ) (w : World)
      → Delivers cfg
      → cfg.use_tcp_protocol ≡ true
      → AllSome groups
      → w.state ≡ state_start
      → w.tcp_connected ≡ true
      → w.line_buffer ≡ empty size
      → w.line ≡ no_block
      → (w' : World) × (run cfg (session a content posts groups) w ≡ (ok tt, w'))
        × (w'.state ≡ state_open)
        × (w'.tcp_sent ≡ w.tcp_sent ++ (auth_text a ∷ []))
        × (w'.printed
            ≡ w.printed ++ (action_success content ∷ (map chat_of posts ++ all_chats groups)))
        × (c_str w'.display_name ≡ ok a.name)
        × (w'.line_buffer.text ≡ [])
        × (w'.sent ≡ w.sent)
  run-session groups size w delivers tcp h start up clean first_line =
      let (size1, e1) =
        logged_in_tcp (passed_on groups) size w delivers tcp start up clean first_line in
      let w2 : World = welcomed size1 w in
      let (size2, e2) = run-passed_on cfg roomy groups size1 w2 h up refl in
      (
        record w2 { printed = w2.printed ++ all_chats groups; line_buffer = empty size2 },
        e1 ∙ e2,
        refl,
        refl,
        simp (append_assoc),
        name_text a,
        refl,
        refl,
      )
