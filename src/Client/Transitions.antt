-- ===== src/Client/Transitions.antt =====
-- The states of a whole run of the client: the loop of src/main.c with what the listener does between
-- its rounds and during its sleeps.
use ipk_projekt.World.{
  Config, AppState, lift, World, exit, state_auth, get, not_authenticated_join, usage,
  not_authenticated_msg, already_authenticated, already_joining, msg_while_joining, state_start,
  state_open, state_join, print, getline_failed, Line, continue,
}
use ipk_projekt.Base.{
  List, Option, some, ◌∷◌, [], none, exit_success, refl, exit_failure, length, Result, ◌≡◌, ok,
  take, exits, fault,
}
use ipk_projekt.Client.{
  run, step, Event, graceful_quit, run_token, run_line, set_unprocessed_line, main_round, input,
  chop, select_command, datagrams, tcp_bytes, end_of_input, input_error, interrupt, get_line,
  read_into, stored,
}
use ipk_projekt.States.{
  state_logic, state_start_logic, state_auth_logic, state_open_logic, state_join_logic, run_command,
  Command, auth, join, rename, help, msg,
}
use ipk_projekt.Commands.Transitions.{
  cmd_auth-From, display_name_text-Keeps, send_tcp_bye_msg-Keeps, cmd_rename-From, cmd_join-From,
  cmd_msg-From, sleep-Keeps,
}
use ipk_projekt.Commands.Moves.{print-From, Moves, done, by_server, From, log_in}
use ipk_projekt.World.Keeps.{
  Keeps, bind-Keeps, seq-Keeps, lift-Keeps, if-Keeps, get-Keeps, exit-Keeps, Arrays, if-At,
  Invariant, print-Keeps, At, SoundIn,
}
use ipk_projekt.Memory.{Bytes}
use ipk_projekt.Commands.{strtok, cmd_help, next_token, token, drop_spaces, after_token}
use ipk_projekt.Listener.Transitions.{listen-At}
use ipk_projekt.Handlers.{display_name_text}
use ipk_projekt.Tcp.{send_tcp_bye_msg}
use ipk_projekt.TcpListener.Transitions.{receive_tcp-At}
use ipk_projekt.Serialize.{serialize_bye_msg}
use ipk_projekt.Messages.{create_bye_msg}
use ipk_projekt.Listener.{sleep}
use ipk_projekt.Listener.Effects.{send_network_msg_udp-Keeps}

-- Only `line` moves.
pub get_line-Keeps : (Q : Invariant) (cfg : Config) (text : Bytes) → Keeps Q (get_line cfg text)
unfolding get_line
get_line-Keeps Q cfg text = record {
  holds = λ w q. kept (stored cfg.getline_size (length text) w.line) w q;
}
  where
    kept : (l : Option Line) (w : World) → At Q w → At Q (read_into l w).1
    kept none w q = q
    kept (some l) w q = q

module _ (Q : Invariant) (cfg : Config) (asleep : Keeps Q (sleep cfg)) where
  pub graceful_quit-Keeps : Keeps Q (graceful_quit cfg)
  unfolding graceful_quit
  graceful_quit-Keeps =
      seq-Keeps Q _ (exit exit_success)
        (if-Keeps Q cfg.use_tcp_protocol _ _
          (record {
            holds = λ w q.
                if-At Q w.tcp_connected _ _
                  ((bind-Keeps Q display_name_text (send_tcp_bye_msg cfg)
                      (display_name_text-Keeps Q) (send_tcp_bye_msg-Keeps Q cfg)).holds
                    w q)
                  q;
          })
          (bind-Keeps Q display_name_text _ (display_name_text-Keeps Q) (λ name.
            bind-Keeps Q get _ (get-Keeps Q) (λ w.
              let out = serialize_bye_msg cfg.malloc (create_bye_msg w.confirmed.index name) in
              bind-Keeps Q (lift out) _ (lift-Keeps Q out)
                (λ packet. send_network_msg_udp-Keeps Q (sleep cfg) cfg packet asleep)))))
        (exit-Keeps Q exit_success)

-- The command of a line: the first word selects it, and a line of spaces has none.
abbrev pub word_command : Bytes → Option Command
word_command [] = none
word_command (c ∷ s) = some (select_command (token (c ∷ s)))

abbrev pub command_in : Result Bytes → Option Command
command_in (ok text) = word_command (drop_spaces text)
command_in (exits status) = none
command_in fault = none

abbrev pub commanded : Event → Option Command
commanded (input line) = command_in (chop line)
commanded end_of_input = none
commanded input_error = none
commanded interrupt = none
commanded (datagrams batch) = none
commanded (tcp_bytes chunk) = none

module _ (arrays : Arrays) (cfg : Config) (c : Option Command) (a : AppState) where
  abbrev Q : Invariant
  Q = record { on_state = Moves c a; arrays = arrays }

  state_logic-From :
      (s : AppState) (cmd : Command) → c ≡ some cmd → Moves c a s → From s Q (state_logic s cmd cfg)
  unfolding state_logic state_start_logic state_auth_logic state_open_logic state_join_logic
      run_command cmd_help
  state_logic-From state_start auth e q = record {
    leads = λ w same sound.
        (cmd_auth-From arrays cfg c a (log_in e q)).leads (record w { state = state_auth }) refl
          sound;
  }
  state_logic-From state_start join e q = print-From state_start Q q not_authenticated_join
  state_logic-From state_start rename e q = cmd_rename-From state_start Q q
  state_logic-From state_start help e q = print-From state_start Q q usage
  state_logic-From state_start msg e q = print-From state_start Q q not_authenticated_msg
  state_logic-From state_auth auth e q = cmd_auth-From arrays cfg c a q
  state_logic-From state_auth join e q = print-From state_auth Q q not_authenticated_join
  state_logic-From state_auth rename e q = cmd_rename-From state_auth Q q
  state_logic-From state_auth help e q = print-From state_auth Q q usage
  state_logic-From state_auth msg e q = print-From state_auth Q q not_authenticated_msg
  state_logic-From state_open auth e q = print-From state_open Q q already_authenticated
  state_logic-From state_open join e q = cmd_join-From arrays cfg c a e q
  state_logic-From state_open rename e q = cmd_rename-From state_open Q q
  state_logic-From state_open help e q = print-From state_open Q q usage
  state_logic-From state_open msg e q = cmd_msg-From arrays cfg c a state_open q
  state_logic-From state_join auth e q = print-From state_join Q q already_authenticated
  state_logic-From state_join join e q = print-From state_join Q q already_joining
  state_logic-From state_join rename e q = cmd_rename-From state_join Q q
  state_logic-From state_join help e q = print-From state_join Q q usage
  state_logic-From state_join msg e q = print-From state_join Q q msg_while_joining

  first_word-At :
      (text : Bytes) (w : World)
      → c ≡ word_command text
      → At Q w
      → At Q (continue (next_token text w) (run_token cfg)).1
  unfolding next_token run_token
  first_word-At [] w e q = q
  first_word-At (x ∷ s) w e q =
      (state_logic-From w.state (select_command (token (x ∷ s))) e q.0).leads
        (record w { strtok_rest = after_token (x ∷ s) }) refl q.1

  input-At :
      (w : World) (r : Result Bytes)
      → c ≡ command_in r
      → At Q w
      → At Q (continue (lift r w) (run_line cfg)).1
  unfolding run_line set_unprocessed_line strtok
  input-At w (ok []) e q = q
  input-At w (ok (x ∷ s)) e q =
      first_word-At (drop_spaces (x ∷ s)) (record w { unprocessed_line = take 59999 (x ∷ s) }) e q
  input-At w (exits status) e q = q
  input-At w fault e q = q

  step-Keeps : (e : Event) → c ≡ commanded e → Keeps Q (step cfg e)
  unfolding step main_round
  step-Keeps (input line) h =
      seq-Keeps Q (get_line cfg line) (main_round cfg line) (get_line-Keeps Q cfg line)
        (record { holds = λ w q. input-At w (chop line) h q })
  step-Keeps end_of_input h = graceful_quit-Keeps Q cfg (sleep-Keeps arrays cfg c a)
  step-Keeps input_error h =
      seq-Keeps Q (print getline_failed) (exit exit_failure) (print-Keeps Q getline_failed)
        (exit-Keeps Q exit_failure)
  step-Keeps interrupt h = graceful_quit-Keeps Q cfg (sleep-Keeps arrays cfg c a)
  step-Keeps (datagrams batch) h = record {
    holds = λ w q. let r = listen-At arrays cfg batch w q.1 in (by_server q.0 r.0, r.1);
  }
  step-Keeps (tcp_bytes chunk) h = record {
    holds = λ w q. let r = receive_tcp-At arrays cfg chunk w q.1 in (by_server q.0 r.0, r.1);
  }

-- The states of a run: each event moves the state as its command allows, until the process ends.
pub data Route : List Event → AppState → AppState → Type 0 where
  stopped : {events : List Event} {a : AppState} → Route events a a
  turn :
      {e : Event} {events : List Event} {a b d : AppState}
      → Moves (commanded e) a b
      → Route events b d
      → Route (e ∷ events) a d

module _ (arrays : Arrays) (cfg : Config) where
  pub run-At :
      (events : List Event) (w : World)
      → SoundIn arrays w
      → Route events w.state (run cfg events w).1.state × SoundIn arrays (run cfg events w).1
  unfolding run
  run-At [] w sound = (stopped, sound)
  run-At (e ∷ events) w sound =
      go (λ w' sound'. run-At events w' sound') (step cfg e w)
        ((step-Keeps arrays cfg (commanded e) w.state e refl).holds w (done, sound))
    where
      go :
          ((w' : World)
            → SoundIn arrays w'
            → Route events w'.state (run cfg events w').1.state
              × SoundIn arrays (run cfg events w').1)
          → (r : Result (Unit {0}) × World)
          → Moves (commanded e) w.state r.1.state × SoundIn arrays r.1
          → Route (e ∷ events) w.state (continue r (λ _. run cfg events)).1.state
            × SoundIn arrays (continue r (λ _. run cfg events)).1
      go later (ok u, w') p = let (route, sound') = later w' p.1 in (turn p.0 route, sound')
      go later (exits status, w') p = (turn p.0 stopped, p.1)
      go later (fault, w') p = (turn p.0 stopped, p.1)
