-- ===== src/Program/Session.antt =====
-- The client from its command line to its exit, over UDP: `main` of src/main.c with all that it calls.
use Prim.Native.Nat.{ℕ}
use ipk_projekt.Memory.{Bytes}
use ipk_projekt.Startup.{System, defaults, config}
use ipk_projekt.Args.Options.{Choice, all_chosen, IsProper, spelled}
use ipk_projekt.Base.{
  refl, List, ◌≡◌, All, true, ◌∷◌, some, false, length, ◌+◌, ◌<◌, ◌≤◌, ok, exits, exit_success, [],
  subst, sym, ap, ◌∙◌, arith, ◌++◌, take,
}
use ipk_projekt.Commands.Login.{Account}
use ipk_projekt.Client.Login.{Answer}
use ipk_projekt.Client.Conversation.{AllTurnsFit}
use ipk_projekt.Client.Talk.{Turn, Talk, shown_by, LinesFit}
use ipk_projekt.Client.{Event}
use ipk_projekt.World.{Arrival, World, action_success, Config, no_block}
use ipk_projekt.Program.{main}
use ipk_projekt.Args.{Settings}
use ipk_projekt.Deserialize.RoundTrip.{Succeeds}
use ipk_projekt.Listener.Answer.{port_text}
use ipk_projekt.Client.Quit.{Quits}
use ipk_projekt.Client.Whole.{
  session_events, session_arrivals, session_sent, run-whole, first_talk, last_talk,
}
use ipk_projekt.Startup.Ready.{start-IsReady}
use ipk_projekt.Client.Room.{after_login}

module _ (system : System) (o : Choice) (options : List Choice) (hostname : Bytes) (a : Account)
    (r : Answer) (address address' port : ℕ) (turns : List Turn) (e : Event)
    (later : List (List Arrival)) where
  abbrev settings : Settings
  settings = all_chosen (o ∷ options) defaults

  abbrev pub last : Talk
  last = last_talk a [] turns

  -- What the system offers to the client.
  pub record Offers : Type 0 where
    pub roomy : Succeeds system.malloc
    pub delivers : (n : ℕ) → system.sendto_succeeds n ≡ true
    pub registered : system.cleanup_registered ≡ true
    pub thread : system.thread_starts ≡ true
    pub resolves : system.resolve hostname settings.port ≡ some address
    pub resolves' : system.resolve hostname (port_text r.reply_port) ≡ some address'
    pub room : length r.content + 7 < length system.stack
    pub lines_fit : LinesFit system.getline_size turns (after_login system.getline_size a no_block)
    pub fits : AllTurnsFit (length system.stack) turns
    pub network : system.network ≡ session_arrivals a r [] port turns later

  -- A whole run over UDP, from the command line to the exit: any options that name UDP and a server start
  -- the client; the user logs in, sends messages, joins channels, changes the display name and asks
  -- for help, in any order, and quits by the end of the input or by SIGINT; the server answers the
  -- AUTH from a port of its own, confirms each message during its first sleep, answers each JOIN,
  -- and relays any messages in between. Then the process ends with success. It has sent the AUTH to
  -- the first port and all the rest to the port of the REPLY: each message and each JOIN once, under
  -- consecutive ids and the name of the moment, a CONFIRM for each datagram in between, and the BYE. It has
  -- printed the success, the REPLYs and each relayed message once, in order. The user sends at most 98
  -- messages and JOINs, the system offers memory, a thread and its network, each datagram has
  -- room in the buffer, and each line after the first fits, with a NUL, into what the commands
  -- before it leave of the block that `getline` took for the first line.
  pub main-session :
      (rest : List Event)
      → All IsProper (o ∷ options)
      → settings.use_tcp_protocol ≡ some false
      → settings.hostname ≡ some hostname
      → Offers
      → Quits e
      → last.next ≤ 99
      → (w' : World) × (main system (spelled (o ∷ options)) (session_events a turns e rest)
          ≡ ok (exits exit_success, w'))
        × (w'.sent ≡ session_sent a r [] address address' turns)
        × (w'.printed ≡ action_success r.content ∷ shown_by turns (first_talk a []))
  unfolding main
  main-session rest proper udp server offers quits few =
      let (w, started, ready, port_ok) =
        start-IsReady system offers.roomy o options hostname proper udp server offers.registered
          offers.thread in
      let cfg : Config = config system settings false hostname in
      let (w', e', sent, printed, _) =
        run-whole cfg a r address address' port 100 [] turns e later offers.roomy offers.delivers
          refl quits offers.resolves' rest w
          (record {
            valid = ready.confirmed_ok;
            nothing_sent = ready.nothing_sent;
            first = ready.port_given;
            room = subst (λ b. length r.content + 7 < length b) (sym ready.buffer) offers.room;
            resolves = ap (system.resolve hostname) port_ok ∙ offers.resolves;
            answered_next = ready.to_come ∙ offers.network;
          })
          ready.in_start ready.seen_ok (ap (λ n. take n w.seen.ids) ready.nothing_seen)
          ready.no_line_read offers.lines_fit
          (subst (λ b. AllTurnsFit (length b) turns) (sym ready.buffer) offers.fits) (omega arith)
          (omega (arith, ready.cells)) (omega arith) in
      (
        w',
        rw (started, e'),
        sent ∙ ap (λ l. l ++ session_sent a r [] address address' turns) ready.no_datagram,
        printed
            ∙ ap (λ l. l ++ (action_success r.content ∷ shown_by turns (first_talk a [])))
                ready.no_output,
      )
