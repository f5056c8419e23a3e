-- ===== src/Program/TcpSession.antt =====
-- The client from its command line to its exit, over TCP: `main` of src/main.c with all that it calls.
use ipk_projekt.Client.TcpTalk.{LinesFit, TcpTurn}
use ipk_projekt.Client.TcpWhole.{whole, whole_sent, whole_shown, run-whole}
use ipk_projekt.Program.{main}
use ipk_projekt.Startup.{System, defaults, config, first_world, no_confirmed, no_seen}
use ipk_projekt.Args.Options.{Choice, IsProper, all_chosen, spelled}
use ipk_projekt.Base.{
  List, Bool, All, ℕ, ◌∷◌, ◌≡◌, true, some, ◌++◌, ok, exits, exit_success, [], refl,
}
use ipk_projekt.Memory.{Bytes, IsText}
use ipk_projekt.Commands.Login.{Account}
use ipk_projekt.TcpListener.Posts.{Post}
use ipk_projekt.Client.{Event}
use ipk_projekt.Deserialize.RoundTrip.{Succeeds}
use ipk_projekt.Args.{Settings}
use ipk_projekt.TcpListener.Replies.{IsContent}
use ipk_projekt.Client.Quit.{Quits}
use ipk_projekt.World.{World, Config, no_block}
use ipk_projekt.Startup.Connected.{start-first_world}
use ipk_projekt.Client.Room.{after_login}

module _ (system : System) (o : Choice) (options : List Choice) (hostname : Bytes)
    (before later : List (Bool × Bool)) (a : Account) (content : Bytes) (posts : List Post)
    (turns : List TcpTurn) (e : Event) where
  abbrev settings : Settings
  settings = all_chosen (o ∷ options) defaults

  -- What the system offers to the client.
  pub record Connects : Type 0 where
    pub roomy : Succeeds system.malloc
    pub delivers : (n : ℕ) → system.sendto_succeeds n ≡ true
    pub registered : system.cleanup_registered ≡ true
    pub thread : system.thread_starts ≡ true
    pub lines_fit : LinesFit system.getline_size turns (after_login system.getline_size a no_block)
    pub connects : system.addresses hostname settings.port ≡ some (before ++ ((true, true) ∷ later))

  -- A whole run over TCP, from the command line to the exit: any options that name TCP and a server start
  -- the client, which connects to an address that accepts it, whatever addresses come before. The
  -- user logs in, and the REPLY accepts, with messages behind it in the chunk or without; the user
  -- sends messages, joins channels, changes the display name and asks
  -- for help, in any order; a REPLY with result OK or NOK answers each JOIN, and the server passes
  -- messages on in chunks of whole lines; the user quits by the end of the input or by SIGINT. Then
  -- the process ends with success. It has sent AUTH, each message and each JOIN once, under the name
  -- of the moment, and the BYE, in this order, and no datagram. It has printed the success, the
  -- outcome of each JOIN and every message, in order. The system offers memory, a thread and a
  -- connection on which each send succeeds, and what the server sends fits the formats of `sscanf`
  -- and the arrays behind them. Each line after the first fits, with a NUL, into what the commands
  -- before it leave of the block that `getline` took for the first line.
  pub main-tcp_session :
      (rest : List Event)
      → All IsProper (o ∷ options)
      → settings.use_tcp_protocol ≡ some true
      → settings.hostname ≡ some hostname
      → Connects
      → IsContent content
      → IsText content
      → Quits e
      → (w' : World) × (main system (spelled (o ∷ options)) (whole a content posts turns e rest)
          ≡ ok (exits exit_success, w'))
        × (w'.tcp_sent ≡ whole_sent a turns)
        × (w'.printed ≡ whole_shown content posts turns)
        × (w'.sent ≡ [])
  unfolding main
  main-tcp_session rest proper tcp server offers content_ok text quits =
      let cfg : Config = config system settings true hostname in
      let w : World = first_world system settings true no_confirmed no_seen in
      let (w', e', sent, printed, _, no_datagram) =
        run-whole cfg offers.roomy offers.delivers refl a content posts turns e rest 0 w content_ok
          text quits refl refl refl refl offers.lines_fit in
      (
        w',
        rw
            (
              start-first_world system o options hostname before later proper tcp server
                  offers.registered offers.thread offers.connects,
              e',
            )
            refl,
        sent,
        printed,
        no_datagram,
      )
