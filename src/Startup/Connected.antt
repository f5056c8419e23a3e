-- ===== src/Startup/Connected.antt =====
-- The start over TCP: `establish_tcp_connection` and `start_tcp_listener` of src/network_tcp.c, called by
-- src/main.c.
use ipk_projekt.Args.Options.{Choice, all_chosen, IsProper, spelled, parse_args-spelled}
use ipk_projekt.Startup.{
  start, first_connection, start_with, System, start_args, start_parsed, start_tcp,
  establish_tcp_connection, start_tcp_listener, defaults, config, first_world, no_confirmed,
  no_seen,
}
use ipk_projekt.Base.{
  List, Bool, Option, ◌++◌, true, ◌≡◌, ◌∷◌, [], some, refl, All, ok, false, ap, Result,
  if◌then◌else◌, exits, exit_failure, ◌∙◌,
}
use ipk_projekt.Args.{Settings}
use ipk_projekt.Memory.{Bytes}
use ipk_projekt.World.{Config, World}

-- The loop over the addresses ends at one that connects.
first_connection_some :
    (before later : List (Bool × Bool)) → first_connection (before ++ ((true, true) ∷ later)) ≡ true
unfolding first_connection
first_connection_some [] later = refl
first_connection_some ((false, connected) ∷ before) later = first_connection_some before later
first_connection_some ((true, false) ∷ before) later = first_connection_some before later
first_connection_some ((true, true) ∷ before) later = refl

start_with-tcp :
    (system : System) (s : Settings) (transport : Option Bool) (server : Option Bytes)
    (hostname : Bytes)
    → transport ≡ some true
    → server ≡ some hostname
    → start_with system s transport server ≡ start_tcp system s hostname
unfolding start_with
start_with-tcp system s transport server hostname e f = rw (e, f)

-- Any options, each with an argument that fits its kind, that name TCP and a server connect the client,
-- when one of the addresses of the server accepts it.
pub start-first_world :
    (system : System) (o : Choice) (options : List Choice) (hostname : Bytes)
    (before later : List (Bool × Bool))
    → let s : Settings = all_chosen (o ∷ options) defaults in
      All IsProper (o ∷ options)
      → s.use_tcp_protocol ≡ some true
      → s.hostname ≡ some hostname
      → system.cleanup_registered ≡ true
      → system.thread_starts ≡ true
      → system.addresses hostname s.port ≡ some (before ++ ((true, true) ∷ later))
      → start system (spelled (o ∷ options))
        ≡ ok (config system s true hostname, first_world system s true no_confirmed no_seen)
unfolding start start_args start_parsed start_tcp establish_tcp_connection start_tcp_listener
start-first_world system o options hostname before later h tcp server registered thread connects =
    let s : Settings = all_chosen (o ∷ options) defaults in
    ap {B = Result (Config × World)}
      (λ b. if b then start_args system (spelled (o ∷ options)) else exits exit_failure) registered
    ∙ rw (parse_args-spelled (o ∷ options) defaults h) (
        start_with-tcp system s s.use_tcp_protocol s.hostname hostname tcp server
        ∙ rw (connects, first_connection_some before later, thread))
