-- ===== src/Startup.antt =====
-- The start of src/main.c, up to its loop, and `establish_tcp_connection` of src/network_tcp.c.
pub mod Ready
pub mod Connected
use ipk_projekt.Base.{
  ◌>>=◌, Option, ℕ, List, Result, [], none, Bool, codes, false, exits, some, if◌then◌else◌, ◌&&◌,
  ◌++◌, ◌*◌, ok, exit_success, replicate, exit_failure, ◌∷◌, true, fault,
}
use ipk_projekt.Memory.{Malloc, Bytes, or_exit}
use ipk_projekt.Ids.{unset_from, Confirmed, Seen, cells_of}
use ipk_projekt.Args.{Settings, Parsed, go_on, stop, unfinished, parse_args}
use Prim.Native.Nat.{ℕ}
use ipk_projekt.World.{no_block, Config, World, state_start, Arrival}

-- What the system answers: the registration of `cleanup`, memory, `getaddrinfo` and `sendto` for UDP, the addresses of the server
-- for TCP with the success of `socket` and of `connect` for each, the creation of the thread,
-- what the stack of the thread holds, and what the network brings during each sleep of the main
-- thread.
pub record System : Type 0 where
  pub cleanup_registered : Bool
  pub malloc : Malloc
  pub getline_size : ℕ → ℕ
  pub resolve : Bytes → Bytes → Option ℕ
  pub sendto_succeeds : ℕ → Bool
  pub addresses : Bytes → Bytes → Option (List (Bool × Bool))
  pub thread_starts : Bool
  pub stack : Bytes
  pub network : List (List Arrival)

-- src/defaults.h and the initial values in src/main.c
abbrev pub defaults : Settings
defaults = record {
  use_tcp_protocol = none;
  hostname = none;
  port = codes "4567";
  udp_timeout = 250;
  udp_retransmissions = 3;
}

abbrev pub default_array_size : ℕ
default_array_size = 100

-- The first address at which both calls succeed.
unfoldable pub first_connection : List (Bool × Bool) → Bool
first_connection [] = false
first_connection ((made, connected) ∷ addresses) =
    if made && connected then true else first_connection addresses

unfoldable pub establish_tcp_connection : Option (List (Bool × Bool)) → Bool
unfolding first_connection
establish_tcp_connection none = false
establish_tcp_connection (some addresses) = first_connection addresses

-- `malloc` of the cells, all of them unset.
unfoldable pub new_confirmed : Malloc → Result Confirmed
unfolding unset_from
new_confirmed malloc = do
  block ← or_exit (malloc.alloc (2 * default_array_size))
  ok (record { ids = unset_from 0 (cells_of block); index = 0; array_size = default_array_size })

-- `malloc` of the cells, as the block was.
unfoldable pub new_seen : Malloc → Result Seen
new_seen malloc = do
  block ← or_exit (malloc.alloc (2 * default_array_size))
  ok (record { ids = cells_of block; count = 0; array_size = default_array_size })

abbrev pub no_confirmed : Confirmed
no_confirmed = record { ids = []; index = 0; array_size = default_array_size }

abbrev pub no_seen : Seen
no_seen = record { ids = []; count = 0; array_size = default_array_size }

-- The global variables before the loop.
abbrev pub first_world : System → Settings → Bool → Confirmed → Seen → World
first_world system s connected confirmed seen = record {
  state = state_start;
  display_name = codes "unknown" ++ replicate 13 0;
  unprocessed_line = [];
  line = no_block;
  strtok_rest = [];
  confirmed = confirmed;
  seen = seen;
  port = s.port;
  has_changed_to_dyn_port = false;
  recv_buffer = system.stack;
  tcp_connected = connected;
  line_buffer = record { text = []; size = 0 };
  printed = [];
  sent = [];
  tcp_sent = [];
  attempts = 0;
  arrivals = system.network;
}

abbrev pub config : System → Settings → Bool → Bytes → Config
config system s tcp hostname = record {
  use_tcp_protocol = tcp;
  hostname = hostname;
  udp_retransmissions = s.udp_retransmissions;
  getline_size = system.getline_size;
  malloc = system.malloc;
  resolve = system.resolve;
  sendto_succeeds = system.sendto_succeeds;
}

-- `start_tcp_listener`: is there a listener afterwards, if there was one before (`running`), or by
-- the creation of a thread.
unfoldable pub start_tcp_listener : Bool → Bool → Bool
start_tcp_listener running created = if running then true else created

unfoldable pub start_tcp : System → Settings → Bytes → Result (Config × World)
unfolding establish_tcp_connection start_tcp_listener
start_tcp system s hostname =
    if establish_tcp_connection (system.addresses hostname s.port)
      && start_tcp_listener false system.thread_starts
    then ok (config system s true hostname, first_world system s true no_confirmed no_seen)
    else exits exit_failure

unfoldable pub start_udp : System → Settings → Bytes → Result (Config × World)
unfolding new_confirmed new_seen
start_udp system s hostname = do
  confirmed ← new_confirmed system.malloc
  seen ← new_seen system.malloc
  if system.thread_starts
      then ok (config system s false hostname, first_world system s false confirmed seen)
      else exits exit_failure

unfoldable pub start_with : System → Settings → Option Bool → Option Bytes → Result (Config × World)
start_with system s none hostname = exits exit_success
start_with system s (some tcp) none = exits exit_success
start_with system s (some true) (some hostname) = start_tcp system s hostname
start_with system s (some false) (some hostname) = start_udp system s hostname

unfoldable pub start_parsed : System → Parsed Settings → Result (Config × World)
start_parsed system (go_on s) = start_with system s s.use_tcp_protocol s.hostname
start_parsed system (stop why) = exits exit_success
start_parsed system unfinished = fault

-- Without arguments the client shows how it is used.
unfoldable pub start_args : System → List Bytes → Result (Config × World)
start_args system [] = exits exit_success
start_args system (arg ∷ args) = start_parsed system (parse_args (arg ∷ args) defaults)

-- `main` up to its loop, once SIGINT has its handler.
unfoldable pub start : System → List Bytes → Result (Config × World)
start system args = if system.cleanup_registered then start_args system args else exits exit_failure
