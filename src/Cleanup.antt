-- ===== src/Cleanup.antt =====
-- What the process holds of the system and how it gives it back: the end of src/network_tcp.c, `cleanup`
-- of src/main.c, which runs at `exit`, and the socket of `udp_listener` in src/network_udp.c. A socket
-- is the number that the system gave, and -1 is `none`. The tables of ids are given back by address.
pub mod Once
use Prim.Native.Nat.{ℕ}
use ipk_projekt.Base.{some, none, [], ◌∷◌, true, false, Bool, ◌++◌, if◌then◌else◌, Option, List}

-- The calls of the system, in order.
pub data Action : Type 0 where
  shutdown : ℕ → Action
  close : ℕ → Action
  freeaddrinfo : Action
  pthread_cancel : Action
  pthread_join : Action
  free_confirmed_msg_ids : Action
  free_seen_ids : Action

pub record Resources : Type 0 where
  pub tcp_socket : Option ℕ
  pub udp_socket : Option ℕ
  pub listener_thread_running : Bool
  -- `servinfo != NULL`
  pub has_servinfo : Bool
  pub done : List Action

abbrev pub act : Action → Resources → Resources
act a r = record r { done = r.done ++ (a ∷ []) }

-- `close(tcp_socket); tcp_socket = -1;`, unless the test found -1. The value that the test found is an
-- argument: another thread may close the socket in between.
unfoldable pub close_open : Option ℕ → Resources → Resources
close_open none r = r
close_open (some fd) r = record (act (close fd) r) { tcp_socket = none }

unfoldable pub close_tcp_connection : Resources → Resources
unfolding close_open
close_tcp_connection r = close_open r.tcp_socket r

abbrev pub shut_down : Option ℕ → Resources → Resources
shut_down none r = r
shut_down (some fd) r = act (shutdown fd) r

unfoldable pub stop_tcp_listener : Resources → Resources
stop_tcp_listener r =
    if r.listener_thread_running
    then shut_down r.tcp_socket (record r { listener_thread_running = false })
    else r

unfoldable pub cleanup_tcp : Resources → Resources
unfolding stop_tcp_listener close_tcp_connection
cleanup_tcp r = close_tcp_connection (stop_tcp_listener r)

-- The part of `tcp_listener` behind its loop.
unfoldable pub tcp_listener_end : Resources → Resources
unfolding close_open
tcp_listener_end r = close_open r.tcp_socket (record r { listener_thread_running = false })

abbrev pub free_servinfo : Resources → Resources
free_servinfo r = if r.has_servinfo then act freeaddrinfo r else r

abbrev pub close_udp : Option ℕ → Resources → Resources
close_udp none r = r
close_udp (some fd) r = act (close fd) r

abbrev pub stop_thread : Resources → Resources
stop_thread r =
    if r.listener_thread_running
    then record (act pthread_join (act pthread_cancel r)) { listener_thread_running = false }
    else r

unfoldable pub cleanup_udp : Resources → Resources
cleanup_udp r =
    act free_seen_ids
      (act free_confirmed_msg_ids (stop_thread (close_udp r.udp_socket (free_servinfo r))))

unfoldable pub cleanup : Bool → Resources → Resources
unfolding cleanup_tcp cleanup_udp
cleanup use_tcp_protocol r = if use_tcp_protocol then cleanup_tcp r else cleanup_udp r

-- How `udp_listener` comes to its loop: `exit` without a socket, and the end of the thread without `bind`,
-- which closes the socket.
pub data UdpStart : Type 0 where
  exits_without_socket : UdpStart
  ends_unbound : Resources → UdpStart
  listens : Resources → UdpStart

unfoldable pub open_udp : Option ℕ → Bool → Resources → UdpStart
open_udp none bound r = exits_without_socket
open_udp (some fd) bound r =
    if bound
    then listens (record r { udp_socket = some fd })
    else ends_unbound (act (close fd) (record r { udp_socket = some fd }))
