-- ===== src/Listener.antt =====
-- The loop of `udp_listener` in src/network_udp.c, one datagram at a time, and the sleep of the main
-- thread, during which the listener handles what arrives. Each datagram is handled as one step: the
-- threads interleave at the sleeps of the main thread and between its commands.
pub mod Receive
pub mod Delivery
pub mod Late
pub mod Answer
pub mod Relay
pub mod Inbox
pub mod Effects
pub mod Transitions
use ipk_projekt.World.{Config, Prog, ◌>>=◌, ◌>>◌, skip, get, lift, Arrival, continue}
use ipk_projekt.Base.{
  List, ℕ, if◌then◌else◌, ◌∷◌, ◌+◌, ok, take, [], ◌==◌, ◌-◌, ◌*◌, ◌&&◌, ◌/◌, length, not, ltb, ◌++◌,
  true, ◌%◌, zero,
}
use ipk_projekt.Memory.{store, byte_at, Bytes, or_exit}
use Prim.Native.Nat.{ℕ, suc}
use ipk_projekt.Validation.{max_message_content_len}
use ipk_projekt.Handlers.{process_received_udp_message}

-- `MAX_MSG_SIZE`, the size of `recv_buffer`
abbrev pub max_msg_size : ℕ
max_msg_size = max_message_content_len + 2 + 2 * 2 + 1

-- `%d` of a number with at most `fuel` digits.
unfoldable pub show_decimal : ℕ → ℕ → Bytes
show_decimal zero n = []
show_decimal (suc fuel) n =
    let front = show_decimal fuel (n / 10) in
    (if ltb n 10 then [] else front) ++ ((b'0' + n % 10) ∷ [])

-- The change to the server's port at the first datagram that begins like a REPLY: `malloc(6)` and
-- `snprintf(port, 6, "%d", ...)` of a 16-bit number.
unfoldable pub follow_port : Config → ℕ → ℕ → Prog (Unit {0})
follow_port cfg type sender_port w =
    if type == 0x01 && not w.has_changed_to_dyn_port
    then continue (lift (or_exit (cfg.malloc.alloc 6)) w) (λ _ w'. (
      ok tt,
      record w' { port = take 5 (show_decimal 10 sender_port); has_changed_to_dyn_port = true },
    ))
    else (ok tt, w)

unfoldable pub fill_buffer : ℕ → Bytes → Prog (Unit {0})
fill_buffer offset bytes = do
  w ← get
  buffer ← lift (store w.recv_buffer offset bytes)
  λ w'. (ok tt, record w' { recv_buffer = buffer })

-- The part of the loop behind `recvfrom`. The type byte is looked at before the NUL is written
-- behind the datagram.
unfoldable pub receive_bytes : Config → ℕ → Bytes → Prog (Unit {0})
receive_bytes cfg sender_port bytes = do
  fill_buffer 0 bytes
  w ← get
  type ← lift (byte_at w.recv_buffer 0)
  follow_port cfg type sender_port
  fill_buffer (length bytes) (0 ∷ [])
  λ w'. process_received_udp_message cfg w'.recv_buffer (length bytes) w'

-- One round of the loop. `recvfrom` keeps the first `MAX_MSG_SIZE - 1` bytes of the datagram.
unfoldable pub receive : Config → Arrival → Prog (Unit {0})
receive cfg a = receive_bytes cfg a.sender_port (take (max_msg_size - 1) a.payload)

unfoldable pub listen : Config → List Arrival → Prog (Unit {0})
listen cfg [] = skip
listen cfg (a ∷ rest) = do receive cfg a; listen cfg rest

-- `nanosleep` in the main thread.
unfoldable pub listen_next : List (List Arrival) → Config → Prog (Unit {0})
listen_next [] cfg w = (ok tt, w)
listen_next (batch ∷ later) cfg w = listen cfg batch (record w { arrivals = later })

unfoldable pub sleep : Config → Prog (Unit {0})
sleep cfg w = listen_next w.arrivals cfg w
