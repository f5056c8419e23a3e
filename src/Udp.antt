-- ===== src/Udp.antt =====
-- The sender of src/network_udp.c. What happens during a sleep of the sender is an argument: the listener thread
-- works while the main thread sleeps, and nothing happens while the listener itself sleeps.
use ipk_projekt.World.{Config, Prog, ◌>>=◌, ◌>>◌, skip, exit, lift, print, not_confirmed}
use ipk_projekt.Base.{
  ok, ℕ, ◌+◌, Option, Bool, if◌then◌else◌, exit_failure, ◌==◌, some, ◌++◌, take, ◌∷◌, [], zero,
  none,
}
use ipk_projekt.Messages.{create_confirm_msg}
use ipk_projekt.Memory.{byte_at, Bytes, host16_at}
use Prim.Native.Nat.{ℕ, suc}
use ipk_projekt.Serialize.{serialize_confirm_msg}
use ipk_projekt.Ids.{scan}
pub mod Rounds

-- `sendto` of the first `size` bytes; false is -1.
unfoldable pub sendto : Config → ℕ → Bytes → ℕ → Prog Bool
sendto cfg address buffer size w =
    let done = cfg.sendto_succeeds w.attempts in
    (
      ok done,
      record w {
        attempts = w.attempts + 1;
        sent =
            if done
            then w.sent ++ (record { to = address; payload = take size buffer } ∷ [])
            else w.sent;
      },
    )

-- The search through `confirmed_msg_ids`, below `confirmed_msg_ids_index`.
unfoldable pub is_msg_confirmed : ℕ → Prog Bool
is_msg_confirmed msg_id w = (scan msg_id w.confirmed.ids w.confirmed.index, w)

-- The retransmission loop, by the rounds that are left. A failed `sendto` neither sleeps nor looks.
unfoldable pub send_rounds : Prog (Unit {0}) → Config → ℕ → Bytes → ℕ → ℕ → ℕ → Prog (Unit {0})
send_rounds sleep cfg address buffer size msg_id zero = skip
send_rounds sleep cfg address buffer size msg_id (suc rounds) =
    let again = send_rounds sleep cfg address buffer size msg_id rounds in
    do
      done ← sendto cfg address buffer size
      if done
          then (do sleep; confirmed ← is_msg_confirmed msg_id; if confirmed then skip else again)
          else again

-- `confirmed_msg_ids_index++`
unfoldable pub count_message : Prog (Unit {0})
count_message w =
    (ok tt, record w { confirmed = record w.confirmed { index = w.confirmed.index + 1 } })

-- The part behind the check for a CONFIRM, which is not repeated and not waited for.
unfoldable pub send_until_confirmed : Prog (Unit {0}) → Config → ℕ → Bytes → ℕ → Prog (Unit {0})
send_until_confirmed sleep cfg address buffer size = do
  msg_id ← lift (host16_at buffer 1)
  count_message
  send_rounds sleep cfg address buffer size msg_id (cfg.udp_retransmissions + 1)
  confirmed ← is_msg_confirmed msg_id
  if confirmed then skip else (do print (not_confirmed msg_id); exit exit_failure)

unfoldable pub send_resolved : Prog (Unit {0}) → Config → Bytes → ℕ → Option ℕ → Prog (Unit {0})
send_resolved sleep cfg buffer size none = exit exit_failure
send_resolved sleep cfg buffer size (some address) = do
  type ← lift (byte_at buffer 0)
  if type == 0x00
      then (do _ ← sendto cfg address buffer size; skip)
      else send_until_confirmed sleep cfg address buffer size

unfoldable pub send_network_msg_udp : Prog (Unit {0}) → Config → Bytes × ℕ → Prog (Unit {0})
send_network_msg_udp sleep cfg (buffer, size) w =
    send_resolved sleep cfg buffer size (cfg.resolve cfg.hostname w.port) w

-- Nothing happens while the listener sleeps: it is the thread that would do it.
abbrev pub idle : Prog (Unit {0})
idle = skip

-- `create_confirm_msg`, `serialize_confirm_msg` and `send_network_msg_udp`, as in each handler.
unfoldable pub send_confirm : Config → ℕ → Prog (Unit {0})
send_confirm cfg id = do
  out ← lift (serialize_confirm_msg cfg.malloc (create_confirm_msg id))
  send_network_msg_udp idle cfg out
