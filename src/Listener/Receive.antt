-- ===== src/Listener/Receive.antt =====
-- One datagram through the loop of `udp_listener`: what the handler is given.
use ipk_projekt.Listener.{follow_port, fill_buffer, receive, receive_bytes, show_decimal}
use ipk_projekt.World.{Config, World, continue}
use ipk_projekt.Memory.Laws.{store-append}
use ipk_projekt.Memory.{Bytes, byte_at}
use ipk_projekt.Base.{
  ◌++◌, ℕ, drop, length, ◌∷◌, ◌≤◌, ◌<◌, ◌≡◌, take-all, [], arith, ap, Result, exits, ok, ◌∙◌,
  exit_failure, append_assoc, inl, ◌⊎◌, inr, length-drop, Bool, Bool-cases, ◌==◌, ◌&&◌, not,
  Option-cases, take, true, length-append,
}
use ipk_projekt.Handlers.{process_received_udp_message}
use ipk_projekt.Deserialize.Safety.{received}

abbrev pub stale_after : Bytes → World → Bytes
stale_after payload w = drop 1 (drop (length payload) w.recv_buffer)

-- The buffer after `recvfrom`, before the NUL.
abbrev pub arrived : Bytes → World → World
arrived payload w = record w { recv_buffer = payload ++ drop (length payload) w.recv_buffer }

-- `follow_port` fails without memory, or sets the port and nothing else.
pub follow_port_cases :
    (cfg : Config) (type sender : ℕ) (w : World)
    → (follow_port cfg type sender w ≡ (exits exit_failure, w))
      ⊎ ((p : Bytes) × (b : Bool) × (follow_port cfg type sender w
            ≡ (ok tt, record w { port = p; has_changed_to_dyn_port = b })))
unfolding follow_port
follow_port_cases cfg type sender w =
    elim (Bool-cases (type == 0x01 && not w.has_changed_to_dyn_port)) [
      | inr same ↦ inr (w.port, w.has_changed_to_dyn_port, rw same)
      | inl first ↦ elim (Option-cases (cfg.malloc.alloc 6)) [
        | inl short ↦ inl (rw (first, short))
        | inr (block, e) ↦ inr (take 5 (show_decimal 10 sender), true, rw (first, e))
      ]
    ]

-- The buffer keeps its size.
pub length-received :
    (payload : Bytes) (w : World)
    → length payload < length w.recv_buffer
    → length (received payload (stale_after payload w)) ≡ length w.recv_buffer
length-received payload w room = omega (
  arith,
  length-append payload (0 ∷ stale_after payload w),
  length-drop 1 (drop (length payload) w.recv_buffer),
  length-drop (length payload) w.recv_buffer,
)

-- What the rest of the loop does with the datagram.
abbrev pub handled : Config → Bytes → Bytes → World → Result (Unit {0}) × World
handled cfg d stale w =
    process_received_udp_message cfg (received d stale) (length d)
      (record w { recv_buffer = received d stale })

fill_nul :
    (d rest : Bytes) (w : World)
    → 0 < length rest
    → fill_buffer (length d) (0 ∷ []) (record w { recv_buffer = d ++ rest })
      ≡ (ok tt, record w { recv_buffer = received d (drop 1 rest) })
unfolding fill_buffer
fill_nul d rest w h = rw (store-append d rest (0 ∷ []) h, append_assoc)

receive_bytes-handled :
    (cfg : Config) (sender c : ℕ) (s : Bytes) (w : World)
    → length (c ∷ s) < length w.recv_buffer
    → receive_bytes cfg sender (c ∷ s) w
      ≡ continue
          (follow_port cfg c sender (arrived (c ∷ s) w))
          (λ _. handled cfg (c ∷ s) (stale_after (c ∷ s) w))
unfolding receive_bytes byte_at
receive_bytes-handled cfg sender c s w room =
    rw (filled) (elim (follow_port_cases cfg c sender (arrived (c ∷ s) w)) [
      | inl stop ↦ rw stop
      | inr (p, b, e) ↦ rw (
        e,
        fill_nul (c ∷ s) (drop (length (c ∷ s)) w.recv_buffer)
            (record w { port = p; has_changed_to_dyn_port = b })
            (omega (arith, length-drop (length (c ∷ s)) w.recv_buffer)),
      )
    ])
  where
    filled : fill_buffer 0 (c ∷ s) w ≡ (ok tt, arrived (c ∷ s) w)
    filled = unfold fill_buffer in rw (store-append [] w.recv_buffer (c ∷ s) (omega arith))

-- A datagram that is not empty, is not longer than `recvfrom` allows and leaves room for the NUL is handed on whole, with the NUL behind it and old bytes
-- behind that; its first byte and the sender's port decide first whether the port changes.
pub receive-handled :
    (cfg : Config) (sender c : ℕ) (s : Bytes) (w : World)
    → length (c ∷ s) ≤ 60006
    → length (c ∷ s) < length w.recv_buffer
    → receive cfg (record { sender_port = sender; payload = c ∷ s }) w
      ≡ continue
          (follow_port cfg c sender (arrived (c ∷ s) w))
          (λ _. handled cfg (c ∷ s) (stale_after (c ∷ s) w))
unfolding receive
receive-handled cfg sender c s w fits room =
    ap (λ bytes. receive_bytes cfg sender bytes w) (take-all 60006 (c ∷ s) fits)
    ∙ receive_bytes-handled cfg sender c s w room
