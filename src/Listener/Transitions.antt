-- ===== src/Listener/Transitions.antt =====
-- The states that a batch of datagrams can lead to: the loop of `udp_listener` in src/network_udp.c.
use ipk_projekt.World.{Config, AppState, lift, Arrival, World, get, continue}
use Prim.Native.Nat.{ℕ}
use ipk_projekt.Listener.{receive_bytes, listen, fill_buffer, receive, follow_port, max_msg_size}
use ipk_projekt.Base.{
  List, ℕ, ◌∷◌, take, inl, subst, ◌-◌, sym, [], length, inr, Result, ◌≡◌, ok, refl, exits, fault,
}
use ipk_projekt.Handlers.Moves.{ByServer, stay, accepted, joined, from, process-At}
use ipk_projekt.World.Keeps.{
  Keeps, seq-Keeps, bind-Keeps, skip-Keeps, get-Keeps, lift-Keeps, any_arrays, Arrays, Invariant,
  At, SoundIn,
}
use ipk_projekt.Memory.{Bytes, byte_at, store}
use ipk_projekt.Listener.Receive.{follow_port_cases}

pub ByServer-trans : {a b c : AppState} → ByServer a b → ByServer b c → ByServer a c
ByServer-trans stay q = q
ByServer-trans accepted stay = accepted
ByServer-trans joined stay = joined

module _ (Q : Invariant) where
  -- The result of a write to `recv_buffer`, stored.
  stored-At :
      (offset : ℕ) (bytes : Bytes) (w : World) (r : Result Bytes)
      → store w.recv_buffer offset bytes ≡ r
      → At Q w
      → At Q (continue (lift r w) (λ buffer w'. (ok tt, record w' { recv_buffer = buffer }))).1
  stored-At offset bytes w (ok buffer) e q = (
    q.0,
    Q.arrays.fill_buffer_lem offset bytes w.display_name w.recv_buffer buffer w.confirmed w.seen e
        q.1,
  )
  stored-At offset bytes w (exits status) e q = q
  stored-At offset bytes w fault e q = q

  fill_buffer-Keeps : (offset : ℕ) (bytes : Bytes) → Keeps Q (fill_buffer offset bytes)
  unfolding fill_buffer
  fill_buffer-Keeps offset bytes = record {
    holds = λ w q. stored-At offset bytes w (store w.recv_buffer offset bytes) refl q;
  }

  follow_port-Keeps : (cfg : Config) (type sender : ℕ) → Keeps Q (follow_port cfg type sender)
  follow_port-Keeps cfg type sender = record {
    holds = λ w q. elim (follow_port_cases cfg type sender w) [
      | inl stop ↦ subst (λ r. At Q r.1) (sym stop) q
      | inr (p, b, e) ↦ subst (λ r. At Q r.1) (sym e) q
    ];
  }

module _ (arrays : Arrays) (s : AppState) where
  receive_bytes-Keeps :
      (cfg : Config) (sender : ℕ) (bytes : Bytes)
      → Keeps (from arrays s) (receive_bytes cfg sender bytes)
  unfolding receive_bytes
  receive_bytes-Keeps cfg sender bytes =
      let Q = from arrays s in
      seq-Keeps Q (fill_buffer 0 bytes) _ (fill_buffer-Keeps Q 0 bytes) (
        bind-Keeps Q get _ (get-Keeps Q) (λ w.
          bind-Keeps Q (lift (byte_at w.recv_buffer 0)) _ (lift-Keeps Q (byte_at w.recv_buffer 0))
            (λ type.
              seq-Keeps Q (follow_port cfg type sender) _ (follow_port-Keeps Q cfg type sender) (
                seq-Keeps Q (fill_buffer (length bytes) (0 ∷ [])) _
                  (fill_buffer-Keeps Q (length bytes) (0 ∷ []))
                  (record {
                    holds = λ w' q.
                        let r = process-At arrays cfg w'.recv_buffer (length bytes) w' q.1 in
                        (ByServer-trans q.0 r.0, r.1);
                  })))))

  listen-Keeps : (cfg : Config) (batch : List Arrival) → Keeps (from arrays s) (listen cfg batch)
  unfolding listen receive
  listen-Keeps cfg [] = skip-Keeps (from arrays s)
  listen-Keeps cfg (a ∷ rest) =
      seq-Keeps (from arrays s) (receive cfg a) (listen cfg rest)
        (receive_bytes-Keeps cfg a.sender_port (take (max_msg_size - 1) a.payload))
        (listen-Keeps cfg rest)

pub listen-At :
    (arrays : Arrays) (cfg : Config) (batch : List Arrival) (w : World)
    → SoundIn arrays w
    → At (from arrays w.state) (listen cfg batch w).1
listen-At arrays cfg batch w sound = (listen-Keeps arrays w.state cfg batch).holds w (stay, sound)

-- Whatever the server sends, in any number of datagrams, and however their handling ends: the state
-- stays as it is, or goes from AUTH or from JOIN to OPEN.
pub listen-ByServer :
    (cfg : Config) (batch : List Arrival) (w : World)
    → ByServer w.state (listen cfg batch w).1.state
listen-ByServer cfg batch w = (listen-At any_arrays cfg batch w tt).0
