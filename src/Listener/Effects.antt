-- ===== src/Listener/Effects.antt =====
-- Any property of the state of the application is kept by the sender and by the check on
-- duplicates, which do not set the state.
use ipk_projekt.World.Keeps.{
  Keeps, bind-Keeps, seq-Keeps, if-Keeps, skip-Keeps, lift-Keeps, print-Keeps, exit-Keeps,
  Invariant, At,
}
use ipk_projekt.World.{Config, Prog, lift, ◌>>◌, skip, print, not_confirmed, exit, World}
use ipk_projekt.Udp.{
  send_rounds, is_msg_confirmed, count_message, sendto, send_until_confirmed, send_network_msg_udp,
  send_confirm, send_resolved, idle,
}
use Prim.Native.Nat.{ℕ, suc}
use ipk_projekt.Base.{
  ℕ, zero, ◌+◌, exit_failure, Option, ok, some, exits, ◌==◌, none, Result, Bool, fault, ◌≡◌, refl,
}
use ipk_projekt.Memory.{Bytes, host16_at, byte_at}
use ipk_projekt.Handlers.{duplicate}
use ipk_projekt.Ids.{is_message_duplicate, Seen}
use ipk_projekt.Serialize.{serialize_confirm_msg}
use ipk_projekt.Messages.{create_confirm_msg}

module _ (Q : Invariant) where
  sendto-Keeps :
      (cfg : Config) (address : ℕ) (buffer : Bytes) (size : ℕ)
      → Keeps Q (sendto cfg address buffer size)
  unfolding sendto
  sendto-Keeps cfg address buffer size = record { holds = λ w q. q }

  is_msg_confirmed-Keeps : (id : ℕ) → Keeps Q (is_msg_confirmed id)
  unfolding is_msg_confirmed
  is_msg_confirmed-Keeps id = record { holds = λ w q. q }

  count_message-Keeps : Keeps Q count_message
  unfolding count_message
  count_message-Keeps = record {
    holds = λ w q.
        (q.0, Q.arrays.count_message_lem w.display_name w.recv_buffer w.confirmed w.seen q.1);
  }

  send_rounds-Keeps :
      (sleep : Prog (Unit {0})) (cfg : Config) (address : ℕ) (buffer : Bytes) (size id rounds : ℕ)
      → Keeps Q sleep
      → Keeps Q (send_rounds sleep cfg address buffer size id rounds)
  unfolding send_rounds
  send_rounds-Keeps sleep cfg address buffer size id zero k = record { holds = λ w q. q }
  send_rounds-Keeps sleep cfg address buffer size id (suc rounds) k =
      let again = send_rounds-Keeps sleep cfg address buffer size id rounds k in
      bind-Keeps Q (sendto cfg address buffer size) _ (sendto-Keeps cfg address buffer size)
        (λ done.
          if-Keeps Q done _ _
            (seq-Keeps Q sleep _ k (
              bind-Keeps Q (is_msg_confirmed id) _ (is_msg_confirmed-Keeps id)
                (λ c. if-Keeps Q c _ _ (skip-Keeps Q) again)))
            again)

  send_until_confirmed-Keeps :
      (sleep : Prog (Unit {0})) (cfg : Config) (address : ℕ) (buffer : Bytes) (size : ℕ)
      → Keeps Q sleep
      → Keeps Q (send_until_confirmed sleep cfg address buffer size)
  unfolding send_until_confirmed
  send_until_confirmed-Keeps sleep cfg address buffer size k =
      bind-Keeps Q (lift (host16_at buffer 1)) _ (lift-Keeps Q (host16_at buffer 1)) (λ id.
        seq-Keeps Q count_message _ count_message-Keeps (
          seq-Keeps Q (send_rounds sleep cfg address buffer size id (cfg.udp_retransmissions + 1)) _
            (send_rounds-Keeps sleep cfg address buffer size id (cfg.udp_retransmissions + 1) k)
            (bind-Keeps Q (is_msg_confirmed id) _ (is_msg_confirmed-Keeps id) (λ confirmed.
              if-Keeps Q confirmed skip (print (not_confirmed id) >> exit exit_failure)
                (skip-Keeps Q)
                (seq-Keeps Q (print (not_confirmed id)) (exit exit_failure)
                  (print-Keeps Q (not_confirmed id)) (exit-Keeps Q exit_failure))))))

  send_resolved-Keeps :
      (sleep : Prog (Unit {0})) (cfg : Config) (buffer : Bytes) (size : ℕ) (address : Option ℕ)
      → Keeps Q sleep
      → Keeps Q (send_resolved sleep cfg buffer size address)
  unfolding send_resolved
  send_resolved-Keeps sleep cfg buffer size none k = exit-Keeps Q exit_failure
  send_resolved-Keeps sleep cfg buffer size (some address) k =
      bind-Keeps Q (lift (byte_at buffer 0)) _ (lift-Keeps Q (byte_at buffer 0)) (λ type.
        if-Keeps Q (type == 0x00) _ _
          (bind-Keeps Q (sendto cfg address buffer size) _ (sendto-Keeps cfg address buffer size)
            (λ _. skip-Keeps Q))
          (send_until_confirmed-Keeps sleep cfg address buffer size k))

  pub send_network_msg_udp-Keeps :
      (sleep : Prog (Unit {0})) (cfg : Config) (out : Bytes × ℕ)
      → Keeps Q sleep
      → Keeps Q (send_network_msg_udp sleep cfg out)
  unfolding send_network_msg_udp
  send_network_msg_udp-Keeps sleep cfg (buffer, size) k = record {
    holds = λ w q.
        (send_resolved-Keeps sleep cfg buffer size (cfg.resolve cfg.hostname w.port) k).holds w q;
  }

  pub send_confirm-Keeps : (cfg : Config) (id : ℕ) → Keeps Q (send_confirm cfg id)
  unfolding send_confirm
  send_confirm-Keeps cfg id =
      bind-Keeps Q (lift (serialize_confirm_msg cfg.malloc (create_confirm_msg id))) _
        (lift-Keeps Q (serialize_confirm_msg cfg.malloc (create_confirm_msg id)))
        (λ out. send_network_msg_udp-Keeps idle cfg out (skip-Keeps Q))

  -- What `duplicate` makes of each result.
  abbrev outcome : Result (Seen × Bool) → World → Result Bool × World
  outcome r w = elim r [
    | ok (seen, answer) ↦ (ok answer, record w { seen = seen })
    | exits status ↦ (exits status, w)
    | fault ↦ (fault, w)
  ]

  outcome-At :
      (cfg : Config) (id : ℕ) (r : Result (Seen × Bool)) (w : World)
      → is_message_duplicate cfg.malloc w.seen id ≡ r
      → At Q w
      → At Q (outcome r w).1
  outcome-At cfg id (ok (seen, answer)) w e q = (
    q.0,
    Q.arrays.duplicate_lem cfg.malloc id w.display_name w.recv_buffer w.confirmed w.seen seen answer
        e q.1,
  )
  outcome-At cfg id (exits status) w e q = q
  outcome-At cfg id fault w e q = q

  pub duplicate-Keeps : (cfg : Config) (id : ℕ) → Keeps Q (duplicate cfg id)
  unfolding duplicate
  duplicate-Keeps cfg id = record {
    holds = λ w q. outcome-At cfg id (is_message_duplicate cfg.malloc w.seen id) w refl q;
  }
