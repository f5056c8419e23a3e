-- ===== src/Cleanup/Once.antt =====
-- How often a socket is closed: src/network_tcp.c and src/main.c.
use Prim.Native.Nat.{ℕ}
use ipk_projekt.Cleanup.{
  open_udp, close_open, stop_tcp_listener, cleanup, Resources, cleanup_tcp, Action,
  close_tcp_connection, cleanup_udp, shut_down, close, tcp_listener_end, shutdown, ends_unbound,
  freeaddrinfo, pthread_cancel, pthread_join, free_confirmed_msg_ids, free_seen_ids, act,
}
use ipk_projekt.Base.{
  List, ℕ, Option, false, ◌≡◌, ◌∷◌, ◌++◌, none, [], true, some, inl, ap, ◌⊎◌, refl, inr, ◌∙◌,
  Bool-cases, sym, append_assoc, append-nil,
}

-- What can happen to the connection once it stands. Each call runs to its end before the next.
pub data TcpCall : Type 0 where
  closes stops cleans_up listener_ends : TcpCall

pub call : TcpCall → Resources → Resources
call closes r = close_tcp_connection r
call stops r = stop_tcp_listener r
call cleans_up r = cleanup true r
call listener_ends r = tcp_listener_end r

pub call_all : List TcpCall → Resources → Resources
call_all [] r = r
call_all (c ∷ calls) r = call_all calls (call c r)

-- The sockets that were closed, in order.
unfoldable pub closed_in : List Action → List ℕ
closed_in [] = []
closed_in (close fd ∷ actions) = fd ∷ closed_in actions
closed_in (shutdown fd ∷ actions) = closed_in actions
closed_in (freeaddrinfo ∷ actions) = closed_in actions
closed_in (pthread_cancel ∷ actions) = closed_in actions
closed_in (pthread_join ∷ actions) = closed_in actions
closed_in (free_confirmed_msg_ids ∷ actions) = closed_in actions
closed_in (free_seen_ids ∷ actions) = closed_in actions

closed_in-append : (xs ys : List Action) → closed_in (xs ++ ys) ≡ closed_in xs ++ closed_in ys
unfolding closed_in
closed_in-append [] ys = refl
closed_in-append (close fd ∷ xs) ys = ap (◌∷◌ fd) (closed_in-append xs ys)
closed_in-append (shutdown fd ∷ xs) ys = closed_in-append xs ys
closed_in-append (freeaddrinfo ∷ xs) ys = closed_in-append xs ys
closed_in-append (pthread_cancel ∷ xs) ys = closed_in-append xs ys
closed_in-append (pthread_join ∷ xs) ys = closed_in-append xs ys
closed_in-append (free_confirmed_msg_ids ∷ xs) ys = closed_in-append xs ys
closed_in-append (free_seen_ids ∷ xs) ys = closed_in-append xs ys

-- The socket is open and was never closed, or it was closed once and is forgotten.
abbrev pub IsOnce : ℕ → Resources → Type 0
IsOnce fd r =
    ((r.tcp_socket ≡ some fd) × (closed_in r.done ≡ []))
    ⊎ ((r.tcp_socket ≡ none) × (closed_in r.done ≡ fd ∷ []))

close_open-IsOnce :
    (fd : ℕ) (s : Option ℕ) (r : Resources)
    → s ≡ r.tcp_socket
    → IsOnce fd r
    → IsOnce fd (close_open s r) × ((close_open s r).tcp_socket ≡ none)
unfolding close_open closed_in
close_open-IsOnce fd none r e (inl h) = cc
close_open-IsOnce fd none r e (inr h) = (inr h, sym e)
close_open-IsOnce fd (some x) r e (inl h) =
    let same : x ≡ fd = cc in
    (inr (refl, closed_in-append r.done (close x ∷ []) ∙ rw (h.1, same)), refl)
close_open-IsOnce fd (some x) r e (inr h) = cc

stop-IsOnce : (fd : ℕ) (r : Resources) → IsOnce fd r → IsOnce fd (stop_tcp_listener r)
unfolding stop_tcp_listener closed_in
stop-IsOnce fd r h = elim (Bool-cases r.listener_thread_running) [
  | inl up ↦ rw up (shut r.tcp_socket)
  | inr down ↦ rw down h
]
  where
    quiet : Resources
    quiet = record r { listener_thread_running = false }

    shut : (s : Option ℕ) → IsOnce fd (shut_down s quiet)
    shut none = h
    shut (some x) = elim h [
      | inl p ↦ inl (p.0, closed_in-append r.done (shutdown x ∷ []) ∙ rw p.1)
      | inr p ↦ inr (p.0, closed_in-append r.done (shutdown x ∷ []) ∙ rw p.1)
    ]

call-IsOnce : (fd : ℕ) (c : TcpCall) (r : Resources) → IsOnce fd r → IsOnce fd (call c r)
unfolding call cleanup cleanup_tcp close_tcp_connection tcp_listener_end
call-IsOnce fd closes r h = (close_open-IsOnce fd r.tcp_socket r refl h).0
call-IsOnce fd stops r h = stop-IsOnce fd r h
call-IsOnce fd cleans_up r h =
    let r' = stop_tcp_listener r in
    (close_open-IsOnce fd r'.tcp_socket r' refl (stop-IsOnce fd r h)).0
call-IsOnce fd listener_ends r h =
    (close_open-IsOnce fd r.tcp_socket (record r { listener_thread_running = false }) refl h).0

pub call_all-IsOnce :
    (fd : ℕ) (calls : List TcpCall) (r : Resources) → IsOnce fd r → IsOnce fd (call_all calls r)
unfolding call_all
call_all-IsOnce fd [] r h = h
call_all-IsOnce fd (c ∷ calls) r h = call_all-IsOnce fd calls (call c r) (call-IsOnce fd c r h)

-- Whatever calls are made for the connection, in any order and any number of times, from the end of the
-- listener to an explicit close, provided that no two overlap: once `cleanup` has run at exit, the
-- socket has been closed exactly once. It was open and not yet closed at first.
pub cleanup_once :
    (fd : ℕ) (calls : List TcpCall) (r : Resources)
    → r.tcp_socket ≡ some fd
    → closed_in r.done ≡ []
    → closed_in (cleanup true (call_all calls r)).done ≡ fd ∷ []
unfolding cleanup cleanup_tcp close_tcp_connection
cleanup_once fd calls r opened unclosed =
    let r' = stop_tcp_listener (call_all calls r) in
    let (once, gone) =
      close_open-IsOnce fd r'.tcp_socket r' refl
        (stop-IsOnce fd (call_all calls r) (call_all-IsOnce fd calls r (inl (opened, unclosed)))) in
    elim once [ inl p ↦ absurd (cc) | inr p ↦ p.1 ]

-- Two threads that have both found the socket open, as `cleanup` and the end of the listener can, close it
-- twice: the test and the closing are not one step.
pub close_open_raced :
    (fd : ℕ) (r : Resources)
    → r.tcp_socket ≡ some fd
    → closed_in (close_open r.tcp_socket (close_open r.tcp_socket r)).done
      ≡ closed_in r.done ++ (fd ∷ (fd ∷ []))
unfolding close_open closed_in
close_open_raced fd r e = rw e (simp (closed_in-append, append_assoc))

-- When `bind` fails, the listener closes its socket and ends, and leaves the number in place: `cleanup`
-- closes it a second time.
pub open_udp_unbound :
    (fd : ℕ) (r : Resources)
    → (r' : Resources) × (open_udp (some fd) false r ≡ ends_unbound r')
      × (closed_in (cleanup false r').done ≡ closed_in r.done ++ (fd ∷ (fd ∷ [])))
unfolding open_udp cleanup cleanup_udp closed_in
open_udp_unbound fd r = (
  record (act (close fd) r) { udp_socket = some fd },
  refl,
  elim (Bool-cases r.has_servinfo) [
    | inl yes' ↦ elim (Bool-cases r.listener_thread_running) [
      | inl up ↦ rw (yes', up) (simp (closed_in-append, append_assoc, append-nil))
      | inr down ↦ rw (yes', down) (simp (closed_in-append, append_assoc, append-nil))
    ]
    | inr no' ↦ elim (Bool-cases r.listener_thread_running) [
      | inl up ↦ rw (no', up) (simp (closed_in-append, append_assoc, append-nil))
      | inr down ↦ rw (no', down) (simp (closed_in-append, append_assoc, append-nil))
    ]
  ],
)
