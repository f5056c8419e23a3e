-- ===== src/Listener/Inbox.antt =====
-- Any run of MSGs through the loop of `udp_listener` of src/network_udp.c, against an inbox that shows each
-- message once.
use Prim.Native.Nat.{ℕ}
use ipk_projekt.Memory.{Bytes, IsText}
use ipk_projekt.Base.{
  List, ◌<◌, ◌≤◌, All, ◌∷◌, length, [], if◌then◌else◌, map, ◌++◌, ◌≡◌, ok, ◌+◌, Bool-cases, inl,
  subst, inr, sym, append_assoc, ◌∙◌, ap, refl, arith, Result, append-nil,
}
use ipk_projekt.World.{Datagram, Config, Arrival, Output, World, chat}
use ipk_projekt.Listener.{listen}
use ipk_projekt.Serialize.Layout.{header}
use ipk_projekt.Listener.Relay.{msg_arrival, receive-shown}
use ipk_projekt.Ids.{Seen}
use ipk_projekt.Handlers.Requests.{Answering, learned, MsgAllowed, shown}
use ipk_projekt.Ids.Dedup.{IsValid, view}
use ipk_projekt.Ids.Cells.{elem}
use ipk_projekt.Udp.Rounds.{sent_to}

-- A MSG that fits its arrays.
pub record Incoming : Type 0 where
  pub sender : ℕ
  pub id : ℕ
  pub name : Bytes
  pub content : Bytes
  pub small : id < 65536
  pub name_text : IsText name
  pub content_text : IsText content
  pub some_text : 2 ≤ length name + length content
  pub fits : length name + length content ≤ 60001

abbrev pub arrival_of : Incoming → Arrival
arrival_of m = msg_arrival m.sender m.id m.name m.content

abbrev pub confirmation : ℕ → Incoming → Datagram
confirmation address m = record { to = address; payload = header 0 m.id [] }

-- The inbox: what it shows and which ids it remembers, from the ids that it knows.
abbrev pub fresh : List ℕ → List Incoming → List Output
fresh ids [] = []
fresh ids (m ∷ ms) =
    (if elem m.id ids then [] else chat m.name m.content ∷ []) ++ fresh (learned m.id ids) ms

abbrev pub remembered : List ℕ → List Incoming → List ℕ
remembered ids [] = ids
remembered ids (m ∷ ms) = remembered (learned m.id ids) ms

-- Each leaves room for the NUL in a buffer of this size.
abbrev pub AllFit : ℕ → List Incoming → Type 0
AllFit size ms = All (λ m. length m.name + length m.content + 5 < size) ms

-- The world after such a run.
abbrev pub after_all : ℕ → List Incoming → Bytes → Seen → World → World
after_all address ms buffer seen w = record w {
  recv_buffer = buffer;
  seen = seen;
  printed = w.printed ++ fresh (view w.seen) ms;
  sent = w.sent ++ map (confirmation address) ms;
  attempts = w.attempts + length ms;
}

-- What a world has to offer to a run of MSGs.
pub record CanListen (cfg : Config) (address : ℕ) (ms : List Incoming) (w : World) : Type 0 where
  pub answering : Answering cfg address w
  pub valid : IsValid w.seen
  pub allowed : MsgAllowed w.state
  pub room : AllFit (length w.recv_buffer) ms

shown-fresh :
    (m : Incoming) (ms : List Incoming) (ids : List ℕ) (w : World)
    → ids ≡ learned m.id (view w.seen)
    → shown m.id (chat m.name m.content) w ++ fresh ids ms
      ≡ w.printed ++ fresh (view w.seen) (m ∷ ms)
shown-fresh m ms ids w e = elim (Bool-cases (elem m.id (view w.seen))) [
  | inl old ↦ rw (e, old)
  | inr new ↦
      rw (e, new)
        (append_assoc w.printed (chat m.name m.content ∷ [])
          (fresh (view w.seen ++ (m.id ∷ [])) ms))
]

-- Worlds that agree on what was printed and sent are the same.
agree :
    (buffer : Bytes) (seen : Seen) (w : World) {p q : List Output} {s t : List Datagram} {n m : ℕ}
    → p ≡ q
    → s ≡ t
    → n ≡ m
    → ◌≡◌ {A = Result (Unit {0}) × World}
        (ok tt, record w { recv_buffer = buffer; seen = seen; printed = p; sent = s; attempts = n })
        (ok tt, record w { recv_buffer = buffer; seen = seen; printed = q; sent = t; attempts = m })
agree buffer seen w e f g = λ i. (
  ok tt,
  record w { recv_buffer = buffer; seen = seen; printed = e i; sent = f i; attempts = g i },
)

-- In AUTH, OPEN and JOIN, whatever MSGs arrive, however often each of them is repeated and whatever their
-- order: each id is shown once, when it comes for the first time, every copy is confirmed, and the
-- client goes on in the same state; it remembers the ids, so that the next run goes on from there.
-- There is memory, the network delivers, the table of ids is valid, and each datagram has room.
pub listen-fresh :
    (cfg : Config) (address : ℕ) (ms : List Incoming) (w : World)
    → CanListen cfg address ms w
    → (buffer : Bytes) × (seen : Seen) × (listen cfg (map arrival_of ms) w
        ≡ (ok tt, after_all address ms buffer seen w))
      × IsValid seen
      × (view seen ≡ remembered (view w.seen) ms)
      × (length buffer ≡ length w.recv_buffer)
unfolding listen
listen-fresh cfg address [] w can = (
  w.recv_buffer,
  w.seen,
  agree w.recv_buffer w.seen w (sym (append-nil w.printed)) (sym (append-nil w.sent)) (omega arith),
  can.valid,
  refl,
  refl,
)
listen-fresh cfg address (m ∷ ms) w can =
    let (buffer1, seen1, e1, v1, m1, l1) =
      receive-shown cfg address m.sender m.id m.name m.content m.small m.name_text m.content_text w
        can.answering can.valid can.allowed m.some_text m.fits can.room.0 in
    let w1 : World = sent_to address (header 0 m.id []) (record w {
      recv_buffer = buffer1;
      seen = seen1;
      printed = shown m.id (chat m.name m.content) w;
    }) in
    let (buffer, seen, e, v, r, l) = listen-fresh cfg address ms w1 (record {
      answering = record {
        roomy = can.answering.roomy;
        delivers = can.answering.delivers;
        resolves = can.answering.resolves;
      };
      valid = v1;
      allowed = can.allowed;
      room = subst (λ size. AllFit size ms) (sym l1) can.room.1;
    }) in
    (
      buffer,
      seen,
      rw e1 (
          e
          ∙ agree buffer seen w (shown-fresh m ms (view seen1) w m1)
              (append_assoc w.sent (confirmation address m ∷ []) (map (confirmation address) ms))
              (omega arith)),
      v,
      r ∙ ap (λ ids. remembered ids ms) m1,
      l ∙ l1,
    )
