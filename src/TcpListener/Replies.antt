-- ===== src/TcpListener/Replies.antt =====
-- REPLY lines of TCP: `process_tcp_reply_message` of src/network_tcp.c, beside the REPLY datagrams of UDP.
use ipk_projekt.Strings.{span, scan_word, isspace, strip_prefix}
use ipk_projekt.Scan.{scan_reply}
use Prim.Native.Nat.{ℕ, suc}
use ipk_projekt.Base.{
  ℕ, Bool, ◌≢◌, All, if◌then◌else◌, ◌∷◌, ◌≡◌, ◌==◌, codes, not, true, ◌||◌, length, false, ◌++◌, [],
  some, refl, arith, ◌≤◌, ok, zero, ltb, ◌<◌, ◌⊎◌, Result, inl, inr,
}
use ipk_projekt.Memory.{Bytes, IsText}
use ipk_projekt.World.{Config, AppState, state_open, World, state_auth, state_join, state_start}
use ipk_projekt.TcpListener.{
  process_tcp_message, reply_ok, reply_nok, process_tcp_reply_message, handle_reply, answer_reply,
}
use ipk_projekt.Handlers.Replies.{outcome, expected, reply_buffer, process_reply-expected}
use ipk_projekt.Handlers.Requests.{Answering}
use ipk_projekt.Handlers.{process_received_udp_message}

-- "REPLY OK IS %s" and "REPLY NOK IS %s"
abbrev pub reply_line : ℕ → Bytes → Bytes
reply_line result content =
    if result == 1 then codes "REPLY OK IS " ++ content else codes "REPLY NOK IS " ++ content

-- The characters of a content that `%[^\r\n]` reads.
abbrev pub InLine : ℕ → Type 0
InLine c = (c ≢ 13) × (c ≢ 10)

span_whole :
    (test : ℕ → Bool) (s : Bytes) → All (λ c. test c ≡ true) s → span test (length s) s ≡ (s, [])
unfolding span
span_whole test [] h = refl
span_whole test (c ∷ s) h = rw (span_whole test s h.1, h.0)

scan_content :
    (c : ℕ) (s : Bytes)
    → All InLine (c ∷ s)
    → scan_word (λ d. not (d == 13 || d == 10)) (length (c ∷ s)) (c ∷ s) ≡ some (c ∷ s, [])
unfolding scan_word
scan_content c s h = rw (span_whole (λ d. not (d == 13 || d == 10)) (c ∷ s) (in_line (c ∷ s) h))
  where
    in_line : (u : Bytes) → All InLine u → All (λ d. not (d == 13 || d == 10) ≡ true) u
    in_line [] _ = tt
    in_line (d ∷ u) g = (ground (arith, g.0), in_line u g.1)

scan_reply_ok :
    (c : ℕ) (s : Bytes)
    → All InLine (c ∷ s)
    → isspace c ≡ false
    → scan_reply (codes "REPLY OK IS " ++ (c ∷ s)) ≡ some (codes "OK", c ∷ s)
unfolding scan_reply
scan_reply_ok c s h e = rw (e, scan_content c s h)

scan_reply_nok :
    (c : ℕ) (s : Bytes)
    → All InLine (c ∷ s)
    → isspace c ≡ false
    → scan_reply (codes "REPLY NOK IS " ++ (c ∷ s)) ≡ some (codes "NOK", c ∷ s)
unfolding scan_reply
scan_reply_nok c s h e = rw (e, scan_content c s h)

-- The state after a REPLY, by its result.
abbrev pub next : ℕ → AppState → AppState
next result state_auth = if result == 1 then state_open else state_auth
next result state_join = state_open
next result state_open = state_open
next result state_start = state_start

-- A content that `sscanf` reads whole, and that its array holds.
abbrev pub IsContent : Bytes → Type 0
IsContent [] = ⊥
IsContent (c ∷ s) = All InLine (c ∷ s) × (isspace c ≡ false) × (length (c ∷ s) ≤ 60000)

reply_ok-next : (s : AppState) → reply_ok s ≡ next 1 s
unfolding reply_ok
reply_ok-next state_start = refl
reply_ok-next state_auth = refl
reply_ok-next state_open = refl
reply_ok-next state_join = refl

reply_nok-next : (s : AppState) → reply_nok s ≡ next 0 s
unfolding reply_nok
reply_nok-next state_start = refl
reply_nok-next state_auth = refl
reply_nok-next state_open = refl
reply_nok-next state_join = refl

-- What a REPLY line does.
abbrev pub replied : ℕ → Bytes → World → World
replied result content w = record w {
  printed = w.printed ++ (outcome result content ∷ []);
  state = next result w.state;
}

module _ (cfg : Config) (c : ℕ) (s : Bytes) (w : World) (h : IsContent (c ∷ s)) where
  fits : ltb (length (c ∷ s)) 60001 ≡ true
  fits = ground (arith, h.2)

  positive : process_tcp_message cfg (reply_line 1 (c ∷ s)) w ≡ (ok tt, replied 1 (c ∷ s) w)
  unfolding process_tcp_message process_tcp_reply_message handle_reply answer_reply strip_prefix
  positive = rw (scan_reply_ok c s h.0 h.1, fits, ← reply_ok-next w.state)

  negative : process_tcp_message cfg (reply_line 0 (c ∷ s)) w ≡ (ok tt, replied 0 (c ∷ s) w)
  unfolding process_tcp_message process_tcp_reply_message handle_reply answer_reply strip_prefix
  negative = rw (scan_reply_nok c s h.0 h.1, fits, ← reply_nok-next w.state)

-- A REPLY line of TCP with OK or NOK, in any state, whose content has 1 to 60000 characters, no line
-- break, and no white space at its start: it is printed, and the state goes from AUTH to OPEN for OK,
-- and from JOIN to OPEN for both; nothing else changes.
pub process_reply_line :
    (cfg : Config) (result : ℕ) (content : Bytes) (w : World)
    → result ≤ 1
    → IsContent content
    → process_tcp_message cfg (reply_line result content) w ≡ (ok tt, replied result content w)
process_reply_line cfg result [] w small h = absurd h
process_reply_line cfg zero (c ∷ s) w small h = negative cfg c s w h
process_reply_line cfg (suc zero) (c ∷ s) w small h = positive cfg c s w h
process_reply_line cfg (suc (suc n)) (c ∷ s) w small h = absurd (omega arith)

-- In AUTH and JOIN the client does the same for a REPLY over UDP and over TCP, but for the CONFIRM: it
-- prints the same and is in the same state, from the same world, and goes on. There is memory, the
-- network delivers, and the content fits both formats.
pub process_reply-process_reply_line :
    (cfg : Config) (address id result ref size : ℕ) (content after : Bytes) (w : World)
    → id < 65536
    → ref < 65536
    → IsText content
    → 8 ≤ size
    → IsContent content
    → result ≤ 1
    → Answering cfg address w
    → (w.state ≡ state_auth) ⊎ (w.state ≡ state_join)
    → let udp : Result (Unit {0}) × World =
        process_received_udp_message cfg (reply_buffer id result ref content after) size w in
      let tcp : Result (Unit {0}) × World = process_tcp_message cfg (reply_line result content) w in
      (udp.0 ≡ ok tt)
      × (tcp.0 ≡ ok tt)
      × (udp.1.printed ≡ tcp.1.printed)
      × (udp.1.state ≡ tcp.1.state)
unfolding expected
process_reply-process_reply_line cfg address id result ref size content after w h g text big fits
      small a s =
    let e =
      process_reply-expected cfg address id result ref size content after h g text big w a small in
    let f = process_reply_line cfg result content w small fits in
    elim s [
      | inl p ↦ rw (e, f, p) (refl, refl, refl, refl)
      | inr p ↦ rw (e, f, p) (refl, refl, refl, refl)
    ]
