-- ===== src/Client/Entry.antt =====
-- The lines that the user enters, up to their commands: `/auth` in START and a message in OPEN. src/main.c with
-- src/state_start.c and src/state_open.c.
use ipk_projekt.Commands.Login.{Account, arguments}
use ipk_projekt.Client.{
  chop, front, main_round, run_line, set_unprocessed_line, run_token, select_command,
}
use ipk_projekt.World.{Config, World, state_auth, state_start, state_open}
use ipk_projekt.Base.{
  ℕ, ◌≡◌, ok, ◌++◌, codes, ◌∷◌, [], ap, refl, Result, arith, take, same_text, ◌≢◌, All, ◌⊎◌, ==_ne,
  some, length, ◌≤◌, take-all, ◌∙◌,
}
use Prim.Native.Nat.{ℕ}
use ipk_projekt.Memory.{Bytes, c_str}
use ipk_projekt.States.{state_logic, state_start_logic, run_command, auth, state_open_logic, msg}
use ipk_projekt.Commands.{cmd_auth, token, after_token, strtok, next_token, drop_spaces, send_msg}
use ipk_projekt.Commands.Words.{strtok_space}
use ipk_projekt.Deserialize.RoundTrip.{Succeeds}
use ipk_projekt.Validation.Charset.{Fits, IsBetween}
use ipk_projekt.Commands.Message.{cmd_msg-send_msg}

abbrev pub auth_line : Account → Bytes
auth_line a = codes "/auth " ++ (arguments a ++ (10 ∷ []))

pub front-append : (c : ℕ) (s : Bytes) (d : ℕ) → front c (s ++ (d ∷ [])) ≡ c ∷ s
unfolding front
front-append c [] d = refl
front-append c (x ∷ s) d = ap (◌∷◌ c) (front-append x s d)

chop-auth_line : (a : Account) → chop (auth_line a) ≡ ok (codes "/auth " ++ arguments a)
unfolding chop
chop-auth_line a = ap {B = Result Bytes} ok (front-append 47 (codes "auth " ++ arguments a) 10)

-- The client that takes up `/auth` with valid arguments.
abbrev pub taken : Account → World → World
taken a w = record w {
  unprocessed_line = take 59999 (codes "/auth " ++ arguments a);
  strtok_rest = arguments a;
  state = state_auth;
}

pub auth_line_lem :
    (cfg : Config) (a : Account) (w : World)
    → w.state ≡ state_start
    → main_round cfg (auth_line a) w ≡ cmd_auth cfg (taken a w)
unfolding main_round run_line set_unprocessed_line run_token state_logic state_start_logic
    run_command select_command same_text
auth_line_lem cfg a w start =
    let line : Bytes = codes "/auth " ++ arguments a in
    let w1 : World = record w { unprocessed_line = take 59999 line } in
    rw (chop-auth_line a, strtok_space (codes "/auth") (arguments a) w1 (omega arith) (omega arith))
      (ap (λ s. state_logic s auth cfg (record w1 { strtok_rest = arguments a })) start)

-- A line that is a message: it begins neither with a space nor with a slash.
abbrev pub IsMessage : Bytes → Type 0
IsMessage [] = ⊥
IsMessage (c ∷ s) =
    (c ≢ 32)
    × (c ≢ 47)
    × All (λ d. (d ≡ 0x0A) ⊎ IsBetween 0x20 0x7E d) (c ∷ s)
    × (length (c ∷ s) ≤ 59981)

select_command-msg : (c : ℕ) (s : Bytes) → c ≢ 47 → select_command (c ∷ s) ≡ msg
unfolding select_command same_text
select_command-msg c s h = rw (==_ne c 47 h)

first_word-msg : (c : ℕ) (s : Bytes) → c ≢ 32 → c ≢ 47 → select_command (token (c ∷ s)) ≡ msg
unfolding token
first_word-msg c s no_space no_slash =
    rw (==_ne c 32 no_space) (select_command-msg c (token s) no_slash)

strtok_first :
    (c : ℕ) (s : Bytes) (w : World)
    → c ≢ 32
    → strtok (c ∷ s) w ≡ (ok (some (token (c ∷ s))), record w { strtok_rest = after_token (c ∷ s) })
unfolding strtok next_token drop_spaces
strtok_first c s w h = rw (==_ne c 32 h)

-- The line, with the newline.
abbrev pub message_line : ℕ → Bytes → Bytes
message_line c s = (c ∷ s) ++ (10 ∷ [])

-- The client that takes the line up.
abbrev pub message_taken : ℕ → Bytes → World → World
message_taken c s w = record w { unprocessed_line = c ∷ s; strtok_rest = after_token (c ∷ s) }

-- In OPEN the line runs `cmd_msg`, and if the text and the name are valid, the text is sent.
pub message_line_lem :
    (cfg : Config) (name : Bytes) (c : ℕ) (s : Bytes) (w : World)
    → Succeeds cfg.malloc
    → Fits 20 (IsBetween 0x21 0x7E) name
    → IsMessage (c ∷ s)
    → w.state ≡ state_open
    → c_str w.display_name ≡ ok name
    → main_round cfg (message_line c s) w ≡ send_msg cfg name (c ∷ s) (message_taken c s w)
unfolding main_round run_line set_unprocessed_line run_token state_logic state_open_logic
    run_command chop
message_line_lem cfg name c s w roomy name_ok message open' called =
    let (no_space, no_slash, chars, short) = message in
    rw
      (
        front-append c s 10,
        take-all 59999 (c ∷ s) (omega (arith, short)),
        strtok_first c s (record w { unprocessed_line = c ∷ s }) no_space,
        first_word-msg c s no_space no_slash,
      )
      (ap (λ t. state_logic t msg cfg (message_taken c s w)) open'
        ∙ cmd_msg-send_msg cfg name (message_taken c s w) roomy name_ok called (omega arith, chars)
            short)
