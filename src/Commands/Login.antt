-- ===== src/Commands/Login.antt =====
-- `/auth` with valid arguments over UDP: src/cmd_auth.c up to the AUTH that it sends.
use ipk_projekt.Memory.{Bytes, IsText, c_str}
use ipk_projekt.Base.{
  ℕ, length, All, ◌≡◌, ◌+◌, ◌++◌, arith, ◌∷◌, ◌≤◌, false, [], ◌⊎◌, ok, length-append, drop,
  append_assoc, replicate, length-replicate, some, ap, inl, none, ◌∙◌, sym, inr, take-all, refl,
  codes, true,
}
use Prim.Native.Nat.{ℕ}
use ipk_projekt.Commands.{
  set_display_name, cmd_auth, send_auth, strtok_next, strtok, token_at, pointed, drop_spaces,
}
use ipk_projekt.World.{Config, World, state_auth, Line}
use ipk_projekt.Serialize.Layout.{header, field, serialize_auth_msg-Gives}
use ipk_projekt.Validation.Charset.{
  Fits, IsWordChar, IsBetween, validate_id_iff, validate_secret_iff, validate_display_name_iff,
}
use ipk_projekt.Deserialize.RoundTrip.{Succeeds}
use ipk_projekt.Commands.Words.{IsWord, strtok_space}
use ipk_projekt.Memory.Laws.{store-append, c_str-text}
use ipk_projekt.Handlers.{display_name_text}
use ipk_projekt.Messages.{create_auth_msg, AuthMsg}
use ipk_projekt.Udp.{send_network_msg_udp}
use ipk_projekt.Listener.{sleep}
use ipk_projekt.Commands.Rename.{strtok_word, name-IsText}
use ipk_projekt.Tcp.{send_tcp_auth_msg, crlf, send_network_msg_tcp}
use ipk_projekt.Udp.Rounds.{Delivers}
use ipk_projekt.TcpListener.Wire.{send_network_msg_tcp_lem}

-- The array after `memset` and `strcpy`.
abbrev pub name_array : Bytes → Bytes
name_array name = (name ++ (0 ∷ [])) ++ drop (length (name ++ (0 ∷ []))) (replicate 20 0)

pub set_display_name_lem :
    (name : Bytes) (w : World)
    → length name ≤ 19
    → set_display_name name w ≡ (ok tt, record w { display_name = name_array name })
unfolding set_display_name
set_display_name_lem name w short = rw (
    store-append [] (replicate 20 0) (name ++ (0 ∷ []))
      (omega (arith, length-append name (0 ∷ []), length-replicate {A = ℕ} 20 0)))

pub c_str-name_array : (name : Bytes) → IsText name → c_str (name_array name) ≡ ok name
c_str-name_array name h =
    rw append_assoc (c_str-text name (drop (length (name ++ (0 ∷ []))) (replicate 20 0)) h)

-- What `/auth` is given: a user name, a secret and a display name that are valid, the display name
-- with room for its NUL.
pub record Account : Type 0 where
  pub username : Bytes
  pub secret : Bytes
  pub name : Bytes
  pub username_ok : Fits 20 (λ c. IsWordChar c ⊎ (c ≡ 46)) username
  pub secret_ok : Fits 128 IsWordChar secret
  pub name_ok : Fits 19 (IsBetween 0x21 0x7E) name

abbrev pub arguments : Account → Bytes
arguments a = a.username ++ (32 ∷ (a.secret ++ (32 ∷ a.name)))

-- The AUTH with the id 0.
abbrev pub auth_packet : Account → Bytes
auth_packet a = header 2 0 (field a.username (field a.name (field a.secret [])))

abbrev pub auth_size : Account → ℕ
auth_size a = length a.username + length a.name + length a.secret + 6

pub length-auth_packet : (a : Account) → length (auth_packet a) ≡ auth_size a
length-auth_packet a = omega (
  arith,
  length-append a.username (0 ∷ field a.name (field a.secret [])),
  length-append a.name (0 ∷ field a.secret []),
  length-append a.secret (0 ∷ []),
)

id-IsWord : (s : Bytes) → All (λ c. IsWordChar c ⊎ (c ≡ 46)) s → IsWord s
id-IsWord [] h = tt
id-IsWord (c ∷ s) (p, h) = ((λ e. ground arith), id-IsWord s h)

secret-IsWord : (s : Bytes) → All IsWordChar s → IsWord s
secret-IsWord [] h = tt
secret-IsWord (c ∷ s) (p, h) = ((λ e. ground arith), secret-IsWord s h)

-- `line` after the two tokens behind the user name.
abbrev pub login_line : Account → Line → Line
login_line a l =
    token_at (drop_spaces a.name) (token_at (drop_spaces (a.secret ++ (32 ∷ a.name))) l)

-- The client that has read the three words and goes by the display name.
abbrev pub named : Account → World → World
named a w = record w {
  line = login_line a (token_at (drop_spaces w.strtok_rest) w.line);
  strtok_rest = [];
  display_name = name_array a.name;
}

-- The three words are read, checked and taken over, and the AUTH is sent.
pub cmd_auth-send_auth :
    (cfg : Config) (a : Account) (w : World)
    → w.strtok_rest ≡ arguments a
    → cmd_auth cfg w ≡ send_auth cfg a.username a.secret (named a w)
unfolding cmd_auth strtok_next
cmd_auth-send_auth cfg a w e =
    let (u1, u2, u3) = a.username_ok in
    let (s1, s2, s3) = a.secret_ok in
    let (n1, n2, n3) = a.name_ok in
    let rest : Bytes = a.secret ++ (32 ∷ a.name) in
    let w1 : World = record (pointed w) { strtok_rest = rest } in
    let w2 : World = record (pointed w1) { strtok_rest = a.name } in
    let first : strtok w.strtok_rest (pointed w) ≡ (ok (some a.username), w1) =
      ap (λ t. strtok t (pointed w)) e
      ∙ strtok_space a.username rest (pointed w) (id-IsWord a.username u3) u1 in
    rw (
      first,
      strtok_space a.secret a.name (pointed w1) (secret-IsWord a.secret s3) s1,
      strtok_word a.name (pointed w2) n3 n1,
      take-all 20 a.username u2,
      take-all 128 a.secret s2,
      take-all 20 a.name (omega arith),
      (validate_id_iff a.username).1 a.username_ok,
      (validate_secret_iff a.secret).1 a.secret_ok,
      (validate_display_name_iff a.name).1 (n1, omega arith, n3),
      set_display_name_lem a.name (record (pointed w2) { strtok_rest = [] }) n2,
    )

pub name_text : (a : Account) → c_str (name_array a.name) ≡ ok a.name
name_text a = c_str-name_array a.name (name-IsText a.name a.name_ok.2)

-- Over UDP.
pub cmd_auth_lem :
    (cfg : Config) (a : Account) (w : World)
    → Succeeds cfg.malloc
    → cfg.use_tcp_protocol ≡ false
    → w.confirmed.index ≡ 0
    → w.strtok_rest ≡ arguments a
    → cmd_auth cfg w ≡ send_network_msg_udp (sleep cfg) cfg (auth_packet a, auth_size a) (named a w)
unfolding send_auth display_name_text create_auth_msg
cmd_auth_lem cfg a w roomy udp fresh e =
    let m : AuthMsg = create_auth_msg 0 a.username a.name a.secret in
    cmd_auth-send_auth cfg a w e ∙ elim (serialize_auth_msg-Gives cfg.malloc m) [
      | inl (short, _) ↦
          let (block, f) = roomy (auth_size a) in let f' : none ≡ some block = sym short ∙ f in cc
      | inr (r, _) ↦ rw (udp, name_text a, fresh, r) refl
    ]

-- "AUTH ... AS ... USING ..." with the end of its line.
abbrev pub auth_text : Account → Bytes
auth_text a =
    codes "AUTH "
    ++ (a.username ++ (codes " AS " ++ (a.name ++ (codes " USING " ++ (a.secret ++ crlf)))))

length-auth_text : (a : Account) → length (auth_text a) ≤ 60006
length-auth_text a =
    let secret : Bytes = codes " USING " ++ (a.secret ++ crlf) in
    omega (
      arith,
      length-append a.username (codes " AS " ++ (a.name ++ secret)),
      length-append a.name secret,
      length-append a.secret crlf,
      a.username_ok.1,
      a.secret_ok.1,
      a.name_ok.1,
    )

-- Over TCP: the state is AUTH before the text is sent.
pub cmd_auth_tcp :
    (cfg : Config) (a : Account) (w : World)
    → Delivers cfg
    → cfg.use_tcp_protocol ≡ true
    → w.tcp_connected ≡ true
    → w.strtok_rest ≡ arguments a
    → cmd_auth cfg w ≡ (
      ok tt,
      record (named a w) {
        state = state_auth;
        attempts = w.attempts + 1;
        tcp_sent = w.tcp_sent ++ (auth_text a ∷ []);
      },
    )
unfolding send_auth display_name_text send_tcp_auth_msg send_network_msg_tcp
cmd_auth_tcp cfg a w delivers tcp up e =
    cmd_auth-send_auth cfg a w e
    ∙ rw (tcp, name_text a, take-all 60006 (auth_text a) (length-auth_text a))
        (send_network_msg_tcp_lem cfg (auth_text a) (record (named a w) { state = state_auth })
          delivers up)
