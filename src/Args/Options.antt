-- ===== src/Args/Options.antt =====
-- Options on the command line, and the settings that `parse_args` of src/args.c makes of them.
use ipk_projekt.Base.{
  List, ℕ, ◌<◌, same_text, arith, Bool, ◌∷◌, true, some, codes, false, [], ◌≢◌, ◌≡◌, ==_ne, refl,
  All, length, ◌≤◌, zero,
}
use Prim.Native.Nat.{ℕ, suc}
use ipk_projekt.Args.{
  round, Settings, set_transport, set_timeout, set_retransmissions, go_on, parse_args, parse_from,
  stop, timeout_missing,
}
use ipk_projekt.Memory.{Bytes}
use ipk_projekt.Listener.{show_decimal}
use ipk_projekt.Args.Numbers.{converted-show_decimal, show_decimal-IsDigit, IsDigit}

-- An option with its argument.
pub data Choice : Type 0 where
  transport : Bool → Choice
  server : Bytes → Choice
  server_port : Bytes → Choice
  timeout : ℕ → Choice
  retransmissions : ℕ → Choice

abbrev pub argument : Choice → Bytes
argument (transport true) = codes "tcp"
argument (transport false) = codes "udp"
argument (server name) = name
argument (server_port p) = p
argument (timeout n) = show_decimal 10 n
argument (retransmissions n) = show_decimal 10 n

abbrev pub letter : Choice → ℕ
letter (transport b) = b't'
letter (server name) = b's'
letter (server_port p) = b'p'
letter (timeout n) = b'd'
letter (retransmissions n) = b'r'

abbrev pub flag : ℕ → Bytes
flag c = b'-' ∷ c ∷ []

abbrev pub spelled : List Choice → List Bytes
spelled [] = []
spelled (o ∷ os) = flag (letter o) ∷ argument o ∷ spelled os

abbrev pub chosen : Choice → Settings → Settings
chosen (transport b) s = record s { use_tcp_protocol = some b }
chosen (server name) s = record s { hostname = some name }
chosen (server_port p) s = record s { port = p }
chosen (timeout n) s = record s { udp_timeout = n }
chosen (retransmissions n) s = record s { udp_retransmissions = n }

abbrev pub all_chosen : List Choice → Settings → Settings
all_chosen [] s = s
all_chosen (o ∷ os) s = all_chosen os (chosen o s)

-- A text that cannot be taken for an option.
abbrev pub IsPlain : Bytes → Type 0
IsPlain [] = Unit
IsPlain (c ∷ s) = c ≢ 45

-- Numbers fit their types, and texts do not begin with a dash.
abbrev pub IsProper : Choice → Type 0
IsProper (transport b) = Unit
IsProper (server name) = IsPlain name
IsProper (server_port p) = IsPlain p
IsProper (timeout n) = n < 65536
IsProper (retransmissions n) = n < 256

same_text-plain : (v x : Bytes) → IsPlain v → same_text v (45 ∷ x) ≡ false
unfolding same_text
same_text-plain [] x h = refl
same_text-plain (c ∷ v) x h = rw (==_ne c 45 h)

digits-IsPlain : (s : Bytes) → All IsDigit s → IsPlain s
digits-IsPlain [] h = tt
digits-IsPlain (c ∷ s) h = λ e. ground (arith, h.0)

IsPlain-show_decimal : (n : ℕ) → IsPlain (show_decimal 10 n)
IsPlain-show_decimal n = digits-IsPlain (show_decimal 10 n) (show_decimal-IsDigit 10 n)

argument-IsPlain : (o : Choice) → IsProper o → IsPlain (argument o)
argument-IsPlain (transport true) h = λ e. omega arith
argument-IsPlain (transport false) h = λ e. omega arith
argument-IsPlain (server name) h = h
argument-IsPlain (server_port p) h = h
argument-IsPlain (timeout n) h = IsPlain-show_decimal n
argument-IsPlain (retransmissions n) h = IsPlain-show_decimal n

-- The rounds of the loop, one for each option.
round-choice :
    (o : Choice) (rest : List Bytes) (s : Settings)
    → IsProper o
    → round (record { current = flag (letter o); rest = argument o ∷ rest; settings = s })
      ≡ go_on (record { current = argument o; rest = rest; settings = chosen o s })
unfolding round set_transport set_timeout set_retransmissions same_text
round-choice (transport true) rest s h = refl
round-choice (transport false) rest s h = refl
round-choice (server name) rest s h = rw (
  same_text-plain name (b'p' ∷ []) h,
  same_text-plain name (b'd' ∷ []) h,
  same_text-plain name (b'r' ∷ []) h,
  same_text-plain name (b'h' ∷ []) h,
)
round-choice (server_port p) rest s h = rw (
  same_text-plain p (b'd' ∷ []) h,
  same_text-plain p (b'r' ∷ []) h,
  same_text-plain p (b'h' ∷ []) h,
)
round-choice (timeout n) rest s h =
    let plain = IsPlain-show_decimal n in
    rw (
      converted-show_decimal 65536 n h (omega arith),
      same_text-plain (show_decimal 10 n) (b'r' ∷ []) plain,
      same_text-plain (show_decimal 10 n) (b'h' ∷ []) plain,
    )
round-choice (retransmissions n) rest s h = rw (
  converted-show_decimal 256 n h (omega arith),
  same_text-plain (show_decimal 10 n) (b'h' ∷ []) (IsPlain-show_decimal n),
)

parse_from-spelled :
    (fuel : ℕ) (options : List Choice) (s : Settings)
    → All IsProper options
    → length (spelled options) ≤ fuel
    → parse_from fuel (spelled options) s ≡ go_on (all_chosen options s)
unfolding parse_from
parse_from-spelled fuel [] s h k = refl
parse_from-spelled zero (o ∷ os) s h k = absurd (omega arith)
parse_from-spelled (suc fuel) (o ∷ os) s (p, h) k =
    rw (round-choice o (spelled os) s p) (parse_from-spelled fuel os (chosen o s) h (omega arith))

-- Any sequence of options, each with its argument, is read to its end: the settings are those of the
-- last option of each kind, and what no option names keeps its value. The numbers fit their types, and
-- the texts do not begin with a dash.
pub parse_args-spelled :
    (options : List Choice) (s : Settings)
    → All IsProper options
    → parse_args (spelled options) s ≡ go_on (all_chosen options s)
unfolding parse_args
parse_args-spelled options s h =
    parse_from-spelled (length (spelled options)) options s h (omega arith)

-- A port that is spelled like the option of the timeout is taken for it as well: the argument of `-p`
-- is then missing its own.
pub parse_args_port_flag :
    (s : Settings) → parse_args (codes "-p" ∷ codes "-d" ∷ []) s ≡ stop timeout_missing
unfolding parse_args round same_text
parse_args_port_flag s = refl
