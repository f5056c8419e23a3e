-- ===== src/Args.antt =====
-- src/args.c. Each `if` of the loop looks at `argv[i]` anew, also behind an `i++`: a value that an option
-- has taken is compared with the names of the options that come after it in the loop.
pub mod Numbers
pub mod Options
pub mod Termination
use ipk_projekt.Strings.{skip_spaces, span}
use ipk_projekt.Base.{
  Option, Bool, codes, List, if◌then◌else◌, ℕ, ◌∷◌, same_text, leb, ltb, false, length, ◌-◌, some,
  ◌*◌, ◌==◌, [], ◌&&◌, ◌%◌, true, none, ◌^◌, zero, ◌+◌,
}
use ipk_projekt.Memory.{Bytes}
use Prim.Native.Nat.{ℕ, suc}

-- The variables that `parse_args` sets; `none` is the -1 and the NULL of src/main.c.
pub record Settings : Type 0 where
  pub use_tcp_protocol : Option Bool
  pub hostname : Option Bytes
  pub port : Bytes
  pub udp_timeout : ℕ
  pub udp_retransmissions : ℕ

-- Why the process ends, with success, while it reads its arguments.
pub data Refusal : Type 0 where
  transport_missing invalid_transport hostname_missing port_missing : Refusal
  timeout_missing invalid_timeout retransmissions_missing invalid_retransmissions help_wanted :
      Refusal

pub data Parsed (A : Type 0) : Type 0 where
  go_on : A → Parsed A
  stop : Refusal → Parsed A
  -- more rounds than there are arguments
  unfinished : Parsed A

infixl 5 ◌>>=◌
abbrev pub ◌>>=◌ : {A B : Type 0} → Parsed A → (A → Parsed B) → Parsed B
go_on a >>= f = f a
stop why >>= f = stop why
unfinished >>= f = unfinished

-- `argv[i]`, what stands behind it, and the variables.
pub record Cursor : Type 0 where
  pub current : Bytes
  pub rest : List Bytes
  pub settings : Settings

abbrev pub isdigit : ℕ → Bool
isdigit c = leb 48 c && leb c 57

abbrev pub digits_value : ℕ → Bytes → ℕ
digits_value n [] = n
digits_value n (c ∷ s) = digits_value (n * 10 + (c - 48)) s

-- An optional sign: is it a minus, and what follows.
abbrev pub sign : Bytes → Bool × Bytes
sign [] = (false, [])
sign (c ∷ s) = if c == 45 then (true, s) else if c == 43 then (false, s) else (false, c ∷ s)

-- `long` values are between -2^63 and 2^63 - 1.
abbrev pub clamp : Bool → ℕ → ℕ
clamp true n = if ltb (2 ^ 63) n then 2 ^ 63 else n
clamp false n = if ltb (2 ^ 63 - 1) n then 2 ^ 63 - 1 else n

abbrev pub number : Bytes → Bool → Bytes × Bytes → (Bool × ℕ) × Bytes
number s negative ([], rest) = ((false, 0), s)
number s negative (c ∷ digits, rest) =
    ((negative, clamp negative (digits_value 0 (c ∷ digits))), rest)

-- `strtol(s, &endptr, 10)`: the sign and the magnitude, and `endptr`.
unfoldable pub strtol : Bytes → (Bool × ℕ) × Bytes
unfolding skip_spaces span
strtol s =
    let (negative, body) = sign (skip_spaces s) in
    number s negative (span isdigit (length body) body)

-- The cast of a `long` to an unsigned type.
abbrev pub to_unsigned : ℕ → Bool × ℕ → ℕ
to_unsigned modulus (true, n) = (modulus - n % modulus) % modulus
to_unsigned modulus (false, n) = n % modulus

abbrev pub whole : ℕ → (Bool × ℕ) × Bytes → Option ℕ
whole modulus (n, []) = some (to_unsigned modulus n)
whole modulus (n, c ∷ rest) = none

-- The number, if `strcmp(endptr, "\0") == 0`.
unfoldable pub converted : ℕ → Bytes → Option ℕ
unfolding strtol
converted modulus s = whole modulus (strtol s)

-- `i++`, the check on `argc`, and the use of the argument.
unfoldable pub with_argument :
    Refusal → (Bytes → Settings → Parsed Settings) → List Bytes → Settings → Parsed Cursor
with_argument missing set [] s = stop missing
with_argument missing set (value ∷ rest) s =
    set value s >>= λ s'. go_on (record { current = value; rest = rest; settings = s' })

unfoldable pub option :
    Bytes → Refusal → (Bytes → Settings → Parsed Settings) → Cursor → Parsed Cursor
unfolding with_argument
option name missing set c =
    if same_text c.current name then with_argument missing set c.rest c.settings else go_on c

unfoldable pub set_transport : Bytes → Settings → Parsed Settings
set_transport value s =
    if same_text value (codes "tcp")
    then go_on (record s { use_tcp_protocol = some true })
    else if same_text value (codes "udp")
    then go_on (record s { use_tcp_protocol = some false })
    else stop invalid_transport

abbrev pub set_hostname : Bytes → Settings → Parsed Settings
set_hostname value s = go_on (record s { hostname = some value })

abbrev pub set_port : Bytes → Settings → Parsed Settings
set_port value s = go_on (record s { port = value })

abbrev pub or_stop : Refusal → (ℕ → Settings) → Option ℕ → Parsed Settings
or_stop why set none = stop why
or_stop why set (some n) = go_on (set n)

unfoldable pub set_timeout : Bytes → Settings → Parsed Settings
set_timeout value s =
    or_stop invalid_timeout (λ n. record s { udp_timeout = n }) (converted 65536 value)

unfoldable pub set_retransmissions : Bytes → Settings → Parsed Settings
set_retransmissions value s =
    or_stop invalid_retransmissions (λ n. record s { udp_retransmissions = n })
      (converted 256 value)

unfoldable pub help_option : Cursor → Parsed Cursor
help_option c = if same_text c.current (codes "-h") then stop help_wanted else go_on c

-- The body of the loop.
unfoldable pub round : Cursor → Parsed Cursor
unfolding option help_option
round c = do
  c1 ← option (codes "-t") transport_missing set_transport c
  c2 ← option (codes "-s") hostname_missing set_hostname c1
  c3 ← option (codes "-p") port_missing set_port c2
  c4 ← option (codes "-d") timeout_missing set_timeout c3
  c5 ← option (codes "-r") retransmissions_missing set_retransmissions c4
  help_option c5

-- `for (int i = 1; i < argc; i++)`, on fuel.
unfoldable pub parse_from : ℕ → List Bytes → Settings → Parsed Settings
parse_from fuel [] s = go_on s
parse_from zero (arg ∷ args) s = unfinished
parse_from (suc fuel) (arg ∷ args) s =
    round (record { current = arg; rest = args; settings = s }) >>= λ c.
    parse_from fuel c.rest c.settings

-- The arguments behind the name of the program.
unfoldable pub parse_args : List Bytes → Settings → Parsed Settings
unfolding parse_from
parse_args args s = parse_from (length args) args s
