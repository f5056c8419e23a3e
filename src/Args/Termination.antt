-- ===== src/Args/Termination.antt =====
-- The loop of `parse_args` in src/args.c ends within a round for each argument.
use ipk_projekt.Args.{
  ◌>>=◌, set_transport, parse_args, option, round, Refusal, parse_from, Parsed, help_option, Cursor,
  Settings, go_on, stop, unfinished, or_stop, with_argument, transport_missing, hostname_missing,
  set_hostname, invalid_transport, port_missing, set_port, timeout_missing, set_timeout,
  invalid_timeout, converted, retransmissions_missing, set_retransmissions, invalid_retransmissions,
  help_wanted,
}
use Prim.Native.Nat.{ℕ, suc}
use ipk_projekt.Base.{
  ℕ, List, ◌≢◌, Option, length, Bool, ◌≤◌, if◌then◌else◌, codes, ◌∷◌, some, arith, true, same_text,
  none, false, [], zero,
}
use ipk_projekt.Memory.{Bytes}

-- The loop goes on with no more arguments than `n`, or the process ends.
abbrev Advances : ℕ → Parsed Cursor → Type 0
Advances n (go_on c) = length c.rest ≤ n
Advances n (stop why) = Unit
Advances n unfinished = ⊥

abbrev Ends : {A : Type 0} → Parsed A → Type 0
Ends (go_on a) = Unit
Ends (stop why) = Unit
Ends unfinished = ⊥

bind-Advances :
    (n : ℕ) (r : Parsed Cursor) (f : Cursor → Parsed Cursor)
    → Advances n r
    → ((c : Cursor) → length c.rest ≤ n → Advances n (f c))
    → Advances n (r >>= f)
bind-Advances n (go_on c) f h k = k c h
bind-Advances n (stop why) f h k = tt
bind-Advances n unfinished f h k = h

with_value :
    (n : ℕ) (r : Parsed Settings) (value : Bytes) (rest : List Bytes)
    → Ends r
    → length rest ≤ n
    → Advances n (r >>= λ s. go_on (record { current = value; rest = rest; settings = s }))
with_value n (go_on s) value rest e h = h
with_value n (stop why) value rest e h = tt
with_value n unfinished value rest e h = e

option-Advances :
    (n : ℕ) (name : Bytes) (missing : Refusal) (set : Bytes → Settings → Parsed Settings)
    → ((v : Bytes) (s : Settings) → Ends (set v s))
    → (c : Cursor) → length c.rest ≤ n
    → Advances n (option name missing set c)
unfolding option
option-Advances n name missing set ends c h = taken (same_text c.current name) c.rest h
  where
    taken :
        (b : Bool) (rest : List Bytes)
        → length rest ≤ n
        → Advances n (if b then with_argument missing set rest c.settings else go_on c)
    taken false rest k = h
    taken true [] k = tt
    taken true (value ∷ rest) k =
        with_value n (set value c.settings) value rest (ends value c.settings) (omega arith)

or_stop-Ends : (why : Refusal) (set : ℕ → Settings) (o : Option ℕ) → Ends (or_stop why set o)
or_stop-Ends why set none = tt
or_stop-Ends why set (some n) = tt

set_transport-Ends : (v : Bytes) (s : Settings) → Ends (set_transport v s)
unfolding set_transport
set_transport-Ends v s = either (same_text v (codes "tcp")) (same_text v (codes "udp"))
  where
    either :
        (a b : Bool)
        → Ends (
            if a
            then go_on (record s { use_tcp_protocol = some true })
            else if b
            then go_on (record s { use_tcp_protocol = some false })
            else stop invalid_transport)
    either true b = tt
    either false true = tt
    either false false = tt

help_option-Advances : (n : ℕ) (c : Cursor) → length c.rest ≤ n → Advances n (help_option c)
unfolding help_option
help_option-Advances n c h = helped (same_text c.current (codes "-h"))
  where
    helped : (b : Bool) → Advances n (if b then stop help_wanted else go_on c)
    helped true = tt
    helped false = h

round-Advances : (n : ℕ) (c : Cursor) → length c.rest ≤ n → Advances n (round c)
unfolding round
round-Advances n c h =
    bind-Advances n _ _
      (option-Advances n (codes "-t") transport_missing set_transport set_transport-Ends c h)
      λ c1 h1.
        bind-Advances n _ _
          (option-Advances n (codes "-s") hostname_missing set_hostname (λ v s. tt) c1 h1)
          λ c2 h2.
            bind-Advances n _ _
              (option-Advances n (codes "-p") port_missing set_port (λ v s. tt) c2 h2)
              λ c3 h3.
                bind-Advances n _ _
                  (option-Advances n (codes "-d") timeout_missing set_timeout
                    (λ v s.
                      unfold set_timeout in or_stop-Ends invalid_timeout _ (converted 65536 v))
                    c3 h3)
                  λ c4 h4.
                    bind-Advances n _ _
                      (option-Advances n (codes "-r") retransmissions_missing set_retransmissions
                        (λ v s.
                          unfold set_retransmissions in
                          or_stop-Ends invalid_retransmissions _ (converted 256 v))
                        c4 h4)
                      (help_option-Advances n)

parse_from-Ends :
    (fuel : ℕ) (args : List Bytes) (s : Settings)
    → length args ≤ fuel
    → Ends (parse_from fuel args s)
unfolding parse_from
parse_from-Ends fuel [] s h = tt
parse_from-Ends zero (arg ∷ args) s h = absurd (omega arith)
parse_from-Ends (suc fuel) (arg ∷ args) s h =
    go (parse_from-Ends fuel) (round (record { current = arg; rest = args; settings = s })) (
      round-Advances (length args) (record { current = arg; rest = args; settings = s })
        (omega arith))
  where
    go :
        ((args' : List Bytes) (s' : Settings)
          → length args' ≤ fuel
          → Ends (parse_from fuel args' s'))
        → (r : Parsed Cursor) → Advances (length args) r
        → Ends (r >>= λ c. parse_from fuel c.rest c.settings)
    go later (go_on c) k = later c.rest c.settings (omega arith)
    go later (stop why) k = tt
    go later unfinished k = k

Ends-ne : (r : Parsed Settings) → Ends r → r ≢ unfinished
Ends-ne (go_on s) h e = cc
Ends-ne (stop why) h e = cc
Ends-ne unfinished h e = h

-- The loop over the arguments ends, whatever they are: a round for each of them is enough.
pub parse_args_ends : (args : List Bytes) (s : Settings) → parse_args args s ≢ unfinished
unfolding parse_args
parse_args_ends args s =
    Ends-ne (parse_from (length args) args s) (parse_from-Ends (length args) args s (omega arith))
