-- ===== src/Client/Room.antt =====
-- When `getline` has room for a line where `line` points: the call in the loop of src/main.c.
use ipk_projekt.Client.{step, stored, get_line, input, main_round, read_into}
use Prim.Native.Nat.{ℕ}
use ipk_projekt.World.{Config, Line, World, in_block, no_block, continue}
use ipk_projekt.Base.{ℕ, ◌≡◌, length, some, ◌+◌, ap, ◌-◌, leb, ◌≤◌, true, arith, refl}
use ipk_projekt.Memory.{Bytes}
use ipk_projekt.Commands.{token_at, drop_spaces}
use ipk_projekt.Commands.Login.{Account, login_line, arguments}
use ipk_projekt.Client.Entry.{auth_line}

-- The line, its newline and a NUL fit behind the place in the block.
abbrev pub HasRoom : Bytes → Line → Type 0
HasRoom text no_block = Unit
HasRoom text (in_block offset size end) = offset + (length text + 1) ≤ size

abbrev pub next_line : (ℕ → ℕ) → Bytes → Line → Line
next_line getline_size text no_block = in_block 0 (getline_size (length text + 1)) (length text - 1)
next_line getline_size text (in_block offset size end) =
    in_block offset size (offset + length text - 1)

stored_lem :
    (getline_size : ℕ → ℕ) (text : Bytes) (l : Line)
    → HasRoom text l
    → stored getline_size (length text) l ≡ some (next_line getline_size text l)
unfolding stored
stored_lem getline_size text no_block h = refl
stored_lem getline_size text (in_block offset size end) h =
    let fits : leb (length text + 1) size ≡ true = ground arith in
    let fits' : leb (offset + (length text + 1)) size ≡ true = ground arith in rw (fits, fits') refl

abbrev pub read_in : Config → Bytes → World → World
read_in cfg text w = record w { line = next_line cfg.getline_size text w.line }

-- A line that has room runs a round of the loop.
pub step-main_round :
    (cfg : Config) (text : Bytes) (w : World)
    → HasRoom text w.line
    → step cfg (input text) w ≡ main_round cfg text (read_in cfg text w)
unfolding step get_line
step-main_round cfg text w h =
    ap (λ l. continue (read_into l w) (λ _. main_round cfg text))
      (stored_lem cfg.getline_size text w.line h)

-- `line` after the round, for a line that is a message, and for a command with an argument.
abbrev pub argument_line : (ℕ → ℕ) → Bytes → Bytes → Line → Line
argument_line getline_size text argument l =
    token_at (drop_spaces argument) (next_line getline_size text l)

-- After `/auth` with three arguments.
abbrev pub after_login : (ℕ → ℕ) → Account → Line → Line
after_login getline_size a l =
    login_line a (token_at (drop_spaces (arguments a)) (next_line getline_size (auth_line a) l))
