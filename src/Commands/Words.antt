-- ===== src/Commands/Words.antt =====
-- `strtok` on words that are divided by single spaces, as the commands of src/cmd_*.c use it.
use ipk_projekt.Commands.{token, strtok, after_token, next_token, drop_spaces}
use ipk_projekt.Memory.{Bytes}
use ipk_projekt.Base.{All, ◌++◌, ◌≢◌, ◌∷◌, ◌≡◌, ==_ne, ◌≤◌, length, [], ok, refl, some, arith}
use ipk_projekt.World.{World}

abbrev pub IsWord : Bytes → Type 0
IsWord s = All (λ c. c ≢ 32) s

token_space : (s rest : Bytes) → IsWord s → token (s ++ (32 ∷ rest)) ≡ s
unfolding token
token_space [] rest h = refl
token_space (c ∷ s) rest (p, h) = rw (==_ne c 32 p, token_space s rest h)

after_token_space : (s rest : Bytes) → IsWord s → after_token (s ++ (32 ∷ rest)) ≡ rest
unfolding after_token
after_token_space [] rest h = refl
after_token_space (c ∷ s) rest (p, h) = rw (==_ne c 32 p, after_token_space s rest h)

-- A word and what stands behind its space.
pub strtok_space :
    (s rest : Bytes) (w : World)
    → IsWord s
    → 1 ≤ length s
    → strtok (s ++ (32 ∷ rest)) w ≡ (ok (some s), record w { strtok_rest = rest })
unfolding strtok next_token drop_spaces
strtok_space [] rest w h n = absurd (omega arith)
strtok_space (c ∷ s) rest w (p, h) n =
    rw (==_ne c 32 p, token_space (c ∷ s) rest (p, h), after_token_space (c ∷ s) rest (p, h))
