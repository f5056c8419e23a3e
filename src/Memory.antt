-- ===== src/Memory.antt =====
-- Bytes in memory: blocks from `malloc`, writes by `memcpy` at a growing offset, and the reading of
-- 16-bit numbers and of NUL-terminated strings. A block is the list of its bytes; a read or write
-- past its end is a fault.
pub mod Laws
use ipk_projekt.Base.{
  ℕ, zero, suc, ◌+◌, ◌*◌, ◌/◌, ◌%◌, ◌≡◌, ◌≢◌, Bool, true, false, Option, none, some, List, [], ◌∷◌,
  ◌++◌, leb, ◌==◌, if◌then◌else◌, length, take, drop, All, Result, ok, exits, fault, ◌>>=◌,
  exit_failure, ◌<◌,
}

abbrev pub Bytes : Type 0
Bytes = List ℕ

-- What `malloc` answers for each size in one run: NULL, or a block with arbitrary contents.
pub record Malloc : Type 0 where
  pub alloc : ℕ → Option Bytes
  pub length-alloc : (n : ℕ) (block : Bytes) → alloc n ≡ some block → length block ≡ n

-- `if (p == NULL) { perror(...); exit(EXIT_FAILURE); }`
abbrev pub or_exit {ℓ} : {A : Type ℓ} → Option A → Result A
or_exit none = exits exit_failure
or_exit (some a) = ok a

-- `memcpy(buffer + offset, src, n)`, the n bytes of `src` being given.
unfoldable pub store : Bytes → ℕ → Bytes → Result Bytes
store buffer offset src =
    if leb (offset + length src) (length buffer)
    then ok (take offset buffer ++ (src ++ drop (offset + length src) buffer))
    else fault

-- A run of writes, `offset` moving past each piece.
unfoldable pub store_all : Bytes → ℕ → List Bytes → Result Bytes
unfolding store
store_all buffer offset [] = ok buffer
store_all buffer offset (piece ∷ pieces) =
    store buffer offset piece >>= λ written. store_all written (offset + length piece) pieces

-- `htons` into memory, and `ntohs` out of it: the high byte comes first.
abbrev pub net16 : ℕ → Bytes
net16 n = (n / 256 % 256) ∷ (n % 256) ∷ []

unfoldable pub byte_at : Bytes → ℕ → Result ℕ
byte_at [] i = fault
byte_at (b ∷ bs) zero = ok b
byte_at (b ∷ bs) (suc i) = byte_at bs i

unfoldable pub host16_at : Bytes → ℕ → Result ℕ
unfolding byte_at
host16_at buffer offset = do
  high ← byte_at buffer offset
  low ← byte_at buffer (offset + 1)
  ok (high * 256 + low)

-- The string that starts at the head of the memory: the bytes before its NUL.
unfoldable pub c_str : Bytes → Result Bytes
c_str [] = fault
c_str (b ∷ bs) = if b == 0 then ok [] else c_str bs >>= λ s. ok (b ∷ s)

unfoldable pub c_str_at : Bytes → ℕ → Result Bytes
unfolding c_str
c_str_at buffer offset = c_str (drop offset buffer)

-- A string has no NUL inside.
abbrev pub IsText : Bytes → Type 0
IsText = All (λ c. c ≢ 0)

abbrev pub IsByte : ℕ → Type 0
IsByte c = c < 256
