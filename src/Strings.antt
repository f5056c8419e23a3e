-- ===== src/Strings.antt =====
-- Functions of the C library on texts that src/network_tcp.c and src/args.c use.
pub mod Search
use ipk_projekt.Base.{
  ℕ, Option, ◌∷◌, Result, Bool, none, some, false, if◌then◌else◌, [], ◌==◌, ltb, ◌||◌, true, zero,
  length, leb, ◌&&◌, ok, fault,
}
use Prim.Native.Nat.{ℕ, suc}
use ipk_projekt.Memory.{Bytes}

-- What follows a prefix.
unfoldable pub strip_prefix : Bytes → Bytes → Option Bytes
strip_prefix [] s = some s
strip_prefix (p ∷ ps) [] = none
strip_prefix (p ∷ ps) (c ∷ s) = if p == c then strip_prefix ps s else none

-- `strncmp(s, prefix, strlen(prefix)) == 0`
unfoldable pub starts_with : Bytes → Bytes → Bool
starts_with prefix s = elim (strip_prefix prefix s) [ none ↦ false | some rest ↦ true ]

abbrev pub found_or : Option Bytes → Option (Bytes × Bytes) → Option (Bytes × Bytes)
found_or (some rest) later = some ([], rest)
found_or none later = later

abbrev pub put_before : ℕ → Option (Bytes × Bytes) → Option (Bytes × Bytes)
put_before c none = none
put_before c (some (before, rest)) = some (c ∷ before, rest)

-- `strstr(s, needle)`: what stands before the first match, and what stands behind it.
unfoldable pub strstr : Bytes → Bytes → Option (Bytes × Bytes)
unfolding strip_prefix
strstr needle [] = found_or (strip_prefix needle []) none
strstr needle (c ∷ s) = found_or (strip_prefix needle (c ∷ s)) (put_before c (strstr needle s))

-- `isspace` in the C locale
unfoldable pub isspace : ℕ → Bool
isspace c = c == 32 || (leb 9 c && leb c 13)

-- White space in a format of `sscanf`, and at the start of `%s` and of a number.
unfoldable pub skip_spaces : Bytes → Bytes
unfolding isspace
skip_spaces [] = []
skip_spaces (c ∷ s) = if isspace c then skip_spaces s else c ∷ s

-- Up to `n` characters that pass a test, and the rest.
unfoldable pub span : (ℕ → Bool) → ℕ → Bytes → Bytes × Bytes
span test zero s = ([], s)
span test (suc n) [] = ([], [])
span test (suc n) (c ∷ s) =
    let (word, rest) = span test n s in if test c then (c ∷ word, rest) else ([], c ∷ s)

abbrev pub nonempty : Bytes × Bytes → Option (Bytes × Bytes)
nonempty ([], rest) = none
nonempty (c ∷ word, rest) = some (c ∷ word, rest)

-- `%<n>s` and `%[...]`: one character at least.
unfoldable pub scan_word : (ℕ → Bool) → ℕ → Bytes → Option (Bytes × Bytes)
unfolding span
scan_word test n s = nonempty (span test n s)

-- A copy with its NUL into an array of `size` bytes.
abbrev pub strcpy : ℕ → Bytes → Result Bytes
strcpy size s = if ltb (length s) size then ok s else fault
