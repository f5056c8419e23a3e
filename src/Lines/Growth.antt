-- ===== src/Lines/Growth.antt =====
-- Appending to `line_buffer` of src/network_tcp.c never leaves it, and what was appended in two steps
-- could have been appended in one.
use ipk_projekt.World.{LineBuffer}
use ipk_projekt.Lines.{append_line}
use ipk_projekt.Memory.{Bytes, Malloc}
use ipk_projekt.Base.{
  ◌++◌, inr, ◌≡◌, if◌then◌else◌, [], arith, length-append, ltb, ok, append_assoc, ◌⊎◌, length, ◌<◌,
  ◌+◌,
}
use ipk_projekt.Deserialize.RoundTrip.{Succeeds}

-- The text is empty, or fits the block with its NUL.
abbrev pub HasRoom : LineBuffer → Type 0
HasRoom b = (b.text ≡ []) ⊎ (length b.text < b.size)

abbrev pub extended : Bytes → LineBuffer → LineBuffer
extended s b = record {
  text = b.text ++ s;
  size = if ltb b.size (length b.text + length s + 1) then length b.text + length s + 1 else b.size;
}

pub append_line-extended :
    (malloc : Malloc) (s : Bytes) (b : LineBuffer)
    → Succeeds malloc
    → HasRoom b
    → append_line malloc s b ≡ ok (extended s b)
unfolding append_line
append_line-extended malloc s b roomy v = ground (
  arith,
  length-append b.text s,
  (roomy (length s + 1)).1,
  (roomy (length b.text + length s + 1)).1,
)

pub extended-HasRoom : (s : Bytes) (b : LineBuffer) → HasRoom b → HasRoom (extended s b)
extended-HasRoom s b v = inr (ground (arith, length-append b.text s))

pub extended-extended :
    (s t : Bytes) (b : LineBuffer) → extended t (extended s b) ≡ extended (s ++ t) b
extended-extended s t b =
    ground (arith, append_assoc b.text s t, length-append b.text s, length-append s t)
