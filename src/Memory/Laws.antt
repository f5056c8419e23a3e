-- ===== src/Memory/Laws.antt =====
-- Laws of writes and reads: pieces that fill a block exactly become its contents, pieces that are
-- too long fault, and what was written is read back whatever memory follows it.
use ipk_projekt.Base.{
  ℕ, zero, suc, ◌+◌, ◌≤◌, ◌<◌, ◌≡◌, refl, sym, ap, List, [], ◌∷◌, ◌++◌, append_assoc, ◌==◌, length,
  drop, Result, ok, ◌>>=◌, length-append, length-drop, take-append, drop-append_add, le→leb, arith,
  nil-of_length, Bool-cases, inl, subst, inr, exits, fault,
}
use ipk_projekt.Memory.{Bytes, store, store_all, net16, byte_at, host16_at, c_str, c_str_at, IsText}

abbrev pub concat : List Bytes → Bytes
concat [] = []
concat (p ∷ ps) = p ++ concat ps

-- A write behind what is written already, into memory that has room for it.
pub store-append :
    (done free src : Bytes)
    → length src ≤ length free
    → store (done ++ free) (length done) src ≡ ok ((done ++ src) ++ drop (length src) free)
unfolding store
store-append done free src h = rw (
  le→leb (length done + length src) (length (done ++ free))
      (omega (arith, length-append done free)),
  take-append done free,
  drop-append_add done free (length src) (length done + length src) refl,
  append_assoc,
)

store_all-append :
    (done free : Bytes) (pieces : List Bytes)
    → length (concat pieces) ≡ length free
    → store_all (done ++ free) (length done) pieces ≡ ok (done ++ concat pieces)
unfolding store_all
store_all-append done free [] h = rw (nil-of_length free (sym h))
store_all-append done free (p ∷ ps) h =
    rw (store-append done free p (omega (arith, h, length-append p (concat ps)))) (
      rw (← length-append done p, ← append_assoc done p (concat ps))
        (store_all-append (done ++ p) (drop (length p) free) ps
          (omega (arith, h, length-append p (concat ps), length-drop (length p) free))))

-- Pieces of the block's size become its contents, whatever it held before.
pub store_all-fills :
    (block : Bytes) (pieces : List Bytes)
    → length (concat pieces) ≡ length block
    → store_all block 0 pieces ≡ ok (concat pieces)
store_all-fills = store_all-append []

pub byte_at-append :
    (xs ys : Bytes) (i k : ℕ) → k ≡ length xs + i → byte_at (xs ++ ys) k ≡ byte_at ys i
unfolding byte_at
byte_at-append [] ys i k h = ap (byte_at ys) (omega arith)
byte_at-append (x ∷ xs) ys i zero h = absurd (omega arith)
byte_at-append (x ∷ xs) ys i (suc k) h = byte_at-append xs ys i k (omega arith)

-- A number below 2^16 is read back from its two bytes.
pub host16_at-net16 :
    (before after : Bytes) (n k : ℕ)
    → k ≡ length before
    → n < 65536
    → host16_at (before ++ (net16 n ++ after)) k ≡ ok n
unfolding host16_at byte_at
host16_at-net16 before after n k e h =
    rw
      (
        byte_at-append before (net16 n ++ after) 0 k (omega (arith, e)),
        byte_at-append before (net16 n ++ after) 1 (k + 1) (omega (arith, e)),
      )
      (ap {B = Result ℕ} ok (omega arith))

-- A text with its NUL is read back, whatever follows.
pub c_str-text : (s after : Bytes) → IsText s → c_str (s ++ (0 ∷ after)) ≡ ok s
unfolding c_str
c_str-text [] after h = refl
c_str-text (c ∷ s) after h = ground (arith, h, c_str-text s after h.1)

pub c_str_at-text :
    (before s after : Bytes) (k : ℕ)
    → k ≡ length before
    → IsText s
    → c_str_at (before ++ (s ++ (0 ∷ after))) k ≡ ok s
unfolding c_str_at
c_str_at-text before s after k e h =
    rw (drop-append_add before (s ++ (0 ∷ after)) 0 k (omega (arith, e))) (c_str-text s after h)

-- A byte put in front of what is read: the rest was read.
read_after :
    (c : ℕ) (rest : Result Bytes) {s : Bytes}
    → (rest >>= λ t. ok (c ∷ t)) ≡ ok s
    → (t : Bytes) × (rest ≡ ok t) × (ok (c ∷ t) ≡ ok s)
read_after c (ok t) e = (t, refl, e)
read_after c (exits status) e = cc
read_after c fault e = cc

-- What a read of a string gives is a text.
pub c_str-IsText : (memory : Bytes) {s : Bytes} → c_str memory ≡ ok s → IsText s
unfolding c_str
c_str-IsText [] h = cc
c_str-IsText (c ∷ rest) {s} h = elim (Bool-cases (c == 0)) [
  | inl z ↦ let e : ok [] ≡ ok s = rw z at h in let e' : [] ≡ s = cc in subst IsText e' tt
  | inr n ↦
      let e : (c_str rest >>= λ t. ok (c ∷ t)) ≡ ok s = rw n at h in
      let (t, read, kept) = read_after c (c_str rest) e in
      let e' : c ∷ t ≡ s = cc in subst IsText e' ((λ z. ground arith), c_str-IsText rest read)
]
