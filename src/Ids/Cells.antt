-- ===== src/Ids/Cells.antt =====
-- The loops of src/id.c over an array, against membership in the part of it that is in use.
use ipk_projekt.Deserialize.RoundTrip.{Succeeds}
use ipk_projekt.Ids.{realloc_cells, scan, unset_from, cells_of}
use ipk_projekt.Base.{
  List, ℕ, length, Bool, ◌<◌, ◌≤◌, take, ◌++◌, false, ◌≡◌, suc, set, fault, ok, ◌||◌, true, ◌∷◌,
  arith, ◌*◌, zero, [], ◌==◌, ap, drop, length-append, refl, length-drop,
}
use Prim.Native.Nat.{ℕ, suc}
use ipk_projekt.Memory.{Bytes, Malloc}

abbrev pub elem : ℕ → List ℕ → Bool
elem a [] = false
elem a (x ∷ xs) = x == a || elem a xs

pub elem-append : (a : ℕ) (xs ys : List ℕ) → elem a (xs ++ ys) ≡ (elem a xs || elem a ys)
elem-append a [] ys = refl
elem-append a (x ∷ xs) ys = ground (arith, elem-append a xs ys)

-- Inside the array the loop decides membership.
pub scan-elem :
    (a : ℕ) (cells : List ℕ) (count : ℕ)
    → count ≤ length cells
    → scan a cells count ≡ ok (elem a (take count cells))
unfolding scan
scan-elem a cells zero h = refl
scan-elem a [] (suc count) h = absurd (omega arith)
scan-elem a (x ∷ cells) (suc count) h = ground (arith, scan-elem a cells count)

-- A loop that goes on past the end without a match is a fault.
pub scan_past :
    (a : ℕ) (cells : List ℕ) (count : ℕ)
    → length cells < count
    → elem a cells ≡ false
    → scan a cells count ≡ fault
unfolding scan
scan_past a cells zero h n = absurd (omega arith)
scan_past a [] (suc count) h n = refl
scan_past a (x ∷ cells) (suc count) h n = ground (arith, scan_past a cells count)

-- One that finds a match never gets to the end.
pub scan_hit :
    (a : ℕ) (cells : List ℕ) (count : ℕ)
    → elem a (take count cells) ≡ true
    → scan a cells count ≡ ok true
unfolding scan
scan_hit a cells zero h = cc
scan_hit a [] (suc count) h = cc
scan_hit a (x ∷ cells) (suc count) h = ground (arith, scan_hit a cells count)

pub take-set_end :
    (cells : List ℕ) (i v : ℕ)
    → i < length cells
    → take (suc i) (set cells i v) ≡ take i cells ++ (v ∷ [])
take-set_end [] i v h = elim h [ ]
take-set_end (x ∷ cells) zero v h = refl
take-set_end (x ∷ cells) (suc i) v h = ap (◌∷◌ x) (take-set_end cells i v (omega arith))

pub elem-set :
    (cells : List ℕ) (i n v : ℕ) → i < n → n ≤ length cells → elem v (take n (set cells i v)) ≡ true
elem-set cells i zero v h k = absurd (omega arith)
elem-set [] i (suc n) v h k = absurd (omega arith)
elem-set (x ∷ cells) zero (suc n) v h k = ground arith
elem-set (x ∷ cells) (suc i) (suc n) v h k = ground (arith, elem-set cells i n v)

pub length-unset_from : (i : ℕ) (cells : List ℕ) → length (unset_from i cells) ≡ length cells
unfolding unset_from
length-unset_from i [] = refl
length-unset_from zero (x ∷ cells) = ap suc (length-unset_from zero cells)
length-unset_from (suc i) (x ∷ cells) = ap suc (length-unset_from i cells)

pub length-cells_of : (k : ℕ) (b : Bytes) → length b ≡ 2 * k → length (cells_of b) ≡ k
length-cells_of zero [] h = refl
length-cells_of zero (x ∷ b) h = absurd (omega arith)
length-cells_of (suc k) [] h = absurd (omega arith)
length-cells_of (suc k) (x ∷ []) h = absurd (omega arith)
length-cells_of (suc k) (x ∷ y ∷ b) h = ap suc (length-cells_of k b (omega arith))

pub take-append_le : (n : ℕ) (xs ys : List ℕ) → n ≤ length xs → take n (xs ++ ys) ≡ take n xs
take-append_le zero xs ys h = refl
take-append_le (suc n) [] ys h = absurd (omega arith)
take-append_le (suc n) (x ∷ xs) ys h = ap (◌∷◌ x) (take-append_le n xs ys (omega arith))

-- With memory, a larger array of the asked size that begins with the old one.
pub realloc_cells-ok :
    (malloc : Malloc) (cells : List ℕ) (size : ℕ)
    → Succeeds malloc
    → length cells ≤ size
    → (new : List ℕ) × (realloc_cells malloc cells size ≡ ok (cells ++ new))
      × (length (cells ++ new) ≡ size)
unfolding realloc_cells
realloc_cells-ok malloc cells size roomy h =
    let (block, e) = roomy (2 * size) in
    let new : List ℕ = drop (length cells) (cells_of block) in
    (
      new,
      rw e,
      omega (
        arith,
        length-append cells new,
        length-drop (length cells) (cells_of block),
        length-cells_of size block (malloc.length-alloc (2 * size) block e),
      ),
    )
