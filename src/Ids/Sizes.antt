-- ===== src/Ids/Sizes.antt =====
-- src/id.c, with memory or without: whenever a function returns, its table is an array of its size.
use ipk_projekt.Base.{
  ◌>>=◌, Result, Bool, ◌≡◌, ℕ, ◌*◌, List, ok, length, suc, ◌∙◌, ◌<◌, arith, ◌≤◌, true, exits, subst,
  zero, fault, if◌then◌else◌, Option-cases, false, ltb, leb, refl, length-set, inl, ltb→lt, inr,
  length-append, drop, length-drop,
}
use ipk_projekt.Ids.{
  Confirmed, put_confirmed, push_seen, is_message_duplicate, add_confirmed_msg_id, Seen, grow_seen,
  grow_confirmed, write_cell, realloc_cells, scan, cells_of,
}
use ipk_projekt.Memory.{Malloc}
use ipk_projekt.Ids.Cells.{length-unset_from, length-cells_of}
use ipk_projekt.Ids.Confirm
use ipk_projekt.Ids.Dedup

-- If a piece of code returns, its result has `P`.
abbrev Ensures : {A : Type 0} → (A → Type 0) → Result A → Type 0
Ensures P (ok a) = P a
Ensures P (exits status) = Unit
Ensures P fault = Unit

Ensures-bind :
    {A B : Type 0} (P : A → Type 0) (Q : B → Type 0) (r : Result A) (f : A → Result B)
    → Ensures P r
    → ((a : A) → P a → Ensures Q (f a))
    → Ensures Q (r >>= f)
Ensures-bind P Q (ok a) f p next = next a p
Ensures-bind P Q (exits status) f p next = tt
Ensures-bind P Q fault f p next = tt

Ensures-any : {A : Type 0} (r : Result A) → Ensures (λ _. Unit {0}) r
Ensures-any (ok a) = tt
Ensures-any (exits status) = tt
Ensures-any fault = tt

Ensures-if :
    {A : Type 0} (P : A → Type 0) (b : Bool) (x y : Result A)
    → (b ≡ true → Ensures P x)
    → (b ≡ false → Ensures P y)
    → Ensures P (if b then x else y)
Ensures-if P true x y p q = p refl
Ensures-if P false x y p q = q refl

Ensures-ok : {A : Type 0} (P : A → Type 0) (r : Result A) (a : A) → Ensures P r → r ≡ ok a → P a
Ensures-ok P r a p e = let p' : Ensures P (ok a) = subst (Ensures P) e p in p'

realloc_cells_size :
    (malloc : Malloc) (cells : List ℕ) (size : ℕ)
    → length cells ≤ size
    → Ensures (λ new. length new ≡ size) (realloc_cells malloc cells size)
unfolding realloc_cells
realloc_cells_size malloc cells size h = elim (Option-cases (malloc.alloc (2 * size))) [
  | inl short ↦ rw short tt
  | inr (block, e) ↦ rw e (
      omega (
        arith,
        length-append cells (drop (length cells) (cells_of block)),
        length-drop (length cells) (cells_of block),
        length-cells_of size block (malloc.length-alloc (2 * size) block e),
      ))
]

write_cell_size :
    (cells : List ℕ) (i v : ℕ)
    → Ensures (λ new. (length new ≡ length cells) × (i < length cells)) (write_cell cells i v)
unfolding write_cell
write_cell_size cells i v =
    Ensures-if (λ new. (length new ≡ length cells) × (i < length cells)) (ltb i (length cells)) _ _
      (λ inside. (length-set cells i v, ltb→lt i (length cells) inside)) (λ _. tt)

put_confirmed-IsValid :
    (index id : ℕ) (c : Confirmed)
    → Confirm.IsValid c
    → Ensures Confirm.IsValid (put_confirmed index id c)
unfolding put_confirmed
put_confirmed-IsValid zero id c v = tt
put_confirmed-IsValid (suc last) id c v =
    Ensures-bind _ Confirm.IsValid (write_cell c.ids last id) _ (write_cell_size c.ids last id)
      (λ cells h. record { sized = h.0 ∙ v.sized; nonempty = v.nonempty })

grow_confirmed-IsValid :
    (malloc : Malloc) (c : Confirmed)
    → Confirm.IsValid c
    → Ensures Confirm.IsValid (grow_confirmed malloc c)
unfolding grow_confirmed
grow_confirmed-IsValid malloc c v =
    Ensures-bind _ Confirm.IsValid (realloc_cells malloc c.ids (c.array_size * 2)) _
      (realloc_cells_size malloc c.ids (c.array_size * 2) (omega (arith, v.sized)))
      (λ cells h. record {
        sized = length-unset_from c.index cells ∙ h;
        nonempty = omega (arith, v.nonempty);
      })

add_confirmed-Ensures :
    (malloc : Malloc) (c : Confirmed) (id : ℕ)
    → Confirm.IsValid c
    → Ensures Confirm.IsValid (add_confirmed_msg_id malloc c id)
unfolding add_confirmed_msg_id
add_confirmed-Ensures malloc c id v =
    Ensures-bind _ Confirm.IsValid (scan id c.ids c.index) _ (Ensures-any (scan id c.ids c.index))
      (λ found _.
        Ensures-if Confirm.IsValid found _ _ (λ _. v)
          (λ _.
            Ensures-bind Confirm.IsValid Confirm.IsValid
              (if leb c.array_size c.index then grow_confirmed malloc c else ok c) _
              (Ensures-if Confirm.IsValid (leb c.array_size c.index) _ _
                (λ _. grow_confirmed-IsValid malloc c v) (λ _. v))
              (λ c' v'. put_confirmed-IsValid c'.index id c' v')))

-- Whenever `add_confirmed_msg_id` returns, the table is still valid.
pub add_confirmed_msg_id-IsValid :
    (malloc : Malloc) (c c' : Confirmed) (id : ℕ)
    → Confirm.IsValid c
    → add_confirmed_msg_id malloc c id ≡ ok c'
    → Confirm.IsValid c'
add_confirmed_msg_id-IsValid malloc c c' id v =
    Ensures-ok Confirm.IsValid (add_confirmed_msg_id malloc c id) c'
      (add_confirmed-Ensures malloc c id v)

-- A table with the right size, and perhaps full.
abbrev HasSize : Seen → Type 0
HasSize s = (length s.ids ≡ s.array_size) × (s.count ≤ s.array_size) × (0 < s.array_size)

push_seen-IsValid : (s : Seen) (id : ℕ) → HasSize s → Ensures Dedup.IsValid (push_seen s id)
unfolding push_seen
push_seen-IsValid s id h =
    Ensures-bind _ Dedup.IsValid (write_cell s.ids s.count id) _ (write_cell_size s.ids s.count id)
      (λ cells k. record { sized = k.0 ∙ h.0; nonempty = h.2; within = omega (arith, k.1, h.0) })

grow_seen-HasSize :
    (malloc : Malloc) (s : Seen) → Dedup.IsValid s → Ensures HasSize (grow_seen malloc s)
unfolding grow_seen
grow_seen-HasSize malloc s v =
    Ensures-bind _ HasSize (realloc_cells malloc s.ids (s.array_size * 2)) _
      (realloc_cells_size malloc s.ids (s.array_size * 2) (omega (arith, v.sized)))
      (λ cells h. (h, omega (arith, v.within), omega (arith, v.nonempty)))

duplicate-Ensures :
    (malloc : Malloc) (s : Seen) (id : ℕ)
    → Dedup.IsValid s
    → Ensures (λ r. Dedup.IsValid r.0) (is_message_duplicate malloc s id)
unfolding is_message_duplicate
duplicate-Ensures malloc s id v =
    let P : Seen × Bool → Type 0 = λ r. Dedup.IsValid r.0 in
    Ensures-bind _ P (scan id s.ids s.count) _ (Ensures-any (scan id s.ids s.count)) (λ found _.
      Ensures-if P found _ _ (λ _. v)
        (λ _.
          Ensures-bind HasSize P (if ltb s.count s.array_size then ok s else grow_seen malloc s) _
            (Ensures-if HasSize (ltb s.count s.array_size) _ _
              (λ _. (v.sized, v.within, v.nonempty)) (λ _. grow_seen-HasSize malloc s v))
            (λ s' h.
              Ensures-bind Dedup.IsValid P (push_seen s' id) _ (push_seen-IsValid s' id h)
                (λ pushed v'. v'))))

-- Whenever `is_message_duplicate` returns, the table is still valid.
pub is_message_duplicate-IsValid :
    (malloc : Malloc) (s s' : Seen) (id : ℕ) (old : Bool)
    → Dedup.IsValid s
    → is_message_duplicate malloc s id ≡ ok (s', old)
    → Dedup.IsValid s'
is_message_duplicate-IsValid malloc s s' id old v =
    Ensures-ok (λ r. Dedup.IsValid r.0) (is_message_duplicate malloc s id) (s', old)
      (duplicate-Ensures malloc s id v)
