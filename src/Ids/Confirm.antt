-- ===== src/Ids/Confirm.antt =====
-- `add_confirmed_msg_id` of src/id.c: when it records an id, and when it leaves its array.
use ipk_projekt.Ids.Cells.{
  elem, scan-elem, scan_past, elem-set, realloc_cells-ok, length-unset_from,
}
use ipk_projekt.Ids.{
  Confirmed, add_confirmed_msg_id, put_confirmed, scan, write_cell, grow_confirmed, unset_from,
}
use ipk_projekt.Base.{
  ℕ, length, Bool, ◌≡◌, ◌<◌, ◌≤◌, fault, take, false, ok, arith, set, true, ◌-◌, suc, lt→leb,
  Bool-cases, Result, length-set, ◌∙◌, ◌*◌, inl, lt→ltb, refl, inr, ap, leb, zero, ◌++◌,
}
use ipk_projekt.Memory.{Malloc}
use ipk_projekt.Deserialize.RoundTrip.{Succeeds}

-- The array has its size, and room for one id at least.
pub record IsValid (c : Confirmed) : Type 0 where
  pub sized : length c.ids ≡ c.array_size
  pub nonempty : 0 < c.array_size

-- Is the id among the first `index` cells, those that the sender searches?
abbrev pub is_confirmed : ℕ → Confirmed → Bool
is_confirmed a c = elem a (take c.index c.ids)

put_confirmed-ok :
    (n : ℕ) (c : Confirmed) (a : ℕ)
    → 0 < n
    → n ≤ length c.ids
    → put_confirmed n a c ≡ ok (record c { ids = set c.ids (n - 1) a })
unfolding put_confirmed write_cell
put_confirmed-ok zero c a h k = absurd (omega arith)
put_confirmed-ok (suc n) c a h k =
    let e : n ≡ suc n - 1 = omega arith in
    rw (lt→ltb n (length c.ids) k)
      (ap {B = Result Confirmed} (λ i. ok (record c { ids = set c.ids i a })) e)

-- The cell is written, and then found.
abbrev pub Records : Confirmed → ℕ → Result Confirmed → Type 0
Records c a r =
    (c' : Confirmed) × (r ≡ ok c')
    × (is_confirmed a c' ≡ true)
    × (c'.index ≡ c.index)
    × (c.array_size ≤ c'.array_size)
    × IsValid c'

put_confirmed-Records :
    (c : Confirmed) (a : ℕ)
    → IsValid c
    → 0 < c.index
    → c.index ≤ c.array_size
    → Records c a (put_confirmed c.index a c)
put_confirmed-Records c a v h k = (
  record c { ids = set c.ids (c.index - 1) a },
  put_confirmed-ok c.index c a h (omega (arith, v.sized)),
  elem-set c.ids (c.index - 1) c.index a (omega arith) (omega (arith, v.sized)),
  refl,
  omega arith,
  record { sized = length-set c.ids (c.index - 1) a ∙ v.sized; nonempty = v.nonempty },
)

grow_confirmed-ok :
    (malloc : Malloc) (c : Confirmed)
    → Succeeds malloc
    → IsValid c
    → (c' : Confirmed) × (grow_confirmed malloc c ≡ ok c')
      × (c'.index ≡ c.index)
      × (c'.array_size ≡ c.array_size * 2)
      × IsValid c'
unfolding grow_confirmed
grow_confirmed-ok malloc c roomy v =
    let (new, e, size) =
      realloc_cells-ok malloc c.ids (c.array_size * 2) roomy (omega (arith, v.sized)) in
    (
      record c { ids = unset_from c.index (c.ids ++ new); array_size = c.array_size * 2 },
      rw e,
      refl,
      refl,
      record {
        sized = length-unset_from c.index (c.ids ++ new) ∙ size;
        nonempty = omega (arith, v.nonempty);
      },
    )

-- With memory, on a valid table: a confirmation is recorded while at least one message is on its way and the array has a cell for
-- each: the sender finds the id, and the number of messages and the validity stay.
pub add_confirmed_msg_id-Records :
    (malloc : Malloc) (c : Confirmed) (a : ℕ)
    → Succeeds malloc
    → IsValid c
    → 0 < c.index
    → c.index ≤ c.array_size
    → Records c a (add_confirmed_msg_id malloc c a)
unfolding add_confirmed_msg_id
add_confirmed_msg_id-Records malloc c a roomy v h k = elim (Bool-cases (is_confirmed a c)) [
  | inl old ↦ (c, rw (found, old), old, refl, omega arith, v)
  | inr new ↦ elim (Bool-cases (leb c.array_size c.index)) [
    | inl full ↦
        let (c1, e1, i1, s1, v1) = grow_confirmed-ok malloc c roomy v in
        let (c', e, m, i, s, v') =
          put_confirmed-Records c1 a v1 (omega (arith, i1)) (omega (arith, i1, s1)) in
        (c', rw (found, new, full, e1, e), m, i ∙ i1, omega (arith, s, s1), v')
    | inr room ↦
        let (c', e, m, i, s, v') = put_confirmed-Records c a v h k in
        (c', rw (found, new, room, e), m, i, s, v')
  ]
]
  where
    found : scan a c.ids c.index ≡ ok (is_confirmed a c)
    found = scan-elem a c.ids c.index (omega (arith, v.sized, k))

-- A CONFIRM that arrives before the client has sent anything writes before the array.
pub add_confirmed_msg_id_unsent :
    (malloc : Malloc) (c : Confirmed) (a : ℕ)
    → IsValid c
    → c.index ≡ 0
    → add_confirmed_msg_id malloc c a ≡ fault
unfolding add_confirmed_msg_id scan put_confirmed
add_confirmed_msg_id_unsent malloc c a v e = rw (e, lt→leb c.array_size 0 v.nonempty)

-- Once more messages were sent than the array has cells, the first CONFIRM for an id that is not
-- recorded reads past the array: the search comes before the array grows.
pub add_confirmed_msg_id_past :
    (malloc : Malloc) (c : Confirmed) (a : ℕ)
    → IsValid c
    → c.array_size < c.index
    → elem a c.ids ≡ false
    → add_confirmed_msg_id malloc c a ≡ fault
unfolding add_confirmed_msg_id
add_confirmed_msg_id_past malloc c a v past new =
    rw (scan_past a c.ids c.index (omega (arith, v.sized)) new)
