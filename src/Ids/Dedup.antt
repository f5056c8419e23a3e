-- ===== src/Ids/Dedup.antt =====
-- `is_message_duplicate` of src/id.c is a set of the ids that it has been asked about.
use ipk_projekt.Ids.Cells.{
  elem, scan-elem, take-set_end, take-append_le, realloc_cells-ok, elem-append,
}
use ipk_projekt.Ids.{Seen, is_message_duplicate, push_seen, grow_seen, write_cell, scan}
use ipk_projekt.Base.{
  length, List, ℕ, ◌≡◌, take, ◌<◌, ◌≤◌, ok, ◌++◌, ◌*◌, ◌∷◌, arith, [], set, Result, ◌+◌, lt→ltb,
  Bool, Bool-cases, length-set, inl, if◌then◌else◌, ◌∙◌, inr, add-one, ltb, ltb→lt, ◌>>=◌, ap, refl,
}
use ipk_projekt.Memory.{Malloc}
use ipk_projekt.Deserialize.RoundTrip.{Succeeds}

-- The array has its size, and room for one id at least.
pub record IsValid (s : Seen) : Type 0 where
  pub sized : length s.ids ≡ s.array_size
  pub nonempty : 0 < s.array_size
  pub within : s.count ≤ s.array_size

-- The ids that are in use, oldest first.
abbrev pub view : Seen → List ℕ
view s = take s.count s.ids

push_seen-view :
    (s : Seen) (a : ℕ)
    → length s.ids ≡ s.array_size
    → s.count < s.array_size
    → (s' : Seen) × (push_seen s a ≡ ok s') × IsValid s' × (view s' ≡ view s ++ (a ∷ []))
unfolding push_seen write_cell
push_seen-view s a sized room = (
  record s { ids = set s.ids s.count a; count = s.count + 1 },
  rw (lt→ltb s.count (length s.ids) (omega arith)),
  record {
    sized = length-set s.ids s.count a ∙ sized;
    nonempty = omega arith;
    within = omega arith;
  },
  rw (add-one s.count) (take-set_end s.ids s.count a (omega arith)),
)

-- A full array is replaced by one that is twice as large and in which the same ids are in use.
grow_seen-view :
    (malloc : Malloc) (s : Seen)
    → Succeeds malloc
    → IsValid s
    → (s' : Seen) × (grow_seen malloc s ≡ ok s')
      × (length s'.ids ≡ s'.array_size)
      × (s'.count < s'.array_size)
      × (view s' ≡ view s)
unfolding grow_seen
grow_seen-view malloc s roomy v =
    let (new, e, size) =
      realloc_cells-ok malloc s.ids (s.array_size * 2) roomy (omega (arith, v.sized)) in
    (
      record s { ids = s.ids ++ new; array_size = s.array_size * 2 },
      rw e,
      size,
      omega (arith, v.nonempty, v.within),
      take-append_le s.count s.ids new (omega (arith, v.sized, v.within)),
    )

-- The question that was put to the client's memory, and what it remembers afterwards.
abbrev pub Answers : Seen → ℕ → Result (Seen × Bool) → Type 0
Answers s a r =
    (s' : Seen) × (r ≡ ok (s', elem a (view s)))
    × IsValid s'
    × (view s' ≡ (if elem a (view s) then view s else view s ++ (a ∷ [])))

-- With memory, on a valid table: `is_message_duplicate` says whether the id is in use, and puts it
-- into use if it is not; the
-- array grows when it is full.
pub is_message_duplicate-Answers :
    (malloc : Malloc) (s : Seen) (a : ℕ)
    → Succeeds malloc
    → IsValid s
    → Answers s a (is_message_duplicate malloc s a)
unfolding is_message_duplicate
is_message_duplicate-Answers malloc s a roomy v = elim (Bool-cases (elem a (view s))) [
  | inl old ↦ (s, rw (found, old), v, rw old)
  | inr new ↦ elim (Bool-cases (ltb s.count s.array_size)) [
    | inl room ↦
        let (s', e, v', f) = push_seen-view s a v.sized (ltb→lt s.count s.array_size room) in
        (s', rw (found, new, room, e), v', rw new f)
    | inr full ↦
        let (s1, e1, sized, room, f1) = grow_seen-view malloc s roomy v in
        let (s', e, v', f) = push_seen-view s1 a sized room in
        (s', rw (found, new, full, e1, e), v', rw (new, ← f1) f)
  ]
]
  where
    found : scan a s.ids s.count ≡ ok (elem a (view s))
    found = scan-elem a s.ids s.count (omega (arith, v.sized, v.within))

-- A run of questions, one for each datagram that arrives.
pub ask_all : Malloc → Seen → List ℕ → Result (Seen × List Bool)
ask_all malloc s [] = ok (s, [])
ask_all malloc s (a ∷ as') = do
  (s', answer) ← is_message_duplicate malloc s a
  (last, answers) ← ask_all malloc s' as'
  ok (last, answer ∷ answers)

-- For each id: did it come before, in `past` or in the list?
pub repeated : List ℕ → List ℕ → List Bool
repeated past [] = []
repeated past (a ∷ as') = elem a past ∷ repeated (past ++ (a ∷ [])) as'

elem_kept :
    (ids past : List ℕ) (a : ℕ)
    → ((x : ℕ) → elem x ids ≡ elem x past)
    → (x : ℕ) → elem x (if elem a ids then ids else ids ++ (a ∷ [])) ≡ elem x (past ++ (a ∷ []))
elem_kept ids past a same x =
    ground (arith, same x, same a, elem-append x ids (a ∷ []), elem-append x past (a ∷ []))

ask_all-repeated_from :
    (malloc : Malloc) (s : Seen) (past questions : List ℕ)
    → Succeeds malloc
    → IsValid s
    → ((x : ℕ) → elem x (view s) ≡ elem x past)
    → (last : Seen) × (ask_all malloc s questions ≡ ok (last, repeated past questions))
      × IsValid last
unfolding ask_all repeated
ask_all-repeated_from malloc s past [] roomy v same = (s, refl, v)
ask_all-repeated_from malloc s past (a ∷ as') roomy v same =
    let (s', e, v', f) = is_message_duplicate-Answers malloc s a roomy v in
    let (last, e', v'') =
      ask_all-repeated_from malloc s' (past ++ (a ∷ [])) as' roomy v'
        (λ x. ap (elem x) f ∙ elem_kept (view s) past a same x) in
    (last, rw (e, e', same a), v'')

-- With memory, from a valid table with no id in use, the answers say exactly which ids are
-- repetitions, however many ids there
-- are; the array is never left.
pub ask_all-repeated :
    (malloc : Malloc) (s : Seen) (questions : List ℕ)
    → Succeeds malloc
    → IsValid s
    → s.count ≡ 0
    → (last : Seen) × (ask_all malloc s questions ≡ ok (last, repeated [] questions)) × IsValid last
ask_all-repeated malloc s questions roomy v empty =
    ask_all-repeated_from malloc s [] questions roomy v (λ x. ap (λ n. elem x (take n s.ids)) empty)
