-- ===== src/Examples/Tables.antt =====
-- The theorems on the two id tables of src/id.c at concrete tables.
use ipk_projekt.Ids.Confirm.{
  Records, is_confirmed, add_confirmed_msg_id-Records, add_confirmed_msg_id_past,
  add_confirmed_msg_id_unsent,
}
use ipk_projekt.Base.{arith, refl, ◌∷◌, ◌≡◌, [], fault, ok}
use ipk_projekt.Ids.{Confirmed, Seen, add_confirmed_msg_id}
use ipk_projekt.Ids.Dedup.{
  Answers, ask_all, is_message_duplicate-Answers, repeated, ask_all-repeated,
}
use ipk_projekt.Examples.Setup.{plenty, plenty-Succeeds}
use ipk_projekt.Ids.Confirm
use ipk_projekt.Ids.Dedup

abbrev seen_three : Seen
seen_three = record { ids = 5 ∷ 7 ∷ 9 ∷ []; count = 3; array_size = 3 }

seen_three-IsValid : Dedup.IsValid seen_three
seen_three-IsValid = record { sized = refl; nonempty = omega arith; within = omega arith }

abbrev fresh : Seen
fresh = record { ids = 0 ∷ 0 ∷ []; count = 0; array_size = 2 }

fresh-IsValid : Dedup.IsValid fresh
fresh-IsValid = record { sized = refl; nonempty = omega arith; within = omega arith }

-- Four questions on an array of two cells.
ask_all-repeated_example :
    (last : Seen) × (ask_all plenty fresh (1 ∷ 2 ∷ 1 ∷ 3 ∷ [])
      ≡ ok (last, repeated [] (1 ∷ 2 ∷ 1 ∷ 3 ∷ [])))
    × Dedup.IsValid last
ask_all-repeated_example =
    ask_all-repeated plenty fresh (1 ∷ 2 ∷ 1 ∷ 3 ∷ []) plenty-Succeeds fresh-IsValid refl

abbrev confirmed_full : Confirmed
confirmed_full = record { ids = 0 ∷ 65535 ∷ []; index = 2; array_size = 2 }

confirmed_full-IsValid : Confirm.IsValid confirmed_full
confirmed_full-IsValid = record { sized = refl; nonempty = omega arith }

add_confirmed_msg_id-Records_example :
    Records confirmed_full 1 (add_confirmed_msg_id plenty confirmed_full 1)
add_confirmed_msg_id-Records_example =
    add_confirmed_msg_id-Records plenty confirmed_full 1 plenty-Succeeds confirmed_full-IsValid
      (omega arith) (omega arith)

abbrev unsent : Confirmed
unsent = record { ids = 65535 ∷ 65535 ∷ []; index = 0; array_size = 2 }

unsent-IsValid : Confirm.IsValid unsent
unsent-IsValid = record { sized = refl; nonempty = omega arith }

add_confirmed_msg_id_unsent_example : add_confirmed_msg_id plenty unsent 0 ≡ fault
add_confirmed_msg_id_unsent_example =
    add_confirmed_msg_id_unsent plenty unsent 0 unsent-IsValid refl

abbrev outrun : Confirmed
outrun = record { ids = 0 ∷ 1 ∷ []; index = 3; array_size = 2 }

outrun-IsValid : Confirm.IsValid outrun
outrun-IsValid = record { sized = refl; nonempty = omega arith }

add_confirmed_msg_id_past_example : add_confirmed_msg_id plenty outrun 2 ≡ fault
add_confirmed_msg_id_past_example =
    add_confirmed_msg_id_past plenty outrun 2 outrun-IsValid (omega arith) refl
