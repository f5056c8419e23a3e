-- ===== src/Examples/Wire.antt =====
-- The theorems on the wire format, the validators and `/rename` at concrete messages and names.
use ipk_projekt.Validation.{validate_id}
use ipk_projekt.Deserialize.{
  deserialize_confirm_msg, deserialize_reply_msg, deserialize_msg, deserialize_bye_msg,
  deserialize_err_msg, deserialize_ping_msg,
}
use ipk_projekt.Serialize.Layout.{header, field}
use ipk_projekt.Messages.{create_msg}
use ipk_projekt.Examples.Setup.{plenty, hi, nick, plenty-Succeeds, nick-IsText, hi-IsText, started}
use ipk_projekt.Base.{
  some, codes, ◌∷◌, [], ◌≡◌, ok, true, none, ◌↔◌, ◌<◌, arith, ◌⊎◌, replicate, fault, ℕ, ◌++◌, refl,
  suc, zero,
}
use ipk_projekt.Deserialize.Safety.{received, deserialize_msg-overread, deserialize_null}
use ipk_projekt.Serialize.{serialize_msg}
use ipk_projekt.Validation.Charset.{Fits, IsWordChar, validate_id_iff}
use ipk_projekt.Commands.{cmd_rename, drop_spaces}
use ipk_projekt.Commands.Rename.{IsName, cmd_rename_overflow}
use ipk_projekt.Memory.{Bytes}
use ipk_projekt.World.{World}
use ipk_projekt.Deserialize.Inverse.{deserialize_msg-serialize_msg}

deserialize_null_example :
    ((deserialize_confirm_msg plenty (0 ∷ 1 ∷ []) 2 ≡ ok none) ↔ (2 < 3))
    × ((deserialize_reply_msg plenty (0 ∷ 1 ∷ []) 2 ≡ ok none) ↔ (2 < 8))
    × ((deserialize_msg plenty (0 ∷ 1 ∷ []) 2 ≡ ok none) ↔ (2 < 7))
    × ((deserialize_err_msg plenty (0 ∷ 1 ∷ []) 2 ≡ ok none) ↔ (2 < 7))
    × ((deserialize_bye_msg plenty (0 ∷ 1 ∷ []) 2 ≡ ok none) ↔ (2 < 5))
    × ((deserialize_ping_msg plenty (0 ∷ 1 ∷ []) 2 ≡ ok none) ↔ (2 < 3))
deserialize_null_example = deserialize_null plenty (0 ∷ 1 ∷ []) 2

deserialize_msg-overread_example :
    deserialize_msg plenty (received (header 4 1 nick) (field hi [])) 7
    ≡ ok (some (record { type = 4; message_id = 1; display_name = nick; message_contents = hi }))
deserialize_msg-overread_example =
    deserialize_msg-overread plenty 1 nick hi [] plenty-Succeeds (omega arith) nick-IsText hi-IsText
      (omega arith)

validate_id_iff_example :
    (validate_id (some (codes "a.b")) ≡ true) ↔ Fits 20 (λ c. IsWordChar c ⊎ (c ≡ 46)) (codes "a.b")
validate_id_iff_example = validate_id_iff (codes "a.b")

deserialize_msg-serialize_msg_example :
    (packet : Bytes) × (size : ℕ) × (serialize_msg plenty (create_msg 1 nick hi)
      ≡ ok (packet, size))
    × (deserialize_msg plenty (packet ++ (7 ∷ [])) size ≡ ok (some (create_msg 1 nick hi)))
unfolding create_msg
deserialize_msg-serialize_msg_example =
    deserialize_msg-serialize_msg plenty (create_msg 1 nick hi) (7 ∷ []) plenty-Succeeds
      (omega arith) nick-IsText hi-IsText (omega arith)

abbrev renaming : Bytes → World
renaming rest = record (started []) { strtok_rest = rest }

nick-IsName : IsName nick
nick-IsName = (
  (omega arith, omega arith),
  ((omega arith, omega arith), ((omega arith, omega arith), ((omega arith, omega arith), tt))),
)

same_letter-IsName : (n : ℕ) → IsName (replicate n 97)
same_letter-IsName zero = tt
same_letter-IsName (suc n) = ((omega arith, omega arith), same_letter-IsName n)

cmd_rename_overflow_example : cmd_rename (renaming (replicate 20 97)) ≡ (fault, renaming [])
unfolding drop_spaces
cmd_rename_overflow_example =
    cmd_rename_overflow (replicate 20 97) (renaming (replicate 20 97)) (same_letter-IsName 20) refl
      refl
