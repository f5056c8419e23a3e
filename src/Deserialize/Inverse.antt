-- ===== src/Deserialize/Inverse.antt =====
-- src/deserialize.c undoes src/serialize.c.
use ipk_projekt.Memory.{Malloc, Bytes, IsText}
use ipk_projekt.Serialize.Layout.{field, serialize_msg-Gives, header}
use ipk_projekt.Messages.{Msg}
use ipk_projekt.Deserialize.RoundTrip.{Succeeds, deserialize_msg-header}
use ipk_projekt.Base.{
  inr, ◌++◌, ◌<◌, ◌≡◌, append_assoc, ◌∷◌, ◌≤◌, length, ◌+◌, ℕ, ok, some, inl, none, sym, ◌∙◌, [],
  ap, arith,
}
use ipk_projekt.Serialize.{serialize_msg}
use ipk_projekt.Deserialize.{deserialize_msg}

field-append : (s rest after : Bytes) → field s rest ++ after ≡ field s (rest ++ after)
field-append s rest after = append_assoc s (0 ∷ rest) after

-- With memory, a MSG of texts, with two characters at least, is serialized, and what was written is
-- read back as the same MSG, whatever memory follows.
pub deserialize_msg-serialize_msg :
    (malloc : Malloc) (m : Msg) (after : Bytes)
    → Succeeds malloc
    → m.message_id < 65536
    → IsText m.display_name
    → IsText m.message_contents
    → 2 ≤ length m.display_name + length m.message_contents
    → (packet : Bytes) × (size : ℕ) × (serialize_msg malloc m ≡ ok (packet, size))
      × (deserialize_msg malloc (packet ++ after) size ≡ ok (some m))
deserialize_msg-serialize_msg malloc m after roomy h t1 t2 big =
    elim (serialize_msg-Gives malloc m) [
      | inl (short, _) ↦
          let (block, f) = roomy (length m.display_name + length m.message_contents + 5) in
          let f' : none ≡ some block = sym short ∙ f in cc
      | inr (r, len) ↦ (
        header m.type m.message_id (field m.display_name (field m.message_contents [])),
        length m.display_name + length m.message_contents + 5,
        r,
        ap
              (λ rest.
                deserialize_msg malloc (header m.type m.message_id rest)
                  (length m.display_name + length m.message_contents + 5))
              (field-append m.display_name (field m.message_contents []) after
                ∙ ap (field m.display_name) (field-append m.message_contents [] after))
            ∙ deserialize_msg-header malloc roomy m.type m.message_id after _ m.display_name
                m.message_contents h t1 t2 (omega arith),
      )
    ]
