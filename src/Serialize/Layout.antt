-- ===== src/Serialize/Layout.antt =====
-- The serializers of src/serialize.c against the layouts drawn above each of them.
use ipk_projekt.Memory.Laws.{concat, store_all-fills}
use ipk_projekt.Serialize.{
  fill, serialize_confirm_msg, serialize_auth_msg, serialize_join_msg, serialize_msg,
  serialize_err_msg, serialize_bye_msg, ℕ, Malloc, Bytes, Result, ◌∷◌, AuthMsg, List, length, ◌+◌,
  ByeMsg, ConfirmMsg, JoinMsg, Msg, ErrMsg,
}
use ipk_projekt.Base.{
  refl, ◌≡◌, ◌++◌, ◌/◌, ◌%◌, [], Option-cases, none, inl, exits, inr, exit_failure, ◌⊎◌, ◌∙◌, sym,
  ok, arith, length-append,
}

-- The type byte and the id, high byte first, in front of the rest.
abbrev pub header : ℕ → ℕ → Bytes → Bytes
header type id rest = type ∷ (id / 256 % 256) ∷ (id % 256) ∷ rest

-- A text with its NUL, in front of the rest.
abbrev pub field : Bytes → Bytes → Bytes
field s rest = s ++ (0 ∷ rest)

-- Either there is no memory and the process exits, or the result is exactly this.
abbrev pub Gives : Malloc → ℕ → Bytes → Result (Bytes × ℕ) → Type 0
Gives malloc size bytes r =
    ((malloc.alloc size ≡ none) × (r ≡ exits exit_failure))
    ⊎ ((r ≡ ok (bytes, size)) × (length bytes ≡ size))

fill-Gives :
    (malloc : Malloc) (size size' : ℕ) (pieces : List Bytes)
    → size' ≡ size
    → length (concat pieces) ≡ size
    → Gives malloc size (concat pieces) (fill malloc size' pieces)
unfolding fill
fill-Gives malloc size size' pieces e h = rw e (elim (Option-cases (malloc.alloc size)) [
  | inl a ↦ inl (a, rw a)
  | inr (block, a) ↦
      inr (rw (a, store_all-fills block pieces (h ∙ sym (malloc.length-alloc size block a))), h)
])

-- CONFIRM takes three bytes: its type and the id that it refers to.
pub serialize_confirm_msg-Gives :
    (malloc : Malloc) (m : ConfirmMsg)
    → Gives malloc 3 (header m.type m.ref_message_id []) (serialize_confirm_msg malloc m)
unfolding serialize_confirm_msg
serialize_confirm_msg-Gives malloc m = fill-Gives malloc 3 _ _ refl refl

-- With memory, AUTH takes the type, its own id, and username, display name and secret in this order, each
-- with its NUL, and its size is the number of these bytes; without memory the process exits.
pub serialize_auth_msg-Gives :
    (malloc : Malloc) (m : AuthMsg)
    → Gives malloc
        (length m.username + length m.display_name + length m.secret + 6)
        (header m.type m.message_id (field m.username (field m.display_name (field m.secret []))))
        (serialize_auth_msg malloc m)
unfolding serialize_auth_msg
serialize_auth_msg-Gives malloc m =
    fill-Gives malloc _ _ _ (omega arith) (omega (arith, length-append {0}))

-- With memory, JOIN takes the type, its own id, and channel and display name in this order, each with its
-- NUL, and its size is the number of these bytes; without memory the process exits.
pub serialize_join_msg-Gives :
    (malloc : Malloc) (m : JoinMsg)
    → Gives malloc
        (length m.channel_id + length m.display_name + 5)
        (header m.type m.message_id (field m.channel_id (field m.display_name [])))
        (serialize_join_msg malloc m)
unfolding serialize_join_msg
serialize_join_msg-Gives malloc m =
    fill-Gives malloc _ _ _ (omega arith) (omega (arith, length-append {0}))

-- With memory, MSG takes the type, its own id, and display name and content in this order, each with its
-- NUL, and its size is the number of these bytes; without memory the process exits.
pub serialize_msg-Gives :
    (malloc : Malloc) (m : Msg)
    → Gives malloc
        (length m.display_name + length m.message_contents + 5)
        (header m.type m.message_id (field m.display_name (field m.message_contents [])))
        (serialize_msg malloc m)
unfolding serialize_msg
serialize_msg-Gives malloc m =
    fill-Gives malloc _ _ _ (omega arith) (omega (arith, length-append {0}))

-- With memory, ERR takes the type, its own id, and display name and content in this order, each with its
-- NUL, and its size is the number of these bytes; without memory the process exits.
pub serialize_err_msg-Gives :
    (malloc : Malloc) (m : ErrMsg)
    → Gives malloc
        (length m.display_name + length m.message_contents + 5)
        (header m.type m.message_id (field m.display_name (field m.message_contents [])))
        (serialize_err_msg malloc m)
unfolding serialize_err_msg
serialize_err_msg-Gives malloc m =
    fill-Gives malloc _ _ _ (omega arith) (omega (arith, length-append {0}))

-- With memory, BYE takes the type, its own id, and the display name with its NUL, and its size is the number
-- of these bytes; without memory the process exits.
pub serialize_bye_msg-Gives :
    (malloc : Malloc) (m : ByeMsg)
    → Gives malloc
        (length m.display_name + 4)
        (header m.type m.message_id (field m.display_name []))
        (serialize_bye_msg malloc m)
unfolding serialize_bye_msg
serialize_bye_msg-Gives malloc m =
    fill-Gives malloc _ _ _ (omega arith) (omega (arith, length-append {0}))
