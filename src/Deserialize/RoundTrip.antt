-- ===== src/Deserialize/RoundTrip.antt =====
-- What src/deserialize.c reads from a datagram that is laid out as src/serialize.c lays it out, at
-- the head of a buffer with any memory behind it.
use ipk_projekt.Memory.Laws.{c_str-text}
use ipk_projekt.Serialize.Layout.{header, field}
use ipk_projekt.Deserialize.{
  grab, copy_str, deserialize_confirm_msg, deserialize_reply_msg, deserialize_msg,
  deserialize_err_msg, deserialize_bye_msg, deserialize_ping_msg,
}
use ipk_projekt.Base.{
  ◌<◌, ◌≡◌, ◌/◌, ok, some, ◌≤◌, length, ◌∷◌, ◌%◌, ◌+◌, le→ltb, [], drop, ◌*◌, arith, ◌++◌,
  drop-append_add, ◌∙◌, refl, ℕ,
}
use ipk_projekt.Memory.{IsText, Malloc, c_str_at, Bytes}

-- There is memory for every request.
abbrev pub Succeeds : Malloc → Type 0
Succeeds malloc = (n : ℕ) → (block : Bytes) × (malloc.alloc n ≡ some block)

pub grab-ok : (malloc : Malloc) (n : ℕ) → Succeeds malloc → grab malloc n ≡ ok tt
unfolding grab
grab-ok malloc n roomy = rw ((roomy n).1, grab)

-- A text is copied out of the buffer, whatever stands behind its NUL.
pub copy_str-field :
    (malloc : Malloc) (buffer s after : Bytes) (k : ℕ)
    → Succeeds malloc
    → IsText s
    → drop k buffer ≡ field s after
    → copy_str malloc buffer k ≡ ok s
unfolding copy_str c_str_at
copy_str-field malloc buffer s after k roomy text e =
    rw (e, c_str-text s after text, grab-ok malloc (length s + 1) roomy)

pub drop-field :
    (before s after : Bytes) (k : ℕ)
    → k ≡ length before + (length s + 1)
    → drop k (before ++ field s after) ≡ after
drop-field before s after k e =
    drop-append_add before (field s after) (length s + 1) k e
    ∙ drop-append_add s (0 ∷ after) 1 (length s + 1) refl

pub net16-value : (n : ℕ) → n < 65536 → n / 256 % 256 * 256 + n % 256 ≡ n
net16-value n h = omega arith

module _ (malloc : Malloc) (roomy : Succeeds malloc) (type id : ℕ) (after : Bytes) (size : ℕ) where
  -- With memory, a CONFIRM comes back as its type and the id that it refers to.
  pub deserialize_confirm_msg-header :
      id < 65536
      → 3 ≤ size
      → deserialize_confirm_msg malloc (header type id after) size
        ≡ ok (some (record { type = type; ref_message_id = id }))
  unfolding deserialize_confirm_msg
  deserialize_confirm_msg-header h big =
      rw (le→ltb size 3 big, grab-ok malloc 4 roomy, net16-value id h)

  -- With memory, a PING comes back as its type and its id.
  pub deserialize_ping_msg-header :
      id < 65536
      → 3 ≤ size
      → deserialize_ping_msg malloc (header type id after) size
        ≡ ok (some (record { type = type; message_id = id }))
  unfolding deserialize_ping_msg
  deserialize_ping_msg-header h big =
      rw (le→ltb size 3 big, grab-ok malloc 4 roomy, net16-value id h)

  -- With memory, a REPLY laid out as type, id, result, reference and content, with its NUL and any memory
  -- behind it, comes back with these values; the size given must be 8 at least.
  pub deserialize_reply_msg-header :
      (result ref : ℕ) (contents : Bytes)
      → id < 65536
      → ref < 65536
      → IsText contents
      → 8 ≤ size
      → deserialize_reply_msg malloc
          (header type id (result ∷ (ref / 256 % 256) ∷ (ref % 256) ∷ field contents after))
          size
        ≡ ok (
            some (record {
              type = type;
              message_id = id;
              result = result;
              ref_message_id = ref;
              message_contents = contents;
            }))
  unfolding deserialize_reply_msg
  deserialize_reply_msg-header result ref contents h g text big = rw (
    le→ltb size 8 big,
    grab-ok malloc 16 roomy,
    copy_str-field malloc
        (header type id (result ∷ (ref / 256 % 256) ∷ (ref % 256) ∷ field contents after)) contents
        after 6 roomy text refl,
    net16-value id h,
    net16-value ref g,
  )

  -- With memory, a MSG laid out as type, id, display name and content, each with its NUL and any memory behind
  -- them, comes back with these values; the size given must be 7 at least.
  pub deserialize_msg-header :
      (name contents : Bytes)
      → id < 65536
      → IsText name
      → IsText contents
      → 7 ≤ size
      → deserialize_msg malloc (header type id (field name (field contents after))) size
        ≡ ok (
            some (record {
              type = type;
              message_id = id;
              display_name = name;
              message_contents = contents;
            }))
  unfolding deserialize_msg
  deserialize_msg-header name contents h t1 t2 big =
      let buffer : Bytes = header type id (field name (field contents after)) in
      rw (
        le→ltb size 7 big,
        grab-ok malloc 24 roomy,
        copy_str-field malloc buffer name (field contents after) 3 roomy t1 refl,
        copy_str-field malloc buffer contents after (3 + (length name + 1)) roomy t2 (
            drop-field (header type id []) name (field contents after) (3 + (length name + 1))
              refl),
        net16-value id h,
      )

  -- With memory, an ERR laid out as type, id, display name and content, each with its NUL and any memory behind
  -- them, comes back with these values; the size given must be 7 at least.
  pub deserialize_err_msg-header :
      (name contents : Bytes)
      → id < 65536
      → IsText name
      → IsText contents
      → 7 ≤ size
      → deserialize_err_msg malloc (header type id (field name (field contents after))) size
        ≡ ok (
            some (record {
              type = type;
              message_id = id;
              display_name = name;
              message_contents = contents;
            }))
  unfolding deserialize_err_msg
  deserialize_err_msg-header name contents h t1 t2 big =
      let buffer : Bytes = header type id (field name (field contents after)) in
      rw (
        le→ltb size 7 big,
        grab-ok malloc 24 roomy,
        copy_str-field malloc buffer name (field contents after) 3 roomy t1 refl,
        copy_str-field malloc buffer contents after (3 + (length name + 1)) roomy t2 (
            drop-field (header type id []) name (field contents after) (3 + (length name + 1))
              refl),
        net16-value id h,
      )

  -- With memory, a BYE laid out as type, id and display name, with its NUL and any memory behind it, comes back
  -- with these values; the size given must be 5 at least.
  pub deserialize_bye_msg-header :
      (name : Bytes)
      → id < 65536
      → IsText name
      → 5 ≤ size
      → deserialize_bye_msg malloc (header type id (field name after)) size
        ≡ ok (some (record { type = type; message_id = id; display_name = name }))
  unfolding deserialize_bye_msg
  deserialize_bye_msg-header name h text big = rw (
    le→ltb size 5 big,
    grab-ok malloc 16 roomy,
    copy_str-field malloc (header type id (field name after)) name after 3 roomy text refl,
    net16-value id h,
  )
