-- ===== src/Deserialize/Safety.antt =====
-- When src/deserialize.c returns NULL, when its reads stay inside the received bytes and the NUL
-- that the listener puts behind them, and when they run into older bytes.
use ipk_projekt.Deserialize.RoundTrip.{Succeeds, grab-ok, deserialize_msg-header}
use ipk_projekt.Deserialize.{
  copy_str, deserialize_confirm_msg, deserialize_reply_msg, deserialize_bye_msg,
  deserialize_ping_msg, deserialize_msg, deserialize_err_msg,
}
use ipk_projekt.Memory.{Malloc, c_str, byte_at, c_str_at, host16_at, Bytes, IsText}
use ipk_projekt.Base.{
  ℕ, ◌≤◌, ◌++◌, length, ◌+◌, ◌≡◌, ◌<◌, ◌∷◌, ok, drop, Bool-cases, arith, suc, some, none, ◌==◌, ◌*◌,
  le→ltb, ◌↔◌, inl, [], zero, inr, refl,
}
use ipk_projekt.Messages.{ReplyMsg, ByeMsg, ConfirmMsg, PingMsg, msg_type_val, msg}
use ipk_projekt.Serialize.Layout.{header, field}

-- A byte of the datagram, whatever follows it in the buffer.
byte_at-received :
    (d : Bytes) (i : ℕ) → i < length d → (v : ℕ) × ((after : Bytes) → byte_at (d ++ after) i ≡ ok v)
unfolding byte_at
byte_at-received [] i h = absurd (omega arith)
byte_at-received (b ∷ d) zero h = (b, λ after. refl)
byte_at-received (b ∷ d) (suc i) h = byte_at-received d i (omega arith)

host16_at-received :
    (d : Bytes) (i : ℕ)
    → i + 1 < length d
    → (v : ℕ) × ((after : Bytes) → host16_at (d ++ after) i ≡ ok v)
unfolding host16_at
host16_at-received d i h =
    let (high, e) = byte_at-received d i (omega arith) in
    let (low, f) = byte_at-received d (i + 1) h in
    (high * 256 + low, λ after. rw (e after, f after))

c_str-received :
    (d : Bytes) → (s : Bytes) × IsText s × ((after : Bytes) → c_str (d ++ (0 ∷ after)) ≡ ok s)
unfolding c_str
c_str-received [] = ([], tt, λ after. refl)
c_str-received (b ∷ d) =
    let (s, text, e) = c_str-received d in
    elim (Bool-cases (b == 0)) [
      | inl z ↦ ([], tt, λ after. rw z)
      | inr n ↦ (b ∷ s, ((λ z. ground arith), text), λ after. rw (n, e after))
    ]

drop-received :
    (d : Bytes) (k : ℕ) → k ≤ length d → (after : Bytes) → drop k (d ++ after) ≡ drop k d ++ after
drop-received d zero h after = refl
drop-received [] (suc k) h after = absurd (omega arith)
drop-received (b ∷ d) (suc k) h after = drop-received d k (omega arith) after

copy_str-received :
    (malloc : Malloc) (d : Bytes) (k : ℕ)
    → Succeeds malloc
    → k ≤ length d
    → (s : Bytes) × IsText s × ((after : Bytes) → copy_str malloc (d ++ (0 ∷ after)) k ≡ ok s)
unfolding copy_str c_str_at
copy_str-received malloc d k roomy h =
    let (s, text, e) = c_str-received (drop k d) in
    (
      s,
      text,
      λ after. rw (drop-received d k h (0 ∷ after), e after, grab-ok malloc (length s + 1) roomy),
    )

-- The buffer of the listener after it has received `d`: a NUL, then whatever was there before.
abbrev pub received : Bytes → Bytes → Bytes
received d stale = d ++ (0 ∷ stale)

module _ (malloc : Malloc) (roomy : Succeeds malloc) (d : Bytes) where
  -- With memory, a REPLY of 8 bytes or more is read from the datagram and the NUL behind it alone: one message
  -- results, whatever older bytes follow.
  pub deserialize_reply_msg-received :
      8 ≤ length d
      → (m : ReplyMsg) × IsText m.message_contents
        × ((stale : Bytes)
            → deserialize_reply_msg malloc (received d stale) (length d) ≡ ok (some m))
  unfolding deserialize_reply_msg
  deserialize_reply_msg-received big =
      let (type, e0) = byte_at-received d 0 (omega arith) in
      let (id, e1) = host16_at-received d 1 (omega arith) in
      let (result, e3) = byte_at-received d 3 (omega arith) in
      let (ref, e4) = host16_at-received d 4 (omega arith) in
      let (s, text, e6) = copy_str-received malloc d 6 roomy (omega arith) in
      (
        record {
          type = type;
          message_id = id;
          result = result;
          ref_message_id = ref;
          message_contents = s;
        },
        text,
        λ stale. rw (
          le→ltb (length d) 8 big,
          grab-ok malloc 16 roomy,
          e0 (0 ∷ stale),
          e1 (0 ∷ stale),
          e3 (0 ∷ stale),
          e4 (0 ∷ stale),
          e6 stale,
        ),
      )

  -- With memory, a BYE of 5 bytes or more is read from the datagram and the NUL behind it alone: one message
  -- results, whatever older bytes follow.
  pub deserialize_bye_msg-received :
      5 ≤ length d
      → (m : ByeMsg) × IsText m.display_name
        × ((stale : Bytes) → deserialize_bye_msg malloc (received d stale) (length d) ≡ ok (some m))
  unfolding deserialize_bye_msg
  deserialize_bye_msg-received big =
      let (type, e0) = byte_at-received d 0 (omega arith) in
      let (id, e1) = host16_at-received d 1 (omega arith) in
      let (s, text, e3) = copy_str-received malloc d 3 roomy (omega arith) in
      (
        record { type = type; message_id = id; display_name = s },
        text,
        λ stale. rw (
          le→ltb (length d) 5 big,
          grab-ok malloc 16 roomy,
          e0 (0 ∷ stale),
          e1 (0 ∷ stale),
          e3 stale,
        ),
      )

  -- With memory, a PING of 3 bytes or more is read from the datagram and the NUL behind it alone: one message
  -- results, whatever older bytes follow.
  pub deserialize_ping_msg-received :
      3 ≤ length d
      → (m : PingMsg) × ((stale : Bytes)
          → deserialize_ping_msg malloc (received d stale) (length d) ≡ ok (some m))
  unfolding deserialize_ping_msg
  deserialize_ping_msg-received big =
      let (type, e0) = byte_at-received d 0 (omega arith) in
      let (id, e1) = host16_at-received d 1 (omega arith) in
      (
        record { type = type; message_id = id },
        λ stale.
            rw (le→ltb (length d) 3 big, grab-ok malloc 4 roomy, e0 (0 ∷ stale), e1 (0 ∷ stale)),
      )

  -- With memory, a CONFIRM of 3 bytes or more is read from the datagram and the NUL behind it alone: one message
  -- results, whatever older bytes follow.
  pub deserialize_confirm_msg-received :
      3 ≤ length d
      → (m : ConfirmMsg) × ((stale : Bytes)
          → deserialize_confirm_msg malloc (received d stale) (length d) ≡ ok (some m))
  unfolding deserialize_confirm_msg
  deserialize_confirm_msg-received big =
      let (type, e0) = byte_at-received d 0 (omega arith) in
      let (id, e1) = host16_at-received d 1 (omega arith) in
      (
        record { type = type; ref_message_id = id },
        λ stale.
            rw (le→ltb (length d) 3 big, grab-ok malloc 4 roomy, e0 (0 ∷ stale), e1 (0 ∷ stale)),
      )

-- Each function returns NULL exactly for a size below its minimum, whatever the buffer holds.
pub deserialize_null :
    (malloc : Malloc) (buffer : Bytes) (size : ℕ)
    → ((deserialize_confirm_msg malloc buffer size ≡ ok none) ↔ (size < 3))
      × ((deserialize_reply_msg malloc buffer size ≡ ok none) ↔ (size < 8))
      × ((deserialize_msg malloc buffer size ≡ ok none) ↔ (size < 7))
      × ((deserialize_err_msg malloc buffer size ≡ ok none) ↔ (size < 7))
      × ((deserialize_bye_msg malloc buffer size ≡ ok none) ↔ (size < 5))
      × ((deserialize_ping_msg malloc buffer size ≡ ok none) ↔ (size < 3))
unfolding deserialize_confirm_msg deserialize_reply_msg deserialize_msg deserialize_err_msg
    deserialize_bye_msg deserialize_ping_msg
deserialize_null malloc buffer size = (
  (ground arith, ground arith),
  (ground arith, ground arith),
  (ground arith, ground arith),
  (ground arith, ground arith),
  (ground arith, ground arith),
  (ground arith, ground arith),
)

-- With memory: a MSG of 7 bytes at least whose display name fills it to its last byte passes the check on its size. Its
-- content is then read behind the NUL of the listener, from bytes that this datagram did not send.
pub deserialize_msg-overread :
    (malloc : Malloc) (id : ℕ) (name old after : Bytes)
    → Succeeds malloc
    → id < 65536
    → IsText name
    → IsText old
    → 4 ≤ length name
    → let d : Bytes = header (msg_type_val msg) id name in
      deserialize_msg malloc (received d (field old after)) (length d)
      ≡ ok (
          some (record {
            type = msg_type_val msg;
            message_id = id;
            display_name = name;
            message_contents = old;
          }))
deserialize_msg-overread malloc id name old after roomy h t1 t2 big =
    deserialize_msg-header malloc roomy _ id after _ name old h t1 t2 (omega arith)
