-- ===== src/Blocks.antt =====
-- Who owns the blocks of `malloc`: the `free_*` functions of src/messages.c, and what src/deserialize.c,
-- the handlers of src/network_udp.c and src/state_*.c and the commands do with blocks. A pointer is an
-- address, 0 for NULL; the contents of the blocks are in Deserialize, Serialize and Handlers.
pub mod Release
use Prim.Native.Nat.{ℕ}
use ipk_projekt.Base.{
  ok, fault, exits, exit_failure, some, none, [], ◌∷◌, Bool, ◌+◌, Option, Result, List,
  if◌then◌else◌, ◌==◌, false, true,
}

-- The addresses in use, and the one that `malloc` gives out next.
pub record Heap : Type 0 where
  pub next : ℕ
  pub live : List ℕ

abbrev pub Cmd : Type 0 → Type 0
Cmd A = Heap → Result (A × Heap)

abbrev pub and_then : {A B : Type 0} → Result (A × Heap) → (A → Cmd B) → Result (B × Heap)
and_then (ok (a, h)) f = f a h
and_then (exits status) f = exits status
and_then fault f = fault

infixl 5 ◌>>=◌ ◌>>◌
abbrev pub ◌>>=◌ : {A B : Type 0} → Cmd A → (A → Cmd B) → Cmd B
◌>>=◌ m f h = and_then (m h) f

abbrev pub ◌>>◌ : {A B : Type 0} → Cmd A → Cmd B → Cmd B
◌>>◌ m k h = and_then (m h) (λ _. k)

abbrev pub pure : {A : Type 0} → A → Cmd A
pure a h = ok (a, h)

abbrev pub quit : {A : Type 0} → ℕ → Cmd A
quit status h = exits status

-- The addresses without `p`, if it is in use.
unfoldable pub remove : ℕ → List ℕ → Option (List ℕ)
remove p [] = none
remove p (q ∷ live) =
    let rest = remove p live in
    if q == p then some live else elim rest [ none ↦ none | some l ↦ some (q ∷ l) ]

abbrev pub freed : Heap → Option (List ℕ) → Result (Unit {0} × Heap)
freed h none = fault
freed h (some live) = ok (tt, record h { live = live })

-- `free(p)`: nothing for NULL, and a fault for what is not in use.
unfoldable pub free : ℕ → Cmd (Unit {0})
unfolding remove
free p h = if p == 0 then ok (tt, h) else freed h (remove p h.live)

abbrev pub given : Heap → Heap
given h = record { next = h.next + 1; live = h.next ∷ h.live }

-- `malloc`, by the number of the block: does it succeed? What is done on NULL comes with it.
unfoldable pub alloc : (ℕ → Bool) → Cmd ℕ → Cmd ℕ
alloc grants on_null h = if grants h.next then ok (h.next, given h) else on_null h

-- `free(buffer)`, for the array of the listener: no address of `malloc`.
abbrev pub free_buffer : Cmd ℕ
free_buffer h = fault

-- The pointers of the structs of src/messages.h.
pub record OneText : Type 0 where
  pub self : ℕ
  pub text : ℕ

pub record TwoTexts : Type 0 where
  pub self : ℕ
  pub display_name : ℕ
  pub message_contents : ℕ

pub record JoinBlocks : Type 0 where
  pub self : ℕ
  pub channel_id : ℕ
  pub display_name : ℕ

pub record AuthBlocks : Type 0 where
  pub self : ℕ
  pub username : ℕ
  pub display_name : ℕ
  pub secret : ℕ

-- `if (p) free(p);`
unfoldable pub free_if : ℕ → Cmd (Unit {0})
unfolding free
free_if p h = if p == 0 then ok (tt, h) else free p h

unfoldable pub free_confirm_msg : ℕ → Cmd (Unit {0})
free_confirm_msg msg = free msg

unfoldable pub free_ping_msg : ℕ → Cmd (Unit {0})
free_ping_msg msg = free msg

-- The argument is NULL or a struct.
unfoldable pub free_reply_msg : Option OneText → Cmd (Unit {0})
free_reply_msg none = pure tt
free_reply_msg (some m) = do free_if m.text; free m.self

unfoldable pub free_bye_msg : Option OneText → Cmd (Unit {0})
free_bye_msg none = pure tt
free_bye_msg (some m) = do free_if m.text; free m.self

unfoldable pub free_msg : Option TwoTexts → Cmd (Unit {0})
free_msg none = pure tt
free_msg (some m) = do free_if m.display_name; free_if m.message_contents; free m.self

unfoldable pub free_err_msg : Option TwoTexts → Cmd (Unit {0})
free_err_msg none = pure tt
free_err_msg (some m) = do free_if m.display_name; free_if m.message_contents; free m.self

unfoldable pub free_join_msg : Option JoinBlocks → Cmd (Unit {0})
free_join_msg none = pure tt
free_join_msg (some m) = do free_if m.channel_id; free_if m.display_name; free m.self

unfoldable pub free_auth_msg : Option AuthBlocks → Cmd (Unit {0})
free_auth_msg none = pure tt
free_auth_msg (some m) = do
  free_if m.username
  free_if m.display_name
  free_if m.secret
  free m.self

module _ (grants : ℕ → Bool) where
  -- The blocks of a message from the server, once its size is enough.
  unfoldable pub new_struct : Cmd ℕ
  unfolding alloc
  new_struct = alloc grants free_buffer

  -- `deserialize_reply_msg` and `deserialize_bye_msg`
  unfoldable pub new_one_text : Cmd OneText
  new_one_text = do
    self ← new_struct
    text ← alloc grants free_buffer
    pure (record { self = self; text = text })

  -- `deserialize_msg` and `deserialize_err_msg`
  unfoldable pub new_two_texts : Cmd TwoTexts
  new_two_texts = do
    self ← new_struct
    name ← alloc grants free_buffer
    contents ← alloc grants free_buffer
    pure (record { self = self; display_name = name; message_contents = contents })

  -- `serialize_*_msg`: one block.
  unfoldable pub new_packet : Cmd ℕ
  new_packet = alloc grants (quit exit_failure)

  -- `send_network_msg_udp`, on the paths on which it returns. `getaddrinfo` takes a list of addresses, here
  -- one block; a CONFIRM returns without `freeaddrinfo`, and what is confirmed frees the list and
  -- then the packet.
  unfoldable pub send_packet : Bool → ℕ → Cmd (Unit {0})
  send_packet confirm packet h =
      if confirm then ok (tt, given h) else (free h.next >> free packet) (given h)

  -- `serialize_confirm_msg` and `send_network_msg_udp` of each handler, whose `free(out_buffer)` comes
  -- last.
  unfoldable pub send_confirm : Cmd ℕ
  unfolding new_packet send_packet
  send_confirm = do out ← new_packet; send_packet true out; pure out

  -- Each case of `process_received_udp_message`, on the path to its last `free`.
  unfoldable pub confirm_case : Cmd (Unit {0})
  confirm_case = do msg ← new_struct; free_confirm_msg msg

  unfoldable pub reply_case : Cmd (Unit {0})
  reply_case = do msg ← new_one_text; out ← send_confirm; free_reply_msg (some msg); free out

  unfoldable pub msg_case : Cmd (Unit {0})
  msg_case = do msg ← new_two_texts; out ← send_confirm; free_msg (some msg); free out

  unfoldable pub ping_case : Cmd (Unit {0})
  ping_case = do msg ← new_struct; out ← send_confirm; free_ping_msg msg; free out

  unfoldable pub err_case : Cmd (Unit {0})
  err_case = do msg ← new_two_texts; out ← send_confirm; free_err_msg (some msg); free out

  unfoldable pub bye_case : Cmd (Unit {0})
  bye_case = do msg ← new_one_text; out ← send_confirm; free_bye_msg (some msg); free out

  -- default: a CONFIRM and an ERR, each freed here.
  unfoldable pub malformed_case : Cmd (Unit {0})
  malformed_case = do
    out ← send_confirm
    free out
    err ← new_packet
    send_packet false err
    free err

  -- `cmd_auth`, `cmd_join` and `graceful_quit` over UDP.
  unfoldable pub send_command : Cmd (Unit {0})
  send_command = do out ← new_packet; send_packet false out

  -- `cmd_msg`: the copy of the line, NULL of which ends the command, and the packet over UDP.
  unfoldable pub cmd_msg_blocks : Bool → Cmd (Unit {0})
  cmd_msg_blocks tcp h =
      if grants h.next
      then ((if tcp then pure tt else send_command) >> free h.next) (given h)
      else ok (tt, h)
