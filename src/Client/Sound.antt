-- ===== src/Client/Sound.antt =====
-- The arrays of the client over a whole run: `display_name` of src/main.c, `recv_buffer` of
-- src/network_udp.c and the tables of src/id.c.
use ipk_projekt.World.{Config, World}
use Prim.Native.Nat.{ℕ, suc}
use ipk_projekt.Base.{
  ℕ, List, ◌≡◌, length, ◌≤◌, ok, take, arith, length-append, ◌∷◌, replicate, ◌∙◌, ◌++◌, ap, drop,
  zero, refl, ◌+◌, [], length-drop,
}
use ipk_projekt.Memory.{store, Bytes}
use ipk_projekt.World.Keeps.{Arrays}
use ipk_projekt.Client.{Event, run}
use ipk_projekt.Ids.Sizes.{add_confirmed_msg_id-IsValid, is_message_duplicate-IsValid}
use ipk_projekt.Client.Transitions.{run-At}
use ipk_projekt.Ids.Confirm
use ipk_projekt.Ids.Dedup

length-take : (n : ℕ) (s : Bytes) → n ≤ length s → length (take n s) ≡ n
length-take zero s h = refl
length-take (suc n) [] h = absurd (omega arith)
length-take (suc n) (c ∷ s) h = ap suc (length-take n s (omega arith))

-- A write that returns keeps the size of the memory.
length-store :
    (memory : Bytes) (offset : ℕ) (bytes memory' : Bytes)
    → store memory offset bytes ≡ ok memory'
    → length memory' ≡ length memory
unfolding store
length-store memory offset bytes memory' e = ground (
  arith,
  length-append (take offset memory) (bytes ++ drop (offset + length bytes) memory),
  length-append bytes (drop (offset + length bytes) memory),
  length-drop (offset + length bytes) memory,
  length-take offset memory,
)

-- `display_name` is an array of 20 bytes, `recv_buffer` one of `size` bytes, and the tables are
-- arrays of the sizes that the program believes them to have, with no more ids than cells.
abbrev pub IsSound : ℕ → World → Type 0
IsSound size w =
    (length w.display_name ≡ 20)
    × (length w.recv_buffer ≡ size)
    × Confirm.IsValid w.confirmed
    × Dedup.IsValid w.seen

abbrev sized : ℕ → Arrays
sized size = record {
  Sound = λ d r c s. (length d ≡ 20) × (length r ≡ size) × Confirm.IsValid c × Dedup.IsValid s;
  count_message_lem =
      λ d r c s h. (h.0, h.1, record { sized = h.2.sized; nonempty = h.2.nonempty }, h.3);
  add_confirmed_lem = λ malloc id d r c c' s e h.
      (h.0, h.1, add_confirmed_msg_id-IsValid malloc c c' id h.2 e, h.3);
  duplicate_lem = λ malloc id d r c s s' old e h.
      (h.0, h.1, h.2, is_message_duplicate-IsValid malloc s s' id old h.3 e);
  set_display_name_lem =
      λ text d d' r c s e h. (length-store (replicate 20 0) 0 text d' e, h.1, h.2, h.3);
  fill_buffer_lem =
      λ offset bytes d r r' c s e h. (h.0, length-store r offset bytes r' e ∙ h.1, h.2, h.3);
}

-- Whatever the user enters and the server sends, and whether there is memory or not: as long as the run
-- goes on, the arrays keep their sizes, the sizes that the program keeps of its tables are right, and
-- no more ids count as seen than there are cells.
pub run-IsSound :
    (cfg : Config) (events : List Event) (size : ℕ) (w : World)
    → IsSound size w
    → (run cfg events w).0 ≡ ok tt
    → IsSound size (run cfg events w).1
run-IsSound cfg events size w sound goes_on = (run-At (sized size) cfg events w sound).1
