-- ===== src/Ids.antt =====
-- src/id.c, with the arrays that src/global.h declares for it. An array is the list of its cells;
-- an index past its end is a fault. Sizes stay far below 2^64 and do not wrap.
pub mod Cells
pub mod Dedup
pub mod Confirm
pub mod Sizes
use ipk_projekt.Base.{
  ℕ, List, Result, ◌∷◌, fault, if◌then◌else◌, Bool, ltb, suc, ok, ◌*◌, length, [], false, ◌+◌, zero,
  ◌==◌, set, true, ◌>>=◌, ◌++◌, leb, drop,
}
use ipk_projekt.Memory.{Bytes, Malloc, or_exit}

-- `for (i = 0; i < count; i++) if (cells[i] == msg_id)`: was it found?
unfoldable pub scan : ℕ → List ℕ → ℕ → Result Bool
scan msg_id cells zero = ok false
scan msg_id [] (suc count) = fault
scan msg_id (x ∷ cells) (suc count) =
    let rest = scan msg_id cells count in if x == msg_id then ok true else rest

-- `cells[i] = v`
unfoldable pub write_cell : List ℕ → ℕ → ℕ → Result (List ℕ)
write_cell cells i v = if ltb i (length cells) then ok (set cells i v) else fault

-- A block of memory as an array of `uint16_t`.
abbrev pub cells_of : Bytes → List ℕ
cells_of [] = []
cells_of (low ∷ []) = []
cells_of (low ∷ high ∷ rest) = (high * 256 + low) ∷ cells_of rest

-- `realloc` to `size` cells: the old cells are kept, those behind them hold what the block held.
unfoldable pub realloc_cells : Malloc → List ℕ → ℕ → Result (List ℕ)
realloc_cells malloc cells size = do
  block ← or_exit (malloc.alloc (2 * size))
  ok (cells ++ drop (length cells) (cells_of block))

-- -1 as a `uint16_t`
abbrev pub unset : ℕ
unset = 65535

-- `for (; i < size; i++) cells[i] = -1`
unfoldable pub unset_from : ℕ → List ℕ → List ℕ
unset_from i [] = []
unset_from zero (x ∷ cells) = unset ∷ unset_from zero cells
unset_from (suc i) (x ∷ cells) = x ∷ unset_from i cells

pub record Confirmed : Type 0 where
  pub ids : List ℕ
  pub index : ℕ
  pub array_size : ℕ

pub record Seen : Type 0 where
  pub ids : List ℕ
  pub count : ℕ
  pub array_size : ℕ

-- Twice the size, the new cells unset. Without memory the process ends, when the source has already
-- doubled the size; a result that is an exit holds no table, and nothing reads the size again.
unfoldable pub grow_confirmed : Malloc → Confirmed → Result Confirmed
unfolding realloc_cells unset_from
grow_confirmed malloc c = do
  cells ← realloc_cells malloc c.ids (c.array_size * 2)
  ok (record c { ids = unset_from c.index cells; array_size = c.array_size * 2 })

-- `confirmed_msg_ids[confirmed_msg_ids_index-1] = msg_id`; at index 0 the cell is number SIZE_MAX.
unfoldable pub put_confirmed : ℕ → ℕ → Confirmed → Result Confirmed
unfolding write_cell
put_confirmed zero msg_id c = fault
put_confirmed (suc last) msg_id c = do
  cells ← write_cell c.ids last msg_id
  ok (record c { ids = cells })

unfoldable pub add_confirmed_msg_id : Malloc → Confirmed → ℕ → Result Confirmed
unfolding scan grow_confirmed put_confirmed
add_confirmed_msg_id malloc c msg_id = do
  found ← scan msg_id c.ids c.index
  if found then ok c else do
    c' ← (if leb c.array_size c.index then grow_confirmed malloc c else ok c)
    put_confirmed c'.index msg_id c'

-- `seen_ids[seen_count] = msg_id; seen_count++`
unfoldable pub push_seen : Seen → ℕ → Result Seen
unfolding write_cell
push_seen s msg_id = do
  cells ← write_cell s.ids s.count msg_id
  ok (record s { ids = cells; count = s.count + 1 })

-- Here too the size is doubled before the exit without memory.
unfoldable pub grow_seen : Malloc → Seen → Result Seen
unfolding realloc_cells
grow_seen malloc s = do
  cells ← realloc_cells malloc s.ids (s.array_size * 2)
  ok (record s { ids = cells; array_size = s.array_size * 2 })

unfoldable pub is_message_duplicate : Malloc → Seen → ℕ → Result (Seen × Bool)
unfolding scan push_seen grow_seen
is_message_duplicate malloc s msg_id = do
  found ← scan msg_id s.ids s.count
  if found then ok (s, true) else do
    s' ← (if ltb s.count s.array_size then ok s else grow_seen malloc s)
    pushed ← push_seen s' msg_id
    ok (pushed, false)
