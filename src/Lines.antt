-- ===== src/Lines.antt =====
-- The growing `line_buffer` of `tcp_listener` in src/network_tcp.c.
pub mod Growth
use ipk_projekt.Base.{◌>>=◌, ℕ, Result, if◌then◌else◌, ◌==◌, length, ◌++◌, ◌+◌, ok, [], ltb}
use ipk_projekt.Memory.{Malloc, Bytes, or_exit}
use Prim.Native.Nat.{ℕ}
use ipk_projekt.World.{LineBuffer}
use ipk_projekt.Strings.{strcpy}

-- Room for the text and `more` characters, and their NUL: by `malloc` for the first time, by `realloc`
-- when the block is too small.
unfoldable pub reserve : Malloc → ℕ → LineBuffer → Result LineBuffer
reserve malloc more b =
    if b.size == 0
    then (do _ ← or_exit (malloc.alloc (more + 1)); ok (record { text = []; size = more + 1 }))
    else if ltb b.size (length b.text + more + 1)
    then (do
      _ ← or_exit (malloc.alloc (length b.text + more + 1))
      ok (record b { size = length b.text + more + 1 }))
    else ok b

-- `strcat(line_buffer, start)`
unfoldable pub append_line : Malloc → Bytes → LineBuffer → Result LineBuffer
unfolding reserve
append_line malloc start b = do
  r ← reserve malloc (length start) b
  text ← strcpy r.size (r.text ++ start)
  ok (record r { text = text })
