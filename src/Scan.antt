-- ===== src/Scan.antt =====
-- The `sscanf` of `process_tcp_reply_message` in src/network_tcp.c.
use ipk_projekt.Strings.{strip_prefix, skip_spaces, scan_word, isspace}
use ipk_projekt.Base.{Option, some, none, codes, not, ◌==◌, ◌||◌, length}
use ipk_projekt.Memory.{Bytes}

infixl 5 ◌>>=◌
abbrev ◌>>=◌ : {A B : Type 0} → Option A → (A → Option B) → Option B
none >>= f = none
some a >>= f = f a

-- `sscanf(message, "REPLY %3s IS %[^\r\n]", result, content)` with both values assigned.
unfoldable pub scan_reply : Bytes → Option (Bytes × Bytes)
unfolding strip_prefix skip_spaces scan_word isspace
scan_reply message = do
  after_keyword ← strip_prefix (codes "REPLY") message
  (result, after_result) ← scan_word (λ c. not (isspace c)) 3 (skip_spaces after_keyword)
  after_is ← strip_prefix (codes "IS") (skip_spaces after_result)
  let text = skip_spaces after_is
  (content, rest) ← scan_word (λ c. not (c == 13 || c == 10)) (length text) text
  some (result, content)
