-- ===== src/Validation.antt =====
-- src/validation.c. A `char *` is `none` for NULL and otherwise the text that it points to.
-- Bytes from 128 on are negative as a `char`, or above every bound: all the tests refuse them.
use ipk_projekt.Base.{
  ℕ, Bool, Option, true, ◌||◌, ◌==◌, false, some, leb, not, if◌then◌else◌, length, ◌&&◌, ◌∷◌, ltb,
  [], none, ◌+◌, take,
}
use ipk_projekt.Memory.{Bytes, Malloc}
pub mod Charset

abbrev pub max_username_len : ℕ
max_username_len = 20

abbrev pub max_channel_id_len : ℕ
max_channel_id_len = 20

abbrev pub max_secret_len : ℕ
max_secret_len = 128

abbrev pub max_display_name_len : ℕ
max_display_name_len = 20

abbrev pub max_message_content_len : ℕ
max_message_content_len = 60000

within : ℕ → ℕ → ℕ → Bool
within lo hi c = leb lo c && leb c hi

-- `isalnum` in the C locale, in which the program runs.
unfoldable pub isalnum : ℕ → Bool
unfolding within
isalnum c = within b'0' b'9' c || within b'A' b'Z' c || within b'a' b'z' c

-- The loops return false at the first character that the test refuses.
unfoldable pub every : (ℕ → Bool) → Bytes → Bool
every test [] = true
every test (c ∷ s) = if test c then every test s else false

unfoldable pub id_char : ℕ → Bool
unfolding isalnum
id_char c = isalnum c || c == b'_' || c == b'-' || c == b'.'

unfoldable pub secret_char : ℕ → Bool
unfolding isalnum
secret_char c = isalnum c || c == b'_' || c == b'-'

unfoldable pub display_char : ℕ → Bool
display_char c = not (ltb c 0x21 || ltb 0x7E c)

unfoldable pub content_char : ℕ → Bool
content_char c = c == 0x0A || c == 0x20 || (leb 0x21 c && leb c 0x7E)

unfoldable pub validate_id : Option Bytes → Bool
unfolding every
validate_id none = false
validate_id (some id) =
    if length id == 0 || ltb max_username_len (length id) then false else every id_char id

unfoldable pub validate_secret : Option Bytes → Bool
unfolding every
validate_secret none = false
validate_secret (some secret) =
    if length secret == 0 || ltb max_secret_len (length secret)
    then false
    else every secret_char secret

unfoldable pub validate_display_name : Option Bytes → Bool
unfolding every
validate_display_name none = false
validate_display_name (some display_name) =
    if length display_name == 0 || ltb max_display_name_len (length display_name)
    then false
    else every display_char display_name

unfoldable pub validate_message_content : Option Bytes → Bool
unfolding every
validate_message_content none = false
validate_message_content (some content) =
    if length content == 0 then false else every content_char content

-- `malloc(truncated_len + 1)`, then `strncpy` of `truncated_len` characters and the NUL. NULL if the
-- content is NULL or there is no memory.
unfoldable pub truncate_message_content : Malloc → Option Bytes → Option Bytes
truncate_message_content malloc none = none
truncate_message_content malloc (some content) =
    let content_len : ℕ = length content in
    let truncated_len : ℕ =
      if ltb max_message_content_len content_len then max_message_content_len else content_len in
    elim (malloc.alloc (truncated_len + 1)) [
      | none ↦ none
      | some block ↦ some (take truncated_len content)
    ]
