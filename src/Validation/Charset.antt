-- ===== src/Validation/Charset.antt =====
-- The validators against the table of message parameters in README.md: a length and a set of
-- characters for each parameter.
use ipk_projekt.Validation.{
  every, id_char, secret_char, display_char, content_char, validate_id, validate_secret,
  validate_display_name, validate_message_content, truncate_message_content,
}
use ipk_projekt.Base.{
  ℕ, ◌⊎◌, ◌≤◌, some, ◌≡◌, Bool, length, true, All, ◌↔◌, arith, ◌∷◌, Bool-cases, inl, inr,
  if◌then◌else◌, false, [], take, refl, ltb, ◌+◌, take-all, sym, ap, ◌==◌, ◌||◌,
}
use ipk_projekt.Memory.{Bytes, Malloc}
use ipk_projekt.Deserialize.RoundTrip.{Succeeds}

abbrev pub IsBetween : ℕ → ℕ → ℕ → Type 0
IsBetween lo hi c = (lo ≤ c) × (c ≤ hi)

abbrev pub IsAlnum : ℕ → Type 0
IsAlnum c = IsBetween 48 57 c ⊎ (IsBetween 65 90 c ⊎ IsBetween 97 122 c)

-- `[a-zA-Z0-9_-]`
abbrev pub IsWordChar : ℕ → Type 0
IsWordChar c = IsAlnum c ⊎ ((c ≡ 95) ⊎ (c ≡ 45))

every_iff :
    (test : ℕ → Bool) (P : ℕ → Type 0)
    → ((c : ℕ) → (test c ≡ true) ↔ P c)
    → (s : Bytes) → (every test s ≡ true) ↔ All P s
unfolding every
every_iff test P char [] = ((λ _. tt), (λ _. refl))
every_iff test P char (c ∷ s) = (
  λ h. elim (Bool-cases (test c)) [
    | inl e ↦ ((char c).0 e, (every_iff test P char s).0 (rw e at h))
    | inr e ↦ let e' : false ≡ true = rw e at h in cc
  ],
  λ h. rw ((char c).1 h.0) ((every_iff test P char s).1 h.1),
)

id_char_iff : (c : ℕ) → (id_char c ≡ true) ↔ (IsWordChar c ⊎ (c ≡ 46))
unfolding id_char
id_char_iff c = (ground arith, ground arith)

secret_char_iff : (c : ℕ) → (secret_char c ≡ true) ↔ IsWordChar c
unfolding secret_char
secret_char_iff c = (ground arith, ground arith)

display_char_iff : (c : ℕ) → (display_char c ≡ true) ↔ IsBetween 0x21 0x7E c
unfolding display_char
display_char_iff c = (ground arith, ground arith)

content_char_iff : (c : ℕ) → (content_char c ≡ true) ↔ ((c ≡ 0x0A) ⊎ IsBetween 0x20 0x7E c)
unfolding content_char
content_char_iff c = (ground arith, ground arith)

-- A parameter of 1 to `max` characters, each in the set.
abbrev pub Fits : ℕ → (ℕ → Type 0) → Bytes → Type 0
Fits max P s = (1 ≤ length s) × (length s ≤ max) × All P s

-- The shape of three of the validators.
guarded_iff :
    (max : ℕ) (test : ℕ → Bool) (P : ℕ → Type 0)
    → ((c : ℕ) → (test c ≡ true) ↔ P c)
    → (s : Bytes)
    → ((if length s == 0 || ltb max (length s) then false else every test s) ≡ true) ↔ Fits max P s
guarded_iff max test P char s =
    let (to, from) = every_iff test P char s in (ground (arith, to), ground (arith, from))

-- `validate_id` accepts 1 to 20 characters of `[a-zA-Z0-9_-]` and the full stop, and no other text.
pub validate_id_iff :
    (s : Bytes) → (validate_id (some s) ≡ true) ↔ Fits 20 (λ c. IsWordChar c ⊎ (c ≡ 46)) s
unfolding validate_id
validate_id_iff s = guarded_iff 20 id_char (λ c. IsWordChar c ⊎ (c ≡ 46)) id_char_iff s

-- `validate_secret` accepts 1 to 128 characters of `[a-zA-Z0-9_-]`, and no other text.
pub validate_secret_iff : (s : Bytes) → (validate_secret (some s) ≡ true) ↔ Fits 128 IsWordChar s
unfolding validate_secret
validate_secret_iff s = guarded_iff 128 secret_char IsWordChar secret_char_iff s

-- `validate_display_name` accepts 1 to 20 characters from 0x21 to 0x7E, and no other text.
pub validate_display_name_iff :
    (s : Bytes) → (validate_display_name (some s) ≡ true) ↔ Fits 20 (IsBetween 0x21 0x7E) s
unfolding validate_display_name
validate_display_name_iff s = guarded_iff 20 display_char (IsBetween 0x21 0x7E) display_char_iff s

-- `validate_message_content` accepts the non-empty texts of line feeds and characters from 0x20 to
-- 0x7E, of any length.
pub validate_message_content_iff :
    (s : Bytes)
    → (validate_message_content (some s) ≡ true)
      ↔ ((1 ≤ length s) × All (λ c. (c ≡ 0x0A) ⊎ IsBetween 0x20 0x7E c) s)
unfolding validate_message_content
validate_message_content_iff s =
    let (to, from) =
      every_iff content_char (λ c. (c ≡ 0x0A) ⊎ IsBetween 0x20 0x7E c) content_char_iff s in
    (ground (arith, to), ground (arith, from))

clip : (max : ℕ) (s : Bytes) → take (if ltb max (length s) then max else length s) s ≡ take max s
clip max s = elim (Bool-cases (ltb max (length s))) [
  | inl long ↦ rw long
  | inr fits ↦ rw (fits, take-all (length s) s (omega arith)) (sym (take-all max s (ground arith)))
]

-- With memory, a content comes back cut to its first 60000 characters.
pub truncate_message_content_lem :
    (malloc : Malloc) (s : Bytes)
    → Succeeds malloc
    → truncate_message_content malloc (some s) ≡ some (take 60000 s)
unfolding truncate_message_content
truncate_message_content_lem malloc s roomy =
    rw
      ((roomy ((if ltb 60000 (length s) then 60000 else length s) + 1)).1, truncate_message_content)
      (ap some (clip 60000 s))
