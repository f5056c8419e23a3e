-- ===== src/Commands/Rename.antt =====
-- `/rename` with a valid name: src/cmd_rename.c, and `char display_name[20]` of src/main.c.
use ipk_projekt.Commands.{
  cmd_rename, strtok, after_token, token, set_display_name, strtok_next, next_token, drop_spaces,
  pointed,
}
use ipk_projekt.Memory.{Bytes, store, IsText, c_str}
use ipk_projekt.Base.{
  ◌≡◌, All, length, ◌∷◌, [], fault, arith, ◌==◌, ◌≤◌, ok, leb, some, false, ◌++◌, refl, take-all,
  length-append, drop, ◌∙◌, replicate, length-replicate, append_assoc, length-drop, ℕ, ap, ◌+◌,
}
use ipk_projekt.World.{World}
use ipk_projekt.Validation.Charset.{Fits, IsBetween, validate_display_name_iff}
use ipk_projekt.Memory.Laws.{store-append, c_str-text}

abbrev pub IsName : Bytes → Type 0
IsName s = All (IsBetween 0x21 0x7E) s

token_word : (s : Bytes) → IsName s → token s ≡ s
unfolding token
token_word [] h = refl
token_word (c ∷ s) (p, h) = let no : (c == 32) ≡ false = ground arith in rw (no, token_word s h)

after_token_word : (s : Bytes) → IsName s → after_token s ≡ []
unfolding after_token
after_token_word [] h = refl
after_token_word (c ∷ s) (p, h) =
    let no : (c == 32) ≡ false = ground arith in rw (no, after_token_word s h)

-- `strtok` takes the whole of a text without spaces.
pub strtok_word :
    (s : Bytes) (w : World)
    → IsName s
    → 1 ≤ length s
    → strtok s w ≡ (ok (some s), record w { strtok_rest = [] })
unfolding strtok next_token drop_spaces
strtok_word [] w h n = absurd (omega arith)
strtok_word (c ∷ s) w (p, h) n =
    let no : (c == 32) ≡ false = ground arith in
    rw (no, token_word (c ∷ s) (p, h), after_token_word (c ∷ s) (p, h))

-- What is left of `/rename` with a valid name.
rename_valid :
    (name : Bytes) (w : World)
    → Fits 20 (IsBetween 0x21 0x7E) name
    → w.strtok_rest ≡ name
    → cmd_rename w ≡ set_display_name name (record (pointed w) { strtok_rest = [] })
unfolding cmd_rename strtok_next
rename_valid name w fits e =
    let read : strtok w.strtok_rest (pointed w)
        ≡ (ok (some name), record (pointed w) { strtok_rest = [] }) =
      ap (λ s. strtok s (pointed w)) e ∙ strtok_word name (pointed w) fits.2 fits.0 in
    rw (read, take-all 20 name fits.1, (validate_display_name_iff name).1 fits)

pub name-IsText : (s : Bytes) → IsName s → IsText s
name-IsText [] h = tt
name-IsText (c ∷ s) (p, h) = ((λ z. omega arith), name-IsText s h)

-- A valid name of 19 characters or fewer becomes the display name: it is read back from the array,
-- which keeps its 20 bytes, and nothing else changes but the rest of the line.
pub cmd_rename_short :
    (name : Bytes) (w : World)
    → Fits 19 (IsBetween 0x21 0x7E) name
    → w.strtok_rest ≡ name
    → (array : Bytes) × (cmd_rename w
        ≡ (ok tt, record (pointed w) { strtok_rest = []; display_name = array }))
      × (c_str array ≡ ok name)
      × (length array ≡ 20)
unfolding set_display_name
cmd_rename_short name w fits e = (
  (name ++ (0 ∷ [])) ++ drop (length (name ++ (0 ∷ []))) (replicate 20 0),
  rename_valid name w (fits.0, omega (arith, fits.1), fits.2) e
      ∙ rw (
          store-append [] (replicate 20 0) (name ++ (0 ∷ []))
            (omega (arith, fits.1, length-append name (0 ∷ []), length-replicate {A = ℕ} 20 0))),
  rw append_assoc (
      c_str-text name (drop (length (name ++ (0 ∷ []))) (replicate 20 0))
        (name-IsText name fits.2)),
  omega (
    arith,
    fits.1,
    length-append name (0 ∷ []),
    length-append (name ++ (0 ∷ [])) (drop (length (name ++ (0 ∷ []))) (replicate 20 0)),
    length-drop {A = ℕ} (length (name ++ (0 ∷ []))) (replicate 20 0),
  ),
)

array_too_short :
    (name : Bytes) → length name ≡ 20 → store (replicate 20 0) 0 (name ++ (0 ∷ [])) ≡ fault
unfolding store
array_too_short name n =
    let long : leb (0 + length (name ++ (0 ∷ []))) 20 ≡ false =
      ground (arith, length-append name (0 ∷ []), n) in
    rw long

-- A valid name of 20 characters is written past the array of 20 bytes, with its NUL.
pub cmd_rename_overflow :
    (name : Bytes) (w : World)
    → IsName name
    → length name ≡ 20
    → w.strtok_rest ≡ name
    → cmd_rename w ≡ (fault, record (pointed w) { strtok_rest = [] })
unfolding set_display_name
cmd_rename_overflow name w h n e =
    rename_valid name w (omega (arith, n), omega (arith, n), h) e ∙ rw (array_too_short name n)
