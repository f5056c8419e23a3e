-- ===== src/Strings/Search.antt =====
-- `strstr` for the end of a line.
use Prim.Native.Nat.{ℕ}
use ipk_projekt.Memory.{Bytes}
use ipk_projekt.Base.{
  ℕ, Bool, ◌∷◌, [], ◌≡◌, ◌==◌, if◌then◌else◌, ◌&&◌, some, arith, Option, false, ◌++◌, none, refl,
  length, ◌<◌, Bool-cases, inl, inr, Option-cases, ◌∙◌, subst, All, ◌≢◌, ==_self,
}
use ipk_projekt.Strings.{strstr, put_before, strip_prefix}
use ipk_projekt.Tcp.{crlf}

abbrev starts_crlf : ℕ → ℕ → Bool
starts_crlf c d = c == 13 && d == 10

find_crlf-cons :
    (c d : ℕ) (s : Bytes)
    → strstr crlf (c ∷ d ∷ s)
      ≡ (if starts_crlf c d then some ([], s) else put_before c (strstr crlf (d ∷ s)))
unfolding strstr
find_crlf-cons c d s = ground arith

-- A match stays where it is when more text follows, and what follows it is shorter by two.
pub find_crlf-append :
    (s t : Bytes) {line rest : Bytes}
    → strstr crlf s ≡ some (line, rest)
    → (strstr crlf (s ++ t) ≡ some (line, rest ++ t)) × (length rest < length s)
find_crlf-append [] t h = unfold strstr in cc
find_crlf-append (c ∷ []) t h = unfold strstr in absurd (ground arith)
find_crlf-append (c ∷ d ∷ s) t {line} {rest} h = elim (Bool-cases (starts_crlf c d)) [
  | inl here ↦ ground (arith, h, find_crlf-cons c d s, find_crlf-cons c d (s ++ t))
  | inr later ↦ elim (Option-cases (strstr crlf (d ∷ s))) [
    | inl none_there ↦ ground (arith, h, find_crlf-cons c d s, find_crlf-cons c d (s ++ t))
    | inr ((line', rest'), found) ↦
        let (more, shorter) = find_crlf-append (d ∷ s) t found in
        ground (arith, h, find_crlf-cons c d s, find_crlf-cons c d (s ++ t))
  ]
]

-- Does the text end in CR?
abbrev pub ends_in_cr : Bytes → Bool
ends_in_cr [] = false
ends_in_cr (c ∷ []) = c == 13
ends_in_cr (c ∷ d ∷ s) = ends_in_cr (d ∷ s)

abbrev pub put_all_before : Bytes → Option (Bytes × Bytes) → Option (Bytes × Bytes)
put_all_before s none = none
put_all_before s (some (line, rest)) = some (s ++ line, rest)

put_before-put_all_before :
    (c : ℕ) (s : Bytes) (o : Option (Bytes × Bytes))
    → put_before c (put_all_before s o) ≡ put_all_before (c ∷ s) o
put_before-put_all_before c s none = refl
put_before-put_all_before c s (some (line, rest)) = refl

put_all_before_nil : (o : Option (Bytes × Bytes)) → o ≡ put_all_before [] o
put_all_before_nil none = refl
put_all_before_nil (some (line, rest)) = refl

put_all_before_one :
    (c : ℕ) (o : Option (Bytes × Bytes)) → put_before c o ≡ put_all_before (c ∷ []) o
put_all_before_one c none = refl
put_all_before_one c (some (line, rest)) = refl

-- Without a match, and without half of one at its end, a text only stands before a later match.
pub find_crlf-after :
    (s t : Bytes)
    → strstr crlf s ≡ none
    → ends_in_cr s ≡ false
    → strstr crlf (s ++ t) ≡ put_all_before s (strstr crlf t)
find_crlf-after [] t h e = put_all_before_nil (strstr crlf t)
find_crlf-after (c ∷ []) [] h e = unfold strstr in h
find_crlf-after (c ∷ []) (d ∷ t) h e =
    let no : starts_crlf c d ≡ false = ground arith in
    find_crlf-cons c d t ∙ rw no (put_all_before_one c (strstr crlf (d ∷ t)))
find_crlf-after (c ∷ d ∷ s) t h e =
    let no : starts_crlf c d ≡ false = ground (arith, h, find_crlf-cons c d s) in
    let later : strstr crlf (d ∷ s) ≡ none = ground (arith, h, no, find_crlf-cons c d s) in
    find_crlf-cons c d (s ++ t)
    ∙ rw (no, find_crlf-after (d ∷ s) t later e)
        (put_before-put_all_before c (d ∷ s) (strstr crlf t))

ends_in_cr-cons : (c : ℕ) (s : Bytes) → ends_in_cr (c ∷ s) ≡ false → ends_in_cr s ≡ false
ends_in_cr-cons c [] e = refl
ends_in_cr-cons c (d ∷ s) e = e

pub find_crlf_ends :
    (s : Bytes) {line rest : Bytes}
    → strstr crlf s ≡ some (line, rest)
    → ends_in_cr s ≡ false
    → ends_in_cr rest ≡ false
find_crlf_ends [] h e = unfold strstr in cc
find_crlf_ends (c ∷ []) h e = unfold strstr in absurd (ground arith)
find_crlf_ends (c ∷ d ∷ s) {line} {rest} h e = elim (Bool-cases (starts_crlf c d)) [
  | inl here ↦
      let same : s ≡ rest = ground (arith, h, find_crlf-cons c d s) in
      subst (λ r. ends_in_cr r ≡ false) same (ends_in_cr-cons d s e)
  | inr later ↦ elim (Option-cases (strstr crlf (d ∷ s))) [
    | inl none_there ↦ ground (arith, h, find_crlf-cons c d s)
    | inr ((line', rest'), found) ↦
        let same : rest' ≡ rest = ground (arith, h, find_crlf-cons c d s) in
        subst (λ r. ends_in_cr r ≡ false) same (find_crlf_ends (d ∷ s) found e)
  ]
]

pub ends_in_cr-append :
    (s t : Bytes) → ends_in_cr s ≡ false → ends_in_cr t ≡ false → ends_in_cr (s ++ t) ≡ false
ends_in_cr-append [] t e f = f
ends_in_cr-append (c ∷ []) [] e f = e
ends_in_cr-append (c ∷ []) (d ∷ t) e f = f
ends_in_cr-append (c ∷ d ∷ s) t e f = ends_in_cr-append (d ∷ s) t e f

strip_prefix-append : (prefix rest : Bytes) → strip_prefix prefix (prefix ++ rest) ≡ some rest
unfolding strip_prefix
strip_prefix-append [] rest = refl
strip_prefix-append (p ∷ prefix) rest = rw (==_self p, strip_prefix-append prefix rest)

-- A needle is found behind a text without its first character.
pub find_first :
    (d : ℕ) (ds s rest : Bytes)
    → All (λ c. c ≢ d) s
    → strstr (d ∷ ds) (s ++ (d ∷ (ds ++ rest))) ≡ some (s, rest)
unfolding strstr
find_first d ds [] rest h = rw (==_self d, strip_prefix-append ds rest)
find_first d ds (c ∷ s) rest h =
    let differs : (d == c) ≡ false = ground (arith, h.0) in rw (differs, find_first d ds s rest h.1)

-- The end of a line without CR is found.
pub find_crlf_line :
    (line rest : Bytes)
    → All (λ c. c ≢ 13) line
    → strstr crlf (line ++ (crlf ++ rest)) ≡ some (line, rest)
find_crlf_line line rest h = find_first 13 (10 ∷ []) line rest h

-- No end of a line without CR, and none behind a CR at the end.
pub find_crlf_absent : (s : Bytes) → All (λ c. c ≢ 13) s → strstr crlf s ≡ none
unfolding strstr
find_crlf_absent [] h = refl
find_crlf_absent (c ∷ s) h =
    let differs : (13 == c) ≡ false = ground (arith, h.0) in rw (differs, find_crlf_absent s h.1)

pub find_crlf_half : (s : Bytes) → All (λ c. c ≢ 13) s → strstr crlf (s ++ (13 ∷ [])) ≡ none
unfolding strstr
find_crlf_half [] h = refl
find_crlf_half (c ∷ s) h =
    let differs : (13 == c) ≡ false = ground (arith, h.0) in rw (differs, find_crlf_half s h.1)

pub find_crlf_nil : strstr crlf [] ≡ none
unfolding strstr
find_crlf_nil = refl
