-- ===== src/Args/Numbers.antt =====
-- A number in decimal is read back by the `strtol` of src/args.c.
use Prim.Native.Nat.{ℕ, ◌+◌, suc}
use ipk_projekt.Memory.{Bytes}
use ipk_projekt.Listener.{show_decimal}
use ipk_projekt.Base.{
  ◌+◌, ◌≡◌, ◌%◌, All, true, ◌/◌, Bool-cases, length, arith, ◌++◌, ◌∷◌, ltb, zero, [], ◌<◌, refl,
  ◌*◌, ◌≤◌, inl, ◌-◌, some, inr, All-append, length-append, ◌∙◌, if◌then◌else◌, ap, false, ◌==◌,
  ◌^◌,
}
use ipk_projekt.Strings.{span, skip_spaces, isspace}
use ipk_projekt.Args.{converted, isdigit, digits_value, strtol}

abbrev pub IsDigit : ℕ → Type 0
IsDigit c = isdigit c ≡ true

ones_place-IsDigit : (n : ℕ) → IsDigit (b'0' + n % 10)
ones_place-IsDigit n = ground arith

pub show_decimal-IsDigit : (fuel n : ℕ) → All IsDigit (show_decimal fuel n)
unfolding show_decimal
show_decimal-IsDigit zero n = tt
show_decimal-IsDigit (suc fuel) n = elim (Bool-cases (ltb n 10)) [
  | inl small ↦ rw small (ones_place-IsDigit n, tt)
  | inr large ↦ rw large (
      All-append IsDigit (show_decimal fuel (n / 10)) ((b'0' + n % 10) ∷ [])
        (show_decimal-IsDigit fuel (n / 10)) (ones_place-IsDigit n, tt))
]

digits_value-append :
    (m : ℕ) (s : Bytes) (c : ℕ) → digits_value m (s ++ (c ∷ [])) ≡ digits_value m s * 10 + (c - 48)
digits_value-append m [] c = refl
digits_value-append m (d ∷ s) c = digits_value-append (m * 10 + (d - 48)) s c

-- The fuel covers the digits.
abbrev pub Covers : ℕ → ℕ → Type 0
Covers zero n = n ≡ 0
Covers (suc fuel) n = Covers fuel (n / 10)

digits_value-show_decimal : (fuel n : ℕ) → Covers fuel n → digits_value 0 (show_decimal fuel n) ≡ n
unfolding show_decimal
digits_value-show_decimal zero n h = omega (arith, h)
digits_value-show_decimal (suc fuel) n h = elim (Bool-cases (ltb n 10)) [
  | inl small ↦ rw small (ground (arith, small))
  | inr large ↦
      rw (large, digits_value-append 0 (show_decimal fuel (n / 10)) (b'0' + n % 10))
        (omega (arith, digits_value-show_decimal fuel (n / 10) h))
]

span_digits : (s : Bytes) → All IsDigit s → span isdigit (length s) s ≡ (s, [])
unfolding span
span_digits [] h = refl
span_digits (c ∷ s) h = rw (span_digits s h.1, h.0)

strtol_digits :
    (c : ℕ) (s : Bytes)
    → All IsDigit (c ∷ s)
    → digits_value 0 (c ∷ s) < 65536
    → strtol (c ∷ s) ≡ ((false, digits_value 0 (c ∷ s)), [])
unfolding strtol skip_spaces
strtol_digits c s h small =
    let no_space : isspace c ≡ false = unfold isspace in ground (arith, h.0) in
    let no_minus : (c == 45) ≡ false = ground (arith, h.0) in
    let no_plus : (c == 43) ≡ false = ground (arith, h.0) in
    let no_clamp : ltb (2 ^ 63 - 1) (digits_value 0 (c ∷ s)) ≡ false = ground (arith, small) in
    rw (no_space, no_minus, no_plus, span_digits (c ∷ s) h, no_clamp)

-- A text of digits, one at least, is a number without a sign.
converted_digits :
    (modulus : ℕ) (s : Bytes)
    → All IsDigit s
    → 0 < length s
    → digits_value 0 s < modulus
    → modulus ≤ 65536
    → converted modulus s ≡ some (digits_value 0 s)
unfolding converted
converted_digits modulus [] h n k m = absurd (omega arith)
converted_digits modulus (c ∷ s) h n k m =
    let small : digits_value 0 (c ∷ s) % modulus ≡ digits_value 0 (c ∷ s) = grind (arith, k) in
    rw (strtol_digits c s h (omega (arith, k, m)), small)

show_decimal_nonempty : (fuel n : ℕ) → 0 < length (show_decimal (suc fuel) n)
unfolding show_decimal
show_decimal_nonempty fuel n = omega (
  arith,
  length-append (if ltb n 10 then [] else show_decimal fuel (n / 10)) ((b'0' + n % 10) ∷ []),
)

-- A number below the modulus of its type, 65536 at most, is read back from its decimal digits.
pub converted-show_decimal :
    (modulus n : ℕ) → n < modulus → modulus ≤ 65536 → converted modulus (show_decimal 10 n) ≡ some n
converted-show_decimal modulus n h m =
    let e : digits_value 0 (show_decimal 10 n) ≡ n =
      digits_value-show_decimal 10 n (omega (arith, h, m)) in
    converted_digits modulus (show_decimal 10 n) (show_decimal-IsDigit 10 n)
      (show_decimal_nonempty 9 n) (omega (arith, e)) m
    ∙ ap some e
