-- ===== src/Decimal/RoundTrip.antt =====
-- `atol` reads what `to_string` writes.
use wxdap.Base.{
  ℕ, zero, suc, ◌+◌, ◌-◌, ◌*◌, ◌/◌, ◌%◌, ◌≡◌, ◌≤◌, ◌<◌, refl, [], ◌∷◌, arith, Bytes, ltb, All,
  Bool-cases, inl, inr, ap, ◌∙◌,
}
use wxdap.Decimal.{pos, long_max, digits, to_string, read_digits, atol, positive}

abbrev pub IsDigit : ℕ → Type 0
IsDigit c = (b'0' ≤ c) × (c ≤ b'9')

-- The text starts with a digit.
abbrev pub StartsDigit : Bytes → Type 0
StartsDigit [] = ⊥
StartsDigit (c ∷ s) = IsDigit c

read_digits-cons :
    (acc c : ℕ) (s : Bytes)
    → IsDigit c
    → read_digits acc (c ∷ s) ≡ read_digits (acc * 10 + (c - b'0')) s
unfolding read_digits
read_digits-cons acc c s h = ground arith

read_digits-digits :
    (fuel n : ℕ) (out : Bytes) → n < fuel → read_digits 0 (digits fuel n out) ≡ read_digits n out
unfolding digits
read_digits-digits zero n out h = elim h [ ]
read_digits-digits (suc fuel) n out h = elim (Bool-cases (ltb n 10)) [
  | inl small ↦
      rw small (
        read_digits-cons 0 (b'0' + n) out (ground arith)
        ∙ ap (λ m. read_digits m out) (omega arith))
  | inr big ↦ rw big (
      read_digits-digits fuel (n / 10) ((b'0' + n % 10) ∷ out) (ground arith)
      ∙ read_digits-cons (n / 10) (b'0' + n % 10) out (omega arith)
      ∙ ap (λ m. read_digits m out) (omega arith))
]

digits-All : (fuel n : ℕ) (out : Bytes) → All IsDigit out → All IsDigit (digits fuel n out)
unfolding digits
digits-All zero n out h = h
digits-All (suc fuel) n out h = elim (Bool-cases (ltb n 10)) [
  | inl small ↦ rw small ((omega arith, ground arith), h)
  | inr big ↦ rw big (digits-All fuel (n / 10) _ ((omega arith, omega arith), h))
]

pub to_string-All : (n : ℕ) → All IsDigit (to_string n)
unfolding to_string
to_string-All n = digits-All (suc n) n [] tt

digits-StartsDigit : (fuel n : ℕ) (out : Bytes) → n < fuel → StartsDigit (digits fuel n out)
unfolding digits
digits-StartsDigit zero n out h = elim h [ ]
digits-StartsDigit (suc fuel) n out h = elim (Bool-cases (ltb n 10)) [
  | inl small ↦ rw small (omega arith, ground arith)
  | inr big ↦ rw big (digits-StartsDigit fuel (n / 10) _ (ground arith))
]

pub to_string-StartsDigit : (n : ℕ) → StartsDigit (to_string n)
unfolding to_string
to_string-StartsDigit n = digits-StartsDigit (suc n) n [] (omega arith)

atol-digits : (s : Bytes) → StartsDigit s → atol s ≡ positive (read_digits 0 s)
unfolding atol
atol-digits [] h = elim h [ ]
atol-digits (c ∷ s) h = ground arith

-- Every length that a `long` can hold is read back from its decimal print.
pub atol-to_string : (n : ℕ) → n ≤ long_max → atol (to_string n) ≡ pos n
atol-to_string n h =
    atol-digits (to_string n) (to_string-StartsDigit n)
    ∙ ap positive (read n)
    ∙ ap pos (omega arith)
  where
    read : (k : ℕ) → read_digits 0 (to_string k) ≡ k
    read k =
        unfold to_string in
        (read_digits-digits (suc k) k [] (omega arith) ∙ (unfold read_digits in refl))
