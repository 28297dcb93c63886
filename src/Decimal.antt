-- ===== src/Decimal.antt =====
-- `std::to_string` of a `size_t` and `std::atol`, as dap/JsonRPC.hpp, dap/JsonRPC.cpp and
-- dap/ConnectionString.cpp use them. A `long` has 64 bits. Out of its range the C standard leaves
-- `atol` open; here it stops at the bounds, as `strtol` does, by which C libraries implement it.
pub mod RoundTrip
use wxdap.Base.{
  ◌≡◌, refl, ◌<◌, ◌≤◌, arith, ℕ, zero, suc, ◌+◌, ◌-◌, ◌*◌, ◌/◌, ◌%◌, ◌^◌, min, Bool, true, false,
  ◌&&◌, ◌||◌, [], ◌∷◌, Bytes, ltb, leb, ◌==◌, if◌then◌else◌,
}

-- `negsuc n` is -(n + 1).
pub data ℤ : Type 0 where
  pos : ℕ → ℤ
  negsuc : ℕ → ℤ

abbrev pub long_max : ℕ
long_max = 2 ^ 63 - 1

unfoldable pub digits : ℕ → ℕ → Bytes → Bytes
digits zero n out = out
digits (suc fuel) n out =
    let more = digits fuel (n / 10) ((b'0' + n % 10) ∷ out) in
    if ltb n 10 then (b'0' + n) ∷ out else more

-- The fuel is enough: each round divides by ten.
unfoldable pub to_string : ℕ → Bytes
unfolding digits
to_string n = digits (suc n) n []

abbrev pub is_digit : ℕ → Bool
is_digit c = leb b'0' c && leb c b'9'

-- `isspace` in the C locale.
abbrev pub is_space : ℕ → Bool
is_space c = (c == b' ') || (leb 9 c && leb c 13)

unfoldable pub read_digits : ℕ → Bytes → ℕ
read_digits acc [] = acc
read_digits acc (c ∷ s) = elim (is_digit c) [
  | true ↦ read_digits (acc * 10 + (c - b'0')) s
  | false ↦ acc
]

abbrev pub positive : ℕ → ℤ
positive n = pos (min n long_max)

abbrev pub negative : ℕ → ℤ
negative zero = pos 0
negative (suc n) = negsuc (min n long_max)

unfoldable pub read_signed : Bytes → ℤ
unfolding read_digits
read_signed [] = pos 0
read_signed (c ∷ s) =
    if c == b'-'
    then negative (read_digits 0 s)
    else if c == b'+'
    then positive (read_digits 0 s)
    else positive (read_digits 0 (c ∷ s))

unfoldable pub atol : Bytes → ℤ
unfolding read_signed
atol [] = pos 0
atol (c ∷ s) = elim (is_space c) [ true ↦ atol s | false ↦ read_signed (c ∷ s) ]

-- The conversion of a `size_t` to `int`.
unfoldable pub int_of_size : ℕ → ℤ
int_of_size n =
    let low = n % 4294967296 in if ltb low 2147483648 then pos low else negsuc (4294967295 - low)

-- `i - n` on `int`, for an `n` that is not negative.
unfoldable pub minus : ℤ → ℕ → ℤ
minus (pos m) n = if leb n m then pos (m - n) else negsuc (n - m - 1)
minus (negsuc m) n = negsuc (m + n)

pub int_of_size_small : (n : ℕ) → n < 2147483648 → int_of_size n ≡ pos n
unfolding int_of_size
int_of_size_small n h =
    let e : n % 4294967296 ≡ n = omega arith in
    let t : ltb n 2147483648 ≡ true = ground arith in rw (e, t) refl

pub minus_pos : (m n : ℕ) → n ≤ m → minus (pos m) n ≡ pos (m - n)
unfolding minus
minus_pos m n h = let t : leb n m ≡ true = ground arith in rw (t, minus) refl
