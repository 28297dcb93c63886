-- ===== src/Rpc/Search.antt =====
-- `std::string::find` of a string: the first place, whatever follows; the end of the headers.
use wxdap.Base.{
  ℕ, ◌+◌, ◌≡◌, ◌≢◌, ◌≤◌, refl, inl, inr, true, Option, none, some, [], ◌∷◌, ◌++◌, arith, Bytes,
  length, Lacks, Option-cases, ap, ◌∙◌,
}
use wxdap.Rpc.{starts, find, end_of_headers}

length-starts : (pat s : Bytes) → starts pat s ≡ true → length pat ≤ length s
unfolding starts
length-starts [] s h = omega arith
length-starts (p ∷ pat) [] h = cc
length-starts (p ∷ pat) (c ∷ s) h = ground (arith, length-starts pat s)

starts-append : (pat s t : Bytes) → length pat ≤ length s → starts pat (s ++ t) ≡ starts pat s
unfolding starts
starts-append [] s t h = refl
starts-append (p ∷ pat) [] t h = absurd (omega arith)
starts-append (p ∷ pat) (c ∷ s) t h = ground (arith, starts-append pat s t)

-- A place that is found leaves room for the text.
pub find_room : (pat s : Bytes) (n : ℕ) → find pat s ≡ some n → n + length pat ≤ length s
unfolding find
find_room pat [] n h = ground (arith, length-starts pat [])
find_room pat (c ∷ s) n h = elim (Option-cases (find pat s)) [
  | inl e ↦ ground (arith, length-starts pat (c ∷ s))
  | inr (m, e) ↦ ground (arith, length-starts pat (c ∷ s), find_room pat s m e)
]

find-nil : (t : Bytes) → find [] t ≡ some 0
unfolding find
find-nil [] = refl
find-nil (c ∷ t) = refl

find-append_nil : (pat t : Bytes) (n : ℕ) → find pat [] ≡ some n → find pat t ≡ some n
unfolding find
find-append_nil [] t n h = find-nil t ∙ h
find-append_nil (p ∷ pat) t n h = cc

-- What follows does not change the first place.
pub find-append : (pat s t : Bytes) (n : ℕ) → find pat s ≡ some n → find pat (s ++ t) ≡ some n
unfolding find
find-append pat [] t n h = find-append_nil pat t n h
find-append pat (c ∷ s) t n h =
    let fits : length pat ≤ length (c ∷ s) = omega (arith, find_room pat (c ∷ s) n h) in
    elim (Option-cases (find pat s)) [
      | inl e ↦ ground (arith, starts-append pat (c ∷ s) t fits)
      | inr (m, e) ↦ ground (arith, starts-append pat (c ∷ s) t fits, find-append pat s t m e)
    ]

abbrev pub shift : ℕ → Option ℕ → Option ℕ
shift k none = none
shift k (some n) = some (k + n)

find_other :
    (c : ℕ) (s : Bytes) → c ≢ b'\r' → find end_of_headers (c ∷ s) ≡ shift 1 (find end_of_headers s)
unfolding find
find_other c s h = ground arith

shift-shift : (j k : ℕ) (o : Option ℕ) → shift j (shift k o) ≡ shift (j + k) o
shift-shift j k none = refl
shift-shift j k (some n) = ap some (omega arith)

-- The search goes past text without a carriage return,
pub find-line :
    (line s : Bytes)
    → Lacks b'\r' line
    → find end_of_headers (line ++ s) ≡ shift (length line) (find end_of_headers s)
find-line [] s h = shift_zero (find end_of_headers s)
  where
    shift_zero : (o : Option ℕ) → o ≡ shift 0 o
    shift_zero none = refl
    shift_zero (some n) = ap some (omega arith)
find-line (c ∷ line) s (hc, h) =
    find_other c (line ++ s) hc
    ∙ ap (shift 1) (find-line line s h)
    ∙ shift-shift 1 (length line) (find end_of_headers s)
    ∙ ap (λ k. shift k (find end_of_headers s)) (omega arith)

-- and past the end of a line, if another line follows.
pub find-crlf :
    (c : ℕ) (s : Bytes)
    → c ≢ b'\r'
    → find end_of_headers (b'\r' ∷ b'\n' ∷ c ∷ s) ≡ shift 2 (find end_of_headers (c ∷ s))
unfolding find
find-crlf c s h = ground arith

pub find_here : (s : Bytes) → find end_of_headers (end_of_headers ++ s) ≡ some 0
unfolding find
find_here s = refl
