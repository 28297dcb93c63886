-- ===== src/Rpc/Headers.antt =====
-- `ReadHeaders` on a section of well-formed headers.
use wxdap.Base.{
  ℕ, ◌≡◌, ◌≢◌, refl, ◌∙◌, inl, inr, false, none, some, List, [], ◌∷◌, ◌++◌, map, arith, Bytes,
  bytes_eq, eq_of_bytes_eq, if◌then◌else◌, All, All-append, Lacks, Option-cases, Bool-cases,
}
use wxdap.Text.{contains}
use wxdap.Text.Chop.{before_first-append, after_first-append}
use wxdap.Text.Trim.{StartsClean, EndsClean, trim_clean, trim-cons}
use wxdap.Rpc.{HeaderMap, lookup, insert, read_lines}

-- A character of a header's name or value: no line end and no NUL.
abbrev pub IsHeaderChar : ℕ → Type 0
IsHeaderChar c = (c ≢ b'\r') × (c ≢ b'\n') × (c ≢ 0)

-- A name or value: not empty, and with no blank at either end.
abbrev pub IsWord : Bytes → Type 0
IsWord s = (s ≢ []) × StartsClean s × EndsClean s × All IsHeaderChar s

-- A name holds no colon.
abbrev pub IsHeader : Bytes × Bytes → Type 0
IsHeader h = IsWord h.0 × Lacks b':' h.0 × IsWord h.1

abbrev pub header_line : Bytes × Bytes → Bytes
header_line h = h.0 ++ b':' ∷ b' ' ∷ h.1

-- The headers as they stand on the wire, without the empty line at their end.
abbrev pub header_section : (Bytes × Bytes) → HeaderMap → Bytes
header_section h [] = header_line h
header_section h (h' ∷ hs) = header_line h ++ b'\r' ∷ b'\n' ∷ header_section h' hs

-- The map that the headers make.
abbrev pub insert_all : HeaderMap → HeaderMap → HeaderMap
insert_all [] m = m
insert_all ((k, v) ∷ hs) m = insert_all hs (insert k v m)

lookup-append :
    (j : Bytes) (m n : HeaderMap)
    → lookup j (m ++ n) ≡ elim (lookup j m) [ none ↦ lookup j n | some v ↦ some v ]
unfolding lookup
lookup-append j [] n = refl
lookup-append j ((k, v) ∷ m) n = ground (arith, lookup-append j m n)

lookup-insert_found :
    (j k v w : Bytes) (m : HeaderMap) → lookup j m ≡ some w → lookup j (insert k v m) ≡ some w
unfolding insert
lookup-insert_found j k v w m h = ground (arith, lookup-append j m ((k, v) ∷ []))

lookup_same :
    (j k w : Bytes) (m : HeaderMap) → lookup j m ≡ none → lookup k m ≡ some w → bytes_eq k j ≡ false
lookup_same j k w m h e = elim (Bool-cases (bytes_eq k j)) [
  | inl eq ↦ let p : k ≡ j = eq_of_bytes_eq k j eq in cc
  | inr ne ↦ ne
]

lookup-insert_new :
    (j k v : Bytes) (m : HeaderMap)
    → lookup j m ≡ none
    → lookup j (insert k v m) ≡ (if bytes_eq k j then some v else none)
unfolding insert lookup
lookup-insert_new j k v m h = elim (Option-cases (lookup k m)) [
  | inl e ↦ ground (arith, lookup-append j m ((k, v) ∷ []))
  | inr (w, e) ↦ ground (arith, lookup_same j k w m h e)
]

-- `unordered_map::insert` keeps what is there: the first of the headers of a name counts.
pub lookup-insert_all :
    (j : Bytes) (hs m : HeaderMap)
    → lookup j (insert_all hs m) ≡ elim (lookup j m) [ none ↦ lookup j hs | some v ↦ some v ]
unfolding lookup
lookup-insert_all j [] m = ground arith
lookup-insert_all j ((k, v) ∷ hs) m = elim (Option-cases (lookup j m)) [
  | inl e ↦ ground (arith, lookup-insert_all j hs (insert k v m), lookup-insert_new j k v m e)
  | inr (w, e) ↦
      ground (arith, lookup-insert_all j hs (insert k v m), lookup-insert_found j k v w m e)
]

clean-cons : (s : Bytes) → IsWord s → (d : ℕ) × (t : Bytes) × (s ≡ d ∷ t)
clean-cons [] h = absurd (h.0 refl)
clean-cons (d ∷ t) h = (d, t, refl)

StartsClean-append : (s t : Bytes) → s ≢ [] → StartsClean s → StartsClean (s ++ t)
StartsClean-append [] t n h = absurd (n refl)
StartsClean-append (c ∷ s) t n h = h

EndsClean-append : (s t : Bytes) → t ≢ [] → EndsClean t → EndsClean (s ++ t)
EndsClean-append [] t n h = h
EndsClean-append (c ∷ []) [] n h = absurd (n refl)
EndsClean-append (c ∷ []) (d ∷ t) n h = h
EndsClean-append (c ∷ d ∷ s) t n h = EndsClean-append (d ∷ s) t n h

-- A header's line has no blank at its ends and no line end within.
pub header_line-IsWord : (h : Bytes × Bytes) → IsHeader h → IsWord (header_line h)
header_line-IsWord (k, v) (word, colon, value) = (
  nonempty k,
  StartsClean-append k _ word.0 word.1,
  EndsClean-append k _ (λ e. cc) (ends v value.0 value.2),
  All-append IsHeaderChar k _ word.3 (omega arith, (omega arith, value.3)),
)
  where
    nonempty : (s : Bytes) → s ++ b':' ∷ b' ' ∷ v ≢ []
    nonempty [] = λ e. cc
    nonempty (c ∷ s) = λ e. cc

    ends : (s : Bytes) → s ≢ [] → EndsClean s → EndsClean (b':' ∷ b' ' ∷ s)
    ends [] n e = absurd (n refl)
    ends (c ∷ s) n e = e

read_lines_step :
    (h : Bytes × Bytes) (lines : List Bytes) (m : HeaderMap)
    → IsHeader h
    → read_lines (header_line h ∷ lines) m ≡ read_lines lines (insert h.0 h.1 m)
unfolding read_lines
read_lines_step h lines m (word, colon, value) =
    let line = header_line-IsWord h (word, colon, value) in
    rw (
      trim_clean (header_line h) line.1 line.2,
      before_first-append b':' h.0 (b' ' ∷ h.1) colon,
      after_first-append b':' h.0 (b' ' ∷ h.1) colon,
      trim_clean h.0 word.1 word.2,
      trim-cons b' ' h.1 (unfold contains in refl) value.1 value.2,
    )

pub read_lines-insert_all :
    (hs m : HeaderMap) → All IsHeader hs → read_lines (map header_line hs) m ≡ insert_all hs m
read_lines-insert_all [] m h = unfold read_lines in refl
read_lines-insert_all ((k, v) ∷ hs) m (hh, h) =
    read_lines_step (k, v) (map header_line hs) m hh ∙ read_lines-insert_all hs (insert k v m) h
