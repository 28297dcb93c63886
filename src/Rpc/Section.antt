-- ===== src/Rpc/Section.antt =====
-- A whole section of headers in the buffer: where it ends, its lines, and what `ReadHeaders` makes
-- of it, whatever follows.
use wxdap.Base.{
  ℕ, ◌+◌, ◌≡◌, ◌≢◌, refl, sym, ap, ◌∙◌, some, [], ◌∷◌, ◌++◌, map, append_assoc, arith, Bytes, codes,
  length, take-append, length-append, All, All-append, Lacks,
}
use wxdap.Text.{contains, trim}
use wxdap.Text.Trim.{StartsClean, EndsClean, trim_clean, trim-append}
use wxdap.Text.Tokens.{
  c_str-Lacks, pieces, kept, kept-end, kept-cons, split-pieces, Free, pieces-Free, pieces-append,
}
use wxdap.Rpc.{HeaderMap, read_headers, find, end_of_headers}
use wxdap.Rpc.Search.{shift, find-line, find-crlf, find_here}
use wxdap.Rpc.Headers.{
  IsHeader, IsHeaderChar, IsWord, header_line, header_line-IsWord, header_section, insert_all,
  read_lines-insert_all,
}

-- A text of such characters has no NUL, no carriage return and no newline.
chars_Lacks : (s : Bytes) → All IsHeaderChar s → Lacks 0 s × Lacks b'\r' s × Free (codes "\n") s
chars_Lacks [] h = (tt, tt, tt)
chars_Lacks (c ∷ s) ((r, n, z), h) =
    let (a, b, d) = chars_Lacks s h in ((z, a), (r, b), (unfold contains in ground arith, d))

section_no_nul :
    (h : Bytes × Bytes) (hs : HeaderMap) → All IsHeader (h ∷ hs) → Lacks 0 (header_section h hs)
section_no_nul h [] (hh, _) = (chars_Lacks (header_line h) (header_line-IsWord h hh).3).0
section_no_nul h (h' ∷ hs) (hh, rest) =
    All-append _ (header_line h) _ (chars_Lacks (header_line h) (header_line-IsWord h hh).3).0
      (omega arith, (omega arith, section_no_nul h' hs rest))

line_cons : (s : Bytes) → IsWord s → (c : ℕ) × (t : Bytes) × (s ≡ c ∷ t) × (c ≢ b'\r')
line_cons [] w = absurd (w.0 refl)
line_cons (c ∷ t) w = (c, t, refl, w.3.0.0)

section_starts :
    (h : Bytes × Bytes) (hs : HeaderMap)
    → IsHeader h
    → (c : ℕ) × (t : Bytes) × (header_section h hs ≡ c ∷ t) × (c ≢ b'\r')
section_starts h [] hh = line_cons (header_line h) (header_line-IsWord h hh)
section_starts h (h' ∷ hs) hh =
    let (c, t, e, n) = line_cons (header_line h) (header_line-IsWord h hh) in
    (
      c,
      t ++ b'\r' ∷ b'\n' ∷ header_section h' hs,
      ap (λ s. s ++ b'\r' ∷ b'\n' ∷ header_section h' hs) e,
      n,
    )

-- The carriage return behind a line is trimmed.
trim_line : (h : Bytes × Bytes) → IsHeader h → trim (header_line h ++ b'\r' ∷ []) ≡ header_line h
trim_line h hh =
    let w = header_line-IsWord h hh in let (c, t, e, _) = line_cons (header_line h) w in go c t e w
  where
    go :
        (c : ℕ) (t : Bytes)
        → header_line h ≡ c ∷ t
        → IsWord (header_line h)
        → trim (header_line h ++ b'\r' ∷ []) ≡ header_line h
    go c t e w =
        let starts : StartsClean (c ∷ t) = rw e at w.1 in
        let ends : EndsClean (c ∷ t) = rw e at w.2 in
        rw e (trim-append c t b'\r' starts ends (unfold contains in refl))

cut_line :
    (h h' : Bytes × Bytes) (hs : HeaderMap)
    → IsHeader h
    → pieces (codes "\n") (header_section h (h' ∷ hs))
      ≡ (header_line h ++ b'\r' ∷ []) ∷ pieces (codes "\n") (header_section h' hs)
cut_line h h' hs hh =
    ap (pieces (codes "\n"))
      (sym (append_assoc (header_line h) (b'\r' ∷ []) (b'\n' ∷ header_section h' hs)))
    ∙ pieces-append (codes "\n") (header_line h ++ b'\r' ∷ []) b'\n' (header_section h' hs)
        (All-append _ (header_line h) _ (chars_Lacks (header_line h) (header_line-IsWord h hh).3).2
          (unfold contains in refl, tt))
        (unfold contains in refl)

-- The lines of a section.
section_lines :
    (h : Bytes × Bytes) (hs : HeaderMap)
    → All IsHeader (h ∷ hs)
    → kept (pieces (codes "\n") (header_section h hs)) ≡ map header_line (h ∷ hs)
section_lines h [] (hh, _) =
    let w = header_line-IsWord h hh in
    let (c, t, e, _) = line_cons (header_line h) w in
    rw
      (
        pieces-Free (codes "\n") (header_line h) (chars_Lacks (header_line h) w.3).2,
        kept-cons (header_line h) [] c t (trim_clean (header_line h) w.1 w.2 ∙ e),
        kept-end,
      )
      (rw e)
section_lines h (h' ∷ hs) (hh, rest) =
    let w = header_line-IsWord h hh in
    let (c, t, e, _) = line_cons (header_line h) w in
    rw
      (
        cut_line h h' hs hh,
        kept-cons (header_line h ++ b'\r' ∷ []) _ c t (trim_line h hh ∙ e),
        section_lines h' hs rest,
      )
      (rw e)

pub find-section :
    (h : Bytes × Bytes) (hs : HeaderMap) (rest : Bytes)
    → All IsHeader (h ∷ hs)
    → find end_of_headers (header_section h hs ++ (end_of_headers ++ rest))
      ≡ some (length (header_section h hs))
find-section h [] rest (hh, _) =
    find-line (header_line h) _ (chars_Lacks (header_line h) (header_line-IsWord h hh).3).1
    ∙ ap (shift (length (header_line h))) (find_here rest)
    ∙ ap some (omega arith)
find-section h (h' ∷ hs) rest (hh, more) =
    let (c, t, e, n) = section_starts h' hs more.0 in
    ap (find end_of_headers) (append_assoc (header_line h) _ (end_of_headers ++ rest))
    ∙ find-line (header_line h) _ (chars_Lacks (header_line h) (header_line-IsWord h hh).3).1
    ∙ ap (shift (length (header_line h)))
        (next c t e n ∙ ap (shift 2) (find-section h' hs rest more))
    ∙ ap some
        (omega (arith, length-append {0} (header_line h) (b'\r' ∷ b'\n' ∷ header_section h' hs)))
  where
    next :
        (c : ℕ) (t : Bytes)
        → header_section h' hs ≡ c ∷ t
        → c ≢ b'\r'
        → find end_of_headers (b'\r' ∷ b'\n' ∷ (header_section h' hs ++ (end_of_headers ++ rest)))
          ≡ shift 2 (find end_of_headers (header_section h' hs ++ (end_of_headers ++ rest)))
    next c t e n = rw e (find-crlf c (t ++ (end_of_headers ++ rest)) n)

-- `ReadHeaders` finds the section and makes the map of its headers, whatever follows.
pub read_headers-section :
    (h : Bytes × Bytes) (hs : HeaderMap) (rest : Bytes)
    → All IsHeader (h ∷ hs)
    → read_headers (record { buffer = header_section h hs ++ (end_of_headers ++ rest) })
      ≡ some (insert_all (h ∷ hs) [], length (header_section h hs) + 4)
unfolding read_headers
read_headers-section h hs rest hh = rw (
  find-section h hs rest hh,
  read_headers,
  take-append (header_section h hs) (end_of_headers ++ rest),
  split-pieces (header_section h hs) (codes "\n"),
  c_str-Lacks (header_section h hs) (section_no_nul h hs hh),
  section_lines h hs hh,
  read_lines-insert_all (h ∷ hs) [] hh,
)
