-- ===== src/Text/Tokens.antt =====
-- `Split` over `strtok_r`, against the list of the pieces between delimiters.
use wxdap.Base.{
  ℕ, zero, suc, ◌≡◌, ◌≤◌, ◌<◌, refl, inl, inr, true, false, List, [], ◌∷◌, ◌++◌, arith, Bytes,
  length, All, Lacks, Bool-cases, ◌∙◌, sym, ap,
}
use wxdap.Text.{contains, c_str, skip, span, strtok, push_nonempty, split_loop, split, trim}
use wxdap.Text.Trim.{trim_clean}

pub c_str-Lacks : (s : Bytes) → Lacks 0 s → c_str s ≡ s
unfolding c_str
c_str-Lacks [] h = refl
c_str-Lacks (c ∷ s) h = ground (arith, c_str-Lacks s)

abbrev extend_first : ℕ → List Bytes → List Bytes
extend_first c [] = (c ∷ []) ∷ []
extend_first c (p ∷ ps) = (c ∷ p) ∷ ps

-- The pieces between delimiters, the empty ones too.
pub pieces : Bytes → Bytes → List Bytes
pieces delims [] = [] ∷ []
pieces delims (c ∷ s) = elim (contains delims c) [
  | true ↦ [] ∷ pieces delims s
  | false ↦ extend_first c (pieces delims s)
]

-- The pieces trimmed, without those that are blank.
pub kept : List Bytes → List Bytes
kept [] = []
kept (p ∷ ps) = push_nonempty (trim p) (kept ps)

trim-nil : trim [] ≡ []
trim-nil = trim_clean [] tt tt

kept-nil : (ps : List Bytes) → kept ([] ∷ ps) ≡ kept ps
unfolding kept
kept-nil ps = rw trim-nil

kept-pieces-nil : (delims : Bytes) → kept (pieces delims []) ≡ []
unfolding pieces kept
kept-pieces-nil delims = rw trim-nil

pieces-ne-nil : (delims s : Bytes) → (p : Bytes) × (ps : List Bytes) × (pieces delims s ≡ p ∷ ps)
unfolding pieces
pieces-ne-nil delims [] = ([], [], refl)
pieces-ne-nil delims (c ∷ s) = elim (Bool-cases (contains delims c)) [
  | inl e ↦ ([], pieces delims s, rw (e, pieces))
  | inr e ↦ let (p, ps, h) = pieces-ne-nil delims s in (c ∷ p, ps, rw (e, pieces, h))
]

kept-skip : (delims s : Bytes) → kept (pieces delims (skip delims s)) ≡ kept (pieces delims s)
unfolding pieces skip
kept-skip delims [] = refl
kept-skip delims (c ∷ s) = elim (Bool-cases (contains delims c)) [
  | inl e ↦ rw (e, skip, pieces, kept-nil) (kept-skip delims s)
  | inr e ↦ rw (e, skip)
]

-- The first piece is what `span` takes, and the others are those of its rest, but for one that is
-- blank.
abbrev Behind : Bytes → Bytes → Type 0
Behind delims s =
    (ps : List Bytes) × (pieces delims s ≡ (span delims s).0 ∷ ps)
    × (kept ps ≡ kept (pieces delims (span delims s).1))

span-pieces : (delims s : Bytes) → Behind delims s
unfolding pieces span
span-pieces delims [] = ([], refl, unfold kept in sym (kept-pieces-nil delims))
span-pieces delims (c ∷ s) = elim (Bool-cases (contains delims c)) [
  | inl e ↦ (pieces delims s, rw (e, pieces, span), rw (e, span))
  | inr e ↦ let (ps, h, k) = span-pieces delims s in (ps, rw (e, pieces, span, h), rw (e, span, k))
]

kept-span :
    (delims s : Bytes)
    → kept (pieces delims s)
      ≡ push_nonempty (trim (span delims s).0) (kept (pieces delims (span delims s).1))
unfolding kept
kept-span delims s = let (ps, h, k) = span-pieces delims s in rw (h, kept) (rw k)

length-skip : (delims s : Bytes) → length (skip delims s) ≤ length s
unfolding skip
length-skip delims [] = omega arith
length-skip delims (c ∷ s) = ground (arith, length-skip delims s)

length-span : (delims s : Bytes) → length (span delims s).1 ≤ length s
unfolding span
length-span delims [] = omega arith
length-span delims (c ∷ s) = ground (arith, length-span delims s)

length-span_cons : (delims : Bytes) (c : ℕ) (s : Bytes) → length (span delims (c ∷ s)).1 ≤ length s
unfolding span
length-span_cons delims c s = ground (arith, length-span delims s)

split_loop-kept :
    (fuel : ℕ) (delims s : Bytes)
    → length s < fuel
    → split_loop fuel delims s ≡ kept (pieces delims s)
unfolding split_loop strtok
split_loop-kept zero delims s h = elim h [ ]
split_loop-kept (suc fuel) delims s h =
    go (skip delims s) refl (split_loop-kept fuel delims) ∙ kept-skip delims s
  where
    go :
        (u : Bytes)
        → skip delims s ≡ u
        → ((r : Bytes) → length r < fuel → split_loop fuel delims r ≡ kept (pieces delims r))
        → split_loop (suc fuel) delims s ≡ kept (pieces delims (skip delims s))
    go [] e ih = rw (e, split_loop, strtok) (sym (kept-pieces-nil delims))
    go (c ∷ u) e ih =
        let shorter : length (span delims (c ∷ u)).1 < fuel =
          omega (arith, length-skip delims s, ap length e, length-span_cons delims c u) in
        rw (e, split_loop, strtok, ih _ shorter) (sym (kept-span delims (c ∷ u)))

length-c_str : (s : Bytes) → length (c_str s) < suc (length s)
unfolding c_str
length-c_str [] = omega arith
length-c_str (c ∷ s) = ground (arith, length-c_str s)

-- `Split` is the list of the pieces between delimiters in front of the first NUL, each trimmed, and
-- without those that are blank. So its fuel is enough.
pub split-pieces : (str delims : Bytes) → split str delims ≡ kept (pieces delims (c_str str))
unfolding split
split-pieces str delims = split_loop-kept _ delims (c_str str) (length-c_str str)

module _ (delims : Bytes) where
  -- The text holds no delimiter.
  abbrev pub Free : Bytes → Type 0
  Free = All (λ c. contains delims c ≡ false)

  pub pieces-Free : (p : Bytes) → Free p → pieces delims p ≡ p ∷ []
  unfolding pieces
  pieces-Free [] h = refl
  pieces-Free (c ∷ p) (hc, h) = rw (hc, pieces, pieces-Free p h)

  pub pieces-append :
      (p : Bytes) (d : ℕ) (r : Bytes)
      → Free p
      → contains delims d ≡ true
      → pieces delims (p ++ d ∷ r) ≡ p ∷ pieces delims r
  unfolding pieces
  pieces-append [] d r h e = rw (e, pieces)
  pieces-append (c ∷ p) d r (hc, h) e = rw (hc, pieces, pieces-append p d r h e)

pub kept-end : kept [] ≡ []
unfolding kept
kept-end = refl

pub kept-cons :
    (p : Bytes) (ps : List Bytes) (d : ℕ) (t : Bytes)
    → trim p ≡ d ∷ t
    → kept (p ∷ ps) ≡ (d ∷ t) ∷ kept ps
unfolding kept
kept-cons p ps d t e = rw e
