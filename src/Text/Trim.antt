-- ===== src/Text/Trim.antt =====
-- `Trim` and `Rtrim`.
use wxdap.Base.{
  ℕ, ◌≡◌, refl, ◌⊎◌, inl, inr, true, false, [], ◌∷◌, ◌++◌, arith, Bytes, if◌then◌else◌, ap, ◌∙◌,
  take, All, Option-cases, Bool-cases,
}
use wxdap.Text.{contains, find_first_not_of, find_last_not_of, erase_front, blanks, rtrim, trim}

abbrev pub IsBlank : ℕ → Type 0
IsBlank c = contains blanks c ≡ true

abbrev pub StartsClean : Bytes → Type 0
StartsClean [] = Unit
StartsClean (c ∷ s) = contains blanks c ≡ false

abbrev pub EndsClean : Bytes → Type 0
EndsClean [] = Unit
EndsClean (c ∷ []) = contains blanks c ≡ false
EndsClean (c ∷ d ∷ s) = EndsClean (d ∷ s)

ltrim : Bytes → Bytes
ltrim s = erase_front (find_first_not_of blanks s) s

ltrim-blank : (c : ℕ) (s : Bytes) → IsBlank c → ltrim (c ∷ s) ≡ ltrim s
unfolding ltrim find_first_not_of erase_front
ltrim-blank c s h = ground arith

ltrim_clean : (s : Bytes) → StartsClean s → ltrim s ≡ s
unfolding ltrim find_first_not_of erase_front
ltrim_clean [] h = refl
ltrim_clean (c ∷ s) h = ground arith

-- What is left behind some blanks.
abbrev LeftOf : Bytes → Bytes → Type 0
LeftOf s t = StartsClean t × ((l : Bytes) × All IsBlank l × (s ≡ l ++ t))

ltrim_lem : (s : Bytes) → LeftOf s (ltrim s)
ltrim_lem [] = rw (ltrim_clean [] tt) (tt, ([], tt, refl))
ltrim_lem (c ∷ s) = extend (ltrim_lem s) (Bool-cases (contains blanks c))
  where
    extend :
        LeftOf s (ltrim s)
        → (contains blanks c ≡ true) ⊎ (contains blanks c ≡ false)
        → LeftOf (c ∷ s) (ltrim (c ∷ s))
    extend _ (inr solid) = rw (ltrim_clean (c ∷ s) solid) (solid, ([], tt, refl))
    extend (h, (l, b, e)) (inl blank) = rw (ltrim-blank c s blank) (h, (c ∷ l, (blank, b), cc))

-- The two cases of `rtrim` on a longer text: what follows is blank, or not.
rtrim-cons :
    (c : ℕ) (s : Bytes)
    → ((rtrim s ≡ []) × (rtrim (c ∷ s) ≡ (if contains blanks c then [] else c ∷ [])))
      ⊎ ((d : ℕ) × (t : Bytes) × (rtrim s ≡ d ∷ t) × (rtrim (c ∷ s) ≡ c ∷ d ∷ t))
unfolding rtrim
rtrim-cons c [] = inl (refl, ground arith)
rtrim-cons c (d ∷ s) = elim (Option-cases (find_last_not_of blanks (d ∷ s))) [
  | inl e ↦ inl (ground arith, ground arith)
  | inr (n, e) ↦ inr (d, take n s, ground arith, ground arith)
]

-- What is left in front of some blanks.
abbrev RightOf : Bytes → Bytes → Type 0
RightOf s t =
    EndsClean t × (StartsClean s → StartsClean t) × ((r : Bytes) × All IsBlank r × (s ≡ t ++ r))

rtrim_lem : (s : Bytes) → RightOf s (rtrim s)
rtrim_lem [] = unfold rtrim in (tt, λ h. tt, ([], tt, refl))
rtrim_lem (c ∷ s) = extend (rtrim_lem s) (rtrim-cons c s) (Bool-cases (contains blanks c))
  where
    extend :
        RightOf s (rtrim s)
        → ((rtrim s ≡ []) × (rtrim (c ∷ s) ≡ (if contains blanks c then [] else c ∷ [])))
          ⊎ ((d : ℕ) × (t : Bytes) × (rtrim s ≡ d ∷ t) × (rtrim (c ∷ s) ≡ c ∷ d ∷ t))
        → (contains blanks c ≡ true) ⊎ (contains blanks c ≡ false)
        → RightOf (c ∷ s) (rtrim (c ∷ s))
    extend (_, _, (r, b, e)) (inl (p, q)) (inl blank) =
        rw (q, blank) (tt, λ h. tt, (c ∷ s, (blank, all_blank), refl))
      where
        all_blank : All IsBlank s
        all_blank = rw (e, p) b
    extend (_, _, (r, b, e)) (inl (p, q)) (inr solid) =
        rw (q, solid) (solid, λ _. solid, (r, b, rw (e, p)))
    extend (h, _, (r, b, e)) (inr (d, t, p, q)) _ = rw q (rw p at h, λ h. h, (r, b, rw (e, p)))

rtrim_clean : (s : Bytes) → EndsClean s → rtrim s ≡ s
unfolding rtrim
rtrim_clean [] h = refl
rtrim_clean (c ∷ []) h = ground arith
rtrim_clean (c ∷ d ∷ s) h = ground (arith, rtrim_clean (d ∷ s) h, rtrim-cons c (d ∷ s))

trim-rtrim : (s : Bytes) → trim s ≡ rtrim (ltrim s)
unfolding trim rtrim ltrim
trim-rtrim s = refl

-- `Trim` takes blanks off both ends, nothing else, and leaves no blank at either end.
pub trim_lem :
    (s : Bytes)
    → StartsClean (trim s)
      × EndsClean (trim s)
      × ((l : Bytes) × (r : Bytes) × All IsBlank l × All IsBlank r × (s ≡ l ++ (trim s ++ r)))
trim_lem s = rw (trim-rtrim s) (join (ltrim_lem s) (rtrim_lem (ltrim s)))
  where
    join :
        LeftOf s (ltrim s)
        → RightOf (ltrim s) (rtrim (ltrim s))
        → StartsClean (rtrim (ltrim s))
          × EndsClean (rtrim (ltrim s))
          × ((l : Bytes) × (r : Bytes) × All IsBlank l
              × All IsBlank r
              × (s ≡ l ++ (rtrim (ltrim s) ++ r)))
    join (clean, (l, bl, e)) (ends, keep, (r, br, e')) =
        (keep clean, ends, (l, r, bl, br, e ∙ ap (◌++◌ l) e'))

-- A text with no blank at either end is left alone.
pub trim_clean : (s : Bytes) → StartsClean s → EndsClean s → trim s ≡ s
trim_clean s h h' = rw (trim-rtrim s, ltrim_clean s h) (rtrim_clean s h')

pub trim-trim : (s : Bytes) → trim (trim s) ≡ trim s
trim-trim s = trim_clean (trim s) (trim_lem s).0 (trim_lem s).1

rtrim-append : (s : Bytes) (c : ℕ) → EndsClean s → IsBlank c → rtrim (s ++ c ∷ []) ≡ s
rtrim-append [] c h b = unfold rtrim in ground arith
rtrim-append (d ∷ []) c h b = ground (arith, rtrim-append [] c tt b, rtrim-cons d (c ∷ []))
rtrim-append (d ∷ e ∷ s) c h b =
    ground (arith, rtrim-append (e ∷ s) c h b, rtrim-cons d (e ∷ s ++ c ∷ []))

-- A blank behind a clean text, or in front of one, is taken off.
pub trim-append :
    (d : ℕ) (s : Bytes) (c : ℕ)
    → StartsClean (d ∷ s)
    → EndsClean (d ∷ s)
    → IsBlank c
    → trim (d ∷ s ++ c ∷ []) ≡ d ∷ s
trim-append d s c h h' b =
    rw (trim-rtrim (d ∷ s ++ c ∷ []), ltrim_clean (d ∷ s ++ c ∷ []) h) (rtrim-append (d ∷ s) c h' b)

pub trim-cons : (c : ℕ) (s : Bytes) → IsBlank c → StartsClean s → EndsClean s → trim (c ∷ s) ≡ s
trim-cons c s b h h' =
    rw (trim-rtrim (c ∷ s), ltrim-blank c s b, ltrim_clean s h) (rtrim_clean s h')
