-- ===== src/Text/Chop.antt =====
-- `BeforeFirst` and `AfterFirst`.
use wxdap.Base.{
  ℕ, suc, ◌≡◌, ◌≢◌, refl, ◌⊎◌, inl, inr, none, some, [], ◌∷◌, ◌++◌, arith, Bytes, length, drop,
  take-append, Lacks,
}
use wxdap.Text.{find_char, before_first, after_first}

pub find_char-append :
    (ch : ℕ) (p r : Bytes) → Lacks ch p → find_char ch (p ++ ch ∷ r) ≡ some (length p)
unfolding find_char
find_char-append ch [] r h = ground arith
find_char-append ch (c ∷ p) r h = ground (arith, find_char-append ch p r)

pub find_char-Lacks : (ch : ℕ) (s : Bytes) → Lacks ch s → find_char ch s ≡ none
unfolding find_char
find_char-Lacks ch [] h = refl
find_char-Lacks ch (c ∷ s) h = ground (arith, find_char-Lacks ch s)

pub Lacks-find_char : (ch : ℕ) (s : Bytes) → find_char ch s ≡ none → Lacks ch s
unfolding find_char
Lacks-find_char ch [] h = tt
Lacks-find_char ch (c ∷ s) h = (ground arith, Lacks-find_char ch s (ground arith))

-- A text that holds the character is some text without it, the character and a rest.
abbrev FirstAt : ℕ → Bytes → Type 0
FirstAt ch s = (p : Bytes) × (r : Bytes) × Lacks ch p × (s ≡ p ++ ch ∷ r)

find_char-FirstAt : (ch : ℕ) (s : Bytes) → Lacks ch s ⊎ FirstAt ch s
find_char-FirstAt ch [] = inl tt
find_char-FirstAt ch (c ∷ s) = extend (find_char-FirstAt ch s) (cases c ch)
  where
    cases : (a b : ℕ) → (a ≡ b) ⊎ (a ≢ b)
    cases a b = ground arith

    extend : Lacks ch s ⊎ FirstAt ch s → (c ≡ ch) ⊎ (c ≢ ch) → Lacks ch (c ∷ s) ⊎ FirstAt ch (c ∷ s)
    extend _ (inl e) = inr ([], s, tt, cc)
    extend (inl h) (inr n) = inl (n, h)
    extend (inr (p, r, h, e)) (inr n) = inr (c ∷ p, r, (n, h), cc)

pub before_first-append : (ch : ℕ) (p r : Bytes) → Lacks ch p → before_first (p ++ ch ∷ r) ch ≡ p
unfolding before_first
before_first-append ch p r h = rw (find_char-append ch p r h, before_first) (take-append p _)

pub after_first-append : (ch : ℕ) (p r : Bytes) → Lacks ch p → after_first (p ++ ch ∷ r) ch ≡ r
unfolding after_first
after_first-append ch p r h = rw (find_char-append ch p r h, after_first) (drop_behind p)
  where
    drop_behind : (q : Bytes) → drop (suc (length q)) (q ++ ch ∷ r) ≡ r
    drop_behind [] = refl
    drop_behind (c ∷ q) = drop_behind q

-- `BeforeFirst` never holds the character. If the text does not hold it either, `BeforeFirst` is
-- the whole text and `AfterFirst` is empty; otherwise the two and the character between them spell
-- the text.
pub cut_at_first :
    (s : Bytes) (ch : ℕ)
    → Lacks ch (before_first s ch)
      × ((Lacks ch s × (before_first s ch ≡ s) × (after_first s ch ≡ []))
          ⊎ (s ≡ before_first s ch ++ ch ∷ after_first s ch))
unfolding before_first after_first
cut_at_first s ch = split (find_char-FirstAt ch s)
  where
    split :
        Lacks ch s ⊎ FirstAt ch s
        → Lacks ch (before_first s ch)
          × ((Lacks ch s × (before_first s ch ≡ s) × (after_first s ch ≡ []))
              ⊎ (s ≡ before_first s ch ++ ch ∷ after_first s ch))
    split (inl h) =
        let e = find_char-Lacks ch s h in
        (rw (e, before_first) h, inl (h, rw (e, before_first), rw (e, after_first)))
    split (inr (p, r, h, e)) =
        rw (e, before_first-append ch p r h, after_first-append ch p r h) (h, inr refl)
