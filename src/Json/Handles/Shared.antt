-- ===== src/Json/Handles/Shared.antt =====
-- What becomes of the copies of an object whose tree is given away.
use wxdap.Base.{
  ℕ, zero, suc, ◌≤◌, ◌≡◌, refl, ap, ◌∙◌, sym, ◌==◌, ==-refl, false, Bool-cases, inl, inr, none,
  some, List, [], ◌∷◌, ◌++◌, arith,
}
use wxdap.Json.Handles.{Heap, Handle, dec_ref, assign, inc_ref, unmanage}
use wxdap.Json.Handles.Counted.{points, pointers, counting, points_self}
use wxdap.Json.Handles.Steps.{Settled, middle}

-- An object points to a counter that is not allocated: neither its destructor nor a copy can be run.
abbrev pub IsDangling : ℕ → List Handle → Heap → Type 0
IsDangling q hs heap =
    (us : List Handle) × (vs : List Handle) × (hs ≡ us ++ some q ∷ vs)
    × (dec_ref (some q) heap ≡ none)
    × (assign none (some q) heap ≡ none)

points_other : (q p : ℕ) → (p == q) ≡ false → points q (some p) ≡ 0
points_other q p other = rw other refl

-- One of the objects points to a counter that some of them point to.
found :
    (q : ℕ) (hs : List Handle)
    → 1 ≤ pointers q hs
    → (us : List Handle) × (vs : List Handle) × (hs ≡ us ++ some q ∷ vs)
found q [] h = absurd (omega arith)
found q (none ∷ hs) h =
    let (us, vs, e) = found q hs (omega arith) in (none ∷ us, vs, ap (λ l. none ∷ l) e)
found q (some p ∷ hs) h = elim (Bool-cases (p == q)) [
  | inl same ↦ let e : p ≡ q = ground arith in ([], hs, ap (λ x. some x ∷ hs) e)
  | inr other ↦
      let apart = points_other q p other in
      let (us, vs, e) = found q hs (omega arith) in (some p ∷ us, vs, ap (λ l. some p ∷ l) e)
]

counting_many : (n k : ℕ) → counting n ≡ some (suc k) → n ≡ suc k
counting_many zero k h = cc
counting_many (suc n) k h = cc

pub unmanage-IsDangling :
    (heap : Heap) (xs : List Handle) (q : ℕ) (ys : List Handle) (more : ℕ)
    → Settled heap (λ p. pointers p (xs ++ some q ∷ ys))
    → heap.counter q ≡ some (suc (suc more))
    → IsDangling q (xs ++ ys) (unmanage (some q) heap)
unfolding unmanage dec_ref assign inc_ref
unmanage-IsDangling heap xs q ys more s shared =
    let all =
      counting_many (pointers q (xs ++ some q ∷ ys)) (suc more) (sym (s.counts q) ∙ shared) in
    let m = middle q xs (some q) ys in
    let self = points_self q in
    let (us, vs, e) = found q (xs ++ ys) (omega arith) in
    let freed : (unmanage (some q) heap).counter q ≡ none = rw (==-refl q) refl in
    (us, vs, e, rw (freed, dec_ref) refl, rw (freed, assign, inc_ref) refl)
