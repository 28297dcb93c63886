-- ===== src/Json/Handles/Counted.antt =====
-- The counters count the objects.
use wxdap.Base.{
  ℕ, zero, suc, ◌+◌, ◌-◌, ◌≤◌, ◌≡◌, refl, sym, ap, ap₂, ◌∙◌, ◌==◌, ==-refl, true, false, Bool-cases,
  inl, inr, Option, none, some, List, [], ◌∷◌, ◌++◌, arith, if◌then◌else◌,
}
use wxdap.Json.Handles.{Heap, Handle, update, dec_ref, inc_ref, manage}

-- How often the handle points to the counter, 0 or 1, and how many of the objects do.
abbrev pub points : ℕ → Handle → ℕ
points p none = 0
points p (some q) = if q == p then 1 else 0

abbrev pub pointers : ℕ → List Handle → ℕ
pointers p [] = 0
pointers p (h ∷ hs) = points p h + pointers p hs

-- The value of a counter with so many pointers to it: without one it is not allocated.
abbrev pub counting : ℕ → Option ℕ
counting zero = none
counting (suc n) = some (suc n)

pub pointers-append :
    (p : ℕ) (xs ys : List Handle) → pointers p (xs ++ ys) ≡ pointers p xs + pointers p ys
pointers-append p [] ys = omega arith
pointers-append p (x ∷ xs) ys = let ih = pointers-append p xs ys in omega arith

-- The counters of a heap, as a function of the number of pointers.
abbrev pub Counts : Heap → (ℕ → ℕ) → Type 0
Counts heap f = (p : ℕ) → heap.counter p ≡ counting (f p)

counting_less : (n : ℕ) → (if (n + 1 - 1) == 0 then none else some (n + 1 - 1)) ≡ counting n
counting_less zero = refl
counting_less (suc n) =
    let e : suc n + 1 - 1 ≡ suc n = omega arith in
    let filled : (suc n == 0) ≡ false = ground arith in rw (e, filled) refl

counting_filled : (n : ℕ) → 1 ≤ n → counting n ≡ some n
counting_filled zero h = absurd (omega arith)
counting_filled (suc n) h = refl

add_none : (n : ℕ) → 0 + n ≡ n
add_none n = omega arith

counting_more : (n : ℕ) → some (n + 1) ≡ counting (1 + n)
counting_more n =
    let e : n + 1 ≡ suc n = omega arith in
    let e' : 1 + n ≡ suc n = omega arith in ap some e ∙ ap counting (sym e')

pub counting_one : (n : ℕ) → counting (1 + n) ≡ some 1 → n ≡ 0
counting_one n h = let more = counting_more n ∙ h in let e : n + 1 ≡ 1 = cc in omega arith

pub points_self : (q : ℕ) → points q (some q) ≡ 1
points_self q = rw (==-refl q) refl

eq_of_== : (q p : ℕ) → (q == p) ≡ true → q ≡ p
eq_of_== q p h = ground arith

-- An update of one counter, where the others stay.
pub update-Counts :
    (heap : Heap) (q : ℕ) (v : Option ℕ) (f g : ℕ → ℕ)
    → Counts heap f
    → v ≡ counting (g q)
    → ((p : ℕ) → (q == p) ≡ false → f p ≡ g p)
    → (p : ℕ) → update heap.counter q v p ≡ counting (g p)
update-Counts heap q v f g c e same p = elim (Bool-cases (q == p)) [
  | inl h ↦ rw h (e ∙ ap (λ x. counting (g x)) (eq_of_== q p h))
  | inr h ↦ rw h (c p ∙ ap counting (same p h))
]

-- `DecRef` of an object that is counted does not fault, and counts it no more.
pub dec_ref-Counts :
    (h : Handle) (heap : Heap) (f : ℕ → ℕ)
    → Counts heap (λ p. points p h + f p)
    → (heap' : Heap) × (dec_ref h heap ≡ some heap') × Counts heap' f × (heap'.next ≡ heap.next)
unfolding dec_ref
dec_ref-Counts none heap f c = (heap, refl, λ p. c p ∙ ap counting (add_none (f p)), refl)
dec_ref-Counts (some q) heap f c =
    let value : heap.counter q ≡ some (f q + 1) =
      c q ∙ ap (λ n. counting (n + f q)) (points_self q) ∙ sym (counting_more (f q)) in
    let left = if (f q + 1 - 1) == 0 then none else some (f q + 1 - 1) in
    (
      record heap { counter = update heap.counter q left },
      rw (value, dec_ref) refl,
      update-Counts heap q left (λ p. points p (some q) + f p) f c (counting_less (f q))
          (λ p h. rw h (omega arith)),
      refl,
    )

-- `IncRef` of an object whose counter is allocated counts it once more.
pub inc_ref-Counts :
    (h : Handle) (heap : Heap) (f : ℕ → ℕ)
    → Counts heap f
    → ((p : ℕ) → points p h ≤ f p)
    → (heap' : Heap) × (inc_ref h heap ≡ some heap')
      × Counts heap' (λ p. points p h + f p)
      × (heap'.next ≡ heap.next)
unfolding inc_ref
inc_ref-Counts none heap f c held =
    (heap, refl, λ p. c p ∙ ap counting (sym (add_none (f p))), refl)
inc_ref-Counts (some q) heap f c held =
    let once = points_self q in
    let at_least = held q in
    let value : heap.counter q ≡ some (f q) = c q ∙ counting_filled (f q) (omega arith) in
    (
      record heap { counter = update heap.counter q (some (f q + 1)) },
      rw (value, inc_ref) refl,
      update-Counts heap q (some (f q + 1)) f (λ p. points p (some q) + f p) c
          (counting_more (f q) ∙ ap (λ n. counting (n + f q)) (sym once))
          (λ p h. rw h (omega arith)),
      refl,
    )

-- `Manage` counts a new object once.
pub manage-Counts :
    (heap : Heap) (f : ℕ → ℕ)
    → Counts heap f
    → f heap.next ≡ 0
    → Counts (manage heap).1 (λ p. points p (manage heap).0 + f p)
unfolding manage
manage-Counts heap f c free =
    update-Counts heap heap.next (some 1) f (λ p. points p (some heap.next) + f p) c
      (ap₂ (λ m n. counting (m + n)) (sym (points_self heap.next)) (sym free))
      (λ p h. rw h (omega arith))
