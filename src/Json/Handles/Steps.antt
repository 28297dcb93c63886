-- ===== src/Json/Handles/Steps.antt =====
-- No step of the code on objects faults, and each keeps the count.
use wxdap.Base.{
  ℕ, ◌+◌, ◌≤◌, ◌≡◌, sym, ap, ◌∙◌, Option, some, arith, List, ◌∷◌, ◌++◌, none, ◌==◌, false,
}
use wxdap.Json.Handles.{
  Heap, Handle, dec_ref, inc_ref, manage, unmanage, assign, World, Step, creates, borrows, copies,
  assigns_back, assigns_on, destroys, gives,
}
use wxdap.Json.Handles.Counted.{
  points, pointers, counting, Counts, counting_one, points_self, update-Counts, dec_ref-Counts,
  inc_ref-Counts, manage-Counts, pointers-append,
}

-- The heap counts by f, and f is 0 at the addresses to come.
pub record Settled (heap : Heap) (f : ℕ → ℕ) : Type 0 where
  pub counts : Counts heap f
  pub unused : (p : ℕ) → heap.next ≤ p → f p ≡ 0

settle : (heap : Heap) (f g : ℕ → ℕ) → Settled heap f → ((p : ℕ) → f p ≡ g p) → Settled heap g
settle heap f g s e = record {
  counts = λ p. s.counts p ∙ ap counting (e p);
  unused = λ p h. sym (e p) ∙ s.unused p h;
}

same_heap : (x : Option Heap) (a b : Heap) → x ≡ some a → x ≡ some b → a ≡ b
same_heap x a b e e' = cc

dec_ref-Settled :
    (h : Handle) (heap : Heap) (f : ℕ → ℕ)
    → Settled heap (λ p. points p h + f p)
    → (heap' : Heap) × (dec_ref h heap ≡ some heap') × Settled heap' f
dec_ref-Settled h heap f s =
    let (heap', e, c, n) = dec_ref-Counts h heap f s.counts in
    (
      heap',
      e,
      record { counts = c; unused = λ p later. let all = s.unused p (rw⁻¹ n later) in omega arith },
    )

inc_ref-Settled :
    (h : Handle) (heap : Heap) (f : ℕ → ℕ)
    → Settled heap f
    → ((p : ℕ) → points p h ≤ f p)
    → (heap' : Heap) × (inc_ref h heap ≡ some heap') × Settled heap' (λ p. points p h + f p)
inc_ref-Settled h heap f s held =
    let (heap', e, c, n) = inc_ref-Counts h heap f s.counts held in
    (
      heap',
      e,
      record {
        counts = c;
        unused = λ p later. let all = s.unused p (rw⁻¹ n later) in let one = held p in omega arith;
      },
    )

assign-Settled :
    (target source : Handle) (heap : Heap) (f : ℕ → ℕ)
    → Settled heap (λ p. points p target + f p)
    → ((p : ℕ) → points p source ≤ f p)
    → (heap' : Heap) × (assign target source heap ≡ some heap')
      × Settled heap' (λ p. points p source + f p)
unfolding assign
assign-Settled target source heap f s held =
    let (mid, e, s') = dec_ref-Settled target heap f s in
    let (heap', e', s'') = inc_ref-Settled source mid f s' held in (heap', rw (e, assign) e', s'')

-- Each counter is the number of the objects that point to it (it is not allocated where there are
-- none), and the addresses to come are free.
abbrev pub IsCounted : World → Type 0
IsCounted w = Settled w.heap (λ p. pointers p w.handles)

-- The object in the middle, put in front.
pub middle :
    (p : ℕ) (xs : List Handle) (h : Handle) (ys : List Handle)
    → pointers p (xs ++ h ∷ ys) ≡ points p h + pointers p (xs ++ ys)
middle p xs h ys =
    let a = pointers-append p xs (h ∷ ys) in let b = pointers-append p xs ys in omega arith

two_middle :
    (p : ℕ) (xs : List Handle) (h : Handle) (ys : List Handle) (k : Handle) (zs : List Handle)
    → pointers p (xs ++ h ∷ ys ++ k ∷ zs) ≡ points p h + (points p k + pointers p (xs ++ ys ++ zs))
two_middle p xs h ys k zs =
    let a = middle p (xs ++ h ∷ ys) k zs in
    let b = pointers-append p (xs ++ h ∷ ys) zs in
    let c = middle p xs h ys in let d = pointers-append p (xs ++ ys) zs in omega arith

new_unused :
    (heap : Heap) (hs : List Handle)
    → Settled heap (λ p. pointers p hs)
    → (p : ℕ) → heap.next + 1 ≤ p
    → pointers p ((manage heap).0 ∷ hs) ≡ 0
unfolding manage
new_unused heap hs s p later =
    let old = s.unused p (omega arith) in
    let other : (heap.next == p) ≡ false = ground arith in rw other (omega arith)

-- The counter of a sole owner is freed.
unmanage-Settled :
    (q : ℕ) (heap : Heap) (f : ℕ → ℕ)
    → Settled heap (λ p. points p (some q) + f p)
    → heap.counter q ≡ some 1
    → Settled (unmanage (some q) heap) f
unfolding unmanage
unmanage-Settled q heap f s sole =
    let last : f q ≡ 0 =
      counting_one (f q)
        (ap counting (ap (λ n. n + f q) (sym (points_self q))) ∙ sym (s.counts q) ∙ sole) in
    record {
      counts =
          update-Counts heap q none (λ p. points p (some q) + f p) f s.counts
            (ap counting (sym last)) (λ p h. rw h (omega arith));
      unused = λ p later. let all = s.unused p later in omega arith;
    }

-- An object that is given away has no copy.
abbrev pub IsSole : {w v : World} → Step w v → Type 0
IsSole (creates heap hs) = Unit
IsSole (borrows heap hs) = Unit
IsSole (copies heap heap' xs h ys e) = Unit
IsSole (assigns_back heap heap' xs h ys k zs e) = Unit
IsSole (assigns_on heap heap' xs h ys k zs e) = Unit
IsSole (destroys heap heap' xs h ys e) = Unit
IsSole (gives heap xs q ys) = heap.counter q ≡ some 1

pub Step-IsCounted : {w v : World} → (step : Step w v) → IsSole step → IsCounted w → IsCounted v
unfolding manage
Step-IsCounted (creates heap hs) sole s = record {
  counts = manage-Counts heap (λ p. pointers p hs) s.counts (s.unused heap.next (omega arith));
  unused = λ p later. new_unused heap hs s p later;
}
Step-IsCounted (borrows heap hs) sole s =
    settle heap (λ p. pointers p hs) (λ p. pointers p (none ∷ hs)) s (λ p. omega arith)
Step-IsCounted (copies heap heap' xs h ys e) sole s =
    let (t, e', s') =
      assign-Settled none h heap (λ p. pointers p (xs ++ h ∷ ys))
        (settle heap (λ p. pointers p (xs ++ h ∷ ys))
          (λ p. points p none + pointers p (xs ++ h ∷ ys)) s (λ p. omega arith))
        (λ p. let m = middle p xs h ys in omega arith) in
    rw⁻¹ (same_heap _ t heap' e' e) s'
Step-IsCounted (assigns_back heap heap' xs h ys k zs e) sole s =
    let rest = λ (p : ℕ). points p h + pointers p (xs ++ ys ++ zs) in
    let (t, e', s') =
      assign-Settled k h heap rest
        (settle heap _ (λ p. points p k + rest p) s
          (λ p. let m = two_middle p xs h ys k zs in omega arith))
        (λ p. omega arith) in
    rw⁻¹ (same_heap _ t heap' e' e) (
      settle t (λ p. points p h + rest p) _ s'
        (λ p. let m = two_middle p xs h ys h zs in omega arith))
Step-IsCounted (assigns_on heap heap' xs h ys k zs e) sole s =
    let rest = λ (p : ℕ). points p k + pointers p (xs ++ ys ++ zs) in
    let (t, e', s') =
      assign-Settled h k heap rest
        (settle heap _ (λ p. points p h + rest p) s
          (λ p. let m = two_middle p xs h ys k zs in omega arith))
        (λ p. omega arith) in
    rw⁻¹ (same_heap _ t heap' e' e) (
      settle t (λ p. points p k + rest p) _ s'
        (λ p. let m = two_middle p xs k ys k zs in omega arith))
Step-IsCounted (destroys heap heap' xs h ys e) sole s =
    let (t, e', s') =
      dec_ref-Settled h heap (λ p. pointers p (xs ++ ys))
        (settle heap _ (λ p. points p h + pointers p (xs ++ ys)) s (λ p. middle p xs h ys)) in
    rw⁻¹ (same_heap _ t heap' e' e) s'
Step-IsCounted (gives heap xs q ys) sole s =
    let rest = λ (p : ℕ). pointers p (xs ++ ys) in
    let t =
      unmanage-Settled q heap rest
        (settle heap _ (λ p. points p (some q) + rest p) s (λ p. middle p xs (some q) ys)) sole in
    settle (unmanage (some q) heap) rest _ t (λ p. let m = middle p xs none ys in omega arith)

-- An object among those of a state that is counted can be destroyed, and be copied.
pub IsCounted-usable :
    (heap : Heap) (xs : List Handle) (h : Handle) (ys : List Handle)
    → Settled heap (λ p. pointers p (xs ++ h ∷ ys))
    → ((heap' : Heap) × (dec_ref h heap ≡ some heap'))
      × ((heap' : Heap) × (assign none h heap ≡ some heap'))
IsCounted-usable heap xs h ys s =
    let (t, is, k) =
      dec_ref-Settled h heap (λ p. pointers p (xs ++ ys))
        (settle heap _ (λ p. points p h + pointers p (xs ++ ys)) s (λ p. middle p xs h ys)) in
    let (t', is', k') =
      assign-Settled none h heap (λ p. pointers p (xs ++ h ∷ ys))
        (settle heap _ (λ p. points p none + pointers p (xs ++ h ∷ ys)) s (λ p. omega arith))
        (λ p. let m = middle p xs h ys in omega arith) in
    ((t, is), (t', is'))
