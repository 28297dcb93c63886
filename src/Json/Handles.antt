-- ===== src/Json/Handles.antt =====
-- dap/JSON.cpp: who frees a tree. A `Json` that owns its tree points to a counter that it shares with its
-- copies; one without a counter borrows its tree. Here a `Json` is what its `m_refCount` is, a counter's
-- address or null, and the counter stands for the tree that is deleted with it.
pub mod Counted
pub mod Steps
pub mod Shared
pub mod Reached
use wxdap.Base.{
  ℕ, zero, suc, ◌+◌, ◌-◌, ◌≡◌, ◌==◌, Option, none, some, List, [], ◌∷◌, ◌++◌, if◌then◌else◌,
}

-- The counters that are allocated, with their values, and the next address.
pub record Heap : Type 0 where
  pub next : ℕ
  pub counter : ℕ → Option ℕ

abbrev pub Handle : Type 0
Handle = Option ℕ

abbrev pub update : (ℕ → Option ℕ) → ℕ → Option ℕ → ℕ → Option ℕ
update f p v q = if p == q then v else f q

-- `DecRef`: `none` is an access to a counter that is not allocated. At zero the tree is deleted and the
-- counter freed, so that a counter that is allocated is at least 1.
unfoldable pub dec_ref : Handle → Heap → Option Heap
dec_ref none heap = some heap
dec_ref (some p) heap = elim (heap.counter p) [
  | none ↦ none
  | some n ↦
      let left = n - 1 in
      some (record heap { counter = update heap.counter p (if left == 0 then none else some left) })
]

unfoldable pub inc_ref : Handle → Heap → Option Heap
inc_ref none heap = some heap
inc_ref (some p) heap = elim (heap.counter p) [
  | none ↦ none
  | some n ↦ some (record heap { counter = update heap.counter p (some (n + 1)) })
]

-- `Manage` of a `Json` with a tree of its own: a new counter, set to 1.
unfoldable pub manage : Heap → Handle × Heap
manage heap = (
  some heap.next,
  record { next = heap.next + 1; counter = update heap.counter heap.next (some 1) },
)

-- `UnManage`
unfoldable pub unmanage : Handle → Heap → Heap
unmanage none heap = heap
unmanage (some p) heap = record heap { counter = update heap.counter p none }

-- `operator=` from another object: the new content of the left one, and the heap.
unfoldable pub assign : Handle → Handle → Heap → Option Heap
unfolding dec_ref inc_ref
assign target source heap = elim (dec_ref target heap) [
  | none ↦ none
  | some heap' ↦ inc_ref source heap'
]

pub record World : Type 0 where
  pub heap : Heap
  -- The objects that live.
  pub handles : List Handle

-- What the code does with objects: it makes one with a new tree, or one that borrows a node, copies one,
-- assigns one to another, destroys one, and gives the tree of one to a container (by `Add` or
-- `AddObject`, which take the counter off it, whatever it is, and return a copy).
pub data Step : World → World → Type 0 where
  creates :
      (heap : Heap) (hs : List Handle)
      → Step
          (record { heap = heap; handles = hs })
          (record { heap = (manage heap).1; handles = (manage heap).0 ∷ hs })
  borrows :
      (heap : Heap) (hs : List Handle)
      → Step (record { heap = heap; handles = hs }) (record { heap = heap; handles = none ∷ hs })
  copies :
      (heap heap' : Heap) (xs : List Handle) (h : Handle) (ys : List Handle)
      → assign none h heap ≡ some heap'
      → Step
          (record { heap = heap; handles = xs ++ h ∷ ys })
          (record { heap = heap'; handles = h ∷ xs ++ h ∷ ys })
  assigns_back :
      (heap heap' : Heap) (xs : List Handle) (h : Handle) (ys : List Handle) (k : Handle)
      (zs : List Handle)
      → assign k h heap ≡ some heap'
      → Step
          (record { heap = heap; handles = xs ++ h ∷ ys ++ k ∷ zs })
          (record { heap = heap'; handles = xs ++ h ∷ ys ++ h ∷ zs })
  assigns_on :
      (heap heap' : Heap) (xs : List Handle) (h : Handle) (ys : List Handle) (k : Handle)
      (zs : List Handle)
      → assign h k heap ≡ some heap'
      → Step
          (record { heap = heap; handles = xs ++ h ∷ ys ++ k ∷ zs })
          (record { heap = heap'; handles = xs ++ k ∷ ys ++ k ∷ zs })
  destroys :
      (heap heap' : Heap) (xs : List Handle) (h : Handle) (ys : List Handle)
      → dec_ref h heap ≡ some heap'
      → Step
          (record { heap = heap; handles = xs ++ h ∷ ys })
          (record { heap = heap'; handles = xs ++ ys })
  gives :
      (heap : Heap) (xs : List Handle) (q : ℕ) (ys : List Handle)
      → Step
          (record { heap = heap; handles = xs ++ some q ∷ ys })
          (record { heap = unmanage (some q) heap; handles = none ∷ xs ++ none ∷ ys })

pub data Reach (s : World) : World → Type 0 where
  here : Reach s s
  next : {t u : World} → Reach s t → Step t u → Reach s u

-- No object, and no counter at any address.
abbrev pub empty : ℕ → World
empty n = record { heap = record { next = n; counter = λ p. none }; handles = [] }
