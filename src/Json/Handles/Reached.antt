-- ===== src/Json/Handles/Reached.antt =====
-- What the objects of a running program can come to.
use wxdap.Base.{ℕ, ◌≡◌, refl, suc, some, none, List, ◌∷◌, ◌++◌}
use wxdap.Json.Handles.{Heap, Handle, dec_ref, assign, unmanage, World, Reach, here, next, empty}
use wxdap.Json.Handles.Steps.{IsCounted, IsSole, Step-IsCounted, IsCounted-usable}
use wxdap.Json.Handles.Shared.{IsDangling, unmanage-IsDangling}

-- No object that is given away on the way has a copy.
abbrev pub IsUnshared : {s w : World} → Reach s w → Type 0
IsUnshared here = Unit
IsUnshared (next before step) = IsUnshared before × IsSole step

-- In every state that a program without objects comes to, by making, borrowing, copying, assigning,
-- destroying and giving away objects, where none of those given away had a copy at that time, the
-- counter at each address is the number of the objects that point to it, and is not allocated exactly
-- where there are none; and no object points to an address to come.
pub Reach-IsCounted :
    (n : ℕ) {w : World} (reached : Reach (empty n) w) → IsUnshared reached → IsCounted w
Reach-IsCounted n here unshared = record { counts = λ p. refl; unused = λ p h. refl }
Reach-IsCounted n (next before step) (unshared, sole) =
    Step-IsCounted step sole (Reach-IsCounted n before unshared)

-- In every state that a program without objects comes to by these steps, where no object that was given
-- away had a copy at that time, each object can be destroyed, and be copied, without an access to a
-- counter that is freed.
pub Reach-usable :
    (n : ℕ) (heap : Heap) (xs : List Handle) (h : Handle) (ys : List Handle)
    (reached : Reach (empty n) (record { heap = heap; handles = xs ++ h ∷ ys }))
    → IsUnshared reached
    → ((heap' : Heap) × (dec_ref h heap ≡ some heap'))
      × ((heap' : Heap) × (assign none h heap ≡ some heap'))
Reach-usable n heap xs h ys reached unshared =
    IsCounted-usable heap xs h ys (Reach-IsCounted n reached unshared)

-- Where the first object that has copies is given away, in such a state, another object still points to
-- the counter that was freed, and to destroy or to copy that object reads the freed counter.
pub given_shared :
    (n : ℕ) (heap : Heap) (xs : List Handle) (q : ℕ) (ys : List Handle) (more : ℕ)
    (reached : Reach (empty n) (record { heap = heap; handles = xs ++ some q ∷ ys }))
    → IsUnshared reached
    → heap.counter q ≡ some (suc (suc more))
    → IsDangling q (xs ++ ys) (unmanage (some q) heap)
given_shared n heap xs q ys more reached unshared shared =
    unmanage-IsDangling heap xs q ys more (Reach-IsCounted n reached unshared) shared
