-- ===== src/Examples/Handles.antt =====
-- A Json that is made and copied, and whose copy is destroyed before it is given away.
use wxdap.Base.{◌≡◌, refl, Option, some, none, [], ◌∷◌}
use wxdap.Json.Handles.{
  Heap, dec_ref, inc_ref, manage, assign, unmanage, Reach, here, next, creates, copies, destroys,
  gives, empty,
}
use wxdap.Json.Handles.Steps.{IsCounted}
use wxdap.Json.Handles.Reached.{Reach-IsCounted, Reach-usable, given_shared}
use wxdap.Json.Handles.Shared.{IsDangling}

abbrev start : Heap
start = (empty 0).heap

abbrev at_copy : Option Heap
at_copy = assign none (some 0) (manage start).1

abbrev or_start : Option Heap → Heap
or_start none = start
or_start (some heap) = heap

abbrev shared : Heap
shared = or_start at_copy

abbrev left : Heap
left = or_start (dec_ref (some 0) shared)

two_objects : Reach (empty 0) (record { heap = shared; handles = some 0 ∷ some 0 ∷ [] })
unfolding manage assign dec_ref inc_ref
two_objects =
    next (next here (creates start [])) (copies (manage start).1 shared [] (some 0) [] refl)

twice : shared.counter 0 ≡ some 2
unfolding manage assign dec_ref inc_ref
twice = refl

one_object : Reach (empty 0) (record { heap = left; handles = some 0 ∷ [] })
unfolding manage assign dec_ref inc_ref
one_object = next two_objects (destroys shared left [] (some 0) (some 0 ∷ []) refl)

after_giving :
    Reach (empty 0) (record { heap = unmanage (some 0) left; handles = none ∷ none ∷ [] })
after_giving = next one_object (gives left [] 0 [])

Reach-IsCounted_example :
    IsCounted (record { heap = unmanage (some 0) left; handles = none ∷ none ∷ [] })
unfolding after_giving one_object two_objects
Reach-IsCounted_example = Reach-IsCounted 0 after_giving ((((tt, tt), tt), tt), refl)

Reach-usable_example :
    ((heap' : Heap) × (dec_ref (some 0) left ≡ some heap'))
    × ((heap' : Heap) × (assign none (some 0) left ≡ some heap'))
unfolding one_object two_objects
Reach-usable_example = Reach-usable 0 left [] (some 0) [] one_object (((tt, tt), tt), tt)

given_shared_example : IsDangling 0 (some 0 ∷ []) (unmanage (some 0) shared)
unfolding two_objects
given_shared_example = given_shared 0 shared [] 0 (some 0 ∷ []) 0 two_objects ((tt, tt), tt) twice
