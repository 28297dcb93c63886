-- ===== src/Protocol/Defaults.antt =====
-- dap/dap.cpp: readings that do not depend on what is read.
use wxdap.Base.{◌≡◌, ap, ◌∙◌, true, arith, codes}
use wxdap.Json.{CJson, at_name}
use wxdap.Json.Reading.{get_bool_default}
use wxdap.Protocol.{Breakpoint}
use wxdap.Protocol.Events.{ProcessBody, process_to, process_from}
use wxdap.Protocol.Structs.{breakpoint_eq, int_eq}
use wxdap.Client.Keys.{int_eq_refl}

module _ (c : CJson) where
  -- A process event that is sent is read as one of a local process, whether it was one or not.
  process_from-process_to :
      (b : ProcessBody) → (process_from c (process_to c b)).is_local_process ≡ true
  unfolding process_from
  process_from-process_to b = get_bool_default (at_name (process_to c b) (codes "isLocalProcess"))

-- Two breakpoints whose sources have the same reference, such as two without one, are equal for
-- `operator==`, in whatever files and lines they are.
breakpoint_eq_unreferenced :
    (a b : Breakpoint)
    → a.source.source_reference ≡ b.source.source_reference
    → breakpoint_eq a b ≡ true
unfolding breakpoint_eq
breakpoint_eq_unreferenced a b e =
    let same : int_eq a.source.source_reference b.source.source_reference ≡ true =
      ap (λ z. int_eq z b.source.source_reference) e ∙ int_eq_refl b.source.source_reference in
    ground (arith, same)
