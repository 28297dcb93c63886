-- ===== src/Protocol/Responses/Bodies.antt =====
-- What `To` writes into the body of a response, and what `From` makes of it.
use wxdap.Base.{
  ◌≡◌, refl, ap, ◌∙◌, Bool, true, false, Option, none, some, List, Bytes, codes, All, map,
}
use wxdap.Json.{CJson, Json, Nodes, cons, nil, IsInt, get_number, at_name}
use wxdap.Json.Build.{add_item, create_object, create_array}
use wxdap.Json.Building.{object, object_node, int_node, bool_node, building, create_object-object}
use wxdap.Json.Arrays.{items_to}
use wxdap.Json.Arrays.Filled.{
  array_node, add_item-array, nodes_of, items_to-array, list_from-array, list_from-array_same,
}
use wxdap.Protocol.{not_found}
use wxdap.Protocol.Structs.{breakpoint_to, breakpoint_from}
use wxdap.Protocol.Structs.RoundTrip.{
  IsBreakpoint, breakpoint_nodes, breakpoint_to-object, breakpoint_from-node,
}
use wxdap.Protocol.Items.{
  thread_to, thread_from, stack_frame_to, stack_frame_from, scope_to, scope_from, variable_to,
  variable_from, location_to, location_from,
}
use wxdap.Protocol.Items.RoundTrip.{
  IsThread, IsStackFrame, IsScope, IsVariable, IsLocation, unlined, thread_nodes, thread_to-object,
  thread_from-object, stack_frame_nodes, stack_frame_to-object, stack_frame_from-object,
  scope_nodes, scope_to-object, scope_from-object, variable_nodes, variable_to-object,
  variable_from-object, location_nodes, location_to-object, location_from-object,
}
use wxdap.Protocol.Responses.{
  ResponseBody, empty, threads, stack_frames, scopes, variables, breakpoints, locations, continued,
  terminal, response_class_of, response_body_to, response_body_from,
}

-- The body that the reader has.
abbrev pub body_read : ResponseBody → ResponseBody
body_read (locations ls) = locations (map unlined ls)
body_read (continued all) = continued true
body_read b = b

module _ (c : CJson) where
  open c use {Double, of_int, to_int-of_int, to_bool, to_bool-of_int}

  -- Every number is an `int`, and no reference of a source is negative; of the lines of a location
  -- nothing is asked.
  abbrev pub IsResponseBody : ResponseBody → Type 0
  IsResponseBody empty = Unit
  IsResponseBody (threads ts) = All (IsThread c) ts
  IsResponseBody (stack_frames fs) = All (IsStackFrame c) fs
  IsResponseBody (scopes ss) = All (IsScope c) ss
  IsResponseBody (variables vs) = All (IsVariable c) vs
  IsResponseBody (breakpoints bs) = All (IsBreakpoint c) bs
  IsResponseBody (locations ls) = All IsLocation ls
  IsResponseBody (continued all) = Unit
  IsResponseBody (terminal process_id) = IsInt process_id

  abbrev array_body_nodes : Bytes → Nodes Double → Nodes Double
  array_body_nodes name ns = cons (array_node c name ns) nil

  array_body-object :
      {A : Type 0} (name : Bytes) (to : A → Json Double) (fields : A → Nodes Double)
      → ((x : A) → to x ≡ object c (fields x))
      → (xs : List A)
      → add_item c (create_object c) name (items_to c to (create_array c) xs)
        ≡ object c (array_body_nodes name (nodes_of c fields xs))
  array_body-object name to fields h xs =
      ap (λ j. add_item c j name (items_to c to (create_array c) xs)) (create_object-object c)
      ∙ ap (add_item c (object c nil) name) (items_to-array c to fields h xs)
      ∙ add_item-array c nil name (nodes_of c fields xs)

  abbrev pub response_body_nodes : ResponseBody → Nodes Double
  response_body_nodes empty = nil
  response_body_nodes (threads ts) =
      array_body_nodes (codes "threads") (nodes_of c (thread_nodes c) ts)
  response_body_nodes (stack_frames fs) =
      array_body_nodes (codes "stackFrames") (nodes_of c (stack_frame_nodes c) fs)
  response_body_nodes (scopes ss) =
      array_body_nodes (codes "scopes") (nodes_of c (scope_nodes c) ss)
  response_body_nodes (variables vs) =
      array_body_nodes (codes "variables") (nodes_of c (variable_nodes c) vs)
  response_body_nodes (breakpoints bs) =
      array_body_nodes (codes "breakpoints") (nodes_of c (breakpoint_nodes c) bs)
  response_body_nodes (locations ls) =
      array_body_nodes (codes "breakpoints") (nodes_of c (location_nodes c) ls)
  response_body_nodes (continued all) = cons (bool_node c (codes "allThreadsContinued") all) nil
  response_body_nodes (terminal process_id) = cons (int_node c (codes "processId") process_id) nil

  abbrev pub written_body : ResponseBody → Option (Json Double)
  written_body empty = none
  written_body b = some (object c (response_body_nodes b))

  pub response_body_to-object : (b : ResponseBody) → response_body_to c b ≡ written_body b
  unfolding response_body_to
  response_body_to-object empty = refl
  response_body_to-object (threads ts) =
      ap some (array_body-object _ (thread_to c) (thread_nodes c) (thread_to-object c) ts)
  response_body_to-object (stack_frames fs) =
      ap some
        (array_body-object _ (stack_frame_to c) (stack_frame_nodes c) (stack_frame_to-object c) fs)
  response_body_to-object (scopes ss) =
      ap some (array_body-object _ (scope_to c) (scope_nodes c) (scope_to-object c) ss)
  response_body_to-object (variables vs) =
      ap some (array_body-object _ (variable_to c) (variable_nodes c) (variable_to-object c) vs)
  response_body_to-object (breakpoints bs) =
      ap some
        (array_body-object _ (breakpoint_to c) (breakpoint_nodes c) (breakpoint_to-object c) bs)
  response_body_to-object (locations ls) =
      ap some (array_body-object _ (location_to c) (location_nodes c) (location_to-object c) ls)
  response_body_to-object (continued all) = simp building
  response_body_to-object (terminal process_id) = simp building

  number_of_bool :
      (all : Bool)
      → get_number (some (bool_node c (codes "allThreadsContinued") all)) (of_int not_found)
        ≡ of_int not_found
  unfolding get_number
  number_of_bool true = refl
  number_of_bool false = refl

  pub response_body_from-object :
      (b : ResponseBody)
      → IsResponseBody b
      → response_body_from c
          (response_class_of b)
          (some (object_node c (codes "body") (response_body_nodes b)))
        ≡ body_read b
  unfolding response_body_from at_name
  response_body_from-object empty h = refl
  response_body_from-object (threads ts) h = ap threads (
      list_from-array_same c (thread_from c) (thread_nodes c) (IsThread c) (thread_from-object c) _
        ts h)
  response_body_from-object (stack_frames fs) h = ap stack_frames (
      list_from-array_same c (stack_frame_from c) (stack_frame_nodes c) (IsStackFrame c)
        (stack_frame_from-object c) _ fs h)
  response_body_from-object (scopes ss) h = ap scopes (
      list_from-array_same c (scope_from c) (scope_nodes c) (IsScope c) (scope_from-object c) _ ss
        h)
  response_body_from-object (variables vs) h = ap variables (
      list_from-array_same c (variable_from c) (variable_nodes c) (IsVariable c)
        (variable_from-object c) _ vs h)
  response_body_from-object (breakpoints bs) h = ap breakpoints (
      list_from-array_same c (breakpoint_from c) (breakpoint_nodes c) (IsBreakpoint c)
        (breakpoint_from-node c none) _ bs h)
  response_body_from-object (locations ls) h = ap locations (
      list_from-array c (location_from c) (location_nodes c) IsLocation unlined
        (location_from-object c) _ ls h)
  response_body_from-object (continued all) h =
      ap continued (ap to_bool (number_of_bool all) ∙ to_bool-of_int not_found refl)
  response_body_from-object (terminal process_id) h =
      unfold get_number in ap terminal (to_int-of_int process_id h)
