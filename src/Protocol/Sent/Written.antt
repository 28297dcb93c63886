-- ===== src/Protocol/Sent/Written.antt =====
-- The children that `To` writes for the arguments of each request of the client.
use wxdap.Base.{zero, suc, ◌≡◌, refl, Bool, true, false, List, [], ◌∷◌, Bytes, codes}
use wxdap.Decimal.{ℤ, pos, negsuc}
use wxdap.Json.{CJson, Nodes, cons, nil, snoc}
use wxdap.Json.Building.{object, object_node, string_node, int_node, bool_node, building}
use wxdap.Json.Arrays.Filled.{
  array_node, string_nodes, add_strings-object, nodes_of, items_to-array, add_item-array,
  create_array-array, add_string-array,
}
use wxdap.Protocol.{Source, not_found}
use wxdap.Protocol.Structs.RoundTrip.{source_nodes, source_to-object}
use wxdap.Protocol.Arguments.{
  locations_in, initialize_to, source_breakpoint_to, function_breakpoint_to, launch_to,
  attach_arguments_to, format_to, step_arguments_to, next_arguments_to, source_arguments_to,
  evaluate_to, variables_to, set_breakpoints_to, set_function_breakpoints_to,
}
use wxdap.Protocol.Requests.{
  Environment, SourceBreakpoint, FunctionBreakpoint, InitializeArguments, Arguments, initialize,
  set_breakpoints, configuration_done, threads, launch, attach, scopes, stack_trace, next, continue,
  step_in, step_out, set_function_breakpoints, variables_of, pause, breakpoint_locations, source_of,
  evaluate,
}
use wxdap.Protocol.Reading.Environments.{env_nodes, add_environment}
use wxdap.Protocol.Sent.{add_arguments}
use wxdap.Protocol.Sent.Locations.{locations_nodes, locations_to-object}

module _ (c : CJson) where
  open c use {Double}

  abbrev pub initialize_nodes : InitializeArguments → Nodes Double
  initialize_nodes a = cons (string_node c (codes "clientID") a.client_id) (
      cons (string_node c (codes "clientName") a.client_name) (
        cons (string_node c (codes "adapterID") a.adapter_id) (
          cons (string_node c (codes "locale") a.locale) (
            cons (bool_node c (codes "linesStartAt1") a.lines_start_at1) (
              cons (bool_node c (codes "columnsStartAt1") a.columns_start_at1) (
                cons (string_node c (codes "pathFormat") a.path_format) (
                  cons (bool_node c (codes "supportsInvalidatedEvent") a.supports_invalidated_event)
                    nil)))))))

  abbrev pub source_breakpoint_nodes : SourceBreakpoint → Nodes Double
  source_breakpoint_nodes b =
      cons (int_node c (codes "line") b.line)
        (cons (string_node c (codes "condition") b.condition) nil)

  abbrev pub function_breakpoint_nodes : FunctionBreakpoint → Nodes Double
  function_breakpoint_nodes b =
      cons (string_node c (codes "name") b.name)
        (cons (string_node c (codes "condition") b.condition) nil)

  source_breakpoint_to-object :
      (b : SourceBreakpoint) → source_breakpoint_to c b ≡ object c (source_breakpoint_nodes b)
  unfolding source_breakpoint_to
  source_breakpoint_to-object b = simp building

  function_breakpoint_to-object :
      (b : FunctionBreakpoint) → function_breakpoint_to c b ≡ object c (function_breakpoint_nodes b)
  unfolding function_breakpoint_to
  function_breakpoint_to-object b = simp building

  abbrev pub launch_nodes : Bytes → List Bytes → Bytes → Nodes Double → Nodes Double
  launch_nodes program args cwd env = cons (bool_node c (codes "noDebug") false) (
      cons (string_node c (codes "program") program) (
        cons (array_node c (codes "args") (string_nodes c args)) (
          cons (string_node c (codes "cwd") cwd)
            (cons (bool_node c (codes "stopAtBeginningOfMainSubprogram") true) env))))

  abbrev option_nodes : Nodes Double
  option_nodes = string_nodes c (codes "RedirectOutput" ∷ codes "ShowReturnValue" ∷ [])

  -- A number that is written only if it is positive.
  abbrev pub positive_nodes : Bytes → ℤ → Nodes Double → Nodes Double
  positive_nodes name (pos (suc n)) rest = cons (int_node c name (pos (suc n))) rest
  positive_nodes name _ rest = rest

  abbrev pub format_node_list : Bool → Nodes Double
  format_node_list hex =
      cons (object_node c (codes "format") (cons (bool_node c (codes "hex") hex) nil)) nil

  abbrev pub argument_nodes : Arguments → Nodes Double
  argument_nodes (initialize a) = initialize_nodes a
  argument_nodes (set_breakpoints breakpoints path name) =
      cons (object_node c (codes "source") (source_nodes c name path (pos 0))) (
        cons (array_node c (codes "breakpoints") (nodes_of c source_breakpoint_nodes breakpoints))
          nil)
  argument_nodes configuration_done = nil
  argument_nodes threads = nil
  argument_nodes (launch program args cwd env) =
      launch_nodes program args cwd (env_nodes c env.format env.vars)
  argument_nodes (attach args) = cons (array_node c (codes "arguments") (string_nodes c args)) (
      cons (int_node c (codes "pid") not_found) (
        cons (bool_node c (codes "redirectOutput") true)
          (cons (array_node c (codes "debugOptions") option_nodes) nil)))
  argument_nodes (scopes frame_id) = cons (int_node c (codes "frameId") frame_id) nil
  argument_nodes (stack_trace thread_id levels start_frame) =
      cons (int_node c (codes "threadId") thread_id) nil
  argument_nodes (next thread_id single granularity) =
      cons (int_node c (codes "threadId") thread_id) (
        cons (string_node c (codes "granularity") granularity)
          (cons (bool_node c (codes "singleThread") single) nil))
  argument_nodes (continue thread_id single) =
      cons (int_node c (codes "threadId") thread_id)
        (cons (bool_node c (codes "singleThread") single) nil)
  argument_nodes (step_in thread_id single) = cons (int_node c (codes "threadId") thread_id) (
      cons (bool_node c (codes "singleThread") single)
        (cons (string_node c (codes "granularity") (codes "line")) nil))
  argument_nodes (step_out thread_id single) = cons (int_node c (codes "threadId") thread_id) (
      cons (bool_node c (codes "singleThread") single)
        (cons (string_node c (codes "granularity") (codes "line")) nil))
  argument_nodes (set_function_breakpoints breakpoints) =
      cons (array_node c (codes "breakpoints") (nodes_of c function_breakpoint_nodes breakpoints))
        nil
  argument_nodes (variables_of reference count hex) =
      cons (int_node c (codes "variablesReference") reference)
        (cons (int_node c (codes "count") count) (format_node_list hex))
  argument_nodes (pause thread_id) = cons (int_node c (codes "threadId") thread_id) nil
  argument_nodes (breakpoint_locations path line end_line) =
      locations_nodes c (locations_in path line end_line)
  argument_nodes (source_of source reference) =
      cons
        (object_node c (codes "source")
          (source_nodes c source.name source.path source.source_reference))
        (positive_nodes (codes "sourceReference") reference nil)
  argument_nodes (evaluate frame_id expression hex context) =
      cons (string_node c (codes "expression") expression) (
        positive_nodes (codes "frameId") frame_id
          (cons (string_node c (codes "context") context) (format_node_list hex)))

  -- The request with its arguments behind what it has.
  abbrev pub with_arguments : Nodes Double → Arguments → Nodes Double
  with_arguments ms configuration_done = ms
  with_arguments ms threads = ms
  with_arguments ms a = snoc ms (object_node c (codes "arguments") (argument_nodes a))

  set_breakpoints_to-object :
      (breakpoints : List SourceBreakpoint) (path name : Bytes)
      → set_breakpoints_to c breakpoints path name
        ≡ object c (argument_nodes (set_breakpoints breakpoints path name))
  unfolding set_breakpoints_to
  set_breakpoints_to-object breakpoints path name =
      rw
        (items_to-array c (source_breakpoint_to c) source_breakpoint_nodes
          source_breakpoint_to-object breakpoints)
        (simp (building, source_to-object, add_item-array))

  set_function_breakpoints_to-object :
      (breakpoints : List FunctionBreakpoint)
      → set_function_breakpoints_to c breakpoints
        ≡ object c (argument_nodes (set_function_breakpoints breakpoints))
  unfolding set_function_breakpoints_to
  set_function_breakpoints_to-object breakpoints =
      rw
        (items_to-array c (function_breakpoint_to c) function_breakpoint_nodes
          function_breakpoint_to-object breakpoints)
        (simp (building, add_item-array))

  launch_to-object :
      (program : Bytes) (args : List Bytes) (cwd : Bytes) (env : Environment)
      → launch_to c program args cwd env ≡ object c (argument_nodes (launch program args cwd env))
  unfolding launch_to
  launch_to-object program args cwd env =
      simp (building, add_strings-object)
        (add_environment c (launch_nodes program args cwd nil) env.format env.vars)

  attach_to-object :
      (args : List Bytes) → attach_arguments_to c args ≡ object c (argument_nodes (attach args))
  unfolding attach_arguments_to
  attach_to-object args =
      simp (building, add_strings-object, create_array-array, add_string-array, add_item-array)

  source_arguments_to-object :
      (source : Source) (reference : ℤ)
      → source_arguments_to c source reference
        ≡ object c (argument_nodes (source_of source reference))
  unfolding source_arguments_to
  source_arguments_to-object source (pos zero) = simp (building, source_to-object)
  source_arguments_to-object source (pos (suc n)) = simp (building, source_to-object)
  source_arguments_to-object source (negsuc n) = simp (building, source_to-object)

  evaluate_to-object :
      (frame_id : ℤ) (expression : Bytes) (hex : Bool) (context : Bytes)
      → evaluate_to c frame_id expression hex context
        ≡ object c (argument_nodes (evaluate frame_id expression hex context))
  unfolding evaluate_to format_to
  evaluate_to-object (pos zero) expression hex context = simp building
  evaluate_to-object (pos (suc n)) expression hex context = simp building
  evaluate_to-object (negsuc n) expression hex context = simp building

  -- What a request of the client is with its arguments.
  pub add_arguments-object :
      (ms : Nodes Double) (a : Arguments)
      → add_arguments c (object c ms) a ≡ object c (with_arguments ms a)
  unfolding add_arguments
  add_arguments-object ms (initialize a) = unfold initialize_to in simp building
  add_arguments-object ms (set_breakpoints breakpoints path name) =
      simp (set_breakpoints_to-object, building)
  add_arguments-object ms configuration_done = refl
  add_arguments-object ms threads = refl
  add_arguments-object ms (launch program args cwd env) = simp (launch_to-object, building)
  add_arguments-object ms (attach args) = simp (attach_to-object, building)
  add_arguments-object ms (scopes frame_id) = simp building
  add_arguments-object ms (stack_trace thread_id levels start_frame) = simp building
  add_arguments-object ms (next thread_id single granularity) =
      unfold next_arguments_to in simp building
  add_arguments-object ms (continue thread_id single) = simp building
  add_arguments-object ms (step_in thread_id single) = unfold step_arguments_to in simp building
  add_arguments-object ms (step_out thread_id single) = unfold step_arguments_to in simp building
  add_arguments-object ms (set_function_breakpoints breakpoints) =
      simp (set_function_breakpoints_to-object, building)
  add_arguments-object ms (variables_of reference count hex) =
      unfold variables_to format_to in simp building
  add_arguments-object ms (pause thread_id) = simp building
  add_arguments-object ms (breakpoint_locations path line end_line) =
      simp (locations_to-object, building)
  add_arguments-object ms (source_of source reference) = simp (source_arguments_to-object, building)
  add_arguments-object ms (evaluate frame_id expression hex context) =
      simp (evaluate_to-object, building)
