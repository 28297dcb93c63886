-- ===== src/Protocol/Sent/Parts.antt =====
-- What `From` makes of the parts of the arguments.
use wxdap.Base.{◌≡◌, Bool, true, false, some, List, Bytes, codes, All}
use wxdap.Json.{CJson, cons, nil, IsInt, get_string, get_integer, at_name}
use wxdap.Json.Building.{object, object_node, bool_node, IsKept}
use wxdap.Json.Arrays.Filled.{get_string_array-string_nodes}
use wxdap.Protocol.Structs.RoundTrip.{read_bool-bool_node}
use wxdap.Protocol.Requests.{Environment, SourceBreakpoint, FunctionBreakpoint, InitializeArguments}
use wxdap.Protocol.Reading.{
  initialize_from, launch_from, source_breakpoint_from, function_breakpoint_from, format_from,
}
use wxdap.Protocol.Reading.Environments.{
  env_nodes, environment_read, IsEnvironment, environment_from-env_nodes,
}
use wxdap.Protocol.Sent.Written.{
  initialize_nodes, source_breakpoint_nodes, function_breakpoint_nodes, launch_nodes,
}

module _ (c : CJson) where
  open c use {Double, of_int, to_int-of_int, zero_double}

  abbrev pub IsInitialize : InitializeArguments → Type 0
  IsInitialize a =
      IsKept c a.client_id
      × IsKept c a.client_name
      × IsKept c a.adapter_id
      × IsKept c a.locale
      × IsKept c a.path_format

  abbrev pub IsSourceBreakpoint : SourceBreakpoint → Type 0
  IsSourceBreakpoint b = IsInt b.line × IsKept c b.condition

  abbrev pub IsFunctionBreakpoint : FunctionBreakpoint → Type 0
  IsFunctionBreakpoint b = IsKept c b.name × IsKept c b.condition

  pub initialize_from-object :
      (key : Bytes) (a : InitializeArguments)
      → IsInitialize a
      → initialize_from c (some (object_node c key (initialize_nodes c a))) ≡ a
  unfolding initialize_from at_name get_string
  initialize_from-object key a (id, name, adapter, locale, format) = λ i. record {
    client_id = id i;
    client_name = name i;
    adapter_id = adapter i;
    locale = locale i;
    lines_start_at1 = read_bool-bool_node c (codes "linesStartAt1") a.lines_start_at1 i;
    columns_start_at1 = read_bool-bool_node c (codes "columnsStartAt1") a.columns_start_at1 i;
    supports_invalidated_event =
        read_bool-bool_node c (codes "supportsInvalidatedEvent") a.supports_invalidated_event i;
    path_format = format i;
  }

  pub source_breakpoint_from-object :
      (b : SourceBreakpoint)
      → IsSourceBreakpoint b
      → source_breakpoint_from c (object c (source_breakpoint_nodes c b)) ≡ b
  unfolding source_breakpoint_from at_name get_string get_integer
  source_breakpoint_from-object b (h, condition) =
      λ i. record { line = to_int-of_int b.line h i; condition = condition i }

  pub function_breakpoint_from-object :
      (b : FunctionBreakpoint)
      → IsFunctionBreakpoint b
      → function_breakpoint_from c (object c (function_breakpoint_nodes c b)) ≡ b
  unfolding function_breakpoint_from at_name get_string
  function_breakpoint_from-object b (name, condition) =
      λ i. record { name = name i; condition = condition i }

  pub launch_from-object :
      (key program : Bytes) (args : List Bytes) (cwd : Bytes) (env : Environment)
      → IsKept c program
      → All (IsKept c) args
      → IsKept c cwd
      → IsEnvironment c env
      → launch_from c (
          some
            (object_node c key (launch_nodes c program args cwd (env_nodes c env.format env.vars))))
        ≡ record {
          no_debug = false;
          program = program;
          args = args;
          cwd = cwd;
          env = environment_read env;
          stop_at_main = true;
        }
  unfolding launch_from at_name get_string
  launch_from-object key program args cwd env p a w h = λ i. record {
    no_debug = read_bool-bool_node c (codes "noDebug") false i;
    program = p i;
    args = get_string_array-string_nodes c (codes "args") args a i;
    cwd = w i;
    env = environment_from-env_nodes c env.format env.vars h i;
    stop_at_main = read_bool-bool_node c (codes "stopAtBeginningOfMainSubprogram") true i;
  }

  pub format_from-object :
      (hex : Bool)
      → format_from c
          (some (object_node c (codes "format") (cons (bool_node c (codes "hex") hex) nil)))
        ≡ hex
  unfolding format_from at_name
  format_from-object hex = read_bool-bool_node c (codes "hex") hex
