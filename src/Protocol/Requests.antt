-- ===== src/Protocol/Requests.antt =====
-- dap/dap.hpp: the requests that the client makes, one constructor for each class, with the fields of
-- its arguments that the client sets; and the body of two responses.
use wxdap.Base.{Bool, List, Bytes, codes}
use wxdap.Decimal.{ℤ}
use wxdap.Json.{CJson, Json, at_name}
use wxdap.Protocol.{Source, Response, response_from, read_string, read_number, not_found}

pub data EvaluateContext : Type 0 where
  variables watch repl hover clipboard : EvaluateContext

pub data SteppingGranularity : Type 0 where
  line statement instruction : SteppingGranularity

pub data ValueDisplayFormat : Type 0 where
  native hex : ValueDisplayFormat

pub data EnvFormat : Type 0 where
  dictionary list no_env : EnvFormat

pub record Environment : Type 0 where
  pub format : EnvFormat
  pub vars : List (Bytes × Bytes)

pub record SourceBreakpoint : Type 0 where
  pub line : ℤ
  pub condition : Bytes

pub record FunctionBreakpoint : Type 0 where
  pub name : Bytes
  pub condition : Bytes

pub record InitializeArguments : Type 0 where
  pub client_id : Bytes
  pub client_name : Bytes
  pub adapter_id : Bytes
  pub locale : Bytes
  pub lines_start_at1 : Bool
  pub columns_start_at1 : Bool
  pub supports_invalidated_event : Bool
  pub path_format : Bytes

pub data Arguments : Type 0 where
  initialize : InitializeArguments → Arguments
  set_breakpoints : (breakpoints : List SourceBreakpoint) → (path name : Bytes) → Arguments
  configuration_done threads : Arguments
  launch : (program : Bytes) → (args : List Bytes) → (cwd : Bytes) → Environment → Arguments
  attach : (arguments : List Bytes) → Arguments
  scopes : (frame_id : ℤ) → Arguments
  stack_trace : (thread_id levels start_frame : ℤ) → Arguments
  next : (thread_id : ℤ) → (single_thread : Bool) → (granularity : Bytes) → Arguments
  continue step_in step_out : (thread_id : ℤ) → (single_thread : Bool) → Arguments
  set_function_breakpoints : List FunctionBreakpoint → Arguments
  variables_of : (reference : ℤ) → (count : ℤ) → (hex : Bool) → Arguments
  pause : (thread_id : ℤ) → Arguments
  breakpoint_locations : (path : Bytes) → (line end_line : ℤ) → Arguments
  source_of : Source → (reference : ℤ) → Arguments
  evaluate : (frame_id : ℤ) → (expression : Bytes) → (hex : Bool) → (context : Bytes) → Arguments

pub record ClientRequest : Type 0 where
  pub seq : ℤ
  pub arguments : Arguments

-- `SourceResponse` and `EvaluateResponse`
pub record SourceResponse : Type 0 where
  pub base : Response
  pub content : Bytes
  pub mime_type : Bytes

pub record EvaluateResponse : Type 0 where
  pub base : Response
  pub result : Bytes
  pub type : Bytes
  pub variables_reference : ℤ

module _ (c : CJson) where
  open c use {Double}

  unfoldable pub source_response_from : Json Double → SourceResponse
  source_response_from j = record {
    base = response_from c j;
    content = read_string c (at_name j (codes "body")) (codes "content");
    mime_type = read_string c (at_name j (codes "body")) (codes "mimeType");
  }

  unfoldable pub evaluate_response_from : Json Double → EvaluateResponse
  evaluate_response_from j = record {
    base = response_from c j;
    result = read_string c (at_name j (codes "body")) (codes "result");
    type = read_string c (at_name j (codes "body")) (codes "type");
    variables_reference =
        read_number c (at_name j (codes "body")) (codes "variablesReference") not_found;
  }
