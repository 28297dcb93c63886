-- ===== src/Protocol/Items.antt =====
-- dap/dap.hpp and dap/dap.cpp: what the bodies of the responses hold.
pub mod RoundTrip
use wxdap.Base.{ℕ, Bool, true, false, Option, none, some, List, [], Bytes, codes}
use wxdap.Decimal.{ℤ, pos, negsuc}
use wxdap.Json.{
  CJson, Json, get_string, get_number, get_integer, get_bool, at_name, get_string_array,
}
use wxdap.Json.Build.{
  create_array, create_object, add_string, add_int, add_bool, add_object, add_item, add_strings,
  add_json,
}
use wxdap.Json.Arrays.{items_to, list_from}
use wxdap.Protocol.{
  Response, Source, Breakpoint, response_to, response_from, read_string, read_int, read_bool,
  read_number, not_found,
}
use wxdap.Protocol.Structs.{source_to, source_from, breakpoint_to, breakpoint_from}
use wxdap.Protocol.Requests.{SourceResponse, EvaluateResponse}

pub record Thread : Type 0 where
  pub id : ℤ
  pub name : Bytes

pub record StackFrame : Type 0 where
  pub id : ℤ
  pub name : Bytes
  pub source : Source
  pub line : ℤ

pub record Scope : Type 0 where
  pub name : Bytes
  pub variables_reference : ℤ
  pub expensive : Bool

pub record VariablePresentationHint : Type 0 where
  pub kind : Bytes
  pub attributes : List Bytes
  pub visibility : Bytes

pub record Variable : Type 0 where
  pub name : Bytes
  pub value : Bytes
  pub type : Bytes
  pub variables_reference : ℤ
  pub presentation_hint : VariablePresentationHint

pub record BreakpointLocation : Type 0 where
  pub line : ℤ
  pub column : ℤ
  pub end_line : ℤ
  pub end_column : ℤ

module _ (c : CJson) where
  open c use {Double, of_int, to_bool}

  unfoldable pub thread_to : Thread → Json Double
  thread_to t = add_string c (add_int c (create_object c) (codes "id") t.id) (codes "name") t.name

  unfoldable pub thread_from : Json Double → Thread
  thread_from j = record { id = read_int c j (codes "id"); name = read_string c j (codes "name") }

  unfoldable pub stack_frame_to : StackFrame → Json Double
  stack_frame_to f =
      let j1 = add_string c (create_object c) (codes "name") f.name in
      let j2 = add_int c j1 (codes "id") f.id in
      let j3 = add_int c j2 (codes "line") f.line in
      add_object c j3 (codes "source") (source_to c f.source)

  unfoldable pub stack_frame_from : Json Double → StackFrame
  stack_frame_from j = record {
    id = read_int c j (codes "id");
    name = read_string c j (codes "name");
    source = source_from c (at_name j (codes "source"));
    line = read_int c j (codes "line");
  }

  unfoldable pub scope_to : Scope → Json Double
  scope_to s =
      let j1 = add_string c (create_object c) (codes "name") s.name in
      let j2 = add_int c j1 (codes "variablesReference") s.variables_reference in
      add_bool c j2 (codes "expensive") s.expensive

  unfoldable pub scope_from : Json Double → Scope
  scope_from j = record {
    name = read_string c j (codes "name");
    variables_reference = read_int c j (codes "variablesReference");
    expensive = read_bool c j (codes "expensive");
  }

  unfoldable pub hint_to : VariablePresentationHint → Json Double
  hint_to h =
      let j1 = add_string c (create_object c) (codes "kind") h.kind in
      let j2 = add_string c j1 (codes "visibility") h.visibility in
      add_strings c j2 (codes "attributes") h.attributes

  unfoldable pub hint_from : Json Double → VariablePresentationHint
  hint_from j = record {
    kind = read_string c j (codes "kind");
    attributes = get_string_array (at_name j (codes "attributes"));
    visibility = read_string c j (codes "visibility");
  }

  unfoldable pub variable_to : Variable → Json Double
  variable_to v =
      let j1 = add_string c (create_object c) (codes "name") v.name in
      let j2 = add_string c j1 (codes "value") v.value in
      let j3 = add_string c j2 (codes "type") v.type in
      let j4 = add_int c j3 (codes "variablesReference") v.variables_reference in
      add_json c j4 (codes "presentationHint") (hint_to v.presentation_hint)

  unfoldable pub variable_from : Json Double → Variable
  variable_from j = record {
    name = read_string c j (codes "name");
    value = read_string c j (codes "value");
    type = read_string c j (codes "type");
    variables_reference = read_int c j (codes "variablesReference");
    presentation_hint = hint_from (at_name j (codes "presentationHint"));
  }

  unfoldable pub location_to : BreakpointLocation → Json Double
  location_to l =
      let j1 = add_int c (create_object c) (codes "line") l.line in
      let j2 = add_int c j1 (codes "column") l.column in
      let j3 = add_int c j2 (codes "endLine") l.end_line in
      add_int c j3 (codes "endColumn") l.end_column

  -- The line is read from "restart", the column twice, and the end line not at all.
  unfoldable pub location_from : Json Double → BreakpointLocation
  location_from j =
      let column = get_integer (at_name j (codes "column")) not_found in
      record {
        line = get_integer (at_name j (codes "restart")) not_found;
        column = get_integer (at_name j (codes "column")) column;
        end_line = not_found;
        end_column = get_integer (at_name j (codes "endColumn")) not_found;
      }
